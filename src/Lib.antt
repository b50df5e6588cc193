-- ===== src/Lib.antt =====
-- uv-client-server: a client of the binary protocol of CQL on libuv, in C++ headers under include/.
--
-- The parts, and the files that model them:
--   * Memory: blocks of `new char[n]`, pointers into them and memcpy. An access outside a block is a
--     value, `err out_of_bounds`. The allocator is a parameter: how many usable bytes it gives
--     beyond those asked for, and what a new block holds.
--   * StdMap: std::map of strings, sorted by the keys.
--   * Serialization: include/cql_serialization.hpp, one function for each encoder and decoder.
--     Serialization/Encode has the bytes that the encoders write, Serialization/RoundTrip what the
--     decoders make of them.
--   * Opcode, Errors: include/cql.h, include/cql_common.hpp, include/cql_error.hpp.
--   * Body: include/cql_body.hpp; the eight classes are the constructors of a data type, and
--     Body/Error to Body/Supported, Body/Query and Body/Results have a record and the functions
--     `consume` and `prepare` for each. Body/Block is the shape of `prepare` that they share,
--     Body/Results/Rows the iterator over rows.
--   * Message: include/cql_message.hpp. Message/Frame is about `prepare`; Message/Receive,
--     Message/Chunks and Message/Split are about `consume`; Message/RoundTrip is about both,
--     Message/Casts about the class of the body, Message/Progress about the bytes that are taken.
--   * StreamStorage: include/cql_stream_storage.hpp. StreamStorage/Inv has the invariant,
--     StreamStorage/Laws and StreamStorage/Steps the view of the storage as a finite map from
--     streams to requests.
--   * Request: include/cql_request.hpp. Request/Waiting has the threads in `wait`,
--     `wait_for` and `notify`.
--   * Connection: include/cql_client_connection.hpp. Connection/Handlers has the state machine and
--     the handlers, Connection/Incoming what received bytes do, Connection/Calls the methods of a
--     client. What leaves the connection, by libuv or by a callback, is a list of effects. Sending,
--     Replies, Exchange, Handshake, Reading, Inv, Received, Reach, Once and Looping in Connection are
--     proofs; Once follows each request and its stream, Looping is about the loop over a read.
--   * SslSession: include/cql_ssl_session.hpp, with OpenSSL as a parameter. Connection/Tls is what a
--     connection with TLS does otherwise: its reads and its handshake. Connection/Tls/Feeding and
--     Connection/Tls/Stuck are proofs.
--   * SslContext: include/cql_ssl_context.hpp, the loading of certificates and keys, with what is
--     allocated and freed; SslContext/Settings has its set-up, SslContext/Making the making of keys
--     and certificates. SslContext/Balance and SslContext/Making/Account are about what is freed.
--   * Pool: include/cql_pool.hpp. Pool/Choice is about borrowing, Pool/Spawn about how many
--     connections there are.
--   * MpmcQueue: include/cql_mpmc_queue.hpp, as steps of threads, one shared access at a time.
--     MpmcQueue/Index is the mask, MpmcQueue/Inv the invariant, MpmcQueue/Fifo is about all
--     interleavings and MpmcQueue/Solo about one thread.
--   * Cluster, Session: include/cql_cluster.hpp, include/cql_session.hpp, with the options and the
--     pools. Cluster/Setting is about options that follow each other.
--   * Client: src/client/main.cpp.
--   * Server: src/server/main.cpp. Server/Forgets is about what reads leave of a message.
--   * Base: lists and tests on native numbers, and the results of code that can fail.
--   * Tests: the theorems at concrete inputs.
--
-- A connection takes a stream from its storage for each message that it sends, has the message
-- write its frame, and hands the bytes to libuv. The bytes that libuv reads go through its incoming
-- message; a complete message goes to the handler of its opcode, which releases the stream and
-- wakes the request.
--
-- Integers of w bits are their bit patterns, with the wrap-around written out. The loops are
-- recursive on the data or on their count; the loop of the connection over a read has as many
-- rounds as the read has bytes, and each takes one byte at least;
-- the loop over a read with TLS has one round more than bytes, which is
-- enough as long as OpenSSL has room. The sequence numbers of the queue
-- wrap at 2^64; the difference of two of them is read as signed, so that the theorems are about
-- fewer than 2^63 items. Streams are numbered as the source does, from 1 to 127.
--
-- Not modelled: the log, the address and the handles of libuv; how long a time limit is; the
-- threads of a session; the order of the queue's accesses, which is taken to be the same for all
-- threads; the unit tests; the conversion to int of a
-- read of 2^31 bytes or more in include/cql_client_connection.hpp. `std::string(NULL)` in the
-- constructor of a request is a parameter, since the standard does not define it.
mod Base
pub mod Tests
pub mod Memory
pub mod StdMap
pub mod Serialization
pub mod Opcode
pub mod Body
pub mod Message
pub mod Errors
pub mod StreamStorage
pub mod Request
pub mod Connection
pub mod Pool
pub mod MpmcQueue
pub mod SslSession
pub mod Cluster
pub mod Server
pub mod Session
pub mod Client
pub mod SslContext
