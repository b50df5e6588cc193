-- ===== src/Tests.antt =====
-- The theorems about the connection at concrete inputs.
mod Parts
mod Queue
mod Rows
mod Served
mod Casts
mod Context
mod Making
mod Once
mod Options
mod Tls
mod Waiting
mod Runs
use uv_client_server.Base.{
  ℕ, ◌+◌, ◌^◌, ◌<◌, ◌≤◌, ◌≡◌, ◌≢◌, refl, ap, ◌∙◌, ◌⊎◌, List, [], ◌∷◌, ◌++◌, Bool, true, false,
  Option, none, some, Result, ok, err, out_of_bounds, ◌>>=◌, if◌then◌else◌, length, drop, replicate,
  take, get_elem?, codes, arith, zero, suc, subst, bad_pointer,
}
use uv_client_server.Pool.{
  Pool, streams_of, find_least_busy, borrow_connection, maybe_spawn_connection, new_pool,
}
use uv_client_server.Pool.Choice.{Place, Least, find_least_busy_lem, borrow_connection_busy}
use uv_client_server.Pool.Spawn.{with_pending, maybe_spawn_connection_lem, new_pool_lem}
use uv_client_server.Memory.{Bytes, Pointer, Allocator, new_char, block_of}
use uv_client_server.Memory.Emits.{at}
use uv_client_server.Errors.{Error, source_server}
use uv_client_server.Serialization.{encode_string_map, decode_string_map}
use uv_client_server.Serialization.Encode.{wire_string_map}
use uv_client_server.Serialization.RoundTrip.{decode-encode_string_map}
use uv_client_server.StreamStorage.{
  StreamStorage, new_storage, set_stream, get_stream, available_streams, already_released, output,
}
use uv_client_server.StreamStorage.Inv.{Inv, claimed, new_storage-Inv, claimed-Inv}
use uv_client_server.StreamStorage.Laws.{
  outstanding, set_stream_lem, set_stream_last, get_stream_lem, get_stream_unallocated,
  get_stream-Inv,
}
use uv_client_server.Request.{Request}
use uv_client_server.Body
use uv_client_server.Body.{Body}
use uv_client_server.Body.Error.{BodyError, error_with, new_error, consume-error}
use uv_client_server.Body.Error
use uv_client_server.Body.Startup.{BodyStartup, new_startup, consume-startup}
use uv_client_server.Body.Startup
use uv_client_server.Body.Supported.{new_supported, wire_multimap, or_else, consume-wire}
use uv_client_server.Body.Supported
use uv_client_server.Body.Query.{BodyQuery, new_query, query_string}
use uv_client_server.Body.Query.Layout
use uv_client_server.Body.Results.{
  BodyResult, new_result, kind_set_keyspace, kind_void, parse_metadata,
}
use uv_client_server.Body.Results.Column.{new_column}
use uv_client_server.Body.Results.Metadata.{
  Column, wire_metadata, metadata_of_all, index_of, parse_metadata-wire,
}
use uv_client_server.Message.{Message, Output, new_message, header_size}
use uv_client_server.Message
use uv_client_server.Message.Frame
use uv_client_server.Message.Frame.{Framed, prepare-Carries, prepare_empty, wire_header}
use uv_client_server.Message.Receive.{header_of, completed}
use uv_client_server.Message.Chunks.{feed, consume-chunked}
use uv_client_server.Message.Split.{consume-split_body}
use uv_client_server.Connection.{
  Connection, new_connection, before_ready, notify_error, handshake, send_message, emit,
  resolve_host,
}
use uv_client_server.Connection.Incoming.{on_read, on_error, on_result, c_string}
use uv_client_server.Connection.Sending.{Sent, frame_of, send_message-Carries}
use uv_client_server.Connection.Replies.{
  Answered, on_result-Answered, on_error_lem, on_error_unterminated,
}
use uv_client_server.Connection.Handshake.{Opened, handshake_opens}
use uv_client_server.Connection.Exchange.{
  keyspace_query, Exchanged, send_message-on_result, KeyspaceSet, set_keyspace-on_result,
}
use uv_client_server.Connection.Handlers.{
  event_received, on_state, init, on_connect, on_supported, on_ready,
}
use uv_client_server.Connection.Reach.{
  Reaches, run, start_here, and_then, call_init, new_connection-Valid,
}
use uv_client_server.Connection.Reading.{Frame, wires, handle_all, on_read_frames}

-- An allocator that gives exactly what was asked for, and one with eight bytes more.
abbrev tight : Allocator
tight = record { slack = 0; junk = λ i. 0xCD }

abbrev roomy : Allocator
roomy = record { slack = 8; junk = λ i. 0xCD }

abbrev connection : Connection
unfolding new_connection new_message new_storage
connection = record (new_connection tight) {
  has_connect_callback = true;
  has_keyspace_callback = true;
}

abbrev query_body : BodyQuery
query_body = record new_query { query = codes "SELECT 1" }

abbrev query_message : Message
query_message = record (new_message tight) { opcode = 7; body = some (Body.query query_body) }

abbrev void_body : BodyResult
void_body = record new_result { kind = kind_void }

abbrev void_message : Message
void_message = record (new_message tight) { opcode = 8; body = some (Body.result void_body) }

-- A connection whose one request is in flight on stream 1.
abbrev request : Request
request = record {
  flag = false;
  error = none;
  content = [];
  result = none;
  callback = true;
  use_local_loop = false;
}

abbrev waiting : Connection
waiting = record connection {
  stream_storage = claimed 126 (new_storage 127) 1 (some 0);
  requests = request ∷ [];
}

-- The request is there, and has no stream.
abbrev asked : Connection
asked = record connection { requests = request ∷ [] }

waiting-Inv : Inv 126 waiting.stream_storage
unfolding new_storage
waiting-Inv = claimed-Inv 126 (new_storage 127) 1 (some 0) (new_storage-Inv 126) (omega arith) refl

abbrev void_on_one : Message
void_on_one = record void_message { stream = 1 }

void_not_keyspace : void_body.kind ≢ 3
void_not_keyspace e = omega arith

void_not_prepared : void_body.kind ≢ 4
void_not_prepared e = omega arith

send_message-on_result_example :
    Exchanged tight asked query_message void_message 0 request
      (frame_of tight query_message (Layout.payload query_body) 0)
unfolding connection new_storage
send_message-on_result_example =
    send_message-on_result tight asked query_message void_message 0 request void_body refl
      (Frame.query query_body tt) refl (omega arith) (omega arith) refl void_not_keyspace
      void_not_prepared (new_storage-Inv 126) (omega arith)

set_keyspace-on_result_example :
    KeyspaceSet tight connection
      (codes "ks")
      (record void_message { body = some (Body.result (record void_body { kind = 3 })) })
      (record void_body { kind = 3 })
unfolding connection new_storage keyspace_query
set_keyspace-on_result_example =
    set_keyspace-on_result tight connection (codes "ks")
      (record void_message { body = some (Body.result (record void_body { kind = 3 })) })
      (record void_body { kind = 3 }) (omega arith) refl refl (new_storage-Inv 126) (omega arith)

handshake_opens_example : Opened roomy connection (
    on_connect roomy connection false >>= λ c₁.
    on_supported roomy c₁ void_message >>= λ c₂. on_ready roomy c₂ void_message)
unfolding connection new_storage
handshake_opens_example =
    handshake_opens roomy connection void_message void_message (omega arith) refl (omega arith)
      (new_storage-Inv 126) (omega arith)

abbrev resolving : Connection
resolving =
    emit
      (record (new_connection tight) { has_connect_callback = true; has_keyspace_callback = true })
      resolve_host

to_resolving : Reaches tight (ok []) (new_connection tight) resolving
unfolding run init event_received on_state new_connection
to_resolving = and_then (call_init true true) start_here refl

new_connection-Valid_example : Inv 126 resolving.stream_storage
new_connection-Valid_example = new_connection-Valid tight (ok []) to_resolving

send_message-Carries_example :
    Sent connection none
      (frame_of tight query_message (Layout.payload query_body) 0)
      (send_message tight connection query_message none)
unfolding connection new_storage
send_message-Carries_example =
    send_message-Carries tight connection query_message none (Frame.query query_body tt) refl
      (omega arith) (omega arith) (new_storage-Inv 126) (omega arith)

on_result-Answered_example :
    Answered waiting 0 1 request void_on_one (on_result waiting void_on_one)
unfolding connection new_storage
on_result-Answered_example =
    on_result-Answered waiting void_on_one void_body 0 request refl void_not_keyspace
      void_not_prepared waiting-Inv refl refl

prepare-Carries_example :
    Framed tight query_message (Layout.payload query_body) 0 (Message.prepare tight query_message)
prepare-Carries_example =
    prepare-Carries tight query_message (Frame.query query_body tt) refl (omega arith)

-- An OPTIONS message.
abbrev options_message : Message
options_message = record (new_message tight) { opcode = 5; body = some Body.options }

prepare_empty_example :
    ((tight.slack < header_size) × (Message.prepare tight options_message ≡ err out_of_bounds))
    ⊎ ((header_size ≤ tight.slack)
        × ((out : Output) × (Message.prepare tight options_message ≡ ok (some out))
            × (take out.size out.block ≡ wire_header (record options_message { length = 0 }))
            × (out.message ≡ record options_message { length = 0 })))
prepare_empty_example = prepare_empty tight options_message Frame.options refl

-- A pool of two connections, of which the second has one stream fewer.
abbrev pool : Pool
pool = record {
  core_connections_per_host = 1;
  max_connections_per_host = 2;
  max_simultaneous_creation = 1;
  connections = connection ∷ (waiting ∷ []);
  connections_pending = [];
}

find_least_busy_lem_example :
    ((find_least_busy pool ≡ ok none)
      × ((i : ℕ) (d : Connection) → get_elem? pool.connections i ≡ some d → streams_of d ≡ 0))
    ⊎ ((best : Connection) × (find_least_busy pool ≡ ok (some best))
        × (0 < streams_of best)
        × Place pool.connections best
        × Least pool.connections best)
find_least_busy_lem_example = find_least_busy_lem pool connection (waiting ∷ []) refl

abbrev exhausted : Connection
exhausted = record connection {
  stream_storage = record connection.stream_storage { available_streams_index = 127 };
}

abbrev busy_pool : Pool
busy_pool = record pool { max_connections_per_host = 1; connections = exhausted ∷ [] }

no_stream_left :
    (i : ℕ) (d : Connection) → get_elem? busy_pool.connections i ≡ some d → streams_of d ≡ 0
unfolding available_streams
no_stream_left zero d e = let same : exhausted ≡ d = cc in subst (λ x. streams_of x ≡ 0) same refl
no_stream_left (suc i) d e = cc

borrow_connection_busy_example : borrow_connection busy_pool true ≡ ok (none, none)
borrow_connection_busy_example =
    borrow_connection_busy busy_pool exhausted [] refl no_stream_left (omega arith)

abbrev growing : Pool
growing = record pool { max_connections_per_host = 3 }

maybe_spawn_connection_lem_example :
    ((maybe_spawn_connection tight growing ≡ ok growing)
      × ((growing.max_simultaneous_creation ≤ length growing.connections_pending)
          ⊎ (growing.max_connections_per_host
              ≡ length growing.connections + length growing.connections_pending)))
    ⊎ ((maybe_spawn_connection tight growing ≡ ok (with_pending tight growing))
        × (length (with_pending tight growing).connections_pending
            ≤ growing.max_simultaneous_creation)
        × (length growing.connections + length (with_pending tight growing).connections_pending
            ≤ growing.max_connections_per_host))
maybe_spawn_connection_lem_example = maybe_spawn_connection_lem tight growing (omega arith)

new_pool_lem_example :
    (p : Pool) × (new_pool tight 2 8 1 ≡ ok p)
    × (length p.connections_pending ≡ 2)
    × (borrow_connection p true ≡ err bad_pointer)
new_pool_lem_example = new_pool_lem tight 2 8 1 true
