-- ===== src/Tests/Once.antt =====
-- A statement and its response, from the constructor on.
use uv_client_server.Base.{
  Bool, ℕ, arith, ◌≡◌, refl, [], ◌∷◌, ◌&&◌, true, false, none, some, ok, if◌then◌else◌, get_elem?,
  codes, set, replicate,
}
use uv_client_server.Memory.{Bytes, new_char, fill, offset, advance, memcpy}
use uv_client_server.Serialization.{
  encode_byte, encode_short, encode_int, encode_string, encode_long_string,
}
use uv_client_server.StreamStorage
use uv_client_server.StreamStorage.{StreamStorage, new_storage, set_stream, read, ids}
use uv_client_server.StreamStorage.Laws.{outstanding}
use uv_client_server.Request.{Request, new_request}
use uv_client_server.Body
use uv_client_server.Body.{Body}
use uv_client_server.Body.Block.{write_block}
use uv_client_server.Body.Query.{new_query, add_sizes, prepare_size, prepare_flags, write_values}
use uv_client_server.Body.Query
use uv_client_server.Message.{Message, new_message, prepare_with, place_header, write_header}
use uv_client_server.Message
use uv_client_server.Connection.{Connection, new_connection, write, send_message, send_on}
use uv_client_server.Connection.Calls.{exec, start, report}
use uv_client_server.Connection.{notify_request, wakeup}
use uv_client_server.Connection.Incoming
use uv_client_server.Connection.Incoming.{
  consume_loop, take_message, on_message, on_result, as_result, on_kind, on_other, deliver_other,
  deliver, pointed, on_read,
}
use uv_client_server.Message.{copy_to, read_header, byte, allocate_body, consume_body}
use uv_client_server.Message.Receive.{completed}
use uv_client_server.Memory.{load_32}
use uv_client_server.Serialization.{decode_int}
use uv_client_server.Body.Results
use uv_client_server.Body.Results.{new_result}
use uv_client_server.Opcode.{opcode_to_string}
use uv_client_server.StreamStorage.{get_stream, release}
use uv_client_server.Request.{notify, queued}
use uv_client_server.Connection.Reach.{call_exec, call_read, run, start_here, and_then}
use uv_client_server.Connection.Once.{wakeups}
use uv_client_server.Connection.Looping.{Loops, on_read-Loops}
use uv_client_server.Connection.Once.Calls.{woken_once}
use uv_client_server.Tests.Parts.{tight}

-- The request that `exec` makes.
abbrev exec_request : Bytes → Bool → Request
exec_request content callback = record {
  flag = false;
  error = none;
  content = content;
  result = none;
  callback = callback;
  use_local_loop = false;
}

abbrev query_message : Message
unfolding new_message
query_message = record (new_message tight) {
  opcode = 7;
  body = some (Body.query (record new_query { query = codes "SELECT"; consistency = 1 }));
}

-- A RESULT frame of kind VOID on stream 1.
abbrev response : Bytes
response = 130 ∷ 0 ∷ 1 ∷ 8 ∷ 0 ∷ 0 ∷ 0 ∷ 4 ∷ 0 ∷ 0 ∷ 0 ∷ 1 ∷ []

abbrev query_frame : Bytes
query_frame =
    2 ∷ 0 ∷ 1 ∷ 7 ∷ 0 ∷ 0 ∷ 0 ∷ 13 ∷ 0 ∷ 0 ∷ 0 ∷ 6 ∷ 83 ∷ 69 ∷ 76 ∷ 69 ∷ 67 ∷ 84 ∷ 0 ∷ 1 ∷ 0 ∷ []

abbrev called : Connection
called = record (new_connection tight) {
  stream_storage = record (new_storage 127) {
    available_streams_index = 1;
    allocated_streams = set (replicate 127 false) 1 true;
    storage = set (replicate 127 none) 1 (some (some 0));
  };
  requests = exec_request [] true ∷ [];
  effects = write query_frame ∷ [];
}

test_called : run tight (ok []) (call_exec query_message true) (new_connection tight) ≡ ok called
unfolding run exec start report new_request send_message set_stream new_connection new_storage ids
    read StreamStorage.write send_on opcode_to_string Message.prepare prepare_with query_message
    Body.prepare Query.prepare add_sizes prepare_size prepare_flags write_values Query.write
    write_block encode_string encode_long_string encode_short encode_byte encode_int memcpy new_char
    fill offset advance place_header write_header new_message
test_called = refl

abbrev void_message : Message
void_message =
    completed 130 0 1 8 (0 ∷ 0 ∷ 0 ∷ 1 ∷ []) tight (new_message tight)
      (Body.result (record new_result { kind = 1 })) true 12

abbrev answered : Connection
answered = record called {
  stream_storage = record called.stream_storage {
    available_streams_index = 0;
    allocated_streams = set called.stream_storage.allocated_streams 1 false;
  };
  requests = record (exec_request [] true) { result = some void_message; flag = true } ∷ [];
  effects = write query_frame ∷ wakeup 0 queued ∷ [];
}

test_answered : run tight (ok []) (call_read (some response)) called ≡ ok answered
unfolding run on_read Incoming.consume consume_loop Message.consume copy_to offset memcpy
    read_header byte load_32 allocate_body consume_body Body.consume Results.consume decode_int
    advance take_message on_message opcode_to_string on_result as_result on_kind on_other get_stream
    release deliver_other deliver pointed notify_request notify new_storage ids read
    StreamStorage.write new_message new_connection new_char fill Results.parse_kind
test_answered = refl

test_woken : wakeups 0 answered.effects ≡ 1
test_woken = refl

woken_once_example :
    ((r : ℕ) (request : Request)
      → get_elem? answered.requests r ≡ some request
      → wakeups r answered.effects ≡ (if request.flag && request.callback then 1 else 0))
    × ((j r : ℕ)
        → outstanding answered.stream_storage j ≡ some (some r)
        → (request : Request) × (get_elem? answered.requests r ≡ some request)
          × (request.flag ≡ false))
    × ((j k r : ℕ)
        → outstanding answered.stream_storage j ≡ some (some r)
        → outstanding answered.stream_storage k ≡ some (some r)
        → j ≡ k)
woken_once_example = woken_once tight (ok []) (
    and_then (call_read (some response))
      (and_then (call_exec query_message true) start_here test_called) test_answered)

on_read-Loops_example : Loops tight called response 12 (on_read tight called (some response))
on_read-Loops_example =
    on_read-Loops tight (ok []) (and_then (call_exec query_message true) start_here test_called)
      (tt, tt) response (omega arith)
