-- ===== src/Tests/Parts.antt =====
-- The theorems about storage, bodies and messages at concrete inputs, and runs of the code.
use uv_client_server.Base.{
  ℕ, ◌+◌, ◌<◌, ◌≤◌, ◌≡◌, ◌≢◌, refl, List, [], ◌∷◌, ◌++◌, true, false, none, some, ok, err,
  out_of_bounds, ◌>>=◌, if◌then◌else◌, ◌==◌, length, drop, replicate, take, codes, arith,
}
use uv_client_server.Memory.{
  Bytes, Pointer, Allocator, new_char, fill, advance, load_16, load_32, block_of,
}
use uv_client_server.Memory.Emits.{at}
use uv_client_server.Errors.{source_server}
use uv_client_server.Serialization.{
  encode_string_map, decode_string_map, decode_int, decode_string, decode_short,
}
use uv_client_server.Serialization.Encode.{wire_string_map}
use uv_client_server.Serialization.RoundTrip.{decode-encode_string_map}
use uv_client_server.StreamStorage.{
  StreamStorage, new_storage, set_stream, get_stream, available_streams, output,
}
use uv_client_server.StreamStorage.Inv.{Inv, claimed, new_storage-Inv, claimed-Inv}
use uv_client_server.StreamStorage.Laws.{
  outstanding, set_stream_lem, set_stream_last, get_stream_lem,
}
use uv_client_server.StdMap.{find, str_lt}
use uv_client_server.Body
use uv_client_server.Body.{Body}
use uv_client_server.Body.Error.{BodyError, error_with, new_error, consume-error}
use uv_client_server.Body.Error
use uv_client_server.Body.Startup.{BodyStartup, new_startup, consume-startup}
use uv_client_server.Body.Startup
use uv_client_server.Body.Supported.{new_supported, wire_multimap, or_else, consume-wire}
use uv_client_server.Body.Supported
use uv_client_server.Body.Results.{new_result, parse_metadata}
use uv_client_server.Body.Results.Column.{new_column}
use uv_client_server.Body.Results.Metadata.{
  Column, wire_metadata, metadata_of_all, index_of, parse_metadata-wire,
}
use uv_client_server.Message.{Message, Output, allocate_body, new_message, header_size}
use uv_client_server.Message
use uv_client_server.Message.RoundTrip.{received_startup, prepare-consume_startup}
use uv_client_server.Message.Receive.{header_of, completed}
use uv_client_server.Message.Chunks.{feed, consume-chunked}
use uv_client_server.Message.Split.{consume-split_body}
use uv_client_server.Connection.{Connection, new_connection, before_ready, notify_error, handshake}
use uv_client_server.Connection.Incoming.{on_read, on_error, c_string}
use uv_client_server.Connection.Replies.{on_error_lem, on_error_unterminated}
use uv_client_server.Connection.Reading.{Frame, wires, handle_all, on_read_frames}

abbrev pub tight : Allocator
tight = record { slack = 0; junk = λ i. 0xCD }

apart : (a b : ℕ) → (a == b) ≡ false → a ≢ b
apart a b differ same = ground arith

abbrev two_streams : StreamStorage ℕ
two_streams = claimed 2 (new_storage 3) 1 70

two_streams-Inv : Inv 2 two_streams
unfolding new_storage
two_streams-Inv = claimed-Inv 2 (new_storage 3) 1 70 (new_storage-Inv 2) (omega arith) refl

abbrev last_left : StreamStorage ℕ
last_left = claimed 1 (new_storage 2) 1 70

last_left-Inv : Inv 1 last_left
unfolding new_storage
last_left-Inv = claimed-Inv 1 (new_storage 2) 1 70 (new_storage-Inv 1) (omega arith) refl

set_stream_lem_example :
    (s' : StreamStorage ℕ) × (id : ℕ) × (set_stream (2 + 1) two_streams 71 ≡ ok (s', output id))
    × (0 < id)
    × (id ≤ 2)
    × (outstanding two_streams id ≡ none)
    × ((j : ℕ) → outstanding s' j ≡ (if id == j then some 71 else outstanding two_streams j))
    × (available_streams (2 + 1) s' + 1 ≡ available_streams (2 + 1) two_streams)
    × Inv 2 s'
unfolding new_storage
set_stream_lem_example = set_stream_lem 2 two_streams 71 two_streams-Inv (omega arith)

set_stream_last_example :
    (available_streams (1 + 1) last_left ≡ 1)
    × (set_stream (1 + 1) last_left 71 ≡ err out_of_bounds)
unfolding new_storage
set_stream_last_example = set_stream_last 1 last_left 71 last_left-Inv refl

get_stream_lem_example :
    (s' : StreamStorage ℕ) × (get_stream two_streams 1 true ≡ ok (s', some 70, none))
    × ((j : ℕ) → outstanding s' j ≡ (if 1 == j then none else outstanding two_streams j))
    × (available_streams (2 + 1) s' ≡ available_streams (2 + 1) two_streams + 1)
    × Inv 2 s'
unfolding new_storage
get_stream_lem_example = get_stream_lem 2 two_streams 1 70 two_streams-Inv refl

abbrev options_map : List (Bytes × Bytes)
options_map = (codes "A", codes "x") ∷ (codes "B", codes "y") ∷ []

decode-encode_string_map_example :
    (q : Pointer) × (encode_string_map (at (1 ∷ []) (replicate 20 0)) options_map ≡ ok q)
    × (decode_string_map (drop 1 (block_of q)) ≡ ok (options_map, q.after))
    × (q.after ≡ drop (length (wire_string_map options_map)) (replicate 20 0))
unfolding str_lt
decode-encode_string_map_example =
    decode-encode_string_map options_map (1 ∷ []) (replicate 20 0) (omega arith)
      (omega arith, omega arith, (omega arith, omega arith, tt)) (tt, ((refl, tt), tt))
      (omega arith)

abbrev startup_body : BodyStartup
startup_body = record { cql_version = codes "3.1.0"; compression = codes "snappy" }

version_given : startup_body.cql_version ≢ []
version_given e = cc

abbrev supported_map : List (Bytes × List Bytes)
supported_map = (codes "CQL_VERSION", codes "3.0.0" ∷ []) ∷ []

consume-wire_example :
    Supported.consume new_supported (wire_multimap supported_map ++ [])
    ≡ ok (
      record {
        compression = or_else (find (codes "COMPRESSION") supported_map) [];
        cql_versions = or_else (find (codes "CQL_VERSION") supported_map) [];
      },
      true,
    )
consume-wire_example =
    consume-wire supported_map [] (omega arith) (omega arith, omega arith, (omega arith, tt), tt)
      (tt, tt)

abbrev columns : List Column
columns = (codes "id", 9) ∷ (codes "name", 13) ∷ []

parse_metadata-wire_example :
    parse_metadata (new_result, wire_metadata (codes "ks") (codes "t") columns ++ (5 ∷ []))
    ≡ ok (
      record new_result {
        column_count = 2;
        keyspace = (codes "ks", 2);
        table = (codes "t", 1);
        column_metadata = replicate 2 new_column ++ metadata_of_all columns;
        column_index = index_of 0 columns [];
      },
      5 ∷ [],
    )
parse_metadata-wire_example =
    parse_metadata-wire (codes "ks") (codes "t") (5 ∷ []) columns (omega arith) (omega arith)
      (omega arith)
      (
        (
          omega arith,
          omega arith,
          apart 9 0 refl,
          apart 9 32 refl,
          apart 9 33 refl,
          apart 9 34 refl,
        ),
        (
          (
            omega arith,
            omega arith,
            apart 13 0 refl,
            apart 13 32 refl,
            apart 13 33 refl,
            apart 13 34 refl,
          ),
          tt,
        ),
      )

-- The content of an ERROR frame.
abbrev pub content : Bytes
content = 0 ∷ 0 ∷ 0 ∷ 10 ∷ 0 ∷ 2 ∷ 110 ∷ 111 ∷ []

abbrev pub read_body : Body
read_body = Body.error (record { code = 10; message = 110 ∷ 111 ∷ []; message_size = 2 })

pub parsed :
    Body.consume (Body.error new_error) (content ++ drop 8 (new_char tight 8))
    ≡ ok (read_body, true)
unfolding Body.consume Error.consume decode_int decode_string decode_short load_32 load_16 advance
    new_char fill
parsed = refl

consume-chunked_example :
    (feed tight (new_message tight) ((130 ∷ 0 ∷ []) ∷ (1 ∷ []) ∷ []) >>= λ m.
    Message.consume tight m ((0 ∷ 0 ∷ 0 ∷ 0 ∷ 8 ∷ []) ++ (content ++ (99 ∷ []))) 14)
    ≡ ok (completed 130 0 1 0 content tight (new_message tight) read_body true 17, 13)
unfolding allocate_body
consume-chunked_example =
    consume-chunked tight 130 0 1 0 content (Body.error new_error) read_body true
      ((130 ∷ 0 ∷ []) ∷ (1 ∷ []) ∷ []) (0 ∷ 0 ∷ 0 ∷ 0 ∷ 8 ∷ []) (99 ∷ []) refl (λ e. cc)
      (omega arith) refl parsed

consume-split_body_example :
    (feed tight (new_message tight) [] >>= λ m.
    Message.consume tight m (header_of 130 0 1 0 content ++ take 3 content) 11 >>= λ r.
    Message.consume tight r.0 (drop 3 content ++ []) 5)
    ≡ err out_of_bounds
unfolding allocate_body
consume-split_body_example =
    consume-split_body 130 0 1 0 content tight (Body.error new_error) []
      (header_of 130 0 1 0 content) (take 3 content) (drop 3 content) [] refl (λ e. cc) refl
      (λ e. cc) (omega arith) refl (omega arith)

abbrev frame : Frame tight
unfolding allocate_body
frame = record {
  version = 130;
  flags = 0;
  stream = 1;
  opcode = 0;
  content = content;
  blank = Body.error new_error;
  body = read_body;
  good = true;
  allocated = refl;
  parsed = parsed;
}

on_read_frames_example :
    on_read tight (new_connection tight) (some (wires tight (frame ∷ frame ∷ [])))
    ≡ handle_all tight (new_connection tight) (frame ∷ frame ∷ [])
unfolding frame new_connection
on_read_frames_example =
    on_read_frames tight (new_connection tight) (frame ∷ frame ∷ []) refl (new_storage-Inv 126)
      (omega arith)

abbrev shaking : Connection
shaking = record (new_connection tight) { state = handshake; has_connect_callback = true }

abbrev error_body : BodyError
error_body = record { code = 10; message = 110 ∷ 111 ∷ []; message_size = 2 }

abbrev error_message : Message
error_message = record (new_message tight) { body = some (Body.error error_body) }

test_error : on_error shaking error_message ≡ (
    if before_ready shaking.state
    then (c_string error_body.message >>= λ text.
        ok (notify_error shaking (record { source = source_server; code = 0; message = text })))
    else ok shaking)
test_error = on_error_lem shaking error_message error_body refl

test_unterminated : on_error shaking error_message ≡ err out_of_bounds
test_unterminated =
    on_error_unterminated shaking error_message error_body refl refl
      (apart 110 0 refl, (apart 111 0 refl, tt))

abbrev sent_message : Message
sent_message = record (new_message tight) { opcode = 1; body = some (Body.startup startup_body) }

prepare-consume_startup_example :
    (out : Output) × (Message.prepare tight sent_message ≡ ok (some out))
    × (Message.consume tight
          (new_message tight)
          (take out.size out.block)
          (length (take out.size out.block))
        ≡ ok (
          received_startup tight tight sent_message startup_body,
          header_size + length (Startup.payload startup_body),
        ))
prepare-consume_startup_example =
    prepare-consume_startup tight tight sent_message startup_body refl refl version_given
      (omega arith) (omega arith) (omega arith)
