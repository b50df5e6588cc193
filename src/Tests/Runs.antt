-- ===== src/Tests/Runs.antt =====
-- The messages of src/test/main.cpp, run.
use uv_client_server.Base.{◌≡◌, refl, [], ◌∷◌, ◌++◌, Option, some, Result, ok, take, codes}
use uv_client_server.Memory.{Bytes, Allocator, new_char, fill, offset, advance, memcpy}
use uv_client_server.Serialization.{
  encode_byte, encode_short, encode_int, encode_string, encode_long_string, encode_entries,
  encode_string_map,
}
use uv_client_server.StdMap.{assign, str_lt}
use uv_client_server.Body
use uv_client_server.Body.{Body}
use uv_client_server.Body.Block.{write_block}
use uv_client_server.Body.Startup.{new_startup, add_option}
use uv_client_server.Body.Startup
use uv_client_server.Body.Query.{
  new_query, add_sizes, prepare_size, prepare_flags, write_values, write,
}
use uv_client_server.Body.Query
use uv_client_server.Message.{
  Message, Output, new_message, allocate_body, prepare_with, place_header, write_header,
}
use uv_client_server.Message

abbrev exact : Allocator
exact = record { slack = 0; junk = λ i. 0xCD }

-- The bytes of the frame.
abbrev frame_bytes : Result (Option Output) → Bytes
frame_bytes (ok (some out)) = take out.size out.block
frame_bytes _ = []

abbrev startup_message : Message
unfolding new_message
startup_message = record (new_message exact) { opcode = 1; body = some (Body.startup new_startup) }

test_startup_prepare :
    frame_bytes (Message.prepare exact startup_message)
    ≡ 0x02 ∷ 0x00 ∷ 0x00 ∷ 0x01 ∷ 0x00 ∷ 0x00 ∷ 0x00 ∷ 0x16 ∷ 0x00 ∷ 0x01 ∷ 0x00 ∷ 0x0b ∷ []
      ++ codes "CQL_VERSION"
      ++ 0x00 ∷ 0x05 ∷ codes "3.0.0"
unfolding startup_message Message.prepare prepare_with Body.prepare Startup.prepare add_option
    write_block encode_string_map encode_entries encode_string encode_short encode_byte encode_int
    memcpy new_char fill offset advance place_header write_header assign str_lt
test_startup_prepare = refl

abbrev paging_message : Message
unfolding new_message
paging_message = record (new_message exact) {
  opcode = 7;
  body = some (
      Body.query (record new_query {
        query = codes "SELECT * FROM system.peers;";
        consistency = 1;
        paging_state = codes "foobar";
      }));
}

test_query_paging_prepare :
    frame_bytes (Message.prepare exact paging_message)
    ≡ 0x02 ∷ 0x00 ∷ 0x00 ∷ 0x07 ∷ 0x00 ∷ 0x00 ∷ 0x00 ∷ 0x2a ∷ 0x00 ∷ 0x00 ∷ 0x00 ∷ 0x1b ∷ []
      ++ codes "SELECT * FROM system.peers;"
      ++ 0x00 ∷ 0x01 ∷ 0x08 ∷ 0x00 ∷ 0x06 ∷ codes "foobar"
unfolding paging_message Message.prepare prepare_with Body.prepare Query.prepare prepare_size
    prepare_flags add_sizes write write_values write_block encode_string encode_long_string
    encode_short encode_byte encode_int memcpy new_char fill offset advance place_header
    write_header
test_query_paging_prepare = refl
