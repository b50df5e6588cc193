-- ===== src/Tests/Served.antt =====
-- The server, with a frame in two reads, each into a buffer of 16 bytes.
use uv_client_server.Base.{◌≡◌, ◌+◌, refl, [], ◌∷◌, replicate, ok, arith}
use uv_client_server.Memory.{Bytes, memcpy, offset, advance, load_32, new_char, fill}
use uv_client_server.Message
use uv_client_server.Message.{new_message, copy_to, read_header, consume_body, byte, allocate_body}
use uv_client_server.Server.{
  Connection, new_connection, received, handle_read, consume_buffer, replace,
}
use uv_client_server.Server.Forgets.{serve, serve_forgets}
use uv_client_server.Tests.Parts.{tight}

-- The header of a QUERY frame with a body of 20 bytes, of which 4 have arrived: the other 4 bytes of
-- the buffer are taken for it too. Then the other 16 bytes, which happen to look like a header.
abbrev first : Bytes
first = 2 ∷ 0 ∷ 1 ∷ 7 ∷ 0 ∷ 0 ∷ 0 ∷ 20 ∷ 0 ∷ 0 ∷ 0 ∷ 14 ∷ replicate 4 205

abbrev second : Bytes
second = 2 ∷ 0 ∷ 1 ∷ 7 ∷ 0 ∷ 0 ∷ 0 ∷ 20 ∷ replicate 8 65

abbrev final : Connection
final = record (new_connection tight) { buffers = 2 }

served :
    serve tight (new_connection tight) (received 12 first 16 ∷ received 16 second 16 ∷ [])
    ≡ ok final
unfolding serve new_connection handle_read consume_buffer replace Message.consume copy_to offset
    memcpy advance read_header byte load_32 allocate_body consume_body new_message new_char fill
served = refl

serve_forgets_example :
    (final.incomming ≡ new_message tight) × (final.buffers ≡ (new_connection tight).buffers + 2)
unfolding new_connection
serve_forgets_example =
    serve_forgets tight (new_connection tight) final
      (received 12 first 16 ∷ received 16 second 16 ∷ []) refl
      ((omega arith, omega arith, omega arith), ((omega arith, omega arith, omega arith), tt))
      served
