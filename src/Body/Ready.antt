-- ===== src/Body/Ready.antt =====
-- include/cql_body_ready.hpp: a body with no content.
use uv_client_server.Base.{ℕ, Bool, true, some, Result, ok}
use uv_client_server.Memory.{Bytes, Allocator, new_char}
use uv_client_server.Body.Block.{Prepared}
use uv_client_server.Opcode.{opcode_ready}

abbrev pub opcode : ℕ
opcode = opcode_ready

unfoldable pub consume : Bytes → Result Bool
consume buffer = ok true

-- The block is allocated before `size` is set: with the size that the caller passed.
unfoldable pub prepare : Allocator → ℕ → ℕ → Result Prepared
prepare alloc reserved size =
    ok (record { output = some (new_char alloc size); size = reserved; result = true })
