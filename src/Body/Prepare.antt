-- ===== src/Body/Prepare.antt =====
-- include/cql_body_prepare.hpp.
use uv_client_server.Base.{ℕ, ◌+◌, [], Bool, true, Result, ok, length, take, arith}
use uv_client_server.Memory.{Bytes, Allocator}
use uv_client_server.Serialization.{encode_long_string}
use uv_client_server.Serialization.Encode.{wire_long_string, encode_long_string-Emits}
use uv_client_server.Body.Block.{Prepared, write_block, Lays, write_block-Lays}
use uv_client_server.Opcode.{opcode_prepare}

abbrev pub opcode : ℕ
opcode = opcode_prepare

pub record BodyPrepare : Type 0 where
  pub statement : Bytes

abbrev pub new_prepare : BodyPrepare
new_prepare = record { statement = [] }

-- _prepare.assign(input, size)
unfoldable pub prepare_string : BodyPrepare → Bytes → ℕ → BodyPrepare
prepare_string body input size = record body { statement = take size input }

unfoldable pub consume : BodyPrepare → Bytes → Result (BodyPrepare × Bool)
consume body buffer = ok (body, true)

unfoldable pub prepare : Allocator → BodyPrepare → ℕ → Result Prepared
prepare alloc body reserved =
    write_block alloc reserved (reserved + 4 + length body.statement)
      λ p. encode_long_string p body.statement (length body.statement)

abbrev pub payload : BodyPrepare → Bytes
payload body = wire_long_string body.statement

pub prepare-Lays :
    (alloc : Allocator) (body : BodyPrepare) (reserved : ℕ)
    → Lays alloc reserved (payload body) 0 (prepare alloc body reserved)
unfolding prepare
prepare-Lays alloc body reserved =
    write_block-Lays alloc reserved (reserved + 4 + length body.statement) 0
      (λ p. encode_long_string p body.statement (length body.statement)) (payload body)
      (encode_long_string-Emits body.statement) (omega arith)
