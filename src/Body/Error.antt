-- ===== src/Body/Error.antt =====
-- include/cql_body_error.hpp.
use uv_client_server.Base.{
  ℕ, ◌+◌, ◌^◌, ◌<◌, ◌≡◌, [], ◌++◌, Bool, true, Result, ok, ◌>>=◌, length, arith, append_assoc,
}
use uv_client_server.Memory.{Bytes, Allocator, be_32}
use uv_client_server.Memory.Emits.{>>=-Emits}
use uv_client_server.Serialization.{int32, encode_int, encode_string, decode_int, decode_string}
use uv_client_server.Serialization.Encode.{wire_string, encode_int-Emits, encode_string-Emits}
use uv_client_server.Serialization.RoundTrip.{decode_int-be, decode_string-wire}
use uv_client_server.Body.Block.{Prepared, write_block, Lays, write_block-Lays}
use uv_client_server.Opcode.{opcode_error}

abbrev pub opcode : ℕ
opcode = opcode_error

-- `message` is a pointer: all bytes from it to the end of its block, of which `message_size` count.
pub record BodyError : Type 0 where
  pub code : ℕ
  pub message : Bytes
  pub message_size : ℕ

-- BodyError()
abbrev pub new_error : BodyError
new_error = record { code = 0xFFFF_FFFF; message = []; message_size = 0 }

-- BodyError(code, input, input_size), where `input` holds `input_size` bytes
abbrev pub error_with : ℕ → Bytes → BodyError
error_with code input = record { code = int32 code; message = input; message_size = length input }

unfoldable pub consume : BodyError → Bytes → Result (BodyError × Bool)
consume body buffer = do
  (code, buffer₁) ← decode_int buffer
  (message, message_size, rest) ← decode_string buffer₁ body.message_size
  ok (record { code = code; message = message ++ rest; message_size = message_size }, true)

unfoldable pub prepare : Allocator → BodyError → ℕ → Result Prepared
prepare alloc body reserved =
    write_block alloc reserved (reserved + 4 + 2 + body.message_size)
      λ p. do buffer ← encode_int p body.code; encode_string buffer body.message body.message_size

abbrev pub payload : BodyError → Bytes
payload body = be_32 body.code ++ wire_string body.message

pub prepare-Lays :
    (alloc : Allocator) (body : BodyError) (reserved : ℕ)
    → body.message_size ≡ length body.message
    → Lays alloc reserved (payload body) 0 (prepare alloc body reserved)
unfolding prepare
prepare-Lays alloc body reserved h = rw h (
    write_block-Lays alloc reserved (reserved + 4 + 2 + length body.message) 0
      (λ p. encode_int p body.code >>= λ q. encode_string q body.message (length body.message))
      (payload body)
      (>>=-Emits (λ p. encode_int p body.code)
        (λ p. encode_string p body.message (length body.message)) (be_32 body.code)
        (wire_string body.message) (encode_int-Emits body.code) (encode_string-Emits body.message))
      (omega arith))

-- The receiver of an error body with a message shorter than 2^16 has its code, and a pointer to its
-- message, with what follows it in the block, and the size.
pub consume-error :
    (code : ℕ) (message rest : Bytes)
    → length message < 2 ^ 16
    → consume new_error (payload (error_with code message) ++ rest)
      ≡ ok (
        record { code = int32 code; message = message ++ rest; message_size = length message },
        true,
      )
unfolding consume
consume-error code message rest h =
    let e : int32 (int32 code) ≡ int32 code = omega arith in
    rw (
      append_assoc (be_32 (int32 code)) (wire_string message) rest,
      decode_int-be (int32 code) (wire_string message ++ rest),
      decode_string-wire message rest h,
      e,
    )
