-- ===== src/Body/Query.antt =====
-- include/cql_body_query.hpp.
pub mod Layout
use uv_client_server.Base.{
  ℕ, ◌+◌, ◌*◌, ◌≡◌, List, [], ◌∷◌, ◌++◌, Bool, true, false, Result, ok, ◌>>=◌, length, take,
  if◌then◌else◌, bit_or,
}
use uv_client_server.Memory.{Bytes, Pointer, Allocator}
use uv_client_server.Serialization.{
  encode_byte, encode_short, encode_int, encode_string, encode_long_string, int16,
}
use uv_client_server.Body.Block.{Prepared, write_block}
use uv_client_server.Opcode.{opcode_query}

abbrev pub opcode : ℕ
opcode = opcode_query

abbrev pub flag_values : ℕ
flag_values = 0x01

abbrev pub flag_page_size : ℕ
flag_page_size = 0x04

abbrev pub flag_paging_state : ℕ
flag_paging_state = 0x08

abbrev pub flag_serial_consistency : ℕ
flag_serial_consistency = 0x10

abbrev pub consistency_any : ℕ
consistency_any = 0

abbrev pub consistency_serial : ℕ
consistency_serial = 8

-- A value is the bytes at a pointer, and the size that was given with it.
pub record BodyQuery : Type 0 where
  pub query : Bytes
  pub consistency : ℕ
  pub page_size : ℕ
  pub page_size_set : Bool
  pub paging_state : Bytes
  pub serial_consistent : Bool
  pub serial_consistency : ℕ
  pub values : List (Bytes × ℕ)

abbrev pub new_query : BodyQuery
new_query = record {
  query = [];
  consistency = consistency_any;
  page_size = 0;
  page_size_set = false;
  paging_state = [];
  serial_consistent = false;
  serial_consistency = consistency_serial;
  values = [];
}

unfoldable pub query_string : BodyQuery → Bytes → BodyQuery
query_string body input = record body { query = input }

unfoldable pub set_page_size : BodyQuery → ℕ → BodyQuery
set_page_size body size = record body { page_size_set = true; page_size = size }

unfoldable pub set_paging_state : BodyQuery → Bytes → ℕ → BodyQuery
set_paging_state body state size = record body { paging_state = take size state }

unfoldable pub add_value : BodyQuery → Bytes → ℕ → BodyQuery
add_value body value size = record body { values = body.values ++ (value, size) ∷ [] }

unfoldable pub set_consistency : BodyQuery → ℕ → BodyQuery
set_consistency body consistency = record body { consistency = int16 consistency }

unfoldable pub set_serial_consistency : BodyQuery → ℕ → BodyQuery
set_serial_consistency body consistency = record body {
  serial_consistent = true;
  serial_consistency = int16 consistency;
}

unfoldable pub consume : BodyQuery → Bytes → Result (BodyQuery × Bool)
consume body buffer = ok (body, true)

abbrev pub empty {ℓ} : {A : Type ℓ} → List A → Bool
empty [] = true
empty (x ∷ xs) = false

-- size += (sizeof(int32_t) + it->second), for each value
unfoldable pub add_sizes : ℕ → List (Bytes × ℕ) → ℕ
add_sizes size [] = size
add_sizes size ((value, n) ∷ rest) = add_sizes (size + (4 + n)) rest

-- `size` and `flags` as the tests of `prepare` leave them: that on the serial consistency is made
-- twice.
unfoldable pub prepare_size : BodyQuery → ℕ → ℕ
prepare_size body reserved =
    let size₀ = reserved + 4 + length body.query + 2 + 1 in
    let size₁ = if body.serial_consistent then size₀ + 2 else size₀ in
    let size₂ = if empty body.paging_state then size₁ else size₁ + (2 + length body.paging_state) in
    let size₃ = if empty body.values then size₂ else add_sizes (size₂ + 2) body.values in
    let size₄ = if body.page_size_set then size₃ + 4 else size₃ in
    if body.serial_consistent then size₄ + 2 else size₄

unfoldable pub prepare_flags : BodyQuery → ℕ
prepare_flags body =
    let flags₁ = if body.serial_consistent then bit_or 0 flag_serial_consistency else 0 in
    let flags₂ = if empty body.paging_state then flags₁ else bit_or flags₁ flag_paging_state in
    let flags₃ = if empty body.values then flags₂ else bit_or flags₂ flag_values in
    let flags₄ = if body.page_size_set then bit_or flags₃ flag_page_size else flags₃ in
    if body.serial_consistent then bit_or flags₄ flag_serial_consistency else flags₄

unfoldable pub write_values : List (Bytes × ℕ) → Pointer → Result Pointer
write_values [] buffer = ok buffer
write_values ((value, n) ∷ rest) buffer = do
  buffer' ← encode_long_string buffer value n
  write_values rest buffer'

-- if (test) { … }
abbrev pub when : Bool → (Pointer → Result Pointer) → Pointer → Result Pointer
when true write buffer = write buffer
when false write buffer = ok buffer

abbrev pub not_empty {ℓ} : {A : Type ℓ} → List A → Bool
not_empty [] = false
not_empty (x ∷ xs) = true

-- What `prepare` writes behind the reserved bytes.
unfoldable pub write : BodyQuery → Pointer → Result Pointer
write body start = do
  buffer₁ ← encode_long_string start body.query (length body.query)
  buffer₂ ← encode_short buffer₁ body.consistency
  buffer₃ ← encode_byte buffer₂ (prepare_flags body)
  buffer₄ ←
      when (not_empty body.values)
        (λ p. encode_short p (length body.values) >>= write_values body.values) buffer₃
  buffer₅ ← when body.page_size_set (λ p. encode_int p body.page_size) buffer₄
  buffer₆ ←
      when (not_empty body.paging_state)
        (λ p. encode_string p body.paging_state (length body.paging_state)) buffer₅
  when body.serial_consistent (λ p. encode_short p body.serial_consistency) buffer₆

unfoldable pub prepare : Allocator → BodyQuery → ℕ → Result Prepared
prepare alloc body reserved = write_block alloc reserved (prepare_size body reserved) (write body)
