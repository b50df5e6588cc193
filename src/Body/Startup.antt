-- ===== src/Body/Startup.antt =====
-- include/cql_body_startup.hpp.
use uv_client_server.Base.{
  ℕ, ◌+◌, ◌^◌, ◌<◌, ◌≡◌, ◌≢◌, refl, List, [], ◌∷◌, ◌++◌, Bool, true, false, Option, none, some,
  Result, ok, ◌>>=◌, length, arith, length-append, if◌then◌else◌, codes,
}
use uv_client_server.Memory.{Bytes, Allocator}
use uv_client_server.StdMap.{assign, find, str_lt}
use uv_client_server.Serialization.{encode_string_map, decode_string_map}
use uv_client_server.Serialization.Encode.{wire_entries, wire_string_map, encode_string_map-Emits}
use uv_client_server.Serialization.RoundTrip.{decode_string_map-wire}
use uv_client_server.Body.Block.{Prepared, write_block, Lays, write_block-Lays}
use uv_client_server.Opcode.{opcode_startup}

abbrev pub opcode : ℕ
opcode = opcode_startup

pub record BodyStartup : Type 0 where
  pub cql_version : Bytes
  pub compression : Bytes

abbrev pub new_startup : BodyStartup
new_startup = record { cql_version = codes "3.0.0"; compression = [] }

abbrev pub key_compression : Bytes
key_compression = codes "COMPRESSION"

abbrev pub key_cql_version : Bytes
key_cql_version = codes "CQL_VERSION"

abbrev pub or_else : Option Bytes → Bytes → Bytes
or_else none old = old
or_else (some s) old = s

unfoldable pub consume : BodyStartup → Bytes → Result (BodyStartup × Bool)
consume body buffer = do
  (options, rest) ← decode_string_map buffer
  ok (
    record {
      cql_version = or_else (find key_cql_version options) body.cql_version;
      compression = or_else (find key_compression options) body.compression;
    },
    true,
  )

abbrev empty : Bytes → Bool
empty [] = true
empty (b ∷ bs) = false

-- `size` and `options` after the two tests of `prepare`.
unfoldable pub add_option : Bytes → Bytes → ℕ × List (Bytes × Bytes) → ℕ × List (Bytes × Bytes)
add_option key value (size, options) =
    if empty value
    then (size, options)
    else (size + (2 + length key) + (2 + length value), assign key value options)

unfoldable pub prepare : Allocator → BodyStartup → ℕ → Result Prepared
prepare alloc body reserved =
    let (size, options) =
      add_option key_cql_version body.cql_version
        (add_option key_compression body.compression (reserved + 2, [])) in
    write_block alloc reserved size λ p. encode_string_map p options

-- The options that are sent: those that are not empty, in the order of their keys.
abbrev pub entry : Bytes → Bytes → List (Bytes × Bytes)
entry key [] = []
entry key (b ∷ bs) = (key, b ∷ bs) ∷ []

abbrev pub options_of : BodyStartup → List (Bytes × Bytes)
options_of body = entry key_compression body.compression ++ entry key_cql_version body.cql_version

abbrev pub payload : BodyStartup → Bytes
payload body = wire_string_map (options_of body)

prepare-cases :
    (alloc : Allocator) (reserved : ℕ) (version compression : Bytes)
    → let body : BodyStartup = record { cql_version = version; compression = compression } in
      Lays alloc reserved (payload body) 0 (prepare alloc body reserved)
unfolding prepare add_option assign str_lt
prepare-cases alloc reserved [] [] =
    write_block-Lays alloc reserved (reserved + 2) 0 (λ p. encode_string_map p [])
      (wire_string_map []) (encode_string_map-Emits []) (omega arith)
prepare-cases alloc reserved (v ∷ version) [] =
    let m = entry key_cql_version (v ∷ version) in
    write_block-Lays alloc reserved _ 0 (λ p. encode_string_map p m) (wire_string_map m)
      (encode_string_map-Emits m) (omega (arith, length-append version []))
prepare-cases alloc reserved [] (c ∷ compression) =
    let m = entry key_compression (c ∷ compression) in
    write_block-Lays alloc reserved _ 0 (λ p. encode_string_map p m) (wire_string_map m)
      (encode_string_map-Emits m) (omega (arith, length-append compression []))
prepare-cases alloc reserved (v ∷ version) (c ∷ compression) =
    let m = entry key_compression (c ∷ compression) ++ entry key_cql_version (v ∷ version) in
    write_block-Lays alloc reserved _ 0 (λ p. encode_string_map p m) (wire_string_map m)
      (encode_string_map-Emits m)
      (omega (
        arith,
        length-append version [],
        length-append compression (wire_entries (entry key_cql_version (v ∷ version))),
      ))

pub prepare-Lays :
    (alloc : Allocator) (body : BodyStartup) (reserved : ℕ)
    → Lays alloc reserved (payload body) 0 (prepare alloc body reserved)
prepare-Lays alloc body reserved = prepare-cases alloc reserved body.cql_version body.compression

consume-cases :
    (version compression rest : Bytes)
    → let body : BodyStartup = record { cql_version = version; compression = compression } in
      version ≢ []
      → length version < 2 ^ 16
      → length compression < 2 ^ 16
      → consume new_startup (payload body ++ rest) ≡ ok (body, true)
unfolding consume find str_lt
consume-cases [] compression rest h hv hc = absurd (h refl)
consume-cases (v ∷ version) [] rest h hv hc =
    let m = entry key_cql_version (v ∷ version) in
    rw (decode_string_map-wire m rest (omega arith) (omega arith, hv, tt) (tt, tt))
consume-cases (v ∷ version) (c ∷ compression) rest h hv hc =
    let m = entry key_compression (c ∷ compression) ++ entry key_cql_version (v ∷ version) in
    rw (
      decode_string_map-wire m rest (omega arith) (omega arith, hc, (omega arith, hv, tt))
        (tt, ((refl, tt), tt)))

-- A fresh body that consumes what a startup body lays out has its version and its compression, if
-- the version is not empty (an empty one is not sent) and both are shorter than 2^16.
pub consume-startup :
    (body : BodyStartup) (rest : Bytes)
    → body.cql_version ≢ []
    → length body.cql_version < 2 ^ 16
    → length body.compression < 2 ^ 16
    → consume new_startup (payload body ++ rest) ≡ ok (body, true)
consume-startup body rest h hv hc = consume-cases body.cql_version body.compression rest h hv hc
