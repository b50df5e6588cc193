-- ===== src/Serialization/Encode.antt =====
-- What each encoder of include/cql_serialization.hpp writes.
use uv_client_server.Base.{ℕ, ◌/◌, ◌%◌, ◌≡◌, ap₂, subst, List, [], ◌∷◌, ◌++◌, ◌>>=◌, arith, length}
use uv_client_server.Memory.{Bytes, memcpy, be_16, be_32, store_16, store_32, htons, htonl}
use uv_client_server.Memory.Emits.{Emits, ok-Emits, >>=-Emits, memcpy_all}
use uv_client_server.Serialization.{
  encode_byte, encode_short, encode_int, encode_string, encode_long_string, encode_entries,
  encode_string_map, int16, int32,
}

store-htons : (v : ℕ) → store_16 (htons (int16 v)) ≡ be_16 v
store-htons v = ap₂ (λ a b. a ∷ b ∷ []) (omega arith) (omega arith)

store-htonl : (v : ℕ) → store_32 (htonl (int32 v)) ≡ be_32 v
store-htonl v = λ i. high i ∷ second i ∷ third i ∷ low i ∷ []
  where
    net : ℕ
    net = htonl (int32 v)

    high : net % 256 ≡ v / 16777216 % 256
    high = omega arith

    second : net / 256 % 256 ≡ v / 65536 % 256
    second = omega arith

    third : net / 65536 % 256 ≡ v / 256 % 256
    third = omega arith

    low : net / 16777216 % 256 ≡ v % 256
    low = omega arith

pub encode_byte-Emits : (v : ℕ) → Emits (λ p. encode_byte p v) (v % 256 ∷ [])
unfolding encode_byte
encode_byte-Emits v = memcpy_all (v % 256 ∷ [])

pub encode_short-Emits : (v : ℕ) → Emits (λ p. encode_short p v) (be_16 v)
unfolding encode_short
encode_short-Emits v = subst Emitted (store-htons v) (memcpy_all (store_16 (htons (int16 v))))
  where
    Emitted : Bytes → Type 0
    Emitted bs = Emits (λ p. encode_short p v) bs

pub encode_int-Emits : (v : ℕ) → Emits (λ p. encode_int p v) (be_32 v)
unfolding encode_int
encode_int-Emits v = subst Emitted (store-htonl v) (memcpy_all (store_32 (htonl (int32 v))))
  where
    Emitted : Bytes → Type 0
    Emitted bs = Emits (λ p. encode_int p v) bs

-- The wire form of a string, and of a long string.
abbrev pub wire_string : Bytes → Bytes
wire_string s = be_16 (length s) ++ s

abbrev pub wire_long_string : Bytes → Bytes
wire_long_string s = be_32 (length s) ++ s

abbrev pub wire_entries : List (Bytes × Bytes) → Bytes
wire_entries [] = []
wire_entries ((k, v) ∷ m) = wire_string k ++ (wire_string v ++ wire_entries m)

abbrev pub wire_string_map : List (Bytes × Bytes) → Bytes
wire_string_map m = be_16 (length m) ++ wire_entries m

pub encode_string-Emits : (s : Bytes) → Emits (λ p. encode_string p s (length s)) (wire_string s)
unfolding encode_string
encode_string-Emits s =
    >>=-Emits (λ p. encode_short p (length s)) (λ p. memcpy p s (length s)) (be_16 (length s)) s
      (encode_short-Emits (length s)) (memcpy_all s)

pub encode_long_string-Emits :
    (s : Bytes) → Emits (λ p. encode_long_string p s (length s)) (wire_long_string s)
unfolding encode_long_string
encode_long_string-Emits s =
    >>=-Emits (λ p. encode_int p (length s)) (λ p. memcpy p s (length s)) (be_32 (length s)) s
      (encode_int-Emits (length s)) (memcpy_all s)

encode_entries-Emits : (m : List (Bytes × Bytes)) → Emits (λ p. encode_entries p m) (wire_entries m)
unfolding encode_entries
encode_entries-Emits [] = ok-Emits
encode_entries-Emits ((k, v) ∷ m) =
    >>=-Emits (λ p. encode_string p k (length k))
      (λ p. encode_string p v (length v) >>= λ q. encode_entries q m) (wire_string k)
      (wire_string v ++ wire_entries m) (encode_string-Emits k)
      (>>=-Emits (λ p. encode_string p v (length v)) (λ p. encode_entries p m) (wire_string v)
        (wire_entries m) (encode_string-Emits v) (encode_entries-Emits m))

pub encode_string_map-Emits :
    (m : List (Bytes × Bytes)) → Emits (λ p. encode_string_map p m) (wire_string_map m)
unfolding encode_string_map
encode_string_map-Emits m =
    >>=-Emits (λ p. encode_short p (length m)) (λ p. encode_entries p m) (be_16 (length m))
      (wire_entries m) (encode_short-Emits (length m)) (encode_entries-Emits m)
