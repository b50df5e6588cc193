-- ===== src/Serialization/RoundTrip.antt =====
-- The decoders of include/cql_serialization.hpp on what the encoders write.
use uv_client_server.Base.{
  ℕ, ◌+◌, ◌^◌, ◌≤◌, ◌<◌, ◌≡◌, refl, ap, ◌∙◌, List, [], ◌∷◌, ◌++◌, append_assoc, append-nil, ok,
  arith, length, drop, drop-length-append, lt→ltb,
}
use uv_client_server.Memory.{Bytes, Pointer, block_of, be_16, be_32, load_16, load_32}
use uv_client_server.Memory.Emits.{at, advance-append}
use uv_client_server.StdMap.{Ascends, insert_last}
use uv_client_server.Serialization.{
  decode_short, decode_int, decode_string, decode_long_string, decode_entries, decode_string_map,
  int16, int32, encode_string_map,
}
use uv_client_server.Serialization.Encode.{
  wire_string, wire_long_string, wire_entries, wire_string_map, encode_string_map-Emits,
}

pub decode_short-be : (v : ℕ) (rest : Bytes) → decode_short (be_16 v ++ rest) ≡ ok (int16 v, rest)
unfolding decode_short load_16
decode_short-be v rest = ap (λ (n : ℕ). ok (n, rest)) (omega arith)

pub decode_int-be : (v : ℕ) (rest : Bytes) → decode_int (be_32 v ++ rest) ≡ ok (int32 v, rest)
unfolding decode_int load_32
decode_int-be v rest = ap (λ (n : ℕ). ok (n, rest)) (omega arith)

-- A string of less than 2^16 bytes comes back, with its length.
pub decode_string-wire :
    (s rest : Bytes)
    → length s < 2 ^ 16
    → decode_string (wire_string s ++ rest) 0 ≡ ok (s, length s, rest)
unfolding decode_string
decode_string-wire s rest h =
    let e : 0 + int16 (length s) ≡ length s = omega arith in
    rw (decode_short-be (length s) (s ++ rest), e, advance-append s rest)

pub decode_long_string-wire :
    (s rest : Bytes)
    → length s < 2 ^ 32
    → decode_long_string (wire_long_string s ++ rest) 0 ≡ ok (s, length s, rest)
unfolding decode_long_string
decode_long_string-wire s rest h =
    let e : 0 + int32 (length s) ≡ length s = omega arith in
    rw (decode_int-be (length s) (s ++ rest), e, advance-append s rest)

-- Each key and each value is short enough for its length field.
abbrev pub AllShort : List (Bytes × Bytes) → Type 0
AllShort [] = Unit
AllShort ((k, v) ∷ m) = (length k < 2 ^ 16) × (length v < 2 ^ 16) × AllShort m

decode_entries-wire :
    (m done : List (Bytes × Bytes)) (rest : Bytes)
    → AllShort m
    → Ascends done m
    → decode_entries (length m) (wire_entries m ++ rest) done ≡ ok (done ++ m, rest)
unfolding decode_entries
decode_entries-wire [] done rest h a = rw append-nil
decode_entries-wire ((k, v) ∷ m) done rest h a =
    let shape : wire_entries ((k, v) ∷ m) ++ rest
        ≡ wire_string k ++ (wire_string v ++ (wire_entries m ++ rest)) =
      simp append_assoc in
    rw
      (
        shape,
        decode_string-wire k (wire_string v ++ (wire_entries m ++ rest)) h.0,
        decode_string-wire v (wire_entries m ++ rest) h.1,
        insert_last k v done a.0,
      )
      (decode_entries-wire m (done ++ (k, v) ∷ []) rest h.2 a.1
        ∙ ap (λ all. ok (all, rest)) (append_assoc done ((k, v) ∷ []) m))

-- The decoder of maps reads back what the encoder writes for a map, its keys ascending, of fewer
-- than 2^15 entries whose keys and values are shorter than 2^16, and stops where that ends.
pub decode_string_map-wire :
    (m : List (Bytes × Bytes)) (rest : Bytes)
    → length m < 2 ^ 15
    → AllShort m
    → Ascends [] m
    → decode_string_map (wire_string_map m ++ rest) ≡ ok (m, rest)
unfolding decode_string_map
decode_string_map-wire m rest few short asc =
    let e : int16 (length m) ≡ length m = omega arith in
    rw (decode_short-be (length m) (wire_entries m ++ rest), e, lt→ltb _ _ few)
      (decode_entries-wire m [] rest short asc)

-- Encoding a map of fewer than 2^15 entries, its keys ascending, its keys and values shorter than
-- 2^16, into a block with room for it succeeds; decoding at the start of what was written gives the
-- map back; and the bytes of the block behind it are as they were.
pub decode-encode_string_map :
    (m : List (Bytes × Bytes)) (before after : Bytes)
    → length m < 2 ^ 15
    → AllShort m
    → Ascends [] m
    → length (wire_string_map m) ≤ length after
    → (q : Pointer) × (encode_string_map (at before after) m ≡ ok q)
      × (decode_string_map (drop (length before) (block_of q)) ≡ ok (m, q.after))
      × (q.after ≡ drop (length (wire_string_map m)) after)
decode-encode_string_map m before after few short asc room = (
  at (before ++ wire_string_map m) (drop (length (wire_string_map m)) after),
  encode_string_map-Emits m before after room,
  rw
      (
        append_assoc before (wire_string_map m) (drop (length (wire_string_map m)) after),
        drop-length-append before,
      )
      (decode_string_map-wire m (drop (length (wire_string_map m)) after) few short asc),
  refl,
)
