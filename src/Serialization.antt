-- ===== src/Serialization.antt =====
-- include/cql_serialization.hpp: the wire primitives. Integers are bit patterns.
pub mod Encode
pub mod RoundTrip
use uv_client_server.Base.{
  ℕ, zero, suc, ◌+◌, ◌*◌, ◌/◌, ◌%◌, ◌^◌, List, [], ◌∷◌, ◌++◌, Bool, true, false, if◌then◌else◌, ltb,
  ◌==◌, length, drop, Result, ok, err, out_of_bounds, ◌>>=◌,
}
use uv_client_server.Memory.{
  Bytes, Pointer, store, memcpy, advance, store_16, store_32, load_16, load_32, htons, htonl,
}
use uv_client_server.StdMap.{insert}

abbrev pub int16 : ℕ → ℕ
int16 v = v % 2 ^ 16

abbrev pub int32 : ℕ → ℕ
int32 v = v % 2 ^ 32

unfoldable pub encode_byte : Pointer → ℕ → Result Pointer
encode_byte output value = memcpy output (value % 256 ∷ []) 1

unfoldable pub encode_short : Pointer → ℕ → Result Pointer
encode_short output value =
    let net_value = htons (int16 value) in memcpy output (store_16 net_value) 2

unfoldable pub decode_short : Bytes → Result (ℕ × Bytes)
decode_short input = do v ← load_16 input; ok (htons v, drop 2 input)

unfoldable pub encode_int : Pointer → ℕ → Result Pointer
encode_int output value =
    let net_value = htonl (int32 value) in memcpy output (store_32 net_value) 4

unfoldable pub decode_int : Bytes → Result (ℕ × Bytes)
decode_int input = do v ← load_32 input; ok (htonl v, drop 4 input)

-- The string, `size` after the call, and the pointer past the string. The length is written
-- through an `int16_t&` to the low half of the low word of `size`, whose other bits stay.
unfoldable pub decode_string : Bytes → ℕ → Result (Bytes × ℕ × Bytes)
decode_string input size = do
  (low, output) ← decode_short input
  let size' = size / 2 ^ 16 * 2 ^ 16 + low
  (s, rest) ← advance output size'
  ok (s, size', rest)

unfoldable pub encode_string : Pointer → Bytes → ℕ → Result Pointer
encode_string output input size = do buffer ← encode_short output size; memcpy buffer input size

unfoldable pub decode_long_string : Bytes → ℕ → Result (Bytes × ℕ × Bytes)
decode_long_string input size = do
  (low, output) ← decode_int input
  let size' = size / 2 ^ 32 * 2 ^ 32 + low
  (s, rest) ← advance output size'
  ok (s, size', rest)

unfoldable pub encode_long_string : Pointer → Bytes → ℕ → Result Pointer
encode_long_string output input size = do buffer ← encode_int output size; memcpy buffer input size

-- The loop of `encode_string_map`.
unfoldable pub encode_entries : Pointer → List (Bytes × Bytes) → Result Pointer
encode_entries buffer [] = ok buffer
encode_entries buffer ((key, value) ∷ rest) = do
  buffer₁ ← encode_string buffer key (length key)
  buffer₂ ← encode_string buffer₁ value (length value)
  encode_entries buffer₂ rest

unfoldable pub encode_string_map : Pointer → List (Bytes × Bytes) → Result Pointer
encode_string_map output map = do
  buffer ← encode_short output (length map)
  encode_entries buffer map

-- The rounds of `for (int i = 0; i < len; i++)` at an `int16_t`: none if it is negative.
abbrev pub rounds : ℕ → ℕ
rounds len = if ltb len (2 ^ 15) then len else 0

-- The loop of `decode_string_map`, with `n` rounds left.
unfoldable pub decode_entries :
    ℕ → Bytes → List (Bytes × Bytes) → Result (List (Bytes × Bytes) × Bytes)
decode_entries zero buffer map = ok (map, buffer)
decode_entries (suc n) buffer map = do
  (key, key_size, buffer₁) ← decode_string buffer 0
  (value, value_size, buffer₂) ← decode_string buffer₁ 0
  decode_entries n buffer₂ (insert key value map)

unfoldable pub decode_string_map : Bytes → Result (List (Bytes × Bytes) × Bytes)
decode_string_map input = do
  (len, buffer) ← decode_short input
  decode_entries (rounds len) buffer []

-- The loop of `decode_stringlist`.
unfoldable pub decode_strings : ℕ → Bytes → List Bytes → Result (List Bytes × Bytes)
decode_strings zero buffer output = ok (output, buffer)
decode_strings (suc n) buffer output = do
  (s, s_size, buffer') ← decode_string buffer 0
  decode_strings n buffer' (output ++ s ∷ [])

unfoldable pub decode_stringlist : Bytes → Result (List Bytes × Bytes)
decode_stringlist input = do
  (len, buffer) ← decode_short input
  decode_strings (rounds len) buffer []

-- The loop of `decode_string_multimap`.
unfoldable pub decode_lists :
    ℕ → Bytes → List (Bytes × List Bytes) → Result (List (Bytes × List Bytes) × Bytes)
decode_lists zero buffer output = ok (output, buffer)
decode_lists (suc n) buffer output = do
  (key, key_size, buffer₁) ← decode_string buffer 0
  (value, buffer₂) ← decode_stringlist buffer₁
  decode_lists n buffer₂ (insert key value output)

unfoldable pub decode_string_multimap : Bytes → Result (List (Bytes × List Bytes) × Bytes)
decode_string_multimap input = do
  (len, buffer) ← decode_short input
  decode_lists (rounds len) buffer []

abbrev pub column_type_custom : ℕ
column_type_custom = 0

-- The type, and the class name with its size, which stay as given for another type than CUSTOM.
unfoldable pub decode_option : Bytes → Bytes → ℕ → Result (ℕ × (Bytes × ℕ) × Bytes)
decode_option input class_name class_name_size = do
  (type, buffer) ← decode_short input
  let custom : Result (ℕ × (Bytes × ℕ) × Bytes) = do
    (s, size, rest) ← decode_string buffer class_name_size
    ok (type, (s, size), rest)
  if type == column_type_custom then custom else ok (type, (class_name, class_name_size), buffer)
