-- ===== src/Body/Supported.antt =====
-- include/cql_body_supported.hpp.
use uv_client_server.Base.{
  ℕ, ◌^◌, ◌<◌, ◌≡◌, ap, ◌∙◌, List, [], ◌∷◌, ◌++◌, append_assoc, append-nil, Bool, true, false,
  Option, none, some, Result, ok, ◌>>=◌, length, arith, codes, lt→ltb,
}
use uv_client_server.Memory.{Bytes, Allocator, be_16}
use uv_client_server.StdMap.{find, Ascends, insert_last}
use uv_client_server.Serialization.{
  decode_string_multimap, decode_lists, decode_stringlist, decode_strings, int16,
}
use uv_client_server.Serialization.Encode.{wire_string}
use uv_client_server.Serialization.RoundTrip.{decode_short-be, decode_string-wire}
use uv_client_server.Body.Block.{Prepared}
use uv_client_server.Opcode.{opcode_supported}

abbrev pub opcode : ℕ
opcode = opcode_supported

pub record BodySupported : Type 0 where
  pub compression : List Bytes
  pub cql_versions : List Bytes

abbrev pub new_supported : BodySupported
new_supported = record { compression = []; cql_versions = [] }

abbrev pub or_else : Option (List Bytes) → List Bytes → List Bytes
or_else none old = old
or_else (some s) old = s

unfoldable pub consume : BodySupported → Bytes → Result (BodySupported × Bool)
consume body buffer = do
  (supported, rest) ← decode_string_multimap buffer
  ok (
    record {
      compression = or_else (find (codes "COMPRESSION") supported) body.compression;
      cql_versions = or_else (find (codes "CQL_VERSION") supported) body.cql_versions;
    },
    true,
  )

-- `prepare` touches neither `*output` nor `size`.
unfoldable pub prepare : Allocator → ℕ → ℕ → Result Prepared
prepare alloc reserved size = ok (record { output = none; size = size; result = false })

-- The wire form of a list of strings, and of a multimap.
abbrev pub wire_strings : List Bytes → Bytes
wire_strings [] = []
wire_strings (s ∷ ss) = wire_string s ++ wire_strings ss

abbrev pub wire_stringlist : List Bytes → Bytes
wire_stringlist ss = be_16 (length ss) ++ wire_strings ss

abbrev pub wire_lists : List (Bytes × List Bytes) → Bytes
wire_lists [] = []
wire_lists ((k, ss) ∷ m) = wire_string k ++ (wire_stringlist ss ++ wire_lists m)

abbrev pub wire_multimap : List (Bytes × List Bytes) → Bytes
wire_multimap m = be_16 (length m) ++ wire_lists m

abbrev pub AllShort : List Bytes → Type 0
AllShort [] = Unit
AllShort (s ∷ ss) = (length s < 2 ^ 16) × AllShort ss

abbrev pub AllSmall : List (Bytes × List Bytes) → Type 0
AllSmall [] = Unit
AllSmall ((k, ss) ∷ m) = (length k < 2 ^ 16) × (length ss < 2 ^ 15) × AllShort ss × AllSmall m

decode_strings-wire :
    (ss done : List Bytes) (rest : Bytes)
    → AllShort ss
    → decode_strings (length ss) (wire_strings ss ++ rest) done ≡ ok (done ++ ss, rest)
unfolding decode_strings
decode_strings-wire [] done rest h = rw append-nil
decode_strings-wire (s ∷ ss) done rest h =
    let shape : wire_strings (s ∷ ss) ++ rest ≡ wire_string s ++ (wire_strings ss ++ rest) =
      simp append_assoc in
    rw (shape, decode_string-wire s (wire_strings ss ++ rest) h.0)
      (decode_strings-wire ss (done ++ s ∷ []) rest h.1
        ∙ ap (λ all. ok (all, rest)) (append_assoc done (s ∷ []) ss))

decode_stringlist-wire :
    (ss : List Bytes) (rest : Bytes)
    → length ss < 2 ^ 15
    → AllShort ss
    → decode_stringlist (wire_stringlist ss ++ rest) ≡ ok (ss, rest)
unfolding decode_stringlist
decode_stringlist-wire ss rest few short =
    let e : int16 (length ss) ≡ length ss = omega arith in
    rw (decode_short-be (length ss) (wire_strings ss ++ rest), e, lt→ltb _ _ few)
      (decode_strings-wire ss [] rest short)

decode_lists-wire :
    (m done : List (Bytes × List Bytes)) (rest : Bytes)
    → AllSmall m
    → Ascends done m
    → decode_lists (length m) (wire_lists m ++ rest) done ≡ ok (done ++ m, rest)
unfolding decode_lists
decode_lists-wire [] done rest h a = rw append-nil
decode_lists-wire ((k, ss) ∷ m) done rest h a =
    let shape : wire_lists ((k, ss) ∷ m) ++ rest
        ≡ wire_string k ++ (wire_stringlist ss ++ (wire_lists m ++ rest)) =
      simp append_assoc in
    rw
      (
        shape,
        decode_string-wire k (wire_stringlist ss ++ (wire_lists m ++ rest)) h.0,
        decode_stringlist-wire ss (wire_lists m ++ rest) h.1 h.2,
        insert_last k ss done a.0,
      )
      (decode_lists-wire m (done ++ (k, ss) ∷ []) rest h.3 a.1
        ∙ ap (λ all. ok (all, rest)) (append_assoc done ((k, ss) ∷ []) m))

-- A fresh body that consumes a multimap has the lists of its two keys: an absent key gives an
-- empty list. The keys ascend, and lengths and counts fit their fields.
pub consume-wire :
    (m : List (Bytes × List Bytes)) (rest : Bytes)
    → length m < 2 ^ 15
    → AllSmall m
    → Ascends [] m
    → consume new_supported (wire_multimap m ++ rest)
      ≡ ok (
        record {
          compression = or_else (find (codes "COMPRESSION") m) [];
          cql_versions = or_else (find (codes "CQL_VERSION") m) [];
        },
        true,
      )
unfolding consume decode_string_multimap
consume-wire m rest few small asc =
    let e : int16 (length m) ≡ length m = omega arith in
    rw (
      decode_short-be (length m) (wire_lists m ++ rest),
      e,
      lt→ltb _ _ few,
      decode_lists-wire m [] rest small asc,
    )
