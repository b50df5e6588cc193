-- ===== src/Body/Query/Layout.antt =====
-- The bytes of a query body.
use uv_client_server.Base.{
  ℕ, ◌+◌, ◌*◌, ◌%◌, ◌≤◌, ◌≡◌, refl, List, [], ◌∷◌, ◌++◌, Bool, true, false, Result, ◌>>=◌, length,
  if◌then◌else◌, arith, length-append,
}
use uv_client_server.Memory.{Bytes, Pointer, Allocator, be_16, be_32}
use uv_client_server.Memory.Emits.{Emits, ok-Emits, >>=-Emits}
use uv_client_server.Serialization.{
  encode_byte, encode_short, encode_int, encode_string, encode_long_string,
}
use uv_client_server.Serialization.Encode.{
  wire_string, wire_long_string, encode_byte-Emits, encode_short-Emits, encode_int-Emits,
  encode_string-Emits, encode_long_string-Emits,
}
use uv_client_server.Body.Block.{Lays, write_block-Lays}
use uv_client_server.Body.Query.{
  BodyQuery, empty, not_empty, when, add_sizes, prepare_size, prepare_flags, write_values, write,
  prepare,
}

-- Every value holds as many bytes as were announced.
abbrev pub AllWhole : List (Bytes × ℕ) → Type 0
AllWhole [] = Unit
AllWhole ((value, n) ∷ rest) = (n ≡ length value) × AllWhole rest

abbrev pub wire_values : List (Bytes × ℕ) → Bytes
wire_values [] = []
wire_values ((value, n) ∷ rest) = wire_long_string value ++ wire_values rest

abbrev pub optional : Bool → Bytes → Bytes
optional true bs = bs
optional false bs = []

abbrev pub bit : Bool → ℕ
bit true = 1
bit false = 0

-- The flags of a query: a bit for each part that is present.
abbrev pub flags_of : BodyQuery → ℕ
flags_of body =
    bit (not_empty body.values)
    + 4 * bit body.page_size_set
    + 8 * bit (not_empty body.paging_state)
    + 16 * bit body.serial_consistent

-- The parts behind the flags, in the order of the protocol.
abbrev pub payload : BodyQuery → Bytes
payload body =
    wire_long_string body.query
    ++ (be_16 body.consistency
        ++ (flags_of body ∷ []
            ++ (optional (not_empty body.values)
                  (be_16 (length body.values) ++ wire_values body.values)
                ++ (optional body.page_size_set (be_32 body.page_size)
                    ++ (optional (not_empty body.paging_state) (wire_string body.paging_state)
                        ++ optional body.serial_consistent (be_16 body.serial_consistency))))))

when-Emits :
    (test : Bool) (e : Pointer → Result Pointer) (bs : Bytes)
    → Emits e bs
    → Emits (when test e) (optional test bs)
when-Emits true e bs h = h
when-Emits false e bs h = ok-Emits

write_values-Emits :
    (vs : List (Bytes × ℕ)) → AllWhole vs → Emits (write_values vs) (wire_values vs)
unfolding write_values
write_values-Emits [] h = ok-Emits
write_values-Emits ((value, n) ∷ rest) h = rw (h.0) (
    >>=-Emits (λ p. encode_long_string p value (length value)) (write_values rest)
      (wire_long_string value) (wire_values rest) (encode_long_string-Emits value)
      (write_values-Emits rest h.1))

prepare_flags-flags_of : (body : BodyQuery) → prepare_flags body ≡ flags_of body
unfolding prepare_flags
prepare_flags-flags_of body =
    cases body.serial_consistent body.paging_state body.values body.page_size_set
  where
    cases :
        (s : Bool) (p : Bytes) (v : List (Bytes × ℕ)) (z : Bool)
        → prepare_flags
            (record body { serial_consistent = s; paging_state = p; values = v; page_size_set = z })
          ≡ flags_of (record body {
            serial_consistent = s;
            paging_state = p;
            values = v;
            page_size_set = z;
          })
    cases true [] [] true = refl
    cases true [] [] false = refl
    cases true [] (v ∷ vs) true = refl
    cases true [] (v ∷ vs) false = refl
    cases true (p ∷ ps) [] true = refl
    cases true (p ∷ ps) [] false = refl
    cases true (p ∷ ps) (v ∷ vs) true = refl
    cases true (p ∷ ps) (v ∷ vs) false = refl
    cases false [] [] true = refl
    cases false [] [] false = refl
    cases false [] (v ∷ vs) true = refl
    cases false [] (v ∷ vs) false = refl
    cases false (p ∷ ps) [] true = refl
    cases false (p ∷ ps) [] false = refl
    cases false (p ∷ ps) (v ∷ vs) true = refl
    cases false (p ∷ ps) (v ∷ vs) false = refl

bit-le : (b : Bool) → bit b ≤ 1
bit-le true = omega arith
bit-le false = omega arith

flags_byte : (body : BodyQuery) → prepare_flags body % 256 ≡ flags_of body
flags_byte body = omega (
  arith,
  prepare_flags-flags_of body,
  bit-le (not_empty body.values),
  bit-le body.page_size_set,
  bit-le (not_empty body.paging_state),
  bit-le body.serial_consistent,
)

flags-Emits :
    (body : BodyQuery) → Emits (λ p. encode_byte p (prepare_flags body)) (flags_of body ∷ [])
flags-Emits body = rw (← flags_byte body) (encode_byte-Emits (prepare_flags body))

write-Emits : (body : BodyQuery) → AllWhole body.values → Emits (write body) (payload body)
unfolding write
write-Emits body h =
    >>=-Emits (λ p. encode_long_string p body.query (length body.query)) _ _ _
      (encode_long_string-Emits body.query)
      (>>=-Emits (λ p. encode_short p body.consistency) _ _ _ (encode_short-Emits body.consistency)
        (>>=-Emits (λ p. encode_byte p (prepare_flags body)) _ _ _ (flags-Emits body)
          (>>=-Emits
            (when (not_empty body.values)
              (λ p. encode_short p (length body.values) >>= write_values body.values))
            _ _ _
            (when-Emits (not_empty body.values) _ _ (
              >>=-Emits (λ p. encode_short p (length body.values)) _ _ _
                (encode_short-Emits (length body.values)) (write_values-Emits body.values h)))
            (>>=-Emits (when body.page_size_set (λ p. encode_int p body.page_size)) _ _ _
              (when-Emits body.page_size_set _ _ (encode_int-Emits body.page_size))
              (>>=-Emits
                (when (not_empty body.paging_state)
                  (λ p. encode_string p body.paging_state (length body.paging_state)))
                _ _ _
                (when-Emits (not_empty body.paging_state) _ _
                  (encode_string-Emits body.paging_state))
                (when-Emits body.serial_consistent _ _
                  (encode_short-Emits body.serial_consistency)))))))

add_sizes-length :
    (size : ℕ) (vs : List (Bytes × ℕ))
    → AllWhole vs
    → add_sizes size vs ≡ size + length (wire_values vs)
unfolding add_sizes
add_sizes-length size [] h = omega arith
add_sizes-length size ((value, n) ∷ rest) h =
    omega (
      arith,
      h.0,
      add_sizes-length (size + (4 + n)) rest h.1,
      length-append value (wire_values rest),
    )

length-optional :
    (test : Bool) (bs : Bytes) → length (optional test bs) ≡ (if test then length bs else 0)
length-optional true bs = refl
length-optional false bs = refl

module _ (body : BodyQuery) where
  abbrev values_part : Bytes
  values_part =
      optional (not_empty body.values) (be_16 (length body.values) ++ wire_values body.values)

  abbrev page_size_part : Bytes
  page_size_part = optional body.page_size_set (be_32 body.page_size)

  abbrev paging_part : Bytes
  paging_part = optional (not_empty body.paging_state) (wire_string body.paging_state)

  abbrev serial_part : Bytes
  serial_part = optional body.serial_consistent (be_16 body.serial_consistency)

  length-payload :
      length (payload body)
      ≡ 4
        + length body.query
        + 2
        + 1
        + length values_part
        + length page_size_part
        + length paging_part
        + length serial_part
  length-payload = omega (
    arith,
    length-append body.query (
        be_16 body.consistency
        ++ (flags_of body ∷ (values_part ++ (page_size_part ++ (paging_part ++ serial_part))))),
    length-append values_part (page_size_part ++ (paging_part ++ serial_part)),
    length-append page_size_part (paging_part ++ serial_part),
    length-append paging_part serial_part,
  )

  pub prepare_size-length :
      (reserved : ℕ)
      → AllWhole body.values
      → prepare_size body reserved
        ≡ reserved + length (payload body) + 2 * bit body.serial_consistent
  unfolding prepare_size
  prepare_size-length reserved h = rw length-payload (
      ground (
        arith,
        length-optional body.serial_consistent (be_16 body.serial_consistency),
        length-optional body.page_size_set (be_32 body.page_size),
        length-optional (not_empty body.paging_state) (wire_string body.paging_state),
        length-optional (not_empty body.values)
            (be_16 (length body.values) ++ wire_values body.values),
        add_sizes-length
            (reserved
              + 4
              + length body.query
              + 2
              + 1
              + (if body.serial_consistent then 2 else 0)
              + (if empty body.paging_state then 0 else 2 + length body.paging_state)
              + 2)
            body.values h,
      ))

-- `prepare` lays out the payload; it allocates and announces two more bytes if a serial
-- consistency is set.
pub prepare-Lays :
    (alloc : Allocator) (body : BodyQuery) (reserved : ℕ)
    → AllWhole body.values
    → Lays alloc reserved
        (payload body)
        (2 * bit body.serial_consistent)
        (prepare alloc body reserved)
unfolding prepare
prepare-Lays alloc body reserved h =
    write_block-Lays alloc reserved (prepare_size body reserved) (2 * bit body.serial_consistent)
      (write body) (payload body) (write-Emits body h) (prepare_size-length body reserved h)
