-- ===== src/Message/Progress.antt =====
-- include/cql_message.hpp: a call of `consume` takes some bytes, and no more than there are.
use uv_client_server.Base.{
  ℕ, zero, suc, ◌+◌, ◌-◌, ◌^◌, ◌<◌, ◌≤◌, ◌≡◌, refl, sym, ◌∙◌, [], ◌∷◌, true, false, Option, none,
  some, ok, err, bad_alloc, if◌then◌else◌, ltb, arith, length, drop, length-drop, Yields, Yields-ok,
  Yields-err, Yields-test, Yields-bind, Yields-any, Yields-from,
}
use uv_client_server.Memory.{Bytes, Pointer, Allocator, new_char, load_32, htonl, memcpy, offset}
use uv_client_server.Serialization.{int32}
use uv_client_server.Body.{Body}
use uv_client_server.Message.{
  Message, allocate_body, consume, read_header, consume_body, copy_to, byte, int_ge, sub_size,
  header_size,
}

-- A message that bytes are missing from.
pub record Incomplete (m : Message) : Type 0 where
  pub pattern : m.received < 2 ^ 32
  pub with_header :
      m.header_received ≡ true
      → (m.length < 2 ^ 31) × (int_ge (int32 (m.received + 2 ^ 32 - header_size)) m.length ≡ false)
  pub without_header : m.header_received ≡ false → int_ge m.received header_size ≡ false

-- The message and the count after a call on `size` bytes.
pub record Progress (size : ℕ) (r : Message × ℕ) : Type 0 where
  pub some_taken : 0 < r.1
  pub within : r.1 ≤ size
  pub waits : r.0.body_ready ≡ false → Incomplete r.0

true-false : true ≡ false → ⊥
true-false e = cc

memcpy-within : (p : Pointer) (src : Bytes) (n : ℕ) → Yields (λ q. n ≤ length src) (memcpy p src n)
unfolding memcpy
memcpy-within p src zero = Yields-ok (omega arith)
memcpy-within p [] (suc n) = Yields-err
memcpy-within p (b ∷ src) (suc n) = Yields-any _ λ q. record {
  holds = λ r e. let h : n ≤ length src = (memcpy-within q src n).holds r e in omega arith;
}

copy_to-within :
    (block : Bytes) (pos : ℕ) (input : Bytes) (n : ℕ)
    → Yields (λ b. n ≤ length input) (copy_to block pos input n)
unfolding copy_to
copy_to-within block pos input n =
    Yields-any (offset block pos)
      λ start. Yields-bind (memcpy start input n) (memcpy-within start input n) λ p h. Yields-ok h

module _ (m : Message) (rest : Bytes) (size used : ℕ) where
  abbrev needed : ℕ
  needed =
      sub_size (sub_size size used) (int32 (m.received + 2 ^ 32 - m.length + 2 ^ 32 - header_size))

  consume_body-Progress :
      m.received < 2 ^ 32
      → m.header_received ≡ true
      → m.length < 2 ^ 31
      → 0 < size
      → used + length rest ≡ size
      → (int_ge (int32 (m.received + 2 ^ 32 - header_size)) m.length ≡ true → 0 < used + needed)
      → Yields (Progress size) (consume_body m rest size used)
  unfolding consume_body
  consume_body-Progress pattern header small some_there lengths positive = by_body m.body
    where
      still :
          int_ge (int32 (m.received + 2 ^ 32 - header_size)) m.length ≡ false
          → {o : Option Body} {buffer : Bytes} {pos : ℕ}
          → Incomplete (record m { body = o; body_buffer = buffer; body_buffer_pos = pos })
      still part = record {
        pattern = pattern;
        with_header = λ e. (small, part);
        without_header = λ e. absurd (true-false (sym header ∙ e));
      }

      by_body :
          (o : Option Body)
          → Yields (Progress size) (consume_body (record m { body = o }) rest size used)
      by_body (some b) =
          Yields-test _
            (λ whole.
              Yields-bind _ (copy_to-within m.body_buffer m.body_buffer_pos rest needed) λ buffer h.
                Yields-any _ λ o.
                  Yields-ok
                    (record { some_taken = positive whole; within = omega arith; waits = λ e. cc }))
            (λ part. Yields-any _ λ buffer.
              Yields-ok
                (record { some_taken = some_there; within = omega arith; waits = λ e. still part }))
      by_body none =
          Yields-test _ (λ whole. Yields-any _ λ buffer. Yields-err)
            (λ part. Yields-any _ λ buffer.
              Yields-ok
                (record { some_taken = some_there; within = omega arith; waits = λ e. still part }))

-- A message with a header just read.
abbrev pub Measured : ℕ → Message → Type 0
Measured received m = (m.length < 2 ^ 31) × (m.received ≡ received) × (m.header_received ≡ true)

allocated_small :
    (alloc : Allocator) (length : ℕ) (buffer : Bytes)
    → (if ltb length (2 ^ 31) then ok (new_char alloc length) else err bad_alloc) ≡ ok buffer
    → length < 2 ^ 31
allocated_small alloc length buffer e = ground arith

pub read_header-Measured :
    (alloc : Allocator) (m : Message) (received : ℕ)
    → m.received ≡ received
    → Yields (Measured received) (read_header alloc m)
unfolding read_header
read_header-Measured alloc m received is = Yields-any (byte 0 m.header_buffer) λ version.
    Yields-any (byte 1 m.header_buffer) λ flags. Yields-any (byte 2 m.header_buffer) λ stream.
      Yields-any (byte 3 m.header_buffer) λ name.
        Yields-any (load_32 (drop 4 m.header_buffer)) λ raw.
          Yields-from
            (if ltb (htonl raw) (2 ^ 31) then ok (new_char alloc (htonl raw)) else err bad_alloc)
            λ buffer e.
              Yields-any (allocate_body name)
                λ body. Yields-ok (allocated_small alloc (htonl raw) buffer e, is, refl)

module _ (old size : ℕ) (pattern : old < 2 ^ 32) (some_there : 0 < size) (few : size < 2 ^ 31) where
  -- What a call takes of the body, when some of it was missing.
  body_taken :
      (length : ℕ)
      → length < 2 ^ 31
      → int_ge (int32 (old + 2 ^ 32 - header_size)) length ≡ false
      → int_ge (int32 (int32 (old + size) + 2 ^ 32 - header_size)) length ≡ true
      → 0
        < 0
          + sub_size
              (sub_size size 0)
              (int32 (int32 (old + size) + 2 ^ 32 - length + 2 ^ 32 - header_size))
  body_taken length small before whole = ground arith

  -- What a call takes of the header, when some of it was missing.
  header_taken :
      int_ge old header_size ≡ false
      → int_ge (int32 (old + size)) header_size ≡ true
      → (0 < sub_size size (int32 (int32 (old + size) + 2 ^ 32 - header_size)))
        × (sub_size size (int32 (int32 (old + size) + 2 ^ 32 - header_size)) ≤ size)
  header_taken before whole = ground arith

pub consume-Progress :
    (alloc : Allocator) (m : Message) (input : Bytes)
    → Incomplete m
    → 0 < length input
    → length input < 2 ^ 31
    → Yields (Progress (length input)) (consume alloc m input (length input))
unfolding consume
consume-Progress alloc m input i some_there few =
    Yields-test m.header_received
      (λ there.
        consume_body-Progress _ input (length input) 0 (ground arith) there (i.with_header there).0
          some_there (omega arith)
          (body_taken m.received (length input) i.pattern some_there few m.length
            (i.with_header there).0 (i.with_header there).1))
      (λ missing.
        Yields-test (int_ge (int32 (m.received + length input)) header_size)
          (λ whole.
            let (positive, within) =
              header_taken m.received (length input) i.pattern some_there few
                (i.without_header missing) whole in
            Yields-any (copy_to m.header_buffer m.header_buffer_pos input _) λ header.
              Yields-bind {P = Measured (int32 (m.received + length input))} _
                (read_header-Measured alloc _ _ refl)
                λ m₂ h.
                  consume_body-Progress m₂ _ (length input) _ (ground (arith, h.1)) h.2 h.0
                    some_there (omega (arith, length-drop _ input, within))
                    (λ e. omega (arith, positive)))
          (λ part.
            Yields-any (copy_to m.header_buffer m.header_buffer_pos input (length input)) λ header.
              Yields-ok (record {
                some_taken = some_there;
                within = omega arith;
                waits = λ e. record {
                  pattern = ground arith;
                  with_header = λ there. absurd (true-false (sym there ∙ missing));
                  without_header = λ e'. part;
                };
              })))
