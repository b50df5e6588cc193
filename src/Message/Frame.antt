-- ===== src/Message/Frame.antt =====
-- `Message::prepare`: the frame that each kind of body gives.
use uv_client_server.Base.{
  ℕ, ◌+◌, ◌-◌, ◌*◌, ◌%◌, ◌^◌, ◌≤◌, ◌<◌, ◌≡◌, refl, sym, ap, ◌∙◌, [], ◌∷◌, ◌++◌, append_assoc, true,
  Option, some, Result, ok, err, out_of_bounds, ◌>>=◌, bind_assoc, length, take, drop, arith,
  length-append, drop-length-append, take_front, take-append-drop, subst, ◌⊎◌, inl, inr, dec_lt,
}
use uv_client_server.Memory.{Bytes, Pointer, Allocator, new_char, offset, block_of, be_32, memcpy}
use uv_client_server.Memory.Emits.{at, Emits, >>=-Emits, length-new_char, length-take}
use uv_client_server.Serialization.{encode_byte, encode_int, int32}
use uv_client_server.Serialization.Encode.{encode_byte-Emits, encode_int-Emits}
use uv_client_server.Body
use uv_client_server.Body.{Body}
use uv_client_server.Body.Block.{Prepared, Lays}
use uv_client_server.Body.Error.{BodyError}
use uv_client_server.Body.Error
use uv_client_server.Body.Prepare.{BodyPrepare}
use uv_client_server.Body.Prepare
use uv_client_server.Body.Startup.{BodyStartup}
use uv_client_server.Body.Startup
use uv_client_server.Body.Query.{BodyQuery}
use uv_client_server.Body.Query.Layout
use uv_client_server.Body.Options
use uv_client_server.Body.Ready
use uv_client_server.Body.Query.Layout.{AllWhole, bit}
use uv_client_server.Message.{
  Message, Output, write_header, place_header, prepare, prepare_with, header_size,
}

abbrev pub wire_header : Message → Bytes
wire_header m = m.version % 256 ∷ m.flags % 256 ∷ m.stream % 256 ∷ m.opcode % 256 ∷ be_32 m.length

pub write_header-Emits : (m : Message) → Emits (write_header m) (wire_header m)
unfolding write_header
write_header-Emits m =
    >>=-Emits (λ p. encode_byte p m.version) _ (m.version % 256 ∷ []) _
      (encode_byte-Emits m.version)
      (>>=-Emits (λ p. encode_byte p m.flags) _ (m.flags % 256 ∷ []) _ (encode_byte-Emits m.flags)
        (>>=-Emits (λ p. encode_byte p m.stream) _ (m.stream % 256 ∷ []) _
          (encode_byte-Emits m.stream)
          (>>=-Emits (λ p. encode_byte p m.opcode) (λ p. encode_int p m.length)
            (m.opcode % 256 ∷ []) (be_32 m.length) (encode_byte-Emits m.opcode)
            (encode_int-Emits m.length))))

-- The bodies with a content, their payload, and the number of bytes announced beyond it.
pub data Carries : Body → Bytes → ℕ → Type 0 where
  error :
      (b : BodyError)
      → b.message_size ≡ length b.message
      → Carries (Body.error b) (Error.payload b) 0
  startup : (b : BodyStartup) → Carries (Body.startup b) (Startup.payload b) 0
  statement : (b : BodyPrepare) → Carries (Body.prepare_statement b) (Prepare.payload b) 0
  query :
      (b : BodyQuery)
      → AllWhole b.values
      → Carries (Body.query b) (Layout.payload b) (2 * bit b.serial_consistent)

Carries-Lays :
    (alloc : Allocator) {body : Body} {payload : Bytes} {extra : ℕ}
    → Carries body payload extra
    → Lays alloc header_size payload extra (Body.prepare alloc body header_size 0)
unfolding Body.prepare
Carries-Lays alloc (error b h) = Error.prepare-Lays alloc b header_size h
Carries-Lays alloc (startup b) = Startup.prepare-Lays alloc b header_size
Carries-Lays alloc (statement b) = Prepare.prepare-Lays alloc b header_size
Carries-Lays alloc (query b h) = Layout.prepare-Lays alloc b header_size h

-- `prepare` returned true with a block of `size` bytes and the allocator's spare ones: the header
-- with the length of what follows, the payload, and `extra` bytes that were never written.
pub record Framed (alloc : Allocator) (m : Message) (payload : Bytes) (extra : ℕ)
    (r : Result (Option Output)) : Type 0 where
  pub out : Output
  pub returned : r ≡ ok (some out)
  pub message : out.message ≡ record m { length = length payload + extra }
  pub size : out.size ≡ header_size + length payload + extra
  pub trailing : Bytes
  pub bytes : take out.size out.block ≡ wire_header out.message ++ (payload ++ trailing)
  pub trailing_is :
      trailing
      ≡ take extra (
          drop
            (length payload)
            (drop header_size (new_char alloc (header_size + length payload + extra))))
  pub capacity : length out.block ≡ out.size + alloc.slack

module _ (alloc : Allocator) (m : Message) {payload : Bytes} {extra : ℕ} {r : Result Prepared}
    (small : length payload + extra < 2 ^ 31) (l : Lays alloc header_size payload extra r) where
  open l use {head, tail, laid, reserves, trails, tail_is}

  abbrev sized : Message
  sized = record m { length = length payload + extra }

  abbrev placed_out : Output
  placed_out = record {
    block = head ++ (payload ++ tail);
    size = header_size + length payload + extra;
    message = sized;
  }

  abbrev framed_out : Output
  framed_out = record placed_out { block = wire_header sized ++ (payload ++ tail) }

  place-Lays :
      place_header alloc m (record {
        output = some (head ++ (payload ++ tail));
        size = header_size + length payload + extra;
        result = true;
      })
      ≡ ok placed_out
  unfolding place_header
  place-Lays =
      let e : int32 (header_size + length payload + extra + 2 ^ 32 - header_size)
          ≡ length payload + extra =
        omega arith in
      rw e (ground arith)

  header-written :
      (offset (head ++ (payload ++ tail)) 0 >>= write_header sized)
      ≡ ok (at (wire_header sized) (payload ++ tail))
  unfolding offset
  header-written =
      write_header-Emits sized [] (head ++ (payload ++ tail))
        (omega (arith, reserves, length-append head (payload ++ tail)))
      ∙ ap (λ xs. ok (at (wire_header sized) xs))
          (ap (λ n. drop n (head ++ (payload ++ tail))) (sym reserves)
            ∙ drop-length-append head (payload ++ tail))

  length-front :
      length (wire_header sized ++ (payload ++ take extra tail))
      ≡ header_size + length payload + extra
  length-front = omega (
    arith,
    length-append payload (take extra tail),
    length-take extra tail (omega (arith, trails)),
  )

  framed-bytes :
      take (header_size + length payload + extra) (wire_header sized ++ (payload ++ tail))
      ≡ wire_header sized ++ (payload ++ take extra tail)
  framed-bytes =
      ap (λ xs. take (header_size + length payload + extra) (wire_header sized ++ xs))
        (ap (◌++◌ payload) (sym (take-append-drop extra tail))
          ∙ sym (append_assoc payload (take extra tail) (drop extra tail)))
      ∙ take_front (header_size + length payload + extra)
          (wire_header sized ++ (payload ++ take extra tail)) (drop extra tail) length-front

  prepare-Framed :
      (body : Body)
      → Body.prepare alloc body header_size 0 ≡ r
      → Framed alloc m payload extra (prepare_with alloc m (some body))
  unfolding prepare_with
  prepare-Framed body e = record {
    out = framed_out;
    returned =
        rw (e, laid, place-Lays)
          (sym (bind_assoc (offset (head ++ (payload ++ tail)) 0) (write_header sized) finish)
            ∙ ap (λ x. x >>= finish) header-written);
    message = refl;
    size = refl;
    trailing = take extra tail;
    bytes = framed-bytes;
    trailing_is = ap (take extra) tail_is;
    capacity = omega (arith, trails, length-append payload tail);
  }
    where
      finish : Pointer → Result (Option Output)
      finish buffer = ok (some (record placed_out { block = block_of buffer }))

-- `prepare` on a message with a content, of less than 2^31 bytes with the trailing ones: the frame is the header, with the length of what follows,
-- then the payload, then the bytes that were announced beyond it; nothing is written out of
-- bounds, whatever the allocator.
pub prepare-Carries :
    (alloc : Allocator) (m : Message) {body : Body} {payload : Bytes} {extra : ℕ}
    → Carries body payload extra
    → m.body ≡ some body
    → length payload + extra < 2 ^ 31
    → Framed alloc m payload extra (prepare alloc m)
unfolding prepare
prepare-Carries alloc m {body} {payload} {extra} c e small =
    subst (λ b. Framed alloc m payload extra (prepare_with alloc m b)) (sym e)
      (prepare-Framed alloc m small (Carries-Lays alloc c) body refl)

write_header_overrun :
    (m : Message) (before after : Bytes)
    → length after < header_size
    → write_header m (at before after) ≡ err out_of_bounds
unfolding write_header encode_byte encode_int memcpy
write_header_overrun m before [] h = refl
write_header_overrun m before (a ∷ []) h = refl
write_header_overrun m before (a ∷ b ∷ []) h = refl
write_header_overrun m before (a ∷ b ∷ c ∷ []) h = refl
write_header_overrun m before (a ∷ b ∷ c ∷ d ∷ []) h = refl
write_header_overrun m before (a ∷ b ∷ c ∷ d ∷ e ∷ []) h = refl
write_header_overrun m before (a ∷ b ∷ c ∷ d ∷ e ∷ f ∷ []) h = refl
write_header_overrun m before (a ∷ b ∷ c ∷ d ∷ e ∷ f ∷ g ∷ []) h = refl
write_header_overrun m before (a ∷ b ∷ c ∷ d ∷ e ∷ f ∷ g ∷ i ∷ rest) h = absurd (omega arith)

-- The bodies with no content.
pub data IsEmpty : Body → Type 0 where
  options : IsEmpty Body.options
  ready : IsEmpty Body.ready

prepared_empty :
    (alloc : Allocator) {body : Body}
    → IsEmpty body
    → Body.prepare alloc body header_size 0
      ≡ ok (record { output = some (new_char alloc 0); size = header_size; result = true })
unfolding Body.prepare Options.prepare Ready.prepare
prepared_empty alloc options = refl
prepared_empty alloc ready = refl

empty_overrun :
    (alloc : Allocator) (m : Message) {body : Body}
    → IsEmpty body
    → alloc.slack < header_size
    → prepare_with alloc m (some body) ≡ err out_of_bounds
unfolding prepare_with place_header offset
empty_overrun alloc m c short = rw (prepared_empty alloc c) (
    rw (
      write_header_overrun (record m { length = 0 }) [] (new_char alloc 0)
        (omega (arith, length-new_char alloc 0))))

empty_spare :
    (alloc : Allocator) (m : Message) {body : Body}
    → IsEmpty body
    → header_size ≤ alloc.slack
    → let m₀ : Message = record m { length = 0 } in
      prepare_with alloc m (some body)
      ≡ ok (
          some (record {
            block = wire_header m₀ ++ drop header_size (new_char alloc 0);
            size = header_size;
            message = m₀;
          }))
unfolding prepare_with place_header offset
empty_spare alloc m c room = rw (prepared_empty alloc c) (
    rw (
      write_header-Emits (record m { length = 0 }) [] (new_char alloc 0)
        (omega (arith, length-new_char alloc 0))))

-- An OPTIONS or READY message is written into a block that was allocated with no bytes: either the
-- allocator gives fewer than eight spare ones, and the header runs out of the block, or it gives
-- eight or more, and the frame is the header alone, with the length 0.
pub prepare_empty :
    (alloc : Allocator) (m : Message) {body : Body}
    → IsEmpty body
    → m.body ≡ some body
    → ((alloc.slack < header_size) × (prepare alloc m ≡ err out_of_bounds))
      ⊎ ((header_size ≤ alloc.slack)
          × ((out : Output) × (prepare alloc m ≡ ok (some out))
              × (take out.size out.block ≡ wire_header (record m { length = 0 }))
              × (out.message ≡ record m { length = 0 })))
unfolding prepare
prepare_empty alloc m {body} c e = elim (dec_lt alloc.slack header_size) [
  | yes short ↦ inl (short, ap (prepare_with alloc m) e ∙ empty_overrun alloc m c short)
  | no room ↦ inr (
    omega arith,
    (
      record {
        block = wire_header m₀ ++ drop header_size (new_char alloc 0);
        size = header_size;
        message = m₀;
      },
      ap (prepare_with alloc m) e ∙ empty_spare alloc m c (omega arith),
      refl,
      refl,
    ),
  )
]
  where
    m₀ : Message
    m₀ = record m { length = 0 }
