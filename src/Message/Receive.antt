-- ===== src/Message/Receive.antt =====
-- `Message::consume`, one call: with a part of the header, and with the end of the header and the body.
use uv_client_server.Base.{
  ℕ, ◌+◌, ◌-◌, ◌*◌, ◌/◌, ◌%◌, ◌^◌, ◌≤◌, ◌<◌, ◌≡◌, refl, sym, ap, ap₂, ◌∙◌, [], ◌∷◌, ◌++◌,
  append-nil, Bool, true, false, some, ok, err, out_of_bounds, length, take, drop, arith, dec_lt,
  length-append, drop-length-append, lt→ltb, if◌then◌else◌, length-drop, drop_all,
}
use uv_client_server.Memory.{Bytes, Allocator, new_char, offset, be_32, load_32, htonl}
use uv_client_server.Memory.Emits.{
  memcpy-Emits, memcpy_overrun, length-new_char, offset-append, advance_lem, advance_overrun,
}
use uv_client_server.Body
use uv_client_server.Body.{Body}
use uv_client_server.Message.{
  Message, consume, consume_body, copy_to, read_header, byte, allocate_body, header_size, int_ge,
  sub_size,
}
use uv_client_server.Serialization.{int32}

-- Copying into a block behind `got`.
pub copy_to-append :
    (got spare bs more : Bytes)
    → length bs ≤ length spare
    → copy_to (got ++ spare) (length got) (bs ++ more) (length bs)
      ≡ ok ((got ++ bs) ++ drop (length bs) spare)
unfolding copy_to
copy_to-append got spare bs more h =
    rw (offset-append got spare bs more, memcpy-Emits bs more got spare h)

pub copy_to_overrun :
    (block : Bytes) (pos : ℕ) (input : Bytes) (n : ℕ)
    → length block < pos + n
    → copy_to block pos input n ≡ err out_of_bounds
unfolding copy_to offset
copy_to_overrun block pos input n h = elim (dec_lt (length block) pos) [
  | yes far ↦ rw (advance_overrun pos block far)
  | no near ↦ rw (advance_lem pos block (omega arith)) (
      rw (
        memcpy_overrun n input (take pos block) (drop pos block)
          (omega (arith, length-drop pos block))))
]

-- A message that has received the bytes `got` of its header, and nothing more.
abbrev pub receiving : Message → Bytes → Bytes → Message
receiving m got spare = record m {
  received = length got;
  header_received = false;
  header_buffer = got ++ spare;
  header_buffer_pos = length got;
}

pub consume-more :
    (alloc : Allocator) (m : Message) (got spare chunk : Bytes)
    → length got + length spare ≡ header_size
    → length got + length chunk < header_size
    → consume alloc (receiving m got spare) chunk (length chunk)
      ≡ ok (receiving m (got ++ chunk) (drop (length chunk) spare), length chunk)
unfolding consume
consume-more alloc m got spare chunk eight few =
    let count : int32 (length got + length chunk) ≡ length got + length chunk = omega arith in
    let short : int_ge (length got + length chunk) header_size ≡ false = ground arith in
    let copied : copy_to (got ++ spare) (length got) chunk (length chunk)
        ≡ ok ((got ++ chunk) ++ drop (length chunk) spare) =
      ap (λ xs. copy_to (got ++ spare) (length got) xs (length chunk)) (sym (append-nil chunk))
      ∙ copy_to-append got spare chunk [] (omega arith) in
    rw (count, short, copied, length-append got chunk)

module _ (v f s o : ℕ) (body : Bytes) where
  abbrev pub header_of : Bytes
  header_of = v ∷ f ∷ s ∷ o ∷ be_32 (length body)

  -- The message once the frame is complete, with `total` bytes received in all.
  abbrev pub completed : Allocator → Message → Body → Bool → ℕ → Message
  completed alloc m b good total = record m {
    version = v;
    flags = f;
    stream = s;
    opcode = o;
    length = length body;
    received = total;
    header_received = true;
    header_buffer = header_of;
    header_buffer_pos = header_size;
    body = some b;
    body_buffer = body ++ drop (length body) (new_char alloc (length body));
    body_buffer_pos = length body;
    body_ready = true;
    body_error = if good then m.body_error else some true;
  }

  -- After the header, in the same call.
  abbrev pub opened : Allocator → Message → Body → ℕ → Message
  opened alloc m b total = record m {
    version = v;
    flags = f;
    stream = s;
    opcode = o;
    length = length body;
    received = total;
    header_received = true;
    header_buffer = header_of;
    header_buffer_pos = header_size;
    body = some b;
    body_buffer = new_char alloc (length body);
    body_buffer_pos = 0;
  }

  raw : ℕ
  raw =
      length body / 16777216 % 256
      + 256 * (length body / 65536 % 256)
      + 65536 * (length body / 256 % 256)
      + 16777216 * (length body % 256)

  htonl-raw : length body < 2 ^ 31 → htonl raw ≡ length body
  unfolding raw
  htonl-raw small = omega arith

  pub read_header_lem :
      (alloc : Allocator) (m : Message) (b : Body)
      → length body < 2 ^ 31
      → allocate_body o ≡ ok b
      → read_header alloc (record m { header_buffer = header_of })
        ≡ ok (opened alloc m b m.received)
  unfolding read_header byte load_32 raw
  read_header_lem alloc m b small allocated = rw (htonl-raw small, lt→ltb _ _ small, allocated)

  -- The rest of the call that completes the header, if it holds the body.
  consume_body-whole :
      (alloc : Allocator) (m : Message) (b b' : Body) (good : Bool) (more : Bytes) (used total : ℕ)
      → total < 2 ^ 31
      → total ≡ header_size + length (body ++ more)
      → used ≤ header_size
      → Body.consume b (body ++ drop (length body) (new_char alloc (length body))) ≡ ok (b', good)
      → consume_body (opened alloc m b total) (body ++ more) (used + length (body ++ more)) used
        ≡ ok (completed alloc m b' good total, used + length body)
  unfolding consume_body
  consume_body-whole alloc m b b' good more used total small all few parsed =
      let done : int_ge (int32 (total + 2 ^ 32 - header_size)) (length body) ≡ true =
        ground (arith, length-append body more) in
      let needed : sub_size (sub_size (used + length (body ++ more)) used)
            (int32 (total + 2 ^ 32 - length body + 2 ^ 32 - header_size))
          ≡ length body =
        omega (arith, length-append body more) in
      let copied : copy_to (new_char alloc (length body)) 0 (body ++ more) (length body)
          ≡ ok (body ++ drop (length body) (new_char alloc (length body))) =
        copy_to-append [] (new_char alloc (length body)) body more
          (omega (arith, length-new_char alloc (length body))) in
      let start : 0 + length body ≡ length body = omega arith in
      rw (done, needed, copied, parsed, start)

  pub consume-whole :
      (alloc : Allocator) (m : Message) (b b' : Body) (good : Bool) (got spare last more : Bytes)
      → length got + length spare ≡ header_size
      → got ++ last ≡ header_of
      → header_size + length (body ++ more) < 2 ^ 31
      → allocate_body o ≡ ok b
      → Body.consume b (body ++ drop (length body) (new_char alloc (length body))) ≡ ok (b', good)
      → consume alloc
          (receiving m got spare)
          (last ++ (body ++ more))
          (length (last ++ (body ++ more)))
        ≡ ok (
          completed alloc m b' good (header_size + length (body ++ more)),
          length last + length body,
        )
  unfolding consume
  consume-whole alloc m b b' good got spare last more eight split small allocated parsed =
      rw
        (
          received,
          done,
          needed,
          copied,
          read_header_lem alloc (record (receiving m got spare) { received = total }) b
              (omega (arith, length-append body more)) allocated,
          rest,
          size,
        )
        (consume_body-whole alloc m b b' good more (length last) total small refl
          (omega (arith, lengths)) parsed)
    where
      total : ℕ
      total = header_size + length (body ++ more)

      lengths : length got + length last ≡ header_size
      lengths = omega (arith, length-append got last, ap length split)

      size : length (last ++ (body ++ more)) ≡ length last + length (body ++ more)
      size = length-append last (body ++ more)

      received : int32 (length got + length (last ++ (body ++ more))) ≡ total
      received = omega (arith, lengths, size)

      done : int_ge total header_size ≡ true
      done = ground arith

      needed :
          sub_size (length (last ++ (body ++ more))) (int32 (total + 2 ^ 32 - header_size))
          ≡ length last
      needed = omega (arith, lengths, size)

      copied :
          copy_to (got ++ spare) (length got) (last ++ (body ++ more)) (length last) ≡ ok header_of
      copied =
          copy_to-append got spare last (body ++ more) (omega (arith, lengths))
          ∙ ap ok (ap₂ ◌++◌ split (drop_all spare (length last) (omega (arith, lengths))))

      rest : drop (length last) (last ++ (body ++ more)) ≡ body ++ more
      rest = drop-length-append last (body ++ more)
