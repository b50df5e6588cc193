-- ===== src/Message/Split.antt =====
-- `Message::consume` on a body that comes in several chunks.
use uv_client_server.Base.{
  ℕ, ◌+◌, ◌-◌, ◌^◌, ◌≤◌, ◌<◌, ◌≡◌, ◌≢◌, sym, ap, ap₂, ◌∙◌, List, [], ◌++◌, append-nil, true, false,
  Result, ok, err, out_of_bounds, ◌>>=◌, length, drop, arith, length-append, drop-length-append,
  length-drop, length-pos, drop_all,
}
use uv_client_server.Memory.{Bytes, Allocator, new_char, fill}
use uv_client_server.Memory.Emits.{length-new_char}
use uv_client_server.Body.{Body}
use uv_client_server.Message.{
  Message, consume, consume_body, copy_to, allocate_body, new_message, header_size, int_ge,
  sub_size,
}
use uv_client_server.Serialization.{int32}
use uv_client_server.Message.Receive.{
  copy_to-append, copy_to_overrun, receiving, header_of, opened, read_header_lem,
}
use uv_client_server.Message.Chunks.{feed, concat, feed-new, spare-eight, lengths-split}

module _ (v f s o : ℕ) (body : Bytes) where
  -- The first part of a body, in the call that completes the header: the offset into the buffer
  -- goes on by the whole chunk.
  abbrev halted : Allocator → Message → Body → Bytes → Bytes → Message
  halted alloc m b last part = record (opened v f s o body alloc m b (header_size + length part)) {
    body_buffer = part ++ drop (length part) (new_char alloc (length body));
    body_buffer_pos = length last + length part;
  }

  consume_body-part :
      (alloc : Allocator) (m : Message) (b : Body) (last part : Bytes)
      → length part < length body
      → header_size + length body < 2 ^ 31
      → length last ≤ header_size
      → consume_body
          (opened v f s o body alloc m b (header_size + length part))
          part
          (length last + length part)
          (length last)
        ≡ ok (halted alloc m b last part, length last + length part)
  unfolding consume_body
  consume_body-part alloc m b last part few small short =
      let more : int_ge (int32 (header_size + length part + 2 ^ 32 - header_size)) (length body)
          ≡ false =
        ground arith in
      let size : sub_size (length last + length part) (length last) ≡ length part = omega arith in
      let copied : copy_to (new_char alloc (length body)) 0 part (length part)
          ≡ ok (part ++ drop (length part) (new_char alloc (length body))) =
        ap (λ xs. copy_to (new_char alloc (length body)) 0 xs (length part)) (sym (append-nil part))
        ∙ copy_to-append [] (new_char alloc (length body)) part []
            (omega (arith, length-new_char alloc (length body))) in
      let start : 0 + (length last + length part) ≡ length last + length part = omega arith in
      rw (more, size, copied, start)

  consume-part :
      (alloc : Allocator) (m : Message) (b : Body) (got spare last part : Bytes)
      → length got + length spare ≡ header_size
      → got ++ last ≡ (header_of v f s o body)
      → length part < length body
      → header_size + length body < 2 ^ 31
      → allocate_body o ≡ ok b
      → consume alloc (receiving m got spare) (last ++ part) (length (last ++ part))
        ≡ ok (halted alloc m b last part, length last + length part)
  unfolding consume
  consume-part alloc m b got spare last part eight split few small allocated =
      rw
        (
          received,
          done,
          needed,
          copied,
          read_header_lem v f s o body alloc (record (receiving m got spare) { received = total }) b
              (omega arith) allocated,
          drop-length-append last part,
          size,
        )
        (consume_body-part alloc m b last part few small (omega (arith, lengths)))
    where
      total : ℕ
      total = header_size + length part

      lengths : length got + length last ≡ header_size
      lengths = omega (arith, length-append got last, ap length split)

      size : length (last ++ part) ≡ length last + length part
      size = length-append last part

      received : int32 (length got + length (last ++ part)) ≡ total
      received = omega (arith, lengths, size)

      done : int_ge total header_size ≡ true
      done = ground arith

      needed : sub_size (length (last ++ part)) (int32 (total + 2 ^ 32 - header_size)) ≡ length last
      needed = omega (arith, lengths, size)

      copied :
          copy_to (got ++ spare) (length got) (last ++ part) (length last)
          ≡ ok (header_of v f s o body)
      copied =
          copy_to-append got spare last part (omega (arith, lengths))
          ∙ ap ok (ap₂ ◌++◌ split (drop_all spare (length last) (omega (arith, lengths))))

  -- The rest of the body then goes behind its place.
  consume-rest_overrun :
      (alloc : Allocator) (m : Message) (b : Body) (last part rest more : Bytes)
      → length part + length rest ≡ length body
      → header_size + length part + length (rest ++ more) < 2 ^ 31
      → alloc.slack < length last
      → consume alloc (halted alloc m b last part) (rest ++ more) (length (rest ++ more))
        ≡ err out_of_bounds
  unfolding consume consume_body
  consume-rest_overrun alloc m b last part rest more whole small short = rw (
    received,
    done,
    needed,
    copy_to_overrun (part ++ drop (length part) (new_char alloc (length body)))
        (length last + length part) (rest ++ more) (length rest) beyond,
  )
    where
      n : ℕ
      n = length (rest ++ more)

      total : ℕ
      total = header_size + length part + n

      size : n ≡ length rest + length more
      size = length-append rest more

      received : int32 (header_size + length part + n) ≡ total
      received = omega arith

      done : int_ge (int32 (total + 2 ^ 32 - header_size)) (length body) ≡ true
      done = ground (arith, size, whole)

      needed :
          sub_size (sub_size n 0) (int32 (total + 2 ^ 32 - length body + 2 ^ 32 - header_size))
          ≡ length rest
      needed = omega (arith, size, whole)

      beyond :
          length (part ++ drop (length part) (new_char alloc (length body)))
          < length last + length part + length rest
      beyond = omega (
        arith,
        length-append part (drop (length part) (new_char alloc (length body))),
        length-drop (length part) (new_char alloc (length body)),
        length-new_char alloc (length body),
        whole,
      )

  -- For a frame of less than 2^31 bytes with what follows it, of an opcode that has a body: a body of which only a part comes in the chunk that completes the header: when the rest comes,
  -- it is written `last` bytes behind its place, and so out of the buffer, unless the allocator
  -- gave as many spare bytes as the header had in that chunk.
  pub consume-split_body :
      (alloc : Allocator) (b : Body) (chunks : List Bytes) (last part rest more : Bytes)
      → concat chunks ++ last ≡ header_of v f s o body
      → last ≢ []
      → part ++ rest ≡ body
      → rest ≢ []
      → header_size + length part + length (rest ++ more) < 2 ^ 31
      → allocate_body o ≡ ok b
      → alloc.slack < length last
      → (feed alloc (new_message alloc) chunks >>= λ m.
          consume alloc m (last ++ part) (length (last ++ part)) >>= λ r.
          consume alloc r.0 (rest ++ more) (length (rest ++ more)))
        ≡ err out_of_bounds
  consume-split_body alloc b chunks last part rest more split nonempty whole missing small allocated
        short =
      ap (λ r. r >>= finish) (feed-new alloc chunks last header nonempty)
      ∙ rw
          (consume-part alloc (new_message alloc) b (concat chunks)
            (drop (length (concat chunks)) (fill alloc.junk header_size)) last part
            (spare-eight alloc chunks last header) split
            (omega (arith, lengths, length-pos rest missing))
            (omega (arith, lengths, length-append rest more)) allocated)
          (consume-rest_overrun alloc (new_message alloc) b last part rest more lengths small short)
    where
      finish : Message → Result (Message × ℕ)
      finish m = consume alloc m (last ++ part) (length (last ++ part)) >>= λ r.
          consume alloc r.0 (rest ++ more) (length (rest ++ more))

      lengths : length part + length rest ≡ length body
      lengths = omega (arith, length-append part rest, ap length whole)

      header : length (concat chunks) + length last ≡ header_size
      header = lengths-split v f s o body chunks last split
