-- ===== src/Message/Chunks.antt =====
-- `Message::consume` over the chunks in which a frame arrives.
use uv_client_server.Base.{
  ℕ, ◌+◌, ◌^◌, ◌<◌, ◌≡◌, ◌≢◌, refl, sym, ap, ap₂, ◌∙◌, List, [], ◌∷◌, ◌++◌, append_assoc,
  append-nil, Bool, Result, ok, ◌>>=◌, length, drop, arith, length-append, length-drop, length-pos,
  drop-append,
}
use uv_client_server.Memory.{Bytes, Allocator, new_char, fill}
use uv_client_server.Memory.Emits.{length-fill}
use uv_client_server.Body
use uv_client_server.Body.{Body}
use uv_client_server.Message.{Message, consume, allocate_body, new_message, header_size}
use uv_client_server.Message.Receive.{receiving, header_of, completed, consume-more, consume-whole}

-- The calls of `consume` on the chunks that arrive before the last one.
unfoldable pub feed : Allocator → Message → List Bytes → Result Message
feed alloc m [] = ok m
feed alloc m (chunk ∷ chunks) = do
  (m', consumed) ← consume alloc m chunk (length chunk)
  feed alloc m' chunks

abbrev pub concat : List Bytes → Bytes
concat [] = []
concat (chunk ∷ chunks) = chunk ++ concat chunks

feed-receiving :
    (alloc : Allocator) (m : Message) (got spare : Bytes) (chunks : List Bytes)
    → length got + length spare ≡ header_size
    → length got + length (concat chunks) < header_size
    → feed alloc (receiving m got spare) chunks
      ≡ ok (receiving m (got ++ concat chunks) (drop (length (concat chunks)) spare))
unfolding feed
feed-receiving alloc m got spare [] eight few = rw append-nil
feed-receiving alloc m got spare (chunk ∷ chunks) eight few =
    rw
      (consume-more alloc m got spare chunk eight
        (omega (arith, length-append chunk (concat chunks))))
      (feed-receiving alloc m (got ++ chunk) (drop (length chunk) spare) chunks
          (omega (
            arith,
            length-append got chunk,
            length-drop (length chunk) spare,
            length-append chunk (concat chunks),
          ))
          (omega (arith, length-append got chunk, length-append chunk (concat chunks)))
        ∙ ap₂ (λ xs ys. ok (receiving m xs ys)) (append_assoc got chunk (concat chunks))
            (sym (drop-append chunk (concat chunks) spare)))

pub new_message-receiving :
    (alloc : Allocator)
    → new_message alloc ≡ receiving (new_message alloc) [] (fill alloc.junk header_size)
unfolding new_message
new_message-receiving alloc = refl

-- What is left of the header buffer before the last chunk.
abbrev pub spare_of : Allocator → List Bytes → Bytes
spare_of alloc chunks = drop (length (concat chunks)) (fill alloc.junk header_size)

pub lengths-split :
    (v f s o : ℕ) (body : Bytes) (chunks : List Bytes) (last : Bytes)
    → concat chunks ++ last ≡ header_of v f s o body
    → length (concat chunks) + length last ≡ header_size
lengths-split v f s o body chunks last split =
    omega (arith, length-append (concat chunks) last, ap length split)

module _ (alloc : Allocator) (chunks : List Bytes) (last : Bytes)
    (lengths : length (concat chunks) + length last ≡ header_size) where
  pub spare-eight : length (concat chunks) + length (spare_of alloc chunks) ≡ header_size
  spare-eight = omega (
    arith,
    length-drop (length (concat chunks)) (fill alloc.junk header_size),
    length-fill alloc.junk header_size,
  )

  pub feed-new :
      last ≢ []
      → feed alloc (new_message alloc) chunks
        ≡ ok (receiving (new_message alloc) (concat chunks) (spare_of alloc chunks))
  feed-new nonempty =
      ap (λ m. feed alloc m chunks) (new_message-receiving alloc)
      ∙ feed-receiving alloc (new_message alloc) [] (fill alloc.junk header_size) chunks
          (omega (arith, length-fill alloc.junk header_size))
          (omega (arith, length-pos last nonempty))

-- A frame, at most 2^31 - 1 bytes with what follows it, of an opcode that has a body and a content
-- that can be parsed, whose header comes in any chunks, and whose body comes whole in the chunk that completes
-- the header, is parsed as the frame that it is: the message has the fields of the header and the
-- body that the bytes stand for, it is ready, and `consume` returns how much of that chunk belongs
-- to the frame, whatever follows in it.
pub consume-chunked :
    (alloc : Allocator) (v f s o : ℕ) (body : Bytes) (b b' : Body) (good : Bool)
    (chunks : List Bytes) (last more : Bytes)
    → concat chunks ++ last ≡ header_of v f s o body
    → last ≢ []
    → header_size + length (body ++ more) < 2 ^ 31
    → allocate_body o ≡ ok b
    → Body.consume b (body ++ drop (length body) (new_char alloc (length body))) ≡ ok (b', good)
    → (feed alloc (new_message alloc) chunks >>= λ m.
        consume alloc m (last ++ (body ++ more)) (length (last ++ (body ++ more))))
      ≡ ok (
        completed v f s o body alloc
            (new_message alloc)
            b'
            good
            (header_size + length (body ++ more)),
        length last + length body,
      )
consume-chunked alloc v f s o body b b' good chunks last more split nonempty small allocated
      parsed =
    ap (λ r. r >>= λ m. consume alloc m (last ++ (body ++ more)) (length (last ++ (body ++ more))))
      (feed-new alloc chunks last lengths nonempty)
    ∙ consume-whole v f s o body alloc (new_message alloc) b b' good (concat chunks)
        (spare_of alloc chunks) last more (spare-eight alloc chunks last lengths) split small
        allocated parsed
  where
    lengths : length (concat chunks) + length last ≡ header_size
    lengths = lengths-split v f s o body chunks last split
