-- ===== src/Server/Forgets.antt =====
-- src/server/main.cpp: what a read leaves of the message that arrives.
use uv_client_server.Base.{
  ℕ, ◌+◌, ◌-◌, ◌^◌, ◌<◌, ◌≤◌, ◌≡◌, refl, ap, ◌∙◌, subst, List, [], ◌∷◌, true, false, Result, ok,
  ◌>>=◌, ◌==◌, arith, Yields, Yields-ok, Yields-test, Yields-any, Yields-bind,
}
use uv_client_server.Memory.{Bytes, Allocator}
use uv_client_server.Serialization.{int32}
use uv_client_server.Message.{
  Message, new_message, consume_body, consume, int_ge, sub_size, header_size,
}
use uv_client_server.Message.Progress.{Measured, read_header-Measured}
use uv_client_server.Server.{
  Connection, Read, failed, received, consume_buffer, handle_read, replace,
}

-- A value that `consume_buffer` takes for a message that was used.
abbrev Counted : Message × ℕ → Type 0
Counted r = (int32 r.1 == 0) ≡ false

consume_body-Counted :
    (m : Message) (rest : Bytes) (size : ℕ)
    → Measured size m
    → 8 ≤ size
    → size < 2 ^ 31
    → Yields Counted (consume_body m rest size 8)
unfolding consume_body
consume_body-Counted m rest size (small, is, there) some_there few = record {
  holds = λ r e. ground arith;
}

consume-Counted :
    (alloc : Allocator) (input : Bytes) (size : ℕ)
    → 0 < size
    → size < 2 ^ 31
    → Yields Counted (consume alloc (new_message alloc) input size)
unfolding consume new_message
consume-Counted alloc input size some_there few =
    Yields-test (int_ge (int32 (0 + size)) header_size)
      (λ whole.
        let eight : sub_size size (int32 (int32 (0 + size) + 2 ^ 32 - header_size)) ≡ 8 =
          ground arith in
        rw eight (
          Yields-any _ λ header.
            Yields-bind {P = Measured size} _ (read_header-Measured alloc _ size (ground arith))
              (λ m h. consume_body-Counted m _ size h (ground arith) few)))
      (λ part. Yields-any _ λ header. Yields-ok (ground arith))

-- A read that reports bytes has a buffer of some, and of fewer than 2^31; what was received may fill
-- a part of it.
abbrev pub Fits : Read → Type 0
Fits (failed eof) = Unit
Fits (received nread base len) = (nread ≤ len) × (0 < len) × (len < 2 ^ 31)

abbrev pub AllFit : List Read → Type 0
AllFit [] = Unit
AllFit (r ∷ reads) = Fits r × AllFit reads

-- The calls of `handle_read` by the loop.
unfoldable pub serve : Allocator → Connection → List Read → Result Connection
serve alloc c [] = ok c
serve alloc c (r ∷ reads) = do c' ← handle_read alloc c r; serve alloc c' reads

abbrev pub taken : List Read → ℕ
taken [] = 0
taken (failed eof ∷ reads) = taken reads
taken (received nread base len ∷ reads) = 1 + taken reads

abbrev Forgotten : Allocator → ℕ → Connection → Type 0
Forgotten alloc n c = (c.incomming ≡ new_message alloc) × (c.buffers ≡ n)

consume_buffer-Forgets :
    (alloc : Allocator) (c : Connection) (base : Bytes) (len : ℕ)
    → c.incomming ≡ new_message alloc
    → 0 < len
    → len < 2 ^ 31
    → Yields (Forgotten alloc c.buffers) (consume_buffer alloc c base len)
unfolding consume_buffer replace
consume_buffer-Forgets alloc c base len new some_there few = rw new (
    Yields-bind {P = Counted} _ (consume-Counted alloc base len some_there few)
      (λ r h. Yields-ok (rw h (refl, refl))))

-- A connection whose message is new, after calls of `handle_read` for reads that fail or that have
-- put their bytes, however many, into buffers of fewer than 2^31 bytes: either one of the calls
-- aborts or accesses memory outside a block, or the message is new again. So nothing that one read
-- received of a frame is there for the next, whether or not the frame was complete; and no buffer has
-- been freed.
pub serve_forgets :
    (alloc : Allocator) (c c' : Connection) (reads : List Read)
    → c.incomming ≡ new_message alloc
    → AllFit reads
    → serve alloc c reads ≡ ok c'
    → (c'.incomming ≡ new_message alloc) × (c'.buffers ≡ c.buffers + taken reads)
unfolding serve handle_read
serve_forgets alloc c c' [] new fit e =
    let same : c ≡ c' = cc in subst (λ d. Forgotten alloc (c.buffers + 0) d) same (new, omega arith)
serve_forgets alloc c c' (failed true ∷ reads) new (f, fit) e =
    serve_forgets alloc _ c' reads new fit e
serve_forgets alloc c c' (failed false ∷ reads) new (f, fit) e =
    serve_forgets alloc _ c' reads new fit e
serve_forgets alloc c c' (received nread base len ∷ reads) new ((part, some_there, few), fit) e =
    (Yields-bind {Q = Forgotten alloc (c.buffers + (1 + taken reads))} _
        (consume_buffer-Forgets alloc _ base len new some_there few)
        (λ d h. record {
          holds = λ d' e'.
              let (is, n) = serve_forgets alloc d d' reads h.0 fit e' in
              (is, n ∙ ap (λ k. k + taken reads) h.1 ∙ ground arith);
        })).holds
      c' e
