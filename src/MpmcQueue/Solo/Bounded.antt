-- ===== src/MpmcQueue/Solo/Bounded.antt =====
-- include/cql_mpmc_queue.hpp: one thread's calls, one after the other, against a list of bounded
-- length.
use uv_client_server.Base.{
  ℕ, suc, ◌+◌, ◌-◌, ◌%◌, ◌^◌, ◌≤◌, ◌<◌, ◌≡◌, refl, ap, ◌∙◌, inl, inr, List, [], ◌∷◌, ◌++◌, true,
  false, Bool-cases, none, some, length, length-append, get_elem?, get_elem?-append_last,
  get_elem?-append_front, arith, dec_lt, ltb, ◌==◌, if◌then◌else◌,
}
use uv_client_server.MpmcQueue.{
  MpmcQueue, start_queue, Call, enqueue, dequeue, entry, Pc, enq_load, enq_seq, enq_cas, enq_done,
  deq_load, deq_seq, deq_cas, deq_done, step, next, set_content, set_seq,
}
use uv_client_server.MpmcQueue.Index.{slot}
use uv_client_server.MpmcQueue.Inv.{IsSize, near, seq_of, content_of}
use uv_client_server.MpmcQueue.Fifo.{pow-IsSize}
use uv_client_server.MpmcQueue.Solo.{
  run, run-step, exchange_self, enq_dif, enq_equal, enq_less, enq_won, deq_equal, deq_less, deq_won,
}

-- What a call is to do: the contents after it, and how it returns.
unfoldable pub fifo : {A : Type 0} → (size : ℕ) → List A → Call A → List A × Pc A
fifo size contents (enqueue x) =
    if ltb (length contents) size
    then (contents ++ x ∷ [], enq_done true)
    else (contents, enq_done false)
fifo size [] dequeue = ([], deq_done false none)
fifo size (x ∷ contents) dequeue = (contents, deq_done true (some x))

-- How the calls return, by the list and by the queue.
unfoldable pub fifo_outcomes : {A : Type 0} → (size : ℕ) → List A → List (Call A) → List (Pc A)
fifo_outcomes size contents [] = []
fifo_outcomes size contents (c ∷ calls) =
    (fifo size contents c).1 ∷ fifo_outcomes size (fifo size contents c).0 calls

unfoldable pub outcomes : {A : Type 0} → (size : ℕ) → MpmcQueue A → List (Call A) → List (Pc A)
outcomes size q [] = []
outcomes size q (c ∷ calls) =
    (run size 5 q (entry c)).1 ∷ outcomes size (run size 5 q (entry c)).0 calls

-- The queue, between calls, holds the contents.
record Holds {A : Type 0} (size : ℕ) (contents : List A) (q : MpmcQueue A) : Type 0 where
  counted : q.head_seq ≡ q.tail_seq + length contents
  fits : length contents ≤ size
  full :
      (u : ℕ)
      → q.tail_seq ≤ u
      → u < q.head_seq
      → (seq_of size q u ≡ u + 1) × (content_of size q u ≡ get_elem? contents (u - q.tail_seq))
  free : (u : ℕ) → q.head_seq ≤ u → u < q.tail_seq + size → seq_of size q u ≡ u

module _ {A : Type 0} {size : ℕ} (sized : IsSize size) {contents : List A} {q : MpmcQueue A}
    (v : Holds size contents q) where
  abbrev enqueued : A → MpmcQueue A
  enqueued x =
      set_seq (set_content (record q { head_seq = q.head_seq + 1 }) (slot size q.head_seq) (some x))
        (slot size q.head_seq) (q.head_seq + 1)

  enqueue_room :
      (x : A)
      → q.head_seq + size + 1 < 2 ^ 63
      → length contents < size
      → run size 5 q (enq_load x) ≡ (enqueued x, enq_done true)
  unfolding run step
  enqueue_room x small room =
      let same : (enq_dif size q q.head_seq == 0) ≡ true =
        ground (arith, v.free q.head_seq, v.counted) in
      let wrap : next q.head_seq ≡ q.head_seq + 1 = omega arith in
      run-step size 3 q (enq_seq x q.head_seq) (enq_equal size q x q.head_seq same)
      ∙ run-step size 2 q (enq_cas x q.head_seq)
          (enq_won size q x q.head_seq (exchange_self q.head_seq))
      ∙ rw wrap refl

  enqueue_full :
      (x : A)
      → q.head_seq + size + 1 < 2 ^ 63
      → size ≤ length contents
      → run size 5 q (enq_load x) ≡ (q, enq_done false)
  unfolding run step
  enqueue_full x small room =
      let at_head : seq_of size q q.head_seq ≡ q.tail_seq + 1 =
        ap (seq_of size q) (omega (arith, v.counted, v.fits))
        ∙ ap (λ i. (q.buffer i).seq) (sized.shared q.tail_seq)
        ∙ (v.full q.tail_seq (omega arith) (omega (arith, v.counted, sized.two))).0 in
      run-step size 3 q (enq_seq x q.head_seq) (
        enq_less size q x q.head_seq (ground (arith, v.counted, sized.two))
          (ground (arith, v.counted, sized.two)))

  enqueued-Holds : (x : A) → length contents < size → Holds size (contents ++ x ∷ []) (enqueued x)
  enqueued-Holds x room = record {
    counted = omega (arith, length-append contents (x ∷ []), v.counted);
    fits = omega (arith, length-append contents (x ∷ []));
    full = λ u h k. elim (dec_lt u q.head_seq) [
      | yes before ↦ ground (
        arith,
        near sized q.head_seq u,
        v.full u h before,
        v.counted,
        get_elem?-append_front contents (x ∷ []) (u - q.tail_seq),
      )
      | no last ↦
          let at_head : u ≡ q.head_seq = omega arith in
          let index : u - q.tail_seq ≡ length contents = omega (arith, v.counted) in
          ground (
            arith,
            ap (slot size) at_head,
            at_head,
            ap (get_elem? (contents ++ x ∷ [])) index,
            get_elem?-append_last contents x,
          )
    ];
    free = λ u h k. ground (arith, near sized q.head_seq u, v.free u, v.counted);
  }

  dequeue_empty :
      q.head_seq + size + 1 < 2 ^ 63
      → length contents ≡ 0
      → run size 5 q deq_load ≡ (q, deq_done false none)
  unfolding run step
  dequeue_empty small empty =
      let at_tail : seq_of size q q.tail_seq ≡ q.tail_seq =
        v.free q.tail_seq (omega (arith, v.counted)) (omega (arith, sized.two)) in
      run-step size 3 q (deq_seq q.tail_seq)
        (deq_less size q q.tail_seq (ground (arith, v.counted)) (ground (arith, v.counted)))

module _ {A : Type 0} {size : ℕ} (sized : IsSize size) {x : A} {contents : List A} {q : MpmcQueue A}
    (v : Holds size (x ∷ contents) q) where
  abbrev dequeued : MpmcQueue A
  dequeued =
      set_seq (record q { tail_seq = q.tail_seq + 1 }) (slot size q.tail_seq) (q.tail_seq + size)

  dequeue_some :
      q.head_seq + size + 1 < 2 ^ 63 → run size 5 q deq_load ≡ (dequeued, deq_done true (some x))
  unfolding run step
  dequeue_some small =
      let (at_tail, there) = v.full q.tail_seq (omega arith) (omega (arith, v.counted)) in
      let wrap : next q.tail_seq ≡ q.tail_seq + 1 = omega (arith, v.counted) in
      let first : q.tail_seq - q.tail_seq ≡ 0 = omega arith in
      let found : content_of size q q.tail_seq ≡ some x =
        there ∙ ap (get_elem? (x ∷ contents)) first in
      let round : (q.tail_seq + (size - 1) + 1) % 2 ^ 64 ≡ q.tail_seq + size =
        omega (arith, v.counted, sized.two) in
      run-step size 3 q (deq_seq q.tail_seq)
        (deq_equal size q q.tail_seq (ground (arith, v.counted)))
      ∙ run-step size 2 q (deq_cas q.tail_seq)
          (deq_won size q q.tail_seq (exchange_self q.tail_seq))
      ∙ rw (wrap, round, found) refl

  dequeued-Holds : Holds size contents dequeued
  dequeued-Holds = record {
    counted = omega (arith, v.counted);
    fits = omega (arith, v.fits);
    full = λ u h k. ground (arith, near sized q.tail_seq u, v.full u, v.counted, v.fits);
    free = λ u h k. elim (dec_lt u (q.tail_seq + size)) [
      | yes before ↦ ground (arith, near sized q.tail_seq u, v.free u, v.counted)
      | no last ↦
          let index : u ≡ q.tail_seq + size = omega arith in
          ground (arith, ap (slot size) index, sized.shared q.tail_seq)
    ];
  }

module _ {A : Type 0} {size : ℕ} (sized : IsSize size) where
  -- A call alone returns what it is to return, and leaves what it is to leave.
  record Agrees (before : MpmcQueue A) (outcome : List A × Pc A) (after : MpmcQueue A × Pc A)
      : Type 0 where
    returned : after.1 ≡ outcome.1
    left : Holds size outcome.0 after.0
    grown : after.0.head_seq ≤ before.head_seq + 1

  call-Agrees :
      (contents : List A) (q : MpmcQueue A) (v : Holds size contents q)
      → q.head_seq + size + 1 < 2 ^ 63
      → (c : Call A) → Agrees q (fifo size contents c) (run size 5 q (entry c))
  unfolding fifo
  call-Agrees contents q v small (enqueue x) = elim (Bool-cases (ltb (length contents) size)) [
    | inl room ↦
        rw (room, enqueue_room sized v x small (ground arith))
          (record {
            returned = refl;
            left = enqueued-Holds sized v x (ground arith);
            grown = omega arith;
          })
    | inr full ↦
        rw (full, enqueue_full sized v x small (ground arith))
          (record { returned = refl; left = v; grown = omega arith })
  ]
  call-Agrees [] q v small dequeue =
      rw (dequeue_empty sized v small refl)
        (record { returned = refl; left = v; grown = omega arith })
  call-Agrees (x ∷ contents) q v small dequeue =
      rw (dequeue_some sized v small)
        (record { returned = refl; left = dequeued-Holds sized v; grown = omega arith })

  outcomes-fifo :
      (contents : List A) (q : MpmcQueue A) (calls : List (Call A)) (v : Holds size contents q)
      → q.head_seq + length calls + size < 2 ^ 63
      → outcomes size q calls ≡ fifo_outcomes size contents calls
  unfolding outcomes fifo_outcomes
  outcomes-fifo contents q [] v small = refl
  outcomes-fifo contents q (c ∷ calls) v small =
      let agrees : Agrees q (fifo size contents c) (run size 5 q (entry c)) =
        call-Agrees contents q v (omega arith) c in
      ap (λ p. p ∷ outcomes size (run size 5 q (entry c)).0 calls) agrees.returned
      ∙ ap (λ l. (fifo size contents c).1 ∷ l)
          (outcomes-fifo (fifo size contents c).0 (run size 5 q (entry c)).0 calls agrees.left
            (omega (arith, agrees.grown)))

-- The calls of one thread on a new queue of 2 or more cells, fewer than 2^63 of them, each of which
-- is given five steps without an exchange that fails for no reason, return as those of a list of at
-- most that many items do: `enqueue` adds at the end, or returns false when the list is full, and
-- `dequeue` gives the first item, or returns false when the list is empty.
pub one_thread-fifo :
    (k : ℕ) {A : Type 0} (calls : List (Call A))
    → length calls + 2 ^ suc k < 2 ^ 63
    → outcomes (2 ^ suc k) start_queue calls ≡ fifo_outcomes (2 ^ suc k) [] calls
one_thread-fifo k calls small =
    let sized = pow-IsSize k in
    outcomes-fifo sized [] start_queue calls
      (record {
        counted = refl;
        fits = omega arith;
        full = λ u h l. absurd (omega arith);
        free = λ u h l. sized.within u (omega arith);
      })
      (omega arith)
