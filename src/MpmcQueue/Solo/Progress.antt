-- ===== src/MpmcQueue/Solo/Progress.antt =====
-- include/cql_mpmc_queue.hpp: a call that runs alone returns.
use uv_client_server.Base.{
  ℕ, suc, ◌+◌, ◌^◌, ◌≤◌, ◌<◌, ◌≡◌, refl, sym, ap, subst, inl, inr, List, true, false, Bool-cases,
  none, length, arith, dec_lt, ◌==◌,
}
use uv_client_server.MpmcQueue.{
  MpmcQueue, System, Reach, Pc, idle, enq_load, enq_seq, enq_cas, enq_store, enq_publish, enq_done,
  deq_load, deq_seq, deq_cas, deq_read, deq_release, deq_done, step, at_rest, difference, negative,
  next, exchanges,
}
use uv_client_server.MpmcQueue.Index.{slot}
use uv_client_server.MpmcQueue.Inv.{IsSize, seq_of, Cells}
use uv_client_server.MpmcQueue.Fifo.{pow-IsSize, Reach-Inv}
use uv_client_server.MpmcQueue.Solo.{
  run, run-at_rest, run-step, exchange_self, enq_dif, deq_dif, enq_equal, enq_less, enq_more,
  enq_won, enq_lost, deq_equal, deq_less, deq_more, deq_won, deq_lost,
}

not_positive :
    (a b : ℕ)
    → a ≤ b
    → b < 2 ^ 63
    → (difference a b == 0) ≡ false
    → negative (difference a b) ≡ true
not_positive a b h k e = ground arith

module _ {A : Type 0} {size : ℕ} (sized : IsSize size) where
  module _ {items : List A} {q : MpmcQueue A} (c : Cells size items q) where
    seq-head-le : seq_of size q q.head_seq ≤ q.head_seq
    seq-head-le = elim (dec_lt q.head_seq (q.tail_seq + size)) [
      | yes room ↦ ground (arith, c.free q.head_seq, sized.two)
      | no full ↦
          let e : q.head_seq ≡ q.tail_seq + size = omega (arith, c.within) in
          ground
            (arith, c.full q.tail_seq, sized.two, sized.shared q.tail_seq, ap (seq_of size q) e)
    ]

    seq-tail-le : seq_of size q q.tail_seq ≤ q.tail_seq + 1
    seq-tail-le = elim (dec_lt q.tail_seq q.head_seq) [
      | yes some_there ↦ ground (arith, c.full q.tail_seq)
      | no empty ↦ ground (arith, c.free q.tail_seq, c.ordered, sized.two)
    ]

  -- The call returns within `n` steps of its thread alone.
  abbrev pub Returns : ℕ → MpmcQueue A → Pc A → Type 0
  Returns n q p = at_rest (run size n q p).1 ≡ true

  returned : (n : ℕ) (q : MpmcQueue A) (p : Pc A) → at_rest p ≡ true → Returns n q p
  returned n q p e = rw (run-at_rest size n q p e) e

  after :
      (n : ℕ) (q : MpmcQueue A) (p : Pc A) {q' : MpmcQueue A} {p' : Pc A}
      → step size false q p ≡ (q', p')
      → Returns n q' p'
      → Returns (suc n) q p
  after n q p e = subst (λ r. at_rest r.1 ≡ true) (sym (run-step size n q p e))

  store_returns :
      (n : ℕ) (q : MpmcQueue A) (x : A) (h : ℕ) → Returns (suc (suc n)) q (enq_store x h)
  unfolding run step
  store_returns n q x h = returned n _ (enq_done true) refl

  read_returns : (n : ℕ) (q : MpmcQueue A) (t : ℕ) → Returns (suc (suc n)) q (deq_read t)
  unfolding run step
  read_returns n q t = returned n _ (deq_done true _) refl

  module _ {items : List A} {q : MpmcQueue A} (c : Cells size items q)
      (small : length items + size < 2 ^ 63) where
    small_seq : (u : ℕ) → seq_of size q u < 2 ^ 63
    small_seq u = omega (arith, c.bounded (slot size u) (sized.lt u), c.ordered, c.counted)

    -- The loop of `enqueue` with the head as it is.
    head_returns : (n : ℕ) (x : A) → Returns (suc (suc (suc (suc n)))) q (enq_seq x q.head_seq)
    head_returns n x = elim (Bool-cases (enq_dif size q q.head_seq == 0)) [
      | inl zero_dif ↦ after (suc (suc (suc n))) _ _ (enq_equal size q x q.head_seq zero_dif) (
          after (suc (suc n)) _ _ (enq_won size q x q.head_seq (exchange_self q.head_seq))
            (store_returns n _ x q.head_seq))
      | inr other ↦
          after (suc (suc (suc n))) _ _
            (enq_less size q x q.head_seq other (
              not_positive (seq_of size q q.head_seq) q.head_seq (seq-head-le c)
                (omega (arith, c.counted)) other))
            (returned (suc (suc (suc n))) q (enq_done false) refl)
    ]

    cas_returns : (n : ℕ) (x : A) (h : ℕ) → Returns (suc (suc (suc (suc (suc n))))) q (enq_cas x h)
    cas_returns n x h = elim (Bool-cases (exchanges false q.head_seq h)) [
      | inl won ↦
          after (suc (suc (suc (suc n)))) _ _ (enq_won size q x h won)
            (store_returns (suc (suc n)) _ x h)
      | inr lost ↦ after (suc (suc (suc (suc n)))) _ _ (enq_lost size q x h lost) (head_returns n x)
    ]

    load_returns : (n : ℕ) (x : A) → Returns (suc (suc (suc (suc (suc n))))) q (enq_load x)
    unfolding run step
    load_returns n x = head_returns n x

    seq_returns :
        (n : ℕ) (x : A) (h : ℕ) → Returns (suc (suc (suc (suc (suc (suc n)))))) q (enq_seq x h)
    seq_returns n x h = elim (Bool-cases (enq_dif size q h == 0)) [
      | inl zero_dif ↦
          after (suc (suc (suc (suc (suc n))))) _ _ (enq_equal size q x h zero_dif)
            (cas_returns n x h)
      | inr other ↦ elim (Bool-cases (negative (enq_dif size q h))) [
        | inl less ↦
            after (suc (suc (suc (suc (suc n))))) _ _ (enq_less size q x h other less)
              (returned (suc (suc (suc (suc (suc n))))) q (enq_done false) refl)
        | inr more ↦
            after (suc (suc (suc (suc (suc n))))) _ _ (enq_more size q x h other more)
              (load_returns n x)
      ]
    ]

    -- The loop of `dequeue` with the tail as it is.
    tail_returns : (n : ℕ) → Returns (suc (suc (suc (suc n)))) q (deq_seq q.tail_seq)
    tail_returns n = elim (Bool-cases (deq_dif size q q.tail_seq == 0)) [
      | inl zero_dif ↦ after (suc (suc (suc n))) _ _ (deq_equal size q q.tail_seq zero_dif) (
          after (suc (suc n)) _ _ (deq_won size q q.tail_seq (exchange_self q.tail_seq))
            (read_returns n _ q.tail_seq))
      | inr other ↦
          let wrap : next q.tail_seq ≡ q.tail_seq + 1 = omega (arith, c.counted, c.ordered) in
          after (suc (suc (suc n))) _ _
            (deq_less size q q.tail_seq other (
              not_positive (seq_of size q q.tail_seq) (next q.tail_seq)
                (omega (arith, seq-tail-le c)) (omega (arith, c.counted, c.ordered)) other))
            (returned (suc (suc (suc n))) q (deq_done false none) refl)
    ]

    take_returns : (n : ℕ) (t : ℕ) → Returns (suc (suc (suc (suc (suc n))))) q (deq_cas t)
    take_returns n t = elim (Bool-cases (exchanges false q.tail_seq t)) [
      | inl won ↦
          after (suc (suc (suc (suc n)))) _ _ (deq_won size q t won)
            (read_returns (suc (suc n)) _ t)
      | inr lost ↦ after (suc (suc (suc (suc n)))) _ _ (deq_lost size q t lost) (tail_returns n)
    ]

    reload_returns : (n : ℕ) → Returns (suc (suc (suc (suc (suc n))))) q deq_load
    unfolding run step
    reload_returns n = tail_returns n

    deq_returns : (n : ℕ) (t : ℕ) → Returns (suc (suc (suc (suc (suc (suc n)))))) q (deq_seq t)
    deq_returns n t = elim (Bool-cases (deq_dif size q t == 0)) [
      | inl zero_dif ↦
          after (suc (suc (suc (suc (suc n))))) _ _ (deq_equal size q t zero_dif) (take_returns n t)
      | inr other ↦ elim (Bool-cases (negative (deq_dif size q t))) [
        | inl less ↦
            after (suc (suc (suc (suc (suc n))))) _ _ (deq_less size q t other less)
              (returned (suc (suc (suc (suc (suc n))))) q (deq_done false none) refl)
        | inr more ↦
            after (suc (suc (suc (suc (suc n))))) _ _ (deq_more size q t other more)
              (reload_returns n)
      ]
    ]

    six_returns : (p : Pc A) → Returns 6 q p
    unfolding run step
    six_returns idle = refl
    six_returns (enq_load x) = load_returns 1 x
    six_returns (enq_seq x h) = seq_returns 0 x h
    six_returns (enq_cas x h) = cas_returns 1 x h
    six_returns (enq_store x h) = refl
    six_returns (enq_publish h) = refl
    six_returns (enq_done b) = refl
    six_returns deq_load = reload_returns 1
    six_returns (deq_seq t) = deq_returns 0 t
    six_returns (deq_cas t) = take_returns 1 t
    six_returns (deq_read t) = refl
    six_returns (deq_release t x) = refl
    six_returns (deq_done b x) = refl

-- A queue of 2 or more cells, any number of threads in any interleaving, and fewer than 2^63
-- sequence numbers used: wherever a thread stands in a call, and wherever the others stand, the call
-- returns within six steps of that thread alone, if no exchange fails for no reason.
pub six_steps :
    (k : ℕ) {A : Type 0} {items : List A} {s : System A}
    → Reach (2 ^ suc k) items s
    → length items + 2 ^ suc k < 2 ^ 63
    → (i : ℕ) → at_rest (run (2 ^ suc k) 6 s.queue (s.pc i)).1 ≡ true
six_steps k {s = s} r small i =
    six_returns (pow-IsSize k) (Reach-Inv (pow-IsSize k) small r).cells small (s.pc i)
