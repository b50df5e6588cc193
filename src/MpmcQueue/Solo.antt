-- ===== src/MpmcQueue/Solo.antt =====
-- include/cql_mpmc_queue.hpp: a thread that runs alone for a while.
pub mod Progress
pub mod Bounded
pub mod OneCell
use uv_client_server.Base.{
  ℕ, zero, suc, ◌≡◌, refl, ap, Bool, true, false, List, Option, none, some, ◌+◌, ◌-◌, ◌^◌, ◌%◌, ◌<◌,
  ◌≤◌, arith, if◌then◌else◌, ◌==◌, leb, Bool-cases, inl, inr,
}
use uv_client_server.MpmcQueue.{
  MpmcQueue, Pc, idle, enq_load, enq_seq, enq_cas, enq_store, enq_publish, enq_done, deq_load,
  deq_seq, deq_cas, deq_read, deq_release, deq_done, step, at_rest, difference, negative, next,
  exchanges,
}
use uv_client_server.MpmcQueue.Index.{slot}

module _ {A : Type 0} (size : ℕ) where
  -- `n` steps of one thread, whose exchanges do not fail for no reason.
  unfoldable pub run : ℕ → MpmcQueue A → Pc A → MpmcQueue A × Pc A
  run zero q p = (q, p)
  run (suc n) q p = run n (step size false q p).0 (step size false q p).1

  pub run-at_rest : (n : ℕ) (q : MpmcQueue A) (p : Pc A) → at_rest p ≡ true → run n q p ≡ (q, p)
  unfolding run step
  run-at_rest zero q p e = refl
  run-at_rest (suc n) q idle e = run-at_rest n q idle e
  run-at_rest (suc n) q (enq_done b) e = run-at_rest n q (enq_done b) e
  run-at_rest (suc n) q (deq_done b x) e = run-at_rest n q (deq_done b x) e
  run-at_rest (suc n) q p e = cc

pub exchange_self : (a : ℕ) → exchanges false a a ≡ true
exchange_self a = ground arith

-- The outcomes of the steps that branch.
module _ {A : Type 0} (size : ℕ) (q : MpmcQueue A) where
  abbrev pub enq_dif : ℕ → ℕ
  enq_dif h = difference (q.buffer (slot size h)).seq h

  abbrev pub deq_dif : ℕ → ℕ
  deq_dif t = difference (q.buffer (slot size t)).seq (next t)

  pub enq_equal :
      (x : A) (h : ℕ) → (enq_dif h == 0) ≡ true → step size false q (enq_seq x h) ≡ (q, enq_cas x h)
  unfolding step
  enq_equal x h e = rw e

  pub enq_less :
      (x : A) (h : ℕ)
      → (enq_dif h == 0) ≡ false
      → negative (enq_dif h) ≡ true
      → step size false q (enq_seq x h) ≡ (q, enq_done false)
  unfolding step
  enq_less x h e less = rw (e, less)

  pub enq_more :
      (x : A) (h : ℕ)
      → (enq_dif h == 0) ≡ false
      → negative (enq_dif h) ≡ false
      → step size false q (enq_seq x h) ≡ (q, enq_load x)
  unfolding step
  enq_more x h e more = rw (e, more)

  pub enq_won :
      (x : A) (h : ℕ)
      → exchanges false q.head_seq h ≡ true
      → step size false q (enq_cas x h) ≡ (record q { head_seq = next h }, enq_store x h)
  unfolding step
  enq_won x h e = rw e

  pub enq_lost :
      (x : A) (h : ℕ)
      → exchanges false q.head_seq h ≡ false
      → step size false q (enq_cas x h) ≡ (q, enq_seq x q.head_seq)
  unfolding step
  enq_lost x h e = rw e

  pub deq_equal : (t : ℕ) → (deq_dif t == 0) ≡ true → step size false q (deq_seq t) ≡ (q, deq_cas t)
  unfolding step
  deq_equal t e = rw e

  pub deq_less :
      (t : ℕ)
      → (deq_dif t == 0) ≡ false
      → negative (deq_dif t) ≡ true
      → step size false q (deq_seq t) ≡ (q, deq_done false none)
  unfolding step
  deq_less t e less = rw (e, less)

  pub deq_more :
      (t : ℕ)
      → (deq_dif t == 0) ≡ false
      → negative (deq_dif t) ≡ false
      → step size false q (deq_seq t) ≡ (q, deq_load)
  unfolding step
  deq_more t e more = rw (e, more)

  pub deq_won :
      (t : ℕ)
      → exchanges false q.tail_seq t ≡ true
      → step size false q (deq_cas t) ≡ (record q { tail_seq = next t }, deq_read t)
  unfolding step
  deq_won t e = rw e

  pub deq_lost :
      (t : ℕ)
      → exchanges false q.tail_seq t ≡ false
      → step size false q (deq_cas t) ≡ (q, deq_seq q.tail_seq)
  unfolding step
  deq_lost t e = rw e

-- A step, then the others.
pub run-step :
    {A : Type 0} (size n : ℕ) (q : MpmcQueue A) (p : Pc A) {q' : MpmcQueue A} {p' : Pc A}
    → step size false q p ≡ (q', p')
    → run size (suc n) q p ≡ run size n q' p'
unfolding run
run-step size n q p e = ap (λ r. run size n r.0 r.1) e
