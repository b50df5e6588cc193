-- ===== src/Request/Waiting/Lost.antt =====
-- include/cql_request.hpp: a thread that goes to sleep behind `notify_all`.
use uv_client_server.Base.{
  ℕ, ◌≡◌, ◌≢◌, refl, sym, ap, ◌∙◌, Bool, true, false, Option, none, some, arith, subst,
}
use uv_client_server.Request.Waiting.{
  Pc, wait_load, wait_lock, wait_test, wait_sleep, asleep, wait_relock, wait_unlock, returned,
  for_load, for_lock, for_test, for_sleep, for_asleep, for_relock, for_expired, for_last,
  for_unlock, for_returned, notify_store, notify_all, Shared, at, take_mutex, step, Reach, start,
  call_wait, call_notify, move, notified, Run, stop, go, go_expired,
}

abbrev pub notifying : Pc → Bool
notifying notify_store = true
notifying notify_all = true
notifying _ = false

-- Thread `i` sleeps, and no thread is in `notify`.
abbrev Lost : ℕ → Shared → Type 0
Lost i s = (s.pc i ≡ asleep) × ((j : ℕ) → notifying (s.pc j) ≡ false)

-- A thread that does not sleep goes on to a place outside of `notify`.
at-Lost :
    (i : ℕ) (s : Shared)
    → Lost i s
    → (j : ℕ) (p : Pc) → s.pc j ≢ asleep
    → notifying p ≡ false
    → (flag : Bool) (mutex : Option ℕ)
    → Lost i (record { flag = flag; mutex = mutex; pc = at s.pc j p })
at-Lost i s (sleeps, quiet) j p other h flag mutex = (ground arith, λ k. ground (arith, quiet k))

take_mutex-Lost :
    (i : ℕ) (s : Shared)
    → Lost i s
    → (j : ℕ) (p : Pc) → s.pc j ≢ asleep
    → notifying p ≡ false
    → Lost i (take_mutex j p s)
unfolding take_mutex
take_mutex-Lost i s v j p other quiet = by_mutex s.mutex
  where
    by_mutex :
        (m : Option ℕ)
        → Lost i (elim m [ none ↦ record s { mutex = some j; pc = at s.pc j p } | some k ↦ s ])
    by_mutex none = at-Lost i s v j p other quiet s.flag (some j)
    by_mutex (some k) = v

true-false : true ≢ false
true-false e = cc

step-Lost : (i : ℕ) (s : Shared) → Lost i s → (j : ℕ) (p : Pc) → s.pc j ≡ p → Lost i (step j p s)
unfolding step
step-Lost i s v j wait_load e = at-Lost i s v j _ (λ k. cc) (ground arith) s.flag s.mutex
step-Lost i s v j wait_lock e = take_mutex-Lost i s v j wait_test (λ k. cc) refl
step-Lost i s v j wait_test e = at-Lost i s v j _ (λ k. cc) (ground arith) s.flag s.mutex
step-Lost i s v j wait_sleep e = at-Lost i s v j asleep (λ k. cc) refl s.flag none
step-Lost i s v j wait_relock e = take_mutex-Lost i s v j wait_test (λ k. cc) refl
step-Lost i s v j wait_unlock e = at-Lost i s v j returned (λ k. cc) refl s.flag none
step-Lost i s v j for_load e = at-Lost i s v j _ (λ k. cc) (ground arith) s.flag s.mutex
step-Lost i s v j for_lock e = take_mutex-Lost i s v j for_test (λ k. cc) refl
step-Lost i s v j for_test e = at-Lost i s v j _ (λ k. cc) (ground arith) s.flag s.mutex
step-Lost i s v j for_sleep e = at-Lost i s v j for_asleep (λ k. cc) refl s.flag none
step-Lost i s v j for_relock e = take_mutex-Lost i s v j for_test (λ k. cc) refl
step-Lost i s v j for_expired e = take_mutex-Lost i s v j for_last (λ k. cc) refl
step-Lost i s v j for_last e = at-Lost i s v j (for_unlock s.flag) (λ k. cc) refl s.flag s.mutex
step-Lost i s v j (for_unlock b) e = at-Lost i s v j (for_returned b) (λ k. cc) refl s.flag none
step-Lost i s v j notify_store e = absurd (true-false (sym (ap notifying e) ∙ v.1 j))
step-Lost i s v j notify_all e = absurd (true-false (sym (ap notifying e) ∙ v.1 j))
step-Lost i s v j p e = v

-- A thread that sleeps in `wait` while no thread is in `notify` sleeps for ever: however the threads
-- go on, if none of them calls `notify` again and it is not woken for no reason, it is asleep then.
asleep_forever :
    {s s' : Shared}
    → Run s s'
    → (i : ℕ) → s.pc i ≡ asleep
    → ((j : ℕ) → notifying (s.pc j) ≡ false)
    → s'.pc i ≡ asleep
asleep_forever stop i sleeps quiet = sleeps
asleep_forever (go {s} j run) i sleeps quiet =
    let (sleeps', quiet') = step-Lost i s (sleeps, quiet) j (s.pc j) refl in
    asleep_forever run i sleeps' quiet'
asleep_forever (go_expired {s} j e run) i sleeps quiet =
    let (sleeps', quiet') =
      at-Lost i s (sleeps, quiet) j for_expired (λ k. cc) refl s.flag s.mutex in
    asleep_forever run i sleeps' quiet'

moved_from : {s : Shared} {p : Pc} (i : ℕ) → Reach s → s.pc i ≡ p → Reach (step i p s)
moved_from {s} i r e = subst (λ p. Reach (step i p s)) e (move r i)

-- For any two threads, one that calls `wait` and one that calls `notify`: from a new request, a state
-- is reached in which the flag is set and the call of `notify` is over, but the first thread sleeps;
-- and it sleeps for ever, however the threads go on, if none calls `notify` again and it is not woken
-- for no reason. So the order of the store, of `notify_all` and of the test loses the wakeup.
pub wakeup_lost :
    (i j : ℕ)
    → i ≢ j
    → (s : Shared) × Reach s
      × (s.flag ≡ true)
      × (s.pc i ≡ asleep)
      × (s.pc j ≡ notified)
      × ((s' : Shared) → Run s s' → s'.pc i ≡ asleep)
unfolding step take_mutex
wakeup_lost i j ne =
    let r₁ = call_wait start i refl in
    let r₂ = call_notify r₁ j (ground arith) in
    let r₃ = moved_from {p = wait_load} i r₂ (ground arith) in
    let r₄ = moved_from {p = wait_lock} i r₃ (ground arith) in
    let r₅ = moved_from {p = wait_test} i r₄ (ground arith) in
    let r₆ = moved_from {p = notify_store} j r₅ (ground arith) in
    let r₇ = moved_from {p = notify_all} j r₆ (ground arith) in
    let r₈ = moved_from {p = wait_sleep} i r₇ (ground arith) in
    (
      _,
      r₈,
      refl,
      ground arith,
      ground arith,
      λ s' run. asleep_forever run i (ground arith) (λ k. ground arith),
    )
