-- ===== src/Request/Waiting/Safety.antt =====
-- include/cql_request.hpp: `wait` returns only when the result is there, and so does `wait_for` with true.
use uv_client_server.Base.{
  ℕ, ◌≡◌, ◌≢◌, refl, sym, ap, ◌∙◌, Bool, true, false, Option, none, some, arith,
}
use uv_client_server.Request.Waiting.{
  Pc, wait_load, wait_lock, wait_test, wait_sleep, asleep, wait_relock, wait_unlock, returned,
  for_load, for_lock, for_test, for_sleep, for_asleep, for_relock, for_expired, for_last, no_value,
  for_unlock, for_returned, notify_store, notify_all, notified, Shared, at, woken, take_mutex, step,
  Reach, start, call_wait, call_wait_for, expire, call_notify, move, spurious,
}

-- Behind the test for the flag; and with the mutex.
abbrev pub passed : Pc → Bool
passed wait_unlock = true
passed returned = true
passed (for_unlock true) = true
passed (for_returned true) = true
passed no_value = true
passed _ = false

abbrev pub holding : Pc → Bool
holding wait_test = true
holding wait_sleep = true
holding wait_unlock = true
holding for_test = true
holding for_sleep = true
holding for_last = true
holding (for_unlock b) = true
holding _ = false

record Inv (s : Shared) : Type 0 where
  set : (i : ℕ) → passed (s.pc i) ≡ true → s.flag ≡ true
  held : (i : ℕ) → holding (s.pc i) ≡ true → s.mutex ≡ some i

-- One thread moves, and no other is touched.
moved :
    {s : Shared}
    → Inv s
    → (i : ℕ) (p : Pc) (flag : Bool) (mutex : Option ℕ) → (s.flag ≡ true → flag ≡ true)
    → (passed p ≡ true → flag ≡ true)
    → (holding p ≡ true → mutex ≡ some i)
    → ((j : ℕ) → i ≢ j → s.mutex ≡ some j → mutex ≡ some j)
    → Inv (record { flag = flag; mutex = mutex; pc = at s.pc i p })
moved {s} v i p flag mutex kept there mine others = record {
  set = λ j h. ground (arith, v.set j);
  held = λ j h. ground (arith, v.held j, others j);
}

passed-woken : (p : Pc) → passed (woken p) ≡ true → passed p ≡ true
passed-woken asleep h = cc
passed-woken for_asleep h = cc
passed-woken p h = h

holding-woken : (p : Pc) → holding (woken p) ≡ true → holding p ≡ true
holding-woken asleep h = cc
holding-woken for_asleep h = cc
holding-woken p h = h

woken-Inv : {s : Shared} → Inv s → Inv (record s { pc = λ j. woken (s.pc j) })
woken-Inv {s} v = record {
  set = λ j h. v.set j (passed-woken (s.pc j) h);
  held = λ j h. v.held j (holding-woken (s.pc j) h);
}

take_mutex-Inv :
    {s : Shared} (i : ℕ) (p : Pc)
    → holding (s.pc i) ≡ false
    → passed p ≡ false
    → Inv s
    → Inv (take_mutex i p s)
unfolding take_mutex
take_mutex-Inv {s} i p h before v = go s.mutex refl
  where
    go :
        (m : Option ℕ)
        → s.mutex ≡ m
        → Inv (elim m [ none ↦ record s { mutex = some i; pc = at s.pc i p } | some j ↦ s ])
    go none e = moved v i p s.flag (some i) (λ k. k) (λ k. cc) (λ k. refl) (λ j ne k. cc)
    go (some j) e = v

module _ {s : Shared} (v : Inv s) (i : ℕ) where
  alone : holding (s.pc i) ≡ true → (m : Option ℕ) (j : ℕ) → i ≢ j → s.mutex ≡ some j → m ≡ some j
  alone h m j ne k = absurd (ne (some_injective (sym (v.held i h) ∙ k)))
    where
      some_injective : {a b : ℕ} → some a ≡ some b → a ≡ b
      some_injective e = cc

unlocked : (m : Option ℕ) (i j : ℕ) → i ≢ j → m ≡ some j → m ≡ some j
unlocked m i j ne k = k

passed_value : (b : Bool) → passed (for_returned b) ≡ true → passed (for_unlock b) ≡ true
passed_value true h = h
passed_value false h = h

step-Inv : {s : Shared} (i : ℕ) (p : Pc) → s.pc i ≡ p → Inv s → Inv (step i p s)
unfolding step
step-Inv {s} i wait_load e v =
    moved v i _ s.flag s.mutex (λ k. k) (λ k. ground arith) (λ k. ground arith) (unlocked s.mutex i)
step-Inv i wait_lock e v = take_mutex-Inv i wait_test (ap holding e) refl v
step-Inv {s} i wait_test e v =
    moved v i _ s.flag s.mutex (λ k. k) (λ k. ground arith) (λ k. v.held i (ap holding e))
      (unlocked s.mutex i)
step-Inv {s} i wait_sleep e v =
    moved v i asleep s.flag none (λ k. k) (λ k. cc) (λ k. cc) (alone v i (ap holding e) none)
step-Inv i wait_relock e v = take_mutex-Inv i wait_test (ap holding e) refl v
step-Inv {s} i wait_unlock e v =
    moved v i returned s.flag none (λ k. k) (λ k. v.set i (ap passed e)) (λ k. cc)
      (alone v i (ap holding e) none)
step-Inv {s} i for_load e v =
    moved v i _ s.flag s.mutex (λ k. k) (λ k. ground arith) (λ k. ground arith) (unlocked s.mutex i)
step-Inv i for_lock e v = take_mutex-Inv i for_test (ap holding e) refl v
step-Inv {s} i for_test e v =
    moved v i _ s.flag s.mutex (λ k. k) (λ k. ground arith) (λ k. v.held i (ap holding e))
      (unlocked s.mutex i)
step-Inv {s} i for_sleep e v =
    moved v i for_asleep s.flag none (λ k. k) (λ k. cc) (λ k. cc) (alone v i (ap holding e) none)
step-Inv i for_relock e v = take_mutex-Inv i for_test (ap holding e) refl v
step-Inv i for_expired e v = take_mutex-Inv i for_last (ap holding e) refl v
step-Inv {s} i for_last e v =
    moved v i (for_unlock s.flag) s.flag s.mutex (λ k. k) (λ k. ground arith)
      (λ k. v.held i (ap holding e)) (unlocked s.mutex i)
step-Inv {s} i (for_unlock b) e v =
    moved v i (for_returned b) s.flag none (λ k. k) (λ k. v.set i (ap passed e ∙ passed_value b k))
      (λ k. cc) (alone v i (ap holding e) none)
step-Inv {s} i notify_store e v =
    moved v i notify_all true s.mutex (λ k. refl) (λ k. refl) (λ k. cc) (unlocked s.mutex i)
step-Inv {s} i notify_all e v =
    moved (woken-Inv v) i notified s.flag s.mutex (λ k. k) (λ k. cc) (λ k. cc) (unlocked s.mutex i)
step-Inv i p e v = v

enter-Inv :
    {s : Shared} (i : ℕ) (p : Pc)
    → passed p ≡ false
    → holding p ≡ false
    → Inv s
    → Inv (record s { pc = at s.pc i p })
enter-Inv {s} i p h k v =
    moved v i p s.flag s.mutex (λ l. l) (λ l. cc) (λ l. cc) (unlocked s.mutex i)

Reach-Inv : {s : Shared} → Reach s → Inv s
Reach-Inv start = record { set = λ i h. cc; held = λ i h. cc }
Reach-Inv (call_wait r i e) = enter-Inv i wait_load refl refl (Reach-Inv r)
Reach-Inv (call_wait_for r i e) = enter-Inv i for_load refl refl (Reach-Inv r)
Reach-Inv (expire r i e) = enter-Inv i for_expired refl refl (Reach-Inv r)
Reach-Inv (call_notify r i e) = enter-Inv i notify_store refl refl (Reach-Inv r)
Reach-Inv (move {s} r i) = step-Inv i (s.pc i) refl (Reach-Inv r)
Reach-Inv (spurious {s} r i) =
    let v = Reach-Inv r in
    moved v i (woken (s.pc i)) s.flag s.mutex (λ k. k) (λ k. v.set i (passed-woken (s.pc i) k))
      (λ k. v.held i (holding-woken (s.pc i) k)) (unlocked s.mutex i)

-- Threads in `wait`, `wait_for` and `notify` on a new request, in any interleaving, with any of them
-- woken for no reason and the time of any that sleeps in `wait_for` over: a call of `wait` that has
-- returned finds the flag set, and so does a call of `wait_for` that has returned true and one that
-- has come to the end of its body without a value; and two threads that are between taking the mutex
-- and letting it go are the same.
pub returned_ready :
    {s : Shared}
    → Reach s
    → ((i : ℕ) → s.pc i ≡ returned → s.flag ≡ true)
      × ((i : ℕ) → s.pc i ≡ for_returned true → s.flag ≡ true)
      × ((i : ℕ) → s.pc i ≡ no_value → s.flag ≡ true)
      × ((i j : ℕ) → holding (s.pc i) ≡ true → holding (s.pc j) ≡ true → i ≡ j)
returned_ready r =
    let v = Reach-Inv r in
    (
      λ i e. v.set i (ap passed e),
      λ i e. v.set i (ap passed e),
      λ i e. v.set i (ap passed e),
      λ i j h k. same (sym (v.held i h) ∙ v.held j k),
    )
  where
    same : {a b : ℕ} → some a ≡ some b → a ≡ b
    same e = cc
