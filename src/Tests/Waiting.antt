-- ===== src/Tests/Waiting.antt =====
-- A thread that waits for a request and one that notifies, in one interleaving.
use uv_client_server.Base.{ℕ, ◌≡◌, refl, true, arith}
use uv_client_server.Request.Waiting.{
  asleep, returned, for_returned, for_asleep, no_value, notified, Shared, Run, step, take_mutex,
  Reach, start, call_wait, call_wait_for, expire, call_notify, move,
}
use uv_client_server.Request.Waiting.Safety.{holding, returned_ready}
use uv_client_server.Request.Waiting.Lost.{wakeup_lost}

abbrev Trace : Type 0
Trace = (s : Shared) × Reach s

abbrev moved : Trace → ℕ → Trace
moved (s, r) i = (step i (s.pc i) s, move r i)

-- Thread 1 finds the flag clear; thread 2 sets it and notifies; thread 1 goes to sleep.
abbrev slept : Trace
slept =
    moved
      (moved
        (moved (moved (moved (moved (_, call_notify (call_wait start 1 refl) 2 refl) 1) 1) 1) 2) 2)
      1

test_slept : (slept.0.pc 1 ≡ asleep) × (slept.0.pc 2 ≡ notified) × (slept.0.flag ≡ true)
unfolding step take_mutex
test_slept = (refl, refl, refl)

wakeup_lost_example :
    (s : Shared) × Reach s
    × (s.flag ≡ true)
    × (s.pc 1 ≡ asleep)
    × (s.pc 2 ≡ notified)
    × ((s' : Shared) → Run s s' → s'.pc 1 ≡ asleep)
wakeup_lost_example = wakeup_lost 1 2 (λ e. omega arith)

-- Thread 4 sleeps until its time is over; thread 1 tests the flag under the mutex after thread 2 has
-- set it; thread 3 finds it set at once; thread 4 finds it set when it looks a last time. Thread 5
-- calls `wait_for` when it is set.
abbrev called : Trace
called = (
  _,
  call_wait_for
      (call_wait (call_notify (call_wait (call_wait_for start 4 refl) 1 refl) 2 refl) 3 refl) 5
      refl,
)

abbrev sleeping : Trace
sleeping = moved (moved (moved (moved called 4) 4) 4) 4

test_sleeping : sleeping.0.pc 4 ≡ for_asleep
unfolding step take_mutex
test_sleeping = refl

abbrev over : Trace
over =
    let late : Trace = (_, expire sleeping.1 4 test_sleeping) in
    let waited : Trace = moved (moved (moved (moved (moved (moved late 1) 1) 2) 1) 3) 1 in
    moved (moved (moved (moved waited 4) 4) 4) 5

test_over :
    (over.0.pc 1 ≡ returned)
    × (over.0.pc 3 ≡ returned)
    × (over.0.pc 4 ≡ for_returned true)
    × (over.0.pc 5 ≡ no_value)
unfolding step take_mutex
test_over = (refl, refl, refl, refl)

returned_ready_example :
    ((i : ℕ) → over.0.pc i ≡ returned → over.0.flag ≡ true)
    × ((i : ℕ) → over.0.pc i ≡ for_returned true → over.0.flag ≡ true)
    × ((i : ℕ) → over.0.pc i ≡ no_value → over.0.flag ≡ true)
    × ((i j : ℕ) → holding (over.0.pc i) ≡ true → holding (over.0.pc j) ≡ true → i ≡ j)
returned_ready_example = returned_ready over.1
