-- ===== src/Request/Waiting.antt =====
-- include/cql_request.hpp: threads in `wait`, `wait_for` and `notify`, one access to the flag, the
-- mutex or the condition variable at a time. A thread can be woken for no reason, and the time of a
-- thread in `wait_for` can be over whenever it sleeps.
pub mod Safety
pub mod Lost
use uv_client_server.Base.{ℕ, ◌≡◌, Bool, true, false, Option, none, some, if◌then◌else◌, ◌==◌}

-- In `wait`: before the load of the flag, before the mutex is taken, before `ready` is called under
-- the mutex, before the thread goes to sleep, asleep, woken, before the mutex is released, and
-- returned. In `wait_for` the same, with what it is to return; when the time is over, before the
-- mutex is taken again and before the last call of `ready`; and the end of its body without a
-- value. In `notify`: before the store to the flag, before `notify_all`, and behind it.
pub data Pc : Type 0 where
  idle : Pc
  wait_load wait_lock wait_test wait_sleep asleep wait_relock wait_unlock returned : Pc
  for_load for_lock for_test for_sleep for_asleep for_relock : Pc
  for_expired for_last no_value : Pc
  for_unlock for_returned : Bool → Pc
  notify_store notify_all notified : Pc

-- The mutex has the thread that holds it.
pub record Shared : Type 0 where
  pub flag : Bool
  pub mutex : Option ℕ
  pub pc : ℕ → Pc

abbrev pub at : (ℕ → Pc) → ℕ → Pc → ℕ → Pc
at pc i p j = if i == j then p else pc j

abbrev pub woken : Pc → Pc
woken asleep = wait_relock
woken for_asleep = for_relock
woken p = p

-- Thread `i`, which waits for the mutex and then goes on at `p`.
unfoldable pub take_mutex : ℕ → Pc → Shared → Shared
take_mutex i p s = elim s.mutex [
  | none ↦ record s { mutex = some i; pc = at s.pc i p }
  | some j ↦ s
]

-- What thread `i` does next, where it stands at the given place.
unfoldable pub step : ℕ → Pc → Shared → Shared
step i wait_load s = record s { pc = at s.pc i (if s.flag then returned else wait_lock) }
step i wait_lock s = take_mutex i wait_test s
step i wait_test s = record s { pc = at s.pc i (if s.flag then wait_unlock else wait_sleep) }
step i wait_sleep s = record s { mutex = none; pc = at s.pc i asleep }
step i wait_relock s = take_mutex i wait_test s
step i wait_unlock s = record s { mutex = none; pc = at s.pc i returned }
step i for_load s = record s { pc = at s.pc i (if s.flag then no_value else for_lock) }
step i for_lock s = take_mutex i for_test s
step i for_test s = record s { pc = at s.pc i (if s.flag then for_unlock true else for_sleep) }
step i for_sleep s = record s { mutex = none; pc = at s.pc i for_asleep }
step i for_relock s = take_mutex i for_test s
step i for_expired s = take_mutex i for_last s
step i for_last s = record s { pc = at s.pc i (for_unlock s.flag) }
step i (for_unlock b) s = record s { mutex = none; pc = at s.pc i (for_returned b) }
step i notify_store s = record s { flag = true; pc = at s.pc i notify_all }
step i notify_all s = record s { pc = at (λ j. woken (s.pc j)) i notified }
step i p s = s

abbrev pub start_request : Shared
start_request = record { flag = false; mutex = none; pc = λ i. idle }

-- A new request, and any threads that call `wait`, `wait_for` or `notify` once each.
pub data Reach : Shared → Type 0 where
  start : Reach start_request
  call_wait :
      {s : Shared}
      → Reach s
      → (i : ℕ) → s.pc i ≡ idle
      → Reach (record s { pc = at s.pc i wait_load })
  call_wait_for :
      {s : Shared}
      → Reach s
      → (i : ℕ) → s.pc i ≡ idle
      → Reach (record s { pc = at s.pc i for_load })
  call_notify :
      {s : Shared}
      → Reach s
      → (i : ℕ) → s.pc i ≡ idle
      → Reach (record s { pc = at s.pc i notify_store })
  move : {s : Shared} → Reach s → (i : ℕ) → Reach (step i (s.pc i) s)
  expire :
      {s : Shared}
      → Reach s
      → (i : ℕ) → s.pc i ≡ for_asleep
      → Reach (record s { pc = at s.pc i for_expired })
  spurious : {s : Shared} → Reach s → (i : ℕ) → Reach (record s { pc = at s.pc i (woken (s.pc i)) })

-- The threads that are there go on, also when their time is over, and none is woken for no reason.
pub data Run : Shared → Shared → Type 0 where
  stop : {s : Shared} → Run s s
  go : {s s' : Shared} (i : ℕ) → Run (step i (s.pc i) s) s' → Run s s'
  go_expired :
      {s s' : Shared} (i : ℕ)
      → s.pc i ≡ for_asleep
      → Run (record s { pc = at s.pc i for_expired }) s'
      → Run s s'
