-- ===== src/MpmcQueue/Solo/OneCell.antt =====
-- include/cql_mpmc_queue.hpp: a queue of one cell, which the constructor lets through.
use uv_client_server.Base.{ℕ, zero, suc, ◌≡◌, refl, true, false, ok}
use uv_client_server.MpmcQueue.{
  MpmcQueue, enq_load, enq_done, deq_load, new_queue, start_queue, is_power, at_rest, step,
}
use uv_client_server.MpmcQueue.Solo.{run}

-- The queue after two calls of `enqueue`, each run to its end.
unfoldable pub two_in : {A : Type 0} → A → A → MpmcQueue A
two_in x y = (run 1 5 (run 1 5 start_queue (enq_load x)).0 (enq_load y)).0

module _ {A : Type 0} (x y : A) where
  spins : (n : ℕ) → at_rest (run 1 n (two_in x y) deq_load).1 ≡ false
  unfolding run two_in step
  spins zero = refl
  spins (suc zero) = refl
  spins (suc (suc n)) = spins n

  -- A queue of one cell is built, two calls of `enqueue` on it return true, and a call of `dequeue`
  -- after them does not return after any number of steps.
  pub one_cell :
      (new_queue {A = A} 1 ≡ ok start_queue)
      × ((run 1 5 start_queue (enq_load x)).1 ≡ enq_done true)
      × ((run 1 5 (run 1 5 start_queue (enq_load x)).0 (enq_load y)).1 ≡ enq_done true)
      × ((n : ℕ) → at_rest (run 1 n (two_in x y) deq_load).1 ≡ false)
  unfolding new_queue is_power run step
  one_cell = (refl, refl, refl, spins)
