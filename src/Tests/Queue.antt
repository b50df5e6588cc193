-- ===== src/Tests/Queue.antt =====
-- The queue on concrete calls and interleavings.
use uv_client_server.Base.{
  ℕ, zero, suc, ◌≡◌, ◌≢◌, refl, true, false, none, some, ◌∷◌, [], List, length, get_elem?, ◌<◌,
  arith, ◌+◌, ◌≤◌, ok, err, assertion,
}
use uv_client_server.MpmcQueue.{
  System, Reach, start, call, move, Call, enqueue, dequeue, enq_load, enq_done, deq_load, deq_done,
  at_rest, step, claimed, start_queue, new_queue, is_power,
}
use uv_client_server.MpmcQueue.Index.{slot}
use uv_client_server.MpmcQueue.Fifo.{dequeue_item, no_two_at_a_cell, never_overfull}
use uv_client_server.MpmcQueue.Solo.{run}
use uv_client_server.MpmcQueue.Solo.Progress.{six_steps}
use uv_client_server.MpmcQueue.Solo.Bounded.{one_thread-fifo, outcomes, fifo_outcomes, fifo}
use uv_client_server.MpmcQueue.Solo.OneCell.{one_cell, two_in}

abbrev Trace : Type 0
Trace = (items : List ℕ) × (s : System ℕ) × Reach 2 items s

abbrev moves : ℕ → ℕ → Trace → Trace
moves i zero t = t
moves i (suc n) (items, s, r) = moves i n (_, _, move r i false)

-- Thread 1 puts 7 in while thread 2 has claimed the cell of 8.
abbrev begun : Trace
begun = (_, _, call (call start 1 (enqueue 7) refl) 2 (enqueue 8) refl)

abbrev claimed_both : Trace
claimed_both = moves 2 3 (moves 1 3 begun)

abbrev one_in : Trace
one_in = moves 1 2 claimed_both

abbrev taking : Trace
taking = moves 3 4 (_, _, call one_in.2 3 dequeue refl)

abbrev taken : Trace
taken = moves 3 1 taking

test_taken : taken.1.pc 3 ≡ deq_done true (some 7)
unfolding step slot
test_taken = refl

test_items : taken.0 ≡ 7 ∷ 8 ∷ []
unfolding step claimed
test_items = refl

dequeue_item_example :
    (ticket : ℕ) × (item : ℕ) × (ticket < taken.1.queue.tail_seq)
    × (get_elem? taken.0 ticket ≡ some item)
    × (some 7 ≡ some item)
unfolding step slot claimed
dequeue_item_example = dequeue_item 0 taken.2 (omega arith) 3 (some 7) refl

-- One thread writes the second cell while the other empties the first.
no_two_at_a_cell_example : slot 2 1 ≢ slot 2 0
unfolding step claimed
no_two_at_a_cell_example =
    no_two_at_a_cell 0 taking.2 (omega arith) 2 3 1 0 (λ e. omega arith) refl refl

never_overfull_example :
    (length claimed_both.0 ≡ claimed_both.1.queue.head_seq)
    × (claimed_both.1.queue.tail_seq ≤ claimed_both.1.queue.head_seq)
    × (claimed_both.1.queue.head_seq ≤ claimed_both.1.queue.tail_seq + 2)
unfolding step claimed
never_overfull_example = never_overfull 0 claimed_both.2 (omega arith)

-- Thread 2 has claimed its cell and does not go on; thread 3 returns all the same.
six_steps_example : at_rest (run 2 6 one_in.1.queue (one_in.1.pc 3)).1 ≡ true
unfolding step claimed
six_steps_example = six_steps 0 one_in.2 (omega arith) 3

abbrev calls : List (Call ℕ)
calls = enqueue 5 ∷ enqueue 6 ∷ enqueue 7 ∷ dequeue ∷ enqueue 8 ∷ dequeue ∷ dequeue ∷ dequeue ∷ []

test_fifo_outcomes :
    fifo_outcomes 2 [] calls
    ≡ enq_done true
      ∷ enq_done true
      ∷ enq_done false
      ∷ deq_done true (some 5)
      ∷ enq_done true
      ∷ deq_done true (some 6)
      ∷ deq_done true (some 8)
      ∷ deq_done false none
      ∷ []
unfolding fifo_outcomes fifo
test_fifo_outcomes = refl

one_thread-fifo_example : outcomes 2 start_queue calls ≡ fifo_outcomes 2 [] calls
one_thread-fifo_example = one_thread-fifo 0 calls (omega arith)

one_cell_example :
    (new_queue {A = ℕ} 1 ≡ ok start_queue)
    × ((run {A = ℕ} 1 5 start_queue (enq_load 5)).1 ≡ enq_done true)
    × ((run {A = ℕ} 1 5 (run {A = ℕ} 1 5 start_queue (enq_load 5)).0 (enq_load 6)).1
        ≡ enq_done true)
    × ((n : ℕ) → at_rest {A = ℕ} (run 1 n (two_in 5 6) deq_load).1 ≡ false)
one_cell_example = one_cell 5 6

-- The queue of a session, and a size that is not a power of 2.
test_sizes : (new_queue {A = ℕ} 1024 ≡ ok start_queue) × (new_queue {A = ℕ} 6 ≡ err assertion)
unfolding new_queue is_power
test_sizes = (refl, refl)
