-- ===== src/MpmcQueue.antt =====
-- include/cql_mpmc_queue.hpp: the queue, and a thread in `enqueue` or `dequeue`, one shared access at
-- a time. The accesses of all threads are taken to be in one order (sequential consistency).
pub mod Index
pub mod Inv
pub mod Fifo
pub mod Solo
use uv_client_server.Base.{
  ℕ, zero, suc, ◌+◌, ◌-◌, ◌%◌, ◌^◌, List, [], ◌∷◌, ◌++◌, Bool, true, false, not, ◌&&◌, Option, none,
  some, Result, ok, err, assertion, bit_and, if◌then◌else◌, ltb, leb, ◌==◌, ◌≡◌,
}
use Index.{slot}

-- f with f[i] = a
abbrev pub update {ℓ} : {A : Type ℓ} → (ℕ → A) → ℕ → A → ℕ → A
update f i a j = if i == j then a else f j

-- `none` is content that was never written.
pub record Node (A : Type 0) : Type 0 where
  pub content : Option A
  pub seq : ℕ

-- The const fields `size_` and `mask_`, which is `size - 1`, are arguments of what uses them.
pub record MpmcQueue (A : Type 0) : Type 0 where
  pub buffer : ℕ → Node A
  pub head_seq : ℕ
  pub tail_seq : ℕ

-- (size_ != 0) && ((size_ & (~size_ + 1)) == size_)
unfoldable pub is_power : ℕ → Bool
is_power size = not (size == 0) && (bit_and size ((2 ^ 64 - size) % 2 ^ 64) == size)

-- seq + 1, a size_t
abbrev pub next : ℕ → ℕ
next seq = (seq + 1) % 2 ^ 64

-- (intptr_t) a - (intptr_t) b, as a bit pattern, and whether that is negative
abbrev pub difference : ℕ → ℕ → ℕ
difference a b = (a + 2 ^ 64 - b) % 2 ^ 64

abbrev pub negative : ℕ → Bool
negative dif = leb (2 ^ 63) dif

-- compare_exchange_weak, which may fail for no reason
abbrev pub exchanges : (spurious : Bool) → (current expected : ℕ) → Bool
exchanges spurious current expected = not spurious && (current == expected)

module _ {A : Type 0} where
  unfoldable pub new_queue : ℕ → Result (MpmcQueue A)
  unfolding is_power
  new_queue size =
      if is_power size
      then ok
          (record { buffer = λ i. record { content = none; seq = i }; head_seq = 0; tail_seq = 0 })
      else err assertion

  abbrev pub set_content : MpmcQueue A → ℕ → Option A → MpmcQueue A
  set_content q i x = record q { buffer = update q.buffer i (record (q.buffer i) { content = x }) }

  abbrev pub set_seq : MpmcQueue A → ℕ → ℕ → MpmcQueue A
  set_seq q i seq = record q { buffer = update q.buffer i (record (q.buffer i) { seq = seq }) }

-- Where a thread stands, with the local variables that are live there: before a load of the head or
-- the tail, before the load of `node->seq`, before the exchange, before the access to `node->data`,
-- before the store to `node->seq`, and returned.
pub data Pc (A : Type 0) : Type 0 where
  idle : Pc A
  enq_load : (x : A) → Pc A
  enq_seq : (x : A) (head_seq : ℕ) → Pc A
  enq_cas : (x : A) (head_seq : ℕ) → Pc A
  enq_store : (x : A) (head_seq : ℕ) → Pc A
  enq_publish : (head_seq : ℕ) → Pc A
  enq_done : Bool → Pc A
  deq_load : Pc A
  deq_seq : (tail_seq : ℕ) → Pc A
  deq_cas : (tail_seq : ℕ) → Pc A
  deq_read : (tail_seq : ℕ) → Pc A
  deq_release : (tail_seq : ℕ) (x : Option A) → Pc A
  deq_done : Bool → Option A → Pc A

module _ {A : Type 0} (size : ℕ) where
  -- The branches of the loops on `dif`.
  abbrev pub enq_test : A → ℕ → ℕ → Pc A
  enq_test x head_seq dif =
      if dif == 0 then enq_cas x head_seq else if negative dif then enq_done false else enq_load x

  abbrev pub deq_test : ℕ → ℕ → Pc A
  deq_test tail_seq dif =
      if dif == 0 then deq_cas tail_seq else if negative dif then deq_done false none else deq_load

  -- One access of a thread. An exchange that fails leaves what it saw in `head_seq` or `tail_seq`.
  unfoldable pub step : (spurious : Bool) → MpmcQueue A → Pc A → MpmcQueue A × Pc A
  unfolding slot
  step spurious q idle = (q, idle)
  step spurious q (enq_load x) = (q, enq_seq x q.head_seq)
  step spurious q (enq_seq x h) = (q, enq_test x h (difference (q.buffer (slot size h)).seq h))
  step spurious q (enq_cas x h) =
      if exchanges spurious q.head_seq h
      then (record q { head_seq = next h }, enq_store x h)
      else (q, enq_seq x q.head_seq)
  step spurious q (enq_store x h) = (set_content q (slot size h) (some x), enq_publish h)
  step spurious q (enq_publish h) = (set_seq q (slot size h) (next h), enq_done true)
  step spurious q (enq_done b) = (q, enq_done b)
  step spurious q deq_load = (q, deq_seq q.tail_seq)
  step spurious q (deq_seq t) = (q, deq_test t (difference (q.buffer (slot size t)).seq (next t)))
  step spurious q (deq_cas t) =
      if exchanges spurious q.tail_seq t
      then (record q { tail_seq = next t }, deq_read t)
      else (q, deq_seq q.tail_seq)
  step spurious q (deq_read t) = (q, deq_release t (q.buffer (slot size t)).content)
  step spurious q (deq_release t x) =
      (set_seq q (slot size t) ((t + (size - 1) + 1) % 2 ^ 64), deq_done true x)
  step spurious q (deq_done b x) = (q, deq_done b x)

  -- The item that a step puts into the queue: that of the exchange on the head that succeeds.
  unfoldable pub claimed : (spurious : Bool) → MpmcQueue A → Pc A → List A
  claimed spurious q (enq_cas x h) = if exchanges spurious q.head_seq h then x ∷ [] else []
  claimed spurious q _ = []

-- A call of one of the two methods.
pub data Call (A : Type 0) : Type 0 where
  enqueue : A → Call A
  dequeue : Call A

abbrev pub entry : {A : Type 0} → Call A → Pc A
entry (enqueue x) = enq_load x
entry dequeue = deq_load

abbrev pub at_rest : {A : Type 0} → Pc A → Bool
at_rest idle = true
at_rest (enq_done b) = true
at_rest (deq_done b x) = true
at_rest _ = false

pub record System (A : Type 0) : Type 0 where
  pub queue : MpmcQueue A
  pub pc : ℕ → Pc A

abbrev pub start_queue : {A : Type 0} → MpmcQueue A
start_queue = record {
  buffer = λ i. record { content = none; seq = i };
  head_seq = 0;
  tail_seq = 0;
}

-- Any number of threads, in any interleaving, from a new queue. The list has the items in the order
-- in which they were put in.
pub data Reach {A : Type 0} (size : ℕ) : List A → System A → Type 0 where
  start : Reach size [] (record { queue = start_queue; pc = λ i. idle })
  call :
      {items : List A} {s : System A}
      → Reach size items s
      → (i : ℕ) (c : Call A) → at_rest (s.pc i) ≡ true
      → Reach size items (record s { pc = update s.pc i (entry c) })
  move :
      {items : List A} {s : System A}
      → Reach size items s
      → (i : ℕ) (spurious : Bool)
      → Reach size (items ++ claimed size spurious s.queue (s.pc i)) (record {
        queue = (step size spurious s.queue (s.pc i)).0;
        pc = update s.pc i (step size spurious s.queue (s.pc i)).1;
      })
