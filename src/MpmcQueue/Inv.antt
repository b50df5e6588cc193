-- ===== src/MpmcQueue/Inv.antt =====
-- include/cql_mpmc_queue.hpp: what holds of the queue and its threads between any two accesses.
pub mod Moves
pub mod Steps
use uv_client_server.Base.{
  ℕ, zero, suc, ◌+◌, ◌-◌, ◌^◌, ◌≤◌, ◌<◌, ◌≡◌, ◌≢◌, sym, ◌⊎◌, inl, inr, List, [], ◌∷◌, ◌++◌, Bool,
  true, false, Option, none, some, length, get_elem?, arith, dec_lt,
}
use uv_client_server.MpmcQueue.{
  MpmcQueue, Pc, idle, enq_load, enq_seq, enq_cas, enq_store, enq_publish, enq_done, deq_load,
  deq_seq, deq_cas, deq_read, deq_release, deq_done,
}
use uv_client_server.MpmcQueue.Index.{slot}

-- What the proofs use of the mask.
pub record IsSize (size : ℕ) : Type 0 where
  pub two : 2 ≤ size
  pub lt : (u : ℕ) → slot size u < size
  pub within : (u : ℕ) → u < size → slot size u ≡ u
  pub apart : (u v : ℕ) → u < v → v < u + size → slot size u ≢ slot size v
  pub shared : (u : ℕ) → slot size (u + size) ≡ slot size u

pub near :
    {size : ℕ}
    → IsSize size
    → (u v : ℕ) → u ≢ v
    → u < v + size
    → v < u + size
    → slot size u ≢ slot size v
near sized u v ne h k same = elim (dec_lt u v) [
  | yes lt ↦ sized.apart u v lt k same
  | no ge ↦ sized.apart v u (omega arith) h (sym same)
]

-- The ticket that a thread holds while it fills or empties the cell of that ticket.
abbrev pub puts : {A : Type 0} → Pc A → Option ℕ
puts (enq_store x u) = some u
puts (enq_publish u) = some u
puts _ = none

abbrev pub takes : {A : Type 0} → Pc A → Option ℕ
takes (deq_read u) = some u
takes (deq_release u x) = some u
takes _ = none

module _ {A : Type 0} (size : ℕ) where
  abbrev pub seq_of : MpmcQueue A → ℕ → ℕ
  seq_of q u = (q.buffer (slot size u)).seq

  abbrev pub content_of : MpmcQueue A → ℕ → Option A
  content_of q u = (q.buffer (slot size u)).content

  -- What the locals of a thread say about the queue.
  abbrev pub Local : List A → MpmcQueue A → Pc A → Type 0
  Local items q (enq_seq x h) = h ≤ q.head_seq
  Local items q (enq_cas x h) = (h ≤ q.head_seq) × (h ≡ q.head_seq → seq_of q h ≡ h)
  Local items q (enq_store x u) =
      (q.tail_seq ≤ u) × (u < q.head_seq) × (seq_of q u ≡ u) × (get_elem? items u ≡ some x)
  Local items q (enq_publish u) =
      (q.tail_seq ≤ u) × (u < q.head_seq) × (seq_of q u ≡ u) × (get_elem? items u ≡ content_of q u)
  Local items q (deq_seq t) = t ≤ q.tail_seq
  Local items q (deq_cas t) = (t ≤ q.tail_seq) × (t ≡ q.tail_seq → seq_of q t ≡ t + 1)
  Local items q (deq_read u) =
      (u < q.tail_seq)
      × (q.head_seq ≤ u + size)
      × (seq_of q u ≡ u + 1)
      × (get_elem? items u ≡ content_of q u)
  Local items q (deq_release u x) =
      (u < q.tail_seq) × (q.head_seq ≤ u + size) × (seq_of q u ≡ u + 1) × (get_elem? items u ≡ x)
  Local items q (deq_done true x) = (u : ℕ) × (u < q.tail_seq) × (get_elem? items u ≡ x)
  Local items q _ = Unit

  -- The cells of the tickets from the tail to the head are filled or being filled; those of the
  -- tickets behind, up to a round later, are empty or being emptied.
  pub record Cells (items : List A) (q : MpmcQueue A) : Type 0 where
    pub counted : length items ≡ q.head_seq
    pub ordered : q.tail_seq ≤ q.head_seq
    pub within : q.head_seq ≤ q.tail_seq + size
    pub bounded : (j : ℕ) → j < size → (q.buffer j).seq ≤ q.tail_seq + size
    pub full :
        (u : ℕ)
        → q.tail_seq ≤ u
        → u < q.head_seq
        → (seq_of q u ≡ u) ⊎ ((seq_of q u ≡ u + 1) × (get_elem? items u ≡ content_of q u))
    pub free :
        (u : ℕ)
        → q.head_seq ≤ u
        → u < q.tail_seq + size
        → (seq_of q u ≡ u) ⊎ (seq_of q u + size ≡ u + 1)

  pub record Inv (items : List A) (q : MpmcQueue A) (pc : ℕ → Pc A) : Type 0 where
    pub cells : Cells items q
    pub local : (i : ℕ) → Local items q (pc i)
    pub unique_puts : (i j u : ℕ) → puts (pc i) ≡ some u → puts (pc j) ≡ some u → i ≡ j
    pub unique_takes : (i j u : ℕ) → takes (pc i) ≡ some u → takes (pc j) ≡ some u → i ≡ j
