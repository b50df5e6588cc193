-- ===== src/MpmcQueue/Fifo.antt =====
-- include/cql_mpmc_queue.hpp: what any number of threads sees of the queue.
use uv_client_server.Base.{
  ℕ, suc, ◌+◌, ◌^◌, ◌≤◌, ◌<◌, ◌≡◌, ◌≢◌, refl, sym, ap, ◌∙◌, subst, ◌⊎◌, inl, inr, List, [], true,
  Option, none, some, length, length-append, get_elem?, get_elem?-lt, arith, dec_lt,
}
use native.Mathlib.Nat.{pow-suc, one-le-pow}
use uv_client_server.MpmcQueue.{
  MpmcQueue, System, Reach, start, call, move, start_queue, Call, enqueue, dequeue, entry, update,
  Pc, deq_done, deq_release, claimed,
}
use uv_client_server.MpmcQueue.Index.{slot, slot-lt, slot_within, slot-add, slot_apart}
use uv_client_server.MpmcQueue.Inv.{IsSize, puts, takes, Local, Inv}
use uv_client_server.MpmcQueue.Inv.Steps.{quiet, step-Inv}

pub pow-IsSize : (k : ℕ) → IsSize (2 ^ suc k)
pow-IsSize k = record {
  two = omega (arith, pow-suc 2 k, one-le-pow k 2);
  lt = slot-lt (suc k);
  within = slot_within (suc k);
  apart = slot_apart (suc k);
  shared = slot-add (suc k);
}

module _ {A : Type 0} {size : ℕ} (sized : IsSize size) where
  start-Inv : Inv {A = A} size [] start_queue (λ i. Pc.idle)
  start-Inv = record {
    cells = record {
      counted = refl;
      ordered = omega arith;
      within = omega arith;
      bounded = λ j h. omega arith;
      full = λ u h k. absurd (omega arith);
      free = λ u h k. inl (sized.within u (omega arith));
    };
    local = λ i. tt;
    unique_puts = λ i j u e. cc;
    unique_takes = λ i j u e. cc;
  }

  entry-Inv :
      {items : List A} {q : MpmcQueue A} {pc : ℕ → Pc A}
      → Inv size items q pc
      → (i : ℕ) (c : Call A) → Inv size items q (update pc i (entry c))
  entry-Inv v i (enqueue x) = quiet sized v i (Pc.enq_load x) tt refl refl
  entry-Inv v i dequeue = quiet sized v i Pc.deq_load tt refl refl

  pub Reach-Inv :
      {items : List A} {s : System A}
      → length items + size < 2 ^ 63
      → Reach size items s
      → Inv size items s.queue s.pc
  Reach-Inv small start = start-Inv
  Reach-Inv small (call r i c rest) = entry-Inv (Reach-Inv small r) i c
  Reach-Inv small (move {items} {s} r i spurious) =
      let before : length items + size < 2 ^ 63 =
        omega (arith, length-append items (claimed size spurious s.queue (s.pc i))) in
      step-Inv sized (Reach-Inv before r) i before spurious (s.pc i) refl

-- The ticket of the cell whose content a thread may touch, or whose number it is about to store.
abbrev pub holds : {A : Type 0} → Pc A → Option ℕ
holds (Pc.enq_store x u) = some u
holds (Pc.enq_publish u) = some u
holds (Pc.deq_read u) = some u
holds (deq_release u x) = some u
holds _ = none

holds-cases :
    {A : Type 0} (p : Pc A) (u : ℕ) → holds p ≡ some u → (puts p ≡ some u) ⊎ (takes p ≡ some u)
holds-cases (Pc.enq_store x w) u e = inl e
holds-cases (Pc.enq_publish w) u e = inl e
holds-cases (Pc.deq_read w) u e = inr e
holds-cases (deq_release w x) u e = inr e
holds-cases p u e = cc

module _ {A : Type 0} (size : ℕ) (items : List A) (q : MpmcQueue A) where
  puts_range :
      (p : Pc A) (u : ℕ)
      → Local size items q p
      → puts p ≡ some u
      → (q.tail_seq ≤ u) × (u < q.head_seq)
  puts_range (Pc.enq_store x w) u l e = ground arith
  puts_range (Pc.enq_publish w) u l e = ground arith
  puts_range p u l e = cc

  takes_range :
      (p : Pc A) (u : ℕ)
      → Local size items q p
      → takes p ≡ some u
      → (u < q.tail_seq) × (q.head_seq ≤ u + size)
  takes_range (Pc.deq_read w) u l e = ground arith
  takes_range (deq_release w x) u l e = ground arith
  takes_range p u l e = cc

module _ {A : Type 0} {size : ℕ} {items : List A} {q : MpmcQueue A} where
  slots_apart :
      {pc : ℕ → Pc A}
      → IsSize size
      → Inv size items q pc
      → (i j u w : ℕ) → i ≢ j
      → holds (pc i) ≡ some u
      → holds (pc j) ≡ some w
      → slot size u ≢ slot size w
  slots_apart {pc} sized v i j u w other hu hw = elim (holds-cases (pc i) u hu) [
    | inl pu ↦ elim (holds-cases (pc j) w hw) [
      | inl pw ↦
          apart_of (λ same. other (v.unique_puts i j u pu (pw ∙ ap some (sym same))))
            (ground
              (arith, range_u pu, puts_range size items q (pc j) w (v.local j) pw, v.cells.within))
      | inr tw ↦
          apart_of
            (λ same. ground (arith, range_u pu, takes_range size items q (pc j) w (v.local j) tw))
            (ground (
              arith,
              range_u pu,
              takes_range size items q (pc j) w (v.local j) tw,
              v.cells.within,
              v.cells.ordered,
            ))
    ]
    | inr tu ↦ elim (holds-cases (pc j) w hw) [
      | inl pw ↦
          apart_of
            (λ same. ground (arith, taken_u tu, puts_range size items q (pc j) w (v.local j) pw))
            (ground (
              arith,
              taken_u tu,
              puts_range size items q (pc j) w (v.local j) pw,
              v.cells.within,
              v.cells.ordered,
            ))
      | inr tw ↦
          apart_of (λ same. other (v.unique_takes i j u tu (tw ∙ ap some (sym same))))
            (ground (
              arith,
              taken_u tu,
              takes_range size items q (pc j) w (v.local j) tw,
              v.cells.ordered,
            ))
    ]
  ]
    where
      apart_of : u ≢ w → (u < w + size) × (w < u + size) → slot size u ≢ slot size w
      apart_of ne (h, k) same = elim (dec_lt u w) [
        | yes lt ↦ sized.apart u w lt k same
        | no ge ↦ sized.apart w u (omega arith) h (sym same)
      ]

      range_u : puts (pc i) ≡ some u → (q.tail_seq ≤ u) × (u < q.head_seq)
      range_u = puts_range size items q (pc i) u (v.local i)

      taken_u : takes (pc i) ≡ some u → (u < q.tail_seq) × (q.head_seq ≤ u + size)
      taken_u = takes_range size items q (pc i) u (v.local i)

module _ (k : ℕ) {A : Type 0} {items : List A} {s : System A} where
  -- A queue of 2 or more cells, any number of threads in any interleaving, and fewer than 2^63
  -- sequence numbers used: what a `dequeue` has returned with true is an item that was put in, the
  -- one of its ticket, which lies below the tail.
  pub dequeue_item :
      Reach (2 ^ suc k) items s
      → length items + 2 ^ suc k < 2 ^ 63
      → (i : ℕ) (x : Option A) → s.pc i ≡ deq_done true x
      → (ticket : ℕ) × (item : A) × (ticket < s.queue.tail_seq)
        × (get_elem? items ticket ≡ some item)
        × (x ≡ some item)
  dequeue_item r small i x e =
      let v = Reach-Inv (pow-IsSize k) small r in
      let (ticket, below, found) = subst (Local (2 ^ suc k) items s.queue) e (v.local i) in
      let (item, there) =
        get_elem?-lt items ticket (omega (arith, v.cells.counted, v.cells.ordered)) in
      (ticket, item, below, there, sym found ∙ there)

  -- Under the same conditions, two threads that fill or empty cells are at different cells, so that
  -- no content is written while another thread writes or reads it.
  pub no_two_at_a_cell :
      Reach (2 ^ suc k) items s
      → length items + 2 ^ suc k < 2 ^ 63
      → (i j u w : ℕ) → i ≢ j
      → holds (s.pc i) ≡ some u
      → holds (s.pc j) ≡ some w
      → slot (2 ^ suc k) u ≢ slot (2 ^ suc k) w
  no_two_at_a_cell r small = slots_apart (pow-IsSize k) (Reach-Inv (pow-IsSize k) small r)

  -- Under the same conditions, the head counts the items that were put in, the tail does not pass
  -- it, and they are never more than the size apart.
  pub never_overfull :
      Reach (2 ^ suc k) items s
      → length items + 2 ^ suc k < 2 ^ 63
      → (length items ≡ s.queue.head_seq)
        × (s.queue.tail_seq ≤ s.queue.head_seq)
        × (s.queue.head_seq ≤ s.queue.tail_seq + 2 ^ suc k)
  never_overfull r small =
      let v = Reach-Inv (pow-IsSize k) small r in (v.cells.counted, v.cells.ordered, v.cells.within)
