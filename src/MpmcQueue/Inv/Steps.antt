-- ===== src/MpmcQueue/Inv/Steps.antt =====
-- include/cql_mpmc_queue.hpp: a step of one thread keeps what holds, while the sequences are below
-- 2^63.
use uv_client_server.Base.{
  ℕ, ◌+◌, ◌-◌, ◌%◌, ◌^◌, ◌≤◌, ◌<◌, ◌≡◌, ◌≢◌, refl, sym, ap, ◌∙◌, subst, inl, inr, List, [], ◌∷◌,
  ◌++◌, append-nil, Bool, true, false, Bool-cases, Option, none, some, length, arith, ℕ_discrete,
  ◌==◌,
}
use uv_client_server.MpmcQueue.{
  MpmcQueue, set_seq, set_content, update, next, difference, negative, exchanges, Pc, idle,
  enq_load, enq_seq, enq_cas, enq_store, enq_publish, enq_done, deq_load, deq_seq, deq_cas,
  deq_read, deq_release, deq_done, enq_test, deq_test, step, claimed,
}
use uv_client_server.MpmcQueue.Index.{slot}
use uv_client_server.MpmcQueue.Inv.{IsSize, puts, takes, seq_of, content_of, Local, Cells, Inv}
use uv_client_server.MpmcQueue.Inv.Moves.{
  publish-Cells, publish-Local, store-Cells, store-Local, release-Cells, release-Local, take-Cells,
  take-Local, taken_item, put-Cells, put-Local, new_item,
}

difference_zero : (a b : ℕ) → a < 2 ^ 63 → b < 2 ^ 63 → (difference a b == 0) ≡ true → a ≡ b
difference_zero a b h k e = ground arith

exchanges-eq : (spurious : Bool) (a b : ℕ) → exchanges spurious a b ≡ true → a ≡ b
exchanges-eq true a b e = cc
exchanges-eq false a b e = ground arith

module _ {A : Type 0} {size : ℕ} (sized : IsSize size) {items : List A} {q : MpmcQueue A}
    {pc : ℕ → Pc A} (v : Inv size items q pc) (i : ℕ) where
  unique_update :
      (f : Pc A → Option ℕ) (p' : Pc A)
      → ((a b u : ℕ) → f (pc a) ≡ some u → f (pc b) ≡ some u → a ≡ b)
      → ((j u : ℕ) → i ≢ j → f p' ≡ some u → f (pc j) ≢ some u)
      → (a b u : ℕ) → f (update pc i p' a) ≡ some u
      → f (update pc i p' b) ≡ some u
      → a ≡ b
  unique_update f p' old new a b u ea eb = ground (arith, old a b u, new a u, new b u)

  -- Thread `i` goes to `p'`, and the queue to `q'`.
  moved :
      (items' : List A) (q' : MpmcQueue A) (p' : Pc A)
      → Cells size items' q'
      → ((j : ℕ) → i ≢ j → Local size items' q' (pc j))
      → Local size items' q' p'
      → ((j u : ℕ) → i ≢ j → puts p' ≡ some u → puts (pc j) ≢ some u)
      → ((j u : ℕ) → i ≢ j → takes p' ≡ some u → takes (pc j) ≢ some u)
      → Inv size items' q' (update pc i p')
  moved items' q' p' cells others own new_put new_take = record {
    cells = cells;
    local = λ j. elim (ℕ_discrete i j) [
      | yes same ↦ subst (Local size items' q') (ground arith) own
      | no other ↦ subst (Local size items' q') (ground arith) (others j other)
    ];
    unique_puts = unique_update puts p' v.unique_puts new_put;
    unique_takes = unique_update takes p' v.unique_takes new_take;
  }

  -- A move that leaves the queue alone, to a place where no ticket is held.
  pub quiet :
      (p' : Pc A)
      → Local size items q p'
      → puts p' ≡ none
      → takes p' ≡ none
      → Inv size items q (update pc i p')
  quiet p' own no_put no_take =
      moved items q p' v.cells (λ j _. v.local j) own (λ j u _ e. cc) (λ j u _ e. cc)

  same_items :
      {q' : MpmcQueue A} {pc' : ℕ → Pc A} → Inv size items q' pc' → Inv size (items ++ []) q' pc'
  same_items {q'} {pc'} = subst (λ xs. Inv size xs q' pc') (sym (append-nil items))

  -- What thread `i` knows, at the place where it stands.
  here : {p : Pc A} → pc i ≡ p → Local size items q p
  here e = subst (Local size items q) e (v.local i)

  other_puts :
      {p : Pc A} (u : ℕ) → pc i ≡ p → puts p ≡ some u → (j : ℕ) → i ≢ j → puts (pc j) ≢ some u
  other_puts u e held j other taken = other (v.unique_puts i j u (ap puts e ∙ held) taken)

  other_takes :
      {p : Pc A} (u : ℕ) → pc i ≡ p → takes p ≡ some u → (j : ℕ) → i ≢ j → takes (pc j) ≢ some u
  other_takes u e held j other taken = other (v.unique_takes i j u (ap takes e ∙ held) taken)

  -- A ticket that a thread holds lies below the head, or below the tail.
  puts-lt : (u : ℕ) (p : Pc A) → Local size items q p → puts p ≡ some u → u < q.head_seq
  puts-lt u (enq_store x w) l e = ground arith
  puts-lt u (enq_publish w) l e = ground arith
  puts-lt u p l e = cc

  takes-lt : (u : ℕ) (p : Pc A) → Local size items q p → takes p ≡ some u → u < q.tail_seq
  takes-lt u (deq_read w) l e = ground arith
  takes-lt u (deq_release w x) l e = ground arith
  takes-lt u p l e = cc

  module _ (small : length items + size < 2 ^ 63) where
    seq_small : (u : ℕ) → seq_of size q u < 2 ^ 63
    seq_small u =
        omega (arith, v.cells.bounded (slot size u) (sized.lt u), v.cells.ordered, v.cells.counted)

    test_enq-Inv :
        (x : A) (h : ℕ)
        → h ≤ q.head_seq
        → Inv size items q (update pc i (enq_test size x h (difference (seq_of size q h) h)))
    test_enq-Inv x h below = elim (Bool-cases (difference (seq_of size q h) h == 0)) [
      | inl zero_dif ↦ rw zero_dif (
          quiet (enq_cas x h)
            (
              below,
              λ e.
                  difference_zero (seq_of size q h) h (seq_small h) (omega (arith, v.cells.counted))
                    zero_dif,
            )
            refl refl)
      | inr other ↦ elim (Bool-cases (negative (difference (seq_of size q h) h))) [
        | inl less ↦ rw (other, less) (quiet (enq_done false) tt refl refl)
        | inr more ↦ rw (other, more) (quiet (enq_load x) tt refl refl)
      ]
    ]

    next_small : (u : ℕ) → u ≤ q.head_seq → next u ≡ u + 1
    next_small u h = omega (arith, v.cells.counted)

    test_deq-Inv :
        (t : ℕ)
        → t ≤ q.tail_seq
        → Inv size items q (update pc i (deq_test size t (difference (seq_of size q t) (next t))))
    test_deq-Inv t below = elim (Bool-cases (difference (seq_of size q t) (next t) == 0)) [
      | inl zero_dif ↦ rw zero_dif (
          quiet (deq_cas t)
            (
              below,
              λ e.
                  difference_zero (seq_of size q t) (next t) (seq_small t)
                    (omega (arith, v.cells.counted, v.cells.ordered)) zero_dif
                  ∙ next_small t (omega (arith, v.cells.ordered)),
            )
            refl refl)
      | inr other ↦ elim (Bool-cases (negative (difference (seq_of size q t) (next t)))) [
        | inl less ↦ rw (other, less) (quiet (deq_done false none) tt refl refl)
        | inr more ↦ rw (other, more) (quiet deq_load tt refl refl)
      ]
    ]

    take-Inv :
        (t : ℕ)
        → pc i ≡ deq_cas t
        → q.tail_seq ≡ t
        → Inv size items (record q { tail_seq = next t }) (update pc i (deq_read t))
    take-Inv t e same =
        let at_t : seq_of size q q.tail_seq ≡ q.tail_seq + 1 =
          ap (seq_of size q) same ∙ (here e).1 (sym same) ∙ ap (λ n. n + 1) (sym same) in
        let after : Inv size items (record q { tail_seq = q.tail_seq + 1 })
            (update pc i (deq_read q.tail_seq)) =
          moved items (record q { tail_seq = q.tail_seq + 1 }) (deq_read q.tail_seq)
            (take-Cells sized v.cells at_t)
            (λ j _. take-Local sized v.cells at_t (pc j) (v.local j))
            (omega arith, omega (arith, v.cells.within), at_t, taken_item sized v.cells at_t)
            (λ j u _ h. cc) (λ j u _ h g. ground (arith, takes-lt u (pc j) (v.local j) g)) in
        let moves : q.tail_seq + 1 ≡ next t = omega (arith, v.cells.counted, v.cells.ordered) in
        subst (λ w. Inv size items (record q { tail_seq = next t }) (update pc i (deq_read w))) same
          (subst
            (λ n. Inv size items (record q { tail_seq = n }) (update pc i (deq_read q.tail_seq)))
            moves after)

    put-Inv :
        (x : A) (h : ℕ)
        → pc i ≡ enq_cas x h
        → q.head_seq ≡ h
        → Inv size (items ++ x ∷ []) (record q { head_seq = next h }) (update pc i (enq_store x h))
    put-Inv x h e same =
        let at_h : seq_of size q q.head_seq ≡ q.head_seq =
          ap (seq_of size q) same ∙ (here e).1 (sym same) ∙ sym same in
        let after : Inv size (items ++ x ∷ []) (record q { head_seq = q.head_seq + 1 })
            (update pc i (enq_store x q.head_seq)) =
          moved (items ++ x ∷ []) (record q { head_seq = q.head_seq + 1 }) (enq_store x q.head_seq)
            (put-Cells sized v.cells x at_h)
            (λ j _. put-Local sized v.cells x at_h (pc j) (v.local j))
            (v.cells.ordered, omega arith, at_h, new_item sized v.cells x at_h)
            (λ j u _ k g. ground (arith, puts-lt u (pc j) (v.local j) g)) (λ j u _ k. cc) in
        let moves : q.head_seq + 1 ≡ next h = omega (arith, v.cells.counted) in
        subst
          (λ w.
            Inv size (items ++ x ∷ []) (record q { head_seq = next h })
              (update pc i (enq_store x w)))
          same
          (subst
            (λ n.
              Inv size (items ++ x ∷ []) (record q { head_seq = n })
                (update pc i (enq_store x q.head_seq)))
            moves after)

    store-Inv :
        (x : A) (h : ℕ)
        → pc i ≡ enq_store x h
        → Inv size items (set_content q (slot size h) (some x)) (update pc i (enq_publish h))
    store-Inv x h e =
        let l : Local size items q (enq_store x h) = here e in
        moved items (set_content q (slot size h) (some x)) (enq_publish h)
          (store-Cells sized v.cells h x l.0 l.1 l.2)
          (λ j other.
            store-Local sized v.cells h x l.0 l.1 l.2 (pc j) (other_puts h e refl j other)
              (v.local j))
          (ground (arith, l.0, l.1, l.2, l.3))
          (λ j u other k. subst (λ w. puts (pc j) ≢ some w) (cc) (other_puts h e refl j other))
          (λ j u _ k. cc)

    publish-Inv :
        (h : ℕ)
        → pc i ≡ enq_publish h
        → Inv size items (set_seq q (slot size h) (next h)) (update pc i (enq_done true))
    publish-Inv h e =
        let l : Local size items q (enq_publish h) = here e in
        subst (λ n. Inv size items (set_seq q (slot size h) n) (update pc i (enq_done true)))
          (sym (next_small h (omega arith)))
          (moved items (set_seq q (slot size h) (h + 1)) (enq_done true)
            (publish-Cells sized v.cells h l.0 l.1 l.2 l.3)
            (λ j other.
              publish-Local sized v.cells h l.0 l.1 l.2 l.3 (pc j) (other_puts h e refl j other)
                (v.local j))
            tt (λ j u _ k. cc) (λ j u _ k. cc))

    read-Inv :
        (t : ℕ)
        → pc i ≡ deq_read t
        → Inv size items q (update pc i (deq_release t (content_of size q t)))
    read-Inv t e =
        let l : Local size items q (deq_read t) = here e in
        moved items q (deq_release t (content_of size q t)) v.cells (λ j _. v.local j) l
          (λ j u _ k. cc)
          (λ j u other k. subst (λ w. takes (pc j) ≢ some w) (cc) (other_takes t e refl j other))

    release-Inv :
        (t : ℕ) (x : Option A)
        → pc i ≡ deq_release t x
        → Inv size items
            (set_seq q (slot size t) ((t + (size - 1) + 1) % 2 ^ 64))
            (update pc i (deq_done true x))
    release-Inv t x e =
        let l : Local size items q (deq_release t x) = here e in
        let moves : t + size ≡ (t + (size - 1) + 1) % 2 ^ 64 =
          omega (arith, v.cells.counted, v.cells.ordered, sized.two) in
        subst (λ n. Inv size items (set_seq q (slot size t) n) (update pc i (deq_done true x)))
          moves
          (moved items (set_seq q (slot size t) (t + size)) (deq_done true x)
            (release-Cells sized v.cells t l.0 l.1 l.2)
            (λ j other.
              release-Local sized v.cells t l.0 l.1 l.2 (pc j) (other_takes t e refl j other)
                (v.local j))
            (t, l.0, l.3) (λ j u _ k. cc) (λ j u _ k. cc))

    -- A step of thread `i`, from wherever it stands.
    pub step-Inv :
        (spurious : Bool) (p : Pc A)
        → pc i ≡ p
        → Inv size
            (items ++ claimed size spurious q p)
            (step size spurious q p).0
            (update pc i (step size spurious q p).1)
    unfolding step claimed
    step-Inv spurious idle e = same_items (quiet idle tt refl refl)
    step-Inv spurious (enq_load x) e =
        same_items (quiet (enq_seq x q.head_seq) (omega arith) refl refl)
    step-Inv spurious (enq_seq x h) e = same_items (test_enq-Inv x h (here e))
    step-Inv spurious (enq_cas x h) e = elim (Bool-cases (exchanges spurious q.head_seq h)) [
      | inl won ↦ rw won (put-Inv x h e (exchanges-eq spurious q.head_seq h won))
      | inr lost ↦ rw lost (same_items (quiet (enq_seq x q.head_seq) (omega arith) refl refl))
    ]
    step-Inv spurious (enq_store x h) e = same_items (store-Inv x h e)
    step-Inv spurious (enq_publish h) e = same_items (publish-Inv h e)
    step-Inv spurious (enq_done b) e = same_items (quiet (enq_done b) tt refl refl)
    step-Inv spurious deq_load e = same_items (quiet (deq_seq q.tail_seq) (omega arith) refl refl)
    step-Inv spurious (deq_seq t) e = same_items (test_deq-Inv t (here e))
    step-Inv spurious (deq_cas t) e = elim (Bool-cases (exchanges spurious q.tail_seq t)) [
      | inl won ↦ rw won (same_items (take-Inv t e (exchanges-eq spurious q.tail_seq t won)))
      | inr lost ↦ rw lost (same_items (quiet (deq_seq q.tail_seq) (omega arith) refl refl))
    ]
    step-Inv spurious (deq_read t) e = same_items (read-Inv t e)
    step-Inv spurious (deq_release t x) e = same_items (release-Inv t x e)
    step-Inv spurious (deq_done b x) e = same_items (quiet (deq_done b x) (here e) refl refl)
