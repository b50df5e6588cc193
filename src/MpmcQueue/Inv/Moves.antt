-- ===== src/MpmcQueue/Inv/Moves.antt =====
-- include/cql_mpmc_queue.hpp: each kind of access keeps what holds of the cells, and what the locals
-- of the other threads say.
use uv_client_server.Base.{
  ℕ, ◌+◌, ◌≤◌, ◌<◌, ◌≡◌, ◌≢◌, sym, ap, ◌∙◌, inl, List, [], ◌∷◌, ◌++◌, true, some, get_elem?,
  length-append, get_elem?-append_front, get_elem?-append_last, arith, dec_lt,
}
use uv_client_server.MpmcQueue.{
  MpmcQueue, set_seq, set_content, Pc, enq_seq, enq_cas, enq_store, enq_publish, deq_seq, deq_cas,
  deq_read, deq_release, deq_done,
}
use uv_client_server.MpmcQueue.Index.{slot}
use uv_client_server.MpmcQueue.Inv.{IsSize, near, puts, takes, seq_of, content_of, Local, Cells}

module _ {A : Type 0} {size : ℕ} (sized : IsSize size) {items : List A} {q : MpmcQueue A}
    (c : Cells size items q) where
  -- Publishing: the cell of a ticket that was put, from `u` to `u + 1`.
  module _ (u : ℕ) (lo : q.tail_seq ≤ u) (hi : u < q.head_seq) (at_u : seq_of size q u ≡ u)
      (stored : get_elem? items u ≡ content_of size q u) where
    abbrev published : MpmcQueue A
    published = set_seq q (slot size u) (u + 1)

    pub publish-Cells : Cells size items published
    publish-Cells = record {
      counted = c.counted;
      ordered = c.ordered;
      within = c.within;
      bounded = λ j h. ground (arith, c.bounded j h, c.within);
      full = λ v h k. ground (arith, c.full v h k, near sized u v);
      free = λ v h k. ground (arith, c.free v h k, near sized u v, c.within, c.ordered);
    }

    pub publish-Local :
        (p : Pc A) → puts p ≢ some u → Local size items q p → Local size items published p
    publish-Local (enq_cas x h) ne l = ground (arith, near sized u h, c.within, l.1)
    publish-Local (enq_store x v) ne l = ground (arith, near sized u v, c.within)
    publish-Local (enq_publish v) ne l = ground (arith, near sized u v, c.within)
    publish-Local (deq_cas t) ne l = ground (arith, near sized u t, l.1)
    publish-Local (deq_read v) ne l = ground (arith, near sized u v, c.ordered)
    publish-Local (deq_release v x) ne l = ground (arith, near sized u v, c.ordered)
    publish-Local p ne l = l

  -- Storing: the content of a cell that is being filled.
  module _ (u : ℕ) (x : A) (lo : q.tail_seq ≤ u) (hi : u < q.head_seq)
      (at_u : seq_of size q u ≡ u) where
    abbrev stored : MpmcQueue A
    stored = set_content q (slot size u) (some x)

    pub store-Cells : Cells size items stored
    store-Cells = record {
      counted = c.counted;
      ordered = c.ordered;
      within = c.within;
      bounded = λ j h. ground (arith, c.bounded j h);
      full = λ v h k. ground (arith, c.full v h k, near sized u v, c.within);
      free = λ v h k. ground (arith, c.free v h k);
    }

    pub store-Local :
        (p : Pc A) → puts p ≢ some u → Local size items q p → Local size items stored p
    store-Local (enq_cas y h) ne l = ground (arith, l.1)
    store-Local (enq_store y v) ne l = ground (arith)
    store-Local (enq_publish v) ne l = ground (arith, near sized u v, c.within)
    store-Local (deq_cas t) ne l = ground (arith, l.1)
    store-Local (deq_read v) ne l = ground (arith, near sized u v, c.ordered)
    store-Local (deq_release v y) ne l = ground arith
    store-Local p ne l = l

  -- Releasing: the cell of a ticket that was taken, from `u + 1` to `u + size`.
  module _ (u : ℕ) (lo : u < q.tail_seq) (hi : q.head_seq ≤ u + size)
      (at_u : seq_of size q u ≡ u + 1) where
    abbrev released : MpmcQueue A
    released = set_seq q (slot size u) (u + size)

    pub release-Cells : Cells size items released
    release-Cells = record {
      counted = c.counted;
      ordered = c.ordered;
      within = c.within;
      bounded = λ j h. ground (arith, c.bounded j h);
      full = λ v h k. ground (arith, c.full v h k, near sized u v);
      free = λ v h k.
          ground
            (arith, c.free v h k, near sized (u + size) v, sized.shared u, c.within, c.ordered);
    }

    pub release-Local :
        (p : Pc A) → takes p ≢ some u → Local size items q p → Local size items released p
    release-Local (enq_cas y h) ne l = ground (arith, l.1, near sized u h, c.ordered, sized.two)
    release-Local (enq_store y v) ne l = ground (arith, near sized u v)
    release-Local (enq_publish v) ne l = ground (arith, near sized u v)
    release-Local (deq_cas t) ne l = ground (arith, l.1, near sized u t, c.ordered, sized.two)
    release-Local (deq_read v) ne l = ground (arith, near sized u v, c.ordered)
    release-Local (deq_release v y) ne l = ground (arith, near sized u v, c.ordered)
    release-Local p ne l = l

  -- The exchange on the tail.
  module _ (at_t : seq_of size q q.tail_seq ≡ q.tail_seq + 1) where
    abbrev taken : MpmcQueue A
    taken = record q { tail_seq = q.tail_seq + 1 }

    take_lt : q.tail_seq < q.head_seq
    take_lt = elim (dec_lt q.tail_seq q.head_seq) [
      | yes lt ↦ lt
      | no ge ↦ ground (arith, c.free q.tail_seq, sized.two, c.ordered)
    ]

    pub take-Cells : Cells size items taken
    take-Cells = record {
      counted = c.counted;
      ordered = omega (arith, take_lt);
      within = omega (arith, c.within);
      bounded = λ j h. omega (arith, c.bounded j h);
      full = λ v h k. c.full v (omega arith) k;
      free = λ v h k. ground (arith, c.free v h, sized.shared q.tail_seq, c.within);
    }

    pub take-Local : (p : Pc A) → Local size items q p → Local size items taken p
    take-Local (enq_store y v) l = ground (arith)
    take-Local (enq_publish v) l = ground (arith)
    take-Local (deq_seq t) l = omega arith
    take-Local (deq_cas t) l = ground (arith)
    take-Local (deq_read v) l = ground (arith)
    take-Local (deq_release v y) l = ground (arith)
    take-Local (deq_done true y) (v, h, e) = (v, omega arith, e)
    take-Local p l = l

    pub taken_item : get_elem? items q.tail_seq ≡ content_of size q q.tail_seq
    taken_item = ground (arith, c.full q.tail_seq, take_lt)

  -- The exchange on the head.
  module _ (x : A) (at_h : seq_of size q q.head_seq ≡ q.head_seq) where
    abbrev put : MpmcQueue A
    put = record q { head_seq = q.head_seq + 1 }

    put_lt : q.head_seq < q.tail_seq + size
    put_lt = elim (dec_lt q.head_seq (q.tail_seq + size)) [
      | yes lt ↦ lt
      | no ge ↦
          let e : q.head_seq ≡ q.tail_seq + size = omega (arith, c.within) in
          ground
            (arith, c.full q.tail_seq, sized.two, sized.shared q.tail_seq, ap (seq_of size q) e)
    ]

    old_item : (v : ℕ) → v < q.head_seq → get_elem? (items ++ x ∷ []) v ≡ get_elem? items v
    old_item v h = get_elem?-append_front items (x ∷ []) v (omega (arith, c.counted))

    pub new_item : get_elem? (items ++ x ∷ []) q.head_seq ≡ some x
    new_item = ap (get_elem? (items ++ x ∷ [])) (sym c.counted) ∙ get_elem?-append_last items x

    pub put-Cells : Cells size (items ++ x ∷ []) put
    put-Cells = record {
      counted = omega (arith, length-append items (x ∷ []), c.counted);
      ordered = omega (arith, c.ordered);
      within = omega (arith, put_lt);
      bounded = λ j h. c.bounded j h;
      full = λ v h k. elim (dec_lt v q.head_seq) [
        | yes lt ↦ ground (arith, c.full v h, old_item v)
        | no ge ↦ let e : v ≡ q.head_seq = omega arith in inl (ap (seq_of size q) e ∙ at_h ∙ sym e)
      ];
      free = λ v h k. c.free v (omega arith) k;
    }

    -- The cell of the head is not being emptied.
    put_held : (v : ℕ) → q.head_seq ≤ v + size → seq_of size q v ≡ v + 1 → q.head_seq < v + size
    put_held v h at_v = elim (dec_lt q.head_seq (v + size)) [
      | yes lt ↦ lt
      | no ge ↦
          let e : q.head_seq ≡ v + size = omega arith in
          ground (arith, sized.two, sized.shared v, ap (seq_of size q) e)
    ]

    pub put-Local : (p : Pc A) → Local size items q p → Local size (items ++ x ∷ []) put p
    put-Local (enq_seq y v) l = omega arith
    put-Local (enq_cas y v) l = (omega arith, λ e. absurd (omega arith))
    put-Local (enq_store y v) l = ground (arith, old_item v)
    put-Local (enq_publish v) l = ground (arith, old_item v)
    put-Local (deq_read v) l = ground (arith, old_item v, put_held v l.1 l.2, c.ordered)
    put-Local (deq_release v y) l = ground (arith, old_item v, put_held v l.1 l.2, c.ordered)
    put-Local (deq_done true y) (v, h, e) = (v, h, old_item v (omega (arith, c.ordered)) ∙ e)
    put-Local p l = l
