-- ===== src/StreamStorage/Inv.antt =====
-- include/cql_stream_storage.hpp: the invariant of the storage, which leaves out the last id.
use uv_client_server.Base.{
  ℕ, zero, suc, ◌+◌, ◌-◌, ◌≤◌, ◌<◌, ◌≡◌, ◌≢◌, refl, sym, ap, ◌∙◌, ◌⊎◌, inl, inr, List, [], ◌∷◌,
  Bool, true, false, none, some, length, get_elem?, set, replicate, arith, length-replicate,
  length-set, get_elem?-set_self, get_elem?-set_ne, dec_lt,
}
use uv_client_server.StreamStorage.{StreamStorage, ids, new_storage}

abbrev pub count_true : List Bool → ℕ
count_true [] = 0
count_true (true ∷ bs) = suc (count_true bs)
count_true (false ∷ bs) = count_true bs

count_true-set-true :
    (bs : List Bool) (i : ℕ)
    → get_elem? bs i ≡ some false
    → count_true (set bs i true) ≡ count_true bs + 1
count_true-set-true [] i h = cc
count_true-set-true (true ∷ bs) zero h = cc
count_true-set-true (false ∷ bs) zero h = omega arith
count_true-set-true (true ∷ bs) (suc i) h = omega (arith, count_true-set-true bs i h)
count_true-set-true (false ∷ bs) (suc i) h = count_true-set-true bs i h

count_true-set-false :
    (bs : List Bool) (i : ℕ)
    → get_elem? bs i ≡ some true
    → count_true (set bs i false) + 1 ≡ count_true bs
count_true-set-false [] i h = cc
count_true-set-false (true ∷ bs) zero h = omega arith
count_true-set-false (false ∷ bs) zero h = cc
count_true-set-false (true ∷ bs) (suc i) h = omega (arith, count_true-set-false bs i h)
count_true-set-false (false ∷ bs) (suc i) h = count_true-set-false bs i h

count_true-replicate : (n : ℕ) → count_true (replicate n false) ≡ 0
count_true-replicate zero = refl
count_true-replicate (suc n) = count_true-replicate n

length-ids : (i n : ℕ) → length (ids i n) ≡ n
unfolding ids
length-ids i zero = refl
length-ids i (suc n) = ap suc (length-ids (suc i) n)

get_elem?-ids : (i n j : ℕ) → j < n → get_elem? (ids i n) j ≡ some (i + j)
unfolding ids
get_elem?-ids i zero j h = elim h [ ]
get_elem?-ids i (suc n) zero h = ap some (omega arith)
get_elem?-ids i (suc n) (suc j) h = get_elem?-ids (suc i) n j (omega arith) ∙ ap some (omega arith)

get_elem?-replicate {ℓ} :
    {A : Type ℓ} (n : ℕ) (a : A) (j : ℕ) → j < n → get_elem? (replicate n a) j ≡ some a
get_elem?-replicate zero a j h = elim h [ ]
get_elem?-replicate (suc n) a zero h = refl
get_elem?-replicate (suc n) a (suc j) h = get_elem?-replicate n a j (omega arith)

-- Position `i` of the available streams holds an id that may be handed out next.
abbrev pub Free : {S : Type 0} → StreamStorage S → ℕ → ℕ → Type 0
Free s i id = get_elem? s.available_streams i ≡ some id

-- There are `last + 1` ids, of which `last + 1` itself has no place in the arrays.
pub record Inv {S : Type 0} (last : ℕ) (s : StreamStorage S) : Type 0 where
  pub length_available : length s.available_streams ≡ last + 1
  pub length_allocated : length s.allocated_streams ≡ last + 1
  pub length_storage : length s.storage ≡ last + 1
  pub index_le : s.available_streams_index ≤ last
  pub last_id : Free s last (last + 1)
  pub ranged :
      (i id : ℕ) → s.available_streams_index ≤ i → i < last → Free s i id → (0 < id) × (id ≤ last)
  pub unallocated :
      (i id : ℕ)
      → s.available_streams_index ≤ i
      → i < last
      → Free s i id
      → get_elem? s.allocated_streams id ≡ some false
  pub distinct :
      (i j id : ℕ)
      → s.available_streams_index ≤ i
      → i < last
      → s.available_streams_index ≤ j
      → j < last
      → Free s i id
      → Free s j id
      → i ≡ j
  pub counted : count_true s.allocated_streams ≡ s.available_streams_index
  pub no_zero : get_elem? s.allocated_streams 0 ≡ some false

-- The constructor's state is in order, for any number of streams from one on.
pub new_storage-Inv : {S : Type 0} (last : ℕ) → Inv {S = S} last (new_storage (last + 1))
unfolding new_storage
new_storage-Inv last = record {
  length_available = length-ids 1 (last + 1);
  length_allocated = length-replicate (last + 1) false;
  length_storage = length-replicate (last + 1) none;
  index_le = omega arith;
  last_id = get_elem?-ids 1 (last + 1) last (omega arith) ∙ ap some (omega arith);
  ranged = λ i id lo hi e. ground (arith, get_elem?-ids 1 (last + 1) i);
  unallocated = λ i id lo hi e.
      get_elem?-replicate (last + 1) false id (ground (arith, get_elem?-ids 1 (last + 1) i));
  distinct = λ i j id li hi lj hj ei ej.
      ground (arith, get_elem?-ids 1 (last + 1) i, get_elem?-ids 1 (last + 1) j);
  counted = count_true-replicate (last + 1);
  no_zero = get_elem?-replicate (last + 1) false 0 (omega arith);
}

-- The state after a stream is claimed, and after one is released.
module _ {S : Type 0} (last : ℕ) (s : StreamStorage S) where
  abbrev pub claimed : ℕ → S → StreamStorage S
  claimed id input = record s {
    available_streams_index = s.available_streams_index + 1;
    storage = set s.storage id (some input);
    allocated_streams = set s.allocated_streams id true;
  }

  abbrev pub freed : ℕ → StreamStorage S
  freed id = record s {
    available_streams_index = s.available_streams_index - 1;
    available_streams = set s.available_streams (s.available_streams_index - 1) id;
    allocated_streams = set s.allocated_streams id false;
  }

  pub claimed-Inv :
      (id : ℕ) (input : S)
      → Inv last s
      → s.available_streams_index < last
      → Free s s.available_streams_index id
      → Inv last (claimed id input)
  claimed-Inv id input v room next = record {
    length_available = v.length_available;
    length_allocated = length-set s.allocated_streams id true ∙ v.length_allocated;
    length_storage = length-set s.storage id (some input) ∙ v.length_storage;
    index_le = omega arith;
    last_id = v.last_id;
    ranged = λ i j lo hi e. v.ranged i j (omega arith) hi e;
    unallocated = λ i j lo hi e.
        get_elem?-set_ne s.allocated_streams id j true (λ same. absurd (
          omega (
            arith,
            v.distinct index i id (omega arith) room (omega arith) hi next (e ∙ ap some (sym same)),
          )))
        ∙ v.unallocated i j (omega arith) hi e;
    distinct = λ i j k li hi lj hj ei ej. v.distinct i j k (omega arith) hi (omega arith) hj ei ej;
    counted =
        count_true-set-true s.allocated_streams id (v.unallocated index id (omega arith) room next)
        ∙ ap (λ n. n + 1) v.counted;
    no_zero =
        get_elem?-set_ne s.allocated_streams id 0 true
          (λ same. omega (arith, v.ranged index id (omega arith) room next))
        ∙ v.no_zero;
  }
    where
      index : ℕ
      index = s.available_streams_index

  pub freed-Inv :
      (id : ℕ)
      → Inv last s
      → get_elem? s.allocated_streams id ≡ some true
      → id ≤ last
      → Inv last (freed id)
  freed-Inv id v held small = record {
    length_available = length-set s.available_streams (index - 1) id ∙ v.length_available;
    length_allocated = length-set s.allocated_streams id false ∙ v.length_allocated;
    length_storage = v.length_storage;
    index_le = omega arith;
    last_id =
        get_elem?-set_ne s.available_streams (index - 1) last id (omega (arith, used)) ∙ v.last_id;
    ranged = λ i j lo hi e. elim (cases i j lo e) [
      | inl (_, same) ↦ (omega (arith, positive), omega arith)
      | inr (old, e') ↦ v.ranged i j old hi e'
    ];
    unallocated = λ i j lo hi e. elim (cases i j lo e) [
      | inl (_, same) ↦
          rw same
            (get_elem?-set_self s.allocated_streams id false (omega (arith, v.length_allocated)))
      | inr (old, e') ↦
          get_elem?-set_ne s.allocated_streams id j false (other i j old hi e')
          ∙ v.unallocated i j old hi e'
    ];
    distinct = λ i j k li hi lj hj ei ej. elim (cases i k li ei) [
      | inl (at_i, same) ↦ elim (cases j k lj ej) [
        | inl (at_j, _) ↦ omega arith
        | inr (old, e') ↦ absurd (other j k old hj e' (sym same))
      ]
      | inr (old_i, e_i) ↦ elim (cases j k lj ej) [
        | inl (_, same) ↦ absurd (other i k old_i hi e_i (sym same))
        | inr (old_j, e_j) ↦ v.distinct i j k old_i hi old_j hj e_i e_j
      ]
    ];
    counted = omega (arith, count_true-set-false s.allocated_streams id held, v.counted);
    no_zero = get_elem?-set_ne s.allocated_streams id 0 false positive ∙ v.no_zero;
  }
    where
      index : ℕ
      index = s.available_streams_index

      used : 0 < index
      used = omega (arith, count_true-set-false s.allocated_streams id held, v.counted)

      positive : id ≢ 0
      positive zero_id = ground (arith, v.no_zero)

      -- A free position is the one just filled, or was free before.
      cases :
          (i j : ℕ)
          → index - 1 ≤ i
          → Free (freed id) i j
          → ((i ≡ index - 1) × (j ≡ id)) ⊎ ((index ≤ i) × Free s i j)
      cases i j lo e = elim (dec_lt (index - 1) i) [
        | yes later ↦ inr (
          omega arith,
          sym (get_elem?-set_ne s.available_streams (index - 1) i id (omega arith)) ∙ e,
        )
        | no first ↦
            let here : i ≡ index - 1 = omega arith in
            let now : get_elem? (set s.available_streams (index - 1) id) (index - 1) ≡ some id =
              get_elem?-set_self s.available_streams (index - 1) id
                (omega (arith, v.length_available, v.index_le)) in
            let same : some j ≡ some id =
              sym e ∙ ap (get_elem? (set s.available_streams (index - 1) id)) here ∙ now in
            inl (here, cc)
      ]

      -- An id that was free is another one: this one was allocated.
      other : (i j : ℕ) → index ≤ i → i < last → Free s i j → id ≢ j
      other i j lo hi e same =
          cc (held, ap (get_elem? s.allocated_streams) same, v.unallocated i j lo hi e)
