-- ===== src/StreamStorage/Laws.antt =====
-- include/cql_stream_storage.hpp, seen as a finite map from streams to requests in flight.
use uv_client_server.Base.{
  ℕ, zero, suc, ◌+◌, ◌-◌, ◌≤◌, ◌<◌, ◌≡◌, refl, ap, ◌∙◌, ◌⊎◌, inl, inr, List, [], ◌∷◌, Bool, true,
  false, Option, none, some, ok, err, out_of_bounds, if◌then◌else◌, ◌==◌, length, get_elem?, arith,
  get_elem?-set_self, get_elem?-set_ne, get_elem?-lt, dec_lt, ℕ_discrete, lt→leb,
}
use uv_client_server.StreamStorage.{
  StreamStorage, read-ok, read_overrun, write-ok, write_overrun, set_stream, get_stream, release,
  available_streams, output, already_released, decrement,
}
use uv_client_server.Errors.{Error}
use uv_client_server.StreamStorage.Inv.{Inv, claimed, freed, claimed-Inv, freed-Inv, count_true}

pub lt_of_get {ℓ} :
    {A : Type ℓ} (xs : List A) (i : ℕ) {x : A} → get_elem? xs i ≡ some x → i < length xs
lt_of_get [] i e = cc
lt_of_get (y ∷ xs) zero e = omega arith
lt_of_get (y ∷ xs) (suc i) e = omega (arith, lt_of_get xs i e)

count_true_pos : (bs : List Bool) (i : ℕ) → get_elem? bs i ≡ some true → 0 < count_true bs
count_true_pos [] i e = cc
count_true_pos (true ∷ bs) i e = omega arith
count_true_pos (false ∷ bs) zero e = cc
count_true_pos (false ∷ bs) (suc i) e = count_true_pos bs i e

module _ {S : Type 0} where
  -- The request in flight on a stream.
  abbrev pub entry : Option Bool → Option (Option S) → Option S
  entry (some true) (some (some x)) = some x
  entry _ _ = none

  abbrev pub outstanding : StreamStorage S → ℕ → Option S
  outstanding s id = entry (get_elem? s.allocated_streams id) (get_elem? s.storage id)

  entry-some :
      (flag : Option Bool) (cell : Option (Option S)) {x : S}
      → entry flag cell ≡ some x
      → (flag ≡ some true) × (cell ≡ some (some x))
  entry-some (some true) (some (some y)) e = (refl, cc)
  entry-some (some true) (some none) e = cc
  entry-some (some true) none e = cc
  entry-some (some false) cell e = cc
  entry-some none cell e = cc

  outstanding-claimed :
      (last : ℕ) (s : StreamStorage S) (id : ℕ) (input : S)
      → id < length s.storage
      → id < length s.allocated_streams
      → (j : ℕ)
      → outstanding (claimed last s id input) j ≡ (if id == j then some input else outstanding s j)
  outstanding-claimed last s id input h k j = elim (ℕ_discrete id j) [
    | yes same ↦
        rw
          (
            ← same,
            get_elem?-set_self s.storage id (some input) h,
            get_elem?-set_self s.allocated_streams id true k,
          )
          (ground arith)
    | no other ↦
        rw
          (
            get_elem?-set_ne s.storage id j (some input) other,
            get_elem?-set_ne s.allocated_streams id j true other,
          )
          (ground arith)
  ]

  pub outstanding-freed :
      (last : ℕ) (s : StreamStorage S) (id : ℕ)
      → id < length s.allocated_streams
      → (j : ℕ) → outstanding (freed last s id) j ≡ (if id == j then none else outstanding s j)
  outstanding-freed last s id k j = elim (ℕ_discrete id j) [
    | yes same ↦ rw (← same, get_elem?-set_self s.allocated_streams id false k) (ground arith)
    | no other ↦ rw (get_elem?-set_ne s.allocated_streams id j false other) (ground arith)
  ]

  -- From a storage in order with fewer than `last` streams taken, a request gets a stream that no other request has,
  -- within the range of the ids. The map of requests in flight gains it and is otherwise
  -- unchanged, one stream fewer is available, and the invariant is kept.
  pub set_stream_lem :
      (last : ℕ) (s : StreamStorage S) (input : S)
      → Inv last s
      → s.available_streams_index < last
      → (s' : StreamStorage S) × (id : ℕ) × (set_stream (last + 1) s input ≡ ok (s', output id))
        × (0 < id)
        × (id ≤ last)
        × (outstanding s id ≡ none)
        × ((j : ℕ) → outstanding s' j ≡ (if id == j then some input else outstanding s j))
        × (available_streams (last + 1) s' + 1 ≡ available_streams (last + 1) s)
        × Inv last s'
  unfolding set_stream available_streams
  set_stream_lem last s input v room =
      let (id, next) = get_elem?-lt s.available_streams index (omega arith) in
      let (pos, small) = v.ranged index id (omega arith) room next in
      (
        claimed last s id input,
        id,
        rw (
          lt→leb (last + 1) index (omega arith),
          read-ok s.available_streams index next,
          write-ok s.storage id (some input) (omega (arith, v.length_storage)),
          write-ok s.allocated_streams id true (omega (arith, v.length_allocated)),
        ),
        pos,
        small,
        rw (v.unallocated index id (omega arith) room next),
        outstanding-claimed last s id input (omega (arith, v.length_storage))
            (omega (arith, v.length_allocated)),
        omega arith,
        claimed-Inv last s id input v room next,
      )
    where
      index : ℕ
      index = s.available_streams_index

  -- The constructor promises one stream more. In a storage in order with all but it taken, the next request gets the
  -- id `last + 1`, which is past the end of the arrays that are written with it.
  pub set_stream_last :
      (last : ℕ) (s : StreamStorage S) (input : S)
      → Inv last s
      → s.available_streams_index ≡ last
      → (available_streams (last + 1) s ≡ 1) × (set_stream (last + 1) s input ≡ err out_of_bounds)
  unfolding set_stream available_streams
  set_stream_last last s input v e = (
    omega arith,
    rw (
      lt→leb (last + 1) s.available_streams_index (omega arith),
      read-ok s.available_streams s.available_streams_index
          (ap (get_elem? s.available_streams) e ∙ v.last_id),
      write_overrun s.storage (last + 1) (some input) (omega (arith, v.length_storage)),
    ),
  )

  -- In a storage in order, a stream in flight that is released gives back its request; the map of requests in flight
  -- loses it and is otherwise unchanged, one stream more is available, and the invariant is kept.
  pub get_stream_lem :
      (last : ℕ) (s : StreamStorage S) (id : ℕ) (x : S)
      → Inv last s
      → outstanding s id ≡ some x
      → (s' : StreamStorage S) × (get_stream s id true ≡ ok (s', some x, none))
        × ((j : ℕ) → outstanding s' j ≡ (if id == j then none else outstanding s j))
        × (available_streams (last + 1) s' ≡ available_streams (last + 1) s + 1)
        × Inv last s'
  unfolding get_stream release available_streams
  get_stream_lem last s id x v e =
      let (held, found) =
        entry-some (get_elem? s.allocated_streams id) (get_elem? s.storage id) e in
      let within : id < length s.allocated_streams = lt_of_get s.allocated_streams id held in
      let some_taken = count_true_pos s.allocated_streams id held in
      let back : decrement s.available_streams_index ≡ s.available_streams_index - 1 =
        ground (arith, v.counted) in
      (
        freed last s id,
        rw (
          read-ok s.storage id found,
          read-ok s.allocated_streams id held,
          back,
          write-ok s.available_streams (s.available_streams_index - 1) id
              (omega (arith, v.length_available, v.index_le)),
          write-ok s.allocated_streams id false within,
        ),
        outstanding-freed last s id within,
        omega (arith, v.counted, v.index_le),
        freed-Inv last s id v held (omega (arith, v.length_allocated)),
      )

  -- In a storage in order, a stream that is not allocated cannot be released: the error is returned, and nothing changes.
  pub get_stream_unallocated :
      (last : ℕ) (s : StreamStorage S) (id : ℕ)
      → Inv last s
      → get_elem? s.allocated_streams id ≡ some false
      → (found : Option S) × (get_stream s id true ≡ ok (s, found, some already_released))
  unfolding get_stream
  get_stream_unallocated last s id v e =
      let within : id < length s.allocated_streams = lt_of_get s.allocated_streams id e in
      let (found, here) =
        get_elem?-lt s.storage id (omega (arith, v.length_allocated, v.length_storage)) in
      (found, rw (read-ok s.storage id here, read-ok s.allocated_streams id e))

  -- An allocated stream is freed, whatever its place in the storage holds.
  pub get_stream_allocated :
      (last : ℕ) (s : StreamStorage S) (id : ℕ)
      → Inv last s
      → get_elem? s.allocated_streams id ≡ some true
      → (found : Option S) × (get_elem? s.storage id ≡ some found)
        × (get_stream s id true ≡ ok (freed last s id, found, none))
  unfolding get_stream release
  get_stream_allocated last s id v held =
      let within : id < length s.allocated_streams = lt_of_get s.allocated_streams id held in
      let (found, here) =
        get_elem?-lt s.storage id (omega (arith, v.length_allocated, v.length_storage)) in
      let some_taken = count_true_pos s.allocated_streams id held in
      let back : decrement s.available_streams_index ≡ s.available_streams_index - 1 =
        ground (arith, v.counted) in
      (
        found,
        here,
        rw (
          read-ok s.storage id here,
          read-ok s.allocated_streams id held,
          back,
          write-ok s.available_streams (s.available_streams_index - 1) id
              (omega (arith, v.length_available, v.index_le)),
          write-ok s.allocated_streams id false within,
        ),
      )

  -- An id that is too great is read out of bounds.
  pub get_stream_overrun :
      (last : ℕ) (s : StreamStorage S) (id : ℕ)
      → Inv last s
      → length s.allocated_streams ≤ id
      → get_stream s id true ≡ err out_of_bounds
  unfolding get_stream
  get_stream_overrun last s id v out =
      rw (read_overrun s.storage id (omega (arith, v.length_allocated, v.length_storage)))

  -- From a storage in order, whatever id comes in, `get_stream` with a release either reads out of
  -- bounds, or it returns and the storage is in order again.
  pub get_stream-Inv :
      (last : ℕ) (s : StreamStorage S) (id : ℕ)
      → Inv last s
      → (get_stream s id true ≡ err out_of_bounds)
        ⊎ ((s' : StreamStorage S) × (found : Option S) × (error : Option Error) × (get_stream s id
                true
              ≡ ok (s', found, error))
            × Inv last s')
  unfolding get_stream
  get_stream-Inv last s id v = elim (dec_lt id (length s.allocated_streams)) [
    | no out ↦ inl (get_stream_overrun last s id v (omega arith))
    | yes within ↦ inr (in_bounds (get_elem?-lt s.allocated_streams id within))
  ]
    where
      in_bounds :
          (b : Bool) × (get_elem? s.allocated_streams id ≡ some b)
          → (s' : StreamStorage S) × (found : Option S) × (error : Option Error) × (get_stream s id
                true
              ≡ ok (s', found, error))
            × Inv last s'
      in_bounds (true, held) =
          let (found, here, e) = get_stream_allocated last s id v held in
          (
            freed last s id,
            found,
            none,
            e,
            freed-Inv last s id v held
                (omega (arith, v.length_allocated, lt_of_get s.allocated_streams id held)),
          )
      in_bounds (false, free) =
          let (found, e) = get_stream_unallocated last s id v free in
          (s, found, some already_released, e, v)
