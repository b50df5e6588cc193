-- ===== src/StreamStorage/Steps.antt =====
-- include/cql_stream_storage.hpp: what the storage yields, whatever it is asked.
use uv_client_server.Base.{
  ℕ, zero, suc, replicate, ◌+◌, ◌≡◌, refl, sym, ap, ◌∙◌, subst, Bool, true, false, Option, none,
  some, if◌then◌else◌, ◌==◌, length, get_elem?, get_elem?-lt, arith, dec_lt, Yields, Yields-ok,
  Yields-err,
}
use uv_client_server.Errors.{Error}
use uv_client_server.StreamStorage.{
  StreamStorage, new_storage, Returned, output, set_stream, get_stream, already_released,
}
use uv_client_server.StreamStorage.Inv.{Inv, freed-Inv}
use uv_client_server.StreamStorage.Laws.{
  outstanding, entry, lt_of_get, outstanding-freed, set_stream_lem, set_stream_last,
  get_stream_allocated, get_stream_unallocated, get_stream_overrun,
}

entry_found : {S : Type 0} (found : Option S) → entry (some true) (some found) ≡ found
entry_found (some x) = refl
entry_found none = refl

module _ {S : Type 0} (last : ℕ) where
  -- A request got a stream that was free.
  pub record Claimed (s : StreamStorage S) (input : S) (r : StreamStorage S × Returned ℕ)
      : Type 0 where
    pub id : ℕ
    pub returned : r.1 ≡ output id
    pub unused : outstanding s id ≡ none
    pub taken : (j : ℕ) → outstanding r.0 j ≡ (if id == j then some input else outstanding s j)
    pub valid : Inv last r.0

  pub set_stream-Claimed :
      (s : StreamStorage S) (input : S)
      → Inv last s
      → Yields (Claimed s input) (set_stream (last + 1) s input)
  set_stream-Claimed s input v = elim (dec_lt s.available_streams_index last) [
    | yes room ↦
        let (s', id, e, _, _, unused, taken, _, v') = set_stream_lem last s input v room in
        subst (Yields (Claimed s input)) (sym e) (
          Yields-ok
            (record { id = id; returned = refl; unused = unused; taken = taken; valid = v' }))
    | no full ↦
        subst (Yields (Claimed s input))
          (sym (set_stream_last last s input v (omega (arith, v.index_le))).1) Yields-err
  ]

  -- The request of a stream in flight was taken out, or nothing was.
  pub data Outcome (s : StreamStorage S) (id : ℕ)
      : StreamStorage S × Option S × Option Error → Type 0 where
    taken_out :
        {s' : StreamStorage S} {found : Option S}
        → outstanding s id ≡ found
        → ((j : ℕ) → outstanding s' j ≡ (if id == j then none else outstanding s j))
        → Inv last s'
        → Outcome s id (s', found, none)
    not_taken : {found : Option S} → Inv last s → Outcome s id (s, found, some already_released)

  pub get_stream-Outcome :
      (s : StreamStorage S) (id : ℕ) → Inv last s → Yields (Outcome s id) (get_stream s id true)
  get_stream-Outcome s id v = elim (dec_lt id (length s.allocated_streams)) [
    | no out ↦
        subst (Yields (Outcome s id)) (sym (get_stream_overrun last s id v (omega arith)))
          Yields-err
    | yes within ↦ let (b, e) = get_elem?-lt s.allocated_streams id within in in_bounds b e
  ]
    where
      in_bounds :
          (b : Bool)
          → get_elem? s.allocated_streams id ≡ some b
          → Yields (Outcome s id) (get_stream s id true)
      in_bounds true held =
          let (found, here, e) = get_stream_allocated last s id v held in
          subst (Yields (Outcome s id)) (sym e) (
            Yields-ok (
              taken_out
                (ap (λ b. entry b (get_elem? s.storage id)) held
                  ∙ ap (entry (some true)) here
                  ∙ entry_found found)
                (outstanding-freed last s id (lt_of_get s.allocated_streams id held))
                (freed-Inv last s id v held
                  (omega (arith, v.length_allocated, lt_of_get s.allocated_streams id held)))))
      in_bounds false free =
          let (found, e) = get_stream_unallocated last s id v free in
          subst (Yields (Outcome s id)) (sym e) (Yields-ok (not_taken v))

module _ {S : Type 0} where
  entry-replicate :
      (n j : ℕ) (cell : Option (Option S)) → entry (get_elem? (replicate n false) j) cell ≡ none
  entry-replicate zero j cell = refl
  entry-replicate (suc n) zero cell = refl
  entry-replicate (suc n) (suc j) cell = entry-replicate n j cell

  -- Nothing is in flight in a new storage.
  pub outstanding-new_storage : (max j : ℕ) → outstanding {S = S} (new_storage max) j ≡ none
  unfolding new_storage
  outstanding-new_storage max j = entry-replicate max j (get_elem? (replicate max none) j)
