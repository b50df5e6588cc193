-- ===== src/StdMap.antt =====
-- `std::map<std::string, V>` as the code uses it: entries in ascending order of their keys.
use uv_client_server.Base.{
  ℕ, ◌≡◌, refl, List, [], ◌∷◌, ◌++◌, Option, none, some, Bool, true, false, if◌then◌else◌, ltb,
  ◌==◌, ap,
}

-- operator< of std::string
unfoldable pub str_lt : List ℕ → List ℕ → Bool
str_lt [] [] = false
str_lt [] (b ∷ bs) = true
str_lt (a ∷ as_) [] = false
str_lt (a ∷ as_) (b ∷ bs) = if a == b then str_lt as_ bs else ltb a b

module _ {ℓ} {V : Type ℓ} where
  -- `insert` leaves the entry of a key that is there.
  unfoldable pub insert : List ℕ → V → List (List ℕ × V) → List (List ℕ × V)
  insert k v [] = (k, v) ∷ []
  insert k v ((j, w) ∷ m) =
      if str_lt j k
      then (j, w) ∷ insert k v m
      else if str_lt k j
      then (k, v) ∷ (j, w) ∷ m
      else (j, w) ∷ m

  -- m[k] = v
  unfoldable pub assign : List ℕ → V → List (List ℕ × V) → List (List ℕ × V)
  assign k v [] = (k, v) ∷ []
  assign k v ((j, w) ∷ m) =
      if str_lt j k
      then (j, w) ∷ assign k v m
      else if str_lt k j
      then (k, v) ∷ (j, w) ∷ m
      else (k, v) ∷ m

  unfoldable pub find : List ℕ → List (List ℕ × V) → Option V
  find k [] = none
  find k ((j, w) ∷ m) = if str_lt j k then find k m else if str_lt k j then none else some w

  -- Every key of the map is below `k`.
  abbrev pub AllBelow : List ℕ → List (List ℕ × V) → Type 0
  AllBelow k [] = Unit
  AllBelow k ((j, w) ∷ m) = (str_lt j k ≡ true) × AllBelow k m

  -- The keys ascend, each above those of `done` too.
  abbrev pub Ascends : List (List ℕ × V) → List (List ℕ × V) → Type 0
  Ascends done [] = Unit
  Ascends done ((k, v) ∷ m) = AllBelow k done × Ascends (done ++ (k, v) ∷ []) m

  pub insert_last :
      (k : List ℕ) (v : V) (m : List (List ℕ × V)) → AllBelow k m → insert k v m ≡ m ++ (k, v) ∷ []
  unfolding insert
  insert_last k v [] h = refl
  insert_last k v ((j, w) ∷ m) h = rw (h.0) (ap (◌∷◌ (j, w)) (insert_last k v m h.1))
