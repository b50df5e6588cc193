-- ===== src/StreamStorage.antt =====
-- include/cql_stream_storage.hpp: stream ids for requests in flight.
pub mod Inv
pub mod Laws
pub mod Steps
use uv_client_server.Base.{
  ℕ, zero, suc, ◌+◌, ◌-◌, ◌^◌, List, [], ◌∷◌, Bool, true, false, Option, none, some, Result, ok,
  err, out_of_bounds, ◌>>=◌, ◌≡◌, ◌≤◌, ◌<◌, lt→ltb, le→ltb, if◌then◌else◌, ltb, leb, length,
  get_elem?, set, replicate, codes, arith, refl,
}
use uv_client_server.Errors.{Error, source_library, lib_no_streams}

-- `none` in the storage is an entry that was never written.
pub record StreamStorage (S : Type 0) : Type 0 where
  pub available_streams_index : ℕ
  pub available_streams : List ℕ
  pub allocated_streams : List Bool
  pub storage : List (Option S)

-- array[i], and array[i] = v
unfoldable pub read {ℓ} : {A : Type ℓ} → List A → ℕ → Result A
read xs i = elim (get_elem? xs i) [ none ↦ err out_of_bounds | some x ↦ ok x ]

unfoldable pub write {ℓ} : {A : Type ℓ} → List A → ℕ → A → Result (List A)
write xs i v = if ltb i (length xs) then ok (set xs i v) else err out_of_bounds

pub read-ok {ℓ} :
    {A : Type ℓ} (xs : List A) (i : ℕ) {x : A} → get_elem? xs i ≡ some x → read xs i ≡ ok x
unfolding read
read-ok xs i e = rw (e, read)

pub read_overrun {ℓ} :
    {A : Type ℓ} (xs : List A) (i : ℕ) → length xs ≤ i → read xs i ≡ err out_of_bounds
unfolding read
read_overrun [] i h = refl
read_overrun (x ∷ xs) zero h = absurd (omega arith)
read_overrun (x ∷ xs) (suc i) h = read_overrun xs i (omega arith)

pub write-ok {ℓ} :
    {A : Type ℓ} (xs : List A) (i : ℕ) (v : A) → i < length xs → write xs i v ≡ ok (set xs i v)
unfolding write
write-ok xs i v h = rw (lt→ltb i (length xs) h)

pub write_overrun {ℓ} :
    {A : Type ℓ} (xs : List A) (i : ℕ) (v : A) → length xs ≤ i → write xs i v ≡ err out_of_bounds
unfolding write
write_overrun xs i v h = rw (le→ltb i (length xs) h)

-- The `n` ids from `i` on.
unfoldable pub ids : ℕ → ℕ → List ℕ
ids i zero = []
ids i (suc n) = i ∷ ids (suc i) n

abbrev pub no_streams : Error
no_streams = record {
  source = source_library;
  code = lib_no_streams;
  message = codes "no available streams";
}

abbrev pub already_released : Error
already_released = record {
  source = source_library;
  code = lib_no_streams;
  message = codes "this stream has already been released";
}

-- The output, or the error that is returned.
pub data Returned (A : Type 0) : Type 0 where
  output : A → Returned A
  failed : Error → Returned A

-- --available_streams_index_, a uintptr_t
abbrev pub decrement : ℕ → ℕ
decrement index = if ltb 0 index then index - 1 else 2 ^ 64 - 1

module _ {S : Type 0} where
  unfoldable pub new_storage : ℕ → StreamStorage S
  unfolding ids
  new_storage max = record {
    available_streams_index = 0;
    available_streams = ids 1 max;
    allocated_streams = replicate max false;
    storage = replicate max none;
  }

  -- `max` is the template's `Max`.
  unfoldable pub set_stream : ℕ → StreamStorage S → S → Result (StreamStorage S × Returned ℕ)
  set_stream max s input = if leb max s.available_streams_index then full else claim
    where
      full : Result (StreamStorage S × Returned ℕ)
      full = ok (s, failed no_streams)

      claim : Result (StreamStorage S × Returned ℕ)
      claim = do
        id ← read s.available_streams s.available_streams_index
        storage ← write s.storage id (some input)
        allocated ← write s.allocated_streams id true
        ok (
          record s {
            available_streams_index = s.available_streams_index + 1;
            storage = storage;
            allocated_streams = allocated;
          },
          output id,
        )

  unfoldable pub release : StreamStorage S → ℕ → Result (StreamStorage S)
  release s input = do
    available ← write s.available_streams (decrement s.available_streams_index) input
    allocated ← write s.allocated_streams input false
    ok (record s {
      available_streams_index = decrement s.available_streams_index;
      available_streams = available;
      allocated_streams = allocated;
    })

  -- `output` is assigned before the test, so it comes with the error too.
  unfoldable pub get_stream :
      StreamStorage S → ℕ → Bool → Result (StreamStorage S × Option S × Option Error)
  get_stream s input release_stream = do
    found ← read s.storage input
    allocated ← if release_stream then read s.allocated_streams input else ok true
    if release_stream
        then (if allocated then freed found else ok (s, found, some already_released))
        else ok (s, found, none)
    where
      freed : Option S → Result (StreamStorage S × Option S × Option Error)
      freed found = do s' ← release s input; ok (s', found, none)

  -- A size_t; `Max` is at least the index in every state that the operations reach.
  unfoldable pub available_streams : ℕ → StreamStorage S → ℕ
  available_streams max s = max - s.available_streams_index
