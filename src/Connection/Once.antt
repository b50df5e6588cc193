-- ===== src/Connection/Once.antt =====
-- include/cql_client_connection.hpp: the requests of a connection, their streams and their wakeups.
mod Sends
mod Receives
pub mod Calls
use uv_client_server.Base.{
  ℕ, zero, suc, ◌⊎◌, inl, inr, length-append, length-set, ◌+◌, ◌<◌, ◌≤◌, ◌≡◌, ◌≢◌, refl, sym, ap,
  ◌∙◌, subst, List, [], ◌∷◌, ◌++◌, map, Bool, true, false, Option, none, some, if◌then◌else◌, ◌==◌,
  ◌&&◌, length, get_elem?, set, get_elem?-set_self, get_elem?-set_ne, get_elem?-append_last,
  get_elem?-append_front, arith, ℕ_discrete, dec_lt,
}
use uv_client_server.StreamStorage.{StreamStorage}
use uv_client_server.StreamStorage.Inv.{Inv}
use uv_client_server.StreamStorage.Laws.{outstanding, lt_of_get}
use uv_client_server.Request.{Request, Wakeup, notify}
use uv_client_server.Connection.{Connection, Effect, wakeup, RequestPointer}
use uv_client_server.Connection.Sending.{last_stream}

-- How often request `r` is woken.
abbrev pub woken_by : ℕ → Effect → ℕ
woken_by r (wakeup q w) = if r == q then 1 else 0
woken_by r _ = 0

abbrev pub wakeups : ℕ → List Effect → ℕ
wakeups r [] = 0
wakeups r (e ∷ es) = woken_by r e + wakeups r es

pub wakeups-append :
    (r : ℕ) (es fs : List Effect) → wakeups r (es ++ fs) ≡ wakeups r es + wakeups r fs
wakeups-append r [] fs = omega arith
wakeups-append r (e ∷ es) fs = omega (arith, wakeups-append r es fs)

wakeups-notify :
    (q r : ℕ) (request : Request)
    → wakeups q (map (wakeup r) (notify request).1)
      ≡ (if (q == r) && request.callback then 1 else 0)
unfolding notify
wakeups-notify q r request = ground arith

pub get_elem?-append-cases :
    {A : Type 0} (xs : List A) (x : A) (i : ℕ) {y : A}
    → get_elem? (xs ++ x ∷ []) i ≡ some y
    → (get_elem? xs i ≡ some y) ⊎ ((i ≡ length xs) × (x ≡ y))
get_elem?-append-cases [] x zero e = inr (refl, cc)
get_elem?-append-cases [] x (suc i) e = cc
get_elem?-append-cases (z ∷ xs) x zero e = inl e
get_elem?-append-cases (z ∷ xs) x (suc i) e = elim (get_elem?-append-cases xs x i e) [
  | inl old ↦ inl old
  | inr (at_end, same) ↦ inr (omega arith, same)
]

some_injective : {A : Type 0} {a b : A} → some a ≡ some b → a ≡ b
some_injective e = cc

pub the_same : {a b : ℕ} → some (some a) ≡ some (some b) → a ≡ b
the_same e = cc

-- The requests that are there, and those in flight: each on one stream, and none of them done. A
-- request that is done was woken once if it has a callback, and no other was.
pub record Tracked (s : StreamStorage RequestPointer) (requests : List Request)
    (effects : List Effect) : Type 0 where
  pub valid : Inv last_stream s
  pub pending :
      (j r : ℕ)
      → outstanding s j ≡ some (some r)
      → (request : Request) × (get_elem? requests r ≡ some request) × (request.flag ≡ false)
  pub single :
      (j k r : ℕ) → outstanding s j ≡ some (some r) → outstanding s k ≡ some (some r) → j ≡ k
  pub once :
      (r : ℕ) (request : Request)
      → get_elem? requests r ≡ some request
      → wakeups r effects ≡ (if request.flag && request.callback then 1 else 0)
  pub none_later : (r : ℕ) → length requests ≤ r → wakeups r effects ≡ 0

abbrev pub Tracks : Connection → Type 0
Tracks c = Tracked c.stream_storage c.requests c.effects

-- A request that is there and not done, and has no stream.
pub record Waits (r : ℕ) (s : StreamStorage RequestPointer) (requests : List Request) : Type 0 where
  pub request : Request
  pub there : get_elem? requests r ≡ some request
  pub not_done : request.flag ≡ false
  pub no_stream : (j : ℕ) → outstanding s j ≢ some (some r)

-- A request pointer that a stream can get.
abbrev pub Free : RequestPointer → StreamStorage RequestPointer → List Request → Type 0
Free none s requests = Unit
Free (some r) s requests = Waits r s requests

module _ {s : StreamStorage RequestPointer} {requests : List Request} {effects : List Effect}
    (t : Tracked s requests effects) where
  -- A call out of the connection that wakes no request.
  pub quiet : (e : Effect) → ((r : ℕ) → woken_by r e ≡ 0) → Tracked s requests (effects ++ e ∷ [])
  quiet e silent = record {
    valid = t.valid;
    pending = t.pending;
    single = t.single;
    once = λ r request there.
        omega (arith, wakeups-append r effects (e ∷ []), silent r) ∙ t.once r request there;
    none_later =
        λ r h. omega (arith, wakeups-append r effects (e ∷ []), silent r, t.none_later r h);
  }

  -- A new request.
  pub started :
      (request : Request) → request.flag ≡ false → Tracked s (requests ++ request ∷ []) effects
  started request fresh = record {
    valid = t.valid;
    pending = λ j r e.
        let (q, there, not_done) = t.pending j r e in
        (
          q,
          get_elem?-append_front requests (request ∷ []) r (lt_of_get requests r there) ∙ there,
          not_done,
        );
    single = t.single;
    once = λ r q there. elim (get_elem?-append-cases requests request r there) [
      | inl old ↦ t.once r q old
      | inr (at_end, same) ↦
          t.none_later r (omega arith) ∙ ground (arith, ap (λ q. q.flag) same, fresh)
    ];
    none_later = λ r h. t.none_later r (omega (arith, length-append requests (request ∷ [])));
  }

  pub started-Waits :
      (request : Request)
      → request.flag ≡ false
      → Waits (length requests) s (requests ++ request ∷ [])
  started-Waits request fresh = record {
    request = request;
    there = get_elem?-append_last requests request;
    not_done = fresh;
    no_stream = λ j e.
        let (q, there, not_done) = t.pending j (length requests) e in
        absurd (omega (arith, lt_of_get requests (length requests) there));
  }

  -- A request gets a stream that was free.
  pub claimed-Tracked :
      (s' : StreamStorage RequestPointer) (id : ℕ) (input : RequestPointer)
      → Free input s requests
      → ((j : ℕ) → outstanding s' j ≡ (if id == j then some input else outstanding s j))
      → Inv last_stream s'
      → Tracked s' requests effects
  claimed-Tracked s' id none free taken v = record {
    valid = v;
    once = t.once;
    none_later = t.none_later;
    pending = λ j r e. t.pending j r (ground (arith, taken j));
    single = λ j k r e f. t.single j k r (ground (arith, taken j)) (ground (arith, taken k));
  }
  claimed-Tracked s' id (some q) free taken v = record {
    valid = v;
    once = t.once;
    none_later = t.none_later;
    pending = λ j r e. elim (ℕ_discrete id j) [
      | yes same ↦ (
        free.request,
        ap (get_elem? requests) (sym (the_same (ground (arith, taken j)))) ∙ free.there,
        free.not_done,
      )
      | no other ↦ t.pending j r (ground (arith, taken j))
    ];
    single = λ j k r e f.
        ground (arith, taken j, taken k, free.no_stream j, free.no_stream k, t.single j k r);
  }

  -- A stream is released.
  pub released-Tracked :
      (s' : StreamStorage RequestPointer) (id : ℕ)
      → ((j : ℕ) → outstanding s' j ≡ (if id == j then none else outstanding s j))
      → Inv last_stream s'
      → Tracked s' requests effects
  released-Tracked s' id released v = record {
    valid = v;
    once = t.once;
    none_later = t.none_later;
    pending = λ j r e. t.pending j r (ground (arith, released j));
    single = λ j k r e f. t.single j k r (ground (arith, released j)) (ground (arith, released k));
  }

  pub released-Waits :
      (s' : StreamStorage RequestPointer) (id r : ℕ)
      → outstanding s id ≡ some (some r)
      → ((j : ℕ) → outstanding s' j ≡ (if id == j then none else outstanding s j))
      → Waits r s' requests
  released-Waits s' id r flight released =
      let (request, there, not_done) = t.pending id r flight in
      record {
        request = request;
        there = there;
        not_done = not_done;
        no_stream = λ j e. ground (arith, released j, t.single id j r flight);
      }

  -- A request is done.
  pub done-Tracked :
      (r : ℕ) (update : Request → Request)
      → (w : Waits r s requests)
      → Tracked s
          (set requests r (record (update w.request) { flag = true }))
          (effects ++ map (wakeup r) (notify (update w.request)).1)
  done-Tracked r update w = record {
    valid = t.valid;
    pending = λ j q e.
        let other : r ≢ q = λ same. w.no_stream j (e ∙ ap (λ n. some (some n)) (sym same)) in
        let (request, there, not_done) = t.pending j q e in
        (request, get_elem?-set_ne requests r q _ other ∙ there, not_done);
    single = t.single;
    once = λ q request there. elim (ℕ_discrete r q) [
      | yes same ↦ subst At same itself request there
      | no other ↦
          untouched q other ∙ t.once q request (sym (get_elem?-set_ne requests r q _ other) ∙ there)
    ];
    none_later = λ q h.
        let far : length requests ≤ q =
          omega (arith, length-set requests r (record (update w.request) { flag = true })) in
        untouched q (λ same. omega (arith, within)) ∙ t.none_later q far;
  }
    where
      within : r < length requests
      within = lt_of_get requests r w.there

      -- What is to show for request `q`.
      At : ℕ → Type 0
      At q =
          (request : Request)
          → get_elem? (set requests r (record (update w.request) { flag = true })) q ≡ some request
          → wakeups q (effects ++ map (wakeup r) (notify (update w.request)).1)
            ≡ (if request.flag && request.callback then 1 else 0)

      itself : At r
      itself request there =
          let now =
            get_elem?-set_self requests r (record (update w.request) { flag = true }) within in
          let same : record (update w.request) { flag = true } ≡ request =
            some_injective (sym now ∙ there) in
          let before : wakeups r effects ≡ 0 =
            t.once r w.request w.there ∙ ground (arith, w.not_done) in
          wakeups-append r effects (map (wakeup r) (notify (update w.request)).1)
          ∙ ground (
            arith,
            before,
            wakeups-notify r r (update w.request),
            ap (λ q. q.flag) same,
            ap (λ q. q.callback) same,
          )

      untouched :
          (q : ℕ)
          → r ≢ q
          → wakeups q (effects ++ map (wakeup r) (notify (update w.request)).1) ≡ wakeups q effects
      untouched q other =
          wakeups-append q effects (map (wakeup r) (notify (update w.request)).1)
          ∙ ground (arith, wakeups-notify q r (update w.request))
