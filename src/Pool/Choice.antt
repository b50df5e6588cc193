-- ===== src/Pool/Choice.antt =====
-- include/cql_pool.hpp: which connection is borrowed.
use uv_client_server.Base.{
  ℕ, zero, suc, ◌≤◌, ◌<◌, ◌≡◌, refl, sym, ap, ◌∙◌, ◌⊎◌, inl, inr, List, [], ◌∷◌, true, none, some,
  ok, if◌then◌else◌, ◌==◌, length, get_elem?, arith, subst, Bool-cases, dec_lt, lt→ltb, le→ltb,
}
use uv_client_server.Connection.{Connection}
use uv_client_server.Pool.{Pool, streams_of, max_element, find_least_busy, borrow_connection}

-- Where a connection stands in a list.
abbrev pub Place : List Connection → Connection → Type 0
Place cs c = (i : ℕ) × (get_elem? cs i ≡ some c)

abbrev pub Least : List Connection → Connection → Type 0
Least cs best = (i : ℕ) (c : Connection) → get_elem? cs i ≡ some c → streams_of c ≤ streams_of best

Place-first :
    (a b : Connection) (cs : List Connection) (m : Connection)
    → Place (a ∷ cs) m
    → Place (a ∷ (b ∷ cs)) m
Place-first a b cs m (zero, e) = (0, e)
Place-first a b cs m (suc i, e) = (suc (suc i), e)

Place-second :
    (a b : Connection) (cs : List Connection) (m : Connection)
    → Place (b ∷ cs) m
    → Place (a ∷ (b ∷ cs)) m
Place-second a b cs m (i, e) = (suc i, e)

Least-two :
    (a b next : Connection) (cs : List Connection) (m : Connection)
    → streams_of a ≤ streams_of next
    → streams_of b ≤ streams_of next
    → Least (next ∷ cs) m
    → Least (a ∷ (b ∷ cs)) m
Least-two a b next cs m ha hb least zero c e =
    let same : a ≡ c = cc in
    subst (λ x. streams_of x ≤ streams_of m) same (omega (arith, least 0 next refl))
Least-two a b next cs m ha hb least (suc zero) c e =
    let same : b ≡ c = cc in
    subst (λ x. streams_of x ≤ streams_of m) same (omega (arith, least 0 next refl))
Least-two a b next cs m ha hb least (suc (suc i)) c e = least (suc i) c e

max_element_lem :
    (largest : Connection) (cs : List Connection)
    → Place (largest ∷ cs) (max_element largest cs) × Least (largest ∷ cs) (max_element largest cs)
unfolding max_element
max_element_lem largest [] = ((0, refl), least)
  where
    least : Least (largest ∷ []) largest
    least zero c e =
        let same : largest ≡ c = cc in
        subst (λ x. streams_of x ≤ streams_of largest) same (omega arith)
    least (suc i) c e = cc
max_element_lem largest (d ∷ cs) = elim (dec_lt (streams_of largest) (streams_of d)) [
  | yes more ↦
      subst Right (ap (λ b. max_element (if b then d else largest) cs) (sym (lt→ltb _ _ more))) (
        let (place, least) = max_element_lem d cs in
        (
          Place-second largest d cs (max_element d cs) place,
          Least-two largest d d cs (max_element d cs) (omega arith) (omega arith) least,
        ))
  | no less ↦
      subst Right
        (ap (λ b. max_element (if b then d else largest) cs) (sym (le→ltb _ _ (omega arith))))
        (let (place, least) = max_element_lem largest cs in
          (
            Place-first largest d cs (max_element largest cs) place,
            Least-two largest d largest cs (max_element largest cs) (omega arith) (omega arith)
                least,
          ))
]
  where
    Right : Connection → Type 0
    Right m = Place (largest ∷ (d ∷ cs)) m × Least (largest ∷ (d ∷ cs)) m

-- A pool that has a connection: either every connection is out of streams, and NULL is the least
-- busy one; or the least busy one is a connection of the pool with a stream, and none has more.
pub find_least_busy_lem :
    (p : Pool) (c : Connection) (cs : List Connection)
    → p.connections ≡ c ∷ cs
    → ((find_least_busy p ≡ ok none)
        × ((i : ℕ) (d : Connection) → get_elem? p.connections i ≡ some d → streams_of d ≡ 0))
      ⊎ ((best : Connection) × (find_least_busy p ≡ ok (some best))
          × (0 < streams_of best)
          × Place p.connections best
          × Least p.connections best)
unfolding find_least_busy
find_least_busy_lem p c cs e = elim (Bool-cases (streams_of best == 0)) [
  | inl empty ↦ inl (
    found ∙ ap (λ b. ok (if b then none else some best)) empty,
    λ i d at_i.
        ground (arith, (max_element_lem c cs).1 i d (ap (λ xs. get_elem? xs i) (sym e) ∙ at_i)),
  )
  | inr some_left ↦ inr (
    best,
    found ∙ ap (λ b. ok (if b then none else some best)) some_left,
    ground arith,
    subst (λ xs. Place xs best) (sym e) (max_element_lem c cs).0,
    subst (λ xs. Least xs best) (sym e) (max_element_lem c cs).1,
  )
]
  where
    best : Connection
    best = max_element c cs

    found : find_least_busy p ≡ ok (if streams_of best == 0 then none else some best)
    found = ap (λ xs. find_least_busy (record p { connections = xs })) e

-- A full pool whose connections are all out of streams: `borrow_connection` gives NULL and no
-- error, since it tests the pointer that the caller gave.
pub borrow_connection_busy :
    (p : Pool) (c : Connection) (cs : List Connection)
    → p.connections ≡ c ∷ cs
    → ((i : ℕ) (d : Connection) → get_elem? p.connections i ≡ some d → streams_of d ≡ 0)
    → p.max_connections_per_host ≤ length p.connections
    → borrow_connection p true ≡ ok (none, none)
unfolding borrow_connection
borrow_connection_busy p c cs e none_left full = elim (find_least_busy_lem p c cs e) [
  | inl (found, _) ↦ rw found refl
  | inr (best, _, positive, (i, at_i), _) ↦ absurd (omega (arith, none_left i best at_i))
]
