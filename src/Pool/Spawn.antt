-- ===== src/Pool/Spawn.antt =====
-- include/cql_pool.hpp: how many connections a pool makes.
use uv_client_server.Base.{
  ℕ, zero, suc, ◌+◌, ◌≤◌, ◌≡◌, refl, ap, ◌⊎◌, inl, inr, [], ◌∷◌, ◌++◌, Bool, true, false, ok, err,
  bad_pointer, length, length-append, arith, dec_lt, lt→leb, le→leb,
}
use uv_client_server.Memory.{Allocator}
use uv_client_server.Connection.{Connection, new_connection, emit, resolve_host}
use uv_client_server.Connection.Handlers.{init, event_received, on_state}
use uv_client_server.Pool.{
  Pool, spawn_connection, maybe_spawn_connection, spawn_core, new_pool, borrow_connection,
  find_least_busy,
}

module _ (alloc : Allocator) where
  -- A connection as the pool makes it: the resolution of its host has begun.
  abbrev pub pending : Connection
  pending =
      emit
        (record (new_connection alloc) {
          has_connect_callback = true;
          has_keyspace_callback = false;
        })
        resolve_host

  abbrev pub with_pending : Pool → Pool
  with_pending p = record p { connections_pending = p.connections_pending ++ pending ∷ [] }

  spawn_connection_lem : (p : Pool) → spawn_connection alloc p ≡ ok (with_pending p)
  unfolding spawn_connection init event_received on_state new_connection
  spawn_connection_lem p = refl

  -- In a pool within its limit, `maybe_spawn_connection` either finds a limit reached and leaves
  -- the pool as it is, or adds one pending connection, and the pool stays within both limits.
  pub maybe_spawn_connection_lem :
      (p : Pool)
      → length p.connections + length p.connections_pending ≤ p.max_connections_per_host
      → ((maybe_spawn_connection alloc p ≡ ok p)
          × ((p.max_simultaneous_creation ≤ length p.connections_pending)
              ⊎ (p.max_connections_per_host ≡ length p.connections + length p.connections_pending)))
        ⊎ ((maybe_spawn_connection alloc p ≡ ok (with_pending p))
            × (length (with_pending p).connections_pending ≤ p.max_simultaneous_creation)
            × (length p.connections + length (with_pending p).connections_pending
                ≤ p.max_connections_per_host))
  unfolding maybe_spawn_connection
  maybe_spawn_connection_lem p within =
      elim (dec_lt (length p.connections_pending) p.max_simultaneous_creation) [
        | no busy ↦ inl (
          rw (le→leb p.max_simultaneous_creation (length p.connections_pending) (omega arith)) refl,
          inl (omega arith),
        )
        | yes idle ↦
            elim (dec_lt (length p.connections + length p.connections_pending)
              p.max_connections_per_host) [
                | no full ↦ inl (
                  rw
                      (
                        lt→leb p.max_simultaneous_creation (length p.connections_pending) idle,
                        le→leb p.max_connections_per_host
                            (length p.connections + length p.connections_pending) (omega arith),
                      )
                      refl,
                  inr (omega arith),
                )
                | yes room ↦ inr (
                  rw
                      (
                        lt→leb p.max_simultaneous_creation (length p.connections_pending) idle,
                        lt→leb p.max_connections_per_host
                            (length p.connections + length p.connections_pending) room,
                      )
                      (spawn_connection_lem p),
                  omega (arith, length-append p.connections_pending (pending ∷ [])),
                  omega (arith, length-append p.connections_pending (pending ∷ [])),
                )
              ]
      ]

  spawn_core_lem :
      (n : ℕ) (p : Pool)
      → (p' : Pool) × (spawn_core alloc n p ≡ ok p')
        × (p'.connections ≡ p.connections)
        × (length p'.connections_pending ≡ length p.connections_pending + n)
  unfolding spawn_core
  spawn_core_lem zero p = (p, refl, refl, omega arith)
  spawn_core_lem (suc n) p =
      let (p', spawned, same, count) = spawn_core_lem n (with_pending p) in
      (
        p',
        rw (spawn_connection_lem p) spawned,
        same,
        omega (arith, count, length-append p.connections_pending (pending ∷ [])),
      )

  borrow_empty :
      (p : Pool) (output : Bool) → p.connections ≡ [] → borrow_connection p output ≡ err bad_pointer
  unfolding borrow_connection find_least_busy
  borrow_empty p output e = ap (λ xs. borrow_connection (record p { connections = xs }) output) e

  -- The constructor of a pool makes as many pending connections as asked for, and the first
  -- borrowing dereferences the end of the empty list of connections.
  pub new_pool_lem :
      (core max simultaneous : ℕ) (output : Bool)
      → (p : Pool) × (new_pool alloc core max simultaneous ≡ ok p)
        × (length p.connections_pending ≡ core)
        × (borrow_connection p output ≡ err bad_pointer)
  unfolding new_pool
  new_pool_lem core max simultaneous output =
      let (p, spawned, none_there, count) = spawn_core_lem core (record {
        core_connections_per_host = core;
        max_connections_per_host = max;
        max_simultaneous_creation = simultaneous;
        connections = [];
        connections_pending = [];
      }) in
      (p, spawned, omega (arith, count), borrow_empty p output none_there)
