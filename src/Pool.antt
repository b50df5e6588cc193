-- ===== src/Pool.antt =====
-- include/cql_pool.hpp: the connections to one host, and the choice among them.
pub mod Choice
pub mod Spawn
use uv_client_server.Base.{
  ℕ, zero, suc, ◌+◌, List, [], ◌∷◌, ◌++◌, Bool, true, false, Option, none, some, Result, ok, err,
  bad_pointer, ◌>>=◌, if◌then◌else◌, ltb, leb, ◌==◌, length, codes,
}
use uv_client_server.Memory.{Allocator}
use uv_client_server.Errors.{Error, source_library, lib_max_connections}
use uv_client_server.StreamStorage.{available_streams}
use uv_client_server.Connection.{Connection, new_connection, stream_id_max}
use uv_client_server.Connection.Handlers.{init}

-- The loop, the address and the TLS context are left out.
pub record Pool : Type 0 where
  pub core_connections_per_host : ℕ
  pub max_connections_per_host : ℕ
  pub max_simultaneous_creation : ℕ
  pub connections : List Connection
  pub connections_pending : List Connection

-- ClientConnection::available_streams
abbrev pub streams_of : Connection → ℕ
streams_of c = available_streams stream_id_max c.stream_storage

abbrev pub least_busy_comp : Connection → Connection → Bool
least_busy_comp a b = ltb (streams_of a) (streams_of b)

-- std::max_element, behind the first element: the first of the largest ones.
unfoldable pub max_element : Connection → List Connection → Connection
max_element largest [] = largest
max_element largest (c ∷ cs) = max_element (if least_busy_comp largest c then c else largest) cs

-- NULL is `none`. Where there is no connection, the end of the list is dereferenced.
unfoldable pub find_least_busy : Pool → Result (Option Connection)
unfolding max_element
find_least_busy p = elim p.connections [
  | [] ↦ err bad_pointer
  | c ∷ cs ↦ ok (if streams_of (max_element c cs) == 0 then none else some (max_element c cs))
]

abbrev pub all_busy : Error
all_busy = record {
  source = source_library;
  code = lib_max_connections;
  message = codes "all connections busy";
}

-- The store through `output`, which says whether that is not NULL.
abbrev pub store_output : Bool → Option Connection → Result (Option Connection)
store_output true found = ok found
store_output false found = err bad_pointer

-- What `*output` is afterwards, and the error returned. The test is on `output`, not on `*output`.
unfoldable pub borrow_connection :
    Pool → (output : Bool) → Result (Option Connection × Option Error)
borrow_connection p output = do
  found ← find_least_busy p
  stored ← store_output output found
  if output then ok (stored, none) else ok (stored, failed)
  where
    failed : Option Error
    failed = if leb p.max_connections_per_host (length p.connections) then some all_busy else none

module _ (alloc : Allocator) where
  unfoldable pub spawn_connection : Pool → Result Pool
  spawn_connection p = do
    connection ← init alloc (new_connection alloc) true false
    ok (record p { connections_pending = p.connections_pending ++ connection ∷ [] })

  unfoldable pub maybe_spawn_connection : Pool → Result Pool
  maybe_spawn_connection p =
      if leb p.max_simultaneous_creation (length p.connections_pending)
      then ok p
      else if leb p.max_connections_per_host (length p.connections + length p.connections_pending)
      then ok p
      else spawn_connection p

  -- for (size_t i = 0; i < core_connections_per_host_; ++i), with `n` rounds left
  unfoldable pub spawn_core : ℕ → Pool → Result Pool
  spawn_core zero p = ok p
  spawn_core (suc n) p = do p' ← spawn_connection p; spawn_core n p'

  unfoldable pub new_pool : ℕ → ℕ → ℕ → Result Pool
  new_pool core max simultaneous = spawn_core core (record {
    core_connections_per_host = core;
    max_connections_per_host = max;
    max_simultaneous_creation = simultaneous;
    connections = [];
    connections_pending = [];
  })
