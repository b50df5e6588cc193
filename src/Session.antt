-- ===== src/Session.antt =====
-- include/cql_session.hpp: the workers of a session, their pools, and the queue of requests. Threads
-- and loops are left out.
use uv_client_server.Base.{
  ℕ, List, [], ◌∷◌, Option, none, some, Result, ok, err, bad_pointer, ◌>>=◌, replicate,
  if◌then◌else◌, same_bytes,
}
use uv_client_server.Memory.{Bytes, Allocator}
use uv_client_server.Connection.{RequestPointer}
use uv_client_server.MpmcQueue.{MpmcQueue, new_queue}
use uv_client_server.Pool.{Pool, new_pool}

pub record IoWorker : Type 0 where
  pub pools : List (Bytes × Pool)

abbrev pub new_worker : IoWorker
new_worker = record { pools = [] }

-- `insert` of an unordered_map leaves the pool of a host that is there.
unfoldable pub insert_pool : Bytes → Pool → List (Bytes × Pool) → List (Bytes × Pool)
insert_pool host pool [] = (host, pool) ∷ []
insert_pool host pool ((other, old) ∷ pools) =
    if same_bytes host other
    then (other, old) ∷ pools
    else (other, old) ∷ insert_pool host pool pools

-- The pool is made, with its connections, before the map is looked at.
unfoldable pub add_pool : Allocator → IoWorker → Bytes → (core max : ℕ) → Result IoWorker
add_pool alloc worker host core max = do
  pool ← new_pool alloc core max 1
  ok (record { pools = insert_pool host pool worker.pools })

pub record Session : Type 0 where
  pub io_loops : List IoWorker
  pub queue : MpmcQueue RequestPointer

unfoldable pub new_session : ℕ → Result Session
new_session io_loop_count = do
  queue ← new_queue 1024
  ok (record { io_loops = replicate io_loop_count new_worker; queue = queue })

-- The methods have no code yet. A session is a pointer, which may be NULL; a method of NULL is an error.
unfoldable pub prepare : Session → RequestPointer
prepare s = none

unfoldable pub execute : Session → RequestPointer
execute s = none

unfoldable pub shutdown : Option Session → Result Session
shutdown none = err bad_pointer
shutdown (some s) = ok s

unfoldable pub set_keyspace : Session → Session
set_keyspace s = s
