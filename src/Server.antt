-- ===== src/Server.antt =====
-- src/server/main.cpp: a server that takes connections and reads from them.
pub mod Forgets
use uv_client_server.Base.{
  ℕ, ◌+◌, List, [], ◌∷◌, ◌++◌, Bool, true, false, Option, none, some, Result, ok, ◌>>=◌,
  if◌then◌else◌, ◌==◌,
}
use uv_client_server.Memory.{Bytes, Allocator}
use uv_client_server.Serialization.{int32}
use uv_client_server.Message.{Message, new_message, consume}

-- What leaves the program, by libuv or to stderr.
pub data Effect : Type 0 where
  read_error : Effect
  listen_error : Effect
  close_client : Effect
  read_start : Effect
  run_loop : Effect

-- The buffers that were allocated and not freed are counted; `state`, which nothing sets or reads,
-- and the context are left out.
pub record Connection : Type 0 where
  pub incomming : Message
  pub buffers : ℕ
  pub effects : List Effect

unfoldable pub new_connection : Allocator → Connection
new_connection alloc = record { incomming = new_message alloc; buffers = 0; effects = [] }

abbrev pub tell : Connection → Effect → Connection
tell c effect = record c { effects = c.effects ++ (effect ∷ []) }

-- What a non-zero value of `consume` does: the message is deleted, and a new one is made.
unfoldable pub replace : Allocator → Connection → Message × ℕ → Connection
replace alloc c (m, consumed) =
    if int32 consumed == 0
    then record c { incomming = m }
    else record c { incomming = new_message alloc }

unfoldable pub consume_buffer :
    Allocator → Connection → (base : Bytes) (len : ℕ) → Result Connection
consume_buffer alloc c base len = do r ← consume alloc c.incomming base len; ok (replace alloc c r)

-- A call of `handle_read`: with -1 for nread, or with a buffer of `alloc_buffer` of `len` bytes, of
-- which nread were received. What is behind these is what the new buffer held.
pub data Read : Type 0 where
  failed : (eof : Bool) → Read
  received : (nread : ℕ) (base : Bytes) (len : ℕ) → Read

unfoldable pub handle_read : Allocator → Connection → Read → Result Connection
handle_read alloc c (failed eof) = ok (tell (if eof then c else tell c read_error) close_client)
handle_read alloc c (received nread base len) =
    consume_buffer alloc (record c { buffers = c.buffers + 1 }) base len

-- The connection is there also when `uv_accept` fails; a status of -1 makes none.
unfoldable pub on_new_connection : Allocator → (bad accepted : Bool) → Option Connection
on_new_connection alloc bad accepted =
    if bad
    then none
    else some (tell (new_connection alloc) (if accepted then read_start else close_client))

-- What `uv_listen` gives, and what the loop returns: the value of the program.
unfoldable pub main : (listen loop : ℕ) → List Effect × ℕ
main listen loop = if listen == 0 then (run_loop ∷ [], loop) else (listen_error ∷ [], 1)
