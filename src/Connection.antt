-- ===== src/Connection.antt =====
-- include/cql_client_connection.hpp, for a connection without TLS (`ssl_` is NULL): the state, and
-- what the handlers and the methods do to it.
pub mod Handlers
pub mod Incoming
pub mod Calls
pub mod Sending
pub mod Replies
pub mod Handshake
pub mod Exchange
pub mod Inv
pub mod Received
pub mod Reach
pub mod Once
pub mod Looping
pub mod Reading
pub mod Tls
use uv_client_server.Base.{
  ℕ, zero, suc, ◌+◌, ◌-◌, ◌^◌, List, [], ◌∷◌, ◌++◌, map, Bool, true, false, Option, none, some,
  Result, ok, err, out_of_bounds, assertion, bad_pointer, no_rounds, ◌>>=◌, if◌then◌else◌, ltb, leb,
  ◌==◌, length, take, drop, get_elem?, set, codes,
}
use uv_client_server.Memory.{Bytes, Allocator}
use uv_client_server.Errors.{Error}
use uv_client_server.Opcode.{opcode_to_string}
use uv_client_server.StreamStorage.{
  StreamStorage, Returned, output, failed, new_storage, set_stream, get_stream,
}
use uv_client_server.Request.{Request, Wakeup, new_request, notify}
use uv_client_server.Message.{Message, Output, new_message}
use uv_client_server.Message

pub data State : Type 0 where
  fresh resolved connected handshake supported ready disconnecting disconnected : State

-- A `CallerRequest*`: its place among the requests, or NULL.
abbrev pub RequestPointer : Type 0
RequestPointer = Option ℕ

-- The calls out of the connection, in order. The bytes of `write` are those handed to `uv_write`.
pub data Effect : Type 0 where
  resolve_host : Effect
  connect_host : Effect
  read_start : Effect
  close_socket : Effect
  write : Bytes → Effect
  connect_callback : Option Error → Effect
  keyspace_callback : Bytes → Effect
  prepare_callback : Option Error → Bytes → Bytes → Effect
  wakeup : ℕ → Wakeup → Effect

-- The callbacks are Booleans that say whether they are set. The log, the address and the handles of
-- libuv are left out.
pub record Connection : Type 0 where
  pub state : State
  pub incoming : Message
  pub stream_storage : StreamStorage RequestPointer
  pub has_connect_callback : Bool
  pub has_keyspace_callback : Bool
  pub has_prepare_callback : Bool
  pub cql_version : Bytes
  pub requests : List Request
  pub effects : List Effect

abbrev pub stream_id_max : ℕ
stream_id_max = 127

unfoldable pub new_connection : Allocator → Connection
new_connection alloc = record {
  state = fresh;
  incoming = new_message alloc;
  stream_storage = new_storage stream_id_max;
  has_connect_callback = false;
  has_keyspace_callback = false;
  has_prepare_callback = false;
  cql_version = codes "3.0.0";
  requests = [];
  effects = [];
}

abbrev pub emit : Connection → Effect → Connection
emit c e = record c { effects = c.effects ++ e ∷ [] }

-- The bytes that `prepare` leaves in `buf`; none if it returned false.
abbrev pub sent : Option Output → Bytes
sent none = []
sent (some out) = take out.size out.block

-- What `send_message` does after `set_stream`.
unfoldable pub send_on :
    Allocator
    → Connection
    → Message
    → StreamStorage RequestPointer
    → Returned ℕ
    → Result (Connection × Option Error)
send_on alloc c message storage (failed e) = ok (record c { stream_storage = storage }, some e)
send_on alloc c message storage (output id) = do
  buf ← Message.prepare alloc (record message { stream = id })
  name ← opcode_to_string message.opcode
  ok (emit (record c { stream_storage = storage }) (write (sent buf)), none)

-- The connection afterwards, and the error that is returned.
unfoldable pub send_message :
    Allocator → Connection → Message → RequestPointer → Result (Connection × Option Error)
send_message alloc c message request = do
  (storage, returned) ← set_stream stream_id_max c.stream_storage request
  send_on alloc c message storage returned

-- `request->notify(loop_)`
unfoldable pub notify_request : Connection → ℕ → (Request → Request) → Result Connection
notify_request c r update = elim (get_elem? c.requests r) [
  | none ↦ err bad_pointer
  | some request ↦
      let (request', wakeups) = notify (update request) in
      ok (record c {
        requests = set c.requests r request';
        effects = c.effects ++ map (wakeup r) wakeups;
      })
]

unfoldable pub notify_ready : Connection → Connection
notify_ready c = if c.has_connect_callback then emit c (connect_callback none) else c

unfoldable pub notify_error : Connection → Error → Connection
notify_error c e = if c.has_connect_callback then emit c (connect_callback (some e)) else c

-- state_ < CLIENT_STATE_READY
abbrev pub before_ready : State → Bool
before_ready ready = false
before_ready disconnecting = false
before_ready disconnected = false
before_ready _ = true
