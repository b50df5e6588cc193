-- ===== src/Connection/Reach.antt =====
-- include/cql_client_connection.hpp: the states that a connection reaches by its handlers and
-- methods.
use uv_client_server.Base.{
  ℕ, zero, suc, ◌-◌, ◌≡◌, refl, inl, inr, Bool, true, false, Option, none, some, Result, ok, ◌>>=◌,
  ◌==◌, length, drop, Bool-cases,
}
use uv_client_server.Memory.{Bytes, Allocator}
use uv_client_server.Errors.{Error}
use uv_client_server.Opcode.{opcode_query, opcode_prepare}
use uv_client_server.StreamStorage.Inv.{Inv, new_storage-Inv}
use uv_client_server.Request.{Request, new_request}
use uv_client_server.Message.{Message, new_message, new_message_with}
use uv_client_server.Message
use uv_client_server.Connection.{
  Connection, connected, resolved, disconnected, emit, send_message, read_start, new_connection,
}
use uv_client_server.Connection.Handlers.{init, on_resolve, on_connect, on_close, close}
use uv_client_server.Connection.Incoming
use uv_client_server.Connection.Incoming.{
  c_string, as_error, as_result, report_error, on_error, pointed, set_result, deliver, content_of,
  call_prepare, deliver_prepared, deliver_other, on_keyspace, on_prepared, on_other, on_kind,
  on_result, on_message, take_message, consume_loop, on_read,
}
use uv_client_server.Connection.Calls.{start, report, exec, prepare, set_keyspace, set_error}
use uv_client_server.Connection.Sending.{last_stream}
use uv_client_server.Connection.Received.{notify_request-Valid, on_message-Valid}
use uv_client_server.Base.{Yields, Yields-ok, Yields-err, Yields-if, Yields-bind, Yields-any}
use uv_client_server.Connection.Inv.{
  Valid, Ordered, forget, send_message-Valid, event_received-Valid,
}

module _ (alloc : Allocator) where
  pub take_message-Valid :
      (c : Connection) (m : Message) → Ordered c → Yields Ordered (take_message alloc c m)
  unfolding take_message
  take_message-Valid c m v =
      Yields-if m.body_ready
        (forget (on_message-Valid alloc (record c { incoming = new_message alloc }) m (v, refl)))
        (Yields-ok v)

  consume_loop-Valid :
      (rounds : ℕ) (c : Connection) (buffer : Bytes) (remaining : ℕ)
      → Ordered c
      → Yields Ordered (consume_loop alloc rounds c buffer remaining)
  unfolding consume_loop
  consume_loop-Valid zero c buffer remaining v = Yields-if (remaining == 0) (Yields-ok v) Yields-err
  consume_loop-Valid (suc rounds) c buffer remaining v = elim (Bool-cases (remaining == 0)) [
    | inl done ↦ rw (done, consume_loop) (Yields-ok v)
    | inr more ↦
        rw (more, consume_loop)
          (Yields-any (Message.consume alloc c.incoming buffer remaining) λ r.
            Yields-bind (take_message alloc c r.0) (take_message-Valid c r.0 v)
              λ c' v'. consume_loop-Valid rounds c' (drop r.1 buffer) (remaining - r.1) v')
  ]

module _ (alloc : Allocator) (null_string : Result Bytes) where
  -- What libuv and a client call, in any order and with any data.
  pub data Call : Type 0 where
    call_init : Bool → Bool → Call
    call_resolved : Bool → Call
    call_connected : Bool → Call
    call_read : Option Bytes → Call
    call_close : Call
    call_closed : Call
    call_exec : Message → Bool → Call
    call_prepare_statement : Bytes → ℕ → Bool → Call
    call_set_keyspace : Bytes → Call

  unfoldable pub run : Call → Connection → Result Connection
  run (call_init connect keyspace) c = init alloc c connect keyspace
  run (call_resolved failure) c = on_resolve alloc c failure
  run (call_connected failure) c = on_connect alloc c failure
  run (call_read buf) c = on_read alloc c buf
  run call_close c = ok (close c)
  run call_closed c = on_close alloc c
  run (call_exec message callback) c = exec alloc null_string c message callback >>= λ r. ok r.0
  run (call_prepare_statement statement size callback) c =
      prepare alloc null_string c statement size callback >>= λ r. ok r.0
  run (call_set_keyspace keyspace) c = set_keyspace alloc c keyspace

  -- The states that calls lead to, as long as each of them returns.
  pub data Reaches (c : Connection) : Connection → Type 0 where
    start_here : Reaches c c
    and_then :
        {c₁ c₂ : Connection} (call : Call) → Reaches c c₁ → run call c₁ ≡ ok c₂ → Reaches c c₂

  start_fill-Valid :
      {i : Message} (c : Connection) (fill : Request → Request)
      → Valid i c
      → Yields (λ r. Valid i r.0) (start alloc null_string c fill)
  unfolding start
  start_fill-Valid c fill v = Yields-any (new_request null_string) λ request. Yields-ok v

  report-Valid :
      {i : Message} (c : Connection) (r : ℕ) (e : Option Error)
      → Valid i c
      → Yields (Valid i) (report alloc null_string c r e)
  unfolding report
  report-Valid c r none v = Yields-ok v
  report-Valid c r (some e) v = notify_request-Valid c r (set_error alloc null_string e) v

  pub exec-Valid :
      {i : Message} (c : Connection) (m : Message) (callback : Bool)
      → Valid i c
      → Yields (λ r. Valid i r.0) (exec alloc null_string c m callback)
  unfolding exec
  exec-Valid c m callback v =
      Yields-bind (start alloc null_string c _) (start_fill-Valid c _ v) λ r₁ v₁.
        Yields-bind (send_message alloc r₁.0 m (some r₁.1))
          (send_message-Valid alloc r₁.0 m (some r₁.1) v₁)
          λ r₂ v₂.
            Yields-bind (report alloc null_string r₂.0 r₁.1 r₂.1) (report-Valid r₂.0 r₁.1 r₂.1 v₂)
              λ c₃ v₃. Yields-ok v₃

  pub prepare-Valid :
      {i : Message} (c : Connection) (statement : Bytes) (size : ℕ) (callback : Bool)
      → Valid i c
      → Yields (λ r. Valid i r.0) (prepare alloc null_string c statement size callback)
  unfolding prepare
  prepare-Valid c statement size callback v =
      Yields-bind (start alloc null_string c _) (start_fill-Valid c _ v) λ r₁ v₁.
        Yields-any (new_message_with alloc opcode_prepare) λ m.
          Yields-bind (send_message alloc r₁.0 _ (some r₁.1))
            (send_message-Valid alloc r₁.0 _ (some r₁.1) v₁)
            λ r₂ v₂.
              Yields-bind (report alloc null_string r₂.0 r₁.1 r₂.1) (report-Valid r₂.0 r₁.1 r₂.1 v₂)
                λ c₃ v₃. Yields-ok v₃

  pub run-Valid : (call : Call) (c : Connection) → Ordered c → Yields Ordered (run call c)
  unfolding run init on_resolve on_connect on_read close on_close set_keyspace Incoming.consume
  run-Valid (call_init connect keyspace) c v = forget (event_received-Valid alloc _ (v, refl))
  run-Valid (call_resolved true) c v = Yields-ok v
  run-Valid (call_resolved false) c v =
      forget (event_received-Valid alloc (record c { state = resolved }) (v, refl))
  run-Valid (call_connected true) c v = Yields-ok v
  run-Valid (call_connected false) c v =
      forget
        (event_received-Valid alloc (record (emit c read_start) { state = connected }) (v, refl))
  run-Valid (call_read none) c v = Yields-ok v
  run-Valid (call_read (some buf)) c v = consume_loop-Valid alloc (length buf) c buf (length buf) v
  run-Valid call_close c v = Yields-ok v
  run-Valid call_closed c v =
      forget (event_received-Valid alloc (record c { state = disconnected }) (v, refl))
  run-Valid (call_exec m callback) c v =
      Yields-bind (exec alloc null_string c m callback) (exec-Valid c m callback (v, refl))
        λ r v'. Yields-ok v'.0
  run-Valid (call_prepare_statement statement size callback) c v =
      Yields-bind (prepare alloc null_string c statement size callback)
        (prepare-Valid c statement size callback (v, refl)) λ r v'. Yields-ok v'.0
  run-Valid (call_set_keyspace keyspace) c v = Yields-any (new_message_with alloc opcode_query) λ m.
      Yields-bind (send_message alloc c _ none) (send_message-Valid alloc c _ none (v, refl))
        λ r v'. Yields-ok v'.0

  pub Reaches-Valid : {c c' : Connection} → Ordered c → Reaches c c' → Ordered c'
  Reaches-Valid v start_here = v
  Reaches-Valid v (and_then {c₁} {c₂} call before returned) =
      (run-Valid call c₁ (Reaches-Valid v before)).holds c₂ returned

  -- From a new connection, whatever calls are made in whatever order, whatever bytes are read and
  -- whatever streams the messages in them name: as long as each call returns, the streams are in
  -- order. That is, ids from 1 to 126 that are distinct and unallocated remain to be handed out,
  -- and the index counts the allocated ones.
  pub new_connection-Valid :
      {c : Connection} → Reaches (new_connection alloc) c → Inv last_stream c.stream_storage
  unfolding new_connection
  new_connection-Valid reached = Reaches-Valid (new_storage-Inv last_stream) reached
