-- ===== src/Connection/Once/Calls.antt =====
-- include/cql_client_connection.hpp: the requests of every connection that calls lead to.
use uv_client_server.Base.{
  ℕ, zero, suc, ◌-◌, ◌≡◌, refl, ◌∙◌, ◌&&◌, inl, inr, true, false, Option, none, some, Result, ◌==◌,
  if◌then◌else◌, length, get_elem?, drop, Bool-cases, Yields, Yields-ok, Yields-err, Yields-if,
  Yields-bind, Yields-any,
}
use uv_client_server.Memory.{Bytes, Allocator}
use uv_client_server.Errors.{Error}
use uv_client_server.Opcode.{opcode_query, opcode_prepare}
use uv_client_server.StreamStorage.Inv.{new_storage-Inv}
use uv_client_server.StreamStorage.Laws.{outstanding}
use uv_client_server.StreamStorage.Steps.{outstanding-new_storage}
use uv_client_server.Request.{Request, new_request}
use uv_client_server.Message.{Message, new_message, new_message_with}
use uv_client_server.Message
use uv_client_server.Connection.{
  Connection, RequestPointer, connected, resolved, disconnected, emit, read_start, new_connection,
}
use uv_client_server.Connection.Handlers.{
  init, on_resolve, on_connect, on_close, close, event_received,
}
use uv_client_server.Connection.Incoming
use uv_client_server.Connection.Incoming.{on_message, take_message, consume_loop, on_read}
use uv_client_server.Connection.Calls.{start, report, exec, prepare, set_keyspace}
use uv_client_server.Connection.Sending.{last_stream}
use uv_client_server.Connection.Reach.{
  Call, call_init, call_resolved, call_connected, call_read, call_close, call_closed, call_exec,
  call_prepare_statement, call_set_keyspace, run, Reaches, start_here, and_then,
}
use uv_client_server.Connection.Once.{Tracks, Waits, wakeups, quiet, started, started-Waits}
use uv_client_server.Connection.Once.Sends.{Sent, send_message-Tracks, event_received-Tracks}
use uv_client_server.Connection.Once.Receives.{on_message-Tracks}

module _ (alloc : Allocator) where
  take_message-Tracks :
      (c : Connection) (m : Message) → Tracks c → Yields Tracks (take_message alloc c m)
  unfolding take_message
  take_message-Tracks c m t =
      Yields-if m.body_ready
        (on_message-Tracks alloc (record c { incoming = new_message alloc }) m t) (Yields-ok t)

  consume_loop-Tracks :
      (rounds : ℕ) (c : Connection) (buffer : Bytes) (remaining : ℕ)
      → Tracks c
      → Yields Tracks (consume_loop alloc rounds c buffer remaining)
  unfolding consume_loop
  consume_loop-Tracks zero c buffer remaining t =
      Yields-if (remaining == 0) (Yields-ok t) Yields-err
  consume_loop-Tracks (suc rounds) c buffer remaining t = elim (Bool-cases (remaining == 0)) [
    | inl done ↦ rw (done, consume_loop) (Yields-ok t)
    | inr more ↦
        rw (more, consume_loop)
          (Yields-any (Message.consume alloc c.incoming buffer remaining) λ r.
            Yields-bind (take_message alloc c r.0) (take_message-Tracks c r.0 t)
              λ d t'. consume_loop-Tracks rounds d (drop r.1 buffer) (remaining - r.1) t')
  ]

module _ (alloc : Allocator) (null_string : Result Bytes) where
  -- The connection behind the start of a call, and the place of its request.
  abbrev Started : Connection × ℕ → Type 0
  Started r = Tracks r.0 × Waits r.1 r.0.stream_storage r.0.requests

  start-Started :
      (c : Connection) (fill : Request → Request)
      → ((q : Request) → (fill q).flag ≡ q.flag)
      → Tracks c
      → Yields Started (start alloc null_string c fill)
  unfolding start new_request
  start-Started c fill keeps t =
      Yields-bind {P = λ q. q.flag ≡ false} (new_request null_string)
        (Yields-any null_string λ content. Yields-ok refl)
        λ q fresh.
          Yields-ok
            (started t (fill q) (keeps q ∙ fresh), started-Waits t (fill q) (keeps q ∙ fresh))

  report-Tracks :
      (r : Connection × Option Error) (q : ℕ)
      → Sent r
      → Yields Tracks (report alloc null_string r.0 q r.1)
  unfolding report
  report-Tracks (c, none) q (t, e) = Yields-ok t
  report-Tracks (c, some error) q (t, e) = cc

  run-Tracks :
      (call : Call alloc null_string) (c : Connection)
      → Tracks c
      → Yields Tracks (run alloc null_string call c)
  unfolding run init on_resolve on_connect on_read close on_close set_keyspace exec prepare
      Incoming.consume event_received
  run-Tracks (call_init connect keyspace) c t = event_received-Tracks alloc c.state _ t
  run-Tracks (call_resolved true) c t = Yields-ok t
  run-Tracks (call_resolved false) c t =
      event_received-Tracks alloc resolved (record c { state = resolved }) t
  run-Tracks (call_connected true) c t = Yields-ok t
  run-Tracks (call_connected false) c t =
      event_received-Tracks alloc connected (record (emit c read_start) { state = connected })
        (quiet t _ (λ r. refl))
  run-Tracks (call_read none) c t = Yields-ok (quiet t _ (λ r. refl))
  run-Tracks (call_read (some buf)) c t =
      consume_loop-Tracks alloc (length buf) c buf (length buf) t
  run-Tracks call_close c t = Yields-ok (quiet t _ (λ r. refl))
  run-Tracks call_closed c t =
      event_received-Tracks alloc disconnected (record c { state = disconnected }) t
  run-Tracks (call_exec m callback) c t =
      Yields-bind {P = λ r. Tracks r.0} _
        (Yields-bind _ (start-Started c _ (λ q. refl) t) λ r₁ s.
          Yields-bind _ (send_message-Tracks alloc r₁.0 m (some r₁.1) s.0 s.1)
            λ r₂ sent. Yields-bind _ (report-Tracks r₂ r₁.1 sent) λ c₃ t₃. Yields-ok t₃)
        λ r t'. Yields-ok t'
  run-Tracks (call_prepare_statement statement size callback) c t =
      Yields-bind {P = λ r. Tracks r.0} _
        (Yields-bind _ (start-Started c _ (λ q. refl) t) λ r₁ s.
          Yields-any (new_message_with alloc opcode_prepare) λ m.
            Yields-bind _ (send_message-Tracks alloc r₁.0 _ (some r₁.1) s.0 s.1)
              λ r₂ sent. Yields-bind _ (report-Tracks r₂ r₁.1 sent) λ c₃ t₃. Yields-ok t₃)
        λ r t'. Yields-ok t'
  run-Tracks (call_set_keyspace keyspace) c t =
      Yields-any (new_message_with alloc opcode_query)
        λ m. Yields-bind _ (send_message-Tracks alloc c _ none t tt) λ r sent. Yields-ok sent.0

  Reaches-Tracks : {c c' : Connection} → Tracks c → Reaches alloc null_string c c' → Tracks c'
  Reaches-Tracks t start_here = t
  Reaches-Tracks t (and_then {c₁} {c₂} call before returned) =
      (run-Tracks call c₁ (Reaches-Tracks t before)).holds c₂ returned

  new_connection-Tracks : Tracks (new_connection alloc)
  unfolding new_connection
  new_connection-Tracks = record {
    valid = new_storage-Inv last_stream;
    pending = λ j r e. cc (e, outstanding-new_storage {S = RequestPointer} 127 j);
    single = λ j k r e f. cc (e, outstanding-new_storage {S = RequestPointer} 127 j);
    once = λ r request there. cc;
    none_later = λ r h. refl;
  }

  -- A connection from its constructor on, under any calls of its handlers and its methods, in any
  -- order, with any bytes read, as long as each call returns. A request that is done was woken once
  -- if it has a callback, and any other request not at all. A request in flight is there and is not
  -- done; and no request is in flight on two streams.
  pub woken_once :
      {c : Connection}
      → Reaches alloc null_string (new_connection alloc) c
      → ((r : ℕ) (request : Request)
          → get_elem? c.requests r ≡ some request
          → wakeups r c.effects ≡ (if request.flag && request.callback then 1 else 0))
        × ((j r : ℕ)
            → outstanding c.stream_storage j ≡ some (some r)
            → (request : Request) × (get_elem? c.requests r ≡ some request)
              × (request.flag ≡ false))
        × ((j k r : ℕ)
            → outstanding c.stream_storage j ≡ some (some r)
            → outstanding c.stream_storage k ≡ some (some r)
            → j ≡ k)
  woken_once reached =
      let t = Reaches-Tracks new_connection-Tracks reached in (t.once, t.pending, t.single)
