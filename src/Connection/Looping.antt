-- ===== src/Connection/Looping.antt =====
-- include/cql_client_connection.hpp: the loop over the bytes of a read, whatever these are.
use uv_client_server.Base.{
  ℕ, zero, suc, ◌-◌, ◌^◌, ◌<◌, ◌≤◌, ◌≡◌, refl, sym, subst, inl, inr, true, false, none, some,
  Result, Fault, ok, err, ◌>>=◌, ◌==◌, arith, length, drop, length-drop, Bool-cases, Yields,
  Yields-ok, Yields-err, Yields-test, Yields-bind, Yields-any,
}
use uv_client_server.Memory.{Bytes, Allocator}
use uv_client_server.StreamStorage.Inv.{new_storage-Inv}
use uv_client_server.Message.{Message, new_message, new_message_with}
use uv_client_server.Message
use uv_client_server.Message.Progress.{Incomplete, Progress, consume-Progress}
use uv_client_server.Opcode.{opcode_query}
use uv_client_server.Connection.{
  Connection, connected, resolved, disconnected, emit, read_start, new_connection,
}
use uv_client_server.Connection.Handlers.{init, on_resolve, on_connect, on_close, close}
use uv_client_server.Connection.Incoming
use uv_client_server.Connection.Incoming.{on_message, take_message, consume_loop, on_read}
use uv_client_server.Connection.Calls.{set_keyspace}
use uv_client_server.Connection.Sending.{last_stream}
use uv_client_server.Connection.Received.{on_message-Valid}
use uv_client_server.Connection.Inv.{Valid, Ordered, send_message-Valid, event_received-Valid}
use uv_client_server.Connection.Reach.{
  Call, call_init, call_resolved, call_connected, call_read, call_close, call_closed, call_exec,
  call_prepare_statement, call_set_keyspace, run, Reaches, start_here, and_then, exec-Valid,
  prepare-Valid,
}

module _ (alloc : Allocator) where
  -- `while (remaining != 0)`, with no bound on its rounds: the result that it comes to.
  pub data Loops : Connection → Bytes → ℕ → Result Connection → Type 0 where
    done : {c : Connection} {buffer : Bytes} → Loops c buffer 0 (ok c)
    consume_fails :
        {c : Connection} {buffer : Bytes} {remaining : ℕ} {e : Fault}
        → 0 < remaining
        → Message.consume alloc c.incoming buffer remaining ≡ err e
        → Loops c buffer remaining (err e)
    handling_fails :
        {c : Connection} {buffer : Bytes} {remaining : ℕ} {e : Fault} {r : Message × ℕ}
        → 0 < remaining
        → Message.consume alloc c.incoming buffer remaining ≡ ok r
        → take_message alloc c r.0 ≡ err e
        → Loops c buffer remaining (err e)
    round :
        {c c' : Connection} {buffer : Bytes} {remaining : ℕ} {r : Message × ℕ}
        {out : Result Connection}
        → 0 < remaining
        → Message.consume alloc c.incoming buffer remaining ≡ ok r
        → take_message alloc c r.0 ≡ ok c'
        → (0 < r.1) × (r.1 ≤ remaining)
        → Loops c' (drop r.1 buffer) (remaining - r.1) out
        → Loops c buffer remaining out

  -- The streams are in order, and bytes are missing from the incoming message.
  abbrev pub Awaits : Connection → Type 0
  Awaits c = Ordered c × Incomplete c.incoming

  new_message-Incomplete : Incomplete (new_message alloc)
  unfolding new_message
  new_message-Incomplete = record {
    pattern = omega arith;
    with_header = λ e. cc;
    without_header = λ e. refl;
  }

  take_message-Awaits :
      (c : Connection) (m : Message)
      → Ordered c
      → (m.body_ready ≡ false → Incomplete m)
      → Yields Awaits (take_message alloc c m)
  unfolding take_message
  take_message-Awaits c m v waits =
      Yields-test m.body_ready
        (λ ready. record {
          holds = λ d e.
              let (v', is) =
                (on_message-Valid alloc (record c { incoming = new_message alloc }) m
                    (v, refl)).holds
                  d e in
              (v', subst Incomplete (sym is) new_message-Incomplete);
        })
        (λ missing. Yields-ok (v, waits missing))

  -- The loop comes to a result, and a connection in it awaits the next read.
  abbrev Ends : Connection → Bytes → ℕ → Result Connection → Type 0
  Ends c buffer remaining out = Loops c buffer remaining out × Yields Awaits out

  module _ (rounds : ℕ)
      (rest : (c : Connection) (buffer : Bytes) (remaining : ℕ)
        → Awaits c
        → remaining ≡ length buffer
        → remaining ≤ rounds
        → remaining < 2 ^ 31
        → Ends c buffer remaining (consume_loop alloc rounds c buffer remaining))
      (c : Connection) (buffer : Bytes) (a : Awaits c) (some_there : 0 < length buffer)
      (enough : length buffer ≤ suc rounds) (few : length buffer < 2 ^ 31) where
    handled-Ends :
        (r : Message × ℕ)
        → Message.consume alloc c.incoming buffer (length buffer) ≡ ok r
        → Progress (length buffer) r
        → (x : Result Connection) → take_message alloc c r.0 ≡ x
        → Ends c buffer
            (length buffer)
            (x >>= λ c'. consume_loop alloc rounds c' (drop r.1 buffer) (length buffer - r.1))
    handled-Ends r is p (err e) taken = (handling_fails some_there is taken, Yields-err)
    handled-Ends r is p (ok c') taken =
        let a' : Awaits c' = (take_message-Awaits c r.0 a.0 p.waits).holds c' taken in
        let (loops, y) =
          rest c' (drop r.1 buffer) (length buffer - r.1) a'
            (omega (arith, length-drop r.1 buffer, p.within)) (omega (arith, p.some_taken))
            (omega arith) in
        (round some_there is taken (p.some_taken, p.within) loops, y)

    consumed-Ends :
        (x : Result (Message × ℕ))
        → Message.consume alloc c.incoming buffer (length buffer) ≡ x
        → Ends c buffer (length buffer) (
            x >>= λ r. take_message alloc c r.0 >>= λ c'.
            consume_loop alloc rounds c' (drop r.1 buffer) (length buffer - r.1))
    consumed-Ends (err e) is = (consume_fails some_there is, Yields-err)
    consumed-Ends (ok r) is =
        handled-Ends r is ((consume-Progress alloc c.incoming buffer a.1 some_there few).holds r is)
          (take_message alloc c r.0) refl

  consume_loop-Ends :
      (rounds : ℕ) (c : Connection) (buffer : Bytes) (remaining : ℕ)
      → Awaits c
      → remaining ≡ length buffer
      → remaining ≤ rounds
      → remaining < 2 ^ 31
      → Ends c buffer remaining (consume_loop alloc rounds c buffer remaining)
  unfolding consume_loop
  consume_loop-Ends zero c buffer remaining a e enough few =
      let none_left : 0 ≡ remaining = omega arith in
      subst (λ n. Ends c buffer n (consume_loop alloc 0 c buffer n)) none_left (done, Yields-ok a)
  consume_loop-Ends (suc rounds) c buffer remaining a e enough few =
      elim (Bool-cases (remaining == 0)) [
        | inl over ↦
            let none_left : 0 ≡ remaining = ground arith in
            subst (λ n. Ends c buffer n (consume_loop alloc (suc rounds) c buffer n)) none_left
              (done, Yields-ok a)
        | inr more ↦
            let some_left : (length buffer == 0) ≡ false = ground (arith, e) in
            subst (λ n. Ends c buffer n (consume_loop alloc (suc rounds) c buffer n)) (sym e)
              (rw (some_left, consume_loop)
                (consumed-Ends rounds (consume_loop-Ends rounds) c buffer a (ground arith)
                  (omega arith) (omega arith)
                  (Message.consume alloc c.incoming buffer (length buffer)) refl))
      ]

module _ (alloc : Allocator) (null_string : Result Bytes) where
  -- A call that leaves the incoming message.
  kept :
      (c : Connection) {m : Result Connection}
      → Incomplete c.incoming
      → Yields (Valid c.incoming) m
      → Yields (Awaits alloc) m
  kept c i h = record {
    holds = λ d e. let (v, is) = h.holds d e in (v, subst Incomplete (sym is) i);
  }

  -- Reads of fewer than 2^31 bytes.
  abbrev pub Short : Call alloc null_string → Type 0
  Short (call_read (some buf)) = length buf < 2 ^ 31
  Short _ = Unit

  run-Awaits :
      (call : Call alloc null_string) (c : Connection)
      → Short call
      → Awaits alloc c
      → Yields (Awaits alloc) (run alloc null_string call c)
  unfolding run init on_resolve on_connect on_read close on_close set_keyspace Incoming.consume
  run-Awaits (call_init connect keyspace) c short (v, i) =
      kept c i (event_received-Valid alloc _ (v, refl))
  run-Awaits (call_resolved true) c short a = Yields-ok a
  run-Awaits (call_resolved false) c short (v, i) =
      kept c i (event_received-Valid alloc (record c { state = resolved }) (v, refl))
  run-Awaits (call_connected true) c short a = Yields-ok a
  run-Awaits (call_connected false) c short (v, i) =
      kept c i
        (event_received-Valid alloc (record (emit c read_start) { state = connected }) (v, refl))
  run-Awaits (call_read none) c short a = Yields-ok a
  run-Awaits (call_read (some buf)) c short a =
      (consume_loop-Ends alloc (length buf) c buf (length buf) a refl (omega arith) short).1
  run-Awaits call_close c short a = Yields-ok a
  run-Awaits call_closed c short (v, i) =
      kept c i (event_received-Valid alloc (record c { state = disconnected }) (v, refl))
  run-Awaits (call_exec m callback) c short (v, i) =
      kept c i
        (Yields-bind _ (exec-Valid alloc null_string c m callback (v, refl)) λ r v'. Yields-ok v')
  run-Awaits (call_prepare_statement statement size callback) c short (v, i) = kept c i (
      Yields-bind _ (prepare-Valid alloc null_string c statement size callback (v, refl))
        λ r v'. Yields-ok v')
  run-Awaits (call_set_keyspace keyspace) c short (v, i) = kept c i (
      Yields-any (new_message_with alloc opcode_query)
        λ m. Yields-bind _ (send_message-Valid alloc c _ none (v, refl)) λ r v'. Yields-ok v')

  abbrev pub ShortReads : {c c' : Connection} → Reaches alloc null_string c c' → Type 0
  ShortReads start_here = Unit
  ShortReads (and_then call before returned) = ShortReads before × Short call

  Reaches-Awaits :
      {c c' : Connection} (reached : Reaches alloc null_string c c')
      → ShortReads reached
      → Awaits alloc c
      → Awaits alloc c'
  Reaches-Awaits start_here short a = a
  Reaches-Awaits (and_then {c₁} {c₂} call before returned) (earlier, short) a =
      (run-Awaits call c₁ short (Reaches-Awaits before earlier a)).holds c₂ returned

  new_connection-Awaits : Awaits alloc (new_connection alloc)
  unfolding new_connection
  new_connection-Awaits = (new_storage-Inv last_stream, new_message-Incomplete alloc)

  -- A connection that calls have led to from its constructor, with reads of fewer than 2^31 bytes
  -- each, and any bytes in them: one more such read comes to an end. The `while` loop of `consume`,
  -- with no bound on its rounds, comes to the result of `on_read`: the connection, or what a call of
  -- `consume` or of a handler failed with. Each round takes at least one byte and no more than remain.
  pub on_read-Loops :
      {c : Connection} (reached : Reaches alloc null_string (new_connection alloc) c)
      → ShortReads reached
      → (buf : Bytes) → length buf < 2 ^ 31
      → Loops alloc c buf (length buf) (on_read alloc c (some buf))
  unfolding on_read Incoming.consume
  on_read-Loops {c} reached short buf few =
      (consume_loop-Ends alloc (length buf) c buf (length buf)
        (Reaches-Awaits reached short new_connection-Awaits) refl (omega arith) few).0
