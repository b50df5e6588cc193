-- ===== src/Connection/Tls.antt =====
-- include/cql_client_connection.hpp, for a connection with TLS (`ssl_` is not NULL): what it does
-- with the bytes that are read, and its handshake.
pub mod Loop
pub mod Feeding
pub mod Stuck
use uv_client_server.Base.{
  ℕ, zero, suc, ◌-◌, ◌≡◌, List, [], ◌∷◌, Bool, true, false, not, ◌&&◌, Option, none, some, Result,
  ok, err, no_rounds, ◌>>=◌, length, take, drop, if◌then◌else◌, ltb, ◌==◌,
}
use uv_client_server.Memory.{Bytes, Allocator}
use uv_client_server.Connection.{
  Connection, State, fresh, resolved, connected, read_start, write, emit, new_connection,
}
use uv_client_server.Connection
use uv_client_server.Connection.Handlers
use uv_client_server.Connection.Handlers.{on_state, close}
use uv_client_server.Connection.Incoming.{consume}
use uv_client_server.SslSession
use uv_client_server.SslSession.{OpenSsl, Outputs, Step, read_write, handshake_done}

-- The connection, its session, and the field `ssl_handshake_done_`.
pub record TlsConnection (S : Type 0) : Type 0 where
  pub connection : Connection
  pub session : S
  pub ssl_handshake_done : Bool

abbrev pub no_outputs : Outputs
no_outputs = record {
  read_size = 0;
  read_output = none;
  read_output_size = 0;
  write_output = none;
  write_output_size = 0;
}

module _ {S : Type 0} (openssl : OpenSsl S) (alloc : Allocator) where
  -- The constructor. It drops what `init` returns.
  unfoldable pub new_tls_connection : S → TlsConnection S
  new_tls_connection session = record {
    connection = new_connection alloc;
    session = SslSession.handshake openssl alloc (SslSession.init openssl alloc session).0 true;
    ssl_handshake_done = false;
  }

  -- if (read_output && read_output_size)
  unfoldable pub on_plain :
      (read_output : Option Bytes) (read_output_size : ℕ) → Connection → Result Connection
  on_plain none n c = ok c
  on_plain (some array) n c = if n == 0 then ok c else consume alloc c array n

  -- if (write_output && write_output_size)
  unfoldable pub on_cipher :
      (write_output : Option Bytes) (write_output_size : ℕ) → Connection → Connection
  on_cipher none n c = c
  on_cipher (some array) n c = if n == 0 then c else emit c (write (take n array))

  -- if (!connection->ssl_handshake_done_)
  unfoldable pub check_handshake : TlsConnection S → Result (TlsConnection S)
  check_handshake c =
      if not c.ssl_handshake_done && handshake_done openssl alloc c.session
      then (do
        connection ←
            on_state alloc State.handshake (record c.connection { state = State.handshake })
        ok (record c { connection = connection }))
      else ok c

  -- One round of the loop of `on_read`: up to the last `if`, and what of the input was read.
  unfoldable pub round : TlsConnection S → Bytes → Result (TlsConnection S × ℕ)
  round c input = do
    step ← read_write openssl alloc c.session input [] no_outputs
    connection ← on_plain step.outputs.read_output step.outputs.read_output_size c.connection
    ok (
      record c {
        connection = on_cipher step.outputs.write_output step.outputs.write_output_size connection;
        session = step.session;
      },
      step.outputs.read_size,
    )

  -- The loop, for at most the given rounds.
  unfoldable pub read_loop : ℕ → TlsConnection S → Bytes → Result (TlsConnection S)
  read_loop zero c input = err no_rounds
  read_loop (suc rounds) c input = round c input >>= λ r. elim (ltb r.1 (length input)) [
    | true ↦ check_handshake r.0 >>= λ c'. read_loop rounds c' (drop r.1 input)
    | false ↦ ok r.0
  ]

  -- A round for each byte, and one more. `none` is a failed read, `nread == -1`.
  unfoldable pub on_read : TlsConnection S → Option Bytes → Result (TlsConnection S)
  on_read c none = ok (record c { connection = close c.connection })
  on_read c (some buf) = read_loop (suc (length buf)) c buf

  -- A read of nothing makes the first message to the server.
  unfoldable pub ssl_handshake : TlsConnection S → Result (TlsConnection S)
  ssl_handshake c = on_read c (some [])

  unfoldable pub event_received : TlsConnection S → Result (TlsConnection S)
  event_received c = elim c.connection.state [
    | State.connected ↦ ssl_handshake c
    | _ ↦ (do
      connection ← Handlers.event_received alloc c.connection
      ok (record c { connection = connection }))
  ]

  unfoldable pub on_connect : TlsConnection S → (failure : Bool) → Result (TlsConnection S)
  on_connect c true = ok c
  on_connect c false =
      event_received (record c {
        connection = record (emit c.connection read_start) { state = State.connected };
      })
