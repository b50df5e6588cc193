-- ===== src/Connection/Tls/Feeding.antt =====
-- include/cql_client_connection.hpp: what a connection with TLS reads goes to its session.
use uv_client_server.Base.{ℕ, ◌<◌, ◌≡◌, ◌⊎◌, ◌++◌, Result, Fault, ok, err, no_rounds, length}
use uv_client_server.Memory.{Bytes, Allocator}
use uv_client_server.Connection.{Connection, State}
use uv_client_server.Connection.Handlers.{on_state}
use uv_client_server.Connection.Incoming.{consume}
use uv_client_server.SslSession.{OpenSsl}
use uv_client_server.SslSession.Steps.{IsHealthy}
use uv_client_server.Connection.Tls.{TlsConnection}

module _ (alloc : Allocator) where
  -- The fault is one of a call of `consume` on deciphered bytes, or of the messages that follow the
  -- end of the handshake.
  pub data CausedBy (e : Fault) : Type 0 where
    by_consume :
        (c : Connection) (plain : Bytes) (n : ℕ) → consume alloc c plain n ≡ err e → CausedBy e
    by_handshake : (c : Connection) → on_state alloc State.handshake c ≡ err e → CausedBy e

module _ {S : Type 0} (openssl : OpenSsl S) (alloc : Allocator) (fed : S → Bytes) where
  -- A session that has no room while some of the input is left: it was given what is before that.
  pub record Starved (input : Bytes) (c : TlsConnection S) : Type 0 where
    pub given : Bytes
    pub left : Bytes
    pub split : given ++ left ≡ input
    pub some_left : 0 < length left
    pub full : S
    pub no_room : openssl.write_guarantee full ≡ 0
    pub so_far : fed full ≡ fed c.session ++ given

  -- A step that returns with the input fed to the session, or fails for such a reason.
  abbrev pub Feeds : Bytes → TlsConnection S → Result (TlsConnection S) → Type 0
  Feeds input c r =
      ((c' : TlsConnection S) × (r ≡ ok c') × (fed c'.session ≡ fed c.session ++ input))
      ⊎ ((e : Fault) × (r ≡ err e) × CausedBy alloc e)
      ⊎ ((r ≡ err no_rounds) × Starved input c)

  module _ (healthy : IsHealthy openssl alloc fed) where
    -- The same for a number of rounds; where these are more than the bytes, the session starved.
    Runs : ℕ → Bytes → TlsConnection S → Result (TlsConnection S) → Type 0
    Runs rounds input c r =
        ((c' : TlsConnection S) × (r ≡ ok c') × (fed c'.session ≡ fed c.session ++ input))
        ⊎ ((e : Fault) × (r ≡ err e) × CausedBy alloc e)
        ⊎ ((r ≡ err no_rounds) × (length input < rounds → Starved input c))
