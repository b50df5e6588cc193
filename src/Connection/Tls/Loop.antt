-- ===== src/Connection/Tls/Loop.antt =====
-- include/cql_client_connection.hpp: one round of the loop of `on_read` with TLS.
use uv_client_server.Base.{
  ℕ, suc, ◌≡◌, refl, ap, Bool, true, false, Result, Fault, ok, err, ◌>>=◌, length, drop, ltb,
}
use uv_client_server.Memory.{Bytes, Allocator}
use uv_client_server.SslSession.{OpenSsl}
use uv_client_server.Connection.Tls.{TlsConnection, check_handshake, round, read_loop}

module _ {S : Type 0} (openssl : OpenSsl S) (alloc : Allocator) (rounds : ℕ) (c : TlsConnection S)
    (input : Bytes) where
  pub loop_failed :
      {e : Fault}
      → round openssl alloc c input ≡ err e
      → read_loop openssl alloc (suc rounds) c input ≡ err e
  unfolding read_loop
  loop_failed bad = rw bad refl

  unfoldable pub after : TlsConnection S → ℕ → Bool → Result (TlsConnection S)
  after c' n b = elim b [
    | true ↦ check_handshake openssl alloc c' >>= λ c''.
        read_loop openssl alloc rounds c'' (drop n input)
    | false ↦ ok c'
  ]

  pub loop_on :
      {c' : TlsConnection S} {n : ℕ} {b : Bool}
      → round openssl alloc c input ≡ ok (c', n)
      → ltb n (length input) ≡ b
      → read_loop openssl alloc (suc rounds) c input ≡ after c' n b
  unfolding read_loop after
  loop_on {c'} {n} good test = rw good (ap (after c' n) test)
