-- ===== src/Connection/Tls/Stuck.antt =====
-- include/cql_client_connection.hpp: TLS connections that do not get on.
use uv_client_server.Base.{
  ℕ, zero, suc, ◌^◌, ◌<◌, ◌≡◌, ◌≢◌, refl, sym, ◌∙◌, true, false, some, Result, ok, err, ◌>>=◌,
  length, ltb, ◌==◌, arith, is_negative,
}
use uv_client_server.Memory.{Bytes, Allocator, new_char}
use uv_client_server.Errors.{Error}
use uv_client_server.Serialization.{int32}
use uv_client_server.SslSession.{OpenSsl, read_write, encrypt, decrypt, new_array, check_error}
use uv_client_server.Connection.Tls.Loop.{after, loop_on}
use uv_client_server.Connection.Tls.{
  TlsConnection, on_plain, on_cipher, check_handshake, round, read_loop,
}

module _ {S : Type 0} (openssl : OpenSsl S) (alloc : Allocator) (failure : Error)
    (pending : (s : S) → (0 < openssl.ssl_pending s) × (openssl.ssl_pending s < 2 ^ 31))
    (status : (s : S) (array : Bytes) (n : ℕ) → (openssl.ssl_read s array n).2 ≡ 0)
    (fails : (s : S) → check_error openssl alloc s 0 ≡ some failure) where
  -- A round reads none of its input.
  round_failing :
      (c : TlsConnection S) (input : Bytes)
      → (c' : TlsConnection S) × (round openssl alloc c input ≡ ok (c', 0))
  unfolding round read_write encrypt decrypt new_array on_plain on_cipher
  round_failing c input =
      let there : (int32 (openssl.ssl_pending c.session) == 0) ≡ false =
        ground (arith, pending c.session) in
      let positive : is_negative (int32 (openssl.ssl_pending c.session)) ≡ false =
        ground (arith, pending c.session) in
      let n = int32 (openssl.ssl_pending c.session) in
      let after = (openssl.ssl_read c.session (new_char alloc n) n).0 in
      (
        record c { session = after },
        rw (there, positive, status c.session (new_char alloc n) n, fails after) refl,
      )

  -- A session that answers each BIO_read with the status 0 and an error, with bytes pending, from
  -- which `read_write` returns before it has read any input: for no number of rounds does the loop of
  -- `on_read` over a read that is not empty return a connection.
  pub read_loop_spins :
      (rounds : ℕ) (c c' : TlsConnection S) (input : Bytes)
      → 0 < length input
      → read_loop openssl alloc rounds c input ≢ ok c'
  unfolding read_loop after
  read_loop_spins zero c c' input h e = cc
  read_loop_spins (suc rounds) c c' input h e =
      let (c₁, went) = round_failing c input in
      let left : ltb 0 (length input) ≡ true = ground arith in
      not_ok (check_handshake openssl alloc c₁) (λ c₂. read_loop_spins rounds c₂ c' input h)
        (sym (loop_on openssl alloc rounds c input went left) ∙ e)
    where
      not_ok :
          (r : Result (TlsConnection S))
          → ((c₂ : TlsConnection S) → read_loop openssl alloc rounds c₂ input ≢ ok c')
          → (r >>= λ c₂. read_loop openssl alloc rounds c₂ input) ≢ ok c'
      not_ok (ok c₂) never k = never c₂ k
      not_ok (err f) never k = cc
