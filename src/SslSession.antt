-- ===== src/SslSession.antt =====
-- include/cql_ssl_session.hpp: one TLS session between the socket and the connection. OpenSSL is a
-- parameter: the state of its session with the two BIOs, and the calls that the code makes.
pub mod Steps
use uv_client_server.Base.{
  ℕ, zero, suc, ◌%◌, ◌^◌, List, [], ◌∷◌, Bool, true, false, not, ◌||◌, Option, none, some, Result,
  ok, err, bad_alloc, ◌>>=◌, length, take, if◌then◌else◌, ltb, ◌==◌, is_negative, int32-to_size,
}
use uv_client_server.Memory.{Bytes, Allocator, new_char}
use uv_client_server.Errors.{Error, source_ssl}
use uv_client_server.Serialization.{int32}

-- Status codes are ints. A read gets the array that it fills and the number of bytes asked for, and
-- gives the array back.
pub record OpenSsl (S : Type 0) : Type 0 where
  -- Whether SSL_new gave a session; BIO_new_bio_pair, BIO_new and the two calls that set the BIOs
  pub has_ssl : S → Bool
  pub new_bio_pair : S → Option S
  pub new_ssl_bio : S → Option S
  pub set_bios : S → S
  -- BIO_write, BIO_ctrl_pending and BIO_read on ssl_bio
  pub ssl_write : S → Bytes → S × ℕ
  pub ssl_pending : S → ℕ
  pub ssl_read : S → Bytes → ℕ → S × Bytes × ℕ
  -- BIO_get_write_guarantee, BIO_write, BIO_ctrl_pending and BIO_read on network_bio
  pub write_guarantee : S → ℕ
  pub network_write : S → Bytes → S × ℕ
  pub network_pending : S → ℕ
  pub network_read : S → Bytes → ℕ → S × Bytes × ℕ
  -- SSL_get_error, ERR_error_string_n, SSL_is_init_finished, and the calls of `handshake`
  pub get_error : S → ℕ → ℕ
  pub error_string : ℕ → Bytes
  pub is_init_finished : S → Bool
  pub set_connect_state : S → S
  pub set_accept_state : S → S
  pub do_handshake : S → S

abbrev pub error_none : ℕ
error_none = 0

abbrev pub error_want_read : ℕ
error_want_read = 2

-- The arguments of `read_write` that it assigns to. An array that is not `NULL` is `some`.
pub record Outputs : Type 0 where
  pub read_size : ℕ
  pub read_output : Option Bytes
  pub read_output_size : ℕ
  pub write_output : Option Bytes
  pub write_output_size : ℕ

-- A session on its way through `read_write`, and the error with which that has returned.
pub record Step (S : Type 0) : Type 0 where
  pub session : S
  pub outputs : Outputs
  pub error : Option Error

module _ {S : Type 0} (openssl : OpenSsl S) (alloc : Allocator) where
  unfoldable pub init : S → S × Bool
  init ssl =
      if openssl.has_ssl ssl
      then (elim (openssl.new_bio_pair ssl) [
        | none ↦ (ssl, false)
        | some ssl₁ ↦ elim (openssl.new_ssl_bio ssl₁) [
          | none ↦ (ssl₁, false)
          | some ssl₂ ↦ (openssl.set_bios ssl₂, true)
        ]
      ])
      else (ssl, false)

  unfoldable pub handshake : S → (client : Bool) → S
  handshake ssl client =
      openssl.do_handshake
        (if client then openssl.set_connect_state ssl else openssl.set_accept_state ssl)

  unfoldable pub handshake_done : S → Bool
  handshake_done ssl = openssl.is_init_finished ssl

  -- CQL_SSL_CHECK_ERROR
  unfoldable pub check_error : S → ℕ → Option Error
  check_error ssl input =
      let error = openssl.get_error ssl input in
      if error == error_none || error == error_want_read
      then none
      else some (record { source = source_ssl; code = error; message = openssl.error_string error })

  -- new char[n], for an int
  unfoldable pub new_array : ℕ → Result Bytes
  new_array n = if is_negative n then err bad_alloc else ok (new_char alloc n)

  -- The four parts of `read_write`, in order.
  unfoldable pub encrypt : Bytes → Outputs → S → Result (Step S)
  encrypt write_input out ssl =
      if length write_input == 0
      then ok (record { session = ssl; outputs = out; error = none })
      else (let (ssl', status) = openssl.ssl_write ssl write_input in
          ok (record { session = ssl'; outputs = out; error = check_error ssl' status }))

  unfoldable pub decrypt : Outputs → S → Result (Step S)
  decrypt out ssl =
      let pending = int32 (openssl.ssl_pending ssl) in
      if pending == 0 then ok (record { session = ssl; outputs = out; error = none }) else (do
        array ← new_array pending
        let (ssl', array', status) = openssl.ssl_read ssl array pending
        ok (record {
          session = ssl';
          outputs = record out {
            read_output = some array';
            read_output_size = int32-to_size status;
          };
          error = check_error ssl' status;
        }))

  unfoldable pub feed : Bytes → Outputs → S → Result (Step S)
  feed read_input out ssl =
      let room = openssl.write_guarantee ssl in
      if length read_input == 0 || room == 0
      then ok (record { session = ssl; outputs = record out { read_size = 0 }; error = none })
      else (let read_size = if ltb (length read_input) room then length read_input else room in
          let (ssl', status) = openssl.network_write ssl (take read_size read_input) in
          ok (record {
            session = ssl';
            outputs = record out { read_size = read_size };
            error = check_error ssl' status;
          }))

  unfoldable pub drain : Outputs → S → Result (Step S)
  drain out ssl =
      let pending = openssl.network_pending ssl in
      if pending == 0
      then ok
          (record { session = ssl; outputs = record out { write_output_size = 0 }; error = none })
      else (let (ssl', array', status) =
            openssl.network_read ssl (new_char alloc pending) pending in
          ok (record {
            session = ssl';
            outputs = record out { write_output = some array'; write_output_size = pending };
            error = check_error ssl' status;
          }))

  -- The next part, unless an error has been returned.
  abbrev pub go_on : (Outputs → S → Result (Step S)) → Step S → Result (Step S)
  go_on part step = elim step.error [ none ↦ part step.outputs step.session | some e ↦ ok step ]

  unfoldable pub read_write : S → (read_input write_input : Bytes) → Outputs → Result (Step S)
  read_write ssl read_input write_input out =
      encrypt write_input out ssl >>= go_on decrypt >>= go_on (feed read_input) >>= go_on drain
