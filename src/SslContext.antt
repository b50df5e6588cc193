-- ===== src/SslContext.antt =====
-- include/cql_ssl_context.hpp: the calls that load authorities, revocations, keys and certificates,
-- with what they allocate and free. OpenSSL is a parameter, whose allocations do not fail.
pub mod Balance
pub mod Making
pub mod Settings
use uv_client_server.Base.{
  ℕ, ◌+◌, ◌-◌, List, [], ◌∷◌, ◌++◌, Bool, true, false, Option, none, some, Result, ok, err,
  bad_pointer, ◌>>=◌, if◌then◌else◌,
}
use uv_client_server.Memory.{Bytes}

-- Whether BIO_write to a new memory BIO returns more than 0; what PEM_read_bio_X509,
-- PEM_read_bio_X509_CRL and PEM_read_bio_PrivateKey make of a BIO; and whether
-- SSL_CTX_use_certificate returns more than 0.
pub record Pem (X509 Crl Key : Type 0) : Type 0 where
  pub bio_write : Bytes → Bool
  pub read_x509 : Bytes → Option X509
  pub read_crl : Bytes → Option Crl
  pub read_key : (passphrase : Bytes) → Bytes → Option Key
  pub use_certificate : X509 → Bool
  -- Whether SSL_CTX_use_RSAPrivateKey returns more than 0.
  pub use_rsa_key : Key → Bool

abbrev pub no_error : ℕ
no_error = 0

abbrev pub error_ssl_cert : ℕ
error_ssl_cert = 1000000

abbrev pub error_ssl_private_key : ℕ
error_ssl_private_key = 1000001

abbrev pub error_ssl_ca_cert : ℕ
error_ssl_ca_cert = 1000002

abbrev pub error_ssl_crl : ℕ
error_ssl_crl = 1000003

-- How many objects have been allocated and not freed.
pub record Live : Type 0 where
  pub bios : ℕ
  pub x509s : ℕ
  pub crls : ℕ
  pub keys : ℕ
  pub stores : ℕ

-- `_ca_store`: the constructor does not initialise it.
pub data CaStore : Type 0 where
  indeterminate null store : CaStore

-- What the SSL_CTX and its store were given, and what is live. The SSL_CTX is there, as after `init`.
pub record SslContext (X509 Crl Key : Type 0) : Type 0 where
  pub ca_store : CaStore
  pub authorities : List X509
  pub revocations : List Crl
  pub private_key : Option Key
  pub certificate : Option X509
  pub live : Live

module _ {X509 Crl Key : Type 0} (pem : Pem X509 Crl Key) where
  -- The BIO has the bytes that were written to it.
  unfoldable pub load_bio : Bytes → Live → Live × Option Bytes
  load_bio input live =
      let live' : Live = record live { bios = live.bios + 1 } in
      if pem.bio_write input then (live', some input) else (live', none)

  abbrev pub free_bio : Live → Live
  free_bio live = record live { bios = live.bios - 1 }

  abbrev pub read_pem : Live × Option Bytes → Live × Option X509
  read_pem (live, none) = (live, none)
  read_pem (live, some bio) = elim (pem.read_x509 bio) [
    | none ↦ (free_bio live, none)
    | some x509 ↦ (free_bio (record live { x509s = live.x509s + 1 }), some x509)
  ]

  unfoldable pub load_pem_cert : Bytes → Live → Live × Option X509
  load_pem_cert input live = read_pem (load_bio input live)

  abbrev pub free_x509 : Live → Live
  free_x509 live = record live { x509s = live.x509s - 1 }

  abbrev pub with_ca : SslContext X509 Crl Key → Live × Option X509 → SslContext X509 Crl Key × ℕ
  with_ca c (live, none) = (record c { live = live }, error_ssl_ca_cert)
  with_ca c (live, some x509) =
      (record c { authorities = c.authorities ++ x509 ∷ []; live = free_x509 live }, no_error)

  -- if (!_ca_store) { … }; a test of what was never assigned is an error. The SSL_CTX gets the store.
  unfoldable pub ensure_store : SslContext X509 Crl Key → Result (SslContext X509 Crl Key)
  ensure_store c = elim c.ca_store [
    | indeterminate ↦ err bad_pointer
    | null ↦ ok (record c { ca_store = store; live = record c.live { stores = c.live.stores + 1 } })
    | store ↦ ok c
  ]

  unfoldable pub add_ca : SslContext X509 Crl Key → Bytes → Result (SslContext X509 Crl Key × ℕ)
  add_ca c input = do c' ← ensure_store c; ok (with_ca c' (load_pem_cert input c'.live))

  -- A call on the store: there is none before `add_ca`.
  unfoldable pub on_store :
      CaStore → Result (SslContext X509 Crl Key × ℕ) → Result (SslContext X509 Crl Key × ℕ)
  on_store indeterminate r = err bad_pointer
  on_store null r = err bad_pointer
  on_store store r = r

  abbrev pub with_crl :
      SslContext X509 Crl Key → Live × Option Bytes → Result (SslContext X509 Crl Key × ℕ)
  with_crl c (live, none) = ok (record c { live = live }, error_ssl_crl)
  with_crl c (live, some bio) = elim (pem.read_crl bio) [
    | none ↦ ok (record c { live = free_bio live }, error_ssl_crl)
    | some crl ↦
        let read : Live = free_bio (record live { crls = live.crls + 1 }) in
        on_store c.ca_store (
          ok (
            record c {
              revocations = c.revocations ++ crl ∷ [];
              live = record read { crls = read.crls - 1 };
            },
            no_error,
          ))
  ]

  unfoldable pub add_crl : SslContext X509 Crl Key → Bytes → Result (SslContext X509 Crl Key × ℕ)
  add_crl c input = with_crl c (load_bio input c.live)

  abbrev pub with_key :
      SslContext X509 Crl Key
      → (passphrase : Bytes) → Live × Option Bytes
      → SslContext X509 Crl Key × ℕ
  with_key c passphrase (live, none) = (record c { live = live }, error_ssl_private_key)
  with_key c passphrase (live, some bio) = elim (pem.read_key passphrase bio) [
    | none ↦ (record c { live = free_bio live }, error_ssl_private_key)
    | some key ↦
        let read : Live = record live { keys = live.keys + 1 } in
        (
          record c {
            private_key = some key;
            live = free_bio (record read { keys = read.keys - 1 });
          },
          no_error,
        )
  ]

  unfoldable pub use_key :
      SslContext X509 Crl Key → Bytes → (passphrase : Bytes) → SslContext X509 Crl Key × ℕ
  use_key c input passphrase = with_key c passphrase (load_bio input c.live)

  abbrev pub with_cert : SslContext X509 Crl Key → Live × Option X509 → SslContext X509 Crl Key × ℕ
  with_cert c (live, none) = (record c { live = live }, error_ssl_ca_cert)
  with_cert c (live, some x509) =
      if pem.use_certificate x509
      then (record c { certificate = some x509; live = free_x509 live }, no_error)
      else (record c { live = free_x509 live }, error_ssl_cert)

  unfoldable pub use_cert : SslContext X509 Crl Key → Bytes → SslContext X509 Crl Key × ℕ
  use_cert c input = with_cert c (load_pem_cert input c.live)

  -- The overloads for a key and for a certificate that are made already; they free nothing.
  unfoldable pub use_made_key : SslContext X509 Crl Key → Key → SslContext X509 Crl Key × ℕ
  use_made_key c key =
      if pem.use_rsa_key key
      then (record c { private_key = some key }, no_error)
      else (c, error_ssl_private_key)

  unfoldable pub use_made_cert : SslContext X509 Crl Key → X509 → SslContext X509 Crl Key × ℕ
  use_made_cert c x509 =
      if pem.use_certificate x509
      then (record c { certificate = some x509 }, no_error)
      else (c, error_ssl_cert)

-- default_verify_callback: every certificate is accepted, also one that did not verify.
abbrev pub default_verify_callback : (preverify_ok : ℕ) → ℕ
default_verify_callback preverify_ok = 1
