-- ===== src/SslContext/Settings.antt =====
-- include/cql_ssl_context.hpp: the set-up of the SSL_CTX. The start of the OpenSSL library, and its
-- debugging, are left out.
use uv_client_server.Base.{ℕ, Bool, Option, none, some, Result, ok, err, bad_pointer, codes}
use uv_client_server.Memory.{Bytes}

-- A callback for the verification, by a number if it is not the default one.
pub data Verify : Type 0 where
  default_verify : Verify
  custom_verify : ℕ → Verify

-- What an SSL_CTX was told.
pub record SslCtx : Type 0 where
  pub client : Bool
  pub cipher_list : Bytes
  pub verify : Verify

-- The fields of an SSLContext but for its store; the callback for PEM by a number.
pub record Settings : Type 0 where
  pub pem_callback : Option ℕ
  pub verify_callback : Verify
  pub ssl_ctx : Option SslCtx

abbrev pub new_settings : Settings
new_settings = record { pem_callback = none; verify_callback = default_verify; ssl_ctx = none }

abbrev pub default_ciphers : Bytes
default_ciphers = codes "AES256-SHA:TLSv1+HIGH:!SSLv2:!aNULL:!eNULL:!3DES:@STRENGTH"

-- init
unfoldable pub init_settings : Settings → (client : Bool) → Settings
init_settings s client = record s {
  ssl_ctx =
      some (record { client = client; cipher_list = default_ciphers; verify = s.verify_callback });
}

-- A call on `_ssl_ctx`, which is NULL before `init`.
abbrev pub on_ctx : Settings → (SslCtx → SslCtx) → Result Settings
on_ctx s f = elim s.ssl_ctx [
  | none ↦ err bad_pointer
  | some ctx ↦ ok (record s { ssl_ctx = some (f ctx) })
]

unfoldable pub ciphers : Settings → Bytes → Result Settings
ciphers s list = on_ctx s (λ ctx. record ctx { cipher_list = list })

unfoldable pub set_pem_callback : Settings → ℕ → Settings
set_pem_callback s callback = record s { pem_callback = some callback }

unfoldable pub set_verify_callback : Settings → Verify → Result Settings
set_verify_callback s callback =
    on_ctx (record s { verify_callback = callback }) (λ ctx. record ctx { verify = callback })
