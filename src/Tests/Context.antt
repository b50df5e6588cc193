-- ===== src/Tests/Context.antt =====
-- The loading of certificates and keys, with a small OpenSSL.
use uv_client_server.Base.{
  ℕ, ◌≡◌, ◌⊎◌, ok, err, bad_pointer, [], true, none, some, if◌then◌else◌, length, codes, leb,
}
use uv_client_server.Memory.{Bytes}
use uv_client_server.SslContext.{Pem, SslContext, null, store, add_ca, add_crl, use_key, use_cert}
use uv_client_server.SslContext.Balance.{leaked, with_store, live_balance}

-- It takes what is not empty, and reads what has more than two bytes.
abbrev small : Pem Bytes Bytes Bytes
small = record {
  bio_write = λ b. leb 1 (length b);
  read_x509 = λ b. if leb 3 (length b) then some b else none;
  read_crl = λ b. if leb 3 (length b) then some b else none;
  read_key = λ passphrase b. if leb 3 (length b) then some b else none;
  use_certificate = λ b. true;
  use_rsa_key = λ b. true;
}

abbrev context : SslContext Bytes Bytes Bytes
context = record {
  ca_store = null;
  authorities = [];
  revocations = [];
  private_key = none;
  certificate = none;
  live = record { bios = 0; x509s = 0; crls = 0; keys = 0; stores = 0 };
}

live_balance_example :
    ((r : SslContext Bytes Bytes Bytes × ℕ) × (add_ca small context (codes "PEM") ≡ ok r)
      × (r.0.live ≡ leaked small (codes "PEM") (with_store null context.live))
      × (r.0.ca_store ≡ store))
    × (((r : SslContext Bytes Bytes Bytes × ℕ) × (add_crl small context (codes "PEM") ≡ ok r)
          × (r.0.live ≡ leaked small (codes "PEM") context.live))
        ⊎ ((add_crl small context (codes "PEM") ≡ err bad_pointer) × (context.ca_store ≡ null)))
    × ((use_key small context (codes "PEM") []).0.live ≡ leaked small (codes "PEM") context.live)
    × ((use_cert small context (codes "PEM")).0.live ≡ leaked small (codes "PEM") context.live)
live_balance_example = live_balance small context (codes "PEM") [] (λ e. cc)
