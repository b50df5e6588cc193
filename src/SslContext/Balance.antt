-- ===== src/SslContext/Balance.antt =====
-- include/cql_ssl_context.hpp: what the calls leave allocated.
use uv_client_server.Base.{
  ℕ, ◌+◌, ◌≡◌, ◌≢◌, ◌⊎◌, Result, ok, err, bad_pointer, refl, inl, inr, if◌then◌else◌, arith,
}
use uv_client_server.Memory.{Bytes}
use uv_client_server.SslContext.{
  Pem, Live, CaStore, indeterminate, null, store, ensure_store, on_store, SslContext, load_bio,
  load_pem_cert, add_ca, add_crl, use_key, use_cert,
}

-- The objects that are live, and one BIO more if the input could not be written to it.
abbrev pub leaked : {X509 Crl Key : Type 0} → Pem X509 Crl Key → Bytes → Live → Live
leaked pem input live = if pem.bio_write input then live else record live { bios = live.bios + 1 }

-- `add_ca` makes the store when there is none.
abbrev pub with_store : CaStore → Live → Live
with_store null live = record live { stores = live.stores + 1 }
with_store _ live = live

add_ca_balance :
    {X509 Crl Key : Type 0} (pem : Pem X509 Crl Key) (c : SslContext X509 Crl Key) (input : Bytes)
    → c.ca_store ≢ indeterminate
    → (r : SslContext X509 Crl Key × ℕ) × (add_ca pem c input ≡ ok r)
      × (r.0.live ≡ leaked pem input (with_store c.ca_store c.live))
      × (r.0.ca_store ≡ store)
unfolding add_ca ensure_store load_pem_cert load_bio
add_ca_balance {X509} {Crl} {Key} pem c input assigned = by_result (add_ca pem c input) refl
  where
    by_result :
        (x : Result (SslContext X509 Crl Key × ℕ))
        → add_ca pem c input ≡ x
        → (r : SslContext X509 Crl Key × ℕ) × (add_ca pem c input ≡ ok r)
          × (r.0.live ≡ leaked pem input (with_store c.ca_store c.live))
          × (r.0.ca_store ≡ store)
    by_result (ok r) e = (r, e, ground arith, ground arith)
    by_result (err f) e = absurd (ground arith)

add_crl_balance :
    {X509 Crl Key : Type 0} (pem : Pem X509 Crl Key) (c : SslContext X509 Crl Key) (input : Bytes)
    → c.ca_store ≢ indeterminate
    → ((r : SslContext X509 Crl Key × ℕ) × (add_crl pem c input ≡ ok r)
        × (r.0.live ≡ leaked pem input c.live))
      ⊎ ((add_crl pem c input ≡ err bad_pointer) × (c.ca_store ≡ null))
unfolding add_crl on_store load_bio
add_crl_balance {X509} {Crl} {Key} pem c input assigned = by_result (add_crl pem c input) refl
  where
    by_result :
        (x : Result (SslContext X509 Crl Key × ℕ))
        → add_crl pem c input ≡ x
        → ((r : SslContext X509 Crl Key × ℕ) × (add_crl pem c input ≡ ok r)
            × (r.0.live ≡ leaked pem input c.live))
          ⊎ ((add_crl pem c input ≡ err bad_pointer) × (c.ca_store ≡ null))
    by_result (ok r) e = inl (r, e, ground arith)
    by_result (err f) e = inr (ground arith, ground arith)

-- A call of `add_ca`, `add_crl`, `use_key` or `use_cert` with an `_ca_store` that was assigned. Each
-- frees what it has allocated on each of its paths, but for one BIO when the input cannot be written
-- to it, and for the store that `add_ca` makes when there is none and leaves to the SSL_CTX. `add_ca`
-- always comes back; so does `add_crl` with a store, and without one it either reads no CRL and comes
-- back or calls OpenSSL on a null store.
pub live_balance :
    {X509 Crl Key : Type 0} (pem : Pem X509 Crl Key) (c : SslContext X509 Crl Key)
    (input passphrase : Bytes)
    → c.ca_store ≢ indeterminate
    → ((r : SslContext X509 Crl Key × ℕ) × (add_ca pem c input ≡ ok r)
        × (r.0.live ≡ leaked pem input (with_store c.ca_store c.live))
        × (r.0.ca_store ≡ store))
      × (((r : SslContext X509 Crl Key × ℕ) × (add_crl pem c input ≡ ok r)
            × (r.0.live ≡ leaked pem input c.live))
          ⊎ ((add_crl pem c input ≡ err bad_pointer) × (c.ca_store ≡ null)))
      × ((use_key pem c input passphrase).0.live ≡ leaked pem input c.live)
      × ((use_cert pem c input).0.live ≡ leaked pem input c.live)
unfolding add_ca ensure_store use_key use_cert load_pem_cert load_bio
live_balance pem c input passphrase assigned = (
  add_ca_balance pem c input assigned,
  add_crl_balance pem c input assigned,
  ground arith,
  ground arith,
)
