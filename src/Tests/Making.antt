-- ===== src/Tests/Making.antt =====
-- The making of a certificate, with a call that fails and without one.
use uv_client_server.Base.{ℕ, ◌≡◌, Bool, true, false, codes, Option, refl}
use uv_client_server.SslContext.Making.{Site, Heap, create_cert, get_evp_pkey}
use uv_client_server.SslContext.Making.Account.{Accounted, create_cert-Accounted}

abbrev empty : Heap
empty = record { rsas = 0; bignums = 0; x509s = 0; pkeys = 0; names = 0 }

-- X509_set_version fails.
abbrev no_version : Site → Bool
no_version Site.set_version = true
no_version _ = false

-- No call fails.
abbrev no_failure : Site → Bool
no_failure _ = false

create_cert-Accounted_example :
    Accounted {Rsa = ℕ} no_failure 1 2
      (codes "host")
      (codes "authority")
      (codes "Organization")
      3600
      100
      empty
      (create_cert no_failure 1 2
        (codes "host")
        (codes "authority")
        (codes "Organization")
        3600
        100
        empty)
create_cert-Accounted_example =
    create_cert-Accounted no_failure 1 2 (codes "host") (codes "authority") (codes "Organization")
      3600 100 empty

-- The two EVP_PKEYs are left.
no_version_leaks :
    create_cert {Rsa = ℕ} no_version 1 2
      (codes "host")
      (codes "authority")
      (codes "Organization")
      3600
      100
      empty
    ≡ (record empty { pkeys = 2 }, Option.none)
unfolding create_cert get_evp_pkey
no_version_leaks = refl
