-- ===== src/SslContext/Making/Account.antt =====
-- include/cql_ssl_context.hpp: what making a certificate leaves allocated.
use uv_client_server.Base.{
  ℕ, ◌+◌, ◌≤◌, ◌≡◌, [], ◌∷◌, Bool, true, not, ◌&&◌, Option, none, some, codes, arith,
}
use uv_client_server.Memory.{Bytes}
use uv_client_server.SslContext.Making.{
  Site, Heap, Certificate, Contents, create_cert, get_evp_pkey, make_name,
}

module _ {Rsa : Type 0} (fails : Site → Bool) where
  module _ (rsa rsa_sign : Rsa) (cname cname_sign org_name : Bytes)
      (cert_lifetime start_time : ℕ) where
    -- What the certificate is to say.
    abbrev pub expected : Contents Rsa
    expected = record {
      version = some 2;
      serial = some start_time;
      subject = some ((codes "organizationName", org_name) ∷ (codes "commonName", cname) ∷ []);
      issuer = some ((codes "organizationName", org_name) ∷ (codes "commonName", cname_sign) ∷ []);
      not_before = some start_time;
      not_after = some (start_time + cert_lifetime);
      public_key = some rsa;
    }

    -- The calls for the key of the signer, which are the first, succeed.
    abbrev pub signer_made : Bool
    signer_made =
        not (fails Site.new_x509)
        && (not (fails (Site.dup_rsa true))
            && (not (fails (Site.new_pkey true)) && not (fails (Site.assign_rsa true))))

    -- A failure that leaves no X509 and no RSA behind, but keys and names.
    pub record Failed (h h' : Heap) : Type 0 where
      pub x509s : h'.x509s ≡ h.x509s
      pub rsas : h'.rsas ≡ h.rsas
      pub bignums : h'.bignums ≡ h.bignums
      pub pkeys : (h.pkeys ≤ h'.pkeys) × (h'.pkeys ≤ h.pkeys + 2)
      pub leaked : signer_made ≡ true → h.pkeys + 1 ≤ h'.pkeys
      pub names : (h.names ≤ h'.names) × (h'.names ≤ h.names + 2)

    abbrev pub Accounted : Heap → Heap × Option (Certificate Rsa) → Type 0
    Accounted h (h', none) = Failed h h'
    Accounted h (h', some certificate) =
        (h' ≡ record h { x509s = h.x509s + 1 })
        × (certificate ≡ record { contents = expected; signature = some (rsa_sign, expected) })

    -- `create_cert`, whichever calls of OpenSSL fail: a certificate that it returns says the version
    -- 2, the serial, the names of its owner and of its signer, the dates and the public key that it was to say, all of it signed by the key of the signer, and it
    -- is the only object that is left allocated. When it fails, no X509 and no RSA is left; of the
    -- two EVP_PKEYs and of the two names some can be left, and if the key of the signer was made, an
    -- EVP_PKEY is.
    pub create_cert-Accounted :
        (h : Heap)
        → Accounted h
            (create_cert fails rsa rsa_sign cname cname_sign org_name cert_lifetime start_time h)
    unfolding create_cert get_evp_pkey make_name
    create_cert-Accounted h = ground arith
