-- ===== src/SslContext/Making.antt =====
-- include/cql_ssl_context.hpp: the making of a key and of a certificate, with what is allocated and
-- freed. Which calls of OpenSSL fail is a parameter.
pub mod Account
use uv_client_server.Base.{
  ℕ, ◌+◌, ◌-◌, ◌%◌, ◌^◌, List, [], ◌∷◌, ◌++◌, Bool, true, false, Option, none, some, codes,
  if◌then◌else◌,
}
use uv_client_server.Memory.{Bytes}

-- The calls that can fail, in the order of the code. `dup_rsa true` duplicates the private key of
-- the signer, `dup_rsa false` the public key; so for the two calls behind it.
pub data Site : Type 0 where
  generate_key : Site
  new_x509 : Site
  dup_rsa new_pkey assign_rsa : (priv : Bool) → Site
  set_version set_serial : Site
  new_subject subject_org_nid subject_org subject_common_nid subject_common set_subject : Site
  new_issuer issuer_org_nid issuer_org issuer_common_nid issuer_common set_issuer : Site
  set_not_before set_not_after set_pubkey sign : Site

-- How many objects have been allocated and not freed. An RSA that was assigned to an EVP_PKEY goes
-- with that.
pub record Heap : Type 0 where
  pub rsas : ℕ
  pub bignums : ℕ
  pub x509s : ℕ
  pub pkeys : ℕ
  pub names : ℕ

-- The entries of an X509_NAME.
abbrev pub Name : Type 0
Name = List (Bytes × Bytes)

-- What the calls have put into the X509; what no call has set is `none`.
pub record Contents (Rsa : Type 0) : Type 0 where
  pub version : Option ℕ
  pub serial : Option ℕ
  pub subject : Option Name
  pub issuer : Option Name
  pub not_before : Option ℕ
  pub not_after : Option ℕ
  pub public_key : Option Rsa

-- The X509, with what was signed, by which key.
pub record Certificate (Rsa : Type 0) : Type 0 where
  pub contents : Contents Rsa
  pub signature : Option (Rsa × Contents Rsa)

-- X509_new
abbrev pub blank : {Rsa : Type 0} → Certificate Rsa
blank = record {
  contents = record {
    version = none;
    serial = none;
    subject = none;
    issuer = none;
    not_before = none;
    not_after = none;
    public_key = none;
  };
  signature = none;
}

-- Code that allocates; `none` is a NULL that is returned.
abbrev pub M {ℓ} : Type ℓ → Type ℓ
M A = Heap → Heap × Option A

infixl 5 ◌>>=◌ ◌>>◌
abbrev pub ◌>>=◌ {ℓ κ} : {A : Type ℓ} {B : Type κ} → M A → (A → M B) → M B
◌>>=◌ m f h = elim (m h).1 [ none ↦ ((m h).0, none) | some a ↦ f a (m h).0 ]

abbrev pub ◌>>◌ {κ} : {B : Type κ} → M (Unit {0}) → M B → M B
m >> k = m >>= λ _. k

abbrev pub pure {ℓ} : {A : Type ℓ} → A → M A
pure a h = (h, some a)

-- A change of the heap that cannot fail.
abbrev pub alter : (Heap → Heap) → M (Unit {0})
alter f h = (f h, some tt)

-- if (failed) { … return NULL; }
abbrev pub check : (failed : Bool) → (cleanup : Heap → Heap) → M (Unit {0})
check failed cleanup h = if failed then (cleanup h, none) else (h, some tt)

abbrev pub add_rsa : Heap → Heap
add_rsa h = record h { rsas = h.rsas + 1 }

abbrev pub free_rsa : Heap → Heap
free_rsa h = record h { rsas = h.rsas - 1 }

abbrev pub add_pkey : Heap → Heap
add_pkey h = record h { pkeys = h.pkeys + 1 }

abbrev pub free_pkey : Heap → Heap
free_pkey h = record h { pkeys = h.pkeys - 1 }

abbrev pub add_x509 : Heap → Heap
add_x509 h = record h { x509s = h.x509s + 1 }

abbrev pub free_x509 : Heap → Heap
free_x509 h = record h { x509s = h.x509s - 1 }

abbrev pub add_name : Heap → Heap
add_name h = record h { names = h.names + 1 }

abbrev pub free_name : Heap → Heap
free_name h = record h { names = h.names - 1 }

-- A call that changes its object if it does not fail.
abbrev pub done {ℓ} : {A : Type ℓ} → (fails : Site → Bool) (site : Site) → (A → A) → A → A
done fails site change a = if fails site then a else change a

module _ (fails : Site → Bool) where
  -- CHECK_CERT(x)
  abbrev pub check_cert : Site → M (Unit {0})
  check_cert site = check (fails site) free_x509

  -- X509_NAME_add_entry_by_NID, with OBJ_txt2nid before it.
  abbrev pub add_entry : (nid add : Site) → (field text : Bytes) → Name → M Name
  add_entry nid add field text name = do
    check_cert nid
    check_cert add
    pure (done fails add (λ n. n ++ (field, text) ∷ []) name)

  -- An X509_NAME with two entries. The sites are those of its calls, in order.
  unfoldable pub make_name :
      (new org_nid org common_nid common : Site) → (organization cname : Bytes) → M Name
  make_name new org_nid org common_nid common organization cname = do
    check_cert new
    alter add_name
    name ← add_entry org_nid org (codes "organizationName") organization []
    add_entry common_nid common (codes "commonName") cname name

module _ {Rsa : Type 0} (fails : Site → Bool) where
  -- The key is `pair`, which RSA_generate_key_ex fills.
  unfoldable pub create_key : (pair : Rsa) → M Rsa
  create_key pair h =
      let made : Heap = record h { rsas = h.rsas + 1; bignums = h.bignums + 1 } in
      let rest : Heap = record made { bignums = made.bignums - 1 } in
      if fails generate_key then (rest, none) else (rest, some pair)

  -- The key and the EVP_PKEY are made before either is looked at.
  unfoldable pub get_evp_pkey : Rsa → (priv : Bool) → M Rsa
  get_evp_pkey rsa priv = do
    alter (λ h. if fails (dup_rsa priv) then h else add_rsa h)
    alter (λ h. if fails (new_pkey priv) then h else add_pkey h)
    check (fails (dup_rsa priv)) (λ h. if fails (new_pkey priv) then h else free_pkey h)
    check (fails (new_pkey priv)) free_rsa
    check (fails (assign_rsa priv)) (λ h. free_rsa (free_pkey h))
    alter free_rsa
    pure rsa

  -- CHECK_CERT on a pointer that a call of `get_evp_pkey` gave.
  abbrev pub check_pkey : M Rsa → M Rsa
  check_pkey m h = elim (m h).1 [
    | none ↦ (free_x509 (m h).0, none)
    | some key ↦ ((m h).0, some key)
  ]

  -- A call on the X509 under CHECK_CERT.
  abbrev pub set_cert : Site → (Contents Rsa → Contents Rsa) → Certificate Rsa → M (Certificate Rsa)
  set_cert site update x509 = do
    check_cert fails site
    pure (done fails site (λ x. record x { contents = update x.contents }) x509)

  abbrev pub sign_cert : (key : Rsa) → Certificate Rsa → M (Certificate Rsa)
  sign_cert key x509 = do
    check_cert fails sign
    pure (done fails sign (λ x. record x { signature = some (key, x.contents) }) x509)

  -- `X509_free(NULL)` does nothing. `start_time` is what `time` returns.
  unfoldable pub create_cert :
      (rsa rsa_sign : Rsa) (cname cname_sign org_name : Bytes) (cert_lifetime start_time : ℕ)
      → M (Certificate Rsa)
  create_cert rsa rsa_sign cname cname_sign org_name cert_lifetime start_time = do
    check (fails new_x509) (λ h. h)
    alter add_x509
    sign_pkey ← check_pkey (get_evp_pkey rsa_sign true)
    pkey ← check_pkey (get_evp_pkey rsa false)
    x₁ ← set_cert set_version (λ c. record c { version = some 2 }) blank
    x₂ ← set_cert set_serial (λ c. record c { serial = some start_time }) x₁
    name ←
        make_name fails new_subject subject_org_nid subject_org subject_common_nid subject_common
          org_name cname
    x₃ ← set_cert set_subject (λ c. record c { subject = some name }) x₂
    name_issuer ←
        make_name fails new_issuer issuer_org_nid issuer_org issuer_common_nid issuer_common
          org_name cname_sign
    x₄ ← set_cert set_issuer (λ c. record c { issuer = some name_issuer }) x₃
    x₅ ← set_cert set_not_before (λ c. record c { not_before = some start_time }) x₄
    x₆ ← set_cert set_not_after (λ c. record c { not_after = some (start_time + cert_lifetime) }) x₅
    x₇ ← set_cert set_pubkey (λ c. record c { public_key = some pkey }) x₆
    x₈ ← sign_cert sign_pkey x₇
    alter (λ h. free_name (free_name (free_pkey (free_pkey h))))
    pure x₈
