-- ===== src/Base/Outcomes.antt =====
-- What holds of the value that code returns, if it returns one.
use mathlib.Core.Path.{◌≡◌, refl, subst}
use mathlib.Core.Bool.{Bool, true, false}
use uv_client_server.Base.Tests.{if◌then◌else◌}
use uv_client_server.Base.Results.{Result, ok, err, Fault, ◌>>=◌}

pub record Yields {ℓ} {A : Type ℓ} (P : A → Type 0) (m : Result A) : Type ℓ where
  pub holds : (a : A) → m ≡ ok a → P a

module _ {ℓ} {A : Type ℓ} {P : A → Type 0} where
  pub Yields-ok : {a : A} → P a → Yields P (ok a)
  Yields-ok {a} h = record { holds = λ b e. let same : a ≡ b = cc in subst P same h }

  pub Yields-err : {e : Fault} → Yields P (err e)
  Yields-err = record { holds = λ b e. cc }

  pub Yields-if :
      (b : Bool) {m n : Result A} → Yields P m → Yields P n → Yields P (if b then m else n)
  Yields-if true h k = h
  Yields-if false h k = k

  -- The same, with what the test is in each branch.
  pub Yields-test :
      (b : Bool) {m n : Result A}
      → (b ≡ true → Yields P m)
      → (b ≡ false → Yields P n)
      → Yields P (if b then m else n)
  Yields-test true h k = h refl
  Yields-test false h k = k refl

module _ {ℓ κ} {A : Type ℓ} {B : Type κ} {P : A → Type 0} {Q : B → Type 0} where
  pub Yields-bind :
      (m : Result A) {f : A → Result B}
      → Yields P m
      → ((a : A) → P a → Yields Q (f a))
      → Yields Q (m >>= f)
  Yields-bind (ok a) h k = k a (h.holds a refl)
  Yields-bind (err e) h k = Yields-err

module _ {ℓ κ} {A : Type ℓ} {B : Type κ} {Q : B → Type 0} where
  pub Yields-any :
      (m : Result A) {f : A → Result B} → ((a : A) → Yields Q (f a)) → Yields Q (m >>= f)
  Yields-any (ok a) k = k a
  Yields-any (err e) k = Yields-err

  -- The same, with the equation for the value.
  pub Yields-from :
      (m : Result A) {f : A → Result B} → ((a : A) → m ≡ ok a → Yields Q (f a)) → Yields Q (m >>= f)
  Yields-from (ok a) k = k a refl
  Yields-from (err e) k = Yields-err
