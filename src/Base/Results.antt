-- ===== src/Base/Results.antt =====
-- What a run of the code ends in where it does not return: a memory access outside its object, a
-- failed `assert`, an allocation that throws, a use of a null or indeterminate pointer; or it runs
-- out of the rounds that a loop was given.
use mathlib.Core.Path.{◌≡◌, refl}

pub data Fault : Type 0 where
  out_of_bounds assertion bad_alloc bad_pointer no_rounds : Fault

pub data Result {ℓ} (A : Type ℓ) : Type ℓ where
  ok : A → Result A
  err : Fault → Result A

infixl 5 ◌>>=◌
abbrev pub ◌>>=◌ {ℓ κ} : {A : Type ℓ} {B : Type κ} → Result A → (A → Result B) → Result B
ok a >>= f = f a
err e >>= f = err e

pub bind_assoc {ℓ κ} :
    {A B : Type ℓ} {C : Type κ} (m : Result A) (f : A → Result B) (g : B → Result C)
    → ((m >>= f) >>= g) ≡ (m >>= λ a. f a >>= g)
bind_assoc (ok a) f g = refl
bind_assoc (err e) f g = refl
