-- ===== src/MpmcQueue/Index.antt =====
-- include/cql_mpmc_queue.hpp: the mask as the remainder by a power of 2.
use uv_client_server.Base.{
  ℕ, zero, suc, ◌+◌, ◌-◌, ◌*◌, ◌/◌, ◌%◌, ◌^◌, ◌≤◌, ◌<◌, bit_and, ◌≡◌, ◌≢◌, refl, sym, ◌∙◌, arith,
}
use Prim.Native.Nat.{min, digits, bit_and-bitwise}
use native.Mathlib.Nat.{
  mod-lt, mod-eq_of_lt, div-add-mod, add-mod_right, pow-suc, one-le-pow, zero-mod,
}

-- The remainder is determined by its equation.
mod_unique : (n m q r : ℕ) → n ≡ m * q + r → r < m → n % m ≡ r
mod_unique n m q r e h = grind (arith, div-add-mod n m, mod-lt n {m = m})

pow_pos : (k : ℕ) → 0 < 2 ^ k
pow_pos k = omega (arith, one-le-pow k 2)

mask_half : (k : ℕ) → (2 ^ suc k - 1) / 2 ≡ 2 ^ k - 1
mask_half k = omega (arith, pow-suc 2 k, pow_pos k)

mask_odd : (k : ℕ) → (2 ^ suc k - 1) % 2 ≡ 1
mask_odd k = omega (arith, pow-suc 2 k, pow_pos k)

twice : (m q r a : ℕ) → m * q + r ≡ a / 2 → a ≡ m * 2 * q + (r * 2 + a % 2)
twice m q r a e = grind arith

mod_half : (a k : ℕ) → a % 2 ^ suc k ≡ (a / 2) % 2 ^ k * 2 + a % 2
mod_half a k =
    mod_unique a (2 ^ suc k) (a / 2 / 2 ^ k) ((a / 2) % 2 ^ k * 2 + a % 2)
      (rw (pow-suc 2 k)
        (twice (2 ^ k) (a / 2 / 2 ^ k) ((a / 2) % 2 ^ k) a (div-add-mod (a / 2) (2 ^ k))))
      (omega (arith, pow-suc 2 k, mod-lt (a / 2) (pow_pos k)))

mask_digits : (k n a : ℕ) → a ≤ n → digits (λ b. zero) min n a (2 ^ k - 1) ≡ a % 2 ^ k
mask_digits zero zero zero h = refl
mask_digits zero zero (suc a) h = absurd (omega arith)
mask_digits zero (suc n) zero h = refl
mask_digits zero (suc n) (suc a) h = omega (arith, mask_digits zero n (suc a / 2) (omega arith))
mask_digits (suc k) zero zero h = sym (zero-mod (2 ^ suc k))
mask_digits (suc k) zero (suc a) h = absurd (omega arith)
mask_digits (suc k) (suc n) zero h = sym (zero-mod (2 ^ suc k))
mask_digits (suc k) (suc n) (suc a) h =
    rw (mask_half k, mask_odd k, mask_digits k n (suc a / 2) (omega arith))
      (omega (arith, mod_half (suc a) k))

bit_and-mask : (a k : ℕ) → bit_and a (2 ^ k - 1) ≡ a % 2 ^ k
bit_and-mask a k = bit_and-bitwise a (2 ^ k - 1) ∙ mask_digits k a a (omega arith)

-- The cell of a ticket.
unfoldable pub slot : (size ticket : ℕ) → ℕ
slot size ticket = bit_and ticket (size - 1)

module _ (k : ℕ) where
  pub slot-lt : (u : ℕ) → slot (2 ^ k) u < 2 ^ k
  unfolding slot
  slot-lt u = omega (arith, bit_and-mask u k, mod-lt u (pow_pos k))

  pub slot_within : (u : ℕ) → u < 2 ^ k → slot (2 ^ k) u ≡ u
  unfolding slot
  slot_within u h = bit_and-mask u k ∙ mod-eq_of_lt h

  -- Tickets that are `size` apart share their cell.
  pub slot-add : (u : ℕ) → slot (2 ^ k) (u + 2 ^ k) ≡ slot (2 ^ k) u
  unfolding slot
  slot-add u = omega (arith, bit_and-mask u k, bit_and-mask (u + 2 ^ k) k, add-mod_right u (2 ^ k))

  -- Tickets that are nearer do not.
  pub slot_apart : (u v : ℕ) → u < v → v < u + 2 ^ k → slot (2 ^ k) u ≢ slot (2 ^ k) v
  unfolding slot
  slot_apart u v lt near same =
      grind
        (arith, bit_and-mask u k, bit_and-mask v k, div-add-mod u (2 ^ k), div-add-mod v (2 ^ k))
