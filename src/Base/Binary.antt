-- ===== src/Base/Binary.antt =====
-- The `|` of words whose digits do not overlap.
use Prim.Native.Nat.{
  ℕ, zero, suc, ◌+◌, ◌*◌, ◌/◌, ◌^◌, ◌≤◌, ◌<◌, max, bit_or, digits, bit_or-bitwise,
}
use mathlib.Core.Path.{◌≡◌, refl, ap, ◌∙◌}
use native.Mathlib.Nat.{mul_assoc}
use native.Mathlib.Omega.{arith}

pow_suc : (k : ℕ) → 2 ^ suc k ≡ 2 ^ k * 2
pow_suc k = omega arith

-- A number with `k` zeros at the end takes up a number of at most `k` digits.
or_digits :
    (fuel k q a low : ℕ)
    → a ≤ fuel
    → a ≡ q * 2 ^ k
    → low < 2 ^ k
    → digits (λ b. b) max fuel a low ≡ a + low
or_digits zero k q zero low h e lt = omega arith
or_digits zero k q (suc a) low h e lt = absurd (omega arith)
or_digits (suc fuel) k q zero low h e lt = omega arith
or_digits (suc fuel) zero q (suc a) low h e lt =
    omega (arith, or_digits fuel zero (suc a / 2) (suc a / 2) (low / 2))
or_digits (suc fuel) (suc k) q (suc a) low h e lt =
    let halved : suc a ≡ q * 2 ^ k * 2 =
      omega (arith, mul_assoc q (2 ^ k) 2, ap (λ p. q * p) (pow_suc k)) in
    omega (arith, halved, or_digits fuel k q (suc a / 2) (low / 2))

pub bit_or-low : (q k low : ℕ) → low < 2 ^ k → bit_or (q * 2 ^ k) low ≡ q * 2 ^ k + low
bit_or-low q k low lt =
    bit_or-bitwise (q * 2 ^ k) low ∙ or_digits (q * 2 ^ k) k q (q * 2 ^ k) low (omega arith) refl lt

or_digits-one : (fuel a : ℕ) → a ≤ fuel → digits (λ b. b) max fuel a 1 ≡ a / 2 * 2 + 1
or_digits-one zero zero h = refl
or_digits-one zero (suc a) h = absurd (omega arith)
or_digits-one (suc fuel) zero h = refl
or_digits-one (suc fuel) (suc a) h =
    omega (arith, or_digits fuel zero (suc a / 2) (suc a / 2) 0 (omega arith) (omega arith))

pub bit_or-one : (a : ℕ) → bit_or a 1 ≡ a / 2 * 2 + 1
bit_or-one a = bit_or-bitwise a 1 ∙ or_digits-one a a (omega arith)
