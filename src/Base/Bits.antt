-- ===== src/Base/Bits.antt =====
-- Single bits of bytes, and tables over small ranges.
use Prim.Native.Nat.{ℕ, zero, suc, ◌-◌, ◌/◌, ◌%◌, ◌^◌, ◌≤◌, ◌<◌, bit_and, bit_or}
use mathlib.Core.Path.{◌≡◌, refl}
use mathlib.Core.Bool.{Bool, true, false, ◌&&◌}
use native.Mathlib.Omega.{arith}
use ducreu_os.Base.Tests.{◌==◌, ltb, if◌then◌else◌}

-- `(b >> k) & 1`
unfoldable pub get_bit : ℕ → ℕ → ℕ
get_bit b k = b / 2 ^ k % 2

-- `b |= 1 << k` and `b &= ~(1 << k)` at an eight-bit `b`
unfoldable pub or_bit : ℕ → ℕ → ℕ
or_bit b k = bit_or b (2 ^ k)

unfoldable pub clear_bit : ℕ → ℕ → ℕ
clear_bit b k = bit_and b (255 - 2 ^ k)

-- the test holds at each of the numbers up to `top`, which are read from the top down
holds_up_to : (ℕ → Bool) → ℕ → Bool
holds_up_to test zero = test zero
holds_up_to test (suc top) = if test (suc top) then holds_up_to test top else false

holds_up_to-at :
    (test : ℕ → Bool) (top : ℕ) → holds_up_to test top ≡ true → (i : ℕ) → i ≤ top → test i ≡ true
unfolding holds_up_to
holds_up_to-at test zero e zero below = e
holds_up_to-at test zero e (suc i) below = absurd (omega arith)
holds_up_to-at test (suc top) e i below = ground (arith, holds_up_to-at test top _ i)

abbrev bits_agree : (ℕ → ℕ → ℕ) → ℕ → ℕ → ℕ → ℕ → Bool
bits_agree f v b k j = get_bit (f b k) j == (if j == k then v else get_bit b j)

abbrev table : (ℕ → ℕ → ℕ) → ℕ → Bool
table f v =
    holds_up_to
      (λ k. holds_up_to (λ j. holds_up_to (λ b. ltb (f b k) 256 && bits_agree f v b k j) 255) 7) 7

table_sound :
    (f : ℕ → ℕ → ℕ) (v : ℕ)
    → table f v ≡ true
    → (b k j : ℕ) → b < 256
    → k < 8
    → j < 8
    → (ltb (f b k) 256 && bits_agree f v b k j) ≡ true
table_sound f v t b k j hb hk hj =
    holds_up_to-at _ 255 (holds_up_to-at _ 7 (holds_up_to-at _ 7 t k (omega arith)) j (omega arith))
      b (omega arith)

or_table : table or_bit 1 ≡ true
unfolding holds_up_to get_bit or_bit
or_table = refl

clear_table : table clear_bit 0 ≡ true
unfolding holds_up_to get_bit clear_bit
clear_table = refl

pub get_bit-or_bit :
    (b k j : ℕ)
    → b < 256
    → k < 8
    → j < 8
    → get_bit (or_bit b k) j ≡ (if j == k then 1 else get_bit b j)
get_bit-or_bit b k j hb hk hj = ground (arith, table_sound or_bit 1 or_table b k j hb hk hj)

pub get_bit-clear_bit :
    (b k j : ℕ)
    → b < 256
    → k < 8
    → j < 8
    → get_bit (clear_bit b k) j ≡ (if j == k then 0 else get_bit b j)
get_bit-clear_bit b k j hb hk hj =
    ground (arith, table_sound clear_bit 0 clear_table b k j hb hk hj)

pub or_bit-lt : (b k : ℕ) → b < 256 → k < 8 → or_bit b k < 256
or_bit-lt b k hb hk = ground (arith, table_sound or_bit 1 or_table b k 0 hb hk)

pub clear_bit-lt : (b k : ℕ) → b < 256 → k < 8 → clear_bit b k < 256
clear_bit-lt b k hb hk = ground (arith, table_sound clear_bit 0 clear_table b k 0 hb hk)

pub get_bit-lt : (b k : ℕ) → get_bit b k < 2
unfolding get_bit
get_bit-lt b k = omega arith

pub get_bit-zero : (k : ℕ) → get_bit 0 k ≡ 0
unfolding get_bit
get_bit-zero k = omega arith
