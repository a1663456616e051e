-- ===== src/Utils/Digits/Value.antt =====
-- The numbers that `matox` and `matoi` of src/utils.c read are the ones that their digits write.
use native.Mathlib.Nat.{
  add-mod, mod-mod, div-add-mod', add-mul-mod_self_right, pow-suc, pow-zero, zero-mod,
}
use ducreu_os.Base.{
  ℕ, ◌+◌, ◌-◌, ◌*◌, ◌/◌, ◌%◌, ◌^◌, ◌≡◌, refl, sym, ap, ap₂, ◌∙◌, List, [], ◌∷◌, Bool, true, false,
  ◌==◌, length, arith,
}
use ducreu_os.Utils.Text.{mstrlen}
use ducreu_os.Utils.Digits.{
  is_digit, is_hex, count_digits, hex_digit, sum_digits, skip_indicator, matox, matoi,
}

abbrev pub AllPass : (ℕ → Bool) → List ℕ → Type 0
AllPass test [] = Unit {0}
AllPass test (c ∷ cs) = (test c ≡ true) × AllPass test cs

spread : (m q r d : ℕ) → (q * m + r) * d ≡ r * d + q * d * m
spread m q r d = omega arith

mul_mod : (m p d : ℕ) → p % m * d % m ≡ p * d % m
mul_mod m p d = sym (
    ap (λ x. x * d % m) (sym (div-add-mod' p m))
    ∙ ap (λ x. x % m) (spread m (p / m) (p % m) d)
    ∙ add-mul-mod_self_right (p % m * d) (p / m * d) m)

-- A sum and a product with one factor only need the remainders.
congruent : (m r p v q d : ℕ) → r % m ≡ v % m → p % m ≡ q % m → (r + p * d) % m ≡ (v + q * d) % m
congruent m r p v q d e f =
    let product : p * d % m ≡ q * d % m =
      sym (mul_mod m p d) ∙ ap (λ x. x * d % m) f ∙ mul_mod m q d in
    add-mod r (p * d) m ∙ ap₂ (λ x y. (x + y) % m) e product ∙ sym (add-mod v (q * d) m)

added : (v p d : ℕ) → v + p * d ≡ d * p + v
added v p d = omega arith

shifted : (base before d p v : ℕ) → (before * base + d) * p + v ≡ before * (p * base) + (d * p + v)
shifted base before d p v = omega arith

module _ (digit : ℕ → ℕ) (base : ℕ) where
  -- read from the front: what was read before counts `base` times
  abbrev pub value : ℕ → List ℕ → ℕ
  value before [] = before
  value before (c ∷ cs) = value (before * base + digit c) cs

  value_front : (c : ℕ) (cs : List ℕ) → value 0 (c ∷ cs) ≡ value (digit c) cs
  value_front c cs = ap (λ d. value d cs) (omega arith)

  value_before :
      (before : ℕ) (cs : List ℕ) → value before cs ≡ before * base ^ length cs + value 0 cs
  value_before before [] = omega (arith, ap (λ p. before * p) (pow-zero base))
  value_before before (c ∷ cs) =
      value_before (before * base + digit c) cs
      ∙ shifted base before (digit c) (base ^ length cs) (value 0 cs)
      ∙ ap₂ (λ p w. before * p + w) (sym (pow-suc base (length cs)))
          (sym (value_before (digit c) cs) ∙ sym (value_front c cs))

  module _ (m : ℕ) where
    sum_lem :
        (cs : List ℕ)
        → ((sum_digits m digit base cs).0 % m ≡ value 0 cs % m)
          × ((sum_digits m digit base cs).1 % m ≡ base ^ length cs % m)
    unfolding sum_digits
    sum_lem [] = (refl, ap (λ p. p % m) (sym (pow-zero base)))
    sum_lem (c ∷ cs) =
        let (e, f) = sum_lem cs in
        let p = base ^ length cs in
        let (result, power) = sum_digits m digit base cs in
        (
          mod-mod (result + power * digit c) m
              ∙ congruent m result power (value 0 cs) p (digit c) e f
              ∙ ap (λ x. x % m)
                  (added (value 0 cs) p (digit c)
                    ∙ sym (value_before (digit c) cs)
                    ∙ sym (value_front c cs)),
          mod-mod (power * base) m
              ∙ sym (mul_mod m power base)
              ∙ ap (λ x. x * base % m) f
              ∙ mul_mod m p base
              ∙ ap (λ x. x % m) (sym (pow-suc base (length cs))),
        )

    sum_small : (cs : List ℕ) → (sum_digits m digit base cs).0 % m ≡ (sum_digits m digit base cs).0
    unfolding sum_digits
    sum_small [] = zero-mod m
    sum_small (c ∷ cs) = mod-mod _ m

AllPass-count :
    (test : ℕ → Bool) (cs : List ℕ) → AllPass test cs → count_digits test cs ≡ mstrlen cs
unfolding count_digits mstrlen
AllPass-count test [] h = refl
AllPass-count test (c ∷ cs) h = rw h.0 (omega (arith, AllPass-count test cs h.1))

AllPass-skip : (cs : List ℕ) → AllPass is_hex cs → skip_indicator cs ≡ cs
unfolding skip_indicator
AllPass-skip [] h = refl
AllPass-skip (c ∷ []) h = refl
AllPass-skip (c ∷ d ∷ cs) h = ground (arith, h.1.0)

-- `matox` of hexadecimal digits, with or without `0x` or `0X` in front, is the number that they
-- write, modulo 2 ^ 64.
pub matox_lem :
    (cs : List ℕ)
    → AllPass is_hex cs
    → (matox cs ≡ value hex_digit 16 0 cs % 2 ^ 64)
      × (matox (48 ∷ 120 ∷ cs) ≡ matox cs)
      × (matox (48 ∷ 88 ∷ cs) ≡ matox cs)
unfolding matox skip_indicator
matox_lem cs h =
    let whole : (count_digits is_hex cs == mstrlen cs) ≡ true =
      ground (arith, AllPass-count is_hex cs h) in
    let read = sym (sum_small hex_digit 16 (2 ^ 64) cs) ∙ (sum_lem hex_digit 16 (2 ^ 64) cs).0 in
    (
      rw (AllPass-skip cs h, whole) read,
      rw (AllPass-skip cs h, whole) refl,
      rw (AllPass-skip cs h, whole) refl,
    )

abbrev pub decimal : List ℕ → ℕ
decimal = value (λ d. d - 48) 10 0

matoi_plain :
    (cs : List ℕ)
    → AllPass is_digit cs
    → (count_digits is_digit cs == mstrlen cs) ≡ true
    → (sum_digits (2 ^ 32) (λ d. d - 48) 10 cs).0 ≡ decimal cs % 2 ^ 32
    → matoi cs ≡ decimal cs % 2 ^ 32
unfolding matoi
matoi_plain [] h whole read = refl
matoi_plain (c ∷ cs) h whole read =
    let no_sign : (c == 45) ≡ false = ground (arith, h.0) in rw (no_sign, whole) read

-- `matoi` of decimal digits is the number that they write, and of these behind a minus sign its
-- negative, as a 32-bit word each.
pub matoi_lem :
    (cs : List ℕ)
    → AllPass is_digit cs
    → (matoi cs ≡ decimal cs % 2 ^ 32) × (matoi (45 ∷ cs) ≡ (2 ^ 32 - decimal cs % 2 ^ 32) % 2 ^ 32)
unfolding matoi
matoi_lem cs h =
    let whole : (count_digits is_digit cs == mstrlen cs) ≡ true =
      ground (arith, AllPass-count is_digit cs h) in
    let read =
      sym (sum_small (λ d. d - 48) 10 (2 ^ 32) cs) ∙ (sum_lem (λ d. d - 48) 10 (2 ^ 32) cs).0 in
    (matoi_plain cs h whole read, rw (whole, read) refl)
