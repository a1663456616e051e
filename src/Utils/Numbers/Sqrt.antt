-- ===== src/Utils/Numbers/Sqrt.antt =====
-- Where `isqrt` of src/utils.c is the square root.
use ducreu_os.Base.{
  ℕ, zero, suc, ◌+◌, ◌-◌, ◌*◌, ◌%◌, ◌^◌, ◌≤◌, ◌<◌, ◌≡◌, refl, ◌∙◌, some, ltb, true, false, arith,
  inl, inr, Bool-cases,
}
use ducreu_os.Utils.Numbers.{isqrt_from, isqrt}

square_small : (i : ℕ) → i < 65536 → i * i < 2 ^ 32
square_small i h = grind arith

square_above : (a : ℕ) → 2 ≤ a → a < a * a
square_above a h = grind arith

square_below : (i : ℕ) → i * i < 65535 * 65535 → i < 65535
square_below i h = grind arith

round_lem :
    (n i a : ℕ)
    → i < 2 ^ 32 - 1
    → ltb i a ≡ true
    → ltb a (i * i % 2 ^ 32) ≡ false
    → isqrt_from (suc n) i a ≡ isqrt_from n (i + 1) a
unfolding isqrt_from
round_lem n i a small more not_yet =
    let next : (i + 1) % 2 ^ 32 ≡ i + 1 = omega arith in rw (more, not_yet, next) refl

isqrt_from_lem :
    (n i a : ℕ)
    → 65536 ≤ n + i
    → 2 ≤ a
    → a < 65535 * 65535
    → 1 ≤ i
    → i ≤ a
    → i ≤ 65535
    → (i - 1) * (i - 1) ≤ a
    → (j : ℕ) × (isqrt_from n i a ≡ some j) × (1 ≤ j) × ((j - 1) * (j - 1) ≤ a) × (a < j * j)
unfolding isqrt_from
isqrt_from_lem zero i a enough big small pos le lt below = absurd (omega arith)
isqrt_from_lem (suc n) i a enough big small pos le lt below =
    let exact : i * i % 2 ^ 32 ≡ i * i = omega (arith, square_small i (omega arith)) in
    elim (Bool-cases (ltb i a)) [
      | inr last ↦
          let e : i ≡ a = ground arith in (i, rw last refl, pos, below, rw e (square_above a big))
      | inl more ↦ elim (Bool-cases (ltb a (i * i))) [
        | inl found ↦ (i, rw (more, exact, found) refl, pos, below, ground arith)
        | inr not_yet ↦
            let room : i < 65535 = square_below i (ground arith) in
            let back : i + 1 - 1 ≡ i = omega arith in
            let (j, e, p, q, r) =
              isqrt_from_lem n (i + 1) a (omega arith) big small (omega arith) (ground arith)
                (omega arith) (rw back (ground arith)) in
            (j, round_lem n i a (omega arith) more (rw exact not_yet) ∙ e, p, q, r)
      ]
    ]

-- From 2 on, below 65535 * 65535, 65536 rounds are enough, and the answer is the square root,
-- rounded down.
pub isqrt_lem :
    (a : ℕ)
    → 2 ≤ a
    → a < 65535 * 65535
    → (r : ℕ) × (isqrt 65536 a ≡ some r) × (r * r ≤ a) × (a < (r + 1) * (r + 1))
unfolding isqrt
isqrt_lem a big small =
    let (j, e, pos, below, above) =
      isqrt_from_lem 65536 1 a (omega arith) big small (omega arith) (omega arith) (omega arith)
        (omega arith) in
    let back : j - 1 + 1 ≡ j = omega arith in (j - 1, rw e refl, below, rw back above)
