-- ===== src/Utils/Numbers.antt =====
-- The integer square root of src/utils.c, on 32-bit words.
pub mod Sqrt
mod Tests
use ducreu_os.Base.{
  ℕ, zero, suc, ◌+◌, ◌-◌, ◌*◌, ◌%◌, ◌^◌, Option, none, some, ◌>>=◌, ltb, if◌then◌else◌,
}

-- the loop from `i` on
pub isqrt_from : ℕ → ℕ → ℕ → Option ℕ
isqrt_from zero i a = none
isqrt_from (suc n) i a =
    let rest = isqrt_from n ((i + 1) % 2 ^ 32) a in
    if ltb i a then (if ltb a (i * i % 2 ^ 32) then some i else rest) else some i

-- `fuel` rounds are given
pub isqrt : ℕ → ℕ → Option ℕ
unfolding isqrt_from
isqrt fuel a = do i ← isqrt_from fuel 1 a; some (i - 1)
