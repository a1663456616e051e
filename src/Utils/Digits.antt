-- ===== src/Utils/Digits.antt =====
-- `matox` and `matoi` of src/utils.c: the number that a string of digits writes. A string is the list
-- of its characters; an `unsigned long` wraps at 2 ^ 64.
pub mod Value
mod Tests
use ducreu_os.Base.{
  ℕ, ◌+◌, ◌-◌, ◌*◌, ◌%◌, ◌^◌, List, [], ◌∷◌, Bool, true, false, not, ◌&&◌, ◌||◌, ◌==◌, leb,
  if◌then◌else◌,
}
use ducreu_os.Utils.Text.{mstrlen}

abbrev pub is_digit : ℕ → Bool
is_digit c = leb 48 c && leb c 57

abbrev pub is_hex : ℕ → Bool
is_hex c = is_digit c || leb 97 c && leb c 102 || leb 65 c && leb c 70

-- the length of the digits in front
pub count_digits : (ℕ → Bool) → List ℕ → ℕ
count_digits test [] = 0
count_digits test (c ∷ cs) = let rest = count_digits test cs in if test c then rest + 1 else 0

abbrev pub hex_digit : ℕ → ℕ
hex_digit c =
    if is_digit c then c - 48 else if leb 97 c && leb c 102 then c - 97 + 10 else c - 65 + 10

-- `result` and `power` after the rounds for these digits, from the last one on; words wrap at `m`
pub sum_digits : ℕ → (ℕ → ℕ) → ℕ → List ℕ → ℕ × ℕ
sum_digits m digit base [] = (0, 1)
sum_digits m digit base (c ∷ cs) =
    let (result, power) = sum_digits m digit base cs in
    ((result + power * digit c) % m, power * base % m)

-- past a `0x` or `0X`
pub skip_indicator : List ℕ → List ℕ
skip_indicator [] = []
skip_indicator (c ∷ []) = c ∷ []
skip_indicator (c ∷ d ∷ cs) = if (c == 48) && ((d == 120) || (d == 88)) then cs else c ∷ d ∷ cs

pub matox : List ℕ → ℕ
unfolding skip_indicator count_digits sum_digits
matox a₀ =
    let a = skip_indicator a₀ in
    if not (count_digits is_hex a == mstrlen a) then 0 else (sum_digits (2 ^ 64) hex_digit 16 a).0

-- an `int`, which wraps at 2 ^ 32
pub matoi : List ℕ → ℕ
unfolding count_digits sum_digits
matoi [] = 0
matoi (c ∷ cs) =
    let a = if c == 45 then cs else c ∷ cs in
    let result = (sum_digits (2 ^ 32) (λ d. d - 48) 10 a).0 in
    if not (count_digits is_digit a == mstrlen a)
    then 0
    else if c == 45
    then (2 ^ 32 - result) % 2 ^ 32
    else result
