-- ===== src/Utils/Strings/Prepend.antt =====
-- Where `mstrcpy` and `mstrtac` of src/utils.c leave the characters of their strings.
use ducreu_os.Base.{
  ℕ, zero, suc, ◌+◌, ◌-◌, ◌%◌, ◌^◌, ◌≤◌, ◌<◌, ◌≡◌, ◌≢◌, ◌⊎◌, inl, inr, refl, ap, ◌∙◌, some, ◌==◌,
  true, false, if◌then◌else◌, arith, Bool-cases,
}
use ducreu_os.Base.Memory.{Mem, store, within}
use ducreu_os.Utils.Strings.{length_at, mstrcpy, shift_up, copy_front, mstrtac}

-- A string of `n` characters stands at the address, and no address up to its NUL wraps.
pub record IsString (m : Mem) (a n : ℕ) : Type 0 where
  pub chars : (i : ℕ) → i < n → m (a + i) ≢ 0
  pub nul : m (a + n) ≡ 0
  pub room : a + n + 1 < 2 ^ 64

IsString-rest : (m : Mem) (a n : ℕ) → IsString m a (suc n) → IsString m (a + 1) n
IsString-rest m a n s = record {
  chars = λ i lt z. s.chars (suc i) (omega arith) (ap m (omega arith) ∙ z);
  nul = ap m (omega arith) ∙ s.nul;
  room = omega (arith, s.room);
}

length_at_lem :
    (fuel : ℕ) (m : Mem) (a n : ℕ) → IsString m a n → n < fuel → length_at fuel m a ≡ some n
unfolding length_at
length_at_lem zero m a n s lt = absurd (omega arith)
length_at_lem (suc fuel) m a zero s lt =
    let e : (m a == 0) ≡ true = ground (arith, ap m (zero_offset a) ∙ s.nul) in rw e refl
  where
    zero_offset : (a : ℕ) → a ≡ a + 0
    zero_offset a = omega arith
length_at_lem (suc fuel) m a (suc n) s lt =
    let here : m a ≢ 0 = λ z. s.chars 0 (omega arith) (ap m (omega arith) ∙ z) in
    let e : (m a == 0) ≡ false = ground arith in
    let next : (a + 1) % 2 ^ 64 ≡ a + 1 = omega (arith, s.room) in
    rw (e, next, length_at_lem fuel m (a + 1) n (IsString-rest m a n s) (omega arith))
      (ap some (omega arith))

shift_up_lem :
    (i : ℕ) (m : Mem) (b lena x : ℕ)
    → shift_up i m b lena x ≡ (if within (b + lena) (i + 1) x then m (x - lena) else m x)
unfolding shift_up
shift_up_lem zero m b lena x =
    let e : x ≡ b + lena → x - lena ≡ b = λ e. omega arith in
    elim (Bool-cases (x == b + lena)) [
      | inl here ↦ ground (arith, ap m (e (ground arith)))
      | inr there ↦ ground arith
    ]
shift_up_lem (suc i) m b lena x =
    let shifted = store m (b + suc i + lena) (m (b + suc i)) in
    let e : x ≡ b + suc i + lena → x - lena ≡ b + suc i = λ e. omega arith in
    elim (Bool-cases (x == b + suc i + lena)) [
      | inl here ↦ ground (arith, shift_up_lem i shifted b lena x, ap m (e (ground arith)))
      | inr there ↦ ground (arith, shift_up_lem i shifted b lena x)
    ]

copy_front_lem :
    (n : ℕ) (m : Mem) (a b x : ℕ)
    → (a + n ≤ b) ⊎ (b + n ≤ a)
    → copy_front n m a b x ≡ (if within b n x then m (a + (x - b)) else m x)
unfolding copy_front
copy_front_lem zero m a b x apart = ground arith
copy_front_lem (suc n) m a b x apart =
    ground (arith, copy_front_lem n (store m b (m a)) (a + 1) (b + 1) x)

-- `mstrtac` of a string in front of another one, with room for both and apart from it, returns with
-- the characters of the first at the second's address, the second and its NUL behind them, and every
-- other byte as before.
pub mstrtac_lem :
    (fuel : ℕ) (m : Mem) (a b lena lenb : ℕ)
    → a ≢ 0
    → b ≢ 0
    → IsString m a lena
    → IsString m b lenb
    → (a + lena ≤ b) ⊎ (b + lena + lenb + 1 ≤ a)
    → lena < fuel
    → lenb < fuel
    → (m' : Mem) × (mstrtac fuel m a b ≡ some m')
      × ((x : ℕ)
          → m' x ≡ (
              if within b lena x
              then m (a + (x - b))
              else (if within (b + lena) (lenb + 1) x then m (x - lena) else m x)))
unfolding mstrtac
mstrtac_lem fuel m a b lena lenb na nb sa sb apart la lb =
    let some_a : (a == 0) ≡ false = ground arith in
    let some_b : (b == 0) ≡ false = ground arith in
    (
      copy_front lena (shift_up lenb m b lena) a b,
      rw (some_a, some_b, length_at_lem fuel m a lena sa la, length_at_lem fuel m b lenb sb lb)
          refl,
      λ x. ground (
        arith,
        copy_front_lem lena (shift_up lenb m b lena) a b x,
        shift_up_lem lenb m b lena (a + (x - b)),
        shift_up_lem lenb m b lena x,
      ),
    )

IsString-store :
    (m : Mem) (a n b v : ℕ) → IsString m a n → (b < a) ⊎ (a + n < b) → IsString (store m b v) a n
IsString-store m a n b v s apart = record {
  chars = λ i lt. ground (arith, s.chars i);
  nul = ground (arith, s.nul);
  room = s.room;
}

mstrcpy_round :
    (fuel : ℕ) (m : Mem) (dest src : ℕ)
    → dest ≢ 0
    → src ≢ 0
    → m src ≢ 0
    → dest + 1 < 2 ^ 64
    → src + 1 < 2 ^ 64
    → mstrcpy (suc fuel) m dest src ≡ mstrcpy fuel (store m dest (m src)) (dest + 1) (src + 1)
unfolding mstrcpy
mstrcpy_round fuel m dest src nd ns more small_dest small_src =
    let some_dest : (dest == 0) ≡ false = ground arith in
    let some_src : (src == 0) ≡ false = ground arith in
    let some_left : (m src == 0) ≡ false = ground arith in
    let next_dest : (dest + 1) % 2 ^ 64 ≡ dest + 1 = omega arith in
    let next_src : (src + 1) % 2 ^ 64 ≡ src + 1 = omega arith in
    rw (some_dest, some_src, some_left, next_dest, next_src) refl

-- `mstrcpy` to a place with room for the string and apart from it returns with the characters and
-- the NUL there, and every other byte as before.
mstrcpy_lem :
    (fuel : ℕ) (m : Mem) (dest src n : ℕ)
    → dest ≢ 0
    → src ≢ 0
    → IsString m src n
    → (dest + n + 1 ≤ src) ⊎ (src + n + 1 ≤ dest)
    → dest + n + 1 < 2 ^ 64
    → n < fuel
    → (m' : Mem) × (mstrcpy fuel m dest src ≡ some m')
      × ((x : ℕ) → m' x ≡ (if within dest (n + 1) x then m (src + (x - dest)) else m x))
unfolding mstrcpy
mstrcpy_lem zero m dest src n nd ns s apart room lt = absurd (omega arith)
mstrcpy_lem (suc fuel) m dest src zero nd ns s apart room lt =
    let some_dest : (dest == 0) ≡ false = ground arith in
    let some_src : (src == 0) ≡ false = ground arith in
    let e : src + 0 ≡ src = omega arith in
    let last : (m src == 0) ≡ true = ground (arith, ap m e, s.nul) in
    (
      store m dest (m src),
      rw (some_dest, some_src, last) refl,
      λ x.
          let at : x ≡ dest → src + (x - dest) ≡ src = λ h. omega arith in
          elim (Bool-cases (x == dest)) [
            | inl here ↦ ground (arith, ap m (at (ground arith)))
            | inr there ↦ ground arith
          ],
    )
mstrcpy_lem (suc fuel) m dest src (suc n) nd ns s apart room lt =
    let here : m src ≢ 0 = λ z. s.chars 0 (omega arith) (ap m (omega arith) ∙ z) in
    let copied = store m dest (m src) in
    let (m', e, rest) =
      mstrcpy_lem fuel copied (dest + 1) (src + 1) n (omega arith) (omega arith)
        (IsString-store m (src + 1) n dest (m src) (IsString-rest m src n s) (ground arith))
        (ground arith) (omega arith) (omega arith) in
    (
      m',
      mstrcpy_round fuel m dest src nd ns here (omega arith) (omega (arith, s.room)) ∙ e,
      λ x.
          let at : x ≡ dest → src + (x - dest) ≡ src = λ h. omega arith in
          elim (Bool-cases (x == dest)) [
            | inl first ↦ ground (arith, rest x, ap m (at (ground arith)))
            | inr later ↦ ground (arith, rest x)
          ],
    )
