-- ===== src/Utils/Text/Compare.antt =====
-- What the comparisons of src/utils.c decide.
use ducreu_os.Base.{ℕ, ◌<◌, ◌≡◌, ◌≢◌, ◌↔◌, refl, ap, ap₂, List, [], ◌∷◌, arith}
use ducreu_os.Utils.Text.{first, mstrcmp, samestr, msstrcmp, samecmd, msstrcpy}

-- characters in front of the NUL
abbrev pub AllChars : List ℕ → Type 0
AllChars [] = Unit {0}
AllChars (c ∷ cs) = (c ≢ 0) × (c < 256) × AllChars cs

abbrev tail : List ℕ → List ℕ
tail [] = []
tail (c ∷ cs) = cs

mstrcmp_lem : (a b : List ℕ) → AllChars a → AllChars b → (mstrcmp a b ≡ 0) ↔ (a ≡ b)
unfolding mstrcmp
mstrcmp_lem [] [] ca cb = (λ e. refl, λ e. refl)
mstrcmp_lem [] (b ∷ ds) ca cb =
    (λ e. absurd (ground (arith, cb.0, cb.1)), λ e. absurd (ground (arith, cb.0, ap first e)))
mstrcmp_lem (a ∷ cs) [] ca cb =
    (λ e. absurd (ground (arith, ca.0, ca.1)), λ e. absurd (ground (arith, ca.0, ap first e)))
mstrcmp_lem (a ∷ cs) (b ∷ ds) ca cb = (
  λ e.
      ap₂ ◌∷◌ (ground (arith, ca.1, cb.1))
        ((mstrcmp_lem cs ds ca.2 cb.2).0 (ground (arith, ca.1, cb.1))),
  λ e. ground (arith, ap first e, (mstrcmp_lem cs ds ca.2 cb.2).1 (ap tail e)),
)

-- `samestr` answers 1 exactly on equal strings.
pub samestr_lem : (a b : List ℕ) → AllChars a → AllChars b → (samestr a b ≡ 1) ↔ (a ≡ b)
unfolding samestr
samestr_lem a b ca cb = ground (arith, mstrcmp_lem a b ca cb)

msstrcmp_lem :
    (a b : List ℕ) → AllChars a → AllChars b → (msstrcmp a b ≡ 0) ↔ (msstrcpy a ≡ msstrcpy b)
unfolding msstrcmp msstrcpy
msstrcmp_lem [] [] ca cb = (λ e. refl, λ e. refl)
msstrcmp_lem [] (b ∷ ds) ca cb =
    (λ e. ground (arith, cb.0, cb.1), λ e. ground (arith, cb.0, ap first e))
msstrcmp_lem (a ∷ cs) [] ca cb =
    (λ e. ground (arith, ca.0, ca.1), λ e. ground (arith, ca.0, ap first e))
msstrcmp_lem (a ∷ cs) (b ∷ ds) ca cb = (
  λ e. ground (arith, ca.1, cb.1, (msstrcmp_lem cs ds ca.2 cb.2).0),
  λ e. ground (arith, ap first e, ap tail e, (msstrcmp_lem cs ds ca.2 cb.2).1),
)

-- `samecmd` answers 1 exactly when the strings have the same first word.
pub samecmd_lem :
    (a b : List ℕ) → AllChars a → AllChars b → (samecmd a b ≡ 1) ↔ (msstrcpy a ≡ msstrcpy b)
unfolding samecmd
samecmd_lem a b ca cb = ground (arith, msstrcmp_lem a b ca cb)
