-- ===== src/Minix3/Directory/Entries.antt =====
-- The search for a name in a block of directory entries of src/minix3.c.
use native.Mathlib.Decide.{dec_lt}
use ducreu_os.Base.{
  ℕ, zero, suc, ◌+◌, ◌<◌, ◌≡◌, ◌≢◌, ◌⊎◌, inl, inr, refl, subst, Bool-cases, ◌==◌, Option, none,
  some, List, [], ◌∷◌, length, ap, ap₂, ◌*◌, ◌↔◌, arith,
}
use ducreu_os.Base.Memory.{Mem}
use ducreu_os.Utils.Text.{samestr, first}
use ducreu_os.Minix3.Directory.{entry_inode, entry_name, string_at, search_entries}
use ducreu_os.Utils.Text.Compare.{AllChars, samestr_lem}

-- the characters, with a NUL behind them, lie at an address
abbrev pub IsString : Mem → ℕ → List ℕ → Type 0
IsString m a [] = m a ≡ 0
IsString m a (c ∷ cs) = (m a ≡ c) × IsString m (a + 1) cs

-- Entry `j` is in use and has the name.
abbrev pub HasName : Mem → List ℕ → ℕ → Type 0
HasName zone name j = (entry_inode zone j ≢ 0) × IsString zone (64 * j + 4) name

abbrev tail : List ℕ → List ℕ
tail [] = []
tail (c ∷ cs) = cs

string_at-AllChars : (n : ℕ) (m : Mem) (a : ℕ) → ((x : ℕ) → m x < 256) → AllChars (string_at n m a)
unfolding string_at
string_at-AllChars zero m a bytes = tt
string_at-AllChars (suc n) m a bytes = elim (Bool-cases (m a == 0)) [
  | inl e ↦ rw e tt
  | inr e ↦ rw e (ground (arith, e), bytes a, string_at-AllChars n m (a + 1) bytes)
]

string_at-IsString :
    (name : List ℕ) (m : Mem) (a : ℕ)
    → AllChars name
    → (string_at (suc (length name)) m a ≡ name) ↔ IsString m a name
unfolding string_at
string_at-IsString [] m a chars = elim (Bool-cases (m a == 0)) [
  | inl e ↦ rw e (λ s. ground (arith, e), λ z. refl)
  | inr e ↦ rw e (λ s. absurd (ground (arith, e, ap first s)), λ z. absurd (ground (arith, e, z)))
]
string_at-IsString (c ∷ cs) m a chars =
    let rest = string_at-IsString cs m (a + 1) (chars.2) in
    elim (Bool-cases (m a == 0)) [
      | inl e ↦ rw e (
        λ s. absurd (ground (arith, chars.0, ap first s)),
        λ z. absurd (ground (arith, e, z.0, chars.0)),
      )
      | inr e ↦
          rw e (
            (λ s. (ap first s, rest.0 (ap tail s))),
            λ z. ap₂ (λ d ds. d ∷ ds) (z.0) (rest.1 (z.1)),
          )
    ]

samestr-IsString :
    (name : List ℕ) (m : Mem) (a : ℕ)
    → ((x : ℕ) → m x < 256)
    → AllChars name
    → (samestr (string_at (suc (length name)) m a) name ≡ 1) ↔ IsString m a name
samestr-IsString name m a bytes chars =
    let same =
      samestr_lem (string_at (suc (length name)) m a) name (string_at-AllChars _ m a bytes) chars in
    let string = string_at-IsString name m a chars in
    (λ e. string.0 (same.0 e), λ s. same.1 (string.1 s))

-- the answer of a search in the first `n` entries
abbrev pub Searched : Mem → List ℕ → ℕ → Option ℕ → Type 0
Searched zone name n found =
    ((j : ℕ) × (j < n) × HasName zone name j × (found ≡ some (entry_inode zone j)))
    ⊎ (((j : ℕ) → j < n → ¬ HasName zone name j) × (found ≡ none))

search_entries-from :
    (n j : ℕ) (zone : Mem) (name : List ℕ)
    → ((x : ℕ) → zone x < 256)
    → AllChars name
    → ((k : ℕ) → k < j → ¬ HasName zone name k)
    → Searched zone name (j + n) (search_entries n j zone name)
unfolding search_entries
search_entries-from zero j zone name bytes chars before = inr (λ k lt. before k (omega arith), refl)
search_entries-from (suc n) j zone name bytes chars before =
    let string = samestr-IsString name zone (64 * j + 4) bytes chars in
    let longer : j + suc n ≡ j + 1 + n = omega arith in
    let on : ¬ HasName zone name j → (k : ℕ) → k < j + 1 → ¬ HasName zone name k = λ fails k lt.
      elim (dec_lt k j) [
        | yes p ↦ before k p
        | no p ↦ let same : j ≡ k = omega arith in subst (λ x. ¬ HasName zone name x) same fails
      ] in
    elim (Bool-cases (entry_inode zone j == 0)) [
      | inl e ↦ rw longer (
          rw e (search_entries-from n (j + 1) zone name bytes chars (on (λ h. h.0 (ground arith)))))
      | inr e ↦ elim (Bool-cases (samestr (entry_name zone j name) name == 1)) [
        | inl e' ↦
            inl (
              j,
              omega arith,
              ((λ z. ground (arith, z)), string.0 (ground arith)),
              rw e (rw e' refl),
            )
        | inr e' ↦ rw longer (
            rw e (
              rw e' (
                search_entries-from n (j + 1) zone name bytes chars
                  (on (λ h. ground (arith, string.1 (h.1)))))))
      ]
    ]

pub search_entries_lem :
    (n : ℕ) (zone : Mem) (name : List ℕ)
    → ((x : ℕ) → zone x < 256)
    → AllChars name
    → Searched zone name n (search_entries n 0 zone name)
search_entries_lem n zone name bytes chars =
    let whole : 0 + n ≡ n = omega arith in
    subst (λ k. Searched zone name k (search_entries n 0 zone name)) whole
      (search_entries-from n 0 zone name bytes chars (λ k lt. absurd (omega arith)))
