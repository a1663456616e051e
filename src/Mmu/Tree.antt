-- ===== src/Mmu/Tree.antt =====
-- The tables of src/mmu.c as a tree. Every table has a place in it, numbered the way a heap is: 1
-- for the table at level two, and `n * 512 + i` for the table under index `i` of the one at `n`.
-- The place 0 is that of a page that is no table.
use ducreu_os.Base.{
  ℕ, ◌+◌, ◌*◌, ◌/◌, ◌%◌, ◌^◌, ◌≤◌, ◌<◌, ◌≡◌, ◌≢◌, List, [], ◌∷◌, ◌==◌, true, false, if◌then◌else◌,
  bit_or, arith,
}
use ducreu_os.Mmu.{Tables, is_valid, is_leaf, lower, set_entry}
use ducreu_os.Mmu.Entry.{branch_lem}

abbrev pub mark : (ℕ → ℕ) → ℕ → ℕ → ℕ → ℕ
mark place p n a = if a == p then n else place a

-- not one of the pages
abbrev pub Apart : ℕ → List ℕ → Type 0
Apart p [] = Unit {0}
Apart p (q ∷ pool) = (p ≢ q) × Apart p pool

-- The pages that `page_zalloc` will return are aligned, different, and no tables.
abbrev pub Fresh : (ℕ → ℕ) → List ℕ → Type 0
Fresh place [] = Unit {0}
Fresh place (p ∷ pool) =
    (place p ≡ 0) × (p % 4096 ≡ 0) × (p < 2 ^ 64) × Apart p pool × Fresh place pool

-- A valid entry above level zero is a branch to the table at that place.
pub record IsTree (s : Tables) (root : ℕ) (place : ℕ → ℕ) : Type 0 where
  pub top : place root ≡ 1
  pub branches :
      (a j : ℕ)
      → j < 512
      → 1 ≤ place a
      → place a < 1024
      → is_valid (s.entries a j) ≡ true
      → (is_leaf (s.entries a j) ≡ false) × (place (lower (s.entries a j)) ≡ place a * 512 + j)
  pub fresh : Fresh place s.pool

pub IsTree-child :
    {s : Tables} {root : ℕ} {place : ℕ → ℕ} (t : IsTree s root place) (a j : ℕ)
    → j < 512
    → (1 ≤ place a) × (place a < 1024)
    → is_valid (s.entries a j) ≡ true
    → place (lower (s.entries a j)) ≡ place a * 512 + j
IsTree-child t a j hj b h = (t.branches a j hj b.0 b.1 h).1

pub Fresh-mark :
    (place : ℕ → ℕ) (p n : ℕ) (pool : List ℕ)
    → Apart p pool
    → Fresh place pool
    → Fresh (mark place p n) pool
Fresh-mark place p n [] apart f = f
Fresh-mark place p n (q ∷ pool) (ne, apart) (f0, f1, f2, f3, f4) =
    (ground arith, f1, f2, f3, Fresh-mark place p n pool apart f4)

-- the tables with the new table `p` under an entry of `pt`
abbrev pub grown : Tables → ℕ → List ℕ → ℕ → ℕ → Tables
grown s p pool pt i =
    set_entry (record s { entries = λ a j. if a == p then 0 else s.entries a j; pool = pool }) pt i
      (bit_or (p / 4) 1)

module _ (s : Tables) (root p : ℕ) (pool : List ℕ) (pt i : ℕ) (place : ℕ → ℕ)
    (t : IsTree s root place) (f : Fresh place (p ∷ pool)) (hi : i < 512) (lo : 1 ≤ place pt)
    (up : place pt < 1024) where
  grown-branches :
      (a j : ℕ)
      → j < 512
      → 1 ≤ mark place p (place pt * 512 + i) a
      → mark place p (place pt * 512 + i) a < 1024
      → let e = (grown s p pool pt i).entries a j in
        is_valid e ≡ true
        → (is_leaf e ≡ false)
          × (mark place p (place pt * 512 + i) (lower e)
              ≡ mark place p (place pt * 512 + i) a * 512 + j)
  grown-branches a j hj l u = ground (arith, branch_lem p f.1 f.2, t.branches a j)

  pub IsTree-grown : IsTree (grown s p pool pt i) root (mark place p (place pt * 512 + i))
  IsTree-grown = record {
    top = ground (arith, t.top);
    branches = grown-branches;
    fresh = Fresh-mark place p _ pool f.3 f.4;
  }
