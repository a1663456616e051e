-- ===== src/Process/Lists.antt =====
-- What a process list of src/process.c stands for: the cells of its chain, and the order in which
-- the scheduler takes the processes.
use ducreu_os.Base.{ℕ, ◌≤◌, ◌≡◌, [], ◌∷◌, ◌++◌, leb, if◌then◌else◌, refl, arith}
use ducreu_os.Base.Linked.{Nodes}
use ducreu_os.Base.Linked.Chain.{Cells, first, Distinct, Chain}
use ducreu_os.Process.{ProcessList, mutex_unlocked}

-- The list is not locked, and its head leads through distinct nodes.
pub record IsList (h : Nodes ℕ) (pl : ProcessList) (xs : Cells ℕ) : Type 0 where
  pub unlocked : pl.mutex ≡ mutex_unlocked
  pub start : pl.head ≡ first xs 0
  pub chain : Chain h 0 xs 0
  pub distinct : Distinct xs

module _ (vruntime : ℕ → ℕ) where
  -- the cells in front of the place of `p`, and those behind it
  abbrev pub lower : ℕ → Cells ℕ → Cells ℕ
  lower p [] = []
  lower p ((a, v) ∷ xs) = if leb (vruntime p) (vruntime v) then [] else (a, v) ∷ lower p xs

  abbrev pub upper : ℕ → Cells ℕ → Cells ℕ
  upper p [] = []
  upper p ((a, v) ∷ xs) = if leb (vruntime p) (vruntime v) then (a, v) ∷ xs else upper p xs

  pub lower-append-upper : (p : ℕ) (xs : Cells ℕ) → lower p xs ++ upper p xs ≡ xs
  lower-append-upper p [] = refl
  lower-append-upper p ((a, v) ∷ xs) = ground (arith, lower-append-upper p xs)

  -- The list with a node for `p` at its place.
  abbrev pub insert_cell : ℕ → ℕ → Cells ℕ → Cells ℕ
  insert_cell a p xs = lower p xs ++ ((a, p) ∷ upper p xs)

  -- every process is at least as far on as `n`
  abbrev pub AllFrom : ℕ → Cells ℕ → Type 0
  AllFrom n [] = Unit
  AllFrom n ((a, v) ∷ xs) = (n ≤ vruntime v) × AllFrom n xs

  -- ascending by `vruntime`
  abbrev pub IsSorted : Cells ℕ → Type 0
  IsSorted [] = Unit
  IsSorted ((a, v) ∷ xs) = AllFrom (vruntime v) xs × IsSorted xs
