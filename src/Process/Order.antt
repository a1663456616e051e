-- ===== src/Process/Order.antt =====
-- The order of a process list of src/process.c: insertion keeps it sorted by `vruntime`, so that
-- the process taken first is one that is behind all others.
use mathlib.Core.List.{Perm, perm_middle}
use mathlib.Core.Path.{subst}
use ducreu_os.Base.{ℕ, ◌≤◌, ◌≡◌, ◌≢◌, some, length, [], ◌∷◌, leb, arith, Bool-cases, inl, inr}
use ducreu_os.Base.Linked.{Nodes}
use ducreu_os.Base.Linked.Chain.{Cells, node, NotIn}
use ducreu_os.Process.Place.{process_insert_lem}
use ducreu_os.Process.Remove.{process_remove_lowest_lem}
use ducreu_os.Process.{ProcessList, process_insert, process_remove_lowest}
use ducreu_os.Process.Lists.{
  lower, upper, insert_cell, lower-append-upper, AllFrom, IsSorted, IsList,
}

module _ (vr : ℕ → ℕ) where
  AllFrom-mono : (n m : ℕ) (xs : Cells ℕ) → n ≤ m → AllFrom vr m xs → AllFrom vr n xs
  AllFrom-mono n m [] le h = tt
  AllFrom-mono n m ((a, v) ∷ xs) le h = (omega arith, AllFrom-mono n m xs le h.1)

  AllFrom-insert :
      (n a p : ℕ) (xs : Cells ℕ) → n ≤ vr p → AllFrom vr n xs → AllFrom vr n (insert_cell vr a p xs)
  AllFrom-insert n a p [] le h = (le, tt)
  AllFrom-insert n a p ((b, v) ∷ xs) le h = elim (Bool-cases (leb (vr p) (vr v))) [
    | inl e ↦ rw e (le, h)
    | inr e ↦ rw e (h.0, AllFrom-insert n a p xs le h.1)
  ]

  pub insert_cell-IsSorted :
      (a p : ℕ) (xs : Cells ℕ) → IsSorted vr xs → IsSorted vr (insert_cell vr a p xs)
  insert_cell-IsSorted a p [] s = (tt, tt)
  insert_cell-IsSorted a p ((b, v) ∷ xs) s = elim (Bool-cases (leb (vr p) (vr v))) [
    | inl e ↦ rw e ((ground arith, AllFrom-mono (vr p) (vr v) xs (ground arith) s.0), s)
    | inr e ↦
        rw e (AllFrom-insert (vr v) a p xs (ground arith) s.0, insert_cell-IsSorted a p xs s.1)
  ]

  insert_cell-perm : (a p : ℕ) (xs : Cells ℕ) → Perm (insert_cell vr a p xs) ((a, p) ∷ xs)
  insert_cell-perm a p xs =
      subst (λ l. Perm (insert_cell vr a p xs) ((a, p) ∷ l)) (lower-append-upper vr p xs)
        (perm_middle (lower vr p xs) (upper vr p xs))

  -- process_insert into a sorted list leaves a sorted list of the same nodes and the new one.
  pub process_insert-IsSorted :
      (fuel : ℕ) (h : Nodes ℕ) (f p old n₀ p₀ : ℕ) (pl : ProcessList) (xs : Cells ℕ)
      → p ≢ 0
      → f ≢ 0
      → h f ≡ some (node old n₀ p₀)
      → IsList h pl xs
      → NotIn f xs
      → length xs ≤ fuel
      → IsSorted vr xs
      → (pl' : ProcessList) × (h' : Nodes ℕ) × (ys : Cells ℕ) × (process_insert vr fuel f pl p h
          ≡ some (pl', h'))
        × IsList h' pl' ys
        × IsSorted vr ys
        × Perm ys ((f, p) ∷ xs)
  process_insert-IsSorted fuel h f p old n₀ p₀ pl xs pne ne new is out le s =
      let (pl', h', run, is', frame) =
        process_insert_lem vr fuel h f p old n₀ p₀ pl xs pne ne new is out le in
      (
        pl',
        h',
        insert_cell vr f p xs,
        run,
        is',
        insert_cell-IsSorted f p xs s,
        insert_cell-perm f p xs,
      )

  -- The scheduler takes the process with the least `vruntime`: process_remove_lowest on a sorted
  -- list that is not empty returns a process that is behind none of the others, which stay sorted.
  pub process_remove_lowest-least :
      (h : Nodes ℕ) (pl : ProcessList) (a v : ℕ) (xs : Cells ℕ)
      → IsList h pl ((a, v) ∷ xs)
      → IsSorted vr ((a, v) ∷ xs)
      → (pl' : ProcessList) × (h' : Nodes ℕ) × (process_remove_lowest pl h ≡ some ((v, pl'), h'))
        × IsList h' pl' xs
        × AllFrom vr (vr v) xs
        × IsSorted vr xs
  process_remove_lowest-least h pl a v xs is s =
      let (pl', h', run, is') = process_remove_lowest_lem h pl ((a, v) ∷ xs) is in
      (pl', h', run, is', s.0, s.1)
