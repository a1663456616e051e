-- ===== src/Mmu/Map.antt =====
-- `mmu_set` of src/mmu.c as a whole: the two steps down, and the entry that it writes.
use ducreu_os.Base.{
  ℕ, ◌+◌, ◌*◌, ◌/◌, ◌%◌, ◌^◌, ◌≤◌, ◌≡◌, ◌≢◌, refl, ap, ◌∙◌, some, ◌==◌, true, false, not,
  if◌then◌else◌, length, arith, inl, inr, Bool-cases,
}
use ducreu_os.Mmu.{
  Tables, is_valid, is_leaf, lower, set_entry, descend, leaf_entry, mmu_set, walk, mmu_translate,
  not_mapped, leaf_address,
}
use ducreu_os.Mmu.Tree.{IsTree, IsTree-child}
use ducreu_os.Mmu.Descent.{Descended, descend_lem, index, walk_branch, walk_same}

-- The tables that lead to the entry of an address.
pub record Route (s : Tables) (root : ℕ) (place : ℕ → ℕ) (v pt₁ pt₀ : ℕ) : Type 0 where
  pub tree : IsTree s root place
  pub valid₂ : is_valid (s.entries root (index 2 v)) ≡ true
  pub branch₂ : is_leaf (s.entries root (index 2 v)) ≡ false
  pub leads₂ : lower (s.entries root (index 2 v)) ≡ pt₁
  pub valid₁ : is_valid (s.entries pt₁ (index 1 v)) ≡ true
  pub branch₁ : is_leaf (s.entries pt₁ (index 1 v)) ≡ false
  pub leads₁ : lower (s.entries pt₁ (index 1 v)) ≡ pt₀

walk_last :
    (s s' : Tables) (a v : ℕ)
    → s'.entries a (index 0 v) ≡ s.entries a (index 0 v)
    → walk 0 s' a v ≡ walk 0 s a v
unfolding walk
walk_last s s' a v e = rw e refl

module _ {s : Tables} {root : ℕ} {place : ℕ → ℕ} {v pt₁ pt₀ : ℕ}
    (h : Route s root place v pt₁ pt₀) where
  pub place-mid : place pt₁ ≡ 512 + index 2 v
  place-mid = omega (
    arith,
    h.tree.top,
    ap place h.leads₂,
    IsTree-child h.tree root (index 2 v) (omega arith) (omega (arith, h.tree.top)) h.valid₂,
  )

  pub place-low : place pt₀ ≡ (512 + index 2 v) * 512 + index 1 v
  place-low = omega (
    arith,
    place-mid,
    ap place h.leads₁,
    IsTree-child h.tree pt₁ (index 1 v) (omega arith) (omega (arith, place-mid)) h.valid₁,
  )

  -- An entry at level zero is no part of the tree above.
  pub IsTree-set : (i e : ℕ) → IsTree (set_entry s pt₀ i e) root place
  IsTree-set i e = record {
    top = h.tree.top;
    branches = λ a j hj l u. ground (arith, place-low, h.tree.branches a j);
    fresh = h.tree.fresh;
  }

  set_entry-elsewhere :
      (a j i e : ℕ)
      → (place a ≡ place pt₀ → j ≢ i)
      → (set_entry s pt₀ i e).entries a j ≡ s.entries a j
  set_entry-elsewhere a j i e apart = elim (Bool-cases (a == pt₀)) [
    | inl here ↦ let other : j ≢ i = apart (ap place (ground arith)) in ground arith
    | inr there ↦ rw there refl
  ]

  -- The walk to the address itself comes to the entry that was written,
  walk-set_self :
      (e : ℕ)
      → walk 2 (set_entry s pt₀ (index 0 v) e) root v ≡ walk 0 (set_entry s pt₀ (index 0 v) e) pt₀ v
  walk-set_self e =
      walk_branch s' 1 root v (ground (arith, place-low, h.tree.top))
        (ground (arith, place-low, h.tree.top))
      ∙ ap (λ a. walk 1 s' a v) (ground (arith, place-low, h.tree.top))
      ∙ walk_branch s' 0 pt₁ v (ground (arith, place-low, place-mid))
          (ground (arith, place-low, place-mid))
      ∙ ap (λ a. walk 0 s' a v) (ground (arith, place-low, place-mid))
    where
      s' : Tables
      s' = set_entry s pt₀ (index 0 v) e

  -- and the walk to any other page sees nothing of it.
  walk-set_other :
      (e u : ℕ)
      → u / 4096 % 2 ^ 27 ≢ v / 4096 % 2 ^ 27
      → walk 2 (set_entry s pt₀ (index 0 v) e) root u ≡ walk 2 s root u
  walk-set_other e u ne = walk_same s s' 1 root u (ground (arith, place-low, h.tree.top)) λ d₂.
      let mid = IsTree-child h.tree root (index 2 u) (omega arith) (omega (arith, h.tree.top)) d₂ in
      walk_same s s' 0 _ u (ground (arith, place-low, h.tree.top, mid)) λ d₁.
        let low =
          IsTree-child h.tree _ (index 1 u) (omega arith) (omega (arith, mid, h.tree.top)) d₁ in
        walk_last s s' _ u (
          set_entry-elsewhere _ (index 0 u) (index 0 v) e
            λ same. λ i. ne (omega (arith, place-low, h.tree.top, mid, low, same, i)))
    where
      s' : Tables
      s' = set_entry s pt₀ (index 0 v) e

-- where an entry at level zero leads the address
abbrev pub entry_address : ℕ → ℕ → ℕ
entry_address e v =
    if not (is_valid e) then not_mapped else if is_leaf e then leaf_address 0 e v else not_mapped

walk_written :
    (s : Tables) (a v e : ℕ) → walk 0 (set_entry s a (index 0 v) e) a v ≡ entry_address e v
unfolding walk
walk_written s a v e =
    let written : (set_entry s a (index 0 v) e).entries a (index 0 v) ≡ e = ground arith in
    ap (λ d. entry_address d v) written

-- What `mmu_set` leaves: the entry is in place, and no other page is touched.
pub record WasSet (s : Tables) (root v e : ℕ) (s' : Tables) (place' : ℕ → ℕ) : Type 0 where
  pub tree : IsTree s' root place'
  pub unlocked : s'.lock ≡ 1
  pub left : length s.pool ≤ length s'.pool + 2
  pub here :
      (u : ℕ) → u / 4096 % 2 ^ 27 ≡ v / 4096 % 2 ^ 27 → mmu_translate s' root u ≡ entry_address e u
  pub elsewhere :
      (u : ℕ)
      → u / 4096 % 2 ^ 27 ≢ v / 4096 % 2 ^ 27
      → mmu_translate s' root u ≡ mmu_translate s root u

-- Two steps down make a route.
descents-Route :
    (s : Tables) (root v : ℕ) (place place₁ place₂ : ℕ → ℕ) (r₁ r₂ : Tables × ℕ)
    → IsTree s root place
    → Descended s root place root (index 2 v) r₁ place₁
    → Descended r₁.0 root place₁ r₁.1 (index 1 v) r₂ place₂
    → Route r₂.0 root place₂ v r₁.1 r₂.1
descents-Route s root v place place₁ place₂ r₁ r₂ t d₁ d₂ =
    let kept : r₂.0.entries root (index 2 v) ≡ r₁.0.entries root (index 2 v) =
      d₂.keeps root (index 2 v) (λ z. absurd (omega (arith, d₁.tree.top, z))) d₁.valid in
    record {
      tree = d₂.tree;
      valid₂ = rw kept d₁.valid;
      branch₂ = rw kept d₁.branch;
      leads₂ = rw kept d₁.leads;
      valid₁ = d₂.valid;
      branch₁ = d₂.branch;
      leads₁ = d₂.leads;
    }

-- The addresses of a page have one route.
Route-page :
    {s : Tables} {root : ℕ} {place : ℕ → ℕ} {v pt₁ pt₀ : ℕ}
    → Route s root place v pt₁ pt₀
    → (u : ℕ) → u / 4096 % 2 ^ 27 ≡ v / 4096 % 2 ^ 27
    → Route s root place u pt₁ pt₀
Route-page {v} h u page =
    let e₂ : index 2 u ≡ index 2 v = omega (arith, page) in
    let e₁ : index 1 u ≡ index 1 v = omega (arith, page) in
    record {
      tree = h.tree;
      valid₂ = rw e₂ h.valid₂;
      branch₂ = rw e₂ h.branch₂;
      leads₂ = rw e₂ h.leads₂;
      valid₁ = rw e₁ h.valid₁;
      branch₁ = rw e₁ h.branch₁;
      leads₁ = rw e₁ h.leads₁;
    }

Route-WasSet :
    (s₂ s : Tables) (root v e : ℕ) (place : ℕ → ℕ) (pt₁ pt₀ : ℕ)
    → Route s₂ root place v pt₁ pt₀
    → length s.pool ≤ length s₂.pool + 2
    → ((u : ℕ) → walk 2 s₂ root u ≡ walk 2 s root u)
    → WasSet s root v e (record (set_entry s₂ pt₀ (index 0 v) e) { lock = 1 }) place
unfolding mmu_translate walk
Route-WasSet s₂ s root v e place pt₁ pt₀ h left same =
    let t = IsTree-set h (index 0 v) e in
    record {
      tree = record { top = t.top; branches = t.branches; fresh = t.fresh };
      unlocked = refl;
      left = left;
      here = λ u page.
          let last : index 0 v ≡ index 0 u = omega (arith, page) in
          rw last (walk-set_self (Route-page h u page) e ∙ walk_written s₂ pt₀ u e);
      elsewhere = λ u ne. walk-set_other h e u ne ∙ same u;
    }

abbrev locked : Tables → Tables
locked s = record s { lock = 0 }

-- the step at level two, and the step at level one from there
abbrev step₂ : Tables → ℕ → ℕ → Tables × ℕ
step₂ s root v = descend (locked s) root (index 2 v)

abbrev step₁ : Tables → ℕ → ℕ → Tables × ℕ
step₁ s root v = descend (step₂ s root v).0 (step₂ s root v).1 (index 1 v)

locked-IsTree :
    (s : Tables) (root : ℕ) (place : ℕ → ℕ) → IsTree s root place → IsTree (locked s) root place
locked-IsTree s root place t = record { top = t.top; branches = t.branches; fresh = t.fresh }

descents :
    (s : Tables) (root v : ℕ) (place : ℕ → ℕ)
    → IsTree s root place
    → 2 ≤ length s.pool
    → (place₁ place₂ : ℕ → ℕ) × Descended
        (locked s)
        root
        place
        root
        (index 2 v)
        (step₂ s root v)
        place₁
      × Descended
          (step₂ s root v).0
          root
          place₁
          (step₂ s root v).1
          (index 1 v)
          (step₁ s root v)
          place₂
descents s root v place t room =
    let (place₁, d₁) =
      descend_lem (locked s) root place root (index 2 v) (locked-IsTree s root place t)
        (omega arith) (omega (arith, t.top), omega (arith, t.top)) (omega arith) in
    let at : place₁ (step₂ s root v).1 ≡ 512 + index 2 v = omega (
      arith,
      d₁.tree.top,
      ap place₁ d₁.leads,
      IsTree-child d₁.tree root (index 2 v) (omega arith)
          (omega (arith, d₁.tree.top), omega (arith, d₁.tree.top)) d₁.valid,
    ) in
    let (place₂, d₂) =
      descend_lem (step₂ s root v).0 root place₁ (step₂ s root v).1 (index 1 v) d₁.tree
        (omega arith) (omega (arith, at), omega (arith, at)) (omega (arith, d₁.left)) in
    (place₁, place₂, d₁, d₂)

-- Given two pages for new tables, `mmu_set` returns 0 with the entry in its place.
pub mmu_set_lem :
    (s : Tables) (root v paddr bits : ℕ) (place : ℕ → ℕ)
    → IsTree s root place
    → s.lock ≡ 1
    → 2 ≤ length s.pool
    → (s' : Tables) × (place' : ℕ → ℕ) × (mmu_set s root v paddr bits ≡ some (0, s'))
      × WasSet s root v (leaf_entry paddr bits) s' place'
unfolding mmu_set walk
mmu_set_lem s root v paddr bits place t free room =
    let (place₁, place₂, d₁, d₂) = descents s root v place t room in
    (
      record (set_entry (step₁ s root v).0 (step₁ s root v).1 (index 0 v) (leaf_entry paddr bits)) {
        lock = 1;
      },
      place₂,
      rw free refl,
      Route-WasSet (step₁ s root v).0 s root v (leaf_entry paddr bits) place₂ (step₂ s root v).1
          (step₁ s root v).1
          (descents-Route (locked s) root v place place₁ place₂ (step₂ s root v) (step₁ s root v)
            (locked-IsTree s root place t) d₁ d₂)
          (omega (arith, d₁.left, d₂.left)) λ u. d₂.same u ∙ d₁.same u,
    )
