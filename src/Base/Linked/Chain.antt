-- ===== src/Base/Linked/Chain.antt =====
-- Chains of doubly linked nodes: what a chain stands for, and which writes it survives.
use Prim.Native.Nat.{ℕ}
use mathlib.Core.Path.{◌≡◌, refl, sym}
use mathlib.Core.Logic.{◌≢◌}
use mathlib.Core.Option.{Option, some}
use mathlib.Core.List.{List, [], ◌∷◌, ◌++◌}
use native.Mathlib.Omega.{arith}
use ducreu_os.Base.Linked.{Node, Nodes, put}

-- address and payload of each node, in order
abbrev pub Cells : Type 0 → Type 0
Cells A = List (ℕ × A)

module _ {A : Type 0} where
  abbrev pub node : A → ℕ → ℕ → Node A
  node v n p = record { item = v; next = n; prev = p }

  -- the address of the first cell, or what stands behind the cells
  abbrev pub first : Cells A → ℕ → ℕ
  first [] after = after
  first ((a, v) ∷ xs) after = a

  -- the address of the last cell, or what stands before the cells
  abbrev pub final : ℕ → Cells A → ℕ
  final before [] = before
  final before ((a, v) ∷ xs) = final a xs

  abbrev pub NotIn : ℕ → Cells A → Type 0
  NotIn a [] = Unit
  NotIn a ((b, v) ∷ xs) = (a ≢ b) × NotIn a xs

  abbrev pub Distinct : Cells A → Type 0
  Distinct [] = Unit
  Distinct ((a, v) ∷ xs) = NotIn a xs × Distinct xs

  -- From the node behind `before` the pointers lead through the cells to `after`, and back.
  abbrev pub Chain : Nodes A → ℕ → Cells A → ℕ → Type 0
  Chain h before [] after = Unit
  Chain h before ((a, v) ∷ xs) after =
      (a ≢ 0) × (h a ≡ some (node v (first xs after) before)) × Chain h a xs after

  pub Chain-put :
      (h : Nodes A) (b : ℕ) (c : Option (Node A)) (before after : ℕ) (xs : Cells A)
      → NotIn b xs
      → Chain h before xs after
      → Chain (put h b c) before xs after
  Chain-put h b c before after [] out ch = tt
  Chain-put h b c before after ((a, v) ∷ xs) out ch =
      (ch.0, ground arith, Chain-put h b c a after xs out.1 ch.2)

  pub first-append :
      (xs ys : Cells A) (after : ℕ) → first (xs ++ ys) after ≡ first xs (first ys after)
  first-append [] ys after = refl
  first-append ((a, v) ∷ xs) ys after = refl

  pub final-append :
      (before : ℕ) (xs ys : Cells A) → final before (xs ++ ys) ≡ final (final before xs) ys
  final-append before [] ys = refl
  final-append before ((a, v) ∷ xs) ys = final-append a xs ys

  pub NotIn-append : (a : ℕ) (xs ys : Cells A) → NotIn a xs → NotIn a ys → NotIn a (xs ++ ys)
  NotIn-append a [] ys hx hy = hy
  NotIn-append a ((b, v) ∷ xs) ys hx hy = (hx.0, NotIn-append a xs ys hx.1 hy)

  pub NotIn-left : (a : ℕ) (xs ys : Cells A) → NotIn a (xs ++ ys) → NotIn a xs
  NotIn-left a [] ys h = tt
  NotIn-left a ((b, v) ∷ xs) ys h = (h.0, NotIn-left a xs ys h.1)

  pub NotIn-right : (a : ℕ) (xs ys : Cells A) → NotIn a (xs ++ ys) → NotIn a ys
  NotIn-right a [] ys h = h
  NotIn-right a ((b, v) ∷ xs) ys h = NotIn-right a xs ys h.1

  pub Distinct-left : (xs ys : Cells A) → Distinct (xs ++ ys) → Distinct xs
  Distinct-left [] ys d = tt
  Distinct-left ((a, v) ∷ xs) ys d = (NotIn-left a xs ys d.0, Distinct-left xs ys d.1)

  pub Distinct-right : (xs ys : Cells A) → Distinct (xs ++ ys) → Distinct ys
  Distinct-right [] ys d = d
  Distinct-right ((a, v) ∷ xs) ys d = Distinct-right xs ys d.1

  pub Distinct-insert :
      (xs ys : Cells A) (a : ℕ) (v : A)
      → Distinct (xs ++ ys)
      → NotIn a (xs ++ ys)
      → Distinct (xs ++ ((a, v) ∷ ys))
  Distinct-insert [] ys a v d out = (out, d)
  Distinct-insert ((b, w) ∷ xs) ys a v d out = (
    NotIn-append b xs ((a, v) ∷ ys) (NotIn-left b xs ys d.0)
        ((λ e. out.0 (sym e)), NotIn-right b xs ys d.0),
    Distinct-insert xs ys a v d.1 out.1,
  )

  pub Distinct-remove :
      (xs ys : Cells A) (a : ℕ) (v : A) → Distinct (xs ++ ((a, v) ∷ ys)) → Distinct (xs ++ ys)
  Distinct-remove [] ys a v d = d.1
  Distinct-remove ((b, w) ∷ xs) ys a v d = (
    NotIn-append b xs ys (NotIn-left b xs ((a, v) ∷ ys) d.0) (NotIn-right b xs ((a, v) ∷ ys) d.0).1,
    Distinct-remove xs ys a v d.1,
  )

  -- the removed address is not among the others
  pub NotIn-removed :
      (xs ys : Cells A) (a : ℕ) (v : A) → Distinct (xs ++ ((a, v) ∷ ys)) → NotIn a (xs ++ ys)
  NotIn-removed [] ys a v d = d.0
  NotIn-removed ((b, w) ∷ xs) ys a v d =
      ((λ e. (NotIn-right b xs ((a, v) ∷ ys) d.0).0 (sym e)), NotIn-removed xs ys a v d.1)

  pub Chain-append :
      (h : Nodes A) (before after : ℕ) (xs ys : Cells A)
      → Chain h before xs (first ys after)
      → Chain h (final before xs) ys after
      → Chain h before (xs ++ ys) after
  Chain-append h before after [] ys cx cy = cy
  Chain-append h before after ((a, v) ∷ xs) ys cx cy =
      (cx.0, rw (first-append xs ys after) cx.1, Chain-append h a after xs ys cx.2 cy)

  pub Chain-left :
      (h : Nodes A) (before after : ℕ) (xs ys : Cells A)
      → Chain h before (xs ++ ys) after
      → Chain h before xs (first ys after)
  Chain-left h before after [] ys c = tt
  Chain-left h before after ((a, v) ∷ xs) ys c =
      (c.0, rw (first-append xs ys after) at c.1, Chain-left h a after xs ys c.2)

  pub Chain-right :
      (h : Nodes A) (before after : ℕ) (xs ys : Cells A)
      → Chain h before (xs ++ ys) after
      → Chain h (final before xs) ys after
  Chain-right h before after [] ys c = c
  Chain-right h before after ((a, v) ∷ xs) ys c = Chain-right h a after xs ys c.2
