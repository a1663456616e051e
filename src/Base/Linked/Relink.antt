-- ===== src/Base/Linked/Relink.antt =====
-- The loads and stores of the linked-list code on a chain, and the chains they leave.
use Prim.Native.Nat.{ℕ}
use mathlib.Core.Path.{◌≡◌}
use mathlib.Core.Logic.{◌≢◌}
use mathlib.Core.Option.{none, some}
use mathlib.Core.List.{[], ◌∷◌, ◌++◌}
use native.Mathlib.Omega.{arith}
use ducreu_os.Base.Linked.{Nodes, put, load, store_node, set_item, set_next, set_prev, release}
use ducreu_os.Base.Linked.Chain.{Cells, node, first, final, NotIn, Distinct, Chain, Chain-put}

module _ {A : Type 0} (h : Nodes A) (a : ℕ) (v : A) (n p : ℕ) where
  pub load-ok : a ≢ 0 → h a ≡ some (node v n p) → load a h ≡ some (node v n p, h)
  unfolding load
  load-ok ne e = ground (arith, e)

  pub set_item-ok :
      (w : A)
      → a ≢ 0
      → h a ≡ some (node v n p)
      → set_item a w h ≡ some (tt, put h a (some (node w n p)))
  unfolding set_item store_node
  set_item-ok w ne e = ground (arith, load-ok ne e)

  pub set_next-ok :
      (b : ℕ)
      → a ≢ 0
      → h a ≡ some (node v n p)
      → set_next a b h ≡ some (tt, put h a (some (node v b p)))
  unfolding set_next store_node
  set_next-ok b ne e = ground (arith, load-ok ne e)

  pub set_prev-ok :
      (b : ℕ)
      → a ≢ 0
      → h a ≡ some (node v n p)
      → set_prev a b h ≡ some (tt, put h a (some (node v n b)))
  unfolding set_prev store_node
  set_prev-ok b ne e = ground (arith, load-ok ne e)

  pub release-ok : a ≢ 0 → h a ≡ some (node v n p) → release a h ≡ some (tt, put h a none)
  unfolding release
  release-ok ne e = ground (arith, load-ok ne e)

module _ {A : Type 0} where
  pub NotIn-final : (a b : ℕ) (v : A) (xs : Cells A) → NotIn a ((b, v) ∷ xs) → a ≢ final b xs
  NotIn-final a b v [] out = out.0
  NotIn-final a b v ((c, w) ∷ xs) out = NotIn-final a c w xs out.1

  -- the last node of a chain
  pub final-node :
      (h : Nodes A) (before after a : ℕ) (v : A) (xs : Cells A)
      → Chain h before ((a, v) ∷ xs) after
      → (w : A) × (p : ℕ) × (final a xs ≢ 0) × (h (final a xs) ≡ some (node w after p))
  final-node h before after a v [] c = (v, before, c.0, c.1)
  final-node h before after a v ((b, u) ∷ xs) c = final-node h a after b u xs c.2

  -- Pointing the last node elsewhere gives the chain to there.
  pub Chain-set_final :
      (h : Nodes A) (before after new a : ℕ) (v w : A) (p : ℕ) (xs : Cells A)
      → Distinct ((a, v) ∷ xs)
      → Chain h before ((a, v) ∷ xs) after
      → h (final a xs) ≡ some (node w after p)
      → Chain (put h (final a xs) (some (node w new p))) before ((a, v) ∷ xs) new
  Chain-set_final h before after new a v w p [] d c e = (c.0, ground arith, tt)
  Chain-set_final h before after new a v w p ((b, u) ∷ xs) d c e = (
    c.0,
    ground (arith, NotIn-final a b u xs d.0),
    Chain-set_final h a after new b u w p xs d.1 c.2 e,
  )

  -- Pointing the first node back elsewhere gives the chain from there.
  pub Chain-set_first :
      (h : Nodes A) (before after new b : ℕ) (u : A) (xs : Cells A)
      → Distinct ((b, u) ∷ xs)
      → Chain h before ((b, u) ∷ xs) after
      → Chain (put h b (some (node u (first xs after) new))) new ((b, u) ∷ xs) after
  Chain-set_first h before after new b u xs d c =
      (c.0, ground arith, Chain-put h b (some (node u (first xs after) new)) b after xs d.0 c.2)

  -- A node in front of a chain is a chain.
  pub Chain-cons :
      (h : Nodes A) (before after a : ℕ) (v : A) (xs : Cells A)
      → a ≢ 0
      → h a ≡ some (node v (first xs after) before)
      → Chain h a xs after
      → Chain h before ((a, v) ∷ xs) after
  Chain-cons h before after a v xs ne e c = (ne, e, c)

  -- The last of the first cells is not among the others.
  pub NotIn-final_right :
      (a : ℕ) (v : A) (xs ys : Cells A) → Distinct (((a, v) ∷ xs) ++ ys) → NotIn (final a xs) ys
  NotIn-final_right a v [] ys d = d.0
  NotIn-final_right a v ((b, u) ∷ xs) ys d = NotIn-final_right b u xs ys d.1
