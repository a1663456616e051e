-- ===== src/Base/Linked.antt =====
-- Doubly linked nodes on an explicit heap: the loads and stores through a pointer, and chains of
-- nodes. Address 0 is NULL; a heap gives the node at each address that holds one.
pub mod Chain
pub mod Relink
use Prim.Native.Nat.{ℕ, zero}
use mathlib.Core.Option.{Option, none, some}
use mathlib.Core.List.{List, [], ◌∷◌}
use ducreu_os.Base.Tests.{◌==◌, if◌then◌else◌}

-- a payload and two pointers
pub record Node {ℓ} (A : Type ℓ) : Type ℓ where
  pub item : A
  pub next : ℕ
  pub prev : ℕ

abbrev pub Nodes {ℓ} : Type ℓ → Type ℓ
Nodes A = ℕ → Option (Node A)

module _ {A : Type 0} where
  abbrev pub put : Nodes A → ℕ → Option (Node A) → Nodes A
  put h a c b = if b == a then c else h b

-- `none` is a fault: a dereference of NULL or of an address that holds no node, a lock that is
-- never released, or a loop that has used its fuel.
abbrev pub Cmd : Type 0 → Type 0 → Type 0
Cmd A B = Nodes A → Option (B × Nodes A)

module _ {A : Type 0} where
  abbrev pub pure : {B : Type 0} → B → Cmd A B
  pure b h = some (b, h)

  infixl 5 ◌>>=◌ ◌>>◌
  abbrev pub ◌>>=◌ : {B C : Type 0} → Cmd A B → (B → Cmd A C) → Cmd A C
  ◌>>=◌ m f h = elim (m h) [ none ↦ none | some (b, h') ↦ f b h' ]

  abbrev pub ◌>>◌ : {C : Type 0} → Cmd A (Unit {0}) → Cmd A C → Cmd A C
  m >> k = m >>= λ _. k

  abbrev pub fault : {B : Type 0} → Cmd A B
  fault h = none

  unfoldable pub load : ℕ → Cmd A (Node A)
  load a h = if a == 0 then none else elim (h a) [ none ↦ none | some n ↦ some (n, h) ]

  unfoldable pub store_node : ℕ → Node A → Cmd A (Unit {0})
  store_node a n h = some (tt, put h a (some n))

  unfoldable pub set_item : ℕ → A → Cmd A (Unit {0})
  set_item a v = do n ← load a; store_node a (record n { item = v })

  unfoldable pub set_next : ℕ → ℕ → Cmd A (Unit {0})
  set_next a v = do n ← load a; store_node a (record n { next = v })

  unfoldable pub set_prev : ℕ → ℕ → Cmd A (Unit {0})
  set_prev a v = do n ← load a; store_node a (record n { prev = v })

  -- the node's memory goes back to the allocator
  unfoldable pub release : ℕ → Cmd A (Unit {0})
  release a = do n ← load a; λ h. some (tt, put h a none)
