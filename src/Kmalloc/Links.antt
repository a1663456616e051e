-- ===== src/Kmalloc/Links.antt =====
-- The two pointers of the nodes of src/kmalloc.c, and the cyclic list that they make.
use ducreu_os.Base.{ℕ, ◌≡◌, ◌≢◌, sym, ◌∙◌, subst, ◌==◌, if◌then◌else◌, List, [], ◌∷◌, arith}

pub record Links : Type 0 where
  pub next : ℕ → ℕ
  pub prev : ℕ → ℕ

abbrev pub with_next : Links → ℕ → ℕ → Links
with_next l a v = record l { next = λ k. if k == a then v else l.next k }

abbrev pub with_prev : Links → ℕ → ℕ → Links
with_prev l a v = record l { prev = λ k. if k == a then v else l.prev k }

-- node `b` behind node `a`
unfoldable pub allocation_dll_insert : Links → ℕ → ℕ → Links
allocation_dll_insert l a b =
    let set_up = with_prev (with_next l b (l.next a)) b a in
    let led_to = with_next set_up a b in if a == b then l else with_prev led_to (led_to.next b) b

unfoldable pub allocation_dll_delete : Links → ℕ → Links
allocation_dll_delete l a =
    let back = with_prev l (l.next a) (l.prev a) in
    if l.next a == a then l else with_next back (back.prev a) (back.next a)

-- From `x` over the nodes to `y`, each node is led to the next one and back.
unfoldable pub Linked : Links → ℕ → List ℕ → ℕ → Type 0
Linked l x [] y = (l.next x ≡ y) × (l.prev y ≡ x)
Linked l x (z ∷ zs) y = (l.next x ≡ z) × (l.prev z ≡ x) × Linked l z zs y

unfoldable pub NotIn : ℕ → List ℕ → Type 0
NotIn k [] = Unit {0}
NotIn k (z ∷ zs) = (k ≢ z) × NotIn k zs

unfoldable pub Distinct : List ℕ → Type 0
Distinct [] = Unit {0}
Distinct (z ∷ zs) = NotIn z zs × Distinct zs

-- the cyclic list of different nodes, read from `x` on
abbrev pub IsCycle : Links → ℕ → List ℕ → Type 0
IsCycle l x zs = Distinct (x ∷ zs) × Linked l x zs x

Linked-frame :
    (l l' : Links) (a b c x : ℕ) (zs : List ℕ) (y : ℕ)
    → ((k : ℕ) → k ≢ a → k ≢ b → l'.next k ≡ l.next k)
    → ((k : ℕ) → k ≢ c → k ≢ b → l'.prev k ≡ l.prev k)
    → (x ≢ a) × (x ≢ b)
    → NotIn a zs
    → NotIn b zs
    → NotIn c zs
    → (y ≢ c) × (y ≢ b)
    → Linked l x zs y
    → Linked l' x zs y
unfolding Linked NotIn
Linked-frame l l' a b c x [] y nexts prevs nx na nb nc ny (e, e') =
    (nexts x (nx.0) (nx.1) ∙ e, prevs y (ny.0) (ny.1) ∙ e')
Linked-frame l l' a b c x (z ∷ zs) y nexts prevs nx na nb nc ny linked = (
  nexts x (nx.0) (nx.1) ∙ linked.0,
  prevs z (λ e. nc.0 (sym e)) (λ e. nb.0 (sym e)) ∙ linked.1,
  Linked-frame l l' a b c z zs y nexts prevs ((λ e. na.0 (sym e)), (λ e. nb.0 (sym e))) (na.1)
      (nb.1) (nc.1) ny (linked.2),
)

module _ (l : Links) (a b : ℕ) (ne : a ≢ b) (other : l.next a ≢ b) where
  inserted : Links
  inserted = allocation_dll_insert l a b

  inserted_next :
      (k : ℕ) → inserted.next k ≡ (if k == a then b else if k == b then l.next a else l.next k)
  unfolding inserted allocation_dll_insert
  inserted_next k = ground arith

  inserted_prev :
      (k : ℕ) → inserted.prev k ≡ (if k == l.next a then b else if k == b then a else l.prev k)
  unfolding inserted allocation_dll_insert
  inserted_prev k = ground arith

-- A new node that is inserted behind a node of a cyclic list is the next one there; the order of the
-- others is kept, and the pointers back lead the other way round.
pub insert-IsCycle :
    (l : Links) (a b : ℕ) (zs : List ℕ)
    → IsCycle l a zs
    → NotIn b (a ∷ zs)
    → IsCycle (allocation_dll_insert l a b) a (b ∷ zs)
unfolding inserted Linked NotIn Distinct
insert-IsCycle l a b [] ((not_a, d), (e, e')) (new, rest) =
    let ne : a ≢ b = λ eq. new (sym eq) in
    let other : l.next a ≢ b = λ eq. ne (sym e ∙ eq) in
    let n = inserted_next l a b ne other in
    let p = inserted_prev l a b ne other in
    (
      ((ne, tt), (tt, tt)),
      (ground (arith, n a), ground (arith, p b), (ground (arith, n b), ground (arith, p a))),
    )
insert-IsCycle l a b (z ∷ zs) ((not_a, d), (e, e', linked)) (new, rest) =
    let ne : a ≢ b = λ eq. new (sym eq) in
    let other : l.next a ≢ b = λ eq. rest.0 (sym eq ∙ e) in
    let n = inserted_next l a b ne other in
    let p = inserted_prev l a b ne other in
    (
      ((ne, not_a), (rest, d)),
      (
        ground (arith, n a),
        ground (arith, p b, rest.0),
        (
          ground (arith, n b),
          ground (arith, p z),
          Linked-frame l (allocation_dll_insert l a b) a b (l.next a) z zs a
              (λ k na nb. ground (arith, n k)) (λ k nc nb. ground (arith, p k))
              ((λ eq. not_a.0 (sym eq)), (λ eq. rest.0 (sym eq))) (not_a.1) (rest.1)
              (subst (λ k. NotIn k zs) (sym e) (d.0)) ((λ eq. not_a.0 (eq ∙ e)), ne) linked,
        ),
      ),
    )

last_in :
    (l : Links) (k x : ℕ) (zs : List ℕ) (y : ℕ) → Linked l x zs y → NotIn k (x ∷ zs) → k ≢ l.prev y
unfolding Linked NotIn
last_in l k x [] y (e, e') (ne, rest) = λ eq. ne (eq ∙ e')
last_in l k x (z ∷ zs) y linked away = last_in l k z zs y (linked.2) (away.1)

Linked-closed :
    (l l' : Links) (x : ℕ) (ws : List ℕ) (y z : ℕ)
    → l'.next (l.prev y) ≡ z
    → l'.prev z ≡ l.prev y
    → ((k : ℕ) → k ≢ l.prev y → l'.next k ≡ l.next k)
    → ((k : ℕ) → k ≢ z → l'.prev k ≡ l.prev k)
    → NotIn z ws
    → Distinct (x ∷ ws)
    → Linked l x ws y
    → Linked l' x ws z
unfolding Linked NotIn Distinct
Linked-closed l l' x [] y z to_z to_last nexts prevs away d (e, e') =
    (subst (λ k. l'.next k ≡ z) e' to_z, to_last ∙ e')
Linked-closed l l' x (w ∷ ws) y z to_z to_last nexts prevs away d linked = (
  nexts x (last_in l x w ws y (linked.2) (d.0)) ∙ linked.0,
  prevs w (λ e. away.0 (sym e)) ∙ linked.1,
  Linked-closed l l' w ws y z to_z to_last nexts prevs (away.1) (d.1) (linked.2),
)

module _ (l : Links) (a : ℕ) (ne : l.next a ≢ a) where
  deleted : Links
  deleted = allocation_dll_delete l a

  deleted_next : (k : ℕ) → deleted.next k ≡ (if k == l.prev a then l.next a else l.next k)
  unfolding deleted allocation_dll_delete
  deleted_next k = ground arith

  deleted_prev : (k : ℕ) → deleted.prev k ≡ (if k == l.next a then l.prev a else l.prev k)
  unfolding deleted allocation_dll_delete
  deleted_prev k = ground arith

-- A node that is deleted from a cyclic list of at least two is gone; the order of the others is kept.
pub delete-IsCycle :
    (l : Links) (a z : ℕ) (ws : List ℕ)
    → IsCycle l a (z ∷ ws)
    → IsCycle (allocation_dll_delete l a) z ws
unfolding deleted Linked NotIn Distinct
delete-IsCycle l a z ws ((not_a, d), (e, e', linked)) =
    let ne : l.next a ≢ a = λ eq. not_a.0 (sym eq ∙ e) in
    let n = deleted_next l a ne in
    let p = deleted_prev l a ne in
    (
      d,
      Linked-closed l (allocation_dll_delete l a) z ws a z (ground (arith, n (l.prev a)))
          (ground (arith, p z)) (λ k nk. ground (arith, n k)) (λ k nk. ground (arith, p k)) (d.0) d
          linked,
    )

-- The split of a node, an insertion behind it and its deletion, puts the new node in its place in the
-- cyclic list, and each of the two steps leaves a cyclic list with the order of the others.
pub delete-insert :
    (l : Links) (a b : ℕ) (zs : List ℕ)
    → IsCycle l a zs
    → NotIn b (a ∷ zs)
    → (IsCycle (allocation_dll_insert l a b) a (b ∷ zs))
      × (IsCycle (allocation_dll_delete (allocation_dll_insert l a b) a) b zs)
delete-insert l a b zs cycle new =
    let more = insert-IsCycle l a b zs cycle new in
    (more, delete-IsCycle (allocation_dll_insert l a b) a b zs more)
