-- ===== src/Kmalloc/Free.antt =====
-- What src/kmalloc.c does with bytes that are given back.
use ducreu_os.Base.{
  ℕ, zero, suc, ◌+◌, ◌-◌, ◌*◌, ◌≤◌, ◌<◌, ◌≡◌, ◌≢◌, inl, inr, refl, ap, ◌∙◌, subst, Bool-cases,
  false, ◌==◌, ltb, leb, ◌&&◌, ◌||◌, some, List, [], ◌∷◌, arith,
}
use ducreu_os.Kmalloc.{
  Allocation, Heap, node_size, page_size, end_of, insert_free, absorb, coalesce_free_list,
  shrink_node, in_front, shrink_list, kfree,
}
use ducreu_os.Kmalloc.Alloc.{in_node, is_free, Fits, Fits-le}

-- The node is apart from the free memory and lies in the heap.
pub record IsTaken (low high : ℕ) (ps : List Allocation) (q : Allocation) : Type 0 where
  pub above : low ≤ q.address
  pub below : end_of q ≤ high
  pub apart : (a : ℕ) → (in_node q a && is_free ps a) ≡ false

before_next :
    (low high : ℕ) (p q : Allocation) (ps : List Allocation)
    → IsTaken low high (p ∷ ps) q
    → p.address < q.address
    → end_of p ≤ q.address
unfolding is_free
before_next low high p q ps taken lt = ground (arith, taken.apart q.address)

after_next :
    (low high : ℕ) (p q : Allocation) (ps : List Allocation)
    → IsTaken low high (p ∷ ps) q
    → q.address ≤ p.address
    → end_of q ≤ p.address
unfolding is_free
after_next low high p q ps taken le = ground (arith, taken.apart p.address)

IsTaken-tail :
    (low high : ℕ) (p q : Allocation) (ps : List Allocation)
    → IsTaken low high (p ∷ ps) q
    → end_of p ≤ q.address
    → IsTaken (end_of p) high ps q
unfolding is_free
IsTaken-tail low high p q ps taken le = record {
  above = le;
  below = taken.below;
  apart = λ a. ground (arith, taken.apart a);
}

insert_free-Fits :
    (low high : ℕ) (q : Allocation) (ps : List Allocation)
    → Fits low ps high
    → IsTaken low high ps q
    → Fits low (insert_free q ps) high
      × ((a : ℕ) → is_free (insert_free q ps) a ≡ (in_node q a || is_free ps a))
unfolding insert_free Fits is_free
insert_free-Fits low high q [] fits taken = ((taken.above, taken.below), λ a. refl)
insert_free-Fits low high q (p ∷ ps) fits taken = elim (Bool-cases (ltb p.address q.address)) [
  | inl lower ↦
      let le = before_next low high p q ps taken (ground (arith, lower)) in
      let rest =
        insert_free-Fits (end_of p) high q ps (fits.1) (IsTaken-tail low high p q ps taken le) in
      rw lower ((fits.0, rest.0), λ a. ground (arith, (rest.1) a))
  | inr higher ↦
      let le = after_next low high p q ps taken (ground (arith, higher)) in
      rw higher ((taken.above, (le, fits.1)), λ a. refl)
]

-- no node begins where the one in front of it ends, the first one not at `from`
unfoldable pub Parted : ℕ → List Allocation → Type 0
Parted from [] = Unit {0}
Parted from (p ∷ ps) = (from ≢ p.address) × Parted (end_of p) ps

absorb-Fits :
    (low high from : ℕ) (p : Allocation) (ps : List Allocation)
    → Fits low (p ∷ ps) high
    → from ≢ p.address
    → Fits low (absorb p ps) high
      × Parted from (absorb p ps)
      × ((a : ℕ) → is_free (absorb p ps) a ≡ is_free (p ∷ ps) a)
unfolding absorb Fits is_free Parted
absorb-Fits low high from p [] fits ne = (fits, (ne, tt), λ a. refl)
absorb-Fits low high from p (q ∷ qs) fits ne = elim (Bool-cases (end_of p == q.address)) [
  | inl e ↦
      let merged : Allocation = record p { size = p.size + (node_size + q.size) } in
      let ends : end_of q ≡ end_of merged = ground (arith, e) in
      let rest =
        absorb-Fits low high from merged qs (fits.0, subst (λ x. Fits x qs high) ends (fits.1.1))
          ne in
      rw e (rest.0, rest.1, λ a. (rest.2) a ∙ ground (arith, e))
  | inr apart ↦
      let rest =
        absorb-Fits (end_of p) high (end_of p) q qs (fits.1) (λ e. ground (arith, e, apart)) in
      rw apart ((fits.0, rest.0), (ne, rest.1), λ a. ground (arith, (rest.2) a))
]

coalesce-Fits :
    (low high : ℕ) (ps : List Allocation)
    → 0 < low
    → Fits low ps high
    → Fits low (coalesce_free_list ps) high
      × Parted 0 (coalesce_free_list ps)
      × ((a : ℕ) → is_free (coalesce_free_list ps) a ≡ is_free ps a)
unfolding coalesce_free_list Parted Fits
coalesce-Fits low high [] pos fits = (fits, tt, λ a. refl)
coalesce-Fits low high (p ∷ ps) pos fits =
    absorb-Fits low high 0 p ps fits (λ e. omega (arith, e, fits.0))

-- The last node and the end of the heap after pages have been given back.
pub record Shrunk (last : Allocation) (vaddr : ℕ) (last' : Allocation) (vaddr' : ℕ) : Type 0 where
  pub same : last'.address ≡ last.address
  pub pages : ℕ
  pub down : vaddr ≡ vaddr' + pages * page_size
  pub inside : end_of last' ≤ vaddr'
  pub cut : (a : ℕ) → in_node last' a ≡ (in_node last a && ltb a vaddr')
  pub no_more : ((end_of last' == vaddr') && leb page_size last'.size) ≡ false

shrink_node-Shrunk :
    (fuel : ℕ) (last : Allocation) (vaddr : ℕ)
    → last.size < fuel * page_size
    → end_of last ≤ vaddr
    → (last' : Allocation) × (vaddr' : ℕ) × (shrink_node fuel last vaddr ≡ some (last', vaddr'))
      × Shrunk last vaddr last' vaddr'
unfolding shrink_node
shrink_node-Shrunk zero last vaddr lt le = absurd (omega arith)
shrink_node-Shrunk (suc fuel) last vaddr lt le =
    elim (Bool-cases ((end_of last == vaddr) && leb page_size last.size)) [
      | inl more ↦
          let room : page_size ≤ last.size = ground (arith, more) in
          let ends : end_of last ≡ vaddr = ground (arith, more) in
          let rest =
            shrink_node-Shrunk fuel (record last { size = last.size - page_size })
              (vaddr - page_size) (omega (arith, room)) (omega (arith, room)) in
          let s = rest.3 in
          rw more (
            rest.0,
            rest.1,
            rest.2,
            record {
              same = s.same;
              pages = s.pages + 1;
              down = omega (arith, s.down, room, ends);
              inside = s.inside;
              cut = λ a. ground (arith, s.cut a, s.down, room, ends);
              no_more = s.no_more;
            },
          )
      | inr done ↦ rw done (
        last,
        vaddr,
        refl,
        record {
          same = refl;
          pages = 0;
          down = omega arith;
          inside = le;
          cut = λ a. ground arith;
          no_more = done;
        },
      )
    ]

-- The heap `h` has the free memory `ps` below its end, which is `vaddr` less some pages.
pub record Trimmed (low from : ℕ) (ps : List Allocation) (vaddr : ℕ) (h : Heap) : Type 0 where
  pub fits : Fits low h.free h.heap_vaddr
  pub parted : Parted from h.free
  pub pages : ℕ
  pub down : vaddr ≡ h.heap_vaddr + pages * page_size
  pub free_below : (a : ℕ) → is_free h.free a ≡ (is_free ps a && ltb a h.heap_vaddr)

shrink_list-Trimmed :
    (fuel low from : ℕ) (ps : List Allocation) (vaddr : ℕ)
    → vaddr < low + fuel * page_size
    → Fits low ps vaddr
    → Parted from ps
    → (h : Heap) × (shrink_list fuel ps vaddr ≡ some h) × Trimmed low from ps vaddr h
unfolding shrink_list Fits is_free Parted
shrink_list-Trimmed fuel low from [] vaddr lt fits parted = (
  record { free = []; heap_vaddr = vaddr },
  refl,
  record { fits = fits; parted = tt; pages = 0; down = omega arith; free_below = λ a. refl },
)
shrink_list-Trimmed fuel low from (p ∷ []) vaddr lt fits parted =
    let shrunk = shrink_node-Shrunk fuel p vaddr (omega (arith, fits.0, fits.1)) (fits.1) in
    let s = shrunk.3 in
    (
      record { free = shrunk.0 ∷ []; heap_vaddr = shrunk.1 },
      rw (shrink_list, shrunk.2) refl,
      record {
        fits = (omega (arith, fits.0, s.same), s.inside);
        parted = ((λ e. parted.0 (e ∙ s.same)), tt);
        pages = s.pages;
        down = s.down;
        free_below = λ a. ground (arith, s.cut a);
      },
    )
shrink_list-Trimmed fuel low from (p ∷ q ∷ qs) vaddr lt fits parted =
    let rest =
      shrink_list-Trimmed fuel (end_of p) (end_of p) (q ∷ qs) vaddr (omega (arith, fits.0)) (fits.1)
        (parted.1) in
    let t = rest.2 in
    let le = Fits-le (end_of p) (rest.0).heap_vaddr (rest.0).free t.fits in
    (
      record { free = p ∷ (rest.0).free; heap_vaddr = (rest.0).heap_vaddr },
      ap (in_front p) (rest.1),
      record {
        fits = (fits.0, t.fits);
        parted = (parted.0, t.parted);
        pages = t.pages;
        down = t.down;
        free_below = λ a. ground (arith, t.free_below a, le);
      },
    )

-- With a round for each page from the heap's start `low` to its end and one, kfree of a node that is
-- apart from the free memory, whose nodes are in order and apart, returns. The free memory is then
-- that of before and the node, less some pages at the end of the heap, which end the heap earlier;
-- the free nodes are in order and apart, and no two of them touch.
pub kfree-Trimmed :
    (fuel low : ℕ) (h : Heap) (q : Allocation)
    → 0 < low
    → h.heap_vaddr < low + fuel * page_size
    → Fits low h.free h.heap_vaddr
    → IsTaken low h.heap_vaddr h.free q
    → (h' : Heap) × (kfree fuel h q ≡ some h') × Trimmed low 0 (q ∷ h.free) h.heap_vaddr h'
unfolding kfree is_free
kfree-Trimmed fuel low h q pos enough fits taken =
    let inserted = insert_free-Fits low h.heap_vaddr q h.free fits taken in
    let merged = coalesce-Fits low h.heap_vaddr (insert_free q h.free) pos (inserted.0) in
    let rest =
      shrink_list-Trimmed fuel low 0 (coalesce_free_list (insert_free q h.free)) h.heap_vaddr enough
        (merged.0) (merged.1) in
    let t = rest.2 in
    (
      rest.0,
      rest.1,
      record {
        fits = t.fits;
        parted = t.parted;
        pages = t.pages;
        down = t.down;
        free_below = λ a. ground (arith, t.free_below a, (merged.2) a, (inserted.1) a);
      },
    )
