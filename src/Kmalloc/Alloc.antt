-- ===== src/Kmalloc/Alloc.antt =====
-- What an allocation of src/kmalloc.c takes from the free memory.
use ducreu_os.Base.{
  ℕ, ◌+◌, ◌-◌, ◌*◌, ◌%◌, ◌^◌, ◌≤◌, ◌<◌, ◌≡◌, ◌⊎◌, inl, inr, refl, sym, subst, Bool, Bool-cases,
  if◌then◌else◌, true, false, ltb, leb, ◌&&◌, ◌||◌, Option, none, some, List, [], ◌∷◌, ◌++◌, arith,
}
use ducreu_os.Kmalloc.{
  Allocation, Heap, node_size, page_size, end_of, carve, behind, first_fit, rounded, pages_for,
  extended, grow, common_alloc,
}

-- the byte belongs to the node or to the bytes behind it
abbrev pub in_node : Allocation → ℕ → Bool
in_node b a = leb b.address a && ltb a (end_of b)

unfoldable pub is_free : List Allocation → ℕ → Bool
is_free [] a = false
is_free (p ∷ ps) a = let on = is_free ps a in in_node p a || on

-- The nodes lie between `low` and `high`, in the order of their addresses and without overlap.
unfoldable pub Fits : ℕ → List Allocation → ℕ → Type 0
Fits low [] high = low ≤ high
Fits low (p ∷ ps) high = (low ≤ p.address) × Fits (end_of p) ps high

pub Fits-le : (low high : ℕ) (ps : List Allocation) → Fits low ps high → low ≤ high
unfolding Fits
Fits-le low high [] fits = fits
Fits-le low high (p ∷ ps) fits = omega (arith, fits.0, Fits-le (end_of p) high ps (fits.1))

pub Fits-range :
    (low high a : ℕ) (ps : List Allocation)
    → Fits low ps high
    → is_free ps a ≡ true
    → (low ≤ a) × (a < high)
unfolding Fits is_free
Fits-range low high a [] fits e = ground arith
Fits-range low high a (p ∷ ps) fits e = elim (Bool-cases (is_free ps a)) [
  | inl there ↦
      let range = Fits-range (end_of p) high a ps (fits.1) there in
      (omega (arith, fits.0, range.0), range.1)
  | inr nowhere ↦
      let le = Fits-le (end_of p) high ps (fits.1) in (ground (arith, fits.0), ground (arith, le))
]

pub Fits-lower :
    (low low' high : ℕ) (ps : List Allocation) → low' ≤ low → Fits low ps high → Fits low' ps high
unfolding Fits
Fits-lower low low' high [] le fits = omega arith
Fits-lower low low' high (p ∷ ps) le fits = (omega (arith, fits.0), fits.1)

Fits-tail :
    (low high : ℕ) (p : Allocation) (ps : List Allocation)
    → Fits low (p ∷ ps) high
    → Fits (end_of p) ps high
unfolding Fits
Fits-tail low high p ps fits = fits.1

-- The node `b`, with room for `bytes`, is what the free memory has lost.
pub record Took (bytes low high : ℕ) (before after : List Allocation) (b : Allocation)
    : Type 0 where
  pub fits : Fits low after high
  pub enough : bytes ≤ b.size
  pub splits : (a : ℕ) → is_free before a ≡ (in_node b a || is_free after a)
  pub apart : (a : ℕ) → (in_node b a && is_free after a) ≡ false

free_behind :
    (p : Allocation) (high a : ℕ) (ps : List Allocation)
    → Fits (end_of p) ps high
    → (in_node p a && is_free ps a) ≡ false
free_behind p high a ps fits = elim (Bool-cases (is_free ps a)) [
  | inl there ↦ ground (arith, Fits-range (end_of p) high a ps fits there)
  | inr nowhere ↦ ground arith
]

-- the split when no sum wraps
abbrev plain_carve : ℕ → Allocation → List Allocation → Allocation × List Allocation
plain_carve bytes p rest =
    if leb (bytes + node_size) p.size
    then (
      record { address = p.address; size = bytes },
      record { address = p.address + node_size + bytes; size = p.size - bytes - node_size } ∷ rest,
    )
    else (p, rest)

carve-plain :
    (bytes : ℕ) (p : Allocation) (ps : List Allocation)
    → bytes ≤ p.size
    → end_of p < 2 ^ 64
    → carve bytes p ps ≡ plain_carve bytes p ps
carve-plain bytes p ps le word =
    let sum : (bytes + node_size) % 2 ^ 64 ≡ bytes + node_size = omega arith in
    elim (Bool-cases (leb (bytes + node_size) p.size)) [
      | inl room ↦
          let fit : bytes + node_size ≤ p.size = ground (arith, room) in
          let address : (p.address + node_size + bytes) % 2 ^ 64 ≡ p.address + node_size + bytes =
            omega (arith, fit) in
          let size : (p.size + 2 * 2 ^ 64 - bytes - node_size) % 2 ^ 64
              ≡ p.size - bytes - node_size =
            omega (arith, fit) in
          rw (sum, room, address, size) refl
      | inr full ↦ rw (sum, full) refl
    ]

plain_carve-Took :
    (bytes low high : ℕ) (p : Allocation) (ps : List Allocation)
    → bytes ≤ p.size
    → Fits low (p ∷ ps) high
    → let carved = plain_carve bytes p ps in Took bytes low high (p ∷ ps) (carved.1) (carved.0)
unfolding Fits is_free
plain_carve-Took bytes low high p ps le fits = elim (Bool-cases (leb (bytes + node_size) p.size)) [
  | inl room ↦
      let fit : bytes + node_size ≤ p.size = ground (arith, room) in
      rw room (record {
        fits =
            (omega (arith, fits.0), Fits-lower (end_of p) _ high ps (omega (arith, fit)) (fits.1));
        enough = omega arith;
        splits = λ a. ground (arith, fit);
        apart = λ a. ground (arith, fit, free_behind p high a ps (fits.1));
      })
  | inr full ↦ rw full (record {
    fits = Fits-lower (end_of p) low high ps (omega (arith, fits.0)) (fits.1);
    enough = le;
    splits = λ a. refl;
    apart = λ a. free_behind p high a ps (fits.1);
  })
]

carve-Took :
    (bytes low high : ℕ) (p : Allocation) (ps : List Allocation)
    → bytes ≤ p.size
    → high < 2 ^ 64
    → Fits low (p ∷ ps) high
    → let carved = carve bytes p ps in Took bytes low high (p ∷ ps) (carved.1) (carved.0)
carve-Took bytes low high p ps le word fits =
    subst (λ carved. Took bytes low high (p ∷ ps) (carved.1) (carved.0))
      (sym (
        carve-plain bytes p ps le
          (omega (arith, Fits-le (end_of p) high ps (Fits-tail low high p ps fits)))))
      (plain_carve-Took bytes low high p ps le fits)

-- the node taken lies in the free memory or in the new pages, and the rest of these is free
abbrev pub Answers : ℕ → ℕ → ℕ → List Allocation → Option (Allocation × List Allocation) → Type 0
Answers bytes low high ps none = Unit {0}
Answers bytes low high ps (some (b, rest)) = Took bytes low high ps rest b

behind-Took :
    (bytes low high : ℕ) (p b : Allocation) (ps rest : List Allocation)
    → Fits low (p ∷ ps) high
    → Took bytes (end_of p) high ps rest b
    → Took bytes low high (p ∷ ps) (p ∷ rest) b
unfolding Fits is_free
behind-Took bytes low high p b ps rest fits took = record {
  fits = (fits.0, took.fits);
  enough = took.enough;
  splits = λ a. ground (arith, took.splits a);
  apart = λ a. ground (arith, took.apart a, took.splits a, free_behind p high a ps (fits.1));
}

behind-Answers :
    (bytes low high : ℕ) (p : Allocation) (ps : List Allocation)
    (found : Option (Allocation × List Allocation))
    → Fits low (p ∷ ps) high
    → Answers bytes (end_of p) high ps found
    → Answers bytes low high (p ∷ ps) (behind p found)
behind-Answers bytes low high p ps none fits answers = tt
behind-Answers bytes low high p ps (some (b, rest)) fits answers =
    behind-Took bytes low high p b ps rest fits answers

first_fit-Answers :
    (bytes low high : ℕ) (ps : List Allocation)
    → high < 2 ^ 64
    → Fits low ps high
    → Answers bytes low high ps (first_fit bytes ps)
unfolding first_fit
first_fit-Answers bytes low high [] word fits = tt
first_fit-Answers bytes low high (p ∷ ps) word fits = elim (Bool-cases (ltb p.size bytes)) [
  | inl small ↦ rw small (
      behind-Answers bytes low high p ps (first_fit bytes ps) fits
        (first_fit-Answers bytes (end_of p) high ps word (Fits-tail low high p ps fits)))
  | inr large ↦ rw large (carve-Took bytes low high p ps (ground (arith, large)) word fits)
]

pub Fits-append :
    (low mid high : ℕ) (ps qs : List Allocation)
    → Fits low ps mid
    → Fits mid qs high
    → Fits low (ps ++ qs) high
unfolding Fits
Fits-append low mid high [] qs fits more = Fits-lower mid low high qs fits more
Fits-append low mid high (p ∷ ps) qs fits more =
    (fits.0, Fits-append (end_of p) mid high ps qs (fits.1) more)

Took-behind :
    (bytes low mid high : ℕ) (ps qs rest : List Allocation) (b : Allocation)
    → Fits low ps mid
    → Fits mid qs high
    → Took bytes mid high qs rest b
    → Took bytes low high (ps ++ qs) (ps ++ rest) b
unfolding Fits
Took-behind bytes low mid high [] qs rest b fits more took = record {
  fits = Fits-lower mid low high rest fits took.fits;
  enough = took.enough;
  splits = took.splits;
  apart = took.apart;
}
Took-behind bytes low mid high (p ∷ ps) qs rest b fits more took =
    behind-Took bytes low high p b (ps ++ qs) (ps ++ rest)
      (fits.0, Fits-append (end_of p) mid high ps qs (fits.1) more)
      (Took-behind bytes (end_of p) mid high ps qs rest b (fits.1) more took)

-- the pages that an allocation gets, as a node
abbrev pub new_node : Heap → ℕ → Allocation
new_node h n = record { address = h.heap_vaddr; size = pages_for n * page_size - node_size }

-- The answer of an allocation: NULL only when no pages are left, or a node taken from the free memory, or
-- from it and new pages at the end of the heap.
abbrev pub Allocated : Bool → ℕ → ℕ → Heap → Option (Allocation × Heap) → Type 0
Allocated pages_left bytes low h none = pages_left ≡ false
Allocated pages_left bytes low h (some (b, h')) =
    ((h'.heap_vaddr ≡ h.heap_vaddr) × Took bytes low h.heap_vaddr h.free h'.free b)
    ⊎ ((h'.heap_vaddr ≡ h.heap_vaddr + pages_for (rounded bytes) * page_size)
        × Took bytes low h'.heap_vaddr (h.free ++ (new_node h (rounded bytes) ∷ [])) h'.free b)

Took-fewer :
    (n bytes low high : ℕ) (before after : List Allocation) (b : Allocation)
    → bytes ≤ n
    → Took n low high before after b
    → Took bytes low high before after b
Took-fewer n bytes low high before after b le took = record {
  fits = took.fits;
  enough = omega (arith, took.enough);
  splits = took.splits;
  apart = took.apart;
}

-- the pages of a request below 2 GiB
pub pages_for_lem :
    (bytes : ℕ)
    → bytes + 4126 < 2 ^ 31
    → (rounded bytes + node_size ≤ pages_for (rounded bytes) * page_size)
      × (pages_for (rounded bytes) * page_size < 2 ^ 31)
pages_for_lem bytes small = (omega arith, omega arith)

int_product :
    (n : ℕ)
    → pages_for n * page_size < 2 ^ 31
    → extended (pages_for n * page_size % 2 ^ 32) ≡ pages_for n * page_size
int_product n lt = ground arith

grow-Allocated :
    (pages_left : Bool) (bytes low : ℕ) (h : Heap)
    → bytes + 4126 < 2 ^ 31
    → h.heap_vaddr + 2 ^ 31 ≤ 2 ^ 64
    → Fits low h.free h.heap_vaddr
    → Allocated pages_left bytes low h (grow pages_left h (rounded bytes))
unfolding grow Fits
grow-Allocated false bytes low h small word fits = refl
grow-Allocated true bytes low h small word fits =
    let n = rounded bytes in
    let p = new_node h n in
    let high = h.heap_vaddr + pages_for n * page_size in
    let (room, below) = pages_for_lem bytes small in
    let placed : Fits h.heap_vaddr (p ∷ []) high = (omega arith, omega (arith, room)) in
    let size : (pages_for n * page_size + 2 ^ 64 - node_size) % 2 ^ 64 ≡ p.size =
      omega (arith, room, below) in
    let top : (h.heap_vaddr + pages_for n * page_size) % 2 ^ 64 ≡ high = omega (arith, below) in
    rw (int_product n below, size, top)
      (inr (
        refl,
        Took-fewer n bytes low high _ _ _ (omega arith) (
            Took-behind n low h.heap_vaddr high h.free (p ∷ []) _ _ fits placed (
              carve-Took n h.heap_vaddr high p [] (omega (arith, room)) (omega (arith, below))
                placed)),
      ))

found-Allocated :
    (pages_left : Bool) (bytes low : ℕ) (h : Heap) (found : Option (Allocation × List Allocation))
    → bytes + 4126 < 2 ^ 31
    → h.heap_vaddr + 2 ^ 31 ≤ 2 ^ 64
    → Fits low h.free h.heap_vaddr
    → Answers (rounded bytes) low h.heap_vaddr h.free found
    → Allocated pages_left bytes low h (elim found [
      | none ↦ grow pages_left h (rounded bytes)
      | some (b, free) ↦ some (b, record h { free = free })
    ])
found-Allocated pages_left bytes low h none small word fits answers =
    grow-Allocated pages_left bytes low h small word fits
found-Allocated pages_left bytes low h (some (b, free)) small word fits answers =
    inl
      (refl, Took-fewer (rounded bytes) bytes low h.heap_vaddr h.free free b (omega arith) answers)

-- A request of less than 2 GiB with its node and the rest of its last page, on a heap whose free nodes
-- are in order and apart and which ends 2 GiB below the end of the addresses, returns NULL only when no
-- pages are left; else its node has room for the bytes, exactly this node is no longer free, of the free
-- memory or of it and the new pages, and the free nodes are in order and apart.
pub common_alloc-Allocated :
    (pages_left : Bool) (h : Heap) (bytes low : ℕ) (request_contiguous : Bool)
    → bytes + 4126 < 2 ^ 31
    → h.heap_vaddr + 2 ^ 31 ≤ 2 ^ 64
    → Fits low h.free h.heap_vaddr
    → Allocated pages_left bytes low h (common_alloc pages_left h bytes request_contiguous)
unfolding common_alloc
common_alloc-Allocated pages_left h bytes low true small word fits =
    found-Allocated pages_left bytes low h none small word fits tt
common_alloc-Allocated pages_left h bytes low false small word fits =
    found-Allocated pages_left bytes low h (first_fit (rounded bytes) h.free) small word fits
      (first_fit-Answers (rounded bytes) low h.heap_vaddr h.free (omega arith) fits)
