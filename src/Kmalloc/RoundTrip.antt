-- ===== src/Kmalloc/RoundTrip.antt =====
-- An allocation of src/kmalloc.c that is given back.
use ducreu_os.Base.{
  ℕ, ◌+◌, ◌*◌, ◌^◌, ◌≤◌, ◌<◌, ◌≡◌, inl, inr, refl, sym, ◌∙◌, subst, Bool, true, ltb, ◌&&◌, ◌||◌,
  some, List, [], ◌∷◌, ◌++◌, arith,
}
use ducreu_os.Kmalloc.{Allocation, Heap, page_size, rounded, common_alloc, kfree}
use ducreu_os.Kmalloc.Alloc.{
  in_node, is_free, Fits, Fits-append, Fits-range, Took, new_node, Allocated,
  common_alloc-Allocated, pages_for_lem,
}
use ducreu_os.Kmalloc.Free.{IsTaken, kfree-Trimmed}

is_free-append :
    (ps : List Allocation) (p : Allocation) (a : ℕ)
    → is_free (ps ++ (p ∷ [])) a ≡ (is_free ps a || in_node p a)
unfolding is_free
is_free-append [] p a = ground arith
is_free-append (q ∷ ps) p a = ground (arith, is_free-append ps p a)

Took-IsTaken :
    (bytes low high : ℕ) (before after : List Allocation) (b : Allocation)
    → Fits low before high
    → Took bytes low high before after b
    → IsTaken low high after b
Took-IsTaken bytes low high before after b fits took =
    let first : is_free before b.address ≡ true = ground (arith, took.splits b.address) in
    let last_byte = b.address + 23 + b.size in
    let last : is_free before last_byte ≡ true = ground (arith, took.splits last_byte) in
    let high_enough = Fits-range low high last_byte before fits last in
    record {
      above = (Fits-range low high b.address before fits first).0;
      below = omega (arith, high_enough.1);
      apart = took.apart;
    }

-- below the old end of the heap, the free memory is as before, up to the new end of the heap
abbrev pub Restored : Heap → Heap → ℕ → Type 0
Restored h h' a =
    (is_free h'.free a && ltb a h.heap_vaddr) ≡ (is_free h.free a && ltb a h'.heap_vaddr)

module _ (pages_left : Bool) (fuel low bytes : ℕ) (h : Heap) (pos : 0 < low)
    (small : bytes + 4126 < 2 ^ 31) (word : h.heap_vaddr + 2 ^ 31 ≤ 2 ^ 64)
    (fits : Fits low h.free h.heap_vaddr) where
  given_back :
      (b : Allocation) (h' : Heap) (before : List Allocation)
      → h'.heap_vaddr < low + fuel * page_size
      → Fits low before h'.heap_vaddr
      → Took bytes low h'.heap_vaddr before h'.free b
      → ((a : ℕ) → a < h.heap_vaddr → is_free before a ≡ is_free h.free a)
      → (h'' : Heap) × (kfree fuel h' b ≡ some h'') × ((a : ℕ) → Restored h h'' a)
  unfolding is_free
  given_back b h' before enough whole took same =
      let freed =
        kfree-Trimmed fuel low h' b pos enough took.fits
          (Took-IsTaken bytes low h'.heap_vaddr before h'.free b whole took) in
      (
        freed.0,
        freed.1,
        λ a. ground (
          arith,
          (freed.2).free_below a,
          took.splits a,
          same a,
          Fits-range low h.heap_vaddr a h.free fits,
        ),
      )

  given_answer :
      (b : Allocation) (h' : Heap)
      → h'.heap_vaddr < low + fuel * page_size
      → Allocated pages_left bytes low h (some (b, h'))
      → (h'' : Heap) × (kfree fuel h' b ≡ some h'') × ((a : ℕ) → Restored h h'' a)
  unfolding Fits
  given_answer b h' enough (inl (same, took)) =
      given_back b h' h.free enough (subst (Fits low h.free) (sym same) fits)
        (subst (λ v. Took bytes low v h.free h'.free b) (sym same) took) (λ a lt. refl)
  given_answer b h' enough (inr (grown, took)) =
      let n = rounded bytes in
      given_back b h' (h.free ++ (new_node h n ∷ [])) enough
        (Fits-append low h.heap_vaddr h'.heap_vaddr h.free (new_node h n ∷ []) fits
          (omega arith, omega (arith, grown, (pages_for_lem bytes small).0)))
        took (λ a lt. is_free-append h.free (new_node h n) a ∙ ground arith)

  -- On a heap whose free nodes are in order and apart and which ends 2 GiB below the end of the
  -- addresses, kfree of what an allocation of less than 2 GiB has just returned ends, with a round for
  -- each page of the heap and one, and below the old end of the heap the same bytes are free as before
  -- the allocation, up to the new end of the heap.
  pub kfree-common_alloc :
      (b : Allocation) (h' : Heap) (request_contiguous : Bool)
      → h'.heap_vaddr < low + fuel * page_size
      → common_alloc pages_left h bytes request_contiguous ≡ some (b, h')
      → (h'' : Heap) × (kfree fuel h' b ≡ some h'') × ((a : ℕ) → Restored h h'' a)
  kfree-common_alloc b h' request_contiguous enough e = given_answer b h' enough (
      subst (Allocated pages_left bytes low h) e
        (common_alloc-Allocated pages_left h bytes low request_contiguous small word fits))
