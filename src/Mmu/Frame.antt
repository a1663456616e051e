-- ===== src/Mmu/Frame.antt =====
-- `mmu_map`, `mmu_unmap` and `mmu_map_multiple` of src/mmu.c, as `mmu_translate` sees them.
use ducreu_os.Base.{
  ℕ, ◌+◌, ◌*◌, ◌/◌, ◌%◌, ◌^◌, ◌≤◌, ◌<◌, ◌≡◌, ◌≢◌, ◌∙◌, some, ◌==◌, true, Bool, if◌then◌else◌,
  length, bit_or, arith,
}
use ducreu_os.Base.Binary.{bit_or-one}
use ducreu_os.Mmu.{Tables, is_leaf, leaf_entry, mmu_map, mmu_unmap, mmu_translate, not_mapped}
use ducreu_os.Mmu.Entry.{leaf_entry_lem, leaf_address_lem}
use ducreu_os.Mmu.Tree.{IsTree}
use ducreu_os.Mmu.Map.{entry_address, mmu_set_lem}

-- A leaf leads an address to its offset in the page of the leaf.
mapped_address :
    (paddr bits u : ℕ)
    → paddr < 2 ^ 56
    → bits < 1024
    → is_leaf bits ≡ true
    → entry_address (leaf_entry paddr (bit_or bits 1)) u ≡ paddr / 4096 * 4096 + u % 4096
mapped_address paddr bits u hp hb leaf =
    let b = bits / 2 * 2 + 1 in
    let e : leaf_entry paddr (bit_or bits 1) ≡ paddr / 4096 * 1024 + b =
      rw (bit_or-one bits) (leaf_entry_lem paddr b hp (omega arith)) in
    rw e (ground (arith, leaf_address_lem (paddr / 4096) b u))

-- the 27 bits of a page number are those of the other address
abbrev pub same_page : ℕ → ℕ → Bool
same_page u v = u / 4096 % 2 ^ 27 == v / 4096 % 2 ^ 27

by_page :
    (after here before : ℕ → ℕ) (v : ℕ)
    → ((u : ℕ) → u / 4096 % 2 ^ 27 ≡ v / 4096 % 2 ^ 27 → after u ≡ here u)
    → ((u : ℕ) → u / 4096 % 2 ^ 27 ≢ v / 4096 % 2 ^ 27 → after u ≡ before u)
    → (u : ℕ) → after u ≡ (if same_page u v then here u else before u)
by_page after here before v page other u = ground (arith, page u, other u)

-- When two pages are left for new tables and the bits grant a permission, `mmu_map` returns 0.
-- Every address of the page then translates to its offset in the physical page, every address of
-- another page to what it did before, and the tables are a tree again, with their mutex free.
pub mmu_map_lem :
    (s : Tables) (root v paddr bits : ℕ) (place : ℕ → ℕ)
    → IsTree s root place
    → s.lock ≡ 1
    → 2 ≤ length s.pool
    → paddr < 2 ^ 56
    → bits < 1024
    → is_leaf bits ≡ true
    → (s' : Tables) × (place' : ℕ → ℕ) × (mmu_map s root v paddr bits ≡ some (0, s'))
      × IsTree s' root place'
      × (s'.lock ≡ 1)
      × (length s.pool ≤ length s'.pool + 2)
      × ((u : ℕ)
          → mmu_translate s' root u
            ≡ (if same_page u v then paddr / 4096 * 4096 + u % 4096 else mmu_translate s root u))
unfolding mmu_map
mmu_map_lem s root v paddr bits place t free room hp hb leaf =
    let (s', place', e, w) = mmu_set_lem s root v paddr (bit_or bits 1) place t free room in
    (
      s',
      place',
      rw leaf e,
      w.tree,
      w.unlocked,
      w.left,
      by_page _ _ _ v (λ u page. w.here u page ∙ mapped_address paddr bits u hp hb leaf)
          w.elsewhere,
    )

-- When two pages are left, `mmu_unmap` returns 0. No address of the page translates then, every
-- other address translates as before, and the tables are a tree with their mutex free.
pub mmu_unmap_lem :
    (s : Tables) (root v : ℕ) (place : ℕ → ℕ)
    → IsTree s root place
    → s.lock ≡ 1
    → 2 ≤ length s.pool
    → (s' : Tables) × (place' : ℕ → ℕ) × (mmu_unmap s root v ≡ some (0, s'))
      × IsTree s' root place'
      × (s'.lock ≡ 1)
      × ((u : ℕ)
          → mmu_translate s' root u
            ≡ (if same_page u v then not_mapped else mmu_translate s root u))
unfolding mmu_unmap
mmu_unmap_lem s root v place t free room =
    let (s', place', e, w) = mmu_set_lem s root v 0 0 place t free room in
    (s', place', e, w.tree, w.unlocked, by_page _ _ _ v w.here w.elsewhere)
