-- ===== src/Mmu.antt =====
-- The page tables of src/mmu.c: three levels of tables of 512 entries of 64 bits, read as memory.
-- `pool` holds the pages that `page_zalloc` will return, in their order: it returns NULL when the
-- pool is empty. A `mutex_wait` on the locked mutex of the tables does not return.
pub mod Entry
pub mod Tree
pub mod Descent
pub mod Map
pub mod Frame
pub mod Range
pub mod Offset
mod Tests
use ducreu_os.Base.{
  ℕ, zero, suc, ◌+◌, ◌-◌, ◌*◌, ◌/◌, ◌%◌, ◌^◌, List, [], ◌∷◌, Option, none, some, Bool, ◌==◌, ltb,
  not, if◌then◌else◌, ◌>>=◌, bit_or,
}

pub record Tables : Type 0 where
  -- the entry of the table at an address under an index
  pub entries : ℕ → ℕ → ℕ
  pub pool : List ℕ
  pub lock : ℕ

-- `PTEB_VALID`, and `entry & 0xe`: the entry grants a permission, so it is a leaf
abbrev pub is_valid : ℕ → Bool
is_valid entry = entry % 2 == 1

abbrev pub is_leaf : ℕ → Bool
is_leaf entry = not (entry / 2 % 8 == 0)

-- `(entry << 2) & ~0xFFFUL`
abbrev pub lower : ℕ → ℕ
lower entry = entry * 4 % 2 ^ 64 / 4096 * 4096

abbrev pub set_entry : Tables → ℕ → ℕ → ℕ → Tables
set_entry s pt i e = record s {
  entries = λ a j. if a == pt then (if j == i then e else s.entries a j) else s.entries a j;
}

pub page_zalloc : List ℕ → Tables → ℕ × Tables
page_zalloc [] s = (0, s)
page_zalloc (p ∷ pool) s =
    (p, record s { entries = λ a j. if a == p then 0 else s.entries a j; pool = pool })

-- one level down, into a new table where there is none yet
pub descend : Tables → ℕ → ℕ → Tables × ℕ
unfolding page_zalloc
descend s pt i =
    if is_valid (s.entries pt i)
    then (s, lower (s.entries pt i))
    else let (new_table, s') = page_zalloc s.pool s in
      let entry = bit_or (new_table / 4) 1 in (set_entry s' pt i entry, lower entry)

-- `ppn` and the entry at level zero
abbrev pub leaf_entry : ℕ → ℕ → ℕ
leaf_entry paddr bits =
    bit_or
      (bit_or (bit_or (paddr / 2 ^ 30 % 2 ^ 26 * 2 ^ 28) (paddr / 2 ^ 21 % 512 * 2 ^ 19))
        (paddr / 2 ^ 12 % 512 * 2 ^ 10))
      bits

pub mmu_set : Tables → ℕ → ℕ → ℕ → ℕ → Option (ℕ × Tables)
unfolding descend
mmu_set s pt vaddr paddr bits =
    if s.lock == 0
    then none
    else let (s₁, pt₁) = descend (record s { lock = 0 }) pt (vaddr / 2 ^ 30 % 512) in
      let (s₂, pt₀) = descend s₁ pt₁ (vaddr / 2 ^ 21 % 512) in
      let s₃ = set_entry s₂ pt₀ (vaddr / 2 ^ 12 % 512) (leaf_entry paddr bits) in
      some (0, record s₃ { lock = 1 })

-- -1 as an `int`
abbrev pub map_error : ℕ
map_error = 2 ^ 32 - 1

pub mmu_map : Tables → ℕ → ℕ → ℕ → ℕ → Option (ℕ × Tables)
unfolding mmu_set
mmu_map s pt vaddr paddr bits =
    if is_leaf bits then mmu_set s pt vaddr paddr (bit_or bits 1) else some (map_error, s)

pub mmu_unmap : Tables → ℕ → ℕ → Option (ℕ × Tables)
unfolding mmu_set
mmu_unmap s pt vaddr = mmu_set s pt vaddr 0 0

-- -1UL
abbrev pub not_mapped : ℕ
not_mapped = 2 ^ 64 - 1

-- the address that a leaf at level `i` leads to
abbrev pub leaf_address : ℕ → ℕ → ℕ → ℕ
leaf_address i entry vaddr =
    let ppn₀ = entry / 2 ^ 10 % 512 in
    let ppn₁ = entry / 2 ^ 19 % 512 in
    let ppn₂ = entry / 2 ^ 28 % 2 ^ 26 in
    if i == 2
    then bit_or (ppn₂ * 2 ^ 30) (vaddr % 2 ^ 30)
    else if i == 1
    then bit_or (bit_or (ppn₂ * 2 ^ 30) (ppn₁ * 2 ^ 21)) (vaddr % 2 ^ 21)
    else bit_or (bit_or (bit_or (ppn₂ * 2 ^ 30) (ppn₁ * 2 ^ 21)) (ppn₀ * 2 ^ 12)) (vaddr % 2 ^ 12)

-- the loop of `mmu_translate` from level `i` down
unfoldable pub walk : ℕ → Tables → ℕ → ℕ → ℕ
walk zero s pt vaddr =
    let entry = s.entries pt (vaddr / 2 ^ 12 % 512) in
    if not (is_valid entry)
    then not_mapped
    else if is_leaf entry
    then leaf_address 0 entry vaddr
    else not_mapped
walk (suc i) s pt vaddr =
    let entry = s.entries pt (vaddr / 2 ^ (12 + 9 * suc i) % 512) in
    let below = walk i s (lower entry) vaddr in
    if not (is_valid entry)
    then not_mapped
    else if is_leaf entry
    then leaf_address (suc i) entry vaddr
    else below

unfoldable pub mmu_translate : Tables → ℕ → ℕ → ℕ
unfolding walk
mmu_translate s pt vaddr = walk 2 s pt vaddr

-- `n` rounds of the loop of `mmu_map_multiple` from offset `i` on
pub map_pages : ℕ → ℕ → Tables → ℕ → ℕ → ℕ → ℕ → ℕ → Option Tables
unfolding mmu_map
map_pages zero i s pt vaddr paddr bytes bits = none
map_pages (suc n) i s pt vaddr paddr bytes bits =
    if ltb i bytes
    then (do
      (r, s') ← mmu_map s pt ((vaddr + i) % 2 ^ 64) ((paddr + i) % 2 ^ 64) bits
      if r == 0 then map_pages n ((i + 4096) % 2 ^ 64) s' pt vaddr paddr bytes bits else some s')
    else some s
