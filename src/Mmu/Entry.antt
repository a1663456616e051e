-- ===== src/Mmu/Entry.antt =====
-- The fields of the page-table entries that src/mmu.c builds.
use ducreu_os.Base.{ℕ, ◌+◌, ◌*◌, ◌/◌, ◌%◌, ◌^◌, ◌<◌, ◌≡◌, true, false, bit_or, arith}
use ducreu_os.Base.Binary.{bit_or-low, bit_or-one}
use ducreu_os.Mmu.{is_valid, is_leaf, lower, leaf_entry, leaf_address}

-- A branch to a page-aligned table is valid, grants nothing and leads to the table.
pub branch_lem :
    (p : ℕ)
    → p % 4096 ≡ 0
    → p < 2 ^ 64
    → let e = bit_or (p / 4) 1 in (is_valid e ≡ true) × (is_leaf e ≡ false) × (lower e ≡ p)
branch_lem p a lt = ground (arith, bit_or-one (p / 4))

-- Fields that do not overlap add up: the page numbers of an entry over its bits,
entry_fields :
    (a b c d : ℕ)
    → b < 512
    → c < 512
    → d < 1024
    → bit_or (bit_or (bit_or (a * 2 ^ 28) (b * 2 ^ 19)) (c * 2 ^ 10)) d
      ≡ a * 2 ^ 28 + b * 2 ^ 19 + c * 2 ^ 10 + d
entry_fields a b c d hb hc hd =
    let e₁ : bit_or (a * 2 ^ 28) (b * 2 ^ 19) ≡ (a * 512 + b) * 2 ^ 19 =
      omega (arith, bit_or-low a 28 (b * 2 ^ 19) (omega arith)) in
    let e₂ : bit_or ((a * 512 + b) * 2 ^ 19) (c * 2 ^ 10) ≡ ((a * 512 + b) * 512 + c) * 2 ^ 10 =
      omega (arith, bit_or-low (a * 512 + b) 19 (c * 2 ^ 10) (omega arith)) in
    rw (e₁, e₂) (omega (arith, bit_or-low ((a * 512 + b) * 512 + c) 10 d hd))

-- and the page numbers of an address over the offset in the page.
pub address_fields :
    (a b c d : ℕ)
    → b < 512
    → c < 512
    → d < 4096
    → bit_or (bit_or (bit_or (a * 2 ^ 30) (b * 2 ^ 21)) (c * 2 ^ 12)) d
      ≡ a * 2 ^ 30 + b * 2 ^ 21 + c * 2 ^ 12 + d
address_fields a b c d hb hc hd =
    let e₁ : bit_or (a * 2 ^ 30) (b * 2 ^ 21) ≡ (a * 512 + b) * 2 ^ 21 =
      omega (arith, bit_or-low a 30 (b * 2 ^ 21) (omega arith)) in
    let e₂ : bit_or ((a * 512 + b) * 2 ^ 21) (c * 2 ^ 12) ≡ ((a * 512 + b) * 512 + c) * 2 ^ 12 =
      omega (arith, bit_or-low (a * 512 + b) 21 (c * 2 ^ 12) (omega arith)) in
    rw (e₁, e₂) (omega (arith, bit_or-low ((a * 512 + b) * 512 + c) 12 d hd))

pub leaf_entry_lem :
    (paddr bits : ℕ)
    → paddr < 2 ^ 56
    → bits < 1024
    → leaf_entry paddr bits ≡ paddr / 4096 * 1024 + bits
leaf_entry_lem paddr bits hp hb = omega (
  arith,
  entry_fields (paddr / 2 ^ 30 % 2 ^ 26) (paddr / 2 ^ 21 % 512) (paddr / 2 ^ 12 % 512) bits
      (omega arith) (omega arith) hb,
)

pub leaf_address_lem :
    (page bits vaddr : ℕ)
    → page < 2 ^ 44
    → bits < 1024
    → leaf_address 0 (page * 1024 + bits) vaddr ≡ page * 4096 + vaddr % 4096
leaf_address_lem page bits vaddr hp hb =
    let e = page * 1024 + bits in
    omega (
      arith,
      address_fields (e / 2 ^ 28 % 2 ^ 26) (e / 2 ^ 19 % 512) (e / 2 ^ 10 % 512) (vaddr % 2 ^ 12)
          (omega arith) (omega arith) (omega arith),
    )
