-- ===== src/Regions/Tests.antt =====
-- A list of two regions of src/regions.c, and the conditions of the theorems there.
use ducreu_os.Base.{ℕ, ◌+◌, ◌≡◌, refl, [], ◌∷◌, none, some, ◌==◌, if◌then◌else◌, arith}
use ducreu_os.Regions.{Region, Store, regions_append, regions_prepend, regions_insert_at_position}
use ducreu_os.Regions.Lookup.{IsChain, Cells, regions_append_fault}

abbrev region : ℕ → ℕ → ℕ → Region
region top value next = record {
  x_start = 0;
  x_end = 50;
  y_start = 0;
  y_end = top;
  value = value;
  next = next;
}

-- The first region lies at 0x10, the second at 0x20, and a new one at 0x30.
abbrev cells : Cells
cells = (0x10, region 10 7 0x20) ∷ (0x20, region 90 8 0) ∷ []

abbrev regions : Store
regions a =
    if a == 0x10
    then some (region 10 7 0x20)
    else if a == 0x20
    then some (region 90 8 0)
    else if a == 0x30
    then some (region 5 9 0)
    else none

cells-IsChain : IsChain regions 0x10 cells
cells-IsChain = (refl, omega arith, refl, (refl, omega arith, refl, refl))

regions_append_fault_example :
    (regions_append 3 regions 0x10 0x30 ≡ regions_prepend 3 regions 0x10 0x30)
    × (regions_insert_at_position 3 regions 0x10 0x30 (0 + 1) ≡ some (1, regions, 0x10))
regions_append_fault_example =
    regions_append_fault 3 regions 0x10 0x30 0 cells cells-IsChain (omega arith)
