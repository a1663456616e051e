-- ===== src/Mmu/Tests.antt =====
-- Runs of src/mmu.c from an empty page table, and the conditions of its theorems there.
use ducreu_os.Base.{
  ℕ, ◌+◌, ◌*◌, ◌/◌, ◌%◌, ◌≤◌, ◌≡◌, refl, List, [], ◌∷◌, Option, some, if◌then◌else◌, length, ◌>>=◌,
  arith,
}
use ducreu_os.Mmu.{Tables, mmu_map, mmu_unmap, mmu_translate, not_mapped, map_pages}
use ducreu_os.Mmu.Tree.{mark, IsTree}
use ducreu_os.Mmu.Frame.{same_page, mmu_map_lem, mmu_unmap_lem}
use ducreu_os.Mmu.Range.{WereMapped, mmu_map_multiple_lem}

abbrev empty_tables : Tables
empty_tables = record {
  entries = λ a j. 0;
  pool = 0x2000 ∷ 0x3000 ∷ 0x4000 ∷ 0x5000 ∷ [];
  lock = 1;
}

abbrev only_root : ℕ → ℕ
only_root = mark (λ a. 0) 0x1000 1

empty_tables-IsTree : IsTree empty_tables 0x1000 only_root
empty_tables-IsTree = record {
  top = refl;
  branches = λ a j hj l u h. absurd (ground arith);
  fresh = ground arith;
}

abbrev answers : Tables → List ℕ
answers s =
    mmu_translate s 0x1000 0x80001234
    ∷ mmu_translate s 0x1000 0x80003001
    ∷ mmu_translate s 0x1000 0x80002000
    ∷ length s.pool
    ∷ []

abbrev map_two : Option (List ℕ)
map_two = do
  (r, s) ← mmu_map empty_tables 0x1000 0x80001000 0x90002000 14
  (r', s') ← mmu_map s 0x1000 0x80003000 0x90004000 2
  some (answers s')

map_two_answers : map_two ≡ some (0x90002234 ∷ 0x90004001 ∷ not_mapped ∷ 2 ∷ [])
unfolding mmu_map mmu_translate
map_two_answers = refl

mmu_map_lem_example :
    (s' : Tables) × (place' : ℕ → ℕ) × (mmu_map empty_tables 0x1000 0x80001000 0x90002000 6
      ≡ some (0, s'))
    × IsTree s' 0x1000 place'
    × (s'.lock ≡ 1)
    × (4 ≤ length s'.pool + 2)
    × ((u : ℕ)
        → mmu_translate s' 0x1000 u ≡ (
            if same_page u 0x80001000
            then 0x90002000 / 4096 * 4096 + u % 4096
            else mmu_translate empty_tables 0x1000 u))
mmu_map_lem_example =
    mmu_map_lem empty_tables 0x1000 0x80001000 0x90002000 6 only_root empty_tables-IsTree refl
      (omega arith) (omega arith) (omega arith) refl

mmu_unmap_lem_example :
    (s' : Tables) × (place' : ℕ → ℕ) × (mmu_unmap empty_tables 0x1000 0x80001000 ≡ some (0, s'))
    × IsTree s' 0x1000 place'
    × (s'.lock ≡ 1)
    × ((u : ℕ)
        → mmu_translate s' 0x1000 u
          ≡ (if same_page u 0x80001000 then not_mapped else mmu_translate empty_tables 0x1000 u))
mmu_unmap_lem_example =
    mmu_unmap_lem empty_tables 0x1000 0x80001000 only_root empty_tables-IsTree refl (omega arith)

mmu_map_multiple_lem_example :
    (s' : Tables) × (place' : ℕ → ℕ) × (map_pages 3 0 empty_tables 0x1000 0x80001000 0x90002000
        0x1800 6
      ≡ some s')
    × WereMapped empty_tables 0x1000 0x80001000 0x90002000 0 0x1800 s' place'
mmu_map_multiple_lem_example =
    mmu_map_multiple_lem 2 empty_tables 0x1000 0x80001000 0x90002000 0x1800 6 only_root
      empty_tables-IsTree refl (omega arith) (omega arith) refl refl (omega arith) (omega arith)
      (omega arith) refl
