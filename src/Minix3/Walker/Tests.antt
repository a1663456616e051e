-- ===== src/Minix3/Walker/Tests.antt =====
-- Files on small media, and the conditions of the theorems there.
use ducreu_os.Base.{ℕ, ◌+◌, ltb, ◌≡◌, refl, false, ◌==◌, if◌then◌else◌, some, arith}
use ducreu_os.Base.Memory.{Mem}
use ducreu_os.Base.Bits.{get_bit}
use ducreu_os.Minix3.{
  get_superblock, is_zone_occupied, is_zone_in_range, set_zone_to_zero, get_available_zone,
  available_zone_from,
}
use ducreu_os.Minix3.Tests.{medium}
use ducreu_os.Minix3.Bitmap.{IsZone}
use ducreu_os.Minix3.Walker.{
  Walk, freeall, idzone, ppz, zone_walker, walk_direct, walk_indirect, walk_zones, walk_block,
  renew, renew_ii, walk_doubly, walk_blocks,
}
use ducreu_os.Minix3.Walker.Lookup.{answer, size_left}
use ducreu_os.Minix3.Walker.File.{file_zone, pointers, zone_walker-file_zone}
use ducreu_os.Minix3.Walker.Update.{Sets, replaced, setting_walk, zone_walker-replaced}
use ducreu_os.Minix3.Walker.Renewal.{remaining, IsBehindBitmap, zone_walker-renewed}

-- Blocks have 16 bytes; zone 30 points to zone 49, and zone 40 through zone 50 to zone 60.
abbrev disk : Mem
disk a = if a == 484 then 49 else if a == 648 then 50 else if a == 812 then 60 else 0

abbrev zones : ℕ → ℕ
zones k = if k == 0 then 20 else if k == 7 then 30 else if k == 8 then 40 else 0

-- the fourth zone of the third zone of pointers, behind three zones of the file
doubly_read : answer (zone_walker 16 0 22 false 0 disk 0 zones 100) ≡ some (60, 68)
unfolding zone_walker walk_direct walk_indirect walk_doubly walk_zones walk_block walk_blocks renew
    renew_ii
doubly_read = refl

zone_walker-file_zone_example :
    answer (zone_walker 16 0 22 false 0 disk 0 zones 100)
    ≡ some (file_zone 16 disk zones 22, size_left 16 (file_zone 16 disk zones) 100 22)
unfolding pointers
zone_walker-file_zone_example =
    zone_walker-file_zone 16 0 22 0 100 disk zones (omega arith) (λ e. omega (arith, e))

zone_walker-replaced_example :
    Sets 16 (setting_walk 16 0 9 99 0 100 disk zones) 99 (replaced 16 9 99 disk zones)
unfolding pointers
zone_walker-replaced_example =
    zone_walker-replaced 16 0 9 99 0 100 disk zones (omega arith) (omega arith)
      (λ e. omega (arith, e)) (λ e. omega (arith, e))

-- Zone 8 is the first free one.
abbrev free_medium : Mem
free_medium = medium 3 3

zone_8 : get_available_zone 1024 3 free_medium 0 ≡ some (8, 8, set_zone_to_zero 1024 free_medium 8)
unfolding get_available_zone available_zone_from is_zone_in_range is_zone_occupied get_superblock
    get_bit
zone_8 = refl

abbrev with_8 : Mem
with_8 = set_zone_to_zero 1024 free_medium 8

with_8-IsZone : IsZone 1024 with_8 8
unfolding get_superblock set_zone_to_zero
with_8-IsZone = record {
  bytes = λ a. ground arith;
  block = omega arith;
  word = omega arith;
  first = omega arith;
  last = omega arith;
}

with_8-IsBehindBitmap :
    IsBehindBitmap 1024 3 10 0 100 free_medium zones 8 8 with_8 zone_8 (λ e. omega (arith, e))
unfolding get_superblock set_zone_to_zero
with_8-IsBehindBitmap = omega arith

zone_walker-renewed_example :
    (s : Walk) × (setting_walk 1024 3 7 10 0 100 free_medium zones ≡ freeall s 10)
    × (s.zones idzone ≡ 8)
    × (is_zone_occupied 1024 s.disk 8 ≡ 1)
    × ((x : ℕ)
        → (if ltb x (7 + ppz 1024) then file_zone 1024 s.disk s.zones x else 0)
          ≡ (if ltb x (7 + ppz 1024) then remaining 1024 10 free_medium zones x else 0))
zone_walker-renewed_example =
    zone_walker-renewed 1024 3 10 0 100 free_medium zones 8 8 with_8 zone_8 (λ e. omega (arith, e))
      (omega arith) (omega arith) with_8-IsZone with_8-IsBehindBitmap
