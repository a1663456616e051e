-- ===== src/Minix3/Directory/Tests.antt =====
-- A directory of two zones with one entry each, and the conditions of the theorem there.
use ducreu_os.Base.{ℕ, zero, suc, ◌<◌, ◌≡◌, ◌≢◌, refl, ◌==◌, if◌then◌else◌, some, [], ◌∷◌, arith}
use ducreu_os.Base.Memory.{Mem}
use ducreu_os.Utils.Text.Compare.{AllChars}
use ducreu_os.Minix3.Walker.{get_file_max_zones}
use ducreu_os.Minix3.Directory.{get_inode_from_name, inode_zones}
use ducreu_os.Minix3.Directory.Names.{IsDirectory, Named, get_inode_from_name_lem}

abbrev dir : Mem
dir a =
    if a == 1
    then 0x40
    else if a == 8
    then 128
    else if a == 24
    then 20
    else if a == 28
    then 21
    else 0

-- Inode 5 has the name a, inode 6 the name b.
abbrev disk : Mem
disk a =
    if a == 1280
    then 5
    else if a == 1284
    then 97
    else if a == 1344
    then 6
    else if a == 1348
    then 98
    else 0

abbrev blank : Mem
blank a = 0

disk-bytes : (a : ℕ) → disk a < 256
disk-bytes a = ground arith

b-AllChars : AllChars (98 ∷ [])
b-AllChars = ground arith

dir_present : (i : ℕ) → i < 2 → inode_zones dir i ≢ 0
dir_present zero lt e = omega (arith, e)
dir_present (suc zero) lt e = omega (arith, e)
dir_present (suc (suc i)) lt e = omega arith

dir-IsDirectory : IsDirectory 64 dir 2
unfolding get_file_max_zones
dir-IsDirectory = record {
  mode = refl;
  few = omega arith;
  loops = omega arith;
  block = omega arith;
  present = dir_present;
  holds = omega arith;
  needed = λ i lt. omega arith;
}

-- Inode 6 is no directory.
get_inode_from_name_lem_example :
    (r : ℕ × ℕ × Mem) × (get_inode_from_name 64 blank disk dir (98 ∷ []) 0 dir ≡ some r)
    × Named 64 blank disk dir
        (98 ∷ [])
        2
        disk-bytes
        (λ a. omega arith)
        b-AllChars
        dir-IsDirectory
        0
        dir
        r
get_inode_from_name_lem_example =
    get_inode_from_name_lem 64 blank disk dir (98 ∷ []) 2 disk-bytes (λ a. omega arith) b-AllChars
      dir-IsDirectory 0 dir
