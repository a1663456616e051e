-- ===== src/Minix3/Tests.antt =====
-- A medium with 3 inodes and the zones 6 to 10 in blocks of 1024 bytes, and the conditions of the
-- theorems there.
use ducreu_os.Base.{
  ℕ, ◌+◌, ◌*◌, ◌^◌, ◌≤◌, ◌<◌, ◌≡◌, ◌≢◌, ◌⊎◌, inl, inr, refl, sym, subst, true, ◌==◌, if◌then◌else◌,
  none, some, arith,
}
use ducreu_os.Base.Memory.{Mem, within}
use ducreu_os.Base.Bits.{get_bit}
use ducreu_os.Minix3.{
  set_inode_as, get_superblock, is_zone_occupied, is_inode_occupied, is_zone_in_range, set_zone_as,
  get_available_zone, get_available_inode,
}
use ducreu_os.Minix3.Bitmap.{digit, IsZone, set_zone_as_lem}
use ducreu_os.Minix3.Search.{
  IsFirstFree, search_start, get_available_zone_lem, get_available_zone-Stuck,
}
use ducreu_os.Minix3.Inodes.{IsInode, set_inode_as_lem}
use ducreu_os.Minix3.Transfer.{IsPlace, get_inode, put_inode, get_inode-put_inode}
use ducreu_os.Minix3.Mount.{Mount}
use ducreu_os.Minix3.InodeSearch.{Found, get_available_inode_lem, get_available_inode-past}

-- the superblock, with the bytes of the two bitmaps
abbrev pub medium : ℕ → ℕ → Mem
medium inodes zones a =
    if a == 1024
    then 3
    else if a == 1030
    then 1
    else if a == 1032
    then 1
    else if a == 1034
    then 6
    else if a == 1044
    then 5
    else if a == 2048
    then inodes
    else if a == 3072
    then zones
    else 0

-- Zones 6 and 7 are taken, and inodes 1 and 2.
abbrev disk : Mem
disk = medium 3 3

nine-IsZone : IsZone 1024 disk 9
unfolding get_superblock
nine-IsZone = record {
  bytes = λ a. ground arith;
  block = omega arith;
  word = omega arith;
  first = omega arith;
  last = omega arith;
}

two_mapped : 2 ≤ 8 * ((get_superblock disk).imap_blocks * 1024)
unfolding get_superblock
two_mapped = omega arith

set_zone_as_lem_example :
    let r = set_zone_as 1024 disk 9 true in
    (r.0 ≡ 0)
    × (is_zone_occupied 1024 (r.1) 10 ≡ (if 10 == 9 then 1 else is_zone_occupied 1024 disk 10))
    × (is_inode_occupied 1024 (r.1) 2 ≡ is_inode_occupied 1024 disk 2)
set_zone_as_lem_example = set_zone_as_lem 1024 disk 9 true nine-IsZone 10 2 (omega arith) two_mapped

three-IsInode : IsInode 1024 disk 3
unfolding get_superblock
three-IsInode = record {
  bytes = λ a. ground arith;
  block = omega arith;
  first = omega arith;
  last = omega arith;
  mapped = omega arith;
}

set_inode_as_lem_example :
    let r = set_inode_as 1024 disk 3 true in
    (r.0 ≡ 0)
    × (is_zone_occupied 1024 (r.1) 9 ≡ is_zone_occupied 1024 disk 9)
    × (is_inode_occupied 1024 (r.1) 3
        ≡ (if 3 == 3 then digit true else is_inode_occupied 1024 disk 3))
set_inode_as_lem_example = set_inode_as_lem 1024 disk 3 true three-IsInode 9 3 (omega arith)

six_or_seven : (i : ℕ) → 6 ≤ i → i < 8 → (i ≡ 6) ⊎ (i ≡ 7)
six_or_seven i low high = ground arith

taken_below : (i : ℕ) → 6 ≤ i → i < 8 → is_zone_occupied 1024 disk i ≢ 0
unfolding is_zone_occupied get_superblock get_bit
taken_below i low high = elim (six_or_seven i low high) [
  | inl e ↦ subst (λ z. is_zone_occupied 1024 disk z ≢ 0) (sym e) (λ z. omega (arith, z))
  | inr e ↦ subst (λ z. is_zone_occupied 1024 disk z ≢ 0) (sym e) (λ z. omega (arith, z))
]

eight-IsFirstFree : IsFirstFree 1024 disk 6 8
unfolding is_zone_occupied get_superblock get_bit
eight-IsFirstFree = record {
  low = omega arith;
  order = omega arith;
  word = omega arith;
  high = omega arith;
  taken = taken_below;
  free = refl;
}

start_at_first : search_start 1024 disk 0 ≡ 6
unfolding get_superblock
start_at_first = refl

get_available_zone_lem_example :
    (disk' : Mem) × (get_available_zone 1024 3 disk 0 ≡ some (8, 8, disk'))
    × ((a : ℕ) → disk' a ≡ (if within (1024 * 8) 1024 a then 0 else disk a))
unfolding get_superblock
get_available_zone_lem_example =
    get_available_zone_lem 1024 disk 3 0 8 eight-IsFirstFree (omega arith) (omega arith)

-- The last three zones are taken, and the first two are free.
abbrev full_end : Mem
full_end = medium 3 28

last_three :
    (z : ℕ)
    → 8 ≤ z
    → z < 2 ^ 32
    → is_zone_in_range 1024 full_end z ≡ true
    → (z ≡ 8) ⊎ (z ≡ 9) ⊎ (z ≡ 10)
unfolding is_zone_in_range get_superblock
last_three z le lt e = ground arith

full_taken :
    (z : ℕ)
    → 8 ≤ z
    → z < 2 ^ 32
    → is_zone_in_range 1024 full_end z ≡ true
    → is_zone_occupied 1024 full_end z ≢ 0
unfolding is_zone_occupied get_superblock get_bit
full_taken z le lt e free = elim (last_three z le lt e) [
  | inl at ↦ absurd (omega (arith, subst (λ z. is_zone_occupied 1024 full_end z ≡ 0) at free))
  | inr (inl at) ↦ absurd (omega (arith, subst (λ z. is_zone_occupied 1024 full_end z ≡ 0) at free))
  | inr (inr at) ↦ absurd (omega (arith, subst (λ z. is_zone_occupied 1024 full_end z ≡ 0) at free))
]

get_available_zone-Stuck_example : get_available_zone 1024 100 full_end 8 ≡ none
unfolding get_superblock
get_available_zone-Stuck_example =
    get_available_zone-Stuck 1024 full_end 100 8 (omega arith) (omega arith) (omega arith)
      full_taken

get_available_inode_lem_example : Found 1024 disk (get_available_inode 1024 20 disk 4)
unfolding get_superblock is_inode_occupied get_bit
get_available_inode_lem_example =
    get_available_inode_lem 1024 disk 20 4 3 (omega arith) (omega arith) (omega arith) (omega arith)
      (omega arith) refl

-- Inodes 1 to 3 are taken.
abbrev full_inodes : Mem
full_inodes = medium 7 0

inodes_taken : (i : ℕ) → 3 ≤ i → i < 4 → is_inode_occupied 1024 full_inodes i ≢ 0
unfolding is_inode_occupied get_bit
inodes_taken i low high taken =
    let last : i ≡ 3 = omega arith in
    absurd (omega (arith, subst (λ i. is_inode_occupied 1024 full_inodes i ≡ 0) last taken))

get_available_inode-past_example :
    get_available_inode 1024 2 full_inodes 3 ≡ some ((get_superblock full_inodes).num_inodes + 1)
unfolding get_superblock is_inode_occupied get_bit
get_available_inode-past_example =
    get_available_inode-past 1024 full_inodes 2 3 (omega arith) (omega arith) (omega arith)
      (omega arith) inodes_taken refl

-- The table of inodes begins at 4096.
two-IsPlace : IsPlace 1024 disk 2
unfolding get_superblock
two-IsPlace = record {
  first = omega arith;
  word = omega arith;
  block = omega arith;
  room = omega arith;
}

zone_mapped :
    9 < (get_superblock disk).first_data_zone + 8 * ((get_superblock disk).zone_blocks * 1024)
unfolding get_superblock
zone_mapped = omega arith

get_inode-put_inode_example :
    let disk' = put_inode 1024 disk 2 (λ o. o) in
    (get_inode 1024 disk' 3 disk 8 ≡ (if 3 == 2 then 8 else get_inode 1024 disk 3 disk 8))
    × (get_superblock disk' ≡ get_superblock disk)
    × (is_zone_occupied 1024 disk' 9 ≡ is_zone_occupied 1024 disk 9)
    × (is_inode_occupied 1024 disk' 2 ≡ is_inode_occupied 1024 disk 2)
get_inode-put_inode_example =
    get_inode-put_inode 1024 disk 2 (λ o. o) two-IsPlace 3 8 9 2 disk (omega arith) (omega arith)
      (omega arith) (omega arith) zone_mapped two_mapped

abbrev unmounted : Mount
unmounted = record { block_dev = some 7; fs_exists = 0; fs_block_size = 0 }

abbrev disks : ℕ → Mem
disks i a = if i == 1 then if a == 1048 then 0x5a else if a == 1049 then 0x4d else 0 else 0
