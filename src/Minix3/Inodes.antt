-- ===== src/Minix3/Inodes.antt =====
-- The bitmap of the inodes of src/minix3.c.
use ducreu_os.Base.{
  ℕ, suc, ◌+◌, ◌-◌, ◌*◌, ◌/◌, ◌%◌, ◌^◌, ◌≤◌, ◌<◌, ◌≡◌, refl, sym, subst, Bool, true, false, ◌==◌,
  if◌then◌else◌, arith,
}
use ducreu_os.Base.Memory.{Mem, store}
use ducreu_os.Minix3.{
  Superblock, get_superblock, bit_at, imap_begin, is_zone_occupied, is_inode_occupied,
  is_inode_in_range, changed, set_inode_as,
}
use ducreu_os.Minix3.Bitmap.{Bytes, digit, bit_at-changed, get_superblock-store, occupied_bit}

-- an inode that the code takes to be in range and that the map has a bit for
pub record IsInode (bs : ℕ) (disk : Mem) (inode_num : ℕ) : Type 0 where
  pub bytes : Bytes disk
  pub block : 32 ≤ bs
  pub first : 0 < inode_num
  pub last : inode_num ≤ suc (get_superblock disk).num_inodes
  pub mapped : inode_num ≤ 8 * ((get_superblock disk).imap_blocks * bs)

module _ (bs : ℕ) (disk : Mem) (inode_num : ℕ) (w : Bool) (inode : IsInode bs disk inode_num) where
  abbrev sb : Superblock
  sb = get_superblock disk

  abbrev index : ℕ
  index = inode_num - 1

  abbrev byte_addr : ℕ
  byte_addr = imap_begin bs + index / 8

  abbrev new_byte : ℕ
  new_byte = changed bs w (bit_at (imap_begin bs) disk index) true (disk byte_addr) (index % 8)

  in_range : is_inode_in_range bs disk inode_num ≡ true
  unfolding is_inode_in_range
  in_range = ground (arith, inode.first, inode.last)

  occupied : is_inode_occupied bs disk inode_num ≡ bit_at (imap_begin bs) disk index
  unfolding is_inode_occupied
  occupied = ground (arith, inode.first)

  not_zero : (inode_num == 0) ≡ false
  not_zero = ground (arith, inode.first)

  set_inode-eq : set_inode_as bs disk inode_num w ≡ (0, store disk byte_addr new_byte)
  unfolding set_inode_as
  set_inode-eq = rw in_range (rw occupied (rw not_zero refl))

  inode_after :
      (n : ℕ)
      → is_inode_occupied bs (store disk byte_addr new_byte) n
        ≡ (if n == inode_num then digit w else is_inode_occupied bs disk n)
  unfolding is_inode_occupied
  inode_after n =
      ground
        (arith, inode.first, bit_at-changed bs (imap_begin bs) disk w index (n - 1) inode.bytes)

  same_superblock : get_superblock (store disk byte_addr new_byte) ≡ get_superblock disk
  same_superblock = get_superblock-store disk byte_addr new_byte (omega (arith, inode.block))

  zone_after :
      (z : ℕ)
      → z < 2 ^ 32
      → is_zone_occupied bs (store disk byte_addr new_byte) z ≡ is_zone_occupied bs disk z
  zone_after z lt = ground (
    arith,
    inode.first,
    inode.mapped,
    occupied_bit bs (store disk byte_addr new_byte) sb same_superblock z,
    occupied_bit bs disk sb refl z,
  )

  -- Setting an inode of the map returns 0 and changes the state of this inode alone; no zone's state
  -- changes.
  pub set_inode_as_lem :
      (z n : ℕ)
      → z < 2 ^ 32
      → let r = set_inode_as bs disk inode_num w in
        (r.0 ≡ 0)
        × (is_zone_occupied bs (r.1) z ≡ is_zone_occupied bs disk z)
        × (is_inode_occupied bs (r.1) n
            ≡ (if n == inode_num then digit w else is_inode_occupied bs disk n))
  set_inode_as_lem z n lt =
      subst
        (λ r.
          (r.0 ≡ 0)
          × (is_zone_occupied bs (r.1) z ≡ is_zone_occupied bs disk z)
          × (is_inode_occupied bs (r.1) n
              ≡ (if n == inode_num then digit w else is_inode_occupied bs disk n)))
        (sym set_inode-eq) (refl, zone_after z lt, inode_after n)
