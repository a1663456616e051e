-- ===== src/Minix3.antt =====
-- The superblock and the bitmaps of src/minix3.c. The medium of the device `mx3_block_dev` is a
-- memory of bytes, which `block_read_arbitrary` and `block_write_arbitrary` read and write byte by
-- byte; `bs` is `mx3_block_size`. Zone and inode numbers are 32-bit words, and the products of
-- `mx3_block_size` with another 16-bit field, which are `int`s, stay below 2 ^ 31.
pub mod Bitmap
pub mod Inodes
pub mod Search
pub mod InodeSearch
pub mod Walker
pub mod Transfer
pub mod Directory
pub mod Mount
mod Tests
use ducreu_os.Base.{
  ℕ, zero, suc, ◌+◌, ◌-◌, ◌*◌, ◌/◌, ◌%◌, ◌^◌, Bool, true, false, ◌==◌, ltb, leb, if◌then◌else◌,
  Option, none, some,
}
use ducreu_os.Base.Memory.{Mem, store, within}
use ducreu_os.Base.Bits.{get_bit, or_bit, clear_bit}

abbrev pub boot_block_size : ℕ
boot_block_size = 1024

pub record Superblock : Type 0 where
  pub num_inodes : ℕ
  pub imap_blocks : ℕ
  pub zone_blocks : ℕ
  pub first_data_zone : ℕ
  pub num_zones : ℕ
  pub magic : ℕ
  pub block_size : ℕ

-- little-endian words
abbrev pub word16 : Mem → ℕ → ℕ
word16 m a = m a + m (a + 1) * 256

abbrev pub word32 : Mem → ℕ → ℕ
word32 m a = word16 m a + word16 m (a + 2) * 65536

-- the fields in the bytes of a superblock
abbrev pub superblock_of : Mem → Superblock
superblock_of buffer = record {
  num_inodes = word32 buffer 0;
  imap_blocks = word16 buffer 6;
  zone_blocks = word16 buffer 8;
  first_data_zone = word16 buffer 10;
  num_zones = word32 buffer 20;
  magic = word16 buffer 24;
  block_size = word16 buffer 28;
}

-- the 32 bytes behind the boot block
abbrev pub superblock_bytes : Mem → Mem
superblock_bytes disk k = if ltb k 32 then disk (boot_block_size + k) else 0

unfoldable pub get_superblock : Mem → Superblock
get_superblock disk = superblock_of (superblock_bytes disk)

-- a difference of 32-bit words
abbrev pub sub32 : ℕ → ℕ → ℕ
sub32 a b = (a + 2 ^ 32 - b) % 2 ^ 32

-- the bit `i` of the bitmap at `base`
abbrev pub bit_at : ℕ → Mem → ℕ → ℕ
bit_at base disk i = get_bit (disk (base + i / 8)) (i % 8)

module _ (bs : ℕ) where
  abbrev pub imap_begin : ℕ
  imap_begin = boot_block_size + bs

  abbrev pub zone_blocks_begin : Superblock → ℕ
  zone_blocks_begin sb = boot_block_size + bs + sb.imap_blocks * bs

  unfoldable pub is_zone_occupied : Mem → ℕ → ℕ
  is_zone_occupied disk zone_num =
      let sb = get_superblock disk in
      let occupied = bit_at (zone_blocks_begin sb) disk (sub32 zone_num sb.first_data_zone) in
      if ltb zone_num sb.first_data_zone then 1 else occupied

  unfoldable pub is_inode_occupied : Mem → ℕ → ℕ
  is_inode_occupied disk inode_num =
      if inode_num == 0 then 0 else bit_at imap_begin disk (inode_num - 1)

  unfoldable pub is_zone_in_range : Mem → ℕ → Bool
  is_zone_in_range disk zone_num =
      let sb = get_superblock disk in
      let in_range = if leb sb.num_zones (sub32 zone_num sb.first_data_zone) then false else true in
      if ltb zone_num sb.first_data_zone then false else in_range

  unfoldable pub is_inode_in_range : Mem → ℕ → Bool
  is_inode_in_range disk inode_num =
      if inode_num == 0
      then false
      else if ltb (get_superblock disk).num_inodes (inode_num - 1)
      then false
      else true

  -- the byte that is written back, by the bit's state and whether it is in range
  abbrev pub changed : Bool → ℕ → Bool → ℕ → ℕ → ℕ
  changed as_occupied occupied in_range byte which_bit =
      if as_occupied
      then if occupied == 0 then if in_range then or_bit byte which_bit else byte else byte
      else if occupied == 0
      then byte
      else if in_range
      then clear_bit byte which_bit
      else byte

  unfoldable pub set_zone_as : Mem → ℕ → Bool → ℕ × Mem
  set_zone_as disk zone_num as_occupied =
      let sb = get_superblock disk in
      let bitmap_zone_num = sub32 zone_num sb.first_data_zone in
      let addr = zone_blocks_begin sb + bitmap_zone_num / 8 in
      let byte =
        changed as_occupied (is_zone_occupied disk zone_num) (is_zone_in_range disk zone_num)
          (disk addr) (bitmap_zone_num % 8) in
      if ltb zone_num sb.first_data_zone then (5, disk) else (0, store disk addr byte)

  unfoldable pub set_inode_as : Mem → ℕ → Bool → ℕ × Mem
  set_inode_as disk inode_num as_occupied =
      let addr = imap_begin + (inode_num - 1) / 8 in
      let byte =
        changed as_occupied (is_inode_occupied disk inode_num) (is_inode_in_range disk inode_num)
          (disk addr) ((inode_num - 1) % 8) in
      if inode_num == 0 then (5, disk) else (0, store disk addr byte)

  -- the product is one of 32-bit words
  unfoldable pub set_zone_to_zero : Mem → ℕ → Mem
  set_zone_to_zero disk which_zone a = if within (bs * which_zone % 2 ^ 32) bs a then 0 else disk a

  -- The static counter comes before and after, and the zone before the medium. On fuel.
  available_zone_from : ℕ → Mem → ℕ → Option (ℕ × ℕ × Mem)
  available_zone_from zero disk test = none
  available_zone_from (suc fuel) disk test =
      let tested = if is_zone_in_range disk test then test else 0 in
      let rest = available_zone_from fuel disk ((tested + 1) % 2 ^ 32) in
      if is_zone_occupied disk tested == 0
      then some (tested, tested, set_zone_to_zero disk tested)
      else rest

  unfoldable pub get_available_zone : ℕ → Mem → ℕ → Option (ℕ × ℕ × Mem)
  unfolding available_zone_from
  get_available_zone fuel disk test =
      available_zone_from fuel disk
        (if test == 0 then (get_superblock disk).first_data_zone else test)

  -- the inode, which the static counter stands at
  unfoldable pub get_available_inode : ℕ → Mem → ℕ → Option ℕ
  get_available_inode zero disk test = none
  get_available_inode (suc fuel) disk test =
      let tested = if is_inode_in_range disk test then test else 1 in
      let rest = get_available_inode fuel disk ((tested + 1) % 2 ^ 32) in
      if is_inode_occupied disk tested == 0 then some tested else rest
