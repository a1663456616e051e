-- ===== src/Minix3/Transfer.antt =====
-- The transfer of inodes in src/minix3.c, between the medium and a buffer of 64 bytes.
use ducreu_os.Base.{
  ℕ, ◌+◌, ◌-◌, ◌*◌, ◌%◌, ◌^◌, ◌≤◌, ◌<◌, ◌≡◌, refl, sym, subst, ap, fun_ext, Bool, true, false, ◌==◌,
  if◌then◌else◌, arith,
}
use ducreu_os.Base.Memory.{Mem, blit, within}
use ducreu_os.Minix3.{
  Superblock, get_superblock, superblock_of, superblock_bytes, is_zone_occupied, is_inode_occupied,
  sub32,
}
use ducreu_os.Minix3.Bitmap.{occupied_bit}

module _ (bs : ℕ) where
  abbrev pub inodes_begin : Superblock → ℕ
  inodes_begin sb = 1024 + bs + sb.imap_blocks * bs + sb.zone_blocks * bs

  abbrev pub inode_offset : Mem → ℕ → ℕ
  inode_offset disk inode_num =
      (inodes_begin (get_superblock disk) + sub32 inode_num 1 * 64) % 2 ^ 64

  -- the medium and the buffer
  unfoldable pub inode_transfer_common : Mem → ℕ → Mem → Bool → Mem × Mem
  inode_transfer_common disk inode_num buffer write =
      let offset = inode_offset disk inode_num in
      if write then (blit disk offset buffer 0 64, buffer) else (disk, blit buffer 0 disk offset 64)

  unfoldable pub get_inode : Mem → ℕ → Mem → Mem
  get_inode disk inode_num fill = (inode_transfer_common disk inode_num fill false).1

  unfoldable pub put_inode : Mem → ℕ → Mem → Mem
  put_inode disk inode_num inode = (inode_transfer_common disk inode_num inode true).0

-- an inode number, in a table of inodes that lies behind the superblock and below 2 ^ 64
pub record IsPlace (bs : ℕ) (disk : Mem) (inode_num : ℕ) : Type 0 where
  pub first : 0 < inode_num
  pub word : inode_num < 2 ^ 32
  pub block : 32 ≤ bs
  pub room : inodes_begin bs (get_superblock disk) + 2 ^ 38 ≤ 2 ^ 64

module _ (bs : ℕ) (disk : Mem) (n : ℕ) (inode : Mem) (place : IsPlace bs disk n) where
  abbrev sb : Superblock
  sb = get_superblock disk

  abbrev slot : ℕ → ℕ
  slot k = inodes_begin bs sb + (k - 1) * 64

  offset_slot : (k : ℕ) → 0 < k → k < 2 ^ 32 → inode_offset bs disk k ≡ slot k
  offset_slot k pos lt = omega (arith, place.room)

  abbrev after : Mem
  after = blit disk (slot n) inode 0 64

  put_inode-eq : put_inode bs disk n inode ≡ after
  unfolding put_inode inode_transfer_common
  put_inode-eq = ap (λ o. blit disk o inode 0 64) (offset_slot n place.first place.word)

  superblock_after : get_superblock after ≡ sb
  unfolding get_superblock
  superblock_after =
      let same : superblock_bytes after ≡ superblock_bytes disk =
        fun_ext (λ k. ground (arith, place.block)) in
      ap superblock_of same

  get_inode-at :
      (d : Mem)
      → get_superblock d ≡ sb
      → (k o : ℕ) (fill : Mem) → 0 < k
      → k < 2 ^ 32
      → o < 64
      → get_inode bs d k fill o ≡ d (slot k + o)
  unfolding get_inode inode_transfer_common
  get_inode-at d e k o fill pos word lt =
      let inside : within 0 64 o ≡ true = ground arith in
      let offset : inode_offset bs d k + (o - 0) ≡ slot k + o = omega (
        arith,
        ap (λ s. (inodes_begin bs s + sub32 k 1 * 64) % 2 ^ 64) e,
        offset_slot k pos word,
      ) in
      rw inside (ap d offset)

  inode_after :
      (k o : ℕ) (fill : Mem)
      → 0 < k
      → k < 2 ^ 32
      → o < 64
      → get_inode bs after k fill o ≡ (if k == n then inode o else get_inode bs disk k fill o)
  inode_after k o fill pos word lt = ground (
    arith,
    get_inode-at after superblock_after k o fill,
    get_inode-at disk refl k o fill,
    place.first,
  )

  zone_after :
      (z : ℕ)
      → z < 2 ^ 32
      → z < sb.first_data_zone + 8 * (sb.zone_blocks * bs)
      → is_zone_occupied bs after z ≡ is_zone_occupied bs disk z
  zone_after z word low =
      ground (arith, occupied_bit bs after sb superblock_after z, occupied_bit bs disk sb refl z)

  bit_after :
      (i : ℕ)
      → i ≤ 8 * (sb.imap_blocks * bs)
      → is_inode_occupied bs after i ≡ is_inode_occupied bs disk i
  unfolding is_inode_occupied
  bit_after i low = ground arith

  -- An inode that was put is got back, and every other inode as before; the superblock and the
  -- states of the zones and inodes that the bitmaps have bits for are as before, too.
  pub get_inode-put_inode :
      (k o z i : ℕ) (fill : Mem)
      → 0 < k
      → k < 2 ^ 32
      → o < 64
      → z < 2 ^ 32
      → z < (get_superblock disk).first_data_zone + 8 * ((get_superblock disk).zone_blocks * bs)
      → i ≤ 8 * ((get_superblock disk).imap_blocks * bs)
      → let disk' = put_inode bs disk n inode in
        (get_inode bs disk' k fill o ≡ (if k == n then inode o else get_inode bs disk k fill o))
        × (get_superblock disk' ≡ get_superblock disk)
        × (is_zone_occupied bs disk' z ≡ is_zone_occupied bs disk z)
        × (is_inode_occupied bs disk' i ≡ is_inode_occupied bs disk i)
  get_inode-put_inode k o z i fill pos word lt zword zlow ilow =
      subst
        (λ d.
          (get_inode bs d k fill o ≡ (if k == n then inode o else get_inode bs disk k fill o))
          × (get_superblock d ≡ get_superblock disk)
          × (is_zone_occupied bs d z ≡ is_zone_occupied bs disk z)
          × (is_inode_occupied bs d i ≡ is_inode_occupied bs disk i))
        (sym put_inode-eq)
        (
          inode_after k o fill pos word lt,
          superblock_after,
          zone_after z zword zlow,
          bit_after i ilow,
        )
