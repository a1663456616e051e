-- ===== src/Minix3/Bitmap.antt =====
-- The bitmaps of src/minix3.c: a bit that is set or cleared, and what it leaves alone.
use ducreu_os.Base.{
  ℕ, ◌+◌, ◌-◌, ◌*◌, ◌/◌, ◌%◌, ◌^◌, ◌≤◌, ◌<◌, ◌≡◌, refl, sym, ap, ◌∙◌, subst, fun_ext, Bool, true,
  false, ◌==◌, ltb, if◌then◌else◌, arith,
}
use ducreu_os.Base.Memory.{Mem, store, blit}
use ducreu_os.Base.Bits.{get_bit-or_bit, get_bit-clear_bit, get_bit-lt}
use ducreu_os.Minix3.{
  Superblock, get_superblock, bit_at, sub32, superblock_of, superblock_bytes, zone_blocks_begin,
  is_zone_occupied, is_inode_occupied, is_zone_in_range, changed, set_zone_as,
}

-- the bytes of a medium
abbrev pub Bytes : Mem → Type 0
Bytes disk = (a : ℕ) → disk a < 256

abbrev pub digit : Bool → ℕ
digit b = if b then 1 else 0

-- The bit gets the value that is asked for, and no other one changes.
pub bit_at-changed :
    (bs base : ℕ) (disk : Mem) (w : Bool) (i j : ℕ)
    → Bytes disk
    → bit_at base
        (store disk
          (base + i / 8)
          (changed bs w (bit_at base disk i) true (disk (base + i / 8)) (i % 8)))
        j
      ≡ (if j == i then digit w else bit_at base disk j)
bit_at-changed bs base disk w i j bytes = ground (
  arith,
  bytes (base + i / 8),
  get_bit-or_bit (disk (base + i / 8)) (i % 8) (j % 8),
  get_bit-clear_bit (disk (base + i / 8)) (i % 8) (j % 8),
  get_bit-lt (disk (base + i / 8)) (i % 8),
)

pub get_superblock-store :
    (disk : Mem) (a v : ℕ) → 1056 ≤ a → get_superblock (store disk a v) ≡ get_superblock disk
unfolding get_superblock
get_superblock-store disk a v h =
    let same : superblock_bytes (store disk a v) ≡ superblock_bytes disk =
      fun_ext (λ k. ground arith) in
    ap superblock_of same

-- a zone of the bitmap, on a medium whose superblock lies in front of the bitmaps
pub record IsZone (bs : ℕ) (disk : Mem) (zone_num : ℕ) : Type 0 where
  pub bytes : Bytes disk
  pub block : 32 ≤ bs
  pub word : zone_num < 2 ^ 32
  pub first : (get_superblock disk).first_data_zone ≤ zone_num
  pub last : zone_num - (get_superblock disk).first_data_zone < (get_superblock disk).num_zones

pub occupied_bit :
    (bs : ℕ) (disk : Mem) (sb : Superblock)
    → get_superblock disk ≡ sb
    → (z : ℕ) → z < 2 ^ 32
    → is_zone_occupied bs disk z ≡ (
        if ltb z sb.first_data_zone
        then 1
        else bit_at (zone_blocks_begin bs sb) disk (z - sb.first_data_zone))
unfolding is_zone_occupied
occupied_bit bs disk sb e z lt = rw e (ground arith)

module _ (bs : ℕ) (disk : Mem) (zone_num : ℕ) (w : Bool) (zone : IsZone bs disk zone_num) where
  abbrev sb : Superblock
  sb = get_superblock disk

  abbrev index : ℕ
  index = zone_num - sb.first_data_zone

  in_range : is_zone_in_range bs disk zone_num ≡ true
  unfolding is_zone_in_range
  in_range = ground (arith, zone.word, zone.first, zone.last)

  occupied : is_zone_occupied bs disk zone_num ≡ bit_at (zone_blocks_begin bs sb) disk index
  unfolding is_zone_occupied
  occupied = ground (arith, zone.word, zone.first)

  difference : sub32 zone_num (get_superblock disk).first_data_zone ≡ index
  difference = omega (arith, zone.word, zone.first)

  not_below : ltb zone_num (get_superblock disk).first_data_zone ≡ false
  not_below = ground (arith, zone.first)

  set_zone-eq : set_zone_as bs disk zone_num w ≡ (
    0,
    store disk (zone_blocks_begin bs sb + index / 8) (
        changed bs w
          (bit_at (zone_blocks_begin bs sb) disk index)
          true
          (disk (zone_blocks_begin bs sb + index / 8))
          (index % 8)),
  )
  unfolding set_zone_as
  set_zone-eq = rw in_range (rw occupied (rw difference (rw not_below refl)))

  abbrev byte_addr : ℕ
  byte_addr = zone_blocks_begin bs sb + index / 8

  abbrev new_byte : ℕ
  new_byte =
      changed bs w (bit_at (zone_blocks_begin bs sb) disk index) true (disk byte_addr) (index % 8)

  same_superblock : get_superblock (store disk byte_addr new_byte) ≡ get_superblock disk
  same_superblock = get_superblock-store disk byte_addr new_byte (omega (arith, zone.block))

  zone_after :
      (z : ℕ)
      → z < 2 ^ 32
      → is_zone_occupied bs (store disk byte_addr new_byte) z
        ≡ (if z == zone_num then digit w else is_zone_occupied bs disk z)
  zone_after z lt = ground (
    arith,
    zone.first,
    occupied_bit bs (store disk byte_addr new_byte) sb same_superblock z,
    occupied_bit bs disk sb refl z,
    bit_at-changed bs (zone_blocks_begin bs sb) disk w index (z - sb.first_data_zone) zone.bytes,
  )

  inode_after :
      (n : ℕ)
      → n ≤ 8 * (sb.imap_blocks * bs)
      → is_inode_occupied bs (store disk byte_addr new_byte) n ≡ is_inode_occupied bs disk n
  unfolding is_inode_occupied
  inode_after n le = ground arith

  -- Setting a zone of the bitmap returns 0 and changes the state of this zone alone; no inode's state
  -- changes.
  pub set_zone_as_lem :
      (z n : ℕ)
      → z < 2 ^ 32
      → n ≤ 8 * ((get_superblock disk).imap_blocks * bs)
      → let r = set_zone_as bs disk zone_num w in
        (r.0 ≡ 0)
        × (is_zone_occupied bs (r.1) z
            ≡ (if z == zone_num then digit w else is_zone_occupied bs disk z))
        × (is_inode_occupied bs (r.1) n ≡ is_inode_occupied bs disk n)
  set_zone_as_lem z n lt le =
      subst
        (λ r.
          (r.0 ≡ 0)
          × (is_zone_occupied bs (r.1) z
              ≡ (if z == zone_num then digit w else is_zone_occupied bs disk z))
          × (is_inode_occupied bs (r.1) n ≡ is_inode_occupied bs disk n))
        (sym set_zone-eq) (refl, zone_after z lt, inode_after n le)

  pub set_zone_as-superblock :
      get_superblock ((set_zone_as bs disk zone_num w).1) ≡ get_superblock disk
  set_zone_as-superblock = ap (λ r. get_superblock (r.1)) set_zone-eq ∙ same_superblock

module _ (bs : ℕ) (disk : Mem) (a n : ℕ) (from : Mem) (behind : 1056 ≤ a) where
  get_superblock-blit : get_superblock (blit disk a from 0 n) ≡ get_superblock disk
  unfolding get_superblock
  get_superblock-blit =
      let same : superblock_bytes (blit disk a from 0 n) ≡ superblock_bytes disk =
        fun_ext (λ k. ground arith) in
      ap superblock_of same

  -- bytes behind the byte of a zone in the bitmap do not change its state
  pub occupied-blit :
      (sb : Superblock)
      → get_superblock disk ≡ sb
      → (z : ℕ) → z < 2 ^ 32
      → zone_blocks_begin bs sb + (z - sb.first_data_zone) / 8 < a
      → (get_superblock (blit disk a from 0 n) ≡ sb)
        × (is_zone_occupied bs (blit disk a from 0 n) z ≡ is_zone_occupied bs disk z)
  occupied-blit sb e z word lt =
      let e' = get_superblock-blit ∙ e in
      (
        e',
        occupied_bit bs (blit disk a from 0 n) sb e' z word
            ∙ ground arith
            ∙ sym (occupied_bit bs disk sb e z word),
      )
