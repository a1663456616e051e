-- ===== src/Minix3/Walker/Renewal.antt =====
-- A walk of src/minix3.c that sets the zone at the first indirect index.
use ducreu_os.Base.{
  ℕ, ◌+◌, ◌-◌, ◌*◌, ◌/◌, ◌^◌, ◌≤◌, ◌<◌, ◌≡◌, ◌≢◌, refl, sym, ap, ap₂, ◌∙◌, true, false, ◌==◌, ltb,
  if◌then◌else◌, some, arith,
}
use ducreu_os.Base.Memory.{Mem, blit}
use ducreu_os.Minix3.{
  get_available_zone, set_zone_as, get_superblock, zone_blocks_begin, is_zone_occupied,
}
use ducreu_os.Minix3.Bitmap.{IsZone, set_zone_as_lem, set_zone_as-superblock, occupied-blit}
use ducreu_os.Minix3.Walker.{
  Walk, freeall, going, continue, ppz, baddr, block_of, put_zone, walk_direct, walk_zones,
  walk_block, renew, store_word32, new_zone, walk_indirect, zone_walker, idzone,
}
use ducreu_os.Minix3.Walker.Lookup.{entry}
use ducreu_os.Minix3.Walker.File.{file_zone}
use ducreu_os.Minix3.Walker.Setting.{zones_set}
use ducreu_os.Minix3.Walker.Update.{
  agree, freed, past_direct, entry_after, file_zone_direct, file_zone_indirect, first_state,
  moved_on, setting_walk, replaced,
}

-- the zones of the file where `v` is the only indirect one
abbrev pub remaining : ℕ → ℕ → Mem → (ℕ → ℕ) → ℕ → ℕ
remaining bs v disk zones x = if x == 7 then v else if ltb x 7 then file_zone bs disk zones x else 0

module _ (bs fuel v counter size : ℕ) (disk : Mem) (zones : ℕ → ℕ) (z counter' : ℕ) (disk' : Mem)
    (given : get_available_zone bs fuel disk counter ≡ some (z, counter', disk'))
    (z-zone : z ≢ 0) where
  abbrev cleared : Mem
  cleared = blit ((set_zone_as bs disk' z true).1) (baddr bs z) (λ _. 0) 0 bs

  abbrev renewed : ℕ → ℕ
  renewed = put_zone zones idzone z

  abbrev here : Walk
  here = moved_on bs fuel 7 v counter size disk zones

  abbrev with_block : Walk
  with_block = record here { counter = counter'; disk = cleared; zones = renewed }

  renewal : renew bs fuel 7 true v idzone here ≡ going with_block
  unfolding renew new_zone
  renewal = rw given refl

  zero_byte : (o : ℕ) → o < bs → block_of bs cleared z o ≡ 0
  zero_byte o lt = ground arith

  zero_entry : (k : ℕ) → k < ppz bs → entry bs cleared z k ≡ 0
  zero_entry k lt =
      let there : (z == 0) ≡ false = ground (arith, z-zone) in
      rw there (
        omega (
          arith,
          zero_byte (4 * k) (omega arith),
          zero_byte (4 * k + 1) (omega arith),
          zero_byte (4 * k + 2) (omega arith),
          zero_byte (4 * k + 2 + 1) (omega arith),
        ))

  abbrev replaced' : ℕ → ℕ
  replaced' = replaced bs 7 v cleared renewed

  renewed_low : (x : ℕ) → x < 7 → file_zone bs cleared renewed x ≡ file_zone bs disk zones x
  renewed_low x lt =
      file_zone_direct bs cleared renewed x lt
      ∙ ground arith
      ∙ sym (file_zone_direct bs disk zones x lt)

  replaced-remaining :
      (x : ℕ)
      → (if ltb x (7 + ppz bs) then replaced' x else 0)
        ≡ (if ltb x (7 + ppz bs) then remaining bs v disk zones x else 0)
  replaced-remaining x =
      ground
        (arith, renewed_low x, file_zone_indirect bs cleared renewed x (x - 7), zero_entry (x - 7))

  abbrev at_block : Walk
  at_block = record with_block { buffer_i = block_of bs cleared z }

  indirect_ends :
      (s : Walk)
      → walk_zones bs fuel 7 true v (baddr bs z) (ppz bs) 0 at_block ≡ freeall s v
      → continue
          (walk_direct bs fuel 7 true v 7 (first_state bs fuel 7 v counter size disk zones))
          (walk_indirect bs fuel 7 true v)
        ≡ freeall s v
  unfolding walk_indirect walk_block
  indirect_ends s ended =
      let there : (z == 0) ≡ false = ground (arith, z-zone) in
      rw (past_direct bs fuel 7 v counter size disk zones (omega arith))
        (rw renewal (rw there ended))

  -- the block of the zone lies behind the bitmap of the zones
  abbrev pub IsBehindBitmap : Type 0
  IsBehindBitmap =
      zone_blocks_begin bs (get_superblock disk') + (get_superblock disk').num_zones / 8
      < baddr bs z

  -- The zone is taken on the medium of the walk: two writes to its block do not reach the bitmap.
  taken_after :
      (from : Mem)
      → IsZone bs disk' z
      → IsBehindBitmap
      → is_zone_occupied bs (blit cleared (baddr bs z) from 0 bs) z ≡ 1
  taken_after from zone behind =
      let set = set_zone_as_lem bs disk' z true zone z 0 zone.word (omega arith) in
      let far : 1056 ≤ baddr bs z = omega (arith, behind, zone.block) in
      let low : zone_blocks_begin bs (get_superblock disk')
            + (z - (get_superblock disk').first_data_zone) / 8
          < baddr bs z =
        omega (arith, behind, zone.last) in
      let first =
        occupied-blit bs ((set_zone_as bs disk' z true).1) (baddr bs z) bs (λ _. 0) far
          (get_superblock disk') (set_zone_as-superblock bs disk' z true zone) z zone.word low in
      let second =
        occupied-blit bs cleared (baddr bs z) bs from far (get_superblock disk') (first.0) z
          zone.word low in
      second.1 ∙ first.1 ∙ set.1 ∙ ground arith

  -- A walk that sets the zone at the first indirect index takes a new zone of pointers, also when there
  -- is one: if the zone that the search gives is in range and its block lies behind the bitmap, it is
  -- the file's zone of pointers then, it is marked as taken, and every other indirect zone is 0.
  pub zone_walker-renewed :
      0 < ppz bs
      → v < 2 ^ 32
      → IsZone bs disk' z
      → IsBehindBitmap
      → (s : Walk) × (setting_walk bs fuel 7 v counter size disk zones ≡ freeall s v)
        × (s.zones idzone ≡ z)
        × (is_zone_occupied bs s.disk z ≡ 1)
        × ((x : ℕ)
            → (if ltb x (7 + ppz bs) then file_zone bs s.disk s.zones x else 0)
              ≡ (if ltb x (7 + ppz bs) then remaining bs v disk zones x else 0))
  unfolding zone_walker
  zone_walker-renewed room word zone behind =
      let set =
        zones_set bs fuel 7 v (baddr bs z) (ppz bs) 0 at_block word (omega arith) (omega arith) in
      (
        set.0,
        freed bs fuel 7 v counter size disk zones _ _ _ _
            (freed bs fuel 7 v counter size disk zones _ _ _ _ (indirect_ends (set.0) (set.1))),
        ap (λ f. f idzone) (set.3) ∙ ground arith,
        ap (λ d. is_zone_occupied bs d z) (set.2)
            ∙ taken_after (store_word32 at_block.buffer_i (4 * (0 + (7 - at_block.i))) v) zone
                behind,
        λ x.
            agree bs fuel 7 v counter size cleared renewed (set.0).disk (set.0).zones
              (λ y low.
                ap (λ f. f y) (set.3) ∙ ground (arith, file_zone_direct bs cleared renewed y))
              (λ y k low e.
                ap₂ (λ d f. entry bs d (f idzone) k) (set.2) (set.3)
                ∙ entry_after bs fuel 7 v counter size cleared renewed y k word z-zone (omega arith)
                    low e)
              x
            ∙ replaced-remaining x,
      )
