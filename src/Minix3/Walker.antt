-- ===== src/Minix3/Walker.antt =====
-- `minix3_zone_walker` of src/minix3.c: the zone of a file at an index, through its direct, indirect,
-- doubly and triply indirect zones. The walk that sets a zone may take new zones from the bitmap; the
-- fuel is for that search. A block has at most 4096 bytes, so that the index stays a 32-bit word. The
-- buffers are blocks of the medium, by the offset of a byte.
pub mod Lookup
pub mod Reading
pub mod File
pub mod Setting
pub mod Update
pub mod Renewal
mod Tests
use ducreu_os.Base.{
  ℕ, zero, suc, ◌+◌, ◌-◌, ◌*◌, ◌/◌, ◌%◌, ◌^◌, Bool, true, false, ◌==◌, ltb, leb, if◌then◌else◌,
  ◌&&◌, Option, none, some, ◌>>=◌,
}
use ducreu_os.Base.Memory.{Mem, within, blit}
use ducreu_os.Minix3.{word32, get_available_zone, set_zone_as}

abbrev pub idzone : ℕ
idzone = 7

abbrev pub iidzone : ℕ
iidzone = 8

abbrev pub iiidzone : ℕ
iiidzone = 9

-- what the walk keeps: the medium, the static counter of get_available_zone, the inode's zones, the
-- index it stands at, the size that is left and the buffers of the indirect zones
pub record Walk : Type 0 where
  pub disk : Mem
  pub counter : ℕ
  pub zones : ℕ → ℕ
  pub i : ℕ
  pub remaining_size : ℕ
  pub buffer_i : Mem
  pub buffer_ii : Mem
  pub buffer_iii : Mem

-- at `freeall` with the zone to return, on the way, or in a search for a zone that does not end
pub data Outcome : Type 0 where
  freeall : Walk → ℕ → Outcome
  going : Walk → Outcome
  hung : Outcome

abbrev pub continue : Outcome → (Walk → Outcome) → Outcome
continue (freeall s z) next = freeall s z
continue (going s) next = next s
continue hung next = hung

-- four bytes of a buffer
abbrev pub store_word32 : Mem → ℕ → ℕ → Mem
store_word32 m a v b = if within a 4 b then v / 256 ^ (b - a) % 256 else m b

abbrev pub put_zone : (ℕ → ℕ) → ℕ → ℕ → ℕ → ℕ
put_zone zones k z n = if n == k then z else zones n

module _ (bs : ℕ) where
  -- pointers per zone
  abbrev pub ppz : ℕ
  ppz = bs / 4

  unfoldable pub get_file_max_zones : ℕ
  get_file_max_zones = (7 + ppz + ppz * ppz + ppz * ppz * ppz) % 2 ^ 32

  abbrev pub less : ℕ → ℕ
  less size = size - (if ltb bs size then bs else size)

  abbrev pub baddr : ℕ → ℕ
  baddr zone = zone * bs % 2 ^ 32

  abbrev pub block_of : Mem → ℕ → Mem
  block_of disk zone o = disk (baddr zone + o)

  -- past a zone of the file, or where it has none
  abbrev pub past : Walk → ℕ → Walk
  past s z = record s {
    i = s.i + 1;
    remaining_size = if z == 0 then s.remaining_size else less s.remaining_size;
  }

  module _ (fuel zone_index : ℕ) (do_set_zone : Bool) (set_zone_to : ℕ) where
    -- a zone for pointers, taken and filled with zeros
    unfoldable pub new_zone : Walk → Option (ℕ × Walk)
    new_zone s = do
      found ← get_available_zone bs fuel s.disk s.counter
      some (
        found.0,
        record s {
          counter = found.1;
          disk = blit ((set_zone_as bs (found.2) (found.0) true).1) (baddr (found.0)) (λ _. 0) 0 bs;
        },
      )

    -- at the index asked for, when a zone is to be set
    abbrev pub wanted : Walk → Bool
    wanted s = (s.i == zone_index) && do_set_zone

    -- the first zones of the inode
    unfoldable pub walk_direct : ℕ → Walk → Outcome
    walk_direct zero s = going s
    walk_direct (suc n) s =
        let zones = if do_set_zone then put_zone s.zones s.i set_zone_to else s.zones in
        let rest = walk_direct n (past s (s.zones s.i)) in
        if leb zone_index s.i then freeall (record s { zones = zones }) (zones s.i) else rest

    -- the loop over the pointers from `j` on in buffer_i, which was read from `i_zone_baddr`
    unfoldable pub walk_zones : ℕ → ℕ → ℕ → Walk → Outcome
    walk_zones i_zone_baddr zero j s = going s
    walk_zones i_zone_baddr (suc n) j s =
        let buffer = store_word32 s.buffer_i (4 * j) set_zone_to in
        let written = record s { buffer_i = buffer; disk = blit s.disk i_zone_baddr buffer 0 bs } in
        let rest = walk_zones i_zone_baddr n (j + 1) (past s (word32 s.buffer_i (4 * j))) in
        if leb zone_index s.i
        then if do_set_zone
          then freeall written (word32 buffer (4 * j))
          else freeall s (word32 s.buffer_i (4 * j))
        else rest

    -- the zones behind a zone of pointers, or past them where it is 0
    unfoldable pub walk_block : ℕ → Walk → Outcome
    walk_block zone s =
        if zone == 0
        then going (record s { i = s.i + ppz })
        else walk_zones (baddr zone) ppz 0 (record s { buffer_i = block_of s.disk zone })

    -- a pointer of buffer_ii that leads to the zone wanted gets a new zone
    unfoldable pub renew_ii : ℕ → ℕ → Walk → Outcome
    renew_ii ii_zone_baddr k s =
        let given : Outcome = elim (new_zone s) [
          | none ↦ hung
          | some found ↦
              let buffer = store_word32 s.buffer_ii (4 * k) (found.0) in
              going (record found.1 {
                buffer_ii = buffer;
                disk = blit ((found.1).disk) ii_zone_baddr buffer 0 bs;
              })
        ] in
        if wanted s then given else going s

    -- the loop over the pointers from `k` on in buffer_ii
    unfoldable pub walk_blocks : ℕ → ℕ → ℕ → Walk → Outcome
    walk_blocks ii_zone_baddr zero k s = going s
    walk_blocks ii_zone_baddr (suc n) k s = continue (renew_ii ii_zone_baddr k s) (λ s'.
        continue (walk_block (word32 s'.buffer_ii (4 * k)) s')
          (walk_blocks ii_zone_baddr n (k + 1)))

    unfoldable pub renew_iii : ℕ → ℕ → Walk → Outcome
    renew_iii iii_zone_baddr l s =
        let given : Outcome = elim (new_zone s) [
          | none ↦ hung
          | some found ↦
              let buffer = store_word32 s.buffer_iii (4 * l) (found.0) in
              going (record found.1 {
                buffer_iii = buffer;
                disk = blit ((found.1).disk) iii_zone_baddr buffer 0 bs;
              })
        ] in
        if wanted s then given else going s

    -- the loop over the pointers from `l` on in buffer_iii; the block that is read is the one of the
    -- inode's doubly indirect zone
    unfoldable pub walk_trees : ℕ → ℕ → ℕ → Walk → Outcome
    walk_trees iii_zone_baddr zero l s = going s
    walk_trees iii_zone_baddr (suc n) l s = continue (renew_iii iii_zone_baddr l s) (λ s'.
        let ii_zone_baddr = baddr (s'.zones iidzone) in
        let inside =
          walk_blocks ii_zone_baddr ppz 0
            (record s' { buffer_ii = block_of s'.disk (s'.zones iidzone) }) in
        continue
          (if word32 s'.buffer_iii (4 * l) == 0
            then going (record s' { i = s'.i + ppz * ppz })
            else inside)
          (walk_trees iii_zone_baddr n (l + 1)))

    -- a zone of pointers of the inode that leads to the zone wanted is a new one
    unfoldable pub renew : ℕ → Walk → Outcome
    renew which s =
        let given : Outcome = elim (new_zone s) [
          | none ↦ hung
          | some found ↦ going (record found.1 { zones = put_zone (found.1).zones which (found.0) })
        ] in
        if wanted s then given else going s

    unfoldable pub walk_indirect : Walk → Outcome
    walk_indirect s = continue (renew idzone s) (λ s'. walk_block (s'.zones idzone) s')

    unfoldable pub walk_doubly : Walk → Outcome
    walk_doubly s = continue (renew iidzone s) (λ s'.
        let zone = s'.zones iidzone in
        if zone == 0
        then going (record s' { i = s'.i + ppz * ppz })
        else walk_blocks (baddr zone) ppz 0 (record s' { buffer_ii = block_of s'.disk zone }))

    unfoldable pub walk_triply : Walk → Outcome
    walk_triply s = continue (renew iiidzone s) (λ s'.
        let zone = s'.zones iiidzone in
        if zone == 0
        then going (record s' { i = s'.i + ppz * ppz * ppz })
        else walk_trees (baddr zone) ppz 0 (record s' { buffer_iii = block_of s'.disk zone }))

    -- The walk of an inode with these zones and this size; `going` at the end is a return of a
    -- variable that was never set.
    unfoldable pub zone_walker : Mem → ℕ → (ℕ → ℕ) → ℕ → Outcome
    zone_walker disk counter zones size =
        let start : Walk = record {
          disk = disk;
          counter = counter;
          zones = zones;
          i = 0;
          remaining_size = size;
          buffer_i = λ _. 0;
          buffer_ii = λ _. 0;
          buffer_iii = λ _. 0;
        } in
        continue (continue (continue (walk_direct 7 start) walk_indirect) walk_doubly) walk_triply
