-- ===== src/Minix3/Walker/File.antt =====
-- What a reading walk of src/minix3.c returns for a file, up to its doubly indirect zones.
use native.Mathlib.Decide.{dec_lt}
use native.Mathlib.Nat.{mul-add-div_right, div-eq_of_lt, div-add-mod', div-lt_iff_lt-mul, mod-lt}
use ducreu_os.Base.{
  ℕ, zero, suc, ◌+◌, ◌-◌, ◌*◌, ◌/◌, ◌%◌, ◌≤◌, ◌<◌, ◌≡◌, ◌≢◌, refl, sym, ap, ◌∙◌, false, ◌==◌, ltb,
  if◌then◌else◌, some, arith,
}
use ducreu_os.Base.Memory.{Mem}
use ducreu_os.Minix3.{word32}
use ducreu_os.Minix3.Walker.{
  Walk, Outcome, going, continue, ppz, baddr, block_of, walk_direct, renew, walk_indirect,
  walk_doubly, zone_walker, idzone, iidzone,
}
use ducreu_os.Minix3.Walker.Lookup.{answer, entry, size_left, GivesAll, block_past, block_found}
use ducreu_os.Minix3.Walker.Reading.{to, answered, blocks_found, direct_past, direct_found}

positive_of : (n p : ℕ) → n < p * p → 0 < p
positive_of n zero lt = absurd (omega arith)
positive_of n (suc p) lt = omega arith

module _ (bs : ℕ) (disk : Mem) (zones : ℕ → ℕ) where
  -- the zone of pointers that holds the pointer of an index, or 1 for an index without one
  unfoldable pub pointers : ℕ → ℕ
  pointers index =
      let p = ppz bs in
      let inside = index - (7 + p) in
      if ltb index 7
      then 1
      else if ltb index (7 + p)
      then zones idzone
      else entry bs disk (zones iidzone) (inside / p)

  -- the zone of the file at an index, 0 where it has none
  unfoldable pub file_zone : ℕ → ℕ
  file_zone index =
      let p = ppz bs in
      let inside = index - (7 + p) in
      if ltb index 7
      then zones index
      else if ltb index (7 + p)
      then entry bs disk (zones idzone) (index - 7)
      else entry bs disk (entry bs disk (zones iidzone) (inside / p)) (inside % p)

  pub file_zone-direct : (o : ℕ) → o < 7 → zones (0 + o) ≡ file_zone (0 + o)
  unfolding file_zone
  file_zone-direct o lt = ground arith

  pub file_zone-indirect : (o : ℕ) → o < ppz bs → entry bs disk (zones idzone) o ≡ file_zone (7 + o)
  unfolding file_zone
  file_zone-indirect o lt = ground arith

  quotient : (q r : ℕ) → r < ppz bs → (q * ppz bs + r) / ppz bs ≡ q
  quotient q r lt =
      mul-add-div_right (omega arith) q r ∙ omega (arith, div-eq_of_lt {n = r} {m = ppz bs} lt)

  remainder : (q r : ℕ) → r < ppz bs → (q * ppz bs + r) % ppz bs ≡ r
  remainder q r lt =
      omega (arith, div-add-mod' (q * ppz bs + r) (ppz bs), ap (λ x. x * ppz bs) (quotient q r lt))

  file_zone-doubly :
      (q r : ℕ)
      → r < ppz bs
      → entry bs disk (entry bs disk (zones iidzone) q) r ≡ file_zone (7 + ppz bs + q * ppz bs + r)
  unfolding file_zone
  file_zone-doubly q r lt =
      let n = 7 + ppz bs + q * ppz bs + r in
      let not_direct : ltb n 7 ≡ false = ground arith in
      let not_indirect : ltb n (7 + ppz bs) ≡ false = ground arith in
      let inside : n - (7 + ppz bs) ≡ q * ppz bs + r = omega arith in
      rw not_direct
        (rw not_indirect (rw inside (rw (quotient q r lt) (rw (remainder q r lt) refl))))

module _ (bs fuel index counter size : ℕ) (disk : Mem) (zones : ℕ → ℕ) where
  abbrev f : ℕ → ℕ
  f = file_zone bs disk zones

  abbrev pub start : Walk
  start = record {
    disk = disk;
    counter = counter;
    zones = zones;
    i = 0;
    remaining_size = size;
    buffer_i = λ _. 0;
    buffer_ii = λ _. 0;
    buffer_iii = λ _. 0;
  }

  abbrev along : ℕ → Mem → Walk
  along = to bs fuel index f size start

  same_start : along 0 (λ _. 0) ≡ start
  unfolding size_left
  same_start = refl

  not_renewed : (which : ℕ) (s : Walk) → renew bs fuel index false 0 which s ≡ going s
  unfolding renew
  not_renewed which s = ground arith

  abbrev walk_1 : Outcome
  walk_1 = walk_direct bs fuel index false 0 7 start

  abbrev walk_2 : Outcome
  walk_2 = continue walk_1 (walk_indirect bs fuel index false 0)

  abbrev walk_3 : Outcome
  walk_3 = continue walk_2 (walk_doubly bs fuel index false 0)

  Found : Outcome → Type 0
  Found w = answer w ≡ some (f index, size_left bs f size index)

  direct_part : index < 7 → Found walk_1
  unfolding Found size_left
  direct_part lt =
      direct_found bs fuel index f size 7 start 0 (λ _. 0) (omega arith) lt
        (file_zone-direct bs disk zones)

  past_direct : 7 ≤ index → walk_1 ≡ going (along 7 (λ _. 0))
  unfolding size_left
  past_direct le =
      direct_past bs fuel index f size false 0 7 start 0 (λ _. 0) le
        (file_zone-direct bs disk zones)

  indirect_part : 7 ≤ index → index < 7 + ppz bs → zones idzone ≢ 0 → Found walk_2
  unfolding Found walk_indirect
  indirect_part le lt ne = rw (past_direct le) (
      rw (not_renewed idzone (along 7 (λ _. 0))) (
        block_found bs fuel index f size (zones idzone) start 7 (λ _. 0) ne le lt
          (file_zone-indirect bs disk zones)))

  past_indirect : 7 + ppz bs ≤ index → (b : Mem) × (walk_2 ≡ going (along (7 + ppz bs) b))
  unfolding walk_indirect
  past_indirect le =
      let here =
        block_past bs fuel index f size (zones idzone) start 7 (λ _. 0) le
          (file_zone-indirect bs disk zones) in
      (here.0, rw (past_direct (omega arith)) (rw (not_renewed idzone (along 7 (λ _. 0))) (here.1)))

  abbrev q : ℕ
  q = (index - (7 + ppz bs)) / ppz bs

  abbrev r : ℕ
  r = (index - (7 + ppz bs)) % ppz bs

  abbrev buffer_ii : Mem
  buffer_ii = block_of bs disk (zones iidzone)

  entry_ii :
      (k : ℕ) → zones iidzone ≢ 0 → entry bs disk (zones iidzone) k ≡ word32 buffer_ii (4 * (0 + k))
  entry_ii k ne = ground arith

  blocks_ii :
      zones iidzone ≢ 0 → GivesAll bs fuel index f size disk buffer_ii (ppz bs) 0 (7 + ppz bs)
  blocks_ii ne k lt o lt' =
      ap (λ z. entry bs disk z o) (sym (entry_ii k ne)) ∙ file_zone-doubly bs disk zones k o lt'

  doubly_part :
      7 + ppz bs ≤ index
      → index < 7 + ppz bs + ppz bs * ppz bs
      → entry bs disk (zones iidzone) q ≢ 0
      → Found walk_3
  unfolding Found walk_doubly
  doubly_part le lt ne =
      let some_blocks : zones iidzone ≢ 0 = λ e. ne (ground (arith, e)) in
      let not_zero : (zones iidzone == 0) ≡ false = ground (arith, some_blocks) in
      let here = past_indirect le in
      let positive = positive_of (index - (7 + ppz bs)) (ppz bs) (omega arith) in
      rw (here.1) (
        rw (not_renewed iidzone (along (7 + ppz bs) (here.0))) (
          rw not_zero (
            blocks_found bs fuel index f size (baddr bs (zones iidzone)) (ppz bs) 0
              (record start { buffer_ii = buffer_ii }) (7 + ppz bs) (here.0) q r
              ((div-lt_iff_lt-mul positive).1 (omega arith))
              (mod-lt (index - (7 + ppz bs)) positive)
              (omega (arith, div-add-mod' (index - (7 + ppz bs)) (ppz bs)))
              (λ e. ne (entry_ii q some_blocks ∙ e)) (blocks_ii some_blocks))))

  -- A reading walk returns the file's zone at the index and the size behind the zones in front of it, if
  -- the index is below the triply indirect zones and its zone of pointers is there.
  pub zone_walker-file_zone :
      index < 7 + ppz bs + ppz bs * ppz bs
      → pointers bs disk zones index ≢ 0
      → answer (zone_walker bs fuel index false 0 disk counter zones size)
        ≡ some (file_zone bs disk zones index, size_left bs (file_zone bs disk zones) size index)
  unfolding zone_walker Found pointers
  zone_walker-file_zone lt ne = elim (dec_lt index 7) [
    | yes direct ↦ answered _ _ _ (answered _ _ _ (answered _ _ _ (direct_part direct)))
    | no past ↦ elim (dec_lt index (7 + ppz bs)) [
      | yes indirect ↦
          answered _ _ _
            (answered _ _ _ (indirect_part (omega arith) indirect (λ e. ne (ground (arith, e)))))
      | no past' ↦ answered _ _ _ (doubly_part (omega arith) lt (λ e. ne (ground (arith, e))))
    ]
  ]
