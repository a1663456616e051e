-- ===== src/Minix3/Walker/Update.antt =====
-- A walk of src/minix3.c that sets a zone in front of the doubly indirect ones.
use native.Mathlib.Decide.{dec_lt}
use ducreu_os.Base.{
  ℕ, ◌+◌, ◌-◌, ◌*◌, ◌^◌, ◌≤◌, ◌<◌, ◌≡◌, ◌≢◌, refl, ap, ap₂, ◌∙◌, true, false, ◌==◌, ltb,
  if◌then◌else◌, arith,
}
use ducreu_os.Base.Memory.{Mem, blit}
use ducreu_os.Minix3.{word32}
use ducreu_os.Minix3.Walker.{
  Walk, Outcome, freeall, going, continue, ppz, baddr, block_of, store_word32, walk_direct,
  walk_zones, walk_block, renew, walk_indirect, zone_walker, idzone,
}
use ducreu_os.Minix3.Walker.Lookup.{entry, moved, size_left}
use ducreu_os.Minix3.Walker.Reading.{direct_past}
use ducreu_os.Minix3.Walker.File.{file_zone, pointers, start, file_zone-direct}
use ducreu_os.Minix3.Walker.Setting.{word32-store, direct_set, zones_set}

-- The walk ends with the zone `z`, and the zones of the file in front of the doubly indirect ones are
-- those of `g`.
abbrev pub Sets : ℕ → Outcome → ℕ → (ℕ → ℕ) → Type 0
Sets bs w z g =
    (s : Walk) × (w ≡ freeall s z)
    × ((x : ℕ)
        → (if ltb x (7 + ppz bs) then file_zone bs s.disk s.zones x else 0)
          ≡ (if ltb x (7 + ppz bs) then g x else 0))

module _ (bs : ℕ) (disk : Mem) (zones : ℕ → ℕ) where
  pub file_zone_direct : (x : ℕ) → x < 7 → file_zone bs disk zones x ≡ zones x
  unfolding file_zone
  file_zone_direct x lt = ground arith

  pub file_zone_indirect :
      (x k : ℕ)
      → k < ppz bs
      → x ≡ 7 + k
      → file_zone bs disk zones x ≡ entry bs disk (zones idzone) k
  unfolding file_zone
  file_zone_indirect x k lt e =
      let inside : x - 7 ≡ k = omega arith in
      let not_direct : ltb x 7 ≡ false = ground arith in
      let indirect : ltb x (7 + ppz bs) ≡ true = ground arith in
      rw not_direct (rw indirect (rw inside refl))

-- the zones of the file with `v` at the index
abbrev pub replaced : ℕ → ℕ → ℕ → Mem → (ℕ → ℕ) → ℕ → ℕ
replaced bs index v disk zones x = if x == index then v else file_zone bs disk zones x

module _ (bs fuel index v counter size : ℕ) (disk : Mem) (zones : ℕ → ℕ) where
  abbrev f : ℕ → ℕ
  f = file_zone bs disk zones

  abbrev pub setting_walk : Outcome
  setting_walk = zone_walker bs fuel index true v disk counter zones size

  abbrev pub first_state : Walk
  first_state = start bs fuel index counter size disk zones

  pub agree :
      (disk' : Mem) (zones' : ℕ → ℕ)
      → ((x : ℕ) → x < 7 → zones' x ≡ replaced bs index v disk zones x)
      → ((x k : ℕ)
          → k < ppz bs
          → x ≡ 7 + k
          → entry bs disk' (zones' idzone) k ≡ replaced bs index v disk zones x)
      → (x : ℕ)
      → (if ltb x (7 + ppz bs) then file_zone bs disk' zones' x else 0)
        ≡ (if ltb x (7 + ppz bs) then replaced bs index v disk zones x else 0)
  agree disk' zones' direct indirect x = elim (dec_lt x 7) [
    | yes lt ↦
        ap (λ z. if ltb x (7 + ppz bs) then z else 0)
          (file_zone_direct bs disk' zones' x lt ∙ direct x lt)
    | no ge ↦ elim (dec_lt x (7 + ppz bs)) [
      | yes lt ↦
          ap (λ z. if ltb x (7 + ppz bs) then z else 0)
            (file_zone_indirect bs disk' zones' x (x - 7) (omega arith) (omega arith)
              ∙ indirect x (x - 7) (omega arith) (omega arith))
      | no ge' ↦ let out : ltb x (7 + ppz bs) ≡ false = ground arith in rw out refl
    ]
  ]

  pub freed :
      (w : Outcome) (s : Walk) (z : ℕ) (next : Walk → Outcome)
      → w ≡ freeall s z
      → continue w next ≡ freeall s z
  freed w s z next e = ap (λ o. continue o next) e

  direct_update : index < 7 → Sets bs setting_walk v (replaced bs index v disk zones)
  unfolding zone_walker
  direct_update lt =
      let set = direct_set bs fuel index v 7 first_state (omega arith) lt in
      let other : (set.0).zones idzone ≡ zones idzone = ap (λ z. z idzone) (set.3) ∙ ground arith in
      (
        set.0,
        freed _ _ _ _ (freed _ _ _ _ (freed _ _ _ _ (set.1))),
        agree (set.0).disk (set.0).zones
            (λ x lt'. ap (λ z. z x) (set.3) ∙ ground (arith, file_zone_direct bs disk zones x))
            (λ x k lt' e.
              ap₂ (λ d z. entry bs d z k) (set.2) other
              ∙ ground (arith, file_zone_indirect bs disk zones x k)),
      )

  abbrev pub moved_on : Walk
  moved_on = moved bs fuel index f size first_state 7 (λ _. 0)

  pub past_direct : 7 ≤ index → walk_direct bs fuel index true v 7 first_state ≡ going moved_on
  unfolding size_left
  past_direct le =
      direct_past bs fuel index f size true v 7 first_state 0 (λ _. 0) le
        (file_zone-direct bs disk zones)

  not_first : 7 < index → renew bs fuel index true v idzone moved_on ≡ going moved_on
  unfolding renew
  not_first lt = let no_match : (7 == index) ≡ false = ground arith in rw no_match refl

  abbrev pub changed_buffer : Mem
  changed_buffer = store_word32 (block_of bs disk (zones idzone)) (4 * (0 + (index - 7))) v

  abbrev pub changed_disk : Mem
  changed_disk = blit disk (baddr bs (zones idzone)) changed_buffer 0 bs

  in_buffer : (o : ℕ) → o < bs → block_of bs changed_disk (zones idzone) o ≡ changed_buffer o
  in_buffer o lt =
      let offset : 0 + (baddr bs (zones idzone) + o - baddr bs (zones idzone)) ≡ o = omega arith in
      rw offset (ground arith)

  in_block :
      (k : ℕ)
      → k < ppz bs
      → word32 (block_of bs changed_disk (zones idzone)) (4 * k) ≡ word32 changed_buffer (4 * k)
  in_block k lt = rw (in_buffer (4 * k) (omega arith)) (
      rw (in_buffer (4 * k + 1) (omega arith)) (
        rw (in_buffer (4 * k + 2) (omega arith))
          (rw (in_buffer (4 * k + 2 + 1) (omega arith)) refl)))

  pub entry_after :
      (x k : ℕ)
      → v < 2 ^ 32
      → zones idzone ≢ 0
      → 7 ≤ index
      → k < ppz bs
      → x ≡ 7 + k
      → entry bs changed_disk (zones idzone) k ≡ replaced bs index v disk zones x
  entry_after x k word ne lt lt' e =
      let some_block : (zones idzone == 0) ≡ false = ground arith in
      let which : (k == 0 + (index - 7)) ≡ (x == index) = ground arith in
      let old : f x ≡ word32 (block_of bs disk (zones idzone)) (4 * k) =
        file_zone_indirect bs disk zones x k lt' e ∙ rw some_block refl in
      rw some_block (
        in_block k lt'
        ∙ word32-store (block_of bs disk (zones idzone)) (0 + (index - 7)) k v word
        ∙ ground (arith, which, old))

  abbrev at_block : Walk
  at_block = record moved_on { buffer_i = block_of bs disk (zones idzone) }

  indirect_ends :
      (s : Walk)
      → 7 < index
      → zones idzone ≢ 0
      → walk_zones bs fuel index true v (baddr bs (zones idzone)) (ppz bs) 0 at_block ≡ freeall s v
      → continue
          (walk_direct bs fuel index true v 7 first_state)
          (walk_indirect bs fuel index true v)
        ≡ freeall s v
  unfolding walk_indirect walk_block
  indirect_ends s lt ne ended =
      let some_block : (zones idzone == 0) ≡ false = ground arith in
      rw (past_direct (omega arith)) (rw (not_first lt) (rw some_block ended))

  indirect_update :
      7 < index
      → index < 7 + ppz bs
      → zones idzone ≢ 0
      → v < 2 ^ 32
      → Sets bs setting_walk v (replaced bs index v disk zones)
  unfolding zone_walker
  indirect_update lt lt' ne word =
      let set =
        zones_set bs fuel index v (baddr bs (zones idzone)) (ppz bs) 0 at_block word (omega arith)
          lt' in
      (
        set.0,
        freed _ _ _ _ (freed _ _ _ _ (indirect_ends (set.0) lt ne (set.1))),
        agree (set.0).disk (set.0).zones
            (λ x low. ap (λ z. z x) (set.3) ∙ ground (arith, file_zone_direct bs disk zones x))
            (λ x k low e.
              ap₂ (λ d z. entry bs d (z idzone) k) (set.2) (set.3)
              ∙ entry_after x k word ne (omega arith) low e),
      )

  -- A walk that sets the zone at an index in front of the doubly indirect ones returns with it, and in
  -- front of these the file then has that zone at the index and every other zone as before, if the
  -- index is not the first indirect one and its zone of pointers is there.
  pub zone_walker-replaced :
      v < 2 ^ 32
      → index < 7 + ppz bs
      → index ≢ 7
      → pointers bs disk zones index ≢ 0
      → Sets bs setting_walk v (replaced bs index v disk zones)
  unfolding pointers
  zone_walker-replaced word lt ne some_pointers = elim (dec_lt index 7) [
    | yes low ↦ direct_update low
    | no ge ↦ indirect_update (omega arith) lt (λ e. some_pointers (ground (arith, e))) word
  ]
