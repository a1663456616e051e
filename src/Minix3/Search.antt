-- ===== src/Minix3/Search.antt =====
-- The searches of src/minix3.c for a free zone and a free inode.
use ducreu_os.Base.{
  ℕ, zero, suc, ◌+◌, ◌-◌, ◌*◌, ◌%◌, ◌^◌, ◌≤◌, ◌<◌, ◌≡◌, ◌≢◌, ◌⊎◌, inl, inr, refl, ◌∙◌, subst, true,
  false, Bool-cases, ◌==◌, if◌then◌else◌, none, some, arith,
}
use native.Mathlib.Decide.{dec_lt}
use ducreu_os.Base.Memory.{Mem, within}
use ducreu_os.Minix3.{
  get_superblock, is_zone_occupied, is_zone_in_range, set_zone_to_zero, available_zone_from,
  get_available_zone,
}

module _ (bs : ℕ) (disk : Mem) where
  abbrev first : ℕ
  first = (get_superblock disk).first_data_zone

  in_range-true :
      (z : ℕ)
      → first ≤ z
      → z - first < (get_superblock disk).num_zones
      → z < 2 ^ 32
      → is_zone_in_range bs disk z ≡ true
  unfolding is_zone_in_range
  in_range-true z low high lt = ground arith

  -- a round at a zone in range, and one at a zone that is not
  round_in :
      (fuel test : ℕ)
      → is_zone_in_range bs disk test ≡ true
      → available_zone_from bs (suc fuel) disk test ≡ (
          if is_zone_occupied bs disk test == 0
          then some (test, test, set_zone_to_zero bs disk test)
          else available_zone_from bs fuel disk ((test + 1) % 2 ^ 32))
  unfolding available_zone_from
  round_in fuel test e = rw e refl

  round_out :
      (fuel test : ℕ)
      → is_zone_in_range bs disk test ≡ false
      → 0 < first
      → available_zone_from bs (suc fuel) disk test ≡ available_zone_from bs fuel disk 1
  unfolding available_zone_from is_zone_occupied
  round_out fuel test e h = rw e (ground arith)

  accepted :
      (fuel n : ℕ)
      → is_zone_in_range bs disk n ≡ true
      → is_zone_occupied bs disk n ≡ 0
      → available_zone_from bs (suc fuel) disk n ≡ some (n, n, set_zone_to_zero bs disk n)
  accepted fuel n e free = round_in fuel n e ∙ ground arith

  passed :
      (fuel test : ℕ)
      → is_zone_in_range bs disk test ≡ true
      → is_zone_occupied bs disk test ≢ 0
      → test + 1 < 2 ^ 32
      → available_zone_from bs (suc fuel) disk test ≡ available_zone_from bs fuel disk (test + 1)
  passed fuel test e taken lt =
      let next : (test + 1) % 2 ^ 32 ≡ test + 1 = omega arith in
      round_in fuel test e ∙ rw next (ground arith)

  -- The zone `n` is free and in range, and those from `test` up to it are taken.
  pub record IsFirstFree (test n : ℕ) : Type 0 where
    pub low : first ≤ test
    pub order : test ≤ n
    pub word : n < 2 ^ 32
    pub high : n - first < (get_superblock disk).num_zones
    pub taken : (i : ℕ) → test ≤ i → i < n → is_zone_occupied bs disk i ≢ 0
    pub free : is_zone_occupied bs disk n ≡ 0

  IsFirstFree-next : (test n : ℕ) → IsFirstFree test n → test < n → IsFirstFree (test + 1) n
  IsFirstFree-next test n f lt = record {
    low = omega (arith, f.low);
    order = omega arith;
    word = f.word;
    high = f.high;
    taken = λ i le lt'. f.taken i (omega arith) lt';
    free = f.free;
  }

  available-first :
      (fuel test n : ℕ)
      → IsFirstFree test n
      → n < test + fuel
      → available_zone_from bs fuel disk test ≡ some (n, n, set_zone_to_zero bs disk n)
  available-first zero test n f lt = absurd (omega (arith, f.order))
  available-first (suc fuel) test n f lt = elim (dec_lt test n) [
    | no ge ↦
        subst
          (λ t. available_zone_from bs (suc fuel) disk t ≡ some (n, n, set_zone_to_zero bs disk n))
          (omega (arith, f.order, ge))
          (accepted fuel n (in_range-true n (omega (arith, f.low, f.order)) f.high f.word) f.free)
    | yes lt' ↦
        passed fuel test
          (in_range-true test f.low (omega (arith, f.order, f.high))
            (omega (arith, f.order, f.word)))
          (f.taken test (omega arith) lt') (omega (arith, f.word))
        ∙ available-first fuel (test + 1) n (IsFirstFree-next test n f lt') (omega arith)
  ]

  -- the zone that the search starts from, by the static counter
  abbrev pub search_start : ℕ → ℕ
  search_start test = if test == 0 then first else test

  -- get_available_zone returns the first free zone in range from the counter on, which is 0 at first,
  -- if its first byte has a 32-bit address; the bytes of the zone are 0 then and all others as before.
  -- A round for each zone up to it is enough.
  pub get_available_zone_lem :
      (fuel test n : ℕ)
      → IsFirstFree (search_start test) n
      → n < search_start test + fuel
      → bs * n < 2 ^ 32
      → (disk' : Mem) × (get_available_zone bs fuel disk test ≡ some (n, n, disk'))
        × ((a : ℕ) → disk' a ≡ (if within (bs * n) bs a then 0 else disk a))
  unfolding get_available_zone set_zone_to_zero
  get_available_zone_lem fuel test n f lt word =
      let address : bs * n % 2 ^ 32 ≡ bs * n = omega arith in
      (
        set_zone_to_zero bs disk n,
        available-first fuel (search_start test) n f lt,
        λ a. rw address refl,
      )

  -- no zone is found from here on: it lies in front of the data zones, or all up to the last are taken
  abbrev Stuck : ℕ → Type 0
  Stuck test =
      (test < first)
      ⊎ ((z : ℕ)
          → test ≤ z
          → z < 2 ^ 32
          → is_zone_in_range bs disk z ≡ true
          → is_zone_occupied bs disk z ≢ 0)

  below-out : (z : ℕ) → z < first → is_zone_in_range bs disk z ≡ false
  unfolding is_zone_in_range
  below-out z lt = ground arith

  Stuck-next :
      (test : ℕ)
      → 2 ≤ first
      → test < 2 ^ 32
      → Stuck test
      → is_zone_in_range bs disk test ≡ true
      → Stuck ((test + 1) % 2 ^ 32)
  Stuck-next test two word (inl lt) e = absurd (ground (arith, below-out test lt))
  Stuck-next test two word (inr all) e = elim (dec_lt (test + 1) (2 ^ 32)) [
    | yes lt ↦ inr (λ z le. all z (omega arith))
    | no over ↦ inl (omega arith)
  ]

  Stuck-taken :
      (test : ℕ)
      → test < 2 ^ 32
      → Stuck test
      → is_zone_in_range bs disk test ≡ true
      → is_zone_occupied bs disk test ≢ 0
  Stuck-taken test word (inl lt) e = absurd (ground (arith, below-out test lt))
  Stuck-taken test word (inr all) e = all test (omega arith) word e

  available-Stuck :
      (fuel test : ℕ)
      → 2 ≤ first
      → test < 2 ^ 32
      → Stuck test
      → available_zone_from bs fuel disk test ≡ none
  unfolding available_zone_from
  available-Stuck zero test two word stuck = refl
  available-Stuck (suc fuel) test two word stuck =
      elim (Bool-cases (is_zone_in_range bs disk test)) [
        | inl e ↦
            round_in fuel test e
            ∙ ground (
              arith,
              Stuck-taken test word stuck e,
              available-Stuck fuel ((test + 1) % 2 ^ 32) two (omega arith)
                  (Stuck-next test two word stuck e),
            )
        | inr e ↦
            round_out fuel test e (omega arith)
            ∙ available-Stuck fuel 1 two (omega arith) (inl (omega arith))
      ]

  -- When every zone in range from the counter on is taken, get_available_zone never returns, also when
  -- a zone in front of the counter is free, since it goes on from zone 0, which is no data zone.
  pub get_available_zone-Stuck :
      (fuel test : ℕ)
      → 2 ≤ first
      → 0 < test
      → test < 2 ^ 32
      → ((z : ℕ)
          → test ≤ z
          → z < 2 ^ 32
          → is_zone_in_range bs disk z ≡ true
          → is_zone_occupied bs disk z ≢ 0)
      → get_available_zone bs fuel disk test ≡ none
  unfolding get_available_zone
  get_available_zone-Stuck fuel test two positive word all =
      ground (arith, available-Stuck fuel test two word (inr all))
