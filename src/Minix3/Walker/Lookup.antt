-- ===== src/Minix3/Walker/Lookup.antt =====
-- A walk of src/minix3.c that reads: the loops over pointers.
use native.Mathlib.Decide.{dec_lt}
use ducreu_os.Base.{
  ℕ, zero, suc, ◌+◌, ◌*◌, ◌≤◌, ◌<◌, ◌≡◌, ◌≢◌, refl, sym, ap, ◌∙◌, Bool, true, false, Bool-cases,
  inl, inr, ◌==◌, leb, if◌then◌else◌, Option, none, some, arith,
}
use ducreu_os.Base.Memory.{Mem}
use ducreu_os.Minix3.{word32}
use ducreu_os.Minix3.Walker.{
  Walk, Outcome, freeall, going, hung, ppz, less, baddr, block_of, past, walk_zones, walk_block,
  renew_ii,
}

-- the zone that a walk returns, and the size that it leaves
abbrev pub answer : Outcome → Option (ℕ × ℕ)
answer (freeall s z) = some (z, s.remaining_size)
answer (going s) = none
answer hung = none

module _ (bs : ℕ) where
  -- the pointer `r` in a zone of pointers
  abbrev pub entry : Mem → ℕ → ℕ → ℕ
  entry disk zone r = if zone == 0 then 0 else word32 (block_of bs disk zone) (4 * r)

  -- the size behind the zones in front of an index, where `file_zone` gives the zone at each index
  unfoldable pub size_left : (ℕ → ℕ) → ℕ → ℕ → ℕ
  size_left file_zone size zero = size
  size_left file_zone size (suc i) =
      let r = size_left file_zone size i in if file_zone i == 0 then r else less bs r

module _ (bs fuel index : ℕ) (file_zone : ℕ → ℕ) (size : ℕ) where
  abbrev pub left : ℕ → ℕ
  left = size_left bs file_zone size

  -- The walk stands at `i` with the size that is left there.
  abbrev pub moved : Walk → ℕ → Mem → Walk
  moved s i b = record s { i = i; remaining_size = left i; buffer_i = b }

  pub past-moved :
      (s : Walk) (i : ℕ) (b : Mem) (z : ℕ)
      → z ≡ file_zone i
      → past bs (moved s i b) z ≡ moved s (i + 1) b
  unfolding size_left
  past-moved s i b z e =
      ap (λ r. record s { i = i + 1; remaining_size = r; buffer_i = b })
        (let next : i + 1 ≡ suc i = omega arith in rw next (rw e refl))

  pub at : (s : Walk) {i i' : ℕ} (b : Mem) → i ≡ i' → going (moved s i b) ≡ going (moved s i' b)
  at s b e = ap (λ i. going (moved s i b)) e

  pub zones_past :
      (w : Bool) (v a n j : ℕ) (s : Walk) (i : ℕ) (b : Mem)
      → i + n ≤ index
      → ((o : ℕ) → o < n → word32 b (4 * (j + o)) ≡ file_zone (i + o))
      → walk_zones bs fuel index w v a n j (moved s i b) ≡ going (moved s (i + n) b)
  unfolding walk_zones
  zones_past w v a zero j s i b le same = at s b (omega arith)
  zones_past w v a (suc n) j s i b le same =
      let before : leb index i ≡ false = ground arith in
      let first : word32 b (4 * j) ≡ file_zone i = ground (arith, same 0 (omega arith)) in
      rw before (
        ap (walk_zones bs fuel index w v a n (j + 1)) (past-moved s i b _ first)
        ∙ zones_past w v a n (j + 1) s (i + 1) b (omega arith)
            (λ o lt. ground (arith, same (o + 1) (omega arith)))
        ∙ at s b (omega arith))

  zones_found :
      (a n j : ℕ) (s : Walk) (i : ℕ) (b : Mem)
      → i ≤ index
      → index < i + n
      → ((o : ℕ) → o < n → word32 b (4 * (j + o)) ≡ file_zone (i + o))
      → answer (walk_zones bs fuel index false 0 a n j (moved s i b))
        ≡ some (file_zone index, left index)
  unfolding walk_zones
  zones_found a zero j s i b le lt same = absurd (omega arith)
  zones_found a (suc n) j s i b le lt same =
      let first : word32 b (4 * j) ≡ file_zone i = ground (arith, same 0 (omega arith)) in
      elim (dec_lt i index) [
        | yes more ↦
            let before : leb index i ≡ false = ground arith in
            rw before (
              ap (λ w. answer (walk_zones bs fuel index false 0 a n (j + 1) w))
                (past-moved s i b _ first)
              ∙ zones_found a n (j + 1) s (i + 1) b (omega arith) (omega arith)
                  (λ o lt'. ground (arith, same (o + 1) (omega arith))))
        | no ge ↦
            let here : leb index i ≡ true = ground arith in
            let same_index : i ≡ index = omega arith in
            rw here (rw first (ap (λ x. some (file_zone x, left x)) same_index))
      ]

  pub left_skip : (n i : ℕ) → ((o : ℕ) → o < n → file_zone (i + o) ≡ 0) → left (i + n) ≡ left i
  unfolding size_left
  left_skip zero i none_there = ap left (omega arith)
  left_skip (suc n) i none_there =
      let next : i + suc n ≡ suc (i + n) = omega arith in
      let last : file_zone (i + n) ≡ 0 = none_there n (omega arith) in
      rw next (rw last (left_skip n i (λ o lt. none_there o (omega arith))))

  -- the zone of pointers gives the zones of the file from `i` on
  abbrev pub Gives : Mem → ℕ → ℕ → Type 0
  Gives disk z i = (o : ℕ) → o < ppz bs → entry bs disk z o ≡ file_zone (i + o)

  Gives-words :
      (disk : Mem) (z i : ℕ)
      → z ≢ 0
      → Gives disk z i
      → (o : ℕ) → o < ppz bs
      → word32 (block_of bs disk z) (4 * (0 + o)) ≡ file_zone (i + o)
  Gives-words disk z i ne gives o lt = ground (arith, gives o lt)

  pub block_past :
      (z : ℕ) (s : Walk) (i : ℕ) (b : Mem)
      → i + ppz bs ≤ index
      → Gives s.disk z i
      → (b' : Mem) × (walk_block bs fuel index false 0 z (moved s i b)
          ≡ going (moved s (i + ppz bs) b'))
  unfolding walk_block
  block_past z s i b le gives = elim (Bool-cases (z == 0)) [
    | inl e ↦ (
      b,
      rw e (
          ap (λ r. going (record s { i = i + ppz bs; remaining_size = r; buffer_i = b }))
            (sym (left_skip (ppz bs) i (λ o lt. ground (arith, gives o lt))))),
    )
    | inr e ↦ (
      block_of bs s.disk z,
      rw e (
          zones_past false 0 (baddr bs z) (ppz bs) 0 s i (block_of bs s.disk z) le
            (Gives-words s.disk z i (ground arith) gives)),
    )
  ]

  pub block_found :
      (z : ℕ) (s : Walk) (i : ℕ) (b : Mem)
      → z ≢ 0
      → i ≤ index
      → index < i + ppz bs
      → Gives s.disk z i
      → answer (walk_block bs fuel index false 0 z (moved s i b))
        ≡ some (file_zone index, left index)
  unfolding walk_block
  block_found z s i b ne le lt gives =
      let e : (z == 0) ≡ false = ground arith in
      rw e (
        zones_found (baddr bs z) (ppz bs) 0 s i (block_of bs s.disk z) le lt
          (Gives-words s.disk z i ne gives))

  pub not_renewed : (a k : ℕ) (s : Walk) → renew_ii bs fuel index false 0 a k s ≡ going s
  unfolding renew_ii
  not_renewed a k s = ground arith

  -- the zones of pointers in `buffer` from the pointer `k` on give the zones of the file from `i` on
  abbrev pub GivesAll : Mem → Mem → ℕ → ℕ → ℕ → Type 0
  GivesAll disk buffer n k i =
      (q : ℕ) → q < n → Gives disk (word32 buffer (4 * (k + q))) (i + q * ppz bs)
