-- ===== src/Minix3/Walker/Reading.antt =====
-- A walk of src/minix3.c that reads is a lookup in the tree of the file's zones.
use native.Mathlib.Decide.{dec_lt}
use ducreu_os.Base.{
  ℕ, zero, suc, ◌+◌, ◌*◌, ◌≤◌, ◌<◌, ◌≡◌, ◌≢◌, ap, ◌∙◌, Bool, true, false, leb, some, arith,
}
use ducreu_os.Base.Memory.{Mem}
use ducreu_os.Minix3.{word32}
use ducreu_os.Minix3.Walker.{
  Walk, Outcome, freeall, going, hung, continue, ppz, walk_direct, walk_blocks,
}
use ducreu_os.Minix3.Walker.Lookup.{
  answer, left, moved, past-moved, at, Gives, GivesAll, block_past, block_found, not_renewed,
}

-- a walk that has returned does not go on
pub answered :
    (w : Outcome) (next : Walk → Outcome) (x : ℕ × ℕ)
    → answer w ≡ some x
    → answer (continue w next) ≡ some x
answered (freeall s z) next x e = e
answered (going s) next x e = ground arith
answered hung next x e = ground arith

module _ (bs fuel index : ℕ) (file_zone : ℕ → ℕ) (size : ℕ) where
  abbrev pub to : Walk → ℕ → Mem → Walk
  to = moved bs fuel index file_zone size

  GivesAll-next :
      (disk buffer : Mem) (n k i : ℕ)
      → GivesAll bs fuel index file_zone size disk buffer (suc n) k i
      → GivesAll bs fuel index file_zone size disk buffer n (k + 1) (i + ppz bs)
  GivesAll-next disk buffer n k i all q lt o lt' = ground (arith, all (q + 1) (omega arith) o lt')

  GivesAll-first :
      (disk buffer : Mem) (n k i : ℕ)
      → GivesAll bs fuel index file_zone size disk buffer (suc n) k i
      → Gives bs fuel index file_zone size disk (word32 buffer (4 * k)) i
  GivesAll-first disk buffer n k i all o lt = ground (arith, all 0 (omega arith) o lt)

  pub blocks_past :
      (a n k : ℕ) (s : Walk) (i : ℕ) (b : Mem)
      → i + n * ppz bs ≤ index
      → GivesAll bs fuel index file_zone size s.disk s.buffer_ii n k i
      → (b' : Mem) × (walk_blocks bs fuel index false 0 a n k (to s i b)
          ≡ going (to s (i + n * ppz bs) b'))
  unfolding walk_blocks
  blocks_past a zero k s i b le all = (b, at bs fuel index file_zone size s b (omega arith))
  blocks_past a (suc n) k s i b le all =
      let here =
        block_past bs fuel index file_zone size (word32 s.buffer_ii (4 * k)) s i b (omega arith)
          (GivesAll-first s.disk s.buffer_ii n k i all) in
      let rest =
        blocks_past a n (k + 1) s (i + ppz bs) (here.0) (omega arith)
          (GivesAll-next s.disk s.buffer_ii n k i all) in
      (
        rest.0,
        rw (not_renewed bs fuel index file_zone size a k (to s i b)) (
            ap (λ w. continue w (walk_blocks bs fuel index false 0 a n (k + 1))) (here.1)
            ∙ rest.1
            ∙ at bs fuel index file_zone size s (rest.0) (omega arith)),
      )

  -- the zone wanted is behind the pointer `q`
  pub blocks_found :
      (a n k : ℕ) (s : Walk) (i : ℕ) (b : Mem) (q r : ℕ)
      → q < n
      → r < ppz bs
      → index ≡ i + (q * ppz bs + r)
      → word32 s.buffer_ii (4 * (k + q)) ≢ 0
      → GivesAll bs fuel index file_zone size s.disk s.buffer_ii n k i
      → answer (walk_blocks bs fuel index false 0 a n k (to s i b))
        ≡ some (file_zone index, left bs fuel index file_zone size index)
  unfolding walk_blocks
  blocks_found a zero k s i b q r lt lt' e ne all = absurd (omega arith)
  blocks_found a (suc n) k s i b zero r lt lt' e ne all =
      rw (not_renewed bs fuel index file_zone size a k (to s i b)) (
        answered _ _ _ (
          block_found bs fuel index file_zone size (word32 s.buffer_ii (4 * k)) s i b
            (λ z. ne (ground (arith, z))) (omega arith) (omega arith)
            (GivesAll-first s.disk s.buffer_ii n k i all)))
  blocks_found a (suc n) k s i b (suc q) r lt lt' e ne all =
      let here =
        block_past bs fuel index file_zone size (word32 s.buffer_ii (4 * k)) s i b (omega arith)
          (GivesAll-first s.disk s.buffer_ii n k i all) in
      rw (not_renewed bs fuel index file_zone size a k (to s i b)) (
        ap (λ w. answer (continue w (walk_blocks bs fuel index false 0 a n (k + 1)))) (here.1)
        ∙ blocks_found a n (k + 1) s (i + ppz bs) (here.0) q r (omega arith) lt' (omega arith)
            (λ z. ne (ground (arith, z))) (GivesAll-next s.disk s.buffer_ii n k i all))

  pub direct_past :
      (w : Bool) (v n : ℕ) (s : Walk) (i : ℕ) (b : Mem)
      → i + n ≤ index
      → ((o : ℕ) → o < n → s.zones (i + o) ≡ file_zone (i + o))
      → walk_direct bs fuel index w v n (to s i b) ≡ going (to s (i + n) b)
  unfolding walk_direct
  direct_past w v zero s i b le same = at bs fuel index file_zone size s b (omega arith)
  direct_past w v (suc n) s i b le same =
      let before : leb index i ≡ false = ground arith in
      let first : s.zones i ≡ file_zone i = ground (arith, same 0 (omega arith)) in
      rw before (
        ap (walk_direct bs fuel index w v n) (past-moved bs fuel index file_zone size s i b _ first)
        ∙ direct_past w v n s (i + 1) b (omega arith)
            (λ o lt. ground (arith, same (o + 1) (omega arith)))
        ∙ at bs fuel index file_zone size s b (omega arith))

  pub direct_found :
      (n : ℕ) (s : Walk) (i : ℕ) (b : Mem)
      → i ≤ index
      → index < i + n
      → ((o : ℕ) → o < n → s.zones (i + o) ≡ file_zone (i + o))
      → answer (walk_direct bs fuel index false 0 n (to s i b))
        ≡ some (file_zone index, left bs fuel index file_zone size index)
  unfolding walk_direct
  direct_found zero s i b le lt same = absurd (omega arith)
  direct_found (suc n) s i b le lt same =
      let first : s.zones i ≡ file_zone i = ground (arith, same 0 (omega arith)) in
      elim (dec_lt i index) [
        | yes more ↦
            let before : leb index i ≡ false = ground arith in
            rw before (
              ap (λ w. answer (walk_direct bs fuel index false 0 n w))
                (past-moved bs fuel index file_zone size s i b _ first)
              ∙ direct_found n s (i + 1) b (omega arith) (omega arith)
                  (λ o lt'. ground (arith, same (o + 1) (omega arith))))
        | no ge ↦
            let here : leb index i ≡ true = ground arith in
            let same_index : i ≡ index = omega arith in
            rw here (
              rw first
                (ap (λ x. some (file_zone x, left bs fuel index file_zone size x)) same_index))
      ]
