-- ===== src/Minix3/Walker/Setting.antt =====
-- What a walk of src/minix3.c that sets a zone changes.
use native.Mathlib.Decide.{dec_lt}
use ducreu_os.Base.{
  ℕ, zero, suc, ◌+◌, ◌-◌, ◌*◌, ◌/◌, ◌%◌, ◌^◌, ◌≤◌, ◌<◌, ◌≡◌, refl, sym, ap, ◌∙◌, subst, true, false,
  Bool-cases, inl, inr, ◌==◌, leb, if◌then◌else◌, arith,
}
use ducreu_os.Base.Memory.{Mem, blit}
use ducreu_os.Minix3.{word32}
use ducreu_os.Minix3.Walker.{Walk, freeall, past, put_zone, store_word32, walk_direct, walk_zones}

store_word32-at :
    (b : Mem) (a v t x : ℕ) → t < 4 → x ≡ a + t → store_word32 b a v x ≡ v / 256 ^ t % 256
store_word32-at b a v t x lt e = let offset : x - a ≡ t = omega arith in rw offset (ground arith)

word32-own : (b : Mem) (a v : ℕ) → v < 2 ^ 32 → word32 (store_word32 b a v) a ≡ v
word32-own b a v lt =
    let byte_0 : store_word32 b a v a ≡ v % 256 =
      store_word32-at b a v 0 a (omega arith) (omega arith) ∙ omega arith in
    let byte_1 : store_word32 b a v (a + 1) ≡ v / 256 % 256 =
      store_word32-at b a v 1 (a + 1) (omega arith) (omega arith) in
    let byte_2 : store_word32 b a v (a + 2) ≡ v / 65536 % 256 =
      store_word32-at b a v 2 (a + 2) (omega arith) (omega arith) in
    let byte_3 : store_word32 b a v (a + 2 + 1) ≡ v / 16777216 % 256 =
      store_word32-at b a v 3 (a + 2 + 1) (omega arith) (omega arith) in
    rw byte_0 (rw byte_1 (rw byte_2 (rw byte_3 (omega arith))))

pub word32-store :
    (b : Mem) (j k v : ℕ)
    → v < 2 ^ 32
    → word32 (store_word32 b (4 * j) v) (4 * k) ≡ (if k == j then v else word32 b (4 * k))
word32-store b j k v lt = elim (Bool-cases (k == j)) [
  | inl e ↦
      let same : j ≡ k = ground arith in
      rw e (
        subst (λ x. word32 (store_word32 b (4 * x) v) (4 * k) ≡ v) (sym same)
          (word32-own b (4 * k) v lt))
  | inr e ↦ rw e (ground arith)
]

module _ (bs fuel index v : ℕ) where
  pub direct_set :
      (n : ℕ) (s : Walk)
      → s.i ≤ index
      → index < s.i + n
      → (s' : Walk) × (walk_direct bs fuel index true v n s ≡ freeall s' v)
        × (s'.disk ≡ s.disk)
        × (s'.zones ≡ put_zone s.zones index v)
  unfolding walk_direct
  direct_set zero s le lt = absurd (omega arith)
  direct_set (suc n) s le lt = elim (dec_lt s.i index) [
    | yes more ↦
        let before : leb index s.i ≡ false = ground arith in
        rw before (direct_set n (past bs s (s.zones s.i)) (omega arith) (omega arith))
    | no ge ↦
        let here : leb index s.i ≡ true = ground arith in
        let same : s.i ≡ index = omega arith in
        let own : put_zone s.zones s.i v s.i ≡ v = ground arith in
        let after : Walk = record s { zones = put_zone s.zones s.i v } in
        (after, rw here (ap (freeall after) own), refl, ap (λ i. put_zone s.zones i v) same)
  ]

  pub zones_set :
      (a n j : ℕ) (s : Walk)
      → v < 2 ^ 32
      → s.i ≤ index
      → index < s.i + n
      → (s' : Walk) × (walk_zones bs fuel index true v a n j s ≡ freeall s' v)
        × (s'.disk ≡ blit s.disk a (store_word32 s.buffer_i (4 * (j + (index - s.i))) v) 0 bs)
        × (s'.zones ≡ s.zones)
  unfolding walk_zones
  zones_set a zero j s word le lt = absurd (omega arith)
  zones_set a (suc n) j s word le lt = elim (dec_lt s.i index) [
    | yes more ↦
        let before : leb index s.i ≡ false = ground arith in
        let step : j + 1 + (index - (s.i + 1)) ≡ j + (index - s.i) = omega arith in
        let rest =
          zones_set a n (j + 1) (past bs s (word32 s.buffer_i (4 * j))) word (omega arith)
            (omega arith) in
        rw before (
          rest.0,
          rest.1,
          rest.2 ∙ ap (λ k. blit s.disk a (store_word32 s.buffer_i (4 * k) v) 0 bs) step,
          rest.3,
        )
    | no ge ↦
        let here : leb index s.i ≡ true = ground arith in
        let offset : j ≡ j + (index - s.i) = omega arith in
        let buffer = store_word32 s.buffer_i (4 * j) v in
        let after : Walk = record s { buffer_i = buffer; disk = blit s.disk a buffer 0 bs } in
        (
          after,
          rw here (ap (freeall after) (word32-own s.buffer_i (4 * j) v word)),
          ap (λ k. blit s.disk a (store_word32 s.buffer_i (4 * k) v) 0 bs) offset,
          refl,
        )
  ]
