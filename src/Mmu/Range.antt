-- ===== src/Mmu/Range.antt =====
-- `mmu_map_multiple` of src/mmu.c: the pages of a range, one after the other.
use ducreu_os.Base.{
  ℕ, zero, suc, ◌+◌, ◌*◌, ◌/◌, ◌%◌, ◌^◌, ◌≤◌, ◌<◌, ◌≡◌, ◌≢◌, refl, ◌∙◌, some, ltb, leb, true,
  if◌then◌else◌, length, arith, inl, inr, Bool-cases,
}
use ducreu_os.Mmu.{Tables, is_leaf, mmu_map, mmu_translate, map_pages}
use ducreu_os.Mmu.Tree.{IsTree}
use ducreu_os.Mmu.Frame.{same_page, mmu_map_lem}

-- What the loop leaves from offset `i` on: the range is mapped, and no other page is touched.
pub record WereMapped (s : Tables) (root v paddr i bytes : ℕ) (s' : Tables) (place' : ℕ → ℕ)
    : Type 0 where
  pub tree : IsTree s' root place'
  pub unlocked : s'.lock ≡ 1
  pub inside : (o : ℕ) → i ≤ o → o < bytes → mmu_translate s' root (v + o) ≡ paddr + o
  pub outside :
      (u : ℕ)
      → ((o : ℕ) → i ≤ o → o < bytes → u / 4096 % 2 ^ 27 ≢ (v + o) / 4096 % 2 ^ 27)
      → mmu_translate s' root u ≡ mmu_translate s root u

-- one round, and what the rounds behind it leave
round-WereMapped :
    (s s₁ s' : Tables) (root v paddr i bytes : ℕ) (place' : ℕ → ℕ)
    → v % 4096 ≡ 0
    → paddr % 4096 ≡ 0
    → i % 4096 ≡ 0
    → i < bytes
    → v + bytes ≤ 2 ^ 39
    → ((u : ℕ)
        → mmu_translate s₁ root u ≡ (
            if same_page u (v + i)
            then (paddr + i) / 4096 * 4096 + u % 4096
            else mmu_translate s root u))
    → WereMapped s₁ root v paddr (i + 4096) bytes s' place'
    → WereMapped s root v paddr i bytes s' place'
round-WereMapped s s₁ s' root v paddr i bytes place' va pa ia lt small one w = record {
  tree = w.tree;
  unlocked = w.unlocked;
  inside = λ o lo hi. elim (Bool-cases (leb (i + 4096) o)) [
    | inl later ↦ w.inside o (ground arith) hi
    | inr now ↦
        let near : o < i + 4096 = ground arith in
        w.outside (v + o) (λ o' lo' hi' page. absurd (omega arith)) ∙ ground (arith, one (v + o))
  ];
  outside = λ u apart.
      w.outside u (λ o lo hi. apart o (omega arith) hi)
      ∙ ground (arith, one u, apart i (omega arith) lt);
}

range_done :
    (s : Tables) (root v paddr i bytes : ℕ) (place : ℕ → ℕ)
    → IsTree s root place
    → s.lock ≡ 1
    → bytes ≤ i
    → WereMapped s root v paddr i bytes s place
range_done s root v paddr i bytes place t free done = record {
  tree = t;
  unlocked = free;
  inside = λ o lo hi. absurd (omega arith);
  outside = λ u apart. refl;
}

-- a round of the loop, when no sum wraps
map_pages_round :
    (n : ℕ) (s s₁ s' : Tables) (root v paddr i bytes bits : ℕ)
    → i < bytes
    → v + bytes ≤ 2 ^ 39
    → paddr + bytes ≤ 2 ^ 56
    → mmu_map s root (v + i) (paddr + i) bits ≡ some (0, s₁)
    → map_pages n (i + 4096) s₁ root v paddr bytes bits ≡ some s'
    → map_pages (suc n) i s root v paddr bytes bits ≡ some s'
unfolding map_pages
map_pages_round n s s₁ s' root v paddr i bytes bits lt small phys e₁ e' =
    let vi : (v + i) % 2 ^ 64 ≡ v + i = omega arith in
    let pi : (paddr + i) % 2 ^ 64 ≡ paddr + i = omega arith in
    let next : (i + 4096) % 2 ^ 64 ≡ i + 4096 = omega arith in
    let more : ltb i bytes ≡ true = ground arith in rw (more, vi, pi, e₁, next) e'

map_pages_lem :
    (n : ℕ) (s : Tables) (root v paddr i bytes bits : ℕ) (place : ℕ → ℕ)
    → IsTree s root place
    → s.lock ≡ 1
    → 2 * n ≤ length s.pool
    → bytes ≤ i + n * 4096
    → v % 4096 ≡ 0
    → paddr % 4096 ≡ 0
    → i % 4096 ≡ 0
    → v + bytes ≤ 2 ^ 39
    → paddr + bytes ≤ 2 ^ 56
    → bits < 1024
    → is_leaf bits ≡ true
    → (s' : Tables) × (place' : ℕ → ℕ) × (map_pages (suc n) i s root v paddr bytes bits ≡ some s')
      × WereMapped s root v paddr i bytes s' place'
unfolding map_pages
map_pages_lem zero s root v paddr i bytes bits place t free room enough va pa ia small phys hb
      leaf =
    (s, place, ground arith, range_done s root v paddr i bytes place t free (omega arith))
map_pages_lem (suc n) s root v paddr i bytes bits place t free room enough va pa ia small phys hb
      leaf =
    elim (Bool-cases (ltb i bytes)) [
      | inr done ↦
          (s, place, rw done refl, range_done s root v paddr i bytes place t free (ground arith))
      | inl more ↦
          let (s₁, place₁, e₁, t₁, free₁, left, one) =
            mmu_map_lem s root (v + i) (paddr + i) bits place t free (omega arith) (ground arith) hb
              leaf in
          let (s', place', e', w) =
            map_pages_lem n s₁ root v paddr (i + 4096) bytes bits place₁ t₁ free₁ (omega arith)
              (omega arith) va pa (omega arith) small phys hb leaf in
          (
            s',
            place',
            map_pages_round (suc n) s s₁ s' root v paddr i bytes bits (ground arith) small phys e₁
                e',
            round-WereMapped s s₁ s' root v paddr i bytes place' va pa ia (ground arith) small one
                w,
          )
    ]

-- When the virtual and the physical address are multiples of 4096, the range ends at most at 2 ^ 39
-- and at 2 ^ 56, the bits are those of a leaf and below 1024, and two pages are left for each page of
-- the range, `mmu_map_multiple` ends with every byte of the range at its place and translates every
-- other page as before. The tables stay a tree.
pub mmu_map_multiple_lem :
    (n : ℕ) (s : Tables) (root v paddr bytes bits : ℕ) (place : ℕ → ℕ)
    → IsTree s root place
    → s.lock ≡ 1
    → 2 * n ≤ length s.pool
    → bytes ≤ n * 4096
    → v % 4096 ≡ 0
    → paddr % 4096 ≡ 0
    → v + bytes ≤ 2 ^ 39
    → paddr + bytes ≤ 2 ^ 56
    → bits < 1024
    → is_leaf bits ≡ true
    → (s' : Tables) × (place' : ℕ → ℕ) × (map_pages (suc n) 0 s root v paddr bytes bits ≡ some s')
      × WereMapped s root v paddr 0 bytes s' place'
mmu_map_multiple_lem n s root v paddr bytes bits place t free room enough va pa small phys hb leaf =
    map_pages_lem n s root v paddr 0 bytes bits place t free room (omega arith) va pa refl small
      phys hb leaf
