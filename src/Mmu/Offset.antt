-- ===== src/Mmu/Offset.antt =====
-- Addresses of one page under `mmu_translate` of src/mmu.c.
use ducreu_os.Base.{
  ℕ, ◌+◌, ◌*◌, ◌/◌, ◌%◌, ◌^◌, ◌<◌, ◌≡◌, ◌≢◌, refl, ◌==◌, not, inl, inr, Bool-cases, if◌then◌else◌,
  bit_or, arith,
}
use ducreu_os.Base.Binary.{bit_or-low}
use ducreu_os.Mmu.{Tables, is_valid, is_leaf, lower, leaf_address, walk, mmu_translate, not_mapped}
use ducreu_os.Mmu.Entry.{address_fields}
use ducreu_os.Mmu.Descent.{index}

-- Two addresses under a leaf at level one: the fields are those of a page of 2 ^ 21 bytes.
middle_fields :
    (a b c : ℕ)
    → b < 512
    → c < 2 ^ 21
    → bit_or (bit_or (a * 2 ^ 30) (b * 2 ^ 21)) c ≡ a * 2 ^ 30 + b * 2 ^ 21 + c
middle_fields a b c hb hc =
    let e : bit_or (a * 2 ^ 30) (b * 2 ^ 21) ≡ (a * 512 + b) * 2 ^ 21 =
      omega (arith, bit_or-low a 30 (b * 2 ^ 21) (omega arith)) in
    rw e (omega (arith, bit_or-low (a * 512 + b) 21 c hc))

leaf_offset :
    (i e v j : ℕ) → v % 4096 + j < 4096 → leaf_address i e (v + j) ≡ leaf_address i e v + j
leaf_offset i e v j h =
    let p₀ = e / 2 ^ 10 % 512 in
    let p₁ = e / 2 ^ 19 % 512 in
    let p₂ = e / 2 ^ 28 % 2 ^ 26 in
    let top : (u : ℕ) → bit_or (p₂ * 2 ^ 30) (u % 2 ^ 30) ≡ p₂ * 2 ^ 30 + u % 2 ^ 30 =
      λ u. bit_or-low p₂ 30 (u % 2 ^ 30) (omega arith) in
    let mid = λ (u : ℕ). middle_fields p₂ p₁ (u % 2 ^ 21) (omega arith) (omega arith) in
    let low =
      λ (u : ℕ). address_fields p₂ p₁ p₀ (u % 2 ^ 12) (omega arith) (omega arith) (omega arith) in
    elim (Bool-cases (i == 2)) [
      | inl two ↦ rw two (omega (arith, top (v + j), top v))
      | inr not_two ↦ elim (Bool-cases (i == 1)) [
        | inl one ↦ rw (not_two, one) (omega (arith, mid (v + j), mid v))
        | inr not_one ↦ rw (not_two, not_one) (omega (arith, low (v + j), low v))
      ]
    ]

-- one level of a walk, from the entry and the walk below
abbrev level : ℕ → ℕ → ℕ → ℕ → ℕ
level i e v below =
    if not (is_valid e) then not_mapped else if is_leaf e then leaf_address i e v else below

level_offset :
    (i e v j below below' : ℕ)
    → v % 4096 + j < 4096
    → (below ≢ not_mapped → below' ≡ below + j)
    → level i e v below ≢ not_mapped
    → level i e (v + j) below' ≡ level i e v below + j
level_offset i e v j below below' h deeper = elim (Bool-cases (is_valid e)) [
  | inr invalid ↦ rw invalid (λ mapped. absurd (mapped refl))
  | inl valid ↦ elim (Bool-cases (is_leaf e)) [
    | inl leaf ↦ rw (valid, leaf) (λ mapped. leaf_offset i e v j h)
    | inr branch ↦ rw (valid, branch) deeper
  ]
]

walk_offset_0 :
    (s : Tables) (pt v j : ℕ)
    → v % 4096 + j < 4096
    → walk 0 s pt v ≢ not_mapped
    → walk 0 s pt (v + j) ≡ walk 0 s pt v + j
unfolding walk
walk_offset_0 s pt v j h =
    let same : index 0 (v + j) ≡ index 0 v = omega arith in
    rw same (
      level_offset 0 (s.entries pt (index 0 v)) v j not_mapped not_mapped h
        λ mapped. absurd (mapped refl))

walk_offset_1 :
    (s : Tables) (pt v j : ℕ)
    → v % 4096 + j < 4096
    → walk 1 s pt v ≢ not_mapped
    → walk 1 s pt (v + j) ≡ walk 1 s pt v + j
unfolding walk
walk_offset_1 s pt v j h =
    let same : index 1 (v + j) ≡ index 1 v = omega arith in
    rw same (
      level_offset 1 (s.entries pt (index 1 v)) v j _ _ h
        (walk_offset_0 s (lower (s.entries pt (index 1 v))) v j h))

walk_offset_2 :
    (s : Tables) (pt v j : ℕ)
    → v % 4096 + j < 4096
    → walk 2 s pt v ≢ not_mapped
    → walk 2 s pt (v + j) ≡ walk 2 s pt v + j
unfolding walk
walk_offset_2 s pt v j h =
    let same : index 2 (v + j) ≡ index 2 v = omega arith in
    rw same (
      level_offset 2 (s.entries pt (index 2 v)) v j _ _ h
        (walk_offset_1 s (lower (s.entries pt (index 2 v))) v j h))

-- Inside a page the translation of a mapped address goes up with the address, whatever the tables.
pub mmu_translate_offset :
    (s : Tables) (root v j : ℕ)
    → v % 4096 + j < 4096
    → mmu_translate s root v ≢ not_mapped
    → mmu_translate s root (v + j) ≡ mmu_translate s root v + j
unfolding mmu_translate
mmu_translate_offset s root v j h = walk_offset_2 s root v j h
