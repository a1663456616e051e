-- ===== src/Mmu/Descent.antt =====
-- The step of `mmu_set` (src/mmu.c) from a table to the one below it.
use ducreu_os.Base.{
  ℕ, zero, suc, ◌+◌, ◌*◌, ◌/◌, ◌%◌, ◌^◌, ◌≤◌, ◌<◌, ◌≡◌, ◌≢◌, refl, sym, ap, subst, ◌∙◌, List-cases,
  List, ◌∷◌, ◌==◌, true, false, length, ◌&&◌, bit_or, arith, inl, inr, Bool-cases,
}
use ducreu_os.Mmu.{
  Tables, is_valid, is_leaf, lower, set_entry, page_zalloc, descend, walk, not_mapped,
}
use ducreu_os.Mmu.Entry.{branch_lem}
use ducreu_os.Mmu.Tree.{mark, Fresh, IsTree, IsTree-child, grown, IsTree-grown}

abbrev pub index : ℕ → ℕ → ℕ
index k v = v / 2 ^ (12 + 9 * k) % 512

-- A walk through a valid branch goes on below, and ends at an invalid entry.
pub walk_branch :
    (s : Tables) (k a v : ℕ)
    → is_valid (s.entries a (index (suc k) v)) ≡ true
    → is_leaf (s.entries a (index (suc k) v)) ≡ false
    → walk (suc k) s a v ≡ walk k s (lower (s.entries a (index (suc k) v))) v
unfolding walk
walk_branch s k a v h l = rw (h, l) refl

pub walk_invalid :
    (s : Tables) (k a v : ℕ)
    → is_valid (s.entries a (index k v)) ≡ false
    → walk k s a v ≡ not_mapped
unfolding walk
walk_invalid s zero a v h = rw h refl
walk_invalid s (suc k) a v h = rw h refl

-- Two walks through the same entry agree as the walks below it do.
pub walk_same :
    (s s' : Tables) (k a v : ℕ)
    → s'.entries a (index (suc k) v) ≡ s.entries a (index (suc k) v)
    → (is_valid (s.entries a (index (suc k) v)) ≡ true
        → walk k s' (lower (s.entries a (index (suc k) v))) v
          ≡ walk k s (lower (s.entries a (index (suc k) v))) v)
    → walk (suc k) s' a v ≡ walk (suc k) s a v
unfolding walk
walk_same s s' k a v e below = elim (Bool-cases (is_valid (s.entries a (index (suc k) v)))) [
  | inl h ↦ rw (e, h, below h) refl
  | inr h ↦ rw (e, h) refl
]

-- A new table under an invalid entry maps nothing, and takes nothing away.
module _ (s : Tables) (root p : ℕ) (pool : List ℕ) (pt i : ℕ) (place : ℕ → ℕ)
    (t : IsTree s root place) (f : Fresh place (p ∷ pool)) (hi : i < 512) (lo : 1 ≤ place pt)
    (up : place pt < 1024) (free : is_valid (s.entries pt i) ≡ false) (v : ℕ) where
  walk_new : (k : ℕ) → walk k (grown s p pool pt i) p v ≡ not_mapped
  unfolding walk
  walk_new zero = ground (arith, f.0)
  walk_new (suc k) = ground (arith, f.0)

  walk_low : (a : ℕ) → 1024 ≤ place a → walk 0 (grown s p pool pt i) a v ≡ walk 0 s a v
  unfolding walk
  walk_low a h = ground (arith, f.0)

  -- One level of the walk, from a table in the upper levels on.
  walk_above :
      (k a : ℕ)
      → 1 ≤ place a
      → place a < 1024
      → (is_valid (s.entries a (index (suc k) v)) ≡ true
          → walk k (grown s p pool pt i) (lower (s.entries a (index (suc k) v))) v
            ≡ walk k s (lower (s.entries a (index (suc k) v))) v)
      → walk (suc k) (grown s p pool pt i) a v ≡ walk (suc k) s a v
  walk_above k a l u below = elim (Bool-cases (a == pt && index (suc k) v == i)) [
    | inl here ↦
        walk_branch (grown s p pool pt i) k a v (ground (arith, branch_lem p f.1 f.2))
          (ground (arith, branch_lem p f.1 f.2))
        ∙ ap (λ b. walk k (grown s p pool pt i) b v) (ground (arith, branch_lem p f.1 f.2))
        ∙ walk_new k
        ∙ sym (walk_invalid s (suc k) a v (ground arith))
    | inr elsewhere ↦ walk_same s (grown s p pool pt i) k a v (ground (arith, f.0)) below
  ]

  walk-grown : walk 2 (grown s p pool pt i) root v ≡ walk 2 s root v
  walk-grown = walk_above 1 root (omega (arith, t.top)) (omega (arith, t.top)) λ h.
      let mid = IsTree-child t root (index 2 v) (omega arith) (omega (arith, t.top)) h in
      walk_above 0 _ (omega (arith, t.top, mid)) (omega (arith, t.top, mid)) λ h'. walk_low _ (
        omega (
          arith,
          t.top,
          mid,
          IsTree-child t _ (index 1 v) (omega arith) (omega (arith, t.top, mid)) h',
        ))

-- What the step to the table under index `i` of `pt` leaves, and the tables that it reaches.
pub record Descended (s : Tables) (root : ℕ) (place : ℕ → ℕ) (pt i : ℕ) (r : Tables × ℕ)
    (place' : ℕ → ℕ) : Type 0 where
  pub tree : IsTree r.0 root place'
  pub valid : is_valid (r.0.entries pt i) ≡ true
  pub branch : is_leaf (r.0.entries pt i) ≡ false
  pub leads : lower (r.0.entries pt i) ≡ r.1
  pub same : (v : ℕ) → walk 2 r.0 root v ≡ walk 2 s root v
  pub keeps :
      (a j : ℕ) → place a ≢ 0 → is_valid (s.entries a j) ≡ true → r.0.entries a j ≡ s.entries a j
  pub marked : (a : ℕ) → place a ≢ 0 → place' a ≡ place a
  pub left : length s.pool ≤ length r.0.pool + 1
  pub lock_kept : r.0.lock ≡ s.lock

descend_old :
    (s : Tables) (root : ℕ) (place : ℕ → ℕ) (pt i : ℕ) (t : IsTree s root place)
    → i < 512
    → 1 ≤ place pt
    → place pt < 1024
    → is_valid (s.entries pt i) ≡ true
    → Descended s root place pt i (s, lower (s.entries pt i)) place
descend_old s root place pt i t hi lo up h = record {
  tree = t;
  valid = h;
  branch = (t.branches pt i hi lo up h).0;
  leads = refl;
  same = λ v. refl;
  keeps = λ a j _ _. refl;
  marked = λ a _. refl;
  left = omega arith;
  lock_kept = refl;
}

descend_new :
    (s : Tables) (root p : ℕ) (pool : List ℕ) (place : ℕ → ℕ) (pt i : ℕ)
    → IsTree s root place
    → s.pool ≡ p ∷ pool
    → Fresh place (p ∷ pool)
    → i < 512
    → 1 ≤ place pt
    → place pt < 1024
    → is_valid (s.entries pt i) ≡ false
    → Descended s root place pt i
        (grown s p pool pt i, lower (bit_or (p / 4) 1))
        (mark place p (place pt * 512 + i))
descend_new s root p pool place pt i t e f hi lo up free = record {
  tree = IsTree-grown s root p pool pt i place t f hi lo up;
  valid = ground (arith, branch_lem p f.1 f.2);
  branch = ground (arith, branch_lem p f.1 f.2);
  leads = ground (arith, branch_lem p f.1 f.2);
  same = λ v. walk-grown s root p pool pt i place t f hi lo up free v;
  keeps = λ a j n h. ground (arith, f.0);
  marked = λ a n. ground (arith, f.0);
  left = rw e (omega arith);
  lock_kept = refl;
}

descend_eq :
    (s : Tables) (pt i p : ℕ) (pool : List ℕ)
    → s.pool ≡ p ∷ pool
    → is_valid (s.entries pt i) ≡ false
    → descend s pt i ≡ (grown s p pool pt i, lower (bit_or (p / 4) 1))
unfolding descend page_zalloc
descend_eq s pt i p pool e h = rw h (
    ap (λ (z : ℕ × Tables). (set_entry z.1 pt i (bit_or (z.0 / 4) 1), lower (bit_or (z.0 / 4) 1)))
      (ap (λ ps. page_zalloc ps s) e))

pub descend_lem :
    (s : Tables) (root : ℕ) (place : ℕ → ℕ) (pt i : ℕ)
    → IsTree s root place
    → i < 512
    → (1 ≤ place pt) × (place pt < 1024)
    → 1 ≤ length s.pool
    → (place' : ℕ → ℕ) × Descended s root place pt i (descend s pt i) place'
unfolding descend page_zalloc
descend_lem s root place pt i t hi b room = elim (Bool-cases (is_valid (s.entries pt i))) [
  | inl h ↦ (place, rw h (descend_old s root place pt i t hi b.0 b.1 h))
  | inr h ↦ elim (List-cases s.pool) [
    | inl e ↦ absurd (omega (arith, ap length e, room))
    | inr (p, pool, e) ↦ (
      mark place p (place pt * 512 + i),
      subst (λ r. Descended s root place pt i r (mark place p (place pt * 512 + i)))
          (sym (descend_eq s pt i p pool e h))
          (descend_new s root p pool place pt i t e (subst (λ ps. Fresh place ps) e t.fresh) hi b.0
            b.1 h),
    )
  ]
]
