-- ===== src/Sched/Skip.antt =====
-- The walk of the sleeping list in src/sched.c after it has woken a process.
use ducreu_os.Base.{
  ℕ, ◌<◌, ◌≤◌, ◌≡◌, ◌≢◌, some, suc, length, [], ◌∷◌, refl, sym, arith, true, false, ◌==◌, ltb,
}
use mathlib.Core.Path.{◌∙◌, subst, ap}
use ducreu_os.Base.Linked.{Node, Nodes, ◌>>=◌, load}
use ducreu_os.Base.Linked.Chain.{Cells, node, NotIn}
use ducreu_os.Process.Lists.{IsList, insert_cell}
use ducreu_os.Process.Unlink.{remove_cell}
use ducreu_os.Sched.{Sched, wake, walk_from, sched_walk_sleeping_list}
use ducreu_os.Sched.Wake.{Apart, wake_lem}

load-at : (h : Nodes ℕ) (n : ℕ) (c : Node ℕ) → n ≢ 0 → h n ≡ some c → load n h ≡ some (c, h)
unfolding load
load-at h n c ne at = ground (arith, at)

remove_cell-first : (p a : ℕ) (c : ℕ × ℕ) (xs : Cells ℕ) → remove_cell p ((a, p) ∷ c ∷ xs) ≡ c ∷ xs
remove_cell-first p a c xs = ground arith

module _ (vr sleep_until fresh : ℕ → ℕ) (time bound : ℕ) where
  -- The walk wakes the process it is at when that is due, and goes on behind the new head.
  walk-wakes :
      (k : ℕ) (h h' : Nodes ℕ) (s s' : Sched) (n : ℕ) (c d : Node ℕ)
      → n ≢ 0
      → h n ≡ some c
      → sleep_until c.item < time
      → wake vr bound (fresh k) s c.item h ≡ some (s', h')
      → s'.sleeping.head ≢ 0
      → h' s'.sleeping.head ≡ some d
      → walk_from vr sleep_until fresh time bound (suc k) s n h
        ≡ walk_from vr sleep_until fresh time bound k s' d.next h'
  unfolding walk_from
  walk-wakes k h h' s s' n c d ne at due run ne' at' =
      let n0 : (n == 0) ≡ false = ground arith in
      let lt : ltb (sleep_until c.item) time ≡ true = ground arith in
      let h0 : (s'.sleeping.head == 0) ≡ false = ground arith in
      rw (n0, load-at h n c ne at, ◌>>=◌, lt, run, h0, load-at h' s'.sleeping.head d ne' at') refl

  walk-end :
      (k : ℕ) (h : Nodes ℕ) (s : Sched)
      → walk_from vr sleep_until fresh time bound (suc k) s 0 h ≡ some (s, h)
  unfolding walk_from
  walk-end k h s = refl

module _ (vr sleep_until fresh : ℕ → ℕ) (time k : ℕ) where
  -- On well-formed lists without a common node and with a fresh node, of two sleeping processes of
  -- which the first is due, the walk wakes the first and ends; the second stays asleep, even if it
  -- is due too.
  pub sched_walk_sleeping_list-skips :
      (h : Nodes ℕ) (a p b q old n₀ p₀ : ℕ) (s : Sched) (ys : Cells ℕ)
      → p ≢ 0
      → q ≢ p
      → sleep_until p < time
      → fresh (suc (suc k)) ≢ 0
      → h (fresh (suc (suc k))) ≡ some (node old n₀ p₀)
      → IsList h s.sleeping ((a, p) ∷ (b, q) ∷ [])
      → IsList h s.waiting ys
      → Apart ((a, p) ∷ (b, q) ∷ []) ys
      → NotIn (fresh (suc (suc k))) ((a, p) ∷ (b, q) ∷ [])
      → NotIn (fresh (suc (suc k))) ys
      → length ys ≤ suc (suc (suc k))
      → (s' : Sched) × (h' : Nodes ℕ) × (sched_walk_sleeping_list vr sleep_until fresh time
            (suc (suc (suc k)))
            s
            h
          ≡ some (s', h'))
        × IsList h' s'.sleeping ((b, q) ∷ [])
        × IsList h' s'.waiting (insert_cell vr (fresh (suc (suc k))) p ys)
        × (s'.process_state q ≡ s.process_state q)
  unfolding sched_walk_sleeping_list
  sched_walk_sleeping_list-skips h a p b q old n₀ p₀ s ys pne qp due fne new sl wl apt fx fy le =
      let (s', h', run, is, iw, apart, marks) =
        wake_lem vr (suc (suc (suc k))) h (fresh (suc (suc k))) p old n₀ p₀ s ((a, p) ∷ (b, q) ∷ [])
          ys pne fne new sl wl apt fx fy (omega arith) le in
      let is' : IsList h' s'.sleeping ((b, q) ∷ []) =
        subst (IsList h' s'.sleeping) (remove_cell-first p a (b, q) []) is in
      let run' =
        walk-wakes vr sleep_until fresh time (suc (suc (suc k))) (suc (suc k)) h h' s s'
          s.sleeping.head (node p b 0) (node q 0 0) (λ e. sl.chain.0 (sym sl.start ∙ e))
          (ap h sl.start ∙ sl.chain.1) due run (λ e. is'.chain.0 (sym is'.start ∙ e))
          (ap h' is'.start ∙ is'.chain.1)
        ∙ walk-end vr sleep_until fresh time (suc (suc (suc k))) (suc k) h' s' in
      (s', h', run', is', iw, ap (λ f. f q) marks ∙ ground arith)
