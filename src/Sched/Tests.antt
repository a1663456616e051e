-- ===== src/Sched/Tests.antt =====
-- The scheduler's walk of src/sched.c at processes 5 and 9, which sleep in nodes 100 and 200 until
-- 50 and 90, and process 3, which may run, in node 400; nodes from 300 on are fresh.
use ducreu_os.Base.{ℕ, ◌+◌, ◌*◌, ◌≡◌, refl, [], ◌∷◌, some, none, arith}
use ducreu_os.Base.Linked.{Nodes, put}
use ducreu_os.Base.Linked.Chain.{Cells, node}
use ducreu_os.Process.Lists.{IsList}
use ducreu_os.Sched.{Sched, ProcessState, set_running, wake, sched_walk_sleeping_list}
use ducreu_os.Sched.Wake.{Apart, wake_lem}
use ducreu_os.Sched.Skip.{sched_walk_sleeping_list-skips}

abbrev vr : ℕ → ℕ
vr p = 10 * p

abbrev fresh : ℕ → ℕ
fresh k = 298 + k

abbrev heap : Nodes ℕ
heap =
    put
      (put (put (put (λ _. none) 100 (some (node 5 200 0))) 200 (some (node 9 0 100))) 300
        (some (node 0 1 1)))
      400 (some (node 3 0 0))

abbrev sched : Sched
sched = record {
  process_state = λ _. ProcessState.ps_sleeping;
  sleeping = record { head = 100; mutex = 1 };
  waiting = record { head = 400; mutex = 1 };
}

abbrev sleepers : Cells ℕ
sleepers = (100, 5) ∷ (200, 9) ∷ []

abbrev others : Cells ℕ
others = (400, 3) ∷ []

sleepers-IsList : IsList heap sched.sleeping sleepers
sleepers-IsList = record {
  unlocked = refl;
  start = refl;
  chain = (omega arith, refl, (omega arith, refl, tt));
  distinct = ((omega arith, tt), (tt, tt));
}

others-IsList : IsList heap sched.waiting others
others-IsList = record {
  unlocked = refl;
  start = refl;
  chain = (omega arith, refl, tt);
  distinct = (tt, tt);
}

apart : Apart sleepers others
apart = ((omega arith, tt), ((omega arith, tt), tt))

wake_lem_example :
    (s' : Sched) × (h' : Nodes ℕ) × (wake vr 3 300 sched 9 heap ≡ some (s', h'))
    × IsList h' s'.sleeping ((100, 5) ∷ [])
    × IsList h' s'.waiting ((400, 3) ∷ (300, 9) ∷ [])
    × Apart ((100, 5) ∷ []) ((400, 3) ∷ (300, 9) ∷ [])
    × (s'.process_state ≡ set_running 9 sched.process_state)
wake_lem_example =
    wake_lem vr 3 heap 300 9 0 1 1 sched sleepers others (omega arith) (omega arith) refl
      sleepers-IsList others-IsList apart (omega arith, (omega arith, tt)) (omega arith, tt)
      (omega arith) (omega arith)

-- Both processes are due at 100; process 9 stays asleep.
sched_walk_sleeping_list-skips_example :
    (s' : Sched) × (h' : Nodes ℕ) × (sched_walk_sleeping_list vr vr fresh 100 3 sched heap
      ≡ some (s', h'))
    × IsList h' s'.sleeping ((200, 9) ∷ [])
    × IsList h' s'.waiting ((400, 3) ∷ (300, 5) ∷ [])
    × (s'.process_state 9 ≡ ProcessState.ps_sleeping)
sched_walk_sleeping_list-skips_example =
    sched_walk_sleeping_list-skips vr vr fresh 100 0 heap 100 5 200 9 0 1 1 sched others
      (omega arith) (omega arith) (omega arith) (omega arith) refl sleepers-IsList others-IsList
      apart (omega arith, (omega arith, tt)) (omega arith, tt) (omega arith)
