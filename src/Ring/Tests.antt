-- ===== src/Ring/Tests.antt =====
-- Runs of src/ring.c at small rings, and the theorems at those rings.
use ducreu_os.Base.{ℕ, ◌≡◌, refl, [], ◌∷◌, List, arith}
use ducreu_os.Ring.{InputEvent, no_event, EventRing, push, pop, rb_overwrite, rb_ask_for_manager}
use ducreu_os.Ring.Queue.{Op, put, get, code, event, run_queue, run_ring}
use ducreu_os.Ring.Refine.{IsValid, run_refines}

abbrev ev : ℕ → InputEvent
ev n = record { type = 1; code = n; value = 0 }

-- 8, then 9, then 10, round the end of the storage
abbrev full_ring : EventRing
full_ring = record {
  start = 2;
  occupied = 3;
  capacity = 3;
  behavior = rb_overwrite;
  elements = ev 9 ∷ ev 10 ∷ ev 8 ∷ [];
  mutex = 1;
}

full_ring-IsValid : IsValid full_ring
full_ring-IsValid = omega arith

abbrev script : List Op
script = put (ev 11) ∷ get ∷ get ∷ get ∷ get ∷ []

run_full :
    run_ring full_ring script
    ≡ code 0 ∷ event (ev 9) ∷ event (ev 10) ∷ event (ev 11) ∷ event no_event ∷ []
unfolding run_ring push pop
run_full = refl

manager_clears :
    run_ring (record full_ring { behavior = rb_ask_for_manager }) (put (ev 1) ∷ get ∷ [])
    ≡ code 1 ∷ event no_event ∷ []
unfolding run_ring push pop
manager_clears = refl

run_refines_example : run_ring full_ring script ≡ run_queue 0 3 (ev 8 ∷ ev 9 ∷ ev 10 ∷ []) script
run_refines_example = run_refines script full_ring full_ring-IsValid
