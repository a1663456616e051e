-- ===== src/Lock/Tests.antt =====
-- Runs of src/lock.c, and the conditions of its theorems there.
use ducreu_os.Base.{◌-◌, ◌^◌, ◌≤◌, ◌≡◌, ◌↔◌, refl, List, [], ◌∷◌, arith}
use ducreu_os.Lock.{
  Phase, outside, inside, System, MutexStep, acquired, refused, SemStep, taken, missed, put_back,
  Steps, stay, step, mutex_try, sem_take, sem_post, sem_try,
}
use ducreu_os.Lock.Count.{count}
use ducreu_os.Lock.Mutex.{mutex-exclusive}
use ducreu_os.Lock.Semaphore.{semaphore-bound}

abbrev two_harts : List Phase
two_harts = outside ∷ outside ∷ []

abbrev start : System
start = record { word = 1; harts = two_harts }

abbrev one_inside : System
one_inside = record { word = 0; harts = outside ∷ inside ∷ [] }

contended : Steps MutexStep start one_inside
unfolding mutex_try
contended =
    step start one_inside one_inside
      (step start start one_inside (stay start) (acquired start 1 refl refl))
      (refused one_inside 0 refl refl)

mutex-exclusive_example :
    (count inside one_inside.harts ≤ 1)
    × (((mutex_try one_inside.word).0 ≡ 1) ↔ (count inside one_inside.harts ≡ 0))
mutex-exclusive_example = mutex-exclusive start one_inside contended refl refl

abbrev one_behind : System
one_behind = record { word = 2 ^ 32 - 1; harts = Phase.backing_off ∷ inside ∷ [] }

missed_one : Steps SemStep start one_inside
unfolding sem_take sem_post
missed_one =
    step start one_behind one_inside
      (step start one_inside one_behind
        (step start start one_inside (stay start) (taken start 1 refl refl))
        (missed one_inside 0 refl refl))
      (put_back one_behind 0 refl)

semaphore-bound_example : count inside one_inside.harts ≤ 1
semaphore-bound_example =
    semaphore-bound 1 start one_inside (omega arith) (omega arith) missed_one refl refl refl

sem_try_empty : sem_try 0 ≡ (0, 0)
unfolding sem_try
sem_try_empty = refl
