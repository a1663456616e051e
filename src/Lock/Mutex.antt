-- ===== src/Lock/Mutex.antt =====
-- Mutual exclusion by the mutex of src/lock.c.
use ducreu_os.Base.{◌+◌, ◌≤◌, ◌≡◌, ◌↔◌, arith}
use ducreu_os.Lock.{
  outside, inside, System, MutexStep, acquired, refused, posted, Steps, stay, step, mutex_try,
  mutex_post, unlocked,
}
use ducreu_os.Lock.Count.{count, count-set}

step_invariant :
    (s s' : System)
    → MutexStep s s'
    → s.word + count inside s.harts ≡ 1
    → s'.word + count inside s'.harts ≡ 1
unfolding mutex_try mutex_post
step_invariant s s' (acquired _ i at ok) h =
    ground (arith, count-set inside s.harts i outside inside at)
step_invariant s s' (refused _ i at busy) h =
    ground (arith, count-set inside s.harts i outside outside at)
step_invariant s s' (posted _ i at) h = ground (arith, count-set inside s.harts i inside outside at)

Steps-invariant :
    (s s' : System)
    → Steps MutexStep s s'
    → s.word + count inside s.harts ≡ 1
    → s'.word + count inside s'.harts ≡ 1
Steps-invariant s s' (stay _) h = h
Steps-invariant s s' (step _ s₁ _ before last) h =
    step_invariant s₁ s' last (Steps-invariant s s₁ before h)

-- After any steps of harts that share a mutex, which was unlocked and held by none of them, at most
-- one of them holds it, and `mutex_try` succeeds exactly when none does.
pub mutex-exclusive :
    (s s' : System)
    → Steps MutexStep s s'
    → s.word ≡ unlocked
    → count inside s.harts ≡ 0
    → (count inside s'.harts ≤ 1) × (((mutex_try s'.word).0 ≡ 1) ↔ (count inside s'.harts ≡ 0))
unfolding mutex_try
mutex-exclusive s s' steps free none_inside =
    ground (arith, Steps-invariant s s' steps (omega arith))
