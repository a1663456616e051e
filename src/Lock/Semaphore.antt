-- ===== src/Lock/Semaphore.antt =====
-- The bound that the semaphore of src/lock.c keeps.
use ducreu_os.Base.{ℕ, ◌+◌, ◌-◌, ◌%◌, ◌^◌, ◌≤◌, ◌<◌, ◌≡◌, ◌↔◌, true, length, length-set, arith}
use ducreu_os.Lock.{
  outside, inside, backing_off, System, SemStep, taken, missed, put_back, given, Steps, stay, step,
  sem_take, sem_post,
}
use ducreu_os.Lock.Count.{count, count-set, count-length}

-- The word counts down from `n` with every hart that took a unit or has yet to put one back.
record Counts (n : ℕ) (s : System) : Type 0 where
  few : length s.harts < 2 ^ 31
  word_lem : s.word ≡ (n + 2 ^ 32 - (count inside s.harts + count backing_off s.harts)) % 2 ^ 32
  bound : count inside s.harts ≤ n

step_invariant : (n : ℕ) (s s' : System) → n < 2 ^ 31 → SemStep s s' → Counts n s → Counts n s'
unfolding sem_take sem_post
step_invariant n s s' small (taken _ i at ok) c = ground (
  arith,
  length-set s.harts i inside,
  count-length s.harts,
  count-set inside s.harts i outside inside at,
  count-set backing_off s.harts i outside inside at,
)
step_invariant n s s' small (missed _ i at busy) c = ground (
  arith,
  length-set s.harts i backing_off,
  count-length s.harts,
  count-set inside s.harts i outside backing_off at,
  count-set backing_off s.harts i outside backing_off at,
)
step_invariant n s s' small (put_back _ i at) c = ground (
  arith,
  length-set s.harts i outside,
  count-length s.harts,
  count-set inside s.harts i backing_off outside at,
  count-set backing_off s.harts i backing_off outside at,
)
step_invariant n s s' small (given _ i at) c = ground (
  arith,
  length-set s.harts i outside,
  count-length s.harts,
  count-set inside s.harts i inside outside at,
  count-set backing_off s.harts i inside outside at,
)

Steps-invariant :
    (n : ℕ) (s s' : System) → n < 2 ^ 31 → Steps SemStep s s' → Counts n s → Counts n s'
Steps-invariant n s s' small (stay _) c = c
Steps-invariant n s s' small (step _ s₁ _ before last) c =
    step_invariant n s₁ s' small last (Steps-invariant n s s₁ small before c)

module _ (n : ℕ) (s s' : System) (small : n < 2 ^ 31) (few : length s.harts < 2 ^ 31)
    (steps : Steps SemStep s s') (start : s.word ≡ n) (nobody : count inside s.harts ≡ 0)
    (nothing : count backing_off s.harts ≡ 0) where
  Counts-after : Counts n s'
  Counts-after =
      Steps-invariant n s s' small steps
        (record { few = few; word_lem = omega arith; bound = omega arith })

  -- After any steps of fewer than 2 ^ 31 harts that share a semaphore of `n` units, `n` below
  -- 2 ^ 31, which none of them held at the start, at most `n` of them hold one.
  pub semaphore-bound : count inside s'.harts ≤ n
  semaphore-bound = Counts-after.bound

  -- If then no hart is between the two steps of a `sem_try` that fails, the next one finds a unit
  -- exactly when fewer than `n` are held.
  pub semaphore-free :
      count backing_off s'.harts ≡ 0 → ((sem_take s'.word).0 ≡ true) ↔ (count inside s'.harts < n)
  unfolding sem_take
  semaphore-free settled = ground (arith, Counts-after.word_lem, Counts-after.bound)
