-- ===== src/Lock.antt =====
-- The mutex and the semaphore of src/lock.c on a 32-bit word, and the steps of the harts that share
-- one. Each `amoswap` and `amoadd` is one step, so a `sem_try` that fails is two: the word is taken
-- down, and put back later.
pub mod Count
pub mod Mutex
pub mod Semaphore
mod Tests
use ducreu_os.Base.{
  ℕ, ◌+◌, ◌-◌, ◌%◌, ◌^◌, ◌≡◌, List, Option, some, ◌==◌, leb, ◌||◌, true, false, Bool, if◌then◌else◌,
  get_elem?, set,
}

-- `MUTEX_LOCKED` and `MUTEX_UNLOCKED`
abbrev pub locked : ℕ
locked = 0

abbrev pub unlocked : ℕ
unlocked = 1

-- the answer, and the word
unfoldable pub mutex_try : ℕ → ℕ × ℕ
mutex_try word = (if word == locked then 0 else 1, locked)

unfoldable pub mutex_post : ℕ → ℕ
mutex_post word = unlocked

-- `previous <= 0` of a signed word
abbrev pub not_positive : ℕ → Bool
not_positive word = word == 0 || leb (2 ^ 31) word

-- the first `amoadd` of `sem_try`: whether a unit was there, and the word
pub sem_take : ℕ → Bool × ℕ
sem_take word = (if not_positive word then false else true, (word + 2 ^ 32 - 1) % 2 ^ 32)

pub sem_post : ℕ → ℕ
sem_post word = (word + 1) % 2 ^ 32

-- `sem_try` with no other hart in between
pub sem_try : ℕ → ℕ × ℕ
unfolding sem_take sem_post
sem_try word =
    let (taken, word') = sem_take word in if taken then (1, word') else (0, sem_post word')

-- A hart does not hold the lock, or it does, or it has yet to put back what it took in vain.
pub data Phase : Type 0 where
  outside inside backing_off : Phase

pub record System : Type 0 where
  pub word : ℕ
  pub harts : List Phase

abbrev goes_to : System → ℕ → ℕ → Phase → System
goes_to s i word p = record { word = word; harts = set s.harts i p }

pub data MutexStep : System → System → Type 0 where
  acquired :
      (s : System) (i : ℕ)
      → get_elem? s.harts i ≡ some outside
      → (mutex_try s.word).0 ≡ 1
      → MutexStep s (goes_to s i (mutex_try s.word).1 inside)
  refused :
      (s : System) (i : ℕ)
      → get_elem? s.harts i ≡ some outside
      → (mutex_try s.word).0 ≡ 0
      → MutexStep s (goes_to s i (mutex_try s.word).1 outside)
  posted :
      (s : System) (i : ℕ)
      → get_elem? s.harts i ≡ some inside
      → MutexStep s (goes_to s i (mutex_post s.word) outside)

pub data SemStep : System → System → Type 0 where
  taken :
      (s : System) (i : ℕ)
      → get_elem? s.harts i ≡ some outside
      → (sem_take s.word).0 ≡ true
      → SemStep s (goes_to s i (sem_take s.word).1 inside)
  missed :
      (s : System) (i : ℕ)
      → get_elem? s.harts i ≡ some outside
      → (sem_take s.word).0 ≡ false
      → SemStep s (goes_to s i (sem_take s.word).1 backing_off)
  put_back :
      (s : System) (i : ℕ)
      → get_elem? s.harts i ≡ some backing_off
      → SemStep s (goes_to s i (sem_post s.word) outside)
  given :
      (s : System) (i : ℕ)
      → get_elem? s.harts i ≡ some inside
      → SemStep s (goes_to s i (sem_post s.word) outside)

-- any number of steps of a relation
pub data Steps (Step : System → System → Type 0) : System → System → Type 0 where
  stay : (s : System) → Steps Step s s
  step : (s s' s'' : System) → Steps Step s s' → Step s' s'' → Steps Step s s''
