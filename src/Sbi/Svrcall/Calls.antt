-- ===== src/Sbi/Svrcall/Calls.antt =====
-- What the supervisor calls of sbi/src/svrcall.c leave alone.
use ducreu_os.Base.{ℕ, ◌%◌, ◌^◌, ◌<◌, ◌≡◌, ◌≢◌, refl, Option, some, arith}
use ducreu_os.Sbi.Clint.{at, max_supported_harts, clint_set_mtimecmp, clint_add_mtimecmp}
use ducreu_os.Sbi.Hart.{lock_to, start_held, stop_held}
use ducreu_os.Sbi.Hart.Cycle.{start_runs, stop_runs}
use ducreu_os.Sbi.Svrcall.{int_arg, with_clint, World, Call, perform, call_of, svrcall_handle}

-- The call returned with at most `a0` changed, and with the mutexes of the harts as they were.
abbrev pub Answered : (ℕ → ℕ) → World → Option ((ℕ → ℕ) × World) → Type 0
Answered regs w result =
    (regs' : ℕ → ℕ) × (w' : World) × (result ≡ some (regs', w'))
    × ((r : ℕ) → r ≢ 10 → regs' r ≡ regs r)
    × ((i : ℕ) → w'.harts.hart_lock i ≡ w.harts.hart_lock i)

int_arg_lem : (n : ℕ) → n % 2 ^ 32 < max_supported_harts → int_arg n ≡ some (n % 2 ^ 32)
int_arg_lem n small = ground arith

perform_lem :
    (hart time : ℕ) (c : Call) (regs : ℕ → ℕ) (w : World)
    → regs 10 % 2 ^ 32 < max_supported_harts
    → w.harts.hart_lock (regs 10 % 2 ^ 32) ≡ 1
    → Answered regs w (perform hart time c regs w)
unfolding perform
perform_lem hart time Call.putchar regs w small free = (_, _, refl, λ r ne. refl, λ i. refl)
perform_lem hart time Call.getchar regs w small free = (_, _, refl, λ r ne. ground arith, λ i. refl)
perform_lem hart time Call.poweroff regs w small free = (_, _, refl, λ r ne. refl, λ i. refl)
perform_lem hart time Call.hart_status regs w small free =
    (_, _, refl, λ r ne. ground arith, λ i. refl)
perform_lem hart time Call.start regs w small free =
    let (e, kept) = start_runs (regs 10 % 2 ^ 32) (regs 11) (regs 12) w.harts small free in
    let held =
      start_held (regs 10 % 2 ^ 32) (regs 11) (regs 12) (lock_to w.harts (regs 10 % 2 ^ 32) 0) in
    (at regs 10 held.0, record w { harts = held.1 }, rw e refl, λ r ne. ground arith, kept)
perform_lem hart time Call.stop regs w small free =
    let (e, kept) = stop_runs (regs 10 % 2 ^ 32) w.harts small free in
    let held = stop_held (regs 10 % 2 ^ 32) (lock_to w.harts (regs 10 % 2 ^ 32) 0) in
    (at regs 10 held.0, record w { harts = held.1 }, rw e refl, λ r ne. ground arith, kept)
perform_lem hart time Call.who_am_i regs w small free =
    (_, _, refl, λ r ne. ground arith, λ i. refl)
perform_lem hart time Call.get_time regs w small free =
    (_, _, refl, λ r ne. ground arith, λ i. refl)
perform_lem hart time Call.set_time regs w small free = (
  regs,
  with_clint w (clint_set_mtimecmp (regs 10 % 2 ^ 32) (regs 11) w.harts.clint),
  rw (int_arg_lem (regs 10) small) refl,
  λ r ne. refl,
  λ i. refl,
)
perform_lem hart time Call.add_time regs w small free = (
  regs,
  with_clint w (clint_add_mtimecmp time (regs 10 % 2 ^ 32) (regs 11) w.harts.clint),
  rw (int_arg_lem (regs 10) small) refl,
  λ r ne. refl,
  λ i. refl,
)
perform_lem hart time Call.acknowledge regs w small free = (_, _, refl, λ r ne. refl, λ i. refl)
perform_lem hart time Call.show_cmp regs w small free =
    (regs, w, rw (int_arg_lem (regs 10) small) refl, λ r ne. refl, λ i. refl)
perform_lem hart time Call.unknown regs w small free = (_, _, refl, λ r ne. refl, λ i. refl)

-- A supervisor call with the number of a hart of the tables in `a0`, whose mutex is free, returns,
-- changes no saved register but `a0`, and leaves the mutex of every hart as it was.
pub svrcall_handle_lem :
    (hart time : ℕ) (regs : ℕ → ℕ) (w : World)
    → regs 10 % 2 ^ 32 < max_supported_harts
    → w.harts.hart_lock (regs 10 % 2 ^ 32) ≡ 1
    → Answered regs w (svrcall_handle hart time regs w)
unfolding svrcall_handle
svrcall_handle_lem hart time regs w small free =
    perform_lem hart time (call_of (regs 17)) regs w small free
