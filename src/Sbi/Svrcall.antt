-- ===== src/Sbi/Svrcall.antt =====
-- The supervisor calls of the kernel, sbi/src/svrcall.c, on the registers that the trap saved at
-- `mscratch`. `none` is an access outside a table of the harts, or a wait that does not end.
pub mod Calls
mod Tests
use ducreu_os.Base.{
  ℕ, ◌+◌, ◌-◌, ◌*◌, ◌/◌, ◌%◌, ◌^◌, List, [], ◌∷◌, ◌++◌, Option, none, some, Bool, true, false,
  ◌>>=◌, ◌==◌, leb, if◌then◌else◌,
}
use ducreu_os.Sbi.Uart.{UartBuffer, pop}
use ducreu_os.Sbi.Clint.{Clint, at, clint_set_mtimecmp, clint_add_mtimecmp}
use ducreu_os.Sbi.Hart.{Harts, status_code, get_hart_status, hart_start, hart_stop}

-- `sent` holds the characters that went out over the UART, `mip` the calling hart's register.
pub record World : Type 0 where
  pub harts : Harts
  pub uart : UartBuffer
  pub sent : List ℕ
  pub powered_off : Bool
  pub mip : ℕ

-- the calls, in the order of the `switch`
pub data Call : Type 0 where
  putchar getchar poweroff hart_status start stop who_am_i get_time set_time add_time acknowledge :
      Call
  show_cmp unknown : Call

abbrev xreg_a0 : ℕ
xreg_a0 = 10

abbrev xreg_a7 : ℕ
xreg_a7 = 17

pub call_of : ℕ → Call
call_of n =
    if n == 10
    then putchar
    else if n == 11
    then getchar
    else if n == 215
    then poweroff
    else if n == 1
    then hart_status
    else if n == 2
    then start
    else if n == 3
    then stop
    else if n == 4
    then who_am_i
    else if n == 15
    then get_time
    else if n == 16
    then set_time
    else if n == 17
    then add_time
    else if n == 18
    then acknowledge
    else if n == 19
    then show_cmp
    else unknown

abbrev pub with_clint : World → Clint → World
with_clint w c = record w { harts = record w.harts { clint = c } }

-- an `int` that is not negative
abbrev pub int_arg : ℕ → Option ℕ
int_arg n = if leb (2 ^ 31) (n % 2 ^ 32) then none else some (n % 2 ^ 32)

-- `time` is what `clint_get_time` reads
pub perform : ℕ → ℕ → Call → (ℕ → ℕ) → World → Option ((ℕ → ℕ) × World)
perform hart time putchar regs w = some (regs, record w { sent = w.sent ++ (regs 10 % 256 ∷ []) })
perform hart time getchar regs w =
    some (at regs 10 (pop w.uart).0, record w { uart = (pop w.uart).1 })
perform hart time poweroff regs w = some (regs, record w { powered_off = true })
perform hart time hart_status regs w =
    some (at regs 10 (status_code (get_hart_status (regs 10 % 2 ^ 32) w.harts)), w)
perform hart time start regs w = do
  (code, harts) ← hart_start (regs 10 % 2 ^ 32) (regs 11) (regs 12) w.harts
  some (at regs 10 code, record w { harts = harts })
perform hart time stop regs w = do
  (code, harts) ← hart_stop (regs 10 % 2 ^ 32) w.harts
  some (at regs 10 code, record w { harts = harts })
perform hart time who_am_i regs w = some (at regs 10 hart, w)
perform hart time get_time regs w = some (at regs 10 time, w)
perform hart time set_time regs w = do
  target ← int_arg (regs 10)
  some (regs, with_clint w (clint_set_mtimecmp target (regs 11) w.harts.clint))
perform hart time add_time regs w = do
  target ← int_arg (regs 10)
  some (regs, with_clint w (clint_add_mtimecmp time target (regs 11) w.harts.clint))
perform hart time acknowledge regs w =
    some (regs, record w { mip = w.mip - w.mip / 2 ^ 5 % 2 * 2 ^ 5 })
perform hart time show_cmp regs w = do target ← int_arg (regs 10); some (regs, w)
perform hart time unknown regs w = some (regs, w)

pub svrcall_handle : ℕ → ℕ → (ℕ → ℕ) → World → Option ((ℕ → ℕ) × World)
unfolding call_of perform
svrcall_handle hart time regs w = perform hart time (call_of (regs xreg_a7)) regs w
