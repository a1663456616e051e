-- ===== src/Sbi/Hart/Tests.antt =====
-- Runs of sbi/src/hart.c, and the conditions of its theorems there.
use ducreu_os.Base.{◌/◌, ◌%◌, ◌^◌, ◌≡◌, refl, some, arith}
use ducreu_os.Sbi.Hart.{HartStatus, stopped, started, Harts, Csrs, hart_start, hart_handle_msip}
use ducreu_os.Sbi.Hart.Cycle.{start_call, Moved, run_event, event_lem, start-interrupt}

abbrev all_in : HartStatus → Harts
all_in status = record {
  hart_data = λ i. record { status = status; target_address = 0; process_frame = 0 };
  hart_lock = λ i. 1;
  clint = record { msip = λ i. 0; mtimecmp = λ i. 0 };
}

abbrev csrs : Csrs
csrs = record {
  sscratch = 0;
  mepc = 0;
  mie = 0;
  mideleg = 0;
  medeleg = 0;
  mstatus = 0;
  stvec = 0;
  sepc = 0;
  satp = 7;
  mip = 0;
}

event_lem_example :
    (m' : Harts) × (run_event 0x80000100 (start_call 3 0x80050000 0x81000000) (all_in stopped)
      ≡ some m')
    × Moved (all_in stopped) (start_call 3 0x80050000 0x81000000) m'
event_lem_example =
    event_lem 0x80000100 (start_call 3 0x80050000 0x81000000) (all_in stopped) (omega arith) refl

start-interrupt_example :
    (m' m'' : Harts) × (r' : Csrs) × (hart_start 3 0x80050000 0x81000000 (all_in stopped)
      ≡ some (0, m'))
    × (m'.clint.msip 3 ≡ 1)
    × (hart_handle_msip 0x80000100 3 m' csrs ≡ some (m'', r'))
    × (r'.mepc ≡ 0x80050000)
    × (r'.sscratch ≡ 0x81000000)
    × (r'.mstatus / 2 ^ 11 % 4 ≡ 1)
    × ((m''.hart_data 3).status ≡ started)
    × (m''.clint.msip 3 ≡ 0)
    × (m''.hart_lock 3 ≡ 1)
start-interrupt_example =
    start-interrupt 0x80000100 3 0x80050000 0x81000000 (all_in stopped) csrs (omega arith) refl refl
