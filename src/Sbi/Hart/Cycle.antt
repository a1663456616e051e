-- ===== src/Sbi/Hart/Cycle.antt =====
-- The life of a hart under sbi/src/hart.c: its states, and what it runs after a start or a stop.
use ducreu_os.Base.{ℕ, ◌/◌, ◌%◌, ◌^◌, ◌<◌, ◌≡◌, Option, some, ◌>>=◌, ◌==◌, if◌then◌else◌, arith}
use ducreu_os.Lock.{mutex_try, mutex_post}
use ducreu_os.Sbi.Clint.{
  mtimecmp_infinite, max_supported_harts, clint_set_msip, clint_clear_msip, clint_set_mtimecmp,
}
use ducreu_os.Sbi.Hart.{
  HartStatus, stopped, starting, started, stopping, Harts, Csrs, lock_to, hart_start, hart_stop,
  start_held, stop_held, spawn, park, msip_held, hart_handle_msip,
}

-- A call of a hart, or an interrupt on one.
pub data Event : Type 0 where
  start_call : ℕ → ℕ → ℕ → Event
  stop_call : ℕ → Event
  interrupt : ℕ → Csrs → Event

abbrev pub hart_of : Event → ℕ
hart_of (start_call hart target frame) = hart
hart_of (stop_call hart) = hart
hart_of (interrupt hart r) = hart

module _ (sbi_hart_hang : ℕ) where
  pub run_event : Event → Harts → Option Harts
  run_event (start_call hart target frame) m = do
    (code, m') ← hart_start hart target frame m
    some m'
  run_event (stop_call hart) m = do (code, m') ← hart_stop hart m; some m'
  run_event (interrupt hart r) m = do (m', r') ← hart_handle_msip sbi_hart_hang hart m r; some m'

-- the next state of a hart, for the event that takes it there
abbrev pub follows : HartStatus → Event → HartStatus
follows stopped (start_call hart target frame) = starting
follows started (stop_call hart) = stopping
follows starting (interrupt hart r) = started
follows stopping (interrupt hart r) = stopped
follows status event = status

-- The event took the status of a hart along, and posted its mutex.
abbrev pub Moved : Harts → Event → Harts → Type 0
Moved m e m' =
    (i : ℕ)
    → ((m'.hart_data i).status
        ≡ (if i == hart_of e then follows (m.hart_data i).status e else (m.hart_data i).status))
      × (m'.hart_lock i ≡ (if i == hart_of e then 1 else m.hart_lock i))

start_held_lem :
    (hart target frame : ℕ) (m : Harts)
    → Moved m (start_call hart target frame) (start_held hart target frame m).1
unfolding start_held mutex_post
start_held_lem hart target frame m i = ground arith

stop_held_lem : (hart : ℕ) (m : Harts) → Moved m (stop_call hart) (stop_held hart m).1
unfolding stop_held mutex_post
stop_held_lem hart m i = ground arith

msip_held_lem :
    (hang hart : ℕ) (m : Harts) (r : Csrs) → Moved m (interrupt hart r) (msip_held hang hart m r).0
unfolding msip_held mutex_post
msip_held_lem hang hart m r i = ground arith

-- With the mutex free a call does its work with the mutex held, and leaves every mutex as it was.
pub start_runs :
    (hart target frame : ℕ) (m : Harts)
    → hart < max_supported_harts
    → m.hart_lock hart ≡ 1
    → (hart_start hart target frame m ≡ some (start_held hart target frame (lock_to m hart 0)))
      × ((i : ℕ) → (start_held hart target frame (lock_to m hart 0)).1.hart_lock i ≡ m.hart_lock i)
unfolding hart_start mutex_try
start_runs hart target frame m small free =
    (ground arith, λ i. ground (arith, start_held_lem hart target frame (lock_to m hart 0) i))

pub stop_runs :
    (hart : ℕ) (m : Harts)
    → hart < max_supported_harts
    → m.hart_lock hart ≡ 1
    → (hart_stop hart m ≡ some (stop_held hart (lock_to m hart 0)))
      × ((i : ℕ) → (stop_held hart (lock_to m hart 0)).1.hart_lock i ≡ m.hart_lock i)
unfolding hart_stop mutex_try
stop_runs hart m small free =
    (ground arith, λ i. ground (arith, stop_held_lem hart (lock_to m hart 0) i))

-- At a hart of the table whose mutex is free, every event returns, moves the status of that hart
-- along the cycle and no other one, and leaves the mutex free.
pub event_lem :
    (sbi_hart_hang : ℕ) (e : Event) (m : Harts)
    → hart_of e < max_supported_harts
    → m.hart_lock (hart_of e) ≡ 1
    → (m' : Harts) × (run_event sbi_hart_hang e m ≡ some m') × Moved m e m'
unfolding run_event hart_start hart_stop hart_handle_msip mutex_try
event_lem hang (start_call hart target frame) m small free = (
  (start_held hart target frame (lock_to m hart 0)).1,
  ground arith,
  λ i. ground (arith, start_held_lem hart target frame (lock_to m hart 0) i),
)
event_lem hang (stop_call hart) m small free = (
  (stop_held hart (lock_to m hart 0)).1,
  ground arith,
  λ i. ground (arith, stop_held_lem hart (lock_to m hart 0) i),
)
event_lem hang (interrupt hart r) m small free = (
  (msip_held hang hart (lock_to m hart 0) r).0,
  ground arith,
  λ i. ground (arith, msip_held_lem hang hart (lock_to m hart 0) r i),
)

-- A start of a stopped hart with a free mutex returns 0 and raises the hart's software interrupt. At
-- the interrupt the hart returns to the target in supervisor mode with the frame in `sscratch`, and
-- is started, its interrupt cleared and its mutex free.
pub start-interrupt :
    (sbi_hart_hang hart target frame : ℕ) (m : Harts) (r : Csrs)
    → hart < max_supported_harts
    → m.hart_lock hart ≡ 1
    → (m.hart_data hart).status ≡ stopped
    → (m' m'' : Harts) × (r' : Csrs) × (hart_start hart target frame m ≡ some (0, m'))
      × (m'.clint.msip hart ≡ 1)
      × (hart_handle_msip sbi_hart_hang hart m' r ≡ some (m'', r'))
      × (r'.mepc ≡ target)
      × (r'.sscratch ≡ frame)
      × (r'.mstatus / 2 ^ 11 % 4 ≡ 1)
      × ((m''.hart_data hart).status ≡ started)
      × (m''.clint.msip hart ≡ 0)
      × (m''.hart_lock hart ≡ 1)
unfolding hart_start start_held hart_handle_msip msip_held spawn mutex_try mutex_post clint_set_msip
    clint_clear_msip
start-interrupt hang hart target frame m r small free idle =
    let m' = (start_held hart target frame (lock_to m hart 0)).1 in
    let after = msip_held hang hart (lock_to m' hart 0) r in
    (
      m',
      after.0,
      after.1,
      ground (arith, idle),
      ground (arith, idle),
      ground (arith, idle),
      ground (arith, idle),
      ground (arith, idle),
      ground (arith, idle),
      ground (arith, idle),
      ground (arith, idle),
      ground (arith, idle),
    )

-- A stop of a started hart with a free mutex returns 0 and raises the hart's software interrupt. At
-- the interrupt the hart returns to `sbi_hart_hang` in machine mode with its timer at infinity and
-- its address translation off, and is stopped, its interrupt cleared and its mutex free.
pub stop-interrupt :
    (sbi_hart_hang hart : ℕ) (m : Harts) (r : Csrs)
    → hart < max_supported_harts
    → m.hart_lock hart ≡ 1
    → (m.hart_data hart).status ≡ started
    → (m' m'' : Harts) × (r' : Csrs) × (hart_stop hart m ≡ some (0, m'))
      × (m'.clint.msip hart ≡ 1)
      × (hart_handle_msip sbi_hart_hang hart m' r ≡ some (m'', r'))
      × (r'.mepc ≡ sbi_hart_hang)
      × (r'.satp ≡ 0)
      × (r'.mstatus / 2 ^ 11 % 4 ≡ 3)
      × (m''.clint.mtimecmp hart ≡ mtimecmp_infinite)
      × ((m''.hart_data hart).status ≡ stopped)
      × (m''.clint.msip hart ≡ 0)
      × (m''.hart_lock hart ≡ 1)
unfolding hart_stop stop_held hart_handle_msip msip_held park mutex_try mutex_post clint_set_msip
    clint_clear_msip clint_set_mtimecmp
stop-interrupt hang hart m r small free busy =
    let m' = (stop_held hart (lock_to m hart 0)).1 in
    let after = msip_held hang hart (lock_to m' hart 0) r in
    (
      m',
      after.0,
      after.1,
      ground (arith, busy),
      ground (arith, busy),
      ground (arith, busy),
      ground (arith, busy),
      ground (arith, busy),
      ground (arith, busy),
      ground (arith, busy),
      ground (arith, busy),
      ground (arith, busy),
      ground (arith, busy),
    )
