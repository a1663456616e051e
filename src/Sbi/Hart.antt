-- ===== src/Sbi/Hart.antt =====
-- Starting and stopping the harts, sbi/src/hart.c: a hart is told by a software interrupt what its
-- entry in the table says. An index outside the tables, and a wait for a locked mutex, is `none`.
pub mod Cycle
mod Tests
use ducreu_os.Base.{
  ℕ, ◌+◌, ◌^◌, Option, none, some, Bool, true, false, not, ◌==◌, leb, ◌&&◌, if◌then◌else◌,
}
use ducreu_os.Lock.{mutex_try, mutex_post}
use ducreu_os.Sbi.Clint.{
  Clint, at, max_supported_harts, mtimecmp_infinite, clint_set_msip, clint_clear_msip,
  clint_set_mtimecmp,
}

pub data HartStatus : Type 0 where
  stopped starting started stopping invalid : HartStatus

pub record HartData : Type 0 where
  pub status : HartStatus
  pub target_address : ℕ
  pub process_frame : ℕ

-- `sbi_hart_data`, `sbi_hart_lock` and the CLINT
pub record Harts : Type 0 where
  pub hart_data : ℕ → HartData
  pub hart_lock : ℕ → ℕ
  pub clint : Clint

abbrev pub put : Harts → ℕ → HartData → Harts
put m hart d = record m { hart_data = λ i. if i == hart then d else m.hart_data i }

abbrev pub lock_to : Harts → ℕ → ℕ → Harts
lock_to m hart w = record m { hart_lock = at m.hart_lock hart w }

-- the code in a word, for a supervisor call's answer
abbrev pub status_code : HartStatus → ℕ
status_code stopped = 0
status_code starting = 1
status_code started = 2
status_code stopping = 3
status_code invalid = 4

pub get_hart_status : ℕ → Harts → HartStatus
get_hart_status hart m = if leb max_supported_harts hart then invalid else (m.hart_data hart).status

-- the part of `hart_start` that holds the mutex
pub start_held : ℕ → ℕ → ℕ → Harts → ℕ × Harts
start_held hart target frame_paddr m =
    if not (status_code (m.hart_data hart).status == 0)
    then (2, lock_to m hart (mutex_post (m.hart_lock hart)))
    else let m' =
        put m hart
          (record { status = starting; target_address = target; process_frame = frame_paddr }) in
      let m'' = record m' { clint = clint_set_msip hart m'.clint } in
      (0, lock_to m'' hart (mutex_post (m''.hart_lock hart)))

unfoldable pub hart_start : ℕ → ℕ → ℕ → Harts → Option (ℕ × Harts)
unfolding start_held
hart_start hart target frame_paddr m =
    if leb max_supported_harts hart
    then none
    else let (got, word) = mutex_try (m.hart_lock hart) in
      if got == 0
      then some (1, lock_to m hart word)
      else some (start_held hart target frame_paddr (lock_to m hart word))

pub stop_held : ℕ → Harts → ℕ × Harts
stop_held hart m =
    if not (status_code (m.hart_data hart).status == 2)
    then (2, lock_to m hart (mutex_post (m.hart_lock hart)))
    else let m' =
        put m hart (record { status = stopping; target_address = 0; process_frame = 0 }) in
      let m'' = record m' { clint = clint_set_msip hart m'.clint } in
      (0, lock_to m'' hart (mutex_post (m''.hart_lock hart)))

unfoldable pub hart_stop : ℕ → Harts → Option (ℕ × Harts)
unfolding stop_held
hart_stop hart m =
    if leb max_supported_harts hart
    then none
    else let (got, word) = mutex_try (m.hart_lock hart) in
      if got == 0
      then some (1, lock_to m hart word)
      else some (stop_held hart (lock_to m hart word))

-- the control and status registers that `hart_handle_msip` writes
pub record Csrs : Type 0 where
  pub sscratch : ℕ
  pub mepc : ℕ
  pub mie : ℕ
  pub mideleg : ℕ
  pub medeleg : ℕ
  pub mstatus : ℕ
  pub stvec : ℕ
  pub sepc : ℕ
  pub satp : ℕ
  pub mip : ℕ

-- `sbi_hart_hang` stands at an address of its own.
module _ (sbi_hart_hang : ℕ) where
  pub spawn : HartData → Csrs → Csrs
  spawn d r = record r {
    sscratch = d.process_frame;
    mepc = d.target_address;
    mie = 2 ^ 11 + 2 ^ 3 + 2 ^ 7 + 2 ^ 5;
    mideleg = 2 ^ 9 + 2 ^ 1 + 2 ^ 5;
    medeleg = 0xB1F7;
    mstatus = 2 ^ 13 + 2 ^ 11 + 2 ^ 7;
  }

  pub park : ℕ → Csrs → Csrs
  park hart r = record {
    sscratch = 0;
    stvec = 0;
    sepc = 0;
    satp = 0;
    mepc = sbi_hart_hang;
    medeleg = 0;
    mideleg = 0;
    mip = 0;
    mstatus = 2 ^ 13 + 2 ^ 11 + 2 ^ 11 + 2 ^ 11 + 2 ^ 7;
    mie = if hart == 0 then 2 ^ 3 + 2 ^ 11 else 2 ^ 3;
  }

  -- what the hart does with its mutex held
  pub msip_held : ℕ → Harts → Csrs → Harts × Csrs
  unfolding spawn park
  msip_held hart m₀ r =
      let m = record m₀ { clint = clint_clear_msip hart m₀.clint } in
      let d = m.hart_data hart in
      let free = mutex_post (m.hart_lock hart) in
      if not (status_code d.status == 1) && not (status_code d.status == 3)
      then (lock_to m hart free, r)
      else if status_code d.status == 1
      then (lock_to (put m hart (record d { status = started })) hart free, spawn d r)
      else (
        lock_to
            (record (put m hart (record d { status = stopped })) {
              clint = clint_set_mtimecmp hart mtimecmp_infinite m.clint;
            })
            hart free,
        park hart r,
      )

  pub hart_handle_msip : ℕ → Harts → Csrs → Option (Harts × Csrs)
  unfolding msip_held
  hart_handle_msip hart m r =
      if leb max_supported_harts hart
      then none
      else let (got, word) = mutex_try (m.hart_lock hart) in
        if got == 0 then none else some (msip_held hart (lock_to m hart word) r)
