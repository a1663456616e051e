-- ===== src/Sched.antt =====
-- The scheduler's walk of its sleeping processes, src/sched.c, over the two process lists: a
-- process whose time has come goes from the sleeping list to that of the processes that may run.
-- A process is its address; `vruntime` and `sleep_until` are its fields, `fresh k` the node that
-- `kmalloc` returns when `k` rounds are left, and `time` what the firmware's clock says.
pub mod Wake
pub mod Skip
mod Tests
use ducreu_os.Base.{ℕ, zero, suc, ◌==◌, ltb, if◌then◌else◌}
use ducreu_os.Base.Linked.{Cmd, pure, fault, ◌>>=◌, load}
use ducreu_os.Process.{ProcessList, process_insert, process_remove}

-- `process_state_t`
pub data ProcessState : Type 0 where
  ps_dead : ProcessState
  ps_uninit : ProcessState
  ps_running : ProcessState
  ps_sleeping : ProcessState
  ps_waiting : ProcessState
  ps_async_free : ProcessState

-- the state of each process, and `sleeping_process_llist` and `unsched_process_llist`
pub record Sched : Type 0 where
  pub process_state : ℕ → ProcessState
  pub sleeping : ProcessList
  pub waiting : ProcessList

abbrev pub set_running : ℕ → (ℕ → ProcessState) → ℕ → ProcessState
set_running p states q = if q == p then ps_running else states q

module _ (vruntime : ℕ → ℕ) (bound : ℕ) where
  -- the body for a process that is due
  pub wake : ℕ → Sched → ℕ → Cmd ℕ Sched
  wake f s target = do
    sleeping ← process_remove bound s.sleeping target
    waiting ← process_insert vruntime bound f s.waiting target
    pure (record {
      process_state = set_running target s.process_state;
      sleeping = sleeping;
      waiting = waiting;
    })

module _ (vruntime sleep_until fresh : ℕ → ℕ) (time bound : ℕ) where
  -- the loop at node `pln`; after a removal it goes on behind the new head
  pub walk_from : ℕ → Sched → ℕ → Cmd ℕ Sched
  unfolding wake
  walk_from zero s pln = fault
  walk_from (suc k) s pln = if pln == 0 then pure s else do
    c ← load pln
    if ltb (sleep_until c.item) time
        then (do
          s' ← wake vruntime bound (fresh k) s c.item
          if s'.sleeping.head == 0
              then pure s'
              else (do d ← load s'.sleeping.head; walk_from k s' d.next))
        else walk_from k s c.next

  pub sched_walk_sleeping_list : Sched → Cmd ℕ Sched
  unfolding walk_from
  sched_walk_sleeping_list s = walk_from bound s s.sleeping.head
