-- ===== src/Process.antt =====
-- The process lists of src/process.c, which the scheduler keeps: a doubly linked list of process
-- pointers, sorted by `vruntime`. A node holds a process, and its `next` and `prev`. `vruntime` is
-- the field of the process at each address; the allocator's part is an address, `fresh`, for the
-- node that `kmalloc` returns and a node whose memory is `release`d by `kfree`. Loops run on fuel.
pub mod Lists
pub mod Insert
pub mod Place
pub mod Remove
pub mod Unlink
pub mod Order
mod Tests
use ducreu_os.Base.{ℕ, zero, suc, ◌+◌, ◌==◌, leb, if◌then◌else◌, true, false}
use ducreu_os.Base.Linked.{
  Cmd, pure, fault, ◌>>=◌, ◌>>◌, load, set_item, set_next, set_prev, release,
}

-- `process_llist_node_start_t`
pub record ProcessList : Type 0 where
  pub head : ℕ
  pub mutex : ℕ

abbrev pub mutex_locked : ℕ
mutex_locked = 0

abbrev pub mutex_unlocked : ℕ
mutex_unlocked = 1

-- `mutex_wait` and `mutex_post` on the list's own mutex
abbrev pub wait : ProcessList → Cmd ℕ ProcessList
wait pl = if pl.mutex == mutex_locked then fault else pure (record pl { mutex = mutex_locked })

abbrev pub post : ProcessList → ProcessList
post pl = record pl { mutex = mutex_unlocked }

-- the node that holds a process, or NULL
pub find_process : ℕ → ℕ → ℕ → Cmd ℕ ℕ
find_process zero remove n = fault
find_process (suc k) remove n =
    if n == 0
    then pure 0
    else do c ← load n; if c.item == remove then pure n else find_process k remove c.next

-- the two pointers around the node are led past it
pub unlink : ProcessList → ℕ → Cmd ℕ ProcessList
unlink pl n = do
  c ← load n
  pl' ←
      (if c.prev == 0
        then pure (record pl { head = c.next })
        else (do set_next c.prev c.next; pure pl))
  c' ← load n
  (if c'.next == 0 then pure tt else set_prev c'.next c'.prev)
  pure pl'

pub process_remove : ℕ → ProcessList → ℕ → Cmd ℕ ProcessList
unfolding find_process unlink
process_remove fuel pl₀ remove = do
  pl ← wait pl₀
  n ← find_process fuel remove pl.head
  if n == 0 then pure (post pl) else (do pl' ← unlink pl n; release n; pure (post pl'))

-- the process of the first node, or NULL
pub process_remove_lowest : ProcessList → Cmd ℕ (ℕ × ProcessList)
process_remove_lowest pl₀ = do
  pl ← wait pl₀
  if pl.head == 0 then pure (0, post pl) else (do
    c ← load pl.head
    (if c.next == 0 then pure tt else set_prev c.next 0)
    c' ← load pl.head
    release pl.head
    pure (c'.item, post (record pl { head = c.next })))

-- `for(l = start; l->next != NULL; l = l->next)`
pub find_end : ℕ → ℕ → Cmd ℕ ℕ
find_end zero l = fault
find_end (suc k) l = do c ← load l; if c.next == 0 then pure l else find_end k c.next

pub insert_first : ProcessList → ℕ → ℕ → Cmd ℕ ProcessList
insert_first pl new l = do
  set_prev l new
  set_next new l
  set_prev new 0
  pure (record pl { head = new })

pub insert_middle : ℕ → ℕ → Cmd ℕ (Unit {0})
insert_middle new l = do
  c ← load l
  set_next c.prev new
  set_prev l new
  set_next new l
  set_prev new c.prev

pub insert_last : ℕ → ℕ → ℕ → Cmd ℕ (Unit {0})
insert_last fuel new start = do
  l ← find_end fuel start
  set_next l new
  set_prev new l
  set_next new 0

module _ (vruntime : ℕ → ℕ) where
  -- `for(; l != NULL; l = l->next)` up to the first process that is not ahead of `p`
  pub find_place : ℕ → ℕ → ℕ → Cmd ℕ ℕ
  find_place zero p l = fault
  find_place (suc k) p l = if l == 0 then pure 0 else do
    c ← load l
    if leb (vruntime p) (vruntime c.item) then pure l else find_place k p c.next

  pub insert_behind : ℕ → ℕ → ℕ → ℕ → Cmd ℕ (Unit {0})
  insert_behind fuel p new start = do
    c ← load start
    l ← find_place fuel p c.next
    if l == 0 then insert_last fuel new start else insert_middle new l

  pub process_insert : ℕ → ℕ → ProcessList → ℕ → Cmd ℕ ProcessList
  unfolding insert_first insert_behind insert_middle insert_last find_place find_end
  process_insert fuel fresh pl₀ p = if p == 0 then pure pl₀ else do
    pl ← wait pl₀
    set_item fresh p
    if pl.head == 0
        then (do set_next fresh 0; set_prev fresh 0; pure (post (record pl { head = fresh })))
        else (do
          c ← load pl.head
          if leb (vruntime p) (vruntime c.item)
              then (do pl' ← insert_first pl fresh pl.head; pure (post pl'))
              else (do insert_behind fuel p fresh pl.head; pure (post pl)))

pub process_llist_len : ℕ → ℕ → Cmd ℕ ℕ
process_llist_len zero l = fault
process_llist_len (suc k) l =
    if l == 0 then pure 0 else do c ← load l; n ← process_llist_len k c.next; pure (n + 1)
