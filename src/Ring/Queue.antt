-- ===== src/Ring/Queue.antt =====
-- What a client of src/ring.c is promised: a bounded queue of events, oldest first, with a policy
-- for an event that arrives when the queue is full.
use ducreu_os.Base.{ℕ, List, [], ◌∷◌, ◌++◌, ◌==◌, if◌then◌else◌, length}
use ducreu_os.Ring.{
  InputEvent, no_event, EventRing, push, pop, rb_overwrite, rb_ignore, rb_ask_for_manager,
}

pub data Op : Type 0 where
  put : InputEvent → Op
  get : Op

pub data Reply : Type 0 where
  code : ℕ → Reply
  event : InputEvent → Reply

abbrev pub Queue : Type 0
Queue = List InputEvent

abbrev pub rest : Queue → Queue
rest [] = []
rest (_ ∷ q) = q

-- The oldest event makes room, the new one is dropped, or the queue is cleared.
unfoldable pub put_full : ℕ → Queue → InputEvent → (ℕ × Queue)
put_full behavior q ev =
    if behavior == rb_overwrite
    then (0, rest q ++ (ev ∷ []))
    else if behavior == rb_ignore
    then (0, q)
    else if behavior == rb_ask_for_manager
    then (1, [])
    else (2, q)

unfoldable pub put_back : ℕ → ℕ → Queue → InputEvent → (ℕ × Queue)
unfolding put_full
put_back behavior cap q ev = if length q == cap then put_full behavior q ev else (0, q ++ (ev ∷ []))

unfoldable pub take_front : Queue → (InputEvent × Queue)
take_front [] = (no_event, [])
take_front (ev ∷ q) = (ev, q)

-- the replies to a client's calls, in order
unfoldable pub run_queue : ℕ → ℕ → Queue → List Op → List Reply
run_queue behavior cap q [] = []
run_queue behavior cap q (put ev ∷ ops) =
    let (c, q') = put_back behavior cap q ev in code c ∷ run_queue behavior cap q' ops
run_queue behavior cap q (get ∷ ops) =
    let (ev, q') = take_front q in event ev ∷ run_queue behavior cap q' ops

unfoldable pub run_ring : EventRing → List Op → List Reply
run_ring rb [] = []
run_ring rb (put ev ∷ ops) = let (c, rb') = push rb ev in code c ∷ run_ring rb' ops
run_ring rb (get ∷ ops) = let (ev, rb') = pop rb in event ev ∷ run_ring rb' ops
