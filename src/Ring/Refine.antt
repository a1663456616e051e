-- ===== src/Ring/Refine.antt =====
-- A valid ring of src/ring.c is the bounded queue of the events that it holds.
use ducreu_os.Base.{
  ℕ, zero, suc, ◌+◌, ◌-◌, ◌%◌, ◌^◌, ◌≤◌, ◌<◌, ◌≡◌, refl, sym, ap, ap₂, ◌≢◌, inl, inr, List, [], ◌∷◌,
  ◌++◌, ◌==◌, length, length-set, get_or, set, arith, Bool-cases,
}
use ducreu_os.Base.Circular.{window, length-window, window-set, window_front, window_overwrite}
use ducreu_os.Ring.{InputEvent, no_event, EventRing, add32, init, tail, push, pop}
use ducreu_os.Ring.Queue.{
  Queue, Op, put, get, rest, put_full, put_back, take_front, run_queue, run_ring,
}

-- The storage is there, no index leaves it, and no sum of two indices wraps.
pub record IsValid (rb : EventRing) : Type 0 where
  pub room : rb.capacity ≤ length rb.elements
  pub small : rb.capacity ≤ 2 ^ 31
  pub start_in : rb.start < rb.capacity
  pub occupied_in : rb.occupied ≤ rb.capacity

abbrev pub contents : EventRing → Queue
contents rb = window no_event rb.capacity rb.elements rb.start rb.occupied

-- A ring of `size` slots starts valid and empty, and both mutexes end posted.
pub init-IsValid :
    (storage : List InputEvent) (size behavior : ℕ)
    → 0 < size
    → size ≤ 2 ^ 31
    → size ≤ length storage
    → IsValid (init storage size behavior).0
      × (contents (init storage size behavior).0 ≡ [])
      × ((init storage size behavior).0.mutex ≡ 1)
      × ((init storage size behavior).1 ≡ 1)
unfolding init
init-IsValid storage size behavior pos small room = (omega arith, refl, refl, refl)

pub push-IsValid : (rb : EventRing) (ev : InputEvent) → IsValid rb → IsValid (push rb ev).1
unfolding push
push-IsValid rb ev v = ground (arith, length-set rb.elements (tail rb) ev)

pub pop-IsValid : (rb : EventRing) → IsValid rb → IsValid (pop rb).1
unfolding pop
pop-IsValid rb v = ground arith

-- An operation keeps the capacity and the policy.
pub push_keeps :
    (rb : EventRing) (ev : InputEvent)
    → ((push rb ev).1.capacity ≡ rb.capacity) × ((push rb ev).1.behavior ≡ rb.behavior)
unfolding push
push_keeps rb ev = ground arith

pub pop_keeps :
    (rb : EventRing) → ((pop rb).1.capacity ≡ rb.capacity) × ((pop rb).1.behavior ≡ rb.behavior)
unfolding pop
pop_keeps rb = ground arith

module _ (rb : EventRing) (v : IsValid rb) where
  tail_lem : tail rb ≡ (rb.start + rb.occupied) % rb.capacity
  tail_lem = ap (λ n. n % rb.capacity) (omega arith)

  start_lem : add32 rb.start 1 % rb.capacity ≡ (rb.start + 1) % rb.capacity
  start_lem = ap (λ n. n % rb.capacity) (omega arith)

  contents-length : length (contents rb) ≡ rb.occupied
  contents-length = length-window no_event rb.capacity rb.elements rb.start rb.occupied

-- The write over the oldest event, at a capacity that is a successor.
overwrite_lem :
    (els : List InputEvent) (cap start n : ℕ) (ev : InputEvent)
    → n ≡ cap
    → 0 < cap
    → cap ≤ length els
    → start < cap
    → window no_event cap (set els ((start + n) % cap) ev) ((start + 1) % cap) n
      ≡ rest (window no_event cap els start n) ++ (ev ∷ [])
overwrite_lem els cap start zero ev e pos room hs = absurd (omega arith)
overwrite_lem els cap start (suc n) ev e pos room hs =
    rw (window_front no_event cap els start n hs)
      (window_overwrite no_event cap els start n ev (sym e) room hs)

push_full-refines :
    (rb : EventRing) (ev : InputEvent)
    → IsValid rb
    → rb.occupied ≡ rb.capacity
    → let (c, rb') = push rb ev in (c, contents rb') ≡ put_full rb.behavior (contents rb) ev
unfolding push put_full
push_full-refines rb ev v full = ground (
  arith,
  tail_lem rb v,
  start_lem rb v,
  overwrite_lem rb.elements rb.capacity rb.start rb.occupied ev full,
)

push_room-refines :
    (rb : EventRing) (ev : InputEvent)
    → IsValid rb
    → rb.occupied ≢ rb.capacity
    → let (c, rb') = push rb ev in (c ≡ 0) × (contents rb' ≡ contents rb ++ (ev ∷ []))
unfolding push
push_room-refines rb ev v room =
    ground
      (arith, tail_lem rb v, window-set no_event rb.capacity rb.elements rb.start rb.occupied ev)

pub push_refines :
    (rb : EventRing) (ev : InputEvent)
    → IsValid rb
    → let (c, rb') = push rb ev in
      (c, contents rb') ≡ put_back rb.behavior rb.capacity (contents rb) ev
unfolding put_back
push_refines rb ev v = elim (Bool-cases (rb.occupied == rb.capacity)) [
  | inl full ↦ rw (contents-length rb v, full) (push_full-refines rb ev v (ground arith))
  | inr room ↦
      rw (contents-length rb v, room)
        (ap₂ (λ c q. (c, q)) (push_room-refines rb ev v (ground arith)).0
          (push_room-refines rb ev v (ground arith)).1)
]

-- A pop at a number of events that is a successor.
pop_lem :
    (els : List InputEvent) (cap start n : ℕ)
    → start < cap
    → n ≢ 0
    → window no_event cap els start n
      ≡ get_or els start no_event ∷ window no_event cap els ((start + 1) % cap) (n - 1)
pop_lem els cap start zero hs ne = absurd (ne refl)
pop_lem els cap start (suc n) hs ne =
    let e : suc n - 1 ≡ n = omega arith in rw e (window_front no_event cap els start n hs)

pub pop_refines :
    (rb : EventRing)
    → IsValid rb
    → let (ev, rb') = pop rb in (ev, contents rb') ≡ take_front (contents rb)
unfolding pop take_front
pop_refines rb v = elim (Bool-cases (rb.occupied == 0)) [
  | inl empty ↦ ground arith
  | inr some_left ↦
      rw (pop_lem rb.elements rb.capacity rb.start rb.occupied v.start_in (ground arith), some_left)
        (ground (arith, start_lem rb v))
]

-- No sequence of pushes and pops tells a valid ring from the bounded queue of its events.
pub run_refines :
    (ops : List Op) (rb : EventRing)
    → IsValid rb
    → run_ring rb ops ≡ run_queue rb.behavior rb.capacity (contents rb) ops
unfolding run_ring run_queue
run_refines [] rb v = refl
run_refines (put ev ∷ ops) rb v = rw (
  run_refines ops (push rb ev).1 (push-IsValid rb ev v),
  ← push_refines rb ev v,
  (push_keeps rb ev).0,
  (push_keeps rb ev).1,
)
run_refines (get ∷ ops) rb v = rw (
  run_refines ops (pop rb).1 (pop-IsValid rb v),
  ← pop_refines rb v,
  (pop_keeps rb).0,
  (pop_keeps rb).1,
)
