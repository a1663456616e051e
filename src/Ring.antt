-- ===== src/Ring.antt =====
-- src/ring.c and src/include/ring.h: the ring of input events between the input driver and the
-- processes that ask for input. A `uint32_t` is a number below 2 ^ 32 whose sums wrap.
-- Console output (ERRORMSG, printf) is not part of the model.
pub mod Queue
pub mod Refine
mod Tests
use ducreu_os.Base.{ℕ, ◌+◌, ◌-◌, ◌%◌, ◌^◌, List, [], ◌∷◌, ◌==◌, if◌then◌else◌, get_or, set}

-- `struct input_event`
pub record InputEvent : Type 0 where
  pub type : ℕ
  pub code : ℕ
  pub value : ℕ

-- `{0,0,0}`, what a pop of an empty ring returns
abbrev pub no_event : InputEvent
no_event = record { type = 0; code = 0; value = 0 }

-- `MUTEX_UNLOCKED`
abbrev mutex_unlocked : ℕ
mutex_unlocked = 1

-- `enum ring_buffer_behaviors`; the field holds any `uint32_t`.
abbrev pub rb_overwrite : ℕ
rb_overwrite = 0

abbrev pub rb_ignore : ℕ
rb_ignore = 1

abbrev pub rb_ask_for_manager : ℕ
rb_ask_for_manager = 2

-- `struct input_events_ring_buffer`
pub record EventRing : Type 0 where
  pub start : ℕ
  pub occupied : ℕ
  pub capacity : ℕ
  pub behavior : ℕ
  pub elements : List InputEvent
  pub mutex : ℕ

-- `uint32_t` addition
abbrev pub add32 : ℕ → ℕ → ℕ
add32 a b = (a + b) % 2 ^ 32

-- `ie_ring_buffer_init`: `storage` is the block that `kmalloc` returned for the elements.
-- The second result is the value that `ie_ring_mutex` is posted with.
pub init : List InputEvent → ℕ → ℕ → (EventRing × ℕ)
init storage size behavior = (
  record {
    start = 0;
    occupied = 0;
    capacity = size;
    behavior = behavior;
    elements = storage;
    mutex = mutex_unlocked;
  },
  mutex_unlocked,
)

-- the slot behind the newest event
abbrev pub tail : EventRing → ℕ
tail rb = add32 rb.start rb.occupied % rb.capacity

-- the `switch` on the behaviour of a full ring
push_full : EventRing → InputEvent → (ℕ × EventRing)
push_full rb ev =
    if rb.behavior == rb_overwrite
    then (
      0,
      record rb { elements = set rb.elements (tail rb) ev; start = add32 rb.start 1 % rb.capacity },
    )
    else if rb.behavior == rb_ignore
    then (0, rb)
    else if rb.behavior == rb_ask_for_manager
    then (1, record rb { start = 0; occupied = 0; mutex = mutex_unlocked })
    else (2, record rb { mutex = mutex_unlocked })

-- `ie_ring_buffer_push`
pub push : EventRing → InputEvent → (ℕ × EventRing)
unfolding push_full
push rb ev =
    if rb.occupied == rb.capacity
    then push_full rb ev
    else (0, record rb { elements = set rb.elements (tail rb) ev; occupied = add32 rb.occupied 1 })

-- `ie_ring_buffer_pop`; `occupied -= 1` runs only where `occupied` is not 0.
pub pop : EventRing → (InputEvent × EventRing)
pop rb = if rb.occupied == 0 then (no_event, record rb { mutex = mutex_unlocked }) else (
  get_or rb.elements rb.start no_event,
  record rb { start = add32 rb.start 1 % rb.capacity; occupied = rb.occupied - 1 },
)
