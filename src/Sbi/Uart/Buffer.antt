-- ===== src/Sbi/Uart/Buffer.antt =====
-- The UART buffer of sbi/src/uart.c as a bounded queue that drops what does not fit.
use ducreu_os.Base.{
  ℕ, zero, suc, ◌+◌, ◌-◌, ◌%◌, ◌≤◌, ◌<◌, ◌≡◌, ◌≢◌, refl, List, [], ◌∷◌, ◌++◌, ◌==◌, leb, false, inl,
  inr, if◌then◌else◌, length, length-set, get_or, arith, Bool-cases,
}
use native.Mathlib.Numerals.{add-one}
use ducreu_os.Base.Circular.{window, length-window, window-set, window_front}
use ducreu_os.Sbi.Uart.{UartBuffer, uart_buffer_size, init, push, pop, handle_irq}

pub record IsValid (b : UartBuffer) : Type 0 where
  pub room : length b.buffer ≡ uart_buffer_size
  pub start_in : b.start < uart_buffer_size
  pub occupied_in : b.occupied ≤ uart_buffer_size

abbrev pub contents : UartBuffer → List ℕ
contents b = window 0 uart_buffer_size b.buffer b.start b.occupied

-- a character is queued if there is room
unfoldable pub enqueue : List ℕ → ℕ → List ℕ
enqueue q c = if leb uart_buffer_size (length q) then q else q ++ (c ∷ [])

unfoldable pub dequeue : List ℕ → (ℕ × List ℕ)
dequeue [] = (0xff, [])
dequeue (c ∷ q) = (c, q)

pub init-IsValid :
    (b : UartBuffer) → length b.buffer ≡ 32 → IsValid (init b) × (contents (init b) ≡ [])
unfolding init
init-IsValid b e = (omega arith, refl)

contents-length : (b : UartBuffer) → length (contents b) ≡ b.occupied
contents-length b = length-window 0 uart_buffer_size b.buffer b.start b.occupied

push-room :
    (b : UartBuffer) (c : ℕ)
    → IsValid b
    → leb uart_buffer_size b.occupied ≡ false
    → contents (push b c) ≡ contents b ++ (c ∷ [])
unfolding push
push-room b c v e =
    rw (e, add-one)
      (window-set 0 32 b.buffer b.start b.occupied c (omega (arith, v.room)) v.start_in
        (ground arith))

push-IsValid : (b : UartBuffer) (c : ℕ) → IsValid b → IsValid (push b c)
unfolding push
push-IsValid b c v =
    ground (arith, length-set b.buffer ((b.start + b.occupied) % uart_buffer_size) c)

push-enqueue : (b : UartBuffer) (c : ℕ) → IsValid b → contents (push b c) ≡ enqueue (contents b) c
unfolding enqueue
push-enqueue b c v = elim (Bool-cases (leb uart_buffer_size b.occupied)) [
  | inl full ↦ rw (contents-length b, full) (unfold push in rw full)
  | inr room ↦ rw (contents-length b, room) (push-room b c v room)
]

-- An interrupt keeps the buffer valid and queues the received character, or 0xff where the status
-- register shows none; a full buffer stays as it is.
pub handle_irq_refines :
    (status received : ℕ) (b : UartBuffer)
    → IsValid b
    → IsValid (handle_irq status received b)
      × (contents (handle_irq status received b)
          ≡ enqueue (contents b) (if status % 2 == 0 then 0xff else received))
unfolding handle_irq
handle_irq_refines status received b v = (push-IsValid b _ v, push-enqueue b _ v)

pop_front :
    (buf : List ℕ) (s n : ℕ)
    → s < 32
    → n ≢ 0
    → window 0 32 buf s n ≡ get_or buf s 0 ∷ window 0 32 buf ((s + 1) % 32) (n - 1)
pop_front buf s zero h ne = absurd (ne refl)
pop_front buf s (suc n) h ne =
    let e : suc n - 1 ≡ n = omega arith in rw e (window_front 0 32 buf s n h)

-- GETCHAR takes the oldest character, or answers 0xff and changes nothing if there is none.
pub pop_refines :
    (b : UartBuffer)
    → IsValid b
    → IsValid (pop b).1
      × ((pop b).0 ≡ (dequeue (contents b)).0)
      × (contents (pop b).1 ≡ (dequeue (contents b)).1)
unfolding pop dequeue
pop_refines b v = elim (Bool-cases (b.occupied == 0)) [
  | inl empty ↦ ground arith
  | inr some_left ↦
      rw (pop_front b.buffer b.start b.occupied v.start_in (ground arith), some_left)
        (omega arith, refl, refl)
]
