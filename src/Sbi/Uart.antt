-- ===== src/Sbi/Uart.antt =====
-- sbi/src/uart.c: the buffer of received characters between the UART interrupt and the GETCHAR
-- call. A `char` is a byte; `int` fields that stay in 0 .. 32 are numbers.
pub mod Buffer
mod Tests
use ducreu_os.Base.{ℕ, ◌+◌, ◌-◌, ◌%◌, ◌/◌, List, [], ◌∷◌, ◌==◌, if◌then◌else◌, leb, get_or, set}

abbrev pub uart_buffer_size : ℕ
uart_buffer_size = 32

-- `sbi_uart_buffer_t`
pub record UartBuffer : Type 0 where
  pub buffer : List ℕ
  pub start : ℕ
  pub occupied : ℕ

-- the buffer part of `uart_init`; the writes to the device registers are not modelled
pub init : UartBuffer → UartBuffer
init b = record b { start = 0; occupied = 0 }

-- `uart_buffer_push`
pub push : UartBuffer → ℕ → UartBuffer
push b c = if leb uart_buffer_size b.occupied then b else record b {
  buffer = set b.buffer ((b.start + b.occupied) % uart_buffer_size) c;
  occupied = b.occupied + 1;
}

-- `uart_buffer_pop`; 0xff where the buffer is empty
pub pop : UartBuffer → (ℕ × UartBuffer)
pop b = if b.occupied == 0 then (0xff, b) else (
  get_or b.buffer b.start 0,
  record b { start = (b.start + 1) % uart_buffer_size; occupied = b.occupied - 1 },
)

-- `uart_get`, of the line status register `uart[5]` and the receive register `uart[0]`
get : ℕ → ℕ → ℕ
get status received = if status % 2 == 0 then 0xff else received

-- `uart_handle_irq`
pub handle_irq : ℕ → ℕ → UartBuffer → UartBuffer
unfolding get
handle_irq status received b = push b (get status received)
