-- ===== src/Block/Arbitrary.antt =====
-- `block_read_arbitrary` and `block_write_arbitrary` of src/block.c on a device with 512-byte sectors.
use ducreu_os.Base.{ℕ, ◌+◌, ◌-◌, ◌%◌, ◌^◌, ◌≤◌, ◌<◌, ◌≡◌, ◌⊎◌, true, false}
use ducreu_os.Base.Memory.{Mem, masked}
use ducreu_os.Utils.Memory.{memset, memcpy}
use ducreu_os.Block.{Machine, map_memory, read_start, read_end, block_read_write}
use ducreu_os.Block.Device.{IsVirtioBlock, Ready}

-- some bytes of the medium, with the sectors around them no more than a request may have, and a buffer
-- for them that is apart from the sectors' temporary buffer
pub record Asked (capacity tbuffer buffer start size : ℕ) : Type 0 where
  pub whole : capacity % 512 ≡ 0
  pub addressed : capacity + 512 ≤ 2 ^ 64
  pub some_bytes : 0 < size
  pub inside : start + size ≤ capacity
  pub short : read_end 512 start size ≤ read_start 512 start + 65024
  pub apart : (buffer + size ≤ tbuffer) ⊎ (tbuffer + (size + 1024) ≤ buffer)

abbrev low : ℕ → ℕ
low start = read_start 512 start

abbrev high : ℕ → ℕ → ℕ
high start size = read_end 512 start size

-- The answer is 0, and the memory outside the temporary buffer and the medium are as given.
abbrev pub Transferred : ℕ × Machine → ℕ → ℕ → ℕ → Mem → Mem → Type 0
Transferred answer dev tbuffer size memory disk =
    (answer.0 ≡ 0)
    × Ready (answer.1) dev
    × ((a : ℕ)
        → masked tbuffer (size + 1024) ((answer.1).memory) a
          ≡ masked tbuffer (size + 1024) memory a)
    × ((a : ℕ) → ((answer.1).block_devices dev).disk a ≡ disk a)

module _ (serve : ℕ → ℕ → ℕ → ℕ → Mem → Mem → Mem × Mem) (translate : ℕ → ℕ) (capacity : ℕ)
    (device : IsVirtioBlock capacity serve) (tbuffer brq : ℕ) (s : Machine)
    (dev buffer start size : ℕ) (ready : Ready s dev) (mapped : translate tbuffer ≡ tbuffer)
    (asked : Asked capacity tbuffer buffer start size) where
  n : ℕ
  n = high start size - low start

  cleared : Machine
  unfolding n
  cleared = map_memory (λ m. memset m tbuffer 0 n) s

  around : ℕ × Machine
  unfolding cleared
  around =
      block_read_write serve translate brq cleared dev tbuffer (low start) (high start size) false

  abbrev copied : Machine → Machine
  copied = map_memory (λ m. memcpy m buffer (tbuffer + (start - low start)) size)

  filled : Machine
  filled = map_memory (λ m. memcpy m (tbuffer + (start - low start)) buffer size) (around.1)

  written : ℕ × Machine
  unfolding filled
  written =
      block_read_write serve translate brq filled dev tbuffer (low start) (high start size) true
