-- ===== src/Base/Memory.antt =====
-- Byte-addressed memory.
use Prim.Native.Nat.{ℕ, ◌+◌, ◌-◌}
use mathlib.Core.Bool.{Bool, ◌&&◌}
use ducreu_os.Base.Tests.{◌==◌, leb, ltb, if◌then◌else◌}

-- the byte at each address
abbrev pub Mem : Type 0
Mem = ℕ → ℕ

-- a store of one byte
abbrev pub store : Mem → ℕ → ℕ → Mem
store m a v b = if b == a then v else m b

-- the address lies in the `n` bytes from `base` on
abbrev pub within : ℕ → ℕ → ℕ → Bool
within base n a = leb base a && ltb a (base + n)

-- a store of the eight bytes `w 0`, …, `w 7` of a `long`
abbrev pub store_long : Mem → ℕ → (ℕ → ℕ) → Mem
store_long m a w b = if within a 8 b then w (b - a) else m b

-- `to` with the `n` bytes of `from` at `start` in place of its bytes at `base`
abbrev pub blit : Mem → ℕ → Mem → ℕ → ℕ → Mem
blit to base from start n a = if within base n a then from (start + (a - base)) else to a

-- a memory whose `n` bytes from `base` on do not count
abbrev pub masked : ℕ → ℕ → Mem → Mem
masked base n m a = if within base n a then 0 else m a
