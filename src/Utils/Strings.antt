-- ===== src/Utils/Strings.antt =====
-- The string functions of src/utils.c that write: strings are bytes of memory up to a NUL. Fuel is
-- given for the recursion along a string; addresses are 64-bit words.
pub mod Prepend
mod Tests
use ducreu_os.Base.{
  ℕ, zero, suc, ◌+◌, ◌%◌, ◌^◌, Option, none, some, ◌>>=◌, ◌==◌, ◌||◌, if◌then◌else◌,
}
use ducreu_os.Base.Memory.{Mem, store}

-- `mstrlen` at an address
pub length_at : ℕ → Mem → ℕ → Option ℕ
length_at zero m a = none
length_at (suc n) m a =
    if m a == 0 then some 0 else do rest ← length_at n m ((a + 1) % 2 ^ 64); some (1 + rest)

-- A NULL pointer is reported and nothing is copied.
pub mstrcpy : ℕ → Mem → ℕ → ℕ → Option Mem
mstrcpy zero m dest src = none
mstrcpy (suc n) m dest src =
    let copied = store m dest (m src) in
    let rest = mstrcpy n copied ((dest + 1) % 2 ^ 64) ((src + 1) % 2 ^ 64) in
    if (dest == 0) || (src == 0) then some m else if m src == 0 then some copied else rest

-- `for(i = lenb; i >= 0; i--) b[i+lena] = b[i];`
pub shift_up : ℕ → Mem → ℕ → ℕ → Mem
shift_up zero m b lena = store m (b + lena) (m b)
shift_up (suc i) m b lena = shift_up i (store m (b + suc i + lena) (m (b + suc i))) b lena

-- `n` rounds of `b[i] = a[i];`, on the pointers to the next characters
pub copy_front : ℕ → Mem → ℕ → ℕ → Mem
copy_front zero m a b = m
copy_front (suc n) m a b = copy_front n (store m b (m a)) (a + 1) (b + 1)

pub mstrtac : ℕ → Mem → ℕ → ℕ → Option Mem
unfolding length_at shift_up copy_front
mstrtac fuel m a b = if (a == 0) || (b == 0) then some m else do
  lena ← length_at fuel m a
  lenb ← length_at fuel m b
  some (copy_front lena (shift_up lenb m b lena) a b)
