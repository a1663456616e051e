-- ===== src/Utils/Memory.antt =====
-- `memset`, `memcpy` and `memcmp` of src/utils.c: eight bytes at a time, then one at a time. A
-- size is a nonnegative `int`.
pub mod Fill
pub mod Copy
mod Tests
use ducreu_os.Base.{ℕ, zero, suc, ◌+◌, ◌*◌, ◌/◌, ◌%◌, true, false, ◌==◌}
use ducreu_os.Base.Memory.{Mem, store, store_long}

set_longs : ℕ → Mem → ℕ → ℕ → Mem
set_longs zero m dst v = m
set_longs (suc n) m dst v = set_longs n (store_long m dst (λ _. v)) (dst + 8) v

set_chars : ℕ → Mem → ℕ → ℕ → Mem
set_chars zero m dst v = m
set_chars (suc n) m dst v = set_chars n (store m dst v) (dst + 1) v

unfoldable pub memset : Mem → ℕ → ℕ → ℕ → Mem
unfolding set_longs set_chars
memset m dst v size = set_chars (size % 8) (set_longs (size / 8) m dst v) (dst + 8 * (size / 8)) v

copy_longs : ℕ → Mem → ℕ → ℕ → Mem
copy_longs zero m dst src = m
copy_longs (suc n) m dst src =
    copy_longs n (store_long m dst (λ k. m (src + k))) (dst + 8) (src + 8)

copy_chars : ℕ → Mem → ℕ → ℕ → Mem
copy_chars zero m dst src = m
copy_chars (suc n) m dst src = copy_chars n (store m dst (m src)) (dst + 1) (src + 1)

unfoldable pub memcpy : Mem → ℕ → ℕ → ℕ → Mem
unfolding copy_longs copy_chars
memcpy m dst src size =
    copy_chars (size % 8) (copy_longs (size / 8) m dst src) (dst + 8 * (size / 8))
      (src + 8 * (size / 8))

-- 1 for equal blocks, 0 at the first difference; the rounds left are the first argument.
memcmp_loop : ℕ → Mem → ℕ → ℕ → ℕ
memcmp_loop zero m hay need = 1
memcmp_loop (suc n) m hay need = elim (m hay == m need) [
  | true ↦ memcmp_loop n m (hay + 1) (need + 1)
  | false ↦ 0
]

unfoldable pub memcmp : Mem → ℕ → ℕ → ℕ → ℕ
unfolding memcmp_loop
memcmp m hay need size = memcmp_loop size m hay need
