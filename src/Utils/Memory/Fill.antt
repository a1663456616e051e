-- ===== src/Utils/Memory/Fill.antt =====
-- `memset` of src/utils.c fills its block and nothing else.
use ducreu_os.Base.{ℕ, zero, suc, ◌+◌, ◌*◌, ◌/◌, ◌%◌, ◌≡◌, if◌then◌else◌, arith}
use ducreu_os.Base.Memory.{Mem, store, store_long, within}
use ducreu_os.Utils.Memory.{set_longs, set_chars, memset}

set_longs-within :
    (n : ℕ) (m : Mem) (dst v a : ℕ)
    → set_longs n m dst v a ≡ (if within dst (8 * n) a then v else m a)
unfolding set_longs
set_longs-within zero m dst v a = ground arith
set_longs-within (suc n) m dst v a =
    ground (arith, set_longs-within n (store_long m dst (λ _. v)) (dst + 8) v a)

set_chars-within :
    (n : ℕ) (m : Mem) (dst v a : ℕ) → set_chars n m dst v a ≡ (if within dst n a then v else m a)
unfolding set_chars
set_chars-within zero m dst v a = ground arith
set_chars-within (suc n) m dst v a =
    ground (arith, set_chars-within n (store m dst v) (dst + 1) v a)

-- After a memset of `size` bytes every byte of the block is `v` and every other byte is as before.
pub memset-within :
    (m : Mem) (dst v size a : ℕ) → memset m dst v size a ≡ (if within dst size a then v else m a)
unfolding memset
memset-within m dst v size a = ground (
  arith,
  set_chars-within (size % 8) (set_longs (size / 8) m dst v) (dst + 8 * (size / 8)) v a,
  set_longs-within (size / 8) m dst v a,
)
