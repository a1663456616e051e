-- ===== src/Utils/Memory/Copy.antt =====
-- `memcpy` and `memcmp` of src/utils.c.
use ducreu_os.Base.{
  ℕ, zero, suc, ◌+◌, ◌-◌, ◌*◌, ◌/◌, ◌%◌, ◌≡◌, ◌≤◌, ◌<◌, ◌⊎◌, ◌↔◌, if◌then◌else◌, arith, refl,
}
use ducreu_os.Base.Memory.{Mem, store, store_long, within}
use ducreu_os.Utils.Memory.{copy_longs, copy_chars, memcpy, memcmp_loop, memcmp}

-- the two blocks share no byte
abbrev pub Apart : ℕ → ℕ → ℕ → Type 0
Apart dst src size = (dst + size ≤ src) ⊎ (src + size ≤ dst)

copy_longs-within :
    (n : ℕ) (m : Mem) (dst src a : ℕ)
    → Apart dst src (8 * n)
    → copy_longs n m dst src a ≡ (if within dst (8 * n) a then m (src + (a - dst)) else m a)
unfolding copy_longs
copy_longs-within zero m dst src a h = ground arith
copy_longs-within (suc n) m dst src a h =
    ground (arith, copy_longs-within n (store_long m dst (λ k. m (src + k))) (dst + 8) (src + 8) a)

copy_chars-within :
    (n : ℕ) (m : Mem) (dst src a : ℕ)
    → Apart dst src n
    → copy_chars n m dst src a ≡ (if within dst n a then m (src + (a - dst)) else m a)
unfolding copy_chars
copy_chars-within zero m dst src a h = ground arith
copy_chars-within (suc n) m dst src a h =
    ground (arith, copy_chars-within n (store m dst (m src)) (dst + 1) (src + 1) a)

-- Between blocks that share no byte, memcpy leaves the source's bytes at the destination and every
-- other byte as before.
pub memcpy-within :
    (m : Mem) (dst src size a : ℕ)
    → Apart dst src size
    → memcpy m dst src size a ≡ (if within dst size a then m (src + (a - dst)) else m a)
unfolding memcpy
memcpy-within m dst src size a h = ground (
  arith,
  copy_chars-within (size % 8) (copy_longs (size / 8) m dst src) (dst + 8 * (size / 8))
      (src + 8 * (size / 8)) a,
  copy_longs-within (size / 8) m dst src a,
  copy_longs-within (size / 8) m dst src (src + 8 * (size / 8) + (a - (dst + 8 * (size / 8)))),
)

-- the first `n` bytes of two blocks agree
abbrev pub Same : ℕ → Mem → ℕ → ℕ → Type 0
Same n m hay need = (i : ℕ) → i < n → m (hay + i) ≡ m (need + i)

Same-tail :
    (n : ℕ) (m : Mem) (hay need : ℕ) → Same (suc n) m hay need → Same n m (hay + 1) (need + 1)
Same-tail n m hay need all i h = ground (arith, all (suc i))

Same-cons :
    (n : ℕ) (m : Mem) (hay need : ℕ)
    → m hay ≡ m need
    → Same n m (hay + 1) (need + 1)
    → Same (suc n) m hay need
Same-cons n m hay need e all zero h = ground arith
Same-cons n m hay need e all (suc i) h = ground (arith, all i)

memcmp_loop-Same :
    (n : ℕ) (m : Mem) (hay need : ℕ) → memcmp_loop n m hay need ≡ 1 → Same n m hay need
unfolding memcmp_loop
memcmp_loop-Same zero m hay need e = λ i h. elim h [ ]
memcmp_loop-Same (suc n) m hay need e =
    Same-cons n m hay need (ground arith) (memcmp_loop-Same n m (hay + 1) (need + 1) (ground arith))

Same-memcmp_loop :
    (n : ℕ) (m : Mem) (hay need : ℕ) → Same n m hay need → memcmp_loop n m hay need ≡ 1
unfolding memcmp_loop
Same-memcmp_loop zero m hay need all = refl
Same-memcmp_loop (suc n) m hay need all =
    ground (arith, all 0, Same-memcmp_loop n m (hay + 1) (need + 1) (Same-tail n m hay need all))

-- memcmp answers 1 exactly when the two blocks hold the same bytes.
pub memcmp-Same :
    (m : Mem) (hay need size : ℕ) → (memcmp m hay need size ≡ 1) ↔ Same size m hay need
unfolding memcmp
memcmp-Same m hay need size = (memcmp_loop-Same size m hay need, Same-memcmp_loop size m hay need)
