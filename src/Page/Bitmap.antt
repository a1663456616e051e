-- ===== src/Page/Bitmap.antt =====
-- The two bits of a page in src/page.c: what each write changes, and that it changes nothing else.
use ducreu_os.Base.{
  ℕ, zero, suc, ◌+◌, ◌*◌, ◌/◌, ◌%◌, ◌≡◌, refl, ◌<◌, ◌&&◌, ◌==◌, if◌then◌else◌, arith,
}
use ducreu_os.Base.Memory.{Mem, within}
use ducreu_os.Base.Bits.{get_bit-or_bit, get_bit-clear_bit, get_bit-lt, or_bit-lt, clear_bit-lt}
use ducreu_os.Page.{
  is_taken, is_last, set_taken, clear_taken, set_last, clear_last, take_pages, close_previous,
}

-- every byte of the memory is a byte
abbrev pub IsBytes : Mem → Type 0
IsBytes m = (a : ℕ) → m a < 256

pub set_taken-IsBytes : (m : Mem) (s p : ℕ) → IsBytes m → IsBytes (set_taken m s p)
unfolding set_taken
set_taken-IsBytes m s p bytes a =
    ground (arith, bytes a, or_bit-lt (m (s + p / 4)) (2 * (p % 4)) (bytes (s + p / 4)))

pub clear_taken-IsBytes : (m : Mem) (s p : ℕ) → IsBytes m → IsBytes (clear_taken m s p)
unfolding clear_taken
clear_taken-IsBytes m s p bytes a =
    ground (arith, bytes a, clear_bit-lt (m (s + p / 4)) (2 * (p % 4)) (bytes (s + p / 4)))

pub set_last-IsBytes : (m : Mem) (s p : ℕ) → IsBytes m → IsBytes (set_last m s p)
unfolding set_last
set_last-IsBytes m s p bytes a =
    ground (arith, bytes a, or_bit-lt (m (s + p / 4)) (2 * (p % 4) + 1) (bytes (s + p / 4)))

pub clear_last-IsBytes : (m : Mem) (s p : ℕ) → IsBytes m → IsBytes (clear_last m s p)
unfolding clear_last
clear_last-IsBytes m s p bytes a =
    ground (arith, bytes a, clear_bit-lt (m (s + p / 4)) (2 * (p % 4) + 1) (bytes (s + p / 4)))

module _ (m : Mem) (s p q : ℕ) (bytes : IsBytes m) where
  pub is_taken-set_taken : is_taken (set_taken m s p) s q ≡ (if q == p then 1 else is_taken m s q)
  unfolding is_taken set_taken
  is_taken-set_taken =
      ground (arith, get_bit-or_bit (m (s + q / 4)) (2 * (p % 4)) (2 * (q % 4)) (bytes (s + q / 4)))

  pub is_last-set_taken : is_last (set_taken m s p) s q ≡ is_last m s q
  unfolding is_last set_taken
  is_last-set_taken =
      ground
        (arith, get_bit-or_bit (m (s + q / 4)) (2 * (p % 4)) (2 * (q % 4) + 1) (bytes (s + q / 4)))

  pub is_taken-clear_taken :
      is_taken (clear_taken m s p) s q ≡ (if q == p then 0 else is_taken m s q)
  unfolding is_taken clear_taken
  is_taken-clear_taken =
      ground
        (arith, get_bit-clear_bit (m (s + q / 4)) (2 * (p % 4)) (2 * (q % 4)) (bytes (s + q / 4)))

  pub is_last-clear_taken : is_last (clear_taken m s p) s q ≡ is_last m s q
  unfolding is_last clear_taken
  is_last-clear_taken =
      ground (
        arith,
        get_bit-clear_bit (m (s + q / 4)) (2 * (p % 4)) (2 * (q % 4) + 1) (bytes (s + q / 4)),
      )

  pub is_taken-set_last : is_taken (set_last m s p) s q ≡ is_taken m s q
  unfolding is_taken set_last
  is_taken-set_last =
      ground
        (arith, get_bit-or_bit (m (s + q / 4)) (2 * (p % 4) + 1) (2 * (q % 4)) (bytes (s + q / 4)))

  pub is_last-set_last : is_last (set_last m s p) s q ≡ (if q == p then 1 else is_last m s q)
  unfolding is_last set_last
  is_last-set_last = ground (
    arith,
    get_bit-or_bit (m (s + q / 4)) (2 * (p % 4) + 1) (2 * (q % 4) + 1) (bytes (s + q / 4)),
  )

  pub is_taken-clear_last : is_taken (clear_last m s p) s q ≡ is_taken m s q
  unfolding is_taken clear_last
  is_taken-clear_last =
      ground (
        arith,
        get_bit-clear_bit (m (s + q / 4)) (2 * (p % 4) + 1) (2 * (q % 4)) (bytes (s + q / 4)),
      )

  pub is_last-clear_last : is_last (clear_last m s p) s q ≡ (if q == p then 0 else is_last m s q)
  unfolding is_last clear_last
  is_last-clear_last = ground (
    arith,
    get_bit-clear_bit (m (s + q / 4)) (2 * (p % 4) + 1) (2 * (q % 4) + 1) (bytes (s + q / 4)),
  )

pub is_taken-lt : (m : Mem) (s p : ℕ) → is_taken m s p < 2
unfolding is_taken
is_taken-lt m s p = get_bit-lt _ _

pub is_last-lt : (m : Mem) (s p : ℕ) → is_last m s p < 2
unfolding is_last
is_last-lt m s p = get_bit-lt _ _

-- The loop over the pages of a new block.
pub take_pages-IsBytes : (n : ℕ) (m : Mem) (s i : ℕ) → IsBytes m → IsBytes (take_pages n m s i)
unfolding take_pages
take_pages-IsBytes zero m s i bytes = bytes
take_pages-IsBytes (suc n) m s i bytes =
    take_pages-IsBytes n (set_taken m s i) s (i + 1) (set_taken-IsBytes m s i bytes)

pub is_taken-take_pages :
    (n : ℕ) (m : Mem) (s i q : ℕ)
    → IsBytes m
    → is_taken (take_pages n m s i) s q ≡ (if within i n q then 1 else is_taken m s q)
unfolding take_pages
is_taken-take_pages zero m s i q bytes = ground arith
is_taken-take_pages (suc n) m s i q bytes = ground (
  arith,
  is_taken-set_taken m s i q bytes,
  is_taken-take_pages n (set_taken m s i) s (i + 1) q (set_taken-IsBytes m s i bytes),
)

pub is_last-take_pages :
    (n : ℕ) (m : Mem) (s i q : ℕ) → IsBytes m → is_last (take_pages n m s i) s q ≡ is_last m s q
unfolding take_pages
is_last-take_pages zero m s i q bytes = refl
is_last-take_pages (suc n) m s i q bytes = ground (
  arith,
  is_last-set_taken m s i q bytes,
  is_last-take_pages n (set_taken m s i) s (i + 1) q (set_taken-IsBytes m s i bytes),
)

-- Cutting a block short marks the page before the cut, if that page is taken.
pub close_previous-IsBytes : (m : Mem) (s p : ℕ) → IsBytes m → IsBytes (close_previous m s p)
unfolding close_previous
close_previous-IsBytes m s p bytes a = ground (arith, bytes a, set_last-IsBytes m s p bytes a)

pub is_taken-close_previous :
    (m : Mem) (s p q : ℕ) → IsBytes m → is_taken (close_previous m s p) s q ≡ is_taken m s q
unfolding close_previous
is_taken-close_previous m s p q bytes = ground (arith, is_taken-set_last m s p q bytes)

pub is_last-close_previous :
    (m : Mem) (s p q : ℕ)
    → IsBytes m
    → is_last (close_previous m s p) s q
      ≡ (if q == p && is_taken m s p == 1 then 1 else is_last m s q)
unfolding close_previous
is_last-close_previous m s p q bytes =
    ground (arith, is_last-set_last m s p q bytes, is_taken-lt m s p)
