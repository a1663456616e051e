-- ===== src/Page/Init.antt =====
-- `page_init` of src/page.c leaves a well-formed heap whose bookkeeping pages are one block.
use ducreu_os.Base.{
  ℕ, ◌+◌, ◌-◌, ◌*◌, ◌/◌, ◌%◌, ◌≡◌, ap, ◌∙◌, ◌<◌, ◌≤◌, ◌==◌, ltb, if◌then◌else◌, some, arith,
}
use ducreu_os.Base.Memory.{Mem}
use ducreu_os.Base.Bits.{get_bit, get_bit-zero}
use ducreu_os.Utils.Memory.{memset}
use ducreu_os.Utils.Memory.Fill.{memset-within}
use ducreu_os.Page.{
  is_taken, is_last, set_last, take_pages, page_init, page_size, round_up, total_pages,
}
use ducreu_os.Page.Bitmap.{
  IsBytes, set_last-IsBytes, is_taken-set_last, is_last-set_last, take_pages-IsBytes,
  is_taken-take_pages, is_last-take_pages,
}
use ducreu_os.Page.WellFormed.{IsWellFormed}

module _ (start stop : ℕ) (m : Mem) (bytes : IsBytes m) where
  -- the number of bookkeeping pages
  abbrev pub book : ℕ
  book = round_up (total_pages start stop / 4) / page_size

  abbrev pub cleared : Mem
  cleared = memset m start 0 (total_pages start stop / 4)

  abbrev pub ready : Mem
  ready = set_last (take_pages book cleared start 0) start (book - 1)

  cleared-IsBytes : IsBytes cleared
  cleared-IsBytes a =
      ground (arith, memset-within m start 0 (total_pages start stop / 4) a, bytes a)

  cleared_zero : (q : ℕ) → q / 4 < total_pages start stop / 4 → cleared (start + q / 4) ≡ 0
  cleared_zero q lt =
      ground (arith, memset-within m start 0 (total_pages start stop / 4) (start + q / 4))

  cleared_taken : (q : ℕ) → q / 4 < total_pages start stop / 4 → is_taken cleared start q ≡ 0
  unfolding is_taken
  cleared_taken q lt =
      ap (λ b. get_bit b (2 * (q % 4))) (cleared_zero q lt) ∙ get_bit-zero (2 * (q % 4))

  cleared_last : (q : ℕ) → q / 4 < total_pages start stop / 4 → is_last cleared start q ≡ 0
  unfolding is_last
  cleared_last q lt =
      ap (λ b. get_bit b (2 * (q % 4) + 1)) (cleared_zero q lt) ∙ get_bit-zero (2 * (q % 4) + 1)

  ready_taken :
      (q : ℕ)
      → q / 4 < total_pages start stop / 4
      → is_taken ready start q ≡ (if ltb q book then 1 else 0)
  ready_taken q lt = ground (
    arith,
    cleared_taken q lt,
    is_taken-set_last (take_pages book cleared start 0) start (book - 1) q
        (take_pages-IsBytes book cleared start 0 cleared-IsBytes),
    is_taken-take_pages book cleared start 0 q cleared-IsBytes,
  )

  ready_last :
      (q : ℕ)
      → q / 4 < total_pages start stop / 4
      → is_last ready start q ≡ (if q == book - 1 then 1 else 0)
  ready_last q lt = ground (
    arith,
    cleared_last q lt,
    is_last-set_last (take_pages book cleared start 0) start (book - 1) q
        (take_pages-IsBytes book cleared start 0 cleared-IsBytes),
    is_last-take_pages book cleared start 0 q cleared-IsBytes,
  )

  module _ (big : 4 ≤ total_pages start stop) (even : total_pages start stop % 4 ≡ 0) where
    pub ready-IsWellFormed : IsWellFormed ready start (total_pages start stop)
    ready-IsWellFormed = record {
      bytes =
          set_last-IsBytes (take_pages book cleared start 0) start (book - 1)
            (take_pages-IsBytes book cleared start 0 cleared-IsBytes);
      first_taken = ground (arith, ready_taken 0);
      last_taken = λ p lt e. ground (arith, ready_taken p, ready_last p);
      next_in = λ p lt t e. ground (arith, ready_taken p, ready_last p);
      next_taken = λ p lt t e. ground (arith, ready_taken p, ready_last p, ready_taken (p + 1));
    }

    ready_lem : page_init start stop m ≡ some ready
    unfolding page_init
    ready_lem = ground arith

    -- On a heap of at least four pages, their number a multiple of four, page_init succeeds: the
    -- pages that hold the bits are taken, every other page is free, and the heap is well formed.
    pub page_init-IsWellFormed :
        (m' : Mem) × (page_init start stop m ≡ some m')
        × IsWellFormed m' start (total_pages start stop)
        × ((q : ℕ)
            → q < total_pages start stop
            → is_taken m' start q ≡ (if ltb q book then 1 else 0))
    page_init-IsWellFormed =
        (ready, ready_lem, ready-IsWellFormed, λ q lt. ready_taken q (omega arith))
