-- ===== src/Page/Tests.antt =====
-- src/page.c on a heap of forty pages at address 0, and the theorems at that heap.
use ducreu_os.Base.{ℕ, ◌+◌, ◌≡◌, refl, ◌<◌, ◌≤◌, ◌⊎◌, ltb, if◌then◌else◌, some, none, arith}
use ducreu_os.Base.Memory.{Mem}
use mathlib.Core.Path.{subst}
use ducreu_os.Base.Bits.{get_bit, or_bit, clear_bit}
use ducreu_os.Utils.Memory.{memset}
use ducreu_os.Page.{
  is_taken, is_last, page_init, page_znalloc, page_free, done, find_run, total_pages, page_address,
  set_taken, set_last, clear_taken, clear_last,
}
use ducreu_os.Page.Bitmap.{IsBytes}
use ducreu_os.Page.Search.{First, FreeRun, find_run-First}
use ducreu_os.Page.WellFormed.{IsWellFormed, Block}
use ducreu_os.Page.Init.{ready, ready-IsWellFormed, page_init-IsWellFormed}
use ducreu_os.Page.Alloc.{
  Allocated, written, written-Allocated, znalloc_cases, znalloc-IsWellFormed, pages_up_to,
  end_address, page_znalloc-overrun,
}
use ducreu_os.Page.Free.{FreedFrom, page_free-FreedFrom}
use ducreu_os.Page.RoundTrip.{free_alloc}

abbrev stop : ℕ
stop = 163840

abbrev blank : Mem
blank a = 0

blank-IsBytes : IsBytes blank
blank-IsBytes a = omega arith

abbrev heap : Mem
heap = ready 0 stop blank blank-IsBytes

heap-IsWellFormed : IsWellFormed heap 0 (total_pages 0 stop)
heap-IsWellFormed = ready-IsWellFormed 0 stop blank blank-IsBytes (omega arith) refl

page_init-IsWellFormed_example :
    (m' : Mem) × (page_init 0 stop blank ≡ some m')
    × IsWellFormed m' 0 40
    × ((q : ℕ) → q < 40 → is_taken m' 0 q ≡ (if ltb q 1 then 1 else 0))
page_init-IsWellFormed_example =
    page_init-IsWellFormed 0 stop blank blank-IsBytes (omega arith) refl

three_pages : find_run 4 heap 0 3 40 0 ≡ some (1, 3)
unfolding page_znalloc is_taken set_taken set_last memset get_bit or_bit
three_pages = refl

-- the heap after an allocation of three pages
abbrev after : Mem
after = written 0 stop heap 3 1 3

First-three : First heap 0 3 40 0 1 3 × (1 < 0 + 4)
First-three = find_run-First 4 heap 0 3 40 0 three_pages

after-Allocated : Allocated 0 stop heap 3 1 after
after-Allocated =
    written-Allocated 0 stop heap 3 1 3 heap-IsWellFormed.bytes heap-IsWellFormed.first_taken
      First-three.0 (omega arith)

three_pages_taken : page_znalloc 0 stop heap 3 ≡ (some 8192, after)
unfolding page_znalloc is_taken set_taken set_last memset get_bit or_bit
three_pages_taken = refl

after-IsWellFormed : IsWellFormed after 0 40
after-IsWellFormed =
    subst (λ r. IsWellFormed r.1 0 40) three_pages_taken
      (znalloc-IsWellFormed 0 stop heap 3 heap-IsWellFormed)

page_two : is_taken after 0 2 ≡ 1
unfolding page_znalloc is_taken set_taken set_last memset get_bit or_bit
page_two = refl

-- Freeing the middle page of the three leaves the first as a block of its own.
cut_short :
    (m' : Mem) × (page_free 0 stop after 12288 ≡ done m')
    × (is_taken m' 0 1 ≡ 1)
    × (is_last m' 0 1 ≡ 1)
    × (is_taken m' 0 2 ≡ 0)
    × (is_taken m' 0 3 ≡ 0)
unfolding page_znalloc page_free is_taken is_last set_taken clear_taken clear_last set_last memset
    get_bit or_bit clear_bit
cut_short = (_, refl, refl, refl, refl, refl)

znalloc_cases_example :
    ((page_znalloc 0 stop heap 3 ≡ (none, heap)) × ((i : ℕ) → i < 4 → ¬ (FreeRun heap 0 3 40 i)))
    ⊎ ((i : ℕ) × (m' : Mem) × (page_znalloc 0 stop heap 3 ≡ (some (page_address 0 stop i), m'))
        × Allocated 0 stop heap 3 i m')
znalloc_cases_example =
    znalloc_cases 0 stop heap 3 heap-IsWellFormed.bytes heap-IsWellFormed.first_taken

-- Pages 1 to 39 are free: a request for all of them succeeds, and ends behind the heap.
all_pages : find_run 4 heap 0 39 40 0 ≡ some (1, 39)
unfolding page_znalloc is_taken set_taken set_last memset get_bit or_bit
all_pages = refl

all_pages_end : stop < end_address 0 stop 39 1
all_pages_end = omega arith

page_znalloc-overrun_example :
    (page_znalloc 0 stop heap 39 ≡ (none, heap))
    ⊎ ((i : ℕ) × (m' : Mem) × (page_znalloc 0 stop heap 39 ≡ (some (page_address 0 stop i), m'))
        × (0 < i)
        × (pages_up_to 0 stop 39 i ≤ 40 → end_address 0 stop 39 i ≤ stop)
        × (40 < pages_up_to 0 stop 39 i
            → (stop < end_address 0 stop 39 i)
              × ((a : ℕ) → stop ≤ a → a < end_address 0 stop 39 i → m' a ≡ 0)))
page_znalloc-overrun_example =
    page_znalloc-overrun 0 stop 39 heap (omega arith) heap-IsWellFormed.bytes
      heap-IsWellFormed.first_taken

page_free-FreedFrom_example :
    (k : ℕ) × (m' : Mem) × Block after 0 2 k
    × (page_free 0 stop after (page_address 0 stop 2) ≡ done m')
    × FreedFrom after 0 2 k m'
    × IsWellFormed m' 0 40
page_free-FreedFrom_example =
    page_free-FreedFrom 0 stop after 2 after-IsWellFormed (omega arith) (omega arith) (omega arith)
      (omega arith) (omega arith) page_two

free_alloc_example :
    (m'' : Mem) × (page_free 0 stop after (page_address 0 stop 1) ≡ done m'')
    × ((q : ℕ)
        → q < 40
        → (is_taken m'' 0 q ≡ is_taken heap 0 q) × (is_last m'' 0 q ≡ is_last heap 0 q))
free_alloc_example =
    free_alloc 0 stop heap 3 1 after heap-IsWellFormed after-Allocated (omega arith) (omega arith)
      (omega arith)
