-- ===== src/Page.antt =====
-- src/page.c: the page allocator. Two bits for each page of the heap, `taken` and `last`, stand in
-- the bytes at the start of the heap; a block of pages ends at its first `last` page.
-- Addresses and sizes are `uint64_t`, page numbers `int`s; `sym_start(heap)` and `sym_end(heap)`
-- are the parameters `start` and `stop`. Console output is not modelled.
pub mod Bitmap
pub mod Search
pub mod WellFormed
pub mod Alloc
pub mod Init
pub mod Free
pub mod RoundTrip
mod Tests
use ducreu_os.Base.{
  ℕ, zero, suc, ◌+◌, ◌-◌, ◌*◌, ◌/◌, ◌%◌, ◌^◌, Option, none, some, true, false, ◌==◌, ◌||◌, leb, ltb,
  if◌then◌else◌,
}
use ducreu_os.Base.Memory.{Mem, store}
use ducreu_os.Base.Bits.{get_bit, or_bit, clear_bit}
use ducreu_os.Utils.Memory.{memset}

abbrev pub page_size : ℕ
page_size = 4096

pub is_taken : Mem → ℕ → ℕ → ℕ
is_taken m begin page_n = get_bit (m (begin + page_n / 4)) (2 * (page_n % 4))

pub clear_taken : Mem → ℕ → ℕ → Mem
clear_taken m begin page_n =
    store m (begin + page_n / 4) (clear_bit (m (begin + page_n / 4)) (2 * (page_n % 4)))

pub set_taken : Mem → ℕ → ℕ → Mem
set_taken m begin page_n =
    store m (begin + page_n / 4) (or_bit (m (begin + page_n / 4)) (2 * (page_n % 4)))

pub is_last : Mem → ℕ → ℕ → ℕ
is_last m begin page_n = get_bit (m (begin + page_n / 4)) (2 * (page_n % 4) + 1)

pub clear_last : Mem → ℕ → ℕ → Mem
clear_last m begin page_n =
    store m (begin + page_n / 4) (clear_bit (m (begin + page_n / 4)) (2 * (page_n % 4) + 1))

pub set_last : Mem → ℕ → ℕ → Mem
set_last m begin page_n =
    store m (begin + page_n / 4) (or_bit (m (begin + page_n / 4)) (2 * (page_n % 4) + 1))

-- `(x + PAGE_SIZE - 1) & (-PAGE_SIZE)`
abbrev pub round_up : ℕ → ℕ
round_up x = (x + page_size - 1) / page_size * page_size

-- `for(j = 0; j < n; j++) set_taken(begin, i+j);`, from page `i` on
pub take_pages : ℕ → Mem → ℕ → ℕ → Mem
take_pages zero m begin i = m
take_pages (suc n) m begin i = take_pages n (set_taken m begin i) begin (i + 1)

-- `page_init`; `none` where the heap has no bookkeeping page, since `set_last` then shifts by a
-- negative amount.
pub page_init : ℕ → ℕ → Mem → Option Mem
unfolding take_pages
page_init start stop m =
    let bytes = (stop - start) / page_size / 4 in
    let pages = round_up bytes / page_size in
    if pages == 0
    then none
    else some (set_last (take_pages pages (memset m start 0 bytes) start 0) start (pages - 1))

-- The inner loop of `page_znalloc`: does a run of `n` free pages start here? The rounds left up to
-- the end of the heap are the first argument; the answer is the number of pages to take.
pub run_from : ℕ → Mem → ℕ → ℕ → ℕ → ℕ → Option ℕ
run_from zero m begin n j consecutive = none
run_from (suc rounds) m begin n j consecutive = elim (is_taken m begin j == 0) [
  | false ↦ none
  | true ↦ elim (leb n (consecutive + 1)) [
    | true ↦ some (consecutive + 1)
    | false ↦ run_from rounds m begin n (j + 1) (consecutive + 1)
  ]
]

-- The outer loop: the first page with such a run and the number of pages. A page that is taken
-- starts no run.
pub find_run : ℕ → Mem → ℕ → ℕ → ℕ → ℕ → Option (ℕ × ℕ)
find_run zero m begin n total i = none
find_run (suc rounds) m begin n total i = elim (is_taken m begin i == 0) [
  | false ↦ find_run rounds m begin n total (i + 1)
  | true ↦ elim (run_from (total - i) m begin n i 0) [
    | some consecutive ↦ some (i, consecutive)
    | none ↦ find_run rounds m begin n total (i + 1)
  ]
]

abbrev pub total_pages : ℕ → ℕ → ℕ
total_pages start stop = (stop - start) / page_size

-- the address of page `i`, as `page_znalloc` computes it
abbrev pub page_address : ℕ → ℕ → ℕ → ℕ
page_address start stop i = start + round_up (total_pages start stop / 4) + page_size * i

-- `page_znalloc`: the address of the zeroed pages, or NULL, and the memory
pub page_znalloc : ℕ → ℕ → Mem → ℕ → (Option ℕ × Mem)
unfolding run_from find_run take_pages
page_znalloc start stop m n =
    let total = total_pages start stop in
    elim (find_run (total / 10) m start n total 0) [
      | none ↦ (none, m)
      | some (i, consecutive) ↦ (
        some (page_address start stop i),
        memset (set_last (take_pages consecutive m start i) start (i + consecutive - 1))
            (page_address start stop i) 0 (page_size * consecutive),
      )
    ]

pub page_zalloc : ℕ → ℕ → Mem → (Option ℕ × Mem)
page_zalloc start stop m = page_znalloc start stop m 1

-- How `page_free` ends. `unknown` stands for a page number outside the `int`s, where the shifts of
-- the bit operations are undefined, and for a loop that has used its fuel.
pub data Freed : Type 0 where
  done : Mem → Freed
  not_in_heap : Freed
  double_free : Mem → Freed
  unknown : Freed

-- the `do … while(1)` of `page_free`, on fuel
pub free_loop : ℕ → Mem → ℕ → ℕ → Freed
free_loop zero m begin location = unknown
free_loop (suc fuel) m begin location = elim (is_taken m begin location == 0) [
  | true ↦ double_free m
  | false ↦ elim (is_last m begin location == 0) [
    | false ↦ done (clear_last (clear_taken m begin location) begin location)
    | true ↦ free_loop fuel (clear_taken m begin location) begin (location + 1)
  ]
]

-- the page before a block that is cut short becomes the last of its own
pub close_previous : Mem → ℕ → ℕ → Mem
close_previous m begin previous =
    if is_taken m begin previous == 0 then m else set_last m begin previous

-- the page number that `page_free` computes from an address
abbrev pub location_of : ℕ → ℕ → ℕ → ℕ
location_of start stop page =
    (page + 2 * 2 ^ 64 - total_pages start stop / 4 - start) % 2 ^ 64 / page_size

-- `page_free` from its range check on; the loop gets a round for each page of the heap.
free_at : ℕ → ℕ → Mem → ℕ → ℕ → Freed
free_at start stop m page location =
    if ltb page start || ltb stop page
    then not_in_heap
    else if location == 0 || leb (2 ^ 31) location
    then unknown
    else free_loop (total_pages start stop + 1) (close_previous m start (location - 1)) start
        location

pub page_free : ℕ → ℕ → Mem → ℕ → Freed
unfolding free_at free_loop close_previous
page_free start stop m page = free_at start stop m page (location_of start stop page)
