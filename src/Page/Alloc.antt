-- ===== src/Page/Alloc.antt =====
-- `page_znalloc` of src/page.c: what an allocation changes, and when there is none.
use ducreu_os.Base.{
  ℕ, zero, suc, ◌+◌, ◌-◌, ◌*◌, ◌/◌, ◌%◌, ◌≡◌, ap, ◌∙◌, ◌⊎◌, ◌<◌, ◌≤◌, ◌==◌, max, if◌then◌else◌,
  none, some, true, arith, Option-cases, inl, inr,
}
use ducreu_os.Base.Memory.{Mem, within}
use ducreu_os.Base.Bits.{get_bit}
use ducreu_os.Utils.Memory.{memset}
use ducreu_os.Utils.Memory.Fill.{memset-within}
use ducreu_os.Page.{
  is_taken, is_last, set_last, take_pages, find_run, page_znalloc, page_size, round_up, total_pages,
  page_address,
}
use ducreu_os.Page.Bitmap.{
  IsBytes, set_last-IsBytes, is_taken-set_last, is_last-set_last, take_pages-IsBytes,
  is_taken-take_pages, is_last-take_pages,
}
use ducreu_os.Page.Search.{FreeRun, First, find_run-First, find_run-none}
use ducreu_os.Page.WellFormed.{IsWellFormed}

-- The bits of a page depend on one byte.
pub is_taken-congr :
    (m m' : Mem) (s q : ℕ) → m' (s + q / 4) ≡ m (s + q / 4) → is_taken m' s q ≡ is_taken m s q
unfolding is_taken
is_taken-congr m m' s q e = ap (λ b. get_bit b (2 * (q % 4))) e

pub is_last-congr :
    (m m' : Mem) (s q : ℕ) → m' (s + q / 4) ≡ m (s + q / 4) → is_last m' s q ≡ is_last m s q
unfolding is_last
is_last-congr m m' s q e = ap (λ b. get_bit b (2 * (q % 4) + 1)) e

module _ (start stop : ℕ) (m : Mem) (n : ℕ) where
  -- Page `i` begins the first run that is long enough; exactly its pages become taken, the end of
  -- the run alone becomes `last`, and its memory is zero.
  pub record Allocated (i : ℕ) (m' : Mem) : Type 0 where
    pub low : i < total_pages start stop / 10
    pub run : FreeRun m start n (total_pages start stop) i
    pub first : (q : ℕ) → q < i → ¬ (FreeRun m start n (total_pages start stop) q)
    pub bytes : IsBytes m'
    pub taken :
        (q : ℕ)
        → q < total_pages start stop
        → is_taken m' start q ≡ (if within i (max n 1) q then 1 else is_taken m start q)
    pub last :
        (q : ℕ)
        → q < total_pages start stop
        → is_last m' start q ≡ (if q == i + max n 1 - 1 then 1 else is_last m start q)
    pub zeroed :
        (a : ℕ) → within (page_address start stop i) (page_size * max n 1) a ≡ true → m' a ≡ 0

  -- The memory after the bits are set and the pages are cleared.
  abbrev pub written : ℕ → ℕ → Mem
  written i k =
      memset (set_last (take_pages k m start i) start (i + k - 1)) (page_address start stop i) 0
        (page_size * k)

  module _ (bytes : IsBytes m) (i k : ℕ) (pos : 0 < i) where
    written-IsBytes : IsBytes (written i k)
    written-IsBytes a = ground (
      arith,
      memset-within (set_last (take_pages k m start i) start (i + k - 1))
          (page_address start stop i) 0 (page_size * k) a,
      set_last-IsBytes (take_pages k m start i) start (i + k - 1)
          (take_pages-IsBytes k m start i bytes) a,
    )

    -- The pages lie behind the bytes that hold the bits.
    written_bits :
        (q : ℕ)
        → q < total_pages start stop
        → written i k (start + q / 4)
          ≡ set_last (take_pages k m start i) start (i + k - 1) (start + q / 4)
    written_bits q lt = ground (
      arith,
      memset-within (set_last (take_pages k m start i) start (i + k - 1))
          (page_address start stop i) 0 (page_size * k) (start + q / 4),
    )

    written_taken :
        (q : ℕ)
        → q < total_pages start stop
        → is_taken (written i k) start q ≡ (if within i k q then 1 else is_taken m start q)
    written_taken q lt =
        is_taken-congr _ _ start q (written_bits q lt)
        ∙ (is_taken-set_last (take_pages k m start i) start (i + k - 1) q
              (take_pages-IsBytes k m start i bytes)
            ∙ is_taken-take_pages k m start i q bytes)

    written_last :
        (q : ℕ)
        → q < total_pages start stop
        → is_last (written i k) start q ≡ (if q == i + k - 1 then 1 else is_last m start q)
    written_last q lt =
        is_last-congr _ _ start q (written_bits q lt)
        ∙ (is_last-set_last (take_pages k m start i) start (i + k - 1) q
              (take_pages-IsBytes k m start i bytes)
            ∙ ap (λ b. if q == i + k - 1 then 1 else b) (is_last-take_pages k m start i q bytes))

  not_first :
      (i : ℕ) → is_taken m start 0 ≡ 1 → FreeRun m start n (total_pages start stop) i → 0 < i
  not_first zero t r = absurd (ground (arith, r.free 0))
  not_first (suc i) t r = omega arith

  pub written-Allocated :
      (i k : ℕ)
      → IsBytes m
      → is_taken m start 0 ≡ 1
      → First m start n (total_pages start stop) 0 i k
      → i < total_pages start stop / 10
      → Allocated i (written i (max n 1))
  written-Allocated i k bytes t f low =
      let pos = not_first i t f.run in
      record {
        low = low;
        run = f.run;
        first = λ q lt. f.first q (omega arith) lt;
        bytes = written-IsBytes bytes i (max n 1) pos;
        taken = written_taken bytes i (max n 1) pos;
        last = written_last bytes i (max n 1) pos;
        zeroed = λ a h. ground (
          arith,
          memset-within (set_last (take_pages (max n 1) m start i) start (i + max n 1 - 1))
              (page_address start stop i) 0 (page_size * max n 1) a,
        );
      }

  znalloc_hit :
      (i k : ℕ)
      → find_run (total_pages start stop / 10) m start n (total_pages start stop) 0 ≡ some (i, k)
      → page_znalloc start stop m n ≡ (some (page_address start stop i), written i k)
  unfolding page_znalloc
  znalloc_hit i k e = rw (e, page_znalloc)

  znalloc_miss :
      find_run (total_pages start stop / 10) m start n (total_pages start stop) 0 ≡ none
      → page_znalloc start stop m n ≡ (none, m)
  unfolding page_znalloc
  znalloc_miss e = rw (e, page_znalloc)

  -- Either no page below a tenth of the heap begins a long enough run of free pages, and then the
  -- answer is NULL and the memory is as before, or the first such run is allocated.
  pub znalloc_cases :
      IsBytes m
      → is_taken m start 0 ≡ 1
      → ((page_znalloc start stop m n ≡ (none, m))
          × ((i : ℕ)
              → i < total_pages start stop / 10
              → ¬ (FreeRun m start n (total_pages start stop) i)))
        ⊎ ((i : ℕ) × (m' : Mem) × (page_znalloc start stop m n
              ≡ (some (page_address start stop i), m'))
            × Allocated i m')
  znalloc_cases bytes t =
      elim (Option-cases
        (find_run (total_pages start stop / 10) m start n (total_pages start stop) 0)) [
          | inl e ↦ inl (
            znalloc_miss e,
            λ i lt.
                find_run-none (total_pages start stop / 10) m start n (total_pages start stop) 0 e i
                  (omega arith) (omega arith),
          )
          | inr ((i, k), e) ↦
              let (f, low) =
                find_run-First (total_pages start stop / 10) m start n (total_pages start stop) 0
                  e in
              inr (
                i,
                written i (max n 1),
                znalloc_hit i k e
                    ∙ ap (λ x. (some (page_address start stop i), written i x)) f.size,
                written-Allocated i k bytes t f (omega arith),
              )
        ]

module _ (start stop : ℕ) (m : Mem) (n i : ℕ) (m' : Mem) where
  Allocated-IsWellFormed :
      IsWellFormed m start (total_pages start stop)
      → Allocated start stop m n i m'
      → IsWellFormed m' start (total_pages start stop)
  Allocated-IsWellFormed w a = record {
    bytes = a.bytes;
    first_taken = ground (arith, a.taken 0, w.first_taken, a.run.fits);
    last_taken = λ p lt e. ground (arith, a.taken p, a.last p, w.last_taken p, a.run.fits);
    next_in = λ p lt t e. ground (arith, a.taken p, a.last p, w.next_in p, a.run.fits);
    next_taken = λ p lt t e.
        ground
          (arith, a.taken p, a.taken (p + 1), a.last p, w.next_taken p, w.next_in p, a.run.fits);
  }

-- An allocation, successful or not, keeps the bookkeeping well formed.
pub znalloc-IsWellFormed :
    (start stop : ℕ) (m : Mem) (n : ℕ)
    → IsWellFormed m start (total_pages start stop)
    → IsWellFormed (page_znalloc start stop m n).1 start (total_pages start stop)
znalloc-IsWellFormed start stop m n w = elim (znalloc_cases start stop m n w.bytes w.first_taken) [
  | inl (e, _) ↦ rw e w
  | inr (i, m', e, a) ↦ rw e (Allocated-IsWellFormed start stop m n i m' w a)
]

-- the first tenth of the pages has addresses inside the heap
page_address_below :
    (start stop i : ℕ)
    → start ≤ stop
    → i < total_pages start stop / 10
    → page_address start stop i ≤ stop
page_address_below start stop i le low = omega arith

module _ (start stop n : ℕ) where
  -- the pages from the heap's start up to the end of `n` pages at the address of page `i`
  abbrev pub pages_up_to : ℕ → ℕ
  pages_up_to i = i + max n 1 + round_up (total_pages start stop / 4) / page_size

  abbrev pub end_address : ℕ → ℕ
  end_address i = page_address start stop i + page_size * max n 1

  -- Pages are counted from page 0, and addresses from behind the bookkeeping pages: an allocation
  -- that is not NULL lies inside the heap when its pages and the bookkeeping pages do; otherwise it
  -- ends behind the heap, and page_znalloc has cleared every byte from the heap's end up to its own.
  pub page_znalloc-overrun :
      (m : Mem)
      → start ≤ stop
      → IsBytes m
      → is_taken m start 0 ≡ 1
      → (page_znalloc start stop m n ≡ (none, m))
        ⊎ ((i : ℕ) × (m' : Mem) × (page_znalloc start stop m n
              ≡ (some (page_address start stop i), m'))
            × (0 < i)
            × (pages_up_to i ≤ total_pages start stop → end_address i ≤ stop)
            × (total_pages start stop < pages_up_to i
                → (stop < end_address i) × ((a : ℕ) → stop ≤ a → a < end_address i → m' a ≡ 0)))
  page_znalloc-overrun m le bytes t = elim (znalloc_cases start stop m n bytes t) [
    | inl (e, _) ↦ inl e
    | inr (i, m', e, a) ↦ inr (
      i,
      m',
      e,
      not_first start stop m n i t a.run,
      (λ fits. omega arith),
      λ over. (
        omega arith,
        λ b from upto. a.zeroed b (ground (arith, page_address_below start stop i le a.low)),
      ),
    )
  ]
