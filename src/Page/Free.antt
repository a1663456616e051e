-- ===== src/Page/Free.antt =====
-- `page_free` of src/page.c: a page given back frees the pages up to the end of its block.
use ducreu_os.Base.{
  ℕ, zero, suc, ◌+◌, ◌-◌, ◌*◌, ◌/◌, ◌%◌, ◌^◌, ◌≡◌, ◌<◌, ◌≤◌, ◌==◌, ◌&&◌, if◌then◌else◌, arith,
}
use ducreu_os.Base.Memory.{Mem, within}
use ducreu_os.Page.{
  is_taken, is_last, clear_taken, clear_last, close_previous, free_loop, free_at, done, page_free,
  total_pages, page_address,
}
use ducreu_os.Page.Bitmap.{
  IsBytes, clear_taken-IsBytes, clear_last-IsBytes, is_taken-clear_taken, is_last-clear_taken,
  is_taken-clear_last, is_last-clear_last, close_previous-IsBytes, is_taken-close_previous,
  is_last-close_previous,
}
use ducreu_os.Page.WellFormed.{IsWellFormed, Block, Block-at}

-- the memory after a block of `k + 1` pages from page `l` on is freed
free_block : ℕ → Mem → ℕ → ℕ → Mem
free_block zero m s l = clear_last (clear_taken m s l) s l
free_block (suc k) m s l = free_block k (clear_taken m s l) s (l + 1)

free_block-IsBytes : (k : ℕ) (m : Mem) (s l : ℕ) → IsBytes m → IsBytes (free_block k m s l)
unfolding free_block
free_block-IsBytes zero m s l bytes =
    clear_last-IsBytes (clear_taken m s l) s l (clear_taken-IsBytes m s l bytes)
free_block-IsBytes (suc k) m s l bytes =
    free_block-IsBytes k (clear_taken m s l) s (l + 1) (clear_taken-IsBytes m s l bytes)

is_taken-free_block :
    (k : ℕ) (m : Mem) (s l q : ℕ)
    → IsBytes m
    → is_taken (free_block k m s l) s q ≡ (if within l (k + 1) q then 0 else is_taken m s q)
unfolding free_block
is_taken-free_block zero m s l q bytes = ground (
  arith,
  is_taken-clear_last (clear_taken m s l) s l q (clear_taken-IsBytes m s l bytes),
  is_taken-clear_taken m s l q bytes,
)
is_taken-free_block (suc k) m s l q bytes = ground (
  arith,
  is_taken-clear_taken m s l q bytes,
  is_taken-free_block k (clear_taken m s l) s (l + 1) q (clear_taken-IsBytes m s l bytes),
)

is_last-free_block :
    (k : ℕ) (m : Mem) (s l q : ℕ)
    → IsBytes m
    → is_last (free_block k m s l) s q ≡ (if q == l + k then 0 else is_last m s q)
unfolding free_block
is_last-free_block zero m s l q bytes = ground (
  arith,
  is_last-clear_last (clear_taken m s l) s l q (clear_taken-IsBytes m s l bytes),
  is_last-clear_taken m s l q bytes,
)
is_last-free_block (suc k) m s l q bytes = ground (
  arith,
  is_last-clear_taken m s l q bytes,
  is_last-free_block k (clear_taken m s l) s (l + 1) q (clear_taken-IsBytes m s l bytes),
)

-- A block is left of its first page as a block.
Block-tail :
    (m : Mem) (s l k : ℕ) → IsBytes m → Block m s l (suc k) → Block (clear_taken m s l) s (l + 1) k
Block-tail m s l k bytes b = record {
  taken = λ x h. ground (arith, b.taken (suc x), is_taken-clear_taken m s l (l + 1 + x) bytes);
  open_ = λ x h. ground (arith, b.open_ (suc x), is_last-clear_taken m s l (l + 1 + x) bytes);
  closed = ground (arith, b.closed, is_last-clear_taken m s l (l + 1 + k) bytes);
}

-- The loop frees the block and ends, within a round for each of its pages.
free_loop-Block :
    (k fuel : ℕ) (m : Mem) (s l : ℕ)
    → IsBytes m
    → Block m s l k
    → k < fuel
    → free_loop fuel m s l ≡ done (free_block k m s l)
unfolding free_loop free_block
free_loop-Block k zero m s l bytes b h = elim h [ ]
free_loop-Block zero (suc fuel) m s l bytes b h = ground (arith, b.taken 0, b.closed)
free_loop-Block (suc k) (suc fuel) m s l bytes b h = ground (
  arith,
  b.taken 0,
  b.open_ 0,
  free_loop-Block k fuel (clear_taken m s l) s (l + 1) (clear_taken-IsBytes m s l bytes)
      (Block-tail m s l k bytes b),
)

-- Marking the page before a block leaves the block as it is.
Block-close_previous :
    (m : Mem) (s l k : ℕ)
    → IsBytes m
    → 0 < l
    → Block m s l k
    → Block (close_previous m s (l - 1)) s l k
Block-close_previous m s l k bytes pos b = record {
  taken = λ x h. ground (arith, b.taken x, is_taken-close_previous m s (l - 1) (l + x) bytes);
  open_ = λ x h. ground (arith, b.open_ x, is_last-close_previous m s (l - 1) (l + x) bytes);
  closed = ground (arith, b.closed, is_last-close_previous m s (l - 1) (l + k) bytes);
}

-- What freeing from page `l` on does where the block ends at page `l + k`.
pub record FreedFrom (m : Mem) (s l k : ℕ) (m' : Mem) : Type 0 where
  pub bytes : IsBytes m'
  pub taken : (q : ℕ) → is_taken m' s q ≡ (if within l (k + 1) q then 0 else is_taken m s q)
  pub last :
      (q : ℕ)
      → is_last m' s q ≡ (
          if q == l + k
          then 0
          else if q == l - 1 && is_taken m s (l - 1) == 1
          then 1
          else is_last m s q)

-- Freeing keeps the bookkeeping well formed.
FreedFrom-IsWellFormed :
    (m : Mem) (s total l k : ℕ) (m' : Mem)
    → IsWellFormed m s total
    → 0 < l
    → l + k < total
    → Block m s l k
    → FreedFrom m s l k m'
    → IsWellFormed m' s total
FreedFrom-IsWellFormed m s total l k m' w pos fits b f = record {
  bytes = f.bytes;
  first_taken = ground (arith, f.taken 0, w.first_taken);
  last_taken =
      λ p lt e. ground (arith, f.taken p, f.last p, w.last_taken p, b.open_ (p - l), b.closed);
  next_in = λ p lt t e. ground (arith, f.taken p, f.last p, w.next_in p);
  next_taken =
      λ p lt t e. ground (arith, f.taken p, f.taken (p + 1), f.last p, w.next_taken p, w.next_in p);
}

module _ (start stop : ℕ) (m : Mem) (l : ℕ) where
  -- The page number that `page_free` computes from an address of `page_znalloc`.
  location_lem :
      page_address start stop l < 2 ^ 64
      → (page_address start stop l + 2 * 2 ^ 64 - total_pages start stop / 4 - start)
          % 2 ^ 64
          / 4096
        ≡ l
  location_lem h = omega arith

  pub freed : ℕ → Mem
  freed k = free_block k (close_previous m start (l - 1)) start l

  pub freed-FreedFrom : (k : ℕ) → IsBytes m → 0 < l → FreedFrom m start l k (freed k)
  unfolding freed
  freed-FreedFrom k bytes pos =
      let bytes' = close_previous-IsBytes m start (l - 1) bytes in
      record {
        bytes = free_block-IsBytes k (close_previous m start (l - 1)) start l bytes';
        taken = λ q. ground (
          arith,
          is_taken-free_block k (close_previous m start (l - 1)) start l q bytes',
          is_taken-close_previous m start (l - 1) q bytes,
        );
        last = λ q. ground (
          arith,
          is_last-free_block k (close_previous m start (l - 1)) start l q bytes',
          is_last-close_previous m start (l - 1) q bytes,
        );
      }

  free_at-Block :
      (k page : ℕ)
      → IsBytes m
      → 0 < l
      → l < 2 ^ 31
      → start ≤ page
      → page ≤ stop
      → Block m start l k
      → k ≤ total_pages start stop
      → free_at start stop m page l ≡ done (freed k)
  unfolding free_at freed
  free_at-Block k page bytes pos small low high b kt = ground (
    arith,
    free_loop-Block k (total_pages start stop + 1) (close_previous m start (l - 1)) start l
        (close_previous-IsBytes m start (l - 1) bytes)
        (Block-close_previous m start l k bytes pos b),
  )

  pub page_free-Block :
      (k : ℕ)
      → IsBytes m
      → 0 < l
      → l < 2 ^ 31
      → page_address start stop l ≤ stop
      → stop < 2 ^ 64
      → Block m start l k
      → k ≤ total_pages start stop
      → page_free start stop m (page_address start stop l) ≡ done (freed k)
  unfolding page_free
  page_free-Block k bytes pos small le st b kt =
      rw (location_lem (omega arith))
        (free_at-Block k (page_address start stop l) bytes pos small (omega arith) le b kt)

  -- On a well-formed heap of fewer than 2 ^ 31 pages that ends below 2 ^ 64, giving back a taken page
  -- other than page 0 at its address, which is not behind the heap's end, frees the pages from it up
  -- to the end of its block, and nothing else; a taken page in front of it, which may be of the same
  -- block, is `last` from then on; the heap stays well formed. The loop ends.
  pub page_free-FreedFrom :
      IsWellFormed m start (total_pages start stop)
      → 0 < l
      → l < total_pages start stop
      → total_pages start stop < 2 ^ 31
      → page_address start stop l ≤ stop
      → stop < 2 ^ 64
      → is_taken m start l ≡ 1
      → (k : ℕ) × (m' : Mem) × Block m start l k
        × (page_free start stop m (page_address start stop l) ≡ done m')
        × FreedFrom m start l k m'
        × IsWellFormed m' start (total_pages start stop)
  page_free-FreedFrom w pos lt small le st t =
      let (k, b, fits) = Block-at m start (total_pages start stop) l w lt t in
      (
        k,
        freed k,
        b,
        page_free-Block k w.bytes pos (omega arith) le st b (omega arith),
        freed-FreedFrom k w.bytes pos,
        FreedFrom-IsWellFormed m start (total_pages start stop) l k (freed k) w pos fits b
            (freed-FreedFrom k w.bytes pos),
      )
