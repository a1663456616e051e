-- ===== src/Page/RoundTrip.antt =====
-- An allocation of src/page.c that is given back leaves the bits of every page as they were.
use ducreu_os.Base.{ℕ, ◌+◌, ◌-◌, ◌^◌, ◌≡◌, ◌<◌, ◌≤◌, max, arith}
use ducreu_os.Base.Memory.{Mem}
use ducreu_os.Page.{is_taken, is_last, done, page_free, total_pages, page_address}
use ducreu_os.Page.Bitmap.{is_last-lt}
use ducreu_os.Page.WellFormed.{IsWellFormed, Block}
use ducreu_os.Page.Alloc.{Allocated}
use ducreu_os.Page.Free.{FreedFrom, freed, freed-FreedFrom, page_free-Block}

module _ (start stop : ℕ) (m : Mem) (n i : ℕ) (m' : Mem)
    (w : IsWellFormed m start (total_pages start stop)) (a : Allocated start stop m n i m') where
  -- the pages of the allocation are one block
  allocated-Block : Block m' start i (max n 1 - 1)
  allocated-Block = record {
    taken = λ x h. ground (arith, a.taken (i + x), a.run.fits);
    open_ = λ x h. ground (
      arith,
      a.last (i + x),
      a.run.fits,
      a.run.free x,
      w.last_taken (i + x),
      is_last-lt m start (i + x),
    );
    closed = ground (arith, a.last (i + (max n 1 - 1)), a.run.fits);
  }

  allocated_pos : 0 < i
  allocated_pos = ground (arith, w.first_taken, a.run.free 0)

  -- page `i - 1`, if it is taken, was `last` before the allocation
  last_before : is_taken m start (i - 1) ≡ 1 → is_last m start (i - 1) ≡ 1
  last_before t = ground (
    arith,
    allocated_pos,
    w.next_taken (i - 1),
    a.run.free 0,
    a.run.fits,
    is_last-lt m start (i - 1),
  )

  module _ (m'' : Mem) (f : FreedFrom m' start i (max n 1 - 1) m'') (q : ℕ)
      (lt : q < total_pages start stop) where
    taken_restored : is_taken m'' start q ≡ is_taken m start q
    taken_restored = ground (arith, f.taken q, a.taken q lt, a.run.fits, a.run.free (q - i))

    last_restored : is_last m'' start q ≡ is_last m start q
    last_restored = ground (
      arith,
      f.last q,
      a.last q lt,
      a.taken (i - 1),
      a.run.fits,
      allocated_pos,
      last_before,
      a.run.free (q - i),
      w.last_taken q,
      is_last-lt m start q,
    )

  -- The pages that page_znalloc has just handed out can be given back at their address, and then
  -- every page is taken and `last` exactly as before the allocation.
  pub free_alloc :
      total_pages start stop < 2 ^ 31
      → page_address start stop i ≤ stop
      → stop < 2 ^ 64
      → (m'' : Mem) × (page_free start stop m' (page_address start stop i) ≡ done m'')
        × ((q : ℕ)
            → q < total_pages start stop
            → (is_taken m'' start q ≡ is_taken m start q)
              × (is_last m'' start q ≡ is_last m start q))
  free_alloc small le st =
      let f = freed-FreedFrom start stop m' i (max n 1 - 1) a.bytes allocated_pos in
      (
        freed start stop m' i (max n 1 - 1),
        page_free-Block start stop m' i (max n 1 - 1) a.bytes allocated_pos
            (omega (arith, a.run.fits)) le st allocated-Block (omega (arith, a.run.fits)),
        λ q lt. (taken_restored _ f q lt, last_restored _ f q lt),
      )
