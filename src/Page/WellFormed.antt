-- ===== src/Page/WellFormed.antt =====
-- The page bookkeeping of src/page.c as a state of the heap: its invariant, and the blocks of
-- pages that it divides the heap into.
use ducreu_os.Base.{ℕ, zero, suc, ◌+◌, ◌-◌, ◌≡◌, ◌<◌, ◌≤◌, ◌==◌, arith, Bool-cases, inl, inr}
use ducreu_os.Base.Memory.{Mem}
use ducreu_os.Page.{is_taken, is_last}
use ducreu_os.Page.Bitmap.{IsBytes, is_last-lt}

-- Page 0, which holds the bits, is taken; a `last` page is taken; a taken page that is not `last`
-- is followed by a taken page. So every block ends inside the heap.
pub record IsWellFormed (m : Mem) (s total : ℕ) : Type 0 where
  pub bytes : IsBytes m
  pub first_taken : is_taken m s 0 ≡ 1
  pub last_taken : (p : ℕ) → p < total → is_last m s p ≡ 1 → is_taken m s p ≡ 1
  pub next_in : (p : ℕ) → p < total → is_taken m s p ≡ 1 → is_last m s p ≡ 0 → p + 1 < total
  pub next_taken :
      (p : ℕ) → p < total → is_taken m s p ≡ 1 → is_last m s p ≡ 0 → is_taken m s (p + 1) ≡ 1

-- Pages `l`, …, `l + k` are taken, and of these `l + k` alone is `last`.
pub record Block (m : Mem) (s l k : ℕ) : Type 0 where
  pub taken : (x : ℕ) → x ≤ k → is_taken m s (l + x) ≡ 1
  pub open_ : (x : ℕ) → x < k → is_last m s (l + x) ≡ 0
  pub closed : is_last m s (l + k) ≡ 1

Block-one : (m : Mem) (s l : ℕ) → is_taken m s l ≡ 1 → is_last m s l ≡ 1 → Block m s l 0
Block-one m s l t e =
    let z : l + 0 ≡ l = omega arith in
    record { taken = λ x h. ground arith; open_ = λ x h. elim h [ ]; closed = rw z e }

taken_from :
    (m : Mem) (s l k : ℕ)
    → is_taken m s l ≡ 1
    → ((x : ℕ) → x ≤ k → is_taken m s (l + 1 + x) ≡ 1)
    → (x : ℕ) → x ≤ suc k
    → is_taken m s (l + x) ≡ 1
taken_from m s l k t h zero le = ground arith
taken_from m s l k t h (suc x) le = ground (arith, h x)

open_from :
    (m : Mem) (s l k : ℕ)
    → is_last m s l ≡ 0
    → ((x : ℕ) → x < k → is_last m s (l + 1 + x) ≡ 0)
    → (x : ℕ) → x < suc k
    → is_last m s (l + x) ≡ 0
open_from m s l k t h zero le = ground arith
open_from m s l k t h (suc x) le = ground (arith, h x)

Block-suc :
    (m : Mem) (s l k : ℕ)
    → is_taken m s l ≡ 1
    → is_last m s l ≡ 0
    → Block m s (l + 1) k
    → Block m s l (suc k)
Block-suc m s l k t e b = record {
  taken = taken_from m s l k t b.taken;
  open_ = open_from m s l k e b.open_;
  closed = ground (arith, b.closed);
}

Block-in :
    (fuel : ℕ) (m : Mem) (s total l : ℕ)
    → IsWellFormed m s total
    → total - l ≤ fuel
    → l < total
    → is_taken m s l ≡ 1
    → (k : ℕ) × Block m s l k × (l + k < total)
Block-in zero m s total l w f lt t = absurd (omega arith)
Block-in (suc fuel) m s total l w f lt t = elim (Bool-cases (is_last m s l == 0)) [
  | inr last ↦ (0, Block-one m s l t (ground (arith, is_last-lt m s l)), omega arith)
  | inl inner ↦
      let e : is_last m s l ≡ 0 = ground arith in
      let (k, b, le) =
        Block-in fuel m s total (l + 1) w (omega arith) (w.next_in l lt t e)
          (w.next_taken l lt t e) in
      (suc k, Block-suc m s l k t e b, omega arith)
]

-- From every taken page of a well-formed heap a block runs, and it ends inside the heap.
pub Block-at :
    (m : Mem) (s total l : ℕ)
    → IsWellFormed m s total
    → l < total
    → is_taken m s l ≡ 1
    → (k : ℕ) × Block m s l k × (l + k < total)
Block-at m s total l w = Block-in total m s total l w (omega arith)
