-- ===== src/Regions/Lookup.antt =====
-- What the list of regions of src/regions.c stands for, and what its operations do to it.
use ducreu_os.Base.{
  ℕ, zero, suc, ◌+◌, ◌<◌, ◌≡◌, ◌≢◌, refl, List, [], ◌∷◌, some, false, ◌==◌, leb, if◌then◌else◌,
  length, arith, inl, inr, Bool-cases,
}
use ducreu_os.Regions.{
  Region, Store, put, regions_list_len, insert_front, regions_insert_at_position, regions_append,
  regions_prepend, regions_pixel_in_range, regions_value_of_point,
}

-- the address and the contents of each region, in order
abbrev pub Cells : Type 0
Cells = List (ℕ × Region)

-- From the head the pointers lead through the cells to NULL.
abbrev pub IsChain : Store → ℕ → Cells → Type 0
IsChain h head [] = head ≡ 0
IsChain h head ((a, r) ∷ cells) = (head ≡ a) × (a ≢ 0) × (h a ≡ some r) × IsChain h r.next cells

abbrev pub NotIn : ℕ → Cells → Type 0
NotIn a [] = Unit {0}
NotIn a ((b, r) ∷ cells) = (a ≢ b) × NotIn a cells

-- the value of the first region that holds the point, and 0 where none does
abbrev pub first_value : Cells → ℕ → ℕ → ℕ
first_value [] x y = 0
first_value ((a, r) ∷ cells) x y =
    let rest = first_value cells x y in if regions_pixel_in_range r x y then r.value else rest

-- `regions_value_of_point` returns the value of the first region that holds the point, and 0 where
-- none does. The regions of the list and one are rounds enough.
pub regions_value_of_point_lem :
    (fuel : ℕ) (h : Store) (head x y : ℕ) (cells : Cells)
    → IsChain h head cells
    → length cells < fuel
    → regions_value_of_point fuel h head x y ≡ some (first_value cells x y)
unfolding regions_value_of_point
regions_value_of_point_lem zero h head x y cells ch lt = absurd (omega arith)
regions_value_of_point_lem (suc n) h head x y [] ch lt = ground (arith, ch)
regions_value_of_point_lem (suc n) h head x y ((a, r) ∷ cells) (e, ne, found, ch) lt =
    let some_left : (a == 0) ≡ false = ground arith in
    let rest = regions_value_of_point_lem n h r.next x y cells ch (omega arith) in
    elim (Bool-cases (regions_pixel_in_range r x y)) [
      | inl inside ↦ rw (e, some_left, found, inside) refl
      | inr outside ↦ rw (e, some_left, found, outside) rest
    ]

-- The length that the source computes is 0 for every list.
len_lem :
    (fuel : ℕ) (h : Store) (head : ℕ) (cells : Cells)
    → IsChain h head cells
    → length cells < fuel
    → regions_list_len fuel h head ≡ some 0
unfolding regions_list_len
len_lem zero h head cells ch lt = absurd (omega arith)
len_lem (suc n) h head [] ch lt = ground (arith, ch)
len_lem (suc n) h head ((a, r) ∷ cells) (e, ne, found, ch) lt =
    let some_left : (a == 0) ≡ false = ground arith in
    rw (e, some_left, found) (len_lem n h r.next cells ch (omega arith))

IsChain-put :
    (h : Store) (b head : ℕ) (new : Region) (cells : Cells)
    → NotIn b cells
    → IsChain h head cells
    → IsChain (put h b new) head cells
IsChain-put h b head new [] out ch = ch
IsChain-put h b head new ((a, r) ∷ cells) out (e, ne, found, ch) =
    (e, ne, ground arith, IsChain-put h b r.next new cells out.1 ch)

-- `regions_prepend` of a new region returns 0 with it in front of the list.
pub regions_prepend_lem :
    (fuel : ℕ) (h : Store) (head a : ℕ) (new : Region) (cells : Cells)
    → IsChain h head cells
    → length cells < fuel
    → a ≢ 0
    → h a ≡ some new
    → NotIn a cells
    → (h' : Store) × (regions_prepend fuel h head a ≡ some (0, h', a))
      × IsChain h' a ((a, record new { next = head }) ∷ cells)
unfolding regions_prepend regions_insert_at_position insert_front
regions_prepend_lem fuel h head a new cells ch lt ne found out =
    let some_region : (a == 0) ≡ false = ground arith in
    (
      put h a (record new { next = head }),
      rw (len_lem fuel h head cells ch lt, some_region, found) refl,
      (refl, ne, ground arith, IsChain-put h a head (record new { next = head }) cells out ch),
    )

-- On every list `regions_append` does the same as `regions_prepend`, since the length is always 0,
-- and an insertion behind the front answers 1 and changes nothing.
pub regions_append_fault :
    (fuel : ℕ) (h : Store) (head a pos : ℕ) (cells : Cells)
    → IsChain h head cells
    → length cells < fuel
    → (regions_append fuel h head a ≡ regions_prepend fuel h head a)
      × (regions_insert_at_position fuel h head a (pos + 1) ≡ some (1, h, head))
unfolding regions_append regions_prepend regions_insert_at_position
regions_append_fault fuel h head a pos cells ch lt =
    let len = len_lem fuel h head cells ch lt in
    let behind : leb (pos + 1) 0 ≡ false = ground arith in (rw len refl, rw (len, behind) refl)
