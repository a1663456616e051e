-- ===== src/Lock/Count.antt =====
-- How many harts are in a phase.
use ducreu_os.Base.{
  ℕ, zero, suc, ◌+◌, ◌≡◌, refl, List, [], ◌∷◌, some, get_elem?, set, length, arith,
}
use ducreu_os.Lock.{Phase, outside, inside, backing_off}

abbrev pub one_if : Phase → Phase → ℕ
one_if outside outside = 1
one_if inside inside = 1
one_if backing_off backing_off = 1
one_if _ _ = 0

abbrev pub count : Phase → List Phase → ℕ
count p [] = 0
count p (q ∷ qs) = one_if p q + count p qs

pub count-set :
    (r : Phase) (qs : List Phase) (i : ℕ) (p q : Phase)
    → get_elem? qs i ≡ some p
    → count r (set qs i q) + one_if r p ≡ count r qs + one_if r q
count-set r [] i p q h = absurd (ground arith)
count-set r (x ∷ qs) zero p q h = ground arith
count-set r (x ∷ qs) (suc i) p q h = omega (arith, count-set r qs i p q h)

-- Every hart is in one of the phases.
pub count-length :
    (qs : List Phase) → count outside qs + count inside qs + count backing_off qs ≡ length qs
count-length [] = refl
count-length (outside ∷ qs) = omega (arith, count-length qs)
count-length (inside ∷ qs) = omega (arith, count-length qs)
count-length (backing_off ∷ qs) = omega (arith, count-length qs)
