-- ===== src/Page/Search.antt =====
-- The search of `page_znalloc` in src/page.c: it finds the first run of free pages long enough.
use ducreu_os.Base.{
  ℕ, zero, suc, ◌+◌, ◌-◌, ◌≡◌, ◌<◌, ◌≤◌, ◌==◌, leb, max, none, some, arith, false, Bool-cases,
  Option-cases, inl, inr,
}
use mathlib.Core.Path.{subst}
use native.Mathlib.Decide.{dec_le}
use ducreu_os.Base.Memory.{Mem}
use ducreu_os.Page.{is_taken, run_from, find_run}

-- pages `i`, …, `i + k - 1` are free
abbrev pub Free : Mem → ℕ → ℕ → ℕ → Type 0
Free m s i k = (x : ℕ) → x < k → is_taken m s (i + x) ≡ 0

-- A request for `n` pages can be met from page `i` on; a request for none takes one page.
pub record FreeRun (m : Mem) (s n total i : ℕ) : Type 0 where
  pub free : Free m s i (max n 1)
  pub fits : i + max n 1 ≤ total

Free-cons :
    (m : Mem) (s i k k' : ℕ) → k ≤ k' + 1 → is_taken m s i ≡ 0 → Free m s (i + 1) k' → Free m s i k
Free-cons m s i k k' le e f zero h = ground arith
Free-cons m s i k k' le e f (suc x) h = ground (arith, f x)

Free-tail : (m : Mem) (s i k k' : ℕ) → k' + 1 ≤ k → Free m s i k → Free m s (i + 1) k'
Free-tail m s i k k' le f x h = ground (arith, f (suc x))

-- What a run that was found looks like.
record Found (m : Mem) (s n j c rounds k : ℕ) : Type 0 where
  size : k ≡ max n (c + 1)
  fits : k ≤ c + rounds
  free : Free m s j (k - c)

run_from-Found :
    (rounds : ℕ) (m : Mem) (s n j c : ℕ) {k : ℕ}
    → run_from rounds m s n j c ≡ some k
    → Found m s n j c rounds k
unfolding run_from
run_from-Found zero m s n j c e = absurd (ground arith)
run_from-Found (suc rounds) m s n j c {k} e = elim (Bool-cases (is_taken m s j == 0)) [
  | inr taken ↦ absurd (ground arith)
  | inl clear ↦ elim (Bool-cases (leb n (c + 1))) [
    | inl enough ↦ record { size = ground arith; fits = ground arith; free = λ x h. ground arith }
    | inr short ↦
        let rest : Found m s n (j + 1) (c + 1) rounds k =
          run_from-Found rounds m s n (j + 1) (c + 1) (ground arith) in
        record {
          size = ground arith;
          fits = ground arith;
          free = Free-cons m s j (k - c) (k - (c + 1)) (omega arith) (ground arith) rest.free;
        }
  ]
]

run_from-none :
    (rounds : ℕ) (m : Mem) (s n j c : ℕ)
    → run_from rounds m s n j c ≡ none
    → max n (c + 1) ≤ c + rounds
    → Free m s j (max n (c + 1) - c)
    → ⊥
unfolding run_from
run_from-none zero m s n j c e fits f = omega arith
run_from-none (suc rounds) m s n j c e fits f = elim (Bool-cases (is_taken m s j == 0)) [
  | inr taken ↦ ground (arith, f 0)
  | inl clear ↦ elim (Bool-cases (leb n (c + 1))) [
    | inl enough ↦ ground arith
    | inr short ↦
        run_from-none rounds m s n (j + 1) (c + 1) (ground arith) (ground arith)
          (Free-tail m s j (max n (c + 1) - c) (max n (c + 1 + 1) - (c + 1)) (ground arith) f)
  ]
]

-- The search reports the first page below `total / 10` from which the request can be met.
pub record First (m : Mem) (s n total i p k : ℕ) : Type 0 where
  pub size : k ≡ max n 1
  pub after : i ≤ p
  pub run : FreeRun m s n total p
  pub first : (q : ℕ) → i ≤ q → q < p → ¬ (FreeRun m s n total q)

not_taken : (m : Mem) (s n total i : ℕ) → (is_taken m s i == 0) ≡ false → ¬ (FreeRun m s n total i)
not_taken m s n total i e r = ground (arith, r.free 0)

no_run :
    (m : Mem) (s n total i : ℕ) → run_from (total - i) m s n i 0 ≡ none → ¬ (FreeRun m s n total i)
no_run m s n total i e r =
    run_from-none (total - i) m s n i 0 e (omega (arith, r.fits)) (λ x h. r.free x (omega arith))

First-next :
    (m : Mem) (s n total i : ℕ) {p k : ℕ}
    → ¬ (FreeRun m s n total i)
    → First m s n total (i + 1) p k
    → First m s n total i p k
First-next m s n total i {p} {k} skip f = record {
  size = f.size;
  after = omega (arith, f.after);
  run = f.run;
  first = λ q le lt r. elim (dec_le q i) [
    | yes e ↦ skip (subst (FreeRun m s n total) (omega arith) r)
    | no ne ↦ f.first q (omega arith) lt r
  ];
}

hit_First :
    (m : Mem) (s n total i k : ℕ)
    → run_from (total - i) m s n i 0 ≡ some k
    → First m s n total i i k
hit_First m s n total i k e =
    let found = run_from-Found (total - i) m s n i 0 e in
    record {
      size = omega (arith, found.size);
      after = omega arith;
      run = record {
        free = λ x h. found.free x (omega (arith, found.size));
        fits = omega (arith, found.size, found.fits);
      };
      first = λ q le lt r. omega arith;
    }

pub find_run-First :
    (rounds : ℕ) (m : Mem) (s n total i : ℕ) {p k : ℕ}
    → find_run rounds m s n total i ≡ some (p, k)
    → First m s n total i p k × (p < i + rounds)
unfolding find_run
find_run-First zero m s n total i e = absurd (ground arith)
find_run-First (suc rounds) m s n total i {p} {k} e = elim (Bool-cases (is_taken m s i == 0)) [
  | inr taken ↦
      let rest : First m s n total (i + 1) p k × (p < i + 1 + rounds) =
        find_run-First rounds m s n total (i + 1) (ground arith) in
      (First-next m s n total i (not_taken m s n total i taken) rest.0, omega (arith, rest.1))
  | inl clear ↦ elim (Option-cases (run_from (total - i) m s n i 0)) [
    | inl stuck ↦
        let rest : First m s n total (i + 1) p k × (p < i + 1 + rounds) =
          find_run-First rounds m s n total (i + 1) (ground arith) in
        (First-next m s n total i (no_run m s n total i stuck) rest.0, omega (arith, rest.1))
    | inr (c, hit) ↦
        let ep : i ≡ p = ground arith in
        let ek : c ≡ k = ground arith in
        (
          subst (λ a. First m s n total i a k) ep
              (subst (λ b. First m s n total i i b) ek (hit_First m s n total i c hit)),
          omega arith,
        )
  ]
]

find_run_rest :
    (rounds : ℕ) (m : Mem) (s n total i : ℕ)
    → find_run (suc rounds) m s n total i ≡ none
    → find_run rounds m s n total (i + 1) ≡ none
unfolding find_run
find_run_rest rounds m s n total i e = ground arith

find_run_head :
    (rounds : ℕ) (m : Mem) (s n total i : ℕ)
    → find_run (suc rounds) m s n total i ≡ none
    → ¬ (FreeRun m s n total i)
unfolding find_run
find_run_head rounds m s n total i e r = elim (Bool-cases (is_taken m s i == 0)) [
  | inr taken ↦ not_taken m s n total i taken r
  | inl clear ↦ no_run m s n total i (ground arith) r
]

pub find_run-none :
    (rounds : ℕ) (m : Mem) (s n total i : ℕ)
    → find_run rounds m s n total i ≡ none
    → (q : ℕ) → i ≤ q
    → q < i + rounds
    → ¬ (FreeRun m s n total q)
unfolding find_run
find_run-none zero m s n total i e q le lt r = omega arith
find_run-none (suc rounds) m s n total i e q le lt r = elim (dec_le q i) [
  | no ne ↦
      find_run-none rounds m s n total (i + 1) (find_run_rest rounds m s n total i e) q
        (omega arith) (omega arith) r
  | yes le' ↦ find_run_head rounds m s n total i e (subst (FreeRun m s n total) (omega arith) r)
]
