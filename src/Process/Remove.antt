-- ===== src/Process/Remove.antt =====
-- `process_remove` and `process_remove_lowest` of src/process.c.
use mathlib.Core.Path.{subst}
use ducreu_os.Base.{ℕ, ◌≡◌, refl, sym, [], ◌∷◌, some, none, arith}
use ducreu_os.Base.Linked.{Nodes, put}
use ducreu_os.Base.Linked.Chain.{Cells, node, first, Distinct, Chain, Chain-put}
use ducreu_os.Base.Linked.Relink.{load-ok, set_prev-ok, release-ok, Chain-set_first}
use ducreu_os.Process.{ProcessList, process_remove_lowest}
use ducreu_os.Process.Lists.{IsList}
use ducreu_os.Process.Place.{ProcessList_eta}

-- the heap that is left when the first node goes
unfoldable pub popped : Nodes ℕ → ℕ → Cells ℕ → Nodes ℕ
popped h a [] = put h a none
popped h a ((b, u) ∷ xs) = put (put h b (some (node u (first xs 0) 0))) a none

remove_lowest_run :
    (h : Nodes ℕ) (a v : ℕ) (xs : Cells ℕ)
    → Distinct ((a, v) ∷ xs)
    → Chain h 0 ((a, v) ∷ xs) 0
    → process_remove_lowest (record { head = a; mutex = 1 }) h
      ≡ some ((v, record { head = first xs 0; mutex = 1 }), popped h a xs)
unfolding process_remove_lowest popped
remove_lowest_run h a v [] d c = ground (arith, c, load-ok h a v 0 0, release-ok h a v 0 0)
remove_lowest_run h a v ((b, u) ∷ xs) d c = ground (
  arith,
  c,
  d,
  load-ok h a v b 0,
  set_prev-ok h b u (first xs 0) a 0,
  load-ok (put h b (some (node u (first xs 0) 0))) a v b 0,
  release-ok (put h b (some (node u (first xs 0) 0))) a v b 0,
)

popped-Chain :
    (h : Nodes ℕ) (a v : ℕ) (xs : Cells ℕ)
    → Distinct ((a, v) ∷ xs)
    → Chain h 0 ((a, v) ∷ xs) 0
    → Chain (popped h a xs) 0 xs 0
unfolding popped
popped-Chain h a v [] d c = tt
popped-Chain h a v ((b, u) ∷ xs) d c =
    Chain-put _ a none 0 0 ((b, u) ∷ xs) d.0 (Chain-set_first h a 0 0 b u xs d.1 c.2)

-- the process of the first cell, or NULL
abbrev pub head_process : Cells ℕ → ℕ
head_process [] = 0
head_process ((a, v) ∷ xs) = v

abbrev pub rest : Cells ℕ → Cells ℕ
rest [] = []
rest ((a, v) ∷ xs) = xs

lowest_at :
    (h : Nodes ℕ) (xs : Cells ℕ)
    → Distinct xs
    → Chain h 0 xs 0
    → (h' : Nodes ℕ) × (process_remove_lowest (record { head = first xs 0; mutex = 1 }) h
        ≡ some ((head_process xs, record { head = first (rest xs) 0; mutex = 1 }), h'))
      × Chain h' 0 (rest xs) 0
unfolding process_remove_lowest
lowest_at h [] d c = (h, refl, tt)
lowest_at h ((a, v) ∷ xs) d c =
    (popped h a xs, remove_lowest_run h a v xs d c, popped-Chain h a v xs d c)

Distinct-rest : (xs : Cells ℕ) → Distinct xs → Distinct (rest xs)
Distinct-rest [] d = tt
Distinct-rest ((a, v) ∷ xs) d = d.1

-- On an unlocked list, process_remove_lowest returns the first process, or NULL from an empty
-- list, and leaves the list of the others, unlocked.
pub process_remove_lowest_lem :
    (h : Nodes ℕ) (pl : ProcessList) (xs : Cells ℕ)
    → IsList h pl xs
    → (pl' : ProcessList) × (h' : Nodes ℕ) × (process_remove_lowest pl h
        ≡ some ((head_process xs, pl'), h'))
      × IsList h' pl' (rest xs)
process_remove_lowest_lem h pl xs is =
    let (h', run, chain) = lowest_at h xs is.distinct is.chain in
    (
      record { head = first (rest xs) 0; mutex = 1 },
      h',
      subst
          (λ l.
            process_remove_lowest l h
            ≡ some ((head_process xs, record { head = first (rest xs) 0; mutex = 1 }), h'))
          (sym (ProcessList_eta pl (first xs 0) is.start is.unlocked)) run,
      record {
        unlocked = refl;
        start = refl;
        chain = chain;
        distinct = Distinct-rest xs is.distinct;
      },
    )
