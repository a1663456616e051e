-- ===== src/Process/Tests.antt =====
-- The process lists of src/process.c at a list of two processes: processes 5 and 9, with
-- `vruntime` 50 and 90, in nodes 100 and 200.
use ducreu_os.Base.{ℕ, ◌*◌, ◌≡◌, refl, [], ◌∷◌, some, none, arith}
use ducreu_os.Base.Linked.{Nodes, put}
use ducreu_os.Base.Linked.Chain.{Cells, node, NotIn}
use ducreu_os.Process.{ProcessList, process_insert, process_remove, process_remove_lowest}
use ducreu_os.Process.Lists.{IsList, AllFrom, IsSorted}
use ducreu_os.Process.Place.{Frame, process_insert_lem}
use ducreu_os.Process.Unlink.{process_remove_lem}
use ducreu_os.Process.Order.{process_remove_lowest-least}

abbrev vr : ℕ → ℕ
vr p = 10 * p

abbrev heap : Nodes ℕ
heap =
    put (put (put (λ _. none) 100 (some (node 5 200 0))) 200 (some (node 9 0 100))) 300
      (some (node 0 1 1))

abbrev two : ProcessList
two = record { head = 100; mutex = 1 }

abbrev cells : Cells ℕ
cells = (100, 5) ∷ (200, 9) ∷ []

cells-IsList : IsList heap two cells
cells-IsList = record {
  unlocked = refl;
  start = refl;
  chain = (omega arith, refl, (omega arith, refl, tt));
  distinct = ((omega arith, tt), (tt, tt));
}

cells-IsSorted : IsSorted vr cells
cells-IsSorted = ((omega arith, tt), (tt, tt))

fresh : NotIn 300 cells
fresh = (omega arith, (omega arith, tt))

-- A locked list is waited for in vain.
locked : process_insert vr 9 300 (record two { mutex = 0 }) 7 heap ≡ none
unfolding process_insert
locked = refl

process_insert_lem_example :
    (pl' : ProcessList) × (h' : Nodes ℕ) × (process_insert vr 9 300 two 7 heap ≡ some (pl', h'))
    × IsList h' pl' ((100, 5) ∷ (300, 7) ∷ (200, 9) ∷ [])
    × Frame cells 300 heap h'
process_insert_lem_example =
    process_insert_lem vr 9 heap 300 7 0 1 1 two cells (omega arith) (omega arith) refl cells-IsList
      fresh (omega arith)

process_remove_lem_example :
    (pl' : ProcessList) × (h' : Nodes ℕ) × (process_remove 9 two 9 heap ≡ some (pl', h'))
    × IsList h' pl' ((100, 5) ∷ [])
    × ((x : ℕ) → NotIn x cells → h' x ≡ heap x)
process_remove_lem_example = process_remove_lem 9 heap 9 two cells cells-IsList (omega arith)

process_remove_lowest-least_example :
    (pl' : ProcessList) × (h' : Nodes ℕ) × (process_remove_lowest two heap ≡ some ((5, pl'), h'))
    × IsList h' pl' ((200, 9) ∷ [])
    × AllFrom vr 50 ((200, 9) ∷ [])
    × IsSorted vr ((200, 9) ∷ [])
process_remove_lowest-least_example =
    process_remove_lowest-least vr heap two 100 5 ((200, 9) ∷ []) cells-IsList cells-IsSorted
