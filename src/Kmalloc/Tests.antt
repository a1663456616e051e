-- ===== src/Kmalloc/Tests.antt =====
-- A heap of one page with two free nodes, and the conditions of the theorems there.
use ducreu_os.Base.{ℕ, ◌≡◌, refl, ◌==◌, if◌then◌else◌, true, false, some, [], ◌∷◌, arith}
use ducreu_os.Kmalloc.{Allocation, Heap, first_fit, common_alloc, kfree}
use ducreu_os.Kmalloc.Alloc.{Fits, Allocated, common_alloc-Allocated, is_free}
use ducreu_os.Kmalloc.Free.{IsTaken, Trimmed, kfree-Trimmed}
use ducreu_os.Kmalloc.Links.{
  Links, Linked, Distinct, NotIn, IsCycle, allocation_dll_insert, allocation_dll_delete,
  delete-insert,
}
use ducreu_os.Kmalloc.RoundTrip.{Restored, kfree-common_alloc}

abbrev heap : Heap
heap = record {
  free = record { address = 0x10018; size = 40 } ∷ record { address = 0x10100; size = 200 } ∷ [];
  heap_vaddr = 0x11000;
}

heap-Fits : Fits 0x10018 heap.free heap.heap_vaddr
unfolding Fits
heap-Fits = (omega arith, (omega arith, omega arith))

-- The second node is split.
split :
    common_alloc true heap 50 false
    ≡ some (
      record { address = 0x10100; size = 56 },
      record heap {
        free =
            record { address = 0x10018; size = 40 } ∷ record { address = 0x10150; size = 120 } ∷ [];
      },
    )
unfolding common_alloc first_fit
split = refl

common_alloc-Allocated_example : Allocated true 50 0x10018 heap (common_alloc true heap 50 false)
common_alloc-Allocated_example =
    common_alloc-Allocated true heap 50 0x10018 false (omega arith) (omega arith) heap-Fits

abbrev used : Allocation
used = record { address = 0x10058; size = 24 }

used-IsTaken : IsTaken 0x10018 0x11000 heap.free used
unfolding is_free
used-IsTaken = record { above = omega arith; below = omega arith; apart = λ a. ground arith }

kfree-Trimmed_example :
    (h' : Heap) × (kfree 2 heap used ≡ some h')
    × Trimmed 0x10018 0 (used ∷ heap.free) heap.heap_vaddr h'
kfree-Trimmed_example =
    kfree-Trimmed 2 0x10018 heap used (omega arith) (omega arith) heap-Fits used-IsTaken

kfree-common_alloc_example :
    (h' : Heap) × (kfree 2
        (record heap {
          free =
              record { address = 0x10018; size = 40 }
              ∷ record { address = 0x10150; size = 120 }
              ∷ [];
        })
        (record { address = 0x10100; size = 56 })
      ≡ some h')
    × ((a : ℕ) → Restored heap h' a)
kfree-common_alloc_example =
    kfree-common_alloc true 2 0x10018 50 heap (omega arith) (omega arith) (omega arith) heap-Fits
      (record { address = 0x10100; size = 56 }) _ false (omega arith) split

-- The head at 1 and the node at 2.
abbrev two : Links
two = record { next = λ k. if k == 1 then 2 else 1; prev = λ k. if k == 1 then 2 else 1 }

two-IsCycle : IsCycle two 2 (1 ∷ [])
unfolding Linked Distinct NotIn
two-IsCycle = ((((λ e. omega (arith, e)), tt), (tt, tt)), (refl, refl, (refl, refl)))

three-NotIn : NotIn 3 (2 ∷ 1 ∷ [])
unfolding NotIn
three-NotIn = ((λ e. omega (arith, e)), ((λ e. omega (arith, e)), tt))

delete-insert_example :
    IsCycle (allocation_dll_insert two 2 3) 2 (3 ∷ 1 ∷ [])
    × IsCycle (allocation_dll_delete (allocation_dll_insert two 2 3) 2) 3 (1 ∷ [])
delete-insert_example = delete-insert two 2 3 (1 ∷ []) two-IsCycle three-NotIn
