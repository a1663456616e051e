-- ===== src/Kmalloc.antt =====
-- The kernel heap of src/kmalloc.c. The cyclic list of free nodes is the list of the nodes from
-- `kmalloc_head->next` round to the head, which lies in front of them, has size 0 and is never handed
-- out: an insertion behind a node and a deletion are those of the list, as Links has
-- them on the pointers. A node has 24 bytes and its
-- `size` bytes behind them. The answer of `page_znalloc` is a parameter; what it returns is mapped
-- at `kernel_heap_vaddr`, the end of the heap. The sums of `common_alloc` wrap as in the source,
-- `kfree` is on a heap below 2 ^ 64. The heap's mutex is
-- the one of Lock.
pub mod Alloc
pub mod Free
pub mod RoundTrip
pub mod Links
mod Tests
use ducreu_os.Base.{
  ℕ, zero, suc, ◌+◌, ◌-◌, ◌*◌, ◌/◌, ◌%◌, ◌^◌, Bool, true, false, ◌==◌, ltb, leb, ◌&&◌, ◌||◌,
  if◌then◌else◌, Option, none, some, List, [], ◌∷◌, ◌++◌,
}

-- `allocation_t` with the address it lies at
pub record Allocation : Type 0 where
  pub address : ℕ
  pub size : ℕ

abbrev pub node_size : ℕ
node_size = 24

abbrev pub page_size : ℕ
page_size = 4096

-- the address behind a node and its bytes
abbrev pub end_of : Allocation → ℕ
end_of b = b.address + node_size + b.size

pub record Heap : Type 0 where
  pub free : List Allocation
  pub heap_vaddr : ℕ

-- a node with room for another one behind the bytes is split
abbrev pub carve : ℕ → Allocation → List Allocation → Allocation × List Allocation
carve bytes p rest =
    if leb ((bytes + node_size) % 2 ^ 64) p.size
    then (
      record { address = p.address; size = bytes },
      record {
        address = (p.address + node_size + bytes) % 2 ^ 64;
        size = (p.size + 2 * 2 ^ 64 - bytes - node_size) % 2 ^ 64;
      }
          ∷ rest,
    )
    else (p, rest)

abbrev pub behind :
    Allocation → Option (Allocation × List Allocation) → Option (Allocation × List Allocation)
behind p none = none
behind p (some (b, rest)) = some (b, p ∷ rest)

-- the first node that is large enough
unfoldable pub first_fit : ℕ → List Allocation → Option (Allocation × List Allocation)
first_fit bytes [] = none
first_fit bytes (p ∷ ps) =
    let on = first_fit bytes ps in if ltb p.size bytes then behind p on else some (carve bytes p ps)

abbrev pub rounded : ℕ → ℕ
rounded bytes = (bytes + 7) % 2 ^ 64 / 8 * 8

-- an `int`, as its 32 bits
abbrev pub pages_for : ℕ → ℕ
pages_for bytes = (bytes + node_size + page_size - 1) % 2 ^ 64 / page_size % 2 ^ 32

-- an `int` where 64 bits are wanted
abbrev pub extended : ℕ → ℕ
extended n = if leb (2 ^ 31) n then n + (2 ^ 64 - 2 ^ 32) else n

-- new pages at the end of the heap, as a node at the end of the list
unfoldable pub grow : Bool → Heap → ℕ → Option (Allocation × Heap)
grow pages_left h bytes =
    let room = extended (pages_for bytes * page_size % 2 ^ 32) in
    let p : Allocation = record {
      address = h.heap_vaddr;
      size = (room + 2 ^ 64 - node_size) % 2 ^ 64;
    } in
    let carved = carve bytes p [] in
    if pages_left
    then some (
      carved.0,
      record { free = h.free ++ carved.1; heap_vaddr = (h.heap_vaddr + room) % 2 ^ 64 },
    )
    else none

-- the node in front of the bytes that are returned; `none` is NULL
unfoldable pub common_alloc : Bool → Heap → ℕ → Bool → Option (Allocation × Heap)
common_alloc pages_left h bytes request_contiguous =
    let n = rounded bytes in
    elim (if request_contiguous then none else first_fit n h.free) [
      | none ↦ grow pages_left h n
      | some (b, free) ↦ some (b, record h { free = free })
    ]

-- in front of the first node at a higher address
unfoldable pub insert_free : Allocation → List Allocation → List Allocation
insert_free q [] = q ∷ []
insert_free q (p ∷ ps) =
    let on = insert_free q ps in if ltb p.address q.address then p ∷ on else q ∷ p ∷ ps

-- `p` takes in the nodes that follow it without a gap
unfoldable pub absorb : Allocation → List Allocation → List Allocation
absorb p [] = p ∷ []
absorb p (q ∷ qs) =
    let longer = absorb (record p { size = p.size + (node_size + q.size) }) qs in
    let on = absorb q qs in if end_of p == q.address then longer else p ∷ on

unfoldable pub coalesce_free_list : List Allocation → List Allocation
coalesce_free_list [] = []
coalesce_free_list (p ∷ ps) = absorb p ps

-- Pages at the end of the heap that the last node holds are given back; on fuel.
unfoldable pub shrink_node : ℕ → Allocation → ℕ → Option (Allocation × ℕ)
shrink_node zero last heap_vaddr = none
shrink_node (suc fuel) last heap_vaddr =
    let rest =
      shrink_node fuel (record last { size = last.size - page_size }) (heap_vaddr - page_size) in
    if (end_of last == heap_vaddr) && leb page_size last.size then rest else some (last, heap_vaddr)

abbrev pub in_front : Allocation → Option Heap → Option Heap
in_front p none = none
in_front p (some h) = some (record h { free = p ∷ h.free })

unfoldable pub shrink_list : ℕ → List Allocation → ℕ → Option Heap
shrink_list fuel [] heap_vaddr = some (record { free = []; heap_vaddr = heap_vaddr })
shrink_list fuel (p ∷ []) heap_vaddr = elim (shrink_node fuel p heap_vaddr) [
  | none ↦ none
  | some (last, vaddr) ↦ some (record { free = last ∷ []; heap_vaddr = vaddr })
]
shrink_list fuel (p ∷ q ∷ qs) heap_vaddr = in_front p (shrink_list fuel (q ∷ qs) heap_vaddr)

-- `q` is the node in front of the bytes given back
unfoldable pub kfree : ℕ → Heap → Allocation → Option Heap
kfree fuel h q = shrink_list fuel (coalesce_free_list (insert_free q h.free)) h.heap_vaddr
