-- ===== src/MinHeap.antt =====
-- src/minheap.c and include/minheap.h: a binary min-heap of pointers to entries.
-- The array and the memory that holds the entries are functions of an index and of an address.
-- What `malloc` and `realloc` return are arguments of the operations that call them.
pub mod Order
pub mod Up
pub mod Down
pub mod Insert
pub mod Extract
pub mod Update
pub mod Destroy
mod Tests
use zncache.Base.{
  ℕ, zero, suc, ◌+◌, ◌-◌, ◌*◌, ◌/◌, ◌%◌, Bool, true, false, ◌&&◌, Option, none, some, List, [], ◌∷◌,
  ltb, leb, ◌==◌, if◌then◌else◌, u32, update, Run, ok, aborted, overrun, out_of_fuel, ◌>>=◌,
}

abbrev pub Ptr : Type 0
Ptr = ℕ

pub record MinheapEntry : Type 0 where
  pub payload : ℕ
  pub priority : ℕ
  pub index : ℕ

pub record Minheap : Type 0 where
  pub arr : ℕ → Ptr
  pub size : ℕ
  pub capacity : ℕ
  pub memory : Ptr → MinheapEntry

-- `heap->arr[i]->priority`
abbrev pub key : Minheap → ℕ → ℕ
key h i = (h.memory (h.arr i)).priority

-- `entry->index = i`
abbrev pub set_index : (Ptr → MinheapEntry) → Ptr → ℕ → Ptr → MinheapEntry
set_index m p i = update m p (record (m p) { index = i })

-- The swap of both loops: the pointers first, then the `index` fields of the two entries.
pub swap : Minheap → ℕ → ℕ → Minheap
swap h i j =
    let a = update (update h.arr i (h.arr j)) j (h.arr i) in
    record h { arr = a; memory = set_index (set_index h.memory (a i) i) (a j) j }

-- Each round but the last moves to a smaller index, so `index + 1` rounds are enough.
pub bubble_up_loop : ℕ → Minheap → ℕ → Run Minheap
bubble_up_loop zero h index = out_of_fuel
bubble_up_loop (suc k) h index =
    let parent = (index - 1) / 2 in
    let rise = bubble_up_loop k (swap h index parent) parent in
    if ltb 0 index then (if ltb (key h index) (key h parent) then rise else ok h) else ok h

pub bubble_up : Minheap → ℕ → Run Minheap
unfolding bubble_up_loop swap
bubble_up h index = bubble_up_loop (index + 1) h index

-- The choice of `smallest` among the index and its two children.
pub smallest_of : Minheap → ℕ → ℕ
smallest_of h index =
    let left = (2 * index + 1) % u32 in
    let right = (2 * index + 2) % u32 in
    let smallest = if ltb left h.size && ltb (key h left) (key h index) then left else index in
    if ltb right h.size && ltb (key h right) (key h smallest) then right else smallest

-- Each round but the last moves to a larger index below `size`, so `size + 1` rounds are enough.
pub bubble_down_loop : ℕ → Minheap → ℕ → Run Minheap
bubble_down_loop zero h index = out_of_fuel
bubble_down_loop (suc k) h index =
    let smallest = smallest_of h index in
    let sink = bubble_down_loop k (swap h index smallest) smallest in
    if smallest == index then ok h else sink

pub bubble_down : Minheap → ℕ → Run Minheap
unfolding bubble_down_loop smallest_of swap
bubble_down h index = bubble_down_loop (h.size + 1) h index

-- `zn_minheap_init`: whether each `malloc` succeeds, and the uninitialised array and memory.
pub init : Bool → Bool → (ℕ → Ptr) → (Ptr → MinheapEntry) → ℕ → Option Minheap
init heap_allocated arr_allocated arr memory capacity =
    if heap_allocated && arr_allocated
    then some (record { arr = arr; size = 0; capacity = capacity; memory = memory })
    else none

-- `minheap_realloc`: `grown` tells whether `realloc` succeeds.
pub realloc : Bool → Minheap → Run Minheap
realloc grown h = if grown then ok (record h { capacity = (h.capacity * 2) % u32 }) else aborted

-- Writes the new entry behind the last one; a write past the capacity is out of bounds.
pub append : Minheap → Ptr → ℕ → ℕ → Run Minheap
append h p payload priority =
    if ltb h.size h.capacity
    then ok (record h {
      arr = update h.arr h.size p;
      size = (h.size + 1) % u32;
      memory =
          update h.memory p (record { payload = payload; priority = priority; index = h.size });
    })
    else overrun

-- `zn_minheap_insert`: `fresh` is what `malloc` returns for the entry.
pub insert : Bool → Option Ptr → Minheap → ℕ → ℕ → Run (Ptr × Minheap)
unfolding realloc append
insert grown fresh h payload priority = do
  roomy ← if h.size == h.capacity then realloc grown h else ok h
  p ← elim fresh [ none ↦ aborted | some p ↦ ok p ]
  longer ← append roomy p payload priority
  heap ← bubble_up longer (longer.memory p).index
  ok (p, heap)

-- `zn_minheap_extract_min`
pub extract_min : Minheap → Run (Option Ptr × Minheap)
extract_min h =
    let shorter = record h { size = h.size - 1 } in
    let moved = record shorter {
      arr = update h.arr 0 (h.arr (h.size - 1));
      memory = set_index h.memory (h.arr (h.size - 1)) 0;
    } in
    if h.size == 0
    then ok (none, h)
    else (if ltb 0 (h.size - 1)
        then (bubble_down moved 0 >>= λ heap. ok (some (h.arr 0), heap))
        else ok (some (h.arr 0), shorter))

-- `entry->priority = new_priority`
abbrev pub set_priority : Minheap → Ptr → ℕ → Minheap
set_priority h p priority = record h {
  memory = update h.memory p (record (h.memory p) { priority = priority });
}

-- `zn_minheap_update_by_entry`: `true` for the result 0 and `false` for -1.
pub update_by_entry : Minheap → Option Ptr → ℕ → Run (Bool × Minheap)
update_by_entry h none new_priority = ok (false, h)
update_by_entry h (some p) new_priority =
    let old_priority = (h.memory p).priority in
    let index = (h.memory p).index in
    let changed = set_priority h p new_priority in
    let sifted : Run Minheap =
      if ltb new_priority old_priority
      then bubble_up changed index
      else (if ltb old_priority new_priority then bubble_down changed index else ok changed) in
    if leb h.size index then ok (false, h) else (sifted >>= λ heap. ok (true, heap))

-- `zn_minheap_destroy`: the entries that are freed, in the order of the calls.
pub freed_from : ℕ → ℕ → Minheap → List Ptr
freed_from zero i h = []
freed_from (suc n) i h = h.arr i ∷ freed_from n (i + 1) h

pub destroy : Minheap → List Ptr
unfolding freed_from
destroy h = freed_from h.size 0 h
