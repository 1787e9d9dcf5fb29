-- ===== src/MinHeap/Destroy.antt =====
-- src/minheap.c: zn_minheap_destroy.
use zncache.Base.{ℕ, zero, suc, ◌+◌, ◌≤◌, ◌≡◌, arith, ltb, leb, ◌==◌, ◌&&◌, if◌then◌else◌, count}
use zncache.MinHeap.{Ptr, Minheap, freed_from, destroy}
use zncache.MinHeap.Order.{IsIndexed}
use zncache.MinHeap.Insert.{IsValid}

freed_from_once :
    (n i : ℕ) (h : Minheap) (p : Ptr)
    → IsIndexed h
    → i + n ≤ h.size
    → count p (freed_from n i h) ≡ (
        if leb i (h.memory p).index
          && ltb (h.memory p).index (i + n)
          && (h.arr (h.memory p).index == p)
        then 1
        else 0)
unfolding freed_from
freed_from_once zero i h p v fits = ground arith
freed_from_once (suc n) i h p v fits = ground (arith, v i, freed_from_once n (i + 1) h p v)

-- zn_minheap_destroy frees each entry that a valid heap holds exactly once, and nothing else.
pub destroy_frees_once :
    (h : Minheap) (p : Ptr)
    → IsValid h
    → count p (destroy h)
      ≡ (if ltb (h.memory p).index h.size && (h.arr (h.memory p).index == p) then 1 else 0)
unfolding destroy
destroy_frees_once h p v = ground (arith, freed_from_once h.size 0 h p v.indexed)
