-- ===== src/MinHeap/Up.antt =====
-- src/minheap.c: bubble_up.
use zncache.Base.{ℕ, zero, suc, ◌+◌, ◌≤◌, ◌<◌, ◌≢◌, arith, ltb, Returns, returns, Returns-if}
use zncache.MinHeap.{Minheap, key, swap, bubble_up_loop, bubble_up}
use zncache.MinHeap.Order.{
  IsIndexed, Sifted, Sifted-swap, SameEntries-refl, parent_of, key-swap, swap-IsIndexed,
}

-- Every edge is in order but the one above `i`, and the parent of `i` is not above its children.
pub record RisesAt (h : Minheap) (i : ℕ) : Type 0 where
  pub inside : i < h.size
  pub indexed : IsIndexed h
  pub edges : (c : ℕ) → 0 < c → c < h.size → c ≢ i → key h (parent_of c) ≤ key h c
  pub bridged :
      (c : ℕ)
      → 0 < c
      → c < h.size
      → 0 < i
      → i ≤ parent_of c
      → parent_of c ≤ i
      → key h (parent_of i) ≤ key h c

swap-RisesAt :
    (h : Minheap) (i : ℕ)
    → RisesAt h i
    → 0 < i
    → key h i < key h (parent_of i)
    → RisesAt (swap h i (parent_of i)) (parent_of i)
unfolding swap
swap-RisesAt h i v pos below =
    let at = key-swap h i (parent_of i) in
    record {
      inside = ground (arith, v.inside);
      indexed = swap-IsIndexed h i (parent_of i) v.indexed v.inside (ground (arith, v.inside));
      edges = λ c p q r. ground (arith, at c, at (parent_of c), v.edges c, v.bridged c, v.inside);
      bridged = λ c p q r s t.
          ground
            (arith, at c, at (parent_of (parent_of i)), v.edges c, v.edges (parent_of i), v.inside);
    }

bubble_up_loop_restores :
    (k : ℕ) (h : Minheap) (i : ℕ) → i < k → RisesAt h i → Returns (Sifted h) (bubble_up_loop k h i)
unfolding bubble_up_loop
bubble_up_loop_restores zero h i f v = absurd (omega arith)
bubble_up_loop_restores (suc k) h i f v =
    Returns-if (ltb 0 i)
      (λ pos.
        Returns-if (ltb (key h i) (key h (parent_of i)))
          (λ below. Sifted-swap v.indexed v.inside (ground (arith, v.inside)) (
            bubble_up_loop_restores k (swap h i (parent_of i)) (parent_of i) (ground arith)
              (swap-RisesAt h i v (ground arith) (ground arith))))
          (λ settled. returns (record {
            heap = λ c p q. ground (arith, v.edges c);
            indexed = v.indexed;
            same = SameEntries-refl h;
          })))
      (λ root. returns (record {
        heap = λ c p q. v.edges c p q (ground arith);
        indexed = v.indexed;
        same = SameEntries-refl h;
      }))

-- Where only the edge above one entry is out of order, bubble_up returns a heap of the same entries.
pub bubble_up_restores : (h : Minheap) (i : ℕ) → RisesAt h i → Returns (Sifted h) (bubble_up h i)
unfolding bubble_up
bubble_up_restores h i v = bubble_up_loop_restores (i + 1) h i (omega arith) v
