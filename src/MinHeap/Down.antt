-- ===== src/MinHeap/Down.antt =====
-- src/minheap.c: bubble_down.
use zncache.Base.{
  ℕ, zero, suc, ◌+◌, ◌-◌, ◌*◌, ◌%◌, ◌^◌, ◌≤◌, ◌<◌, ◌≡◌, ◌≢◌, ◌⊎◌, arith, ◌==◌, Returns, returns,
  Returns-if, u32,
}
use zncache.MinHeap.{Minheap, key, swap, smallest_of, bubble_down_loop, bubble_down}
use zncache.MinHeap.Order.{
  IsIndexed, Sifted, Sifted-swap, SameEntries-refl, parent_of, key-swap, swap-IsIndexed,
}

-- Every edge is in order but those below `i`, and the parent of `i` is not above its children.
pub record SinksAt (h : Minheap) (i : ℕ) : Type 0 where
  pub inside : i < h.size
  -- The index of a right child of an entry does not wrap.
  pub fits : h.size < 2 ^ 31
  pub indexed : IsIndexed h
  pub edges : (c : ℕ) → 0 < c → c < h.size → parent_of c ≢ i → key h (parent_of c) ≤ key h c
  pub bridged :
      (c : ℕ) → 0 < c → c < h.size → parent_of c ≡ i → 0 < i → key h (parent_of i) ≤ key h c

-- `m` is `i` or a child of `i`, and has the lowest key of these.
record IsSmallest (h : Minheap) (i m : ℕ) : Type 0 where
  inside : m < h.size
  near : (m ≡ i) ⊎ ((0 < m) × (parent_of m ≡ i))
  below : m ≢ i → key h m < key h i
  top : key h m ≤ key h i
  least : (c : ℕ) → 0 < c → c < h.size → parent_of c ≡ i → key h m ≤ key h c

smallest_of-IsSmallest :
    (h : Minheap) (i : ℕ) → i < h.size → h.size < 2 ^ 31 → IsSmallest h i (smallest_of h i)
unfolding smallest_of
smallest_of-IsSmallest h i hi fits =
    let left : (2 * i + 1) % u32 ≡ 2 * i + 1 = omega arith in
    let right : (2 * i + 2) % u32 ≡ 2 * i + 2 = omega arith in
    rw (left, right)
      (record {
        inside = ground arith;
        near = ground arith;
        below = ground arith;
        top = ground arith;
        least = λ c p q r. ground arith;
      })

swap-SinksAt :
    (h : Minheap) (i m : ℕ) → SinksAt h i → IsSmallest h i m → m ≢ i → SinksAt (swap h i m) m
unfolding swap
swap-SinksAt h i m v s ne =
    let at = key-swap h i m in
    record {
      inside = s.inside;
      fits = v.fits;
      indexed = swap-IsIndexed h i m v.indexed v.inside s.inside;
      edges = λ c p q r. ground (
        arith,
        at c,
        at (parent_of c),
        v.edges c,
        v.bridged m,
        s.least c,
        s.near,
        s.below ne,
        s.top,
      );
      bridged = λ c p q r t. ground (arith, at c, at (parent_of m), v.edges c, s.near, s.below ne);
    }

bubble_down_loop_restores :
    (k : ℕ) (h : Minheap) (i : ℕ)
    → h.size - i < k
    → SinksAt h i
    → Returns (Sifted h) (bubble_down_loop k h i)
unfolding bubble_down_loop swap
bubble_down_loop_restores zero h i f v = absurd (omega arith)
bubble_down_loop_restores (suc k) h i f v =
    let m = smallest_of h i in
    let s = smallest_of-IsSmallest h i v.inside v.fits in
    Returns-if (m == i)
      (λ here. returns (record {
        heap = λ c p q. ground (arith, v.edges c, s.least c);
        indexed = v.indexed;
        same = SameEntries-refl h;
      }))
      (λ child. Sifted-swap v.indexed v.inside s.inside (
        bubble_down_loop_restores k (swap h i m) m (ground (arith, s.near))
          (swap-SinksAt h i m v s (ground arith))))

-- Where only the edges below one entry are out of order, bubble_down returns a heap of the same
-- entries.
pub bubble_down_restores :
    (h : Minheap) (i : ℕ) → SinksAt h i → Returns (Sifted h) (bubble_down h i)
unfolding bubble_down
bubble_down_restores h i v = bubble_down_loop_restores (h.size + 1) h i (omega arith) v
