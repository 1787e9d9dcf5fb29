-- ===== src/MinHeap/Order.antt =====
-- src/minheap.c: the heap order, the `index` fields, and what moving entries keeps.
use zncache.Base.{
  ℕ, zero, suc, ◌-◌, ◌/◌, ◌≤◌, ◌<◌, ◌≡◌, refl, ◌∙◌, arith, ◌==◌, if◌then◌else◌, Run, Returns,
  Returns-map,
}
use zncache.MinHeap.{Ptr, Minheap, key, swap}

abbrev pub parent_of : ℕ → ℕ
parent_of c = (c - 1) / 2

-- Every edge of the tree is in order.
abbrev pub IsHeap : Minheap → Type 0
IsHeap h = (c : ℕ) → 0 < c → c < h.size → key h (parent_of c) ≤ key h c

-- Every entry knows its place in the array.
abbrev pub IsIndexed : Minheap → Type 0
IsIndexed h = (c : ℕ) → c < h.size → (h.memory (h.arr c)).index ≡ c

-- The heap holds the entry `p`.
abbrev pub Holds : Minheap → Ptr → Type 0
Holds h p = ((h.memory p).index < h.size) × (h.arr (h.memory p).index ≡ p)

-- The same entries with the same contents, perhaps in another order.
pub record SameEntries (g h : Minheap) : Type 0 where
  pub size : h.size ≡ g.size
  pub capacity : h.capacity ≡ g.capacity
  pub priority : (p : Ptr) → (h.memory p).priority ≡ (g.memory p).priority
  pub payload : (p : Ptr) → (h.memory p).payload ≡ (g.memory p).payload
  pub held : (p : Ptr) → Holds g p → Holds h p
  pub holds : (p : Ptr) → Holds h p → Holds g p
  pub aside : (p : Ptr) → ¬ Holds g p → (h.memory p).index ≡ (g.memory p).index

pub SameEntries-refl : (h : Minheap) → SameEntries h h
SameEntries-refl h = record {
  size = refl;
  capacity = refl;
  priority = λ p. refl;
  payload = λ p. refl;
  held = λ p k. k;
  holds = λ p k. k;
  aside = λ p k. refl;
}

pub SameEntries-trans : {f g h : Minheap} → SameEntries f g → SameEntries g h → SameEntries f h
SameEntries-trans s t = record {
  size = t.size ∙ s.size;
  capacity = t.capacity ∙ s.capacity;
  priority = λ p. t.priority p ∙ s.priority p;
  payload = λ p. t.payload p ∙ s.payload p;
  held = λ p k. t.held p (s.held p k);
  holds = λ p k. s.holds p (t.holds p k);
  aside = λ p k. t.aside p (λ m. k (s.holds p m)) ∙ s.aside p k;
}

module _ (h : Minheap) (i j : ℕ) where
  pub priority-swap : (p : Ptr) → ((swap h i j).memory p).priority ≡ (h.memory p).priority
  unfolding swap
  priority-swap p = ground arith

  pub payload-swap : (p : Ptr) → ((swap h i j).memory p).payload ≡ (h.memory p).payload
  unfolding swap
  payload-swap p = ground arith

  pub key-swap :
      (c : ℕ)
      → key (swap h i j) c ≡ (if j == c then key h i else if i == c then key h j else key h c)
  unfolding swap
  key-swap c = ground arith

module _ (h : Minheap) (i j : ℕ) (indexed : IsIndexed h) (hi : i < h.size) (hj : j < h.size) where
  pub swap-IsIndexed : IsIndexed (swap h i j)
  unfolding swap
  swap-IsIndexed c hc = ground (arith, indexed i hi, indexed j hj, indexed c hc)

  swap-held : (p : Ptr) → Holds h p → Holds (swap h i j) p
  unfolding swap
  swap-held p k = ground (arith, indexed i hi, indexed j hj)

  swap-holds : (p : Ptr) → Holds (swap h i j) p → Holds h p
  unfolding swap
  swap-holds p k = ground (arith, indexed i hi, indexed j hj)

  pub swap-SameEntries : SameEntries h (swap h i j)
  unfolding swap
  swap-SameEntries = record {
    size = refl;
    capacity = refl;
    priority = priority-swap h i j;
    payload = payload-swap h i j;
    held = swap-held;
    holds = swap-holds;
    aside = λ p k. ground (arith, indexed i hi, indexed j hj);
  }

-- `h` is a heap of the entries of `g`.
pub record Sifted (g h : Minheap) : Type 0 where
  pub heap : IsHeap h
  pub indexed : IsIndexed h
  pub same : SameEntries g h

pub Sifted-swap :
    {h : Minheap} {i j : ℕ} {r : Run Minheap}
    → IsIndexed h
    → i < h.size
    → j < h.size
    → Returns (Sifted (swap h i j)) r
    → Returns (Sifted h) r
Sifted-swap {h} {i} {j} indexed hi hj run = Returns-map run λ g s. record {
  heap = s.heap;
  indexed = s.indexed;
  same = SameEntries-trans (swap-SameEntries h i j indexed hi hj) s.same;
}

root_least_below : (k : ℕ) (h : Minheap) (i : ℕ) → IsHeap h → i < k → i < h.size → key h 0 ≤ key h i
root_least_below zero h i v f p = absurd (omega arith)
root_least_below (suc k) h i v f p = ground (arith, v i, root_least_below k h (parent_of i) v)

-- The root of a heap has the lowest priority.
pub root_least : (h : Minheap) (i : ℕ) → IsHeap h → i < h.size → key h 0 ≤ key h i
root_least h i v p = root_least_below (suc i) h i v (omega arith) p
