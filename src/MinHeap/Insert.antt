-- ===== src/MinHeap/Insert.antt =====
-- src/minheap.c: zn_minheap_init, zn_minheap_insert and the growth of the array.
use zncache.Base.{
  ℕ, ◌+◌, ◌*◌, ◌^◌, ◌≤◌, ◌<◌, ◌≡◌, refl, ◌≢◌, ◌⊎◌, ◌↔◌, arith, true, some, ◌==◌, if◌then◌else◌,
  update, u32, ◌%◌, ok, ◌>>=◌, Bool-cases, inl, inr, Returns, returns, Returns-bind, Returns-map,
}
use zncache.MinHeap.{Ptr, MinheapEntry, Minheap, init, append, bubble_up, insert}
use zncache.MinHeap.Order.{IsHeap, IsIndexed, Holds, Sifted, parent_of}
use zncache.MinHeap.Up.{RisesAt, bubble_up_restores}

-- A heap between two calls.
pub record IsValid (h : Minheap) : Type 0 where
  pub heap : IsHeap h
  pub indexed : IsIndexed h
  pub room : h.size ≤ h.capacity
  pub fits : h.capacity < 2 ^ 31

-- What an insertion of the entry `p` returns, with the capacity `room`.
pub record Inserted (h : Minheap) (room : ℕ) (p : Ptr) (item prio : ℕ) (r : Ptr × Minheap)
    : Type 0 where
  pub entry : r.0 ≡ p
  pub valid : IsValid r.1
  pub size : r.1.size ≡ h.size + 1
  pub capacity : r.1.capacity ≡ room
  pub held : (q : Ptr) → Holds r.1 q ↔ (Holds h q ⊎ (q ≡ p))
  pub priority : (r.1.memory p).priority ≡ prio
  pub payload : (r.1.memory p).payload ≡ item
  pub kept : (q : Ptr) → q ≢ p → (r.1.memory q).priority ≡ (h.memory q).priority
  pub data_kept : (q : Ptr) → q ≢ p → (r.1.memory q).payload ≡ (h.memory q).payload

-- An initialised heap is valid and empty, whatever the fresh array and memory hold.
pub init-IsValid :
    (arr : ℕ → Ptr) (memory : Ptr → MinheapEntry) (capacity : ℕ) (heap : Minheap)
    → capacity < 2 ^ 31
    → init true true arr memory capacity ≡ some heap
    → IsValid heap × (heap.size ≡ 0)
unfolding init
init-IsValid arr memory capacity heap fits e = (
  record {
    heap = λ c p q. ground arith;
    indexed = λ c q. ground arith;
    room = ground arith;
    fits = ground arith;
  },
  ground arith,
)

module _ (h : Minheap) (p : Ptr) (payload priority : ℕ) (indexed : IsIndexed h) (heap : IsHeap h)
    (fresh : ¬ Holds h p) (room : h.size < h.capacity) (fits : h.capacity < 2 ^ 31) where
  abbrev longer : Minheap
  longer = record h {
    arr = update h.arr h.size p;
    size = h.size + 1;
    memory = update h.memory p (record { payload = payload; priority = priority; index = h.size });
  }

  append-ok : append h p payload priority ≡ ok longer
  unfolding append
  append-ok = let e : (h.size + 1) % u32 ≡ h.size + 1 = omega arith in rw e (ground arith)

  fresh_at : (c : ℕ) → c < h.size → h.arr c ≢ p
  fresh_at c q e = ground (arith, indexed c q, fresh)

  longer-RisesAt : RisesAt longer h.size
  longer-RisesAt = record {
    inside = omega arith;
    indexed = λ c q. ground (arith, indexed c, fresh_at c);
    edges = λ c q r s. ground (arith, heap c, fresh_at c, fresh_at (parent_of c));
    bridged = λ c q r s t u. absurd (ground arith);
  }

  longer_held : (q : Ptr) → Holds longer q ↔ (Holds h q ⊎ (q ≡ p))
  longer_held q = ground (arith, indexed (h.memory q).index, fresh_at (h.memory q).index)

  added : (r : Minheap) → Sifted longer r → Inserted h h.capacity p payload priority (p, r)
  added r s = record {
    entry = refl;
    valid = record {
      heap = s.heap;
      indexed = s.indexed;
      room = omega (arith, s.same.size, s.same.capacity);
      fits = omega (arith, s.same.capacity);
    };
    size = s.same.size;
    capacity = s.same.capacity;
    held =
        λ q. (λ k. (longer_held q).0 (s.same.holds q k), λ k. s.same.held q ((longer_held q).1 k));
    priority = ground (arith, s.same.priority p);
    payload = ground (arith, s.same.payload p);
    kept = λ q ne. ground (arith, s.same.priority q);
    data_kept = λ q ne. ground (arith, s.same.payload q);
  }

  pub pushed :
      Returns (Inserted h h.capacity p payload priority) (
        append h p payload priority >>= λ g.
        bubble_up g (g.memory p).index >>= λ heap. ok (p, heap))
  pushed =
      let at : (longer.memory p).index ≡ h.size = ground arith in
      rw (append-ok, at)
        (Returns-bind (bubble_up_restores longer h.size longer-RisesAt) λ r s. returns (added r s))

regrown :
    {h : Minheap} {p : Ptr} {item prio : ℕ} (room : ℕ) (r : Ptr × Minheap)
    → Inserted (record h { capacity = room }) room p item prio r
    → Inserted h room p item prio r
regrown room r s = record {
  entry = s.entry;
  valid = s.valid;
  size = s.size;
  capacity = s.capacity;
  held = s.held;
  priority = s.priority;
  payload = s.payload;
  kept = s.kept;
  data_kept = s.data_kept;
}

-- zn_minheap_insert of a new entry into a valid heap of a capacity from 1 to 2^30 - 1, where memory
-- can be had, returns a valid heap of the old entries and the new one. The capacity is doubled where
-- the heap was full and kept otherwise; the new entry has the given data and priority, and no other
-- entry's data or priority changes.
pub insert_correct :
    (h : Minheap) (p : Ptr) (item prio : ℕ)
    → IsValid h
    → ¬ Holds h p
    → 0 < h.capacity
    → h.capacity < 2 ^ 30
    → Returns
        (Inserted h (if h.size == h.capacity then h.capacity * 2 else h.capacity) p item prio)
        (insert true (some p) h item prio)
unfolding insert
insert_correct h p item prio v fresh some_room bound = elim (Bool-cases (h.size == h.capacity)) [
  | inl full ↦
      let exact : (h.capacity * 2) % u32 ≡ h.capacity * 2 = omega arith in
      rw (full, exact)
        (Returns-map
          (pushed (record h { capacity = h.capacity * 2 }) p item prio v.indexed v.heap fresh
            (ground arith) (omega arith))
          (regrown (h.capacity * 2)))
  | inr room ↦ rw room (pushed h p item prio v.indexed v.heap fresh (ground (arith, v.room)) v.fits)
]
