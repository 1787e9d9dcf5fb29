-- ===== src/MinHeap/Update.antt =====
-- src/minheap.c: zn_minheap_update_by_entry.
use zncache.Base.{
  ℕ, ◌≤◌, ◌<◌, ◌≡◌, refl, ◌≢◌, ◌↔◌, arith, true, false, none, some, ltb, leb, ◌==◌, if◌then◌else◌,
  ok, Returns, returns, Returns-bind, Returns-map, Returns-if,
}
use zncache.MinHeap.{
  Ptr, Minheap, key, set_priority, bubble_up, bubble_down, smallest_of, update_by_entry,
}
use zncache.MinHeap.Order.{IsHeap, Holds, Sifted, SameEntries-refl, parent_of}
use zncache.MinHeap.Up.{RisesAt, bubble_up_restores}
use zncache.MinHeap.Down.{SinksAt, bubble_down_restores}
use zncache.MinHeap.Insert.{IsValid}
use zncache.MinHeap.Extract.{Extracted}

-- `g` is `h` with the priority of `p` changed to `prio`.
pub record Updated (h : Minheap) (p : Ptr) (prio : ℕ) (g : Minheap) : Type 0 where
  pub valid : IsValid g
  pub size : g.size ≡ h.size
  pub held : (q : Ptr) → Holds g q ↔ Holds h q
  pub priority :
      (q : Ptr) → (g.memory q).priority ≡ (if q == p then prio else (h.memory q).priority)
  pub payload : (q : Ptr) → (g.memory q).payload ≡ (h.memory q).payload

module _ (h : Minheap) (p : Ptr) (prio : ℕ) (v : IsValid h) (k : Holds h p) where
  abbrev changed : Minheap
  changed = set_priority h p prio

  -- The parent of the entry is not above its children.
  skip_edge :
      (c : ℕ)
      → 0 < c
      → c < h.size
      → 0 < (h.memory p).index
      → parent_of c ≡ (h.memory p).index
      → key changed (parent_of (h.memory p).index) ≤ key changed c
  skip_edge c q r s e =
      let lower = v.heap c q r in
      let upper = v.heap (h.memory p).index s k.0 in
      ground (arith, lower, upper, v.indexed c, v.indexed (parent_of (h.memory p).index))

  changed_rises : prio ≤ (h.memory p).priority → RisesAt changed (h.memory p).index
  changed_rises lower = record {
    inside = k.0;
    indexed = λ c q. ground (arith, v.indexed c);
    edges = λ c q r s. ground (arith, v.heap c, v.indexed c);
    bridged = λ c q r s t u. skip_edge c q r s (omega arith);
  }

  changed_sinks : (h.memory p).priority ≤ prio → SinksAt changed (h.memory p).index
  changed_sinks higher = record {
    inside = k.0;
    fits = omega (arith, v.room, v.fits);
    indexed = λ c q. ground (arith, v.indexed c);
    edges = λ c q r s. ground (arith, v.heap c, v.indexed c, v.indexed (parent_of c));
    bridged = λ c q r s t. skip_edge c q r t s;
  }

  changed_settles : prio ≡ (h.memory p).priority → Sifted changed changed
  changed_settles equal = record {
    heap = λ c q r. ground (arith, v.heap c q r);
    indexed = λ c q. ground (arith, v.indexed c q);
    same = SameEntries-refl changed;
  }

  Sifted-Updated : (g : Minheap) → Sifted changed g → Updated h p prio g
  Sifted-Updated g s = record {
    valid = record {
      heap = s.heap;
      indexed = s.indexed;
      room = omega (arith, s.same.size, s.same.capacity, v.room);
      fits = omega (arith, s.same.capacity, v.fits);
    };
    size = s.same.size;
    held = λ q. (λ m. ground (arith, s.same.holds q m), λ m. s.same.held q (ground arith));
    priority = λ q. ground (arith, s.same.priority q);
    payload = λ q. ground (arith, s.same.payload q);
  }

-- zn_minheap_update_by_entry of an entry that a valid heap holds returns 0 and leaves a valid heap
-- of the same entries, where that entry has the new priority and all else is as before.
pub update_by_entry_correct :
    (h : Minheap) (p : Ptr) (prio : ℕ)
    → IsValid h
    → Holds h p
    → Returns (λ r. (r.0 ≡ true) × Updated h p prio r.1) (update_by_entry h (some p) prio)
unfolding update_by_entry
update_by_entry_correct h p prio v k =
    let done =
      λ (g : Minheap) (s : Sifted (changed h p prio v k) g). Sifted-Updated h p prio v k g s in
    Returns-if (leb h.size (h.memory p).index) (λ e. absurd (ground arith))
      λ _.
        Returns-bind
          (Returns-if (ltb prio (h.memory p).priority)
            (λ lower.
              Returns-map (bubble_up_restores _ _ (changed_rises h p prio v k (ground arith))) done)
            (λ not_lower.
              Returns-if (ltb (h.memory p).priority prio)
                (λ higher.
                  Returns-map (bubble_down_restores _ _ (changed_sinks h p prio v k (ground arith)))
                    done)
                (λ not_higher. returns (done _ (changed_settles h p prio v k (ground arith))))))
          λ g u. returns (refl, u)

-- In a valid heap the root is the smallest of itself and its children.
smallest_of_root : (h : Minheap) → IsHeap h → 0 < h.size → smallest_of h 0 ≡ 0
unfolding smallest_of
smallest_of_root h v pos = ground (arith, v 1, v 2)

module _ (h g : Minheap) (p : Ptr) (prio : ℕ) (x : Extracted h p g) (pos : 0 < g.size) where
  gone : ¬ Holds g p
  gone m = ((x.held p).0 m).1 refl

  elsewhere : (c : ℕ) → c < g.size → g.arr c ≢ p
  elsewhere c q = ground (arith, x.valid.indexed c q, gone)

  stale-IsHeap : IsHeap (set_priority g p prio)
  stale-IsHeap c q r =
      ground (arith, x.valid.heap c q r, elsewhere c r, elsewhere (parent_of c) (omega arith))

  -- A handle of an entry that was extracted is not refused: where the heap is not empty,
  -- zn_minheap_update_by_entry returns 0, writes the priority of the entry that the caller owns and
  -- leaves the array and every other entry alone, although the heap does not hold the entry.
  pub update_by_entry_stale :
      (update_by_entry g (some p) prio ≡ ok (true, set_priority g p prio)) × (¬ Holds g p)
  unfolding update_by_entry bubble_up bubble_down
  update_by_entry_stale =
      (ground (arith, x.stale, smallest_of_root (set_priority g p prio) stale-IsHeap pos), gone)

pub update_by_entry_null : (h : Minheap) (prio : ℕ) → update_by_entry h none prio ≡ ok (false, h)
unfolding update_by_entry
update_by_entry_null h prio = refl
