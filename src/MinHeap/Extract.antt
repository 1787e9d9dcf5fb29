-- ===== src/MinHeap/Extract.antt =====
-- src/minheap.c: zn_minheap_extract_min.
use zncache.Base.{
  ◌+◌, ◌-◌, ◌≤◌, ◌<◌, ◌≡◌, refl, ◌≢◌, ◌↔◌, arith, some, ltb, ◌==◌, update, Returns, returns,
  Returns-bind, Returns-if,
}
use zncache.MinHeap.{Ptr, Minheap, set_index, extract_min}
use zncache.MinHeap.Order.{Holds, root_least}
use zncache.MinHeap.Down.{SinksAt, bubble_down_restores}
use zncache.MinHeap.Insert.{IsValid}

-- `g` is `h` without its entry `p`, which had the lowest priority.
pub record Extracted (h : Minheap) (p : Ptr) (g : Minheap) : Type 0 where
  pub valid : IsValid g
  pub size : g.size + 1 ≡ h.size
  pub was : Holds h p
  pub least : (q : Ptr) → Holds h q → (h.memory p).priority ≤ (h.memory q).priority
  pub held : (q : Ptr) → Holds g q ↔ (Holds h q × (q ≢ p))
  pub priority : (q : Ptr) → (g.memory q).priority ≡ (h.memory q).priority
  pub payload : (q : Ptr) → (g.memory q).payload ≡ (h.memory q).payload
  -- The entry that is handed out keeps its index.
  pub stale : (g.memory p).index ≡ 0

module _ (h : Minheap) (v : IsValid h) (some_left : 1 < h.size) where
  abbrev last : Ptr
  last = h.arr (h.size - 1)

  abbrev moved : Minheap
  moved = record h {
    arr = update h.arr 0 last;
    size = h.size - 1;
    memory = set_index h.memory last 0;
  }

  moved-SinksAt : SinksAt moved 0
  moved-SinksAt = record {
    inside = omega arith;
    fits = omega (arith, v.room, v.fits);
    indexed = λ c q. ground (arith, v.indexed c, v.indexed (h.size - 1));
    edges = λ c q r s. ground (arith, v.heap c);
    bridged = λ c q r s t. absurd (omega arith);
  }

  moved_held : (q : Ptr) → Holds moved q ↔ (Holds h q × (q ≢ h.arr 0))
  moved_held q = (
    λ k. ground (arith, v.indexed 0, v.indexed (h.size - 1)),
    λ (k, ne). ground (arith, v.indexed 0, v.indexed (h.size - 1)),
  )

root_lowest :
    (h : Minheap)
    → IsValid h
    → 0 < h.size
    → (q : Ptr) → Holds h q
    → (h.memory (h.arr 0)).priority ≤ (h.memory q).priority
root_lowest h v pos q k = ground (arith, root_least h (h.memory q).index v.heap)

-- zn_minheap_extract_min on a valid heap that is not empty returns an entry of the lowest priority,
-- and leaves a valid heap of exactly the other entries, all with their priorities and data.
pub extract_min_correct :
    (h : Minheap)
    → IsValid h
    → 0 < h.size
    → Returns (λ r. (p : Ptr) × (r.0 ≡ some p) × Extracted h p r.1) (extract_min h)
unfolding extract_min
extract_min_correct h v pos =
    Returns-if (h.size == 0) (λ e. absurd (ground arith))
      λ _.
        Returns-if (ltb 0 (h.size - 1))
          (λ more.
            let some_left : 1 < h.size = ground arith in
            Returns-bind
              (bubble_down_restores (moved h v some_left) 0 (moved-SinksAt h v some_left))
              λ g s. returns (
                h.arr 0,
                refl,
                record {
                  valid = record {
                    heap = s.heap;
                    indexed = s.indexed;
                    room = omega (arith, s.same.size, s.same.capacity, v.room);
                    fits = omega (arith, s.same.capacity, v.fits);
                  };
                  size = omega (arith, s.same.size);
                  was = ground (arith, v.indexed 0);
                  least = root_lowest h v pos;
                  held = λ q. (
                    λ k. (moved_held h v some_left q).0 (s.same.holds q k),
                    λ k. s.same.held q ((moved_held h v some_left q).1 k),
                  );
                  priority = λ q. ground (arith, s.same.priority q);
                  payload = λ q. ground (arith, s.same.payload q);
                  stale =
                      ground (arith, v.indexed 0, s.same.aside (h.arr 0), v.indexed (h.size - 1));
                },
              ))
          (λ one. returns (
            h.arr 0,
            refl,
            record {
              valid = record {
                heap = λ c q r. ground arith;
                indexed = λ c q. ground arith;
                room = ground (arith, v.room);
                fits = v.fits;
              };
              size = ground arith;
              was = ground (arith, v.indexed 0);
              least = root_lowest h v pos;
              held = λ q. (λ k. ground arith, λ (k, ne). ground arith);
              priority = λ q. refl;
              payload = λ q. refl;
              stale = v.indexed 0 pos;
            },
          ))
