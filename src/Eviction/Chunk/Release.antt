-- ===== src/Eviction/Chunk/Release.antt =====
-- src/eviction/chunk.c: the policy after a chunk left it.
use zncache.Base.{
  ℕ, ◌+◌, ◌-◌, ◌%◌, ◌<◌, ◌≡◌, ◌≢◌, refl, ap, sym, ◌∙◌, arith, inl, inr, true, false, Option-cases,
  some, ◌∷◌, ◌==◌, if◌then◌else◌, u32, update, eq_or_ne, Returns, returns, Returns-map,
}
use zncache.MinHeap.{Ptr, Minheap, update_by_entry}
use zncache.MinHeap.Order.{Holds}
use zncache.MinHeap.Insert.{IsValid}
use zncache.MinHeap.Update.{update_by_entry_correct, update_by_entry_null}
use zncache.Eviction.Lru.{Lru}
use zncache.Eviction.Lru.Queue.{elements, listed}
use zncache.Eviction.Lru.Moves.{IsLinked, first_once}
use zncache.Eviction.Chunk.{ChunkPolicy, chunk_at, release}
use zncache.Eviction.Chunk.Pool.{used, used-update, used-le, address_injective}
use zncache.Eviction.Chunk.Invariant.{order_of, IsCounted}

-- A heap of the same entries, in which the zone that lost a chunk has its new count.
pub record Rekeyed (zones : ℕ) (p : ChunkPolicy) (z : ℕ) (heap : Minheap) : Type 0 where
  pub valid : IsValid heap
  pub held : (e : Ptr) → Holds p.invalid_pqueue e → Holds heap e
  pub payload : (e : Ptr) → (heap.memory e).payload ≡ (p.invalid_pqueue.memory e).payload
  pub own :
      (e : Ptr)
      → (p.zone_pool z).pqueue_entry ≡ some e
      → (heap.memory e).priority ≡ ((p.zone_pool z).chunks_in_use + u32 - 1) % u32
  pub other :
      (y e : ℕ)
      → y ≢ z
      → y < zones
      → (p.zone_pool y).pqueue_entry ≡ some e
      → (heap.memory e).priority ≡ (p.invalid_pqueue.memory e).priority

-- zn_minheap_update_by_entry of the entry of the zone, if it has one.
pub update-Rekeyed :
    (zones : ℕ) (p : ChunkPolicy) (z : ℕ)
    → IsCounted zones p
    → z < zones
    → Returns
        (λ (done, heap). Rekeyed zones p z heap)
        (update_by_entry p.invalid_pqueue
          (p.zone_pool z).pqueue_entry
          (((p.zone_pool z).chunks_in_use + u32 - 1) % u32))
update-Rekeyed zones p z k inside = elim (Option-cases ((p.zone_pool z).pqueue_entry)) [
  | inl nothing ↦
      rw
        (
          nothing,
          update_by_entry_null p.invalid_pqueue (((p.zone_pool z).chunks_in_use + u32 - 1) % u32),
        )
        (returns (record {
          valid = k.heap;
          held = λ e h. h;
          payload = λ e. refl;
          own = λ e at. cc;
          other = λ y e ne yi at. refl;
        }))
  | inr (e, at) ↦ rw at (
      Returns-map
        (update_by_entry_correct p.invalid_pqueue e
          (((p.zone_pool z).chunks_in_use + u32 - 1) % u32) k.heap (k.held z e inside at))
        λ (done, heap) (is, u). record {
          valid = u.valid;
          held = λ d h. (u.held d).1 h;
          payload = u.payload;
          own = λ d same. let is_e : e ≡ d = cc in ground (arith, u.priority d, is_e);
          other = λ y d ne yi there.
              let apart : d ≢ e = λ s. ne (
                sym (k.payload y d yi there)
                ∙ (ap (λ x. (p.invalid_pqueue.memory x).payload) s ∙ k.payload z e inside at)) in
              ground (arith, u.priority d, apart);
        })
]

module _ (zones : ℕ) (p : ChunkPolicy) (z ch : ℕ) (k : IsCounted zones p) (inside : z < zones)
    (below : ch < p.max_zone_chunks) (was : ((p.zone_pool z).chunks ch).in_use ≡ true) (lru : Lru)
    (linked : IsLinked lru) (order : order_of p ≡ chunk_at p z ch ∷ elements lru.queue)
    (heap : Minheap) (r : Rekeyed zones p z heap) where
  abbrev after : ChunkPolicy
  after = record p {
    lru = lru;
    invalid_pqueue = heap;
    zone_pool = update p.zone_pool z (release (p.zone_pool z) ch);
  }

  absent : listed (chunk_at p z ch) (elements lru.queue) ≡ false
  absent = first_once p.lru (chunk_at p z ch) (elements lru.queue) k.linked order

  before-listed :
      (a : ℕ)
      → listed a (order_of p)
        ≡ (if chunk_at p z ch == a then true else listed a (elements lru.queue))
  before-listed a = ap (listed a) order

  after-listed :
      (y c : ℕ)
      → y < zones
      → c < p.max_zone_chunks
      → listed (chunk_at p y c) (elements lru.queue) ≡ ((after.zone_pool y).chunks c).in_use
  after-listed y c yi ci = elim (eq_or_ne (chunk_at p z ch) (chunk_at p y c)) [
    | inl same ↦
        let (zs, cs) = address_injective p.max_zone_chunks z ch y c below ci same in
        ap (λ (a : ℕ). listed a (elements lru.queue)) (sym same) ∙ (absent ∙ ground (arith, zs, cs))
    | inr ne ↦
        let apart : z ≡ y → ch ≢ c = λ zs cs. ground (arith, ne, zs, cs) in
        ground (arith, ne, apart, before-listed (chunk_at p y c), k.listed_used y c yi ci)
  ]

  one_less : (after.zone_pool z).chunks_in_use + 1 ≡ (p.zone_pool z).chunks_in_use
  one_less =
      let u =
        used-update p.max_zone_chunks ch (p.zone_pool z).chunks
          ((release (p.zone_pool z) ch).chunks ch) below in
      let top = used-le p.max_zone_chunks (p.zone_pool z).chunks in
      ground (arith, u, top, was, k.counted z inside, k.short)

  after-counted :
      (y : ℕ)
      → y < zones
      → (after.zone_pool y).chunks_in_use ≡ used p.max_zone_chunks (after.zone_pool y).chunks
  after-counted y yi = elim (eq_or_ne z y) [
    | inr ne ↦ ground (arith, ne, k.counted y yi)
    | inl same ↦
        let u =
          used-update p.max_zone_chunks ch (p.zone_pool z).chunks
            ((release (p.zone_pool z) ch).chunks ch) below in
        rw (← same) (ground (arith, u, was, k.counted z inside, one_less))
  ]

  -- The queue, the counts and the heap agree as before.
  pub released-IsCounted : IsCounted zones after
  released-IsCounted = record {
    linked = linked;
    some_chunk = k.some_chunk;
    short = k.short;
    listed_used = after-listed;
    inside = λ a there. k.inside a (ground (arith, there, before-listed a));
    own = λ y c yi ci. ground (arith, k.own y c yi ci);
    counted = after-counted;
    heap = r.valid;
    held = λ y e yi at. r.held e (k.held y e yi (ground (arith, at)));
    payload = λ y e yi at. r.payload e ∙ k.payload y e yi (ground (arith, at));
    priority = λ y e yi at. elim (eq_or_ne y z) [
      | inl same ↦ ground (arith, at, same, r.own e)
      | inr ne ↦ ground (arith, at, ne, r.other y e ne yi, k.priority y e yi)
    ];
  }
