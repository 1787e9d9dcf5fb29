-- ===== src/Eviction/Chunk/Written.antt =====
-- src/eviction/chunk.c: the policy after a chunk was written, and after a zone has entered the heap.
use zncache.Base.{
  ℕ, ◌<◌, ◌≡◌, ◌≢◌, ap, sym, ◌∙◌, arith, inl, inr, true, false, none, some, [], ◌∷◌, ◌++◌, ◌==◌,
  if◌then◌else◌, update, eq_or_ne,
}
use zncache.MinHeap.{Ptr, Minheap}
use zncache.MinHeap.Order.{Holds}
use zncache.MinHeap.Insert.{Inserted}
use zncache.Zones.{ZnPair}
use zncache.Eviction.Lru.{Lru}
use zncache.Eviction.Lru.Queue.{elements, listed}
use zncache.Eviction.Lru.Ordering.{listed-append}
use zncache.Eviction.Lru.Moves.{IsLinked}
use zncache.Eviction.Chunk.{ChunkPolicy, chunk_at, occupied}
use zncache.Eviction.Chunk.Pool.{used, used-update, used-le, address_injective, address_bound}
use zncache.Eviction.Chunk.Invariant.{order_of, IsCounted}

-- A chunk may be written: it is one of the pool and not in use, and its zone is not in the heap.
pub record Writable (zones : ℕ) (p : ChunkPolicy) (location : ZnPair) : Type 0 where
  pub zone_inside : location.zone < zones
  pub chunk_inside : location.chunk_offset < p.max_zone_chunks
  pub unused : ((p.zone_pool location.zone).chunks location.chunk_offset).in_use ≡ false
  pub not_full : (p.zone_pool location.zone).pqueue_entry ≡ none

-- The policy after a write, before a full zone enters the heap.
abbrev pub written : Lru → ChunkPolicy → ZnPair → ChunkPolicy
written lru p location = record p {
  lru = lru;
  zone_pool = update p.zone_pool location.zone (occupied (p.zone_pool location.zone) location);
}

module _ (zones : ℕ) (p : ChunkPolicy) (location : ZnPair) (lru : Lru) (k : IsCounted zones p)
    (w : Writable zones p location) (linked : IsLinked lru)
    (last : elements lru.queue
      ≡ order_of p ++ chunk_at p location.zone location.chunk_offset ∷ []) where
  abbrev here : ℕ
  here = chunk_at p location.zone location.chunk_offset

  now-listed :
      (a : ℕ) → listed a (elements lru.queue) ≡ (if here == a then true else listed a (order_of p))
  now-listed a = ap (listed a) last ∙ listed-append here a (order_of p)

  written-listed :
      (z c : ℕ)
      → z < zones
      → c < p.max_zone_chunks
      → listed (chunk_at p z c) (elements lru.queue)
        ≡ (((written lru p location).zone_pool z).chunks c).in_use
  written-listed z c inside below =
      now-listed (chunk_at p z c) ∙ (elim (eq_or_ne here (chunk_at p z c)) [
        | inl same ↦
            let (zs, cs) =
              address_injective p.max_zone_chunks location.zone location.chunk_offset z c
                w.chunk_inside below same in
            ground (arith, same, zs, cs)
        | inr ne ↦
            let apart : location.zone ≡ z → location.chunk_offset ≢ c =
              λ zs cs. ground (arith, ne, zs, cs) in
            ground (arith, ne, apart, k.listed_used z c inside below)
      ])

  written-counted :
      (z : ℕ)
      → z < zones
      → ((written lru p location).zone_pool z).chunks_in_use
        ≡ used p.max_zone_chunks ((written lru p location).zone_pool z).chunks
  written-counted z inside = elim (eq_or_ne location.zone z) [
    | inr ne ↦ ground (arith, ne, k.counted z inside)
    | inl same ↦
        let zpc = p.zone_pool location.zone in
        let zp : ZnPair = record {
          zone = location.zone;
          chunk_offset = location.chunk_offset;
          id = location.id;
          in_use = true;
        } in
        let u = used-update p.max_zone_chunks location.chunk_offset zpc.chunks zp w.chunk_inside in
        let top = used-le p.max_zone_chunks (update zpc.chunks location.chunk_offset zp) in
        rw (← same)
          (ground (arith, u, top, w.unused, k.counted location.zone w.zone_inside, k.short))
  ]

  pub written-IsCounted : IsCounted zones (written lru p location)
  written-IsCounted = record {
    linked = linked;
    some_chunk = k.some_chunk;
    short = k.short;
    listed_used = written-listed;
    inside = λ a there. elim (eq_or_ne here a) [
      | inl same ↦ rw (← same) (
          address_bound p.max_zone_chunks location.zone location.chunk_offset zones w.chunk_inside
            w.zone_inside)
      | inr ne ↦ k.inside a (ground (arith, ne, there, now-listed a))
    ];
    own = λ z c inside below. ground (arith, k.own z c inside below);
    counted = written-counted;
    heap = k.heap;
    held = λ z e inside. ground (arith, k.held z e inside, w.not_full);
    payload = λ z e inside. ground (arith, k.payload z e inside, w.not_full);
    priority = λ z e inside. ground (arith, k.priority z e inside, w.not_full);
  }

-- A zone that has entered the heap.
module _ (zones : ℕ) (p : ChunkPolicy) (zone : ℕ) (k : IsCounted zones p) (inside : zone < zones)
    (not_full : (p.zone_pool zone).pqueue_entry ≡ none) where
  pub pushed-IsCounted :
      (e room : ℕ) (r : Ptr × Minheap)
      → ¬ Holds p.invalid_pqueue e
      → Inserted p.invalid_pqueue room e zone ((p.zone_pool zone).chunks_in_use) r
      → IsCounted zones (record p {
        invalid_pqueue = r.1;
        zone_pool =
            update p.zone_pool zone
              (record (p.zone_pool zone) { pqueue_entry = some r.0; filled = true });
      })
  pushed-IsCounted e room r new i = record {
    linked = k.linked;
    some_chunk = k.some_chunk;
    short = k.short;
    listed_used = λ z c zi ci. ground (arith, k.listed_used z c zi ci);
    inside = k.inside;
    own = λ z c zi ci. ground (arith, k.own z c zi ci);
    counted = λ z zi. ground (arith, k.counted z zi);
    heap = i.valid;
    held = λ z d zi at. elim (eq_or_ne zone z) [
      | inl same ↦ let is : e ≡ d = ground (arith, at, same, i.entry) in (i.held d).1 (inr (sym is))
      | inr ne ↦ (i.held d).1 (inl (k.held z d zi (ground (arith, at, ne))))
    ];
    payload = λ z d zi at. elim (eq_or_ne zone z) [
      | inl same ↦ ground (arith, at, same, i.entry, i.payload)
      | inr ne ↦
          let before : (p.zone_pool z).pqueue_entry ≡ some d = ground (arith, at, ne) in
          let other : d ≢ e = λ s. new (rw (← s) (k.held z d zi before)) in
          i.data_kept d other ∙ k.payload z d zi before
    ];
    priority = λ z d zi at. elim (eq_or_ne zone z) [
      | inl same ↦ ground (arith, at, same, i.entry, i.priority)
      | inr ne ↦
          let before : (p.zone_pool z).pqueue_entry ≡ some d = ground (arith, at, ne) in
          let other : d ≢ e = λ s. new (rw (← s) (k.held z d zi before)) in
          ground (arith, ne, i.kept d other, k.priority z d zi before)
    ];
  }
