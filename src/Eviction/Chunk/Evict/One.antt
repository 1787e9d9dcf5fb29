-- ===== src/Eviction/Chunk/Evict/One.antt =====
-- src/eviction/chunk.c: one round of the loop of zn_policy_chunk_evict, and all of them.
use zncache.Base.{
  ℕ, ◌<◌, ◌≡◌, ◌≢◌, refl, ap, sym, ◌∙◌, arith, ◌⊎◌, inl, inr, Bool, Bool-cases, true, false,
  Option-cases, some, List, [], ◌∷◌, ◌==◌, ◌&&◌, update, eq_or_ne,
}
use zncache.Glib.{Queues, assoc}
use zncache.MinHeap.{Minheap}
use zncache.Zones.{ZnPair}
use zncache.Zones.Calls.{mark_chunk_invalid}
use zncache.Zones.Numbers.{mark_chunk_invalid-IsValid}
use zncache.CacheMap.{CacheMap}
use zncache.CacheMap.Invariant.{location_in, location_of, IsConsistent}
use zncache.CacheMap.Clear.{Cleared, empty-location}
use zncache.Eviction.Lru.{Lru}
use zncache.Eviction.Lru.Moves.{Leaves}
use zncache.Eviction.Chunk.{ChunkCache, pool_chunk, release}
use zncache.Eviction.Chunk.Pool.{address_injective}
use zncache.Eviction.Chunk.Invariant.{order_of}
use zncache.Eviction.Chunk.Release.{Rekeyed, released-IsCounted}
use zncache.Eviction.Chunk.Evict.{Managed, address, EvictsChunks, First, head-chunk}

module _ {D : Type 0} (asserts : Bool) (q : Queues) (c : ChunkCache D) (m : Managed c) (a : ℕ)
    (rest : List ℕ) (e : order_of c.policy ≡ a ∷ rest) (lru : Lru) (leaves : Leaves rest lru)
    (heap : Minheap) (r : Rekeyed c.zone_state.num_zones c.policy (pool_chunk c.policy a).zone heap)
    (map : CacheMap) (v : IsConsistent map)
    (cleared : Cleared c.cache_map map (λ zone chunk.
      zone == (pool_chunk c.policy a).zone && chunk == (pool_chunk c.policy a).chunk_offset)) where
  abbrev pub zp : ZnPair
  zp = pool_chunk c.policy a

  abbrev pub after : ChunkCache D
  after = record c {
    policy = record (c.policy) {
      lru = lru;
      invalid_pqueue = heap;
      zone_pool =
          update c.policy.zone_pool zp.zone (release (c.policy.zone_pool zp.zone) zp.chunk_offset);
    };
    zone_state = mark_chunk_invalid asserts q c.zone_state zp;
    cache_map = map;
  }

  first : First c a zp
  first = head-chunk c a rest m e

  -- The location of an id is that of the chunk, or another one.
  same_or_other :
      (l : ZnPair)
      → (l.zone < c.zone_state.num_zones)
      → (l.chunk_offset < c.policy.max_zone_chunks)
      → ((a ≡ address c l) × ((l.zone == zp.zone && l.chunk_offset == zp.chunk_offset) ≡ true))
        ⊎ ((a ≢ address c l) × ((l.zone == zp.zone && l.chunk_offset == zp.chunk_offset) ≡ false))
  same_or_other l zi ci = elim (eq_or_ne a (address c l)) [
    | inl same ↦
        let (zs, cs) =
          address_injective c.policy.max_zone_chunks zp.zone zp.chunk_offset l.zone l.chunk_offset
            first.chunk_inside ci (first.at ∙ same) in
        inl (same, ground (arith, zs, cs))
    | inr ne ↦
        let apart : l.zone ≡ zp.zone → l.chunk_offset ≢ zp.chunk_offset =
          λ zs cs. ne (sym first.at ∙ rw (zs, cs) refl) in
        inr (ne, ground (arith, apart))
  ]

  location-after :
      (id : ℕ) (l : ZnPair)
      → location_of map id ≡ some l
      → (location_of c.cache_map id ≡ some l)
        × ((l.zone == zp.zone && l.chunk_offset == zp.chunk_offset) ≡ false)
  location-after id l at = elim (Option-cases (location_of c.cache_map id)) [
    | inl nothing ↦ cc (ap location_in (cleared.kept id (λ k here. cc)), at, nothing)
    | inr (k, here) ↦ elim (Bool-cases (k.zone == zp.zone && k.chunk_offset == zp.chunk_offset)) [
      | inl gone ↦ cc (empty-location (assoc map.zone_map id) (cleared.emptied id k here gone), at)
      | inr stays ↦
          let same =
            ap location_in (cleared.kept id (λ j there. let is : k ≡ j = cc in rw (← is) stays)) in
          let is : k ≡ l = cc (same, here, at) in (rw (← is) here, rw (← is) stays)
    ]
  ]

  pub after-Managed : Managed after
  unfolding mark_chunk_invalid
  after-Managed = record {
    counted =
        released-IsCounted c.zone_state.num_zones c.policy zp.zone zp.chunk_offset m.counted
          first.zone_inside first.chunk_inside first.was lru leaves.0
          (e ∙ (ap (λ (x : ℕ). x ∷ rest) (sym first.at) ∙ ap (◌∷◌ (address c zp)) (sym leaves.1)))
          heap r;
    consistent = v;
    valid = mark_chunk_invalid-IsValid asserts q c.zone_state zp m.valid first.zone_inside;
    mapped = λ z ch zi ci used.
        let other : (z == zp.zone && ch == zp.chunk_offset) ≡ false = ground (arith, used) in
        let before : ((c.policy.zone_pool z).chunks ch).in_use ≡ true = ground (arith, used) in
        let (id, at) = m.mapped z ch zi ci before in (id, cleared.left z ch other ∙ at);
    placed = λ id l at.
        let (before, other) = location-after id l at in
        let (zi, ci, used) = m.placed id l before in (zi, ci, ground (arith, used, other));
  }

  pub after-EvictsChunks : EvictsChunks c (a ∷ []) after
  unfolding mark_chunk_invalid
  after-EvictsChunks = record {
    order = e ∙ ap (◌∷◌ a) (sym leaves.1);
    emptied = λ id l at there.
        let (zi, ci, _) = m.placed id l at in
        elim (same_or_other l zi ci) [
          | inl (same, gone) ↦ empty-location (assoc map.zone_map id) (cleared.emptied id l at gone)
          | inr (ne, _) ↦ absurd (ne (ground (arith, there)))
        ];
    kept = λ id l at elsewhere.
        let (zi, ci, _) = m.placed id l at in
        elim (same_or_other l zi ci) [
          | inl (same, gone) ↦ ground (arith, elsewhere, same)
          | inr (ne, stays) ↦
              ap location_in (cleared.kept id (λ k here. let is : l ≡ k = cc in rw (← is) stays))
              ∙ at
        ];
    nowhere = λ id at. ap location_in (cleared.kept id (λ k here. cc)) ∙ at;
    disk_kept = refl;
    free_kept = refl;
    chunks = refl;
    total = refl;
  }
