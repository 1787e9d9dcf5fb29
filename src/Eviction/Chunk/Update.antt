-- ===== src/Eviction/Chunk/Update.antt =====
-- src/eviction/chunk.c: zn_policy_chunk_update for a write.
use zncache.Base.{
  ℕ, ◌+◌, ◌-◌, ◌%◌, ◌^◌, ◌<◌, ◌≡◌, ◌≢◌, refl, ap, ◌∙◌, arith, inl, inr, Bool, true, false, not,
  Option, none, some, List, [], ◌∷◌, ◌++◌, ◌==◌, u32, u64, eq_or_ne, check-Returns, Returns,
  returns, Returns-bind,
}
use zncache.Glib.{Links, Tables}
use zncache.MinHeap.Order.{Holds}
use zncache.MinHeap.Insert.{insert_correct}
use zncache.Zones.{ZnPair}
use zncache.Eviction.{write}
use zncache.Eviction.Lru.{append}
use zncache.Eviction.Lru.Queue.{listed, without_absent}
use zncache.Eviction.Lru.Moves.{IsFresh, append_correct}
use zncache.Eviction.Chunk.{ChunkPolicy, chunk_at, occupied, push_full, update_chunk}
use zncache.Eviction.Chunk.Pool.{used-update, used-le}
use zncache.Eviction.Chunk.Invariant.{order_of, IsCounted}
use zncache.Eviction.Chunk.Written.{Writable, written, written-IsCounted, pushed-IsCounted}

-- What a write leaves: the chunk is in use and the last of the queue, its zone is in the heap where that was its
-- last chunk, and no other zone changes.
pub record Wrote (zones : ℕ) (p : ChunkPolicy) (location : ZnPair) (p' : ChunkPolicy) : Type 0 where
  pub counted : IsCounted zones p'
  pub order : order_of p' ≡ order_of p ++ chunk_at p location.zone location.chunk_offset ∷ []
  pub stored :
      (p'.zone_pool location.zone).chunks ≡ (occupied (p.zone_pool location.zone) location).chunks
  pub one_more :
      (p'.zone_pool location.zone).chunks_in_use ≡ (p.zone_pool location.zone).chunks_in_use + 1
  pub others : (z : ℕ) → z ≢ location.zone → p'.zone_pool z ≡ p.zone_pool z
  pub full :
      location.chunk_offset + 1 ≡ p.max_zone_chunks
      → (e : ℕ) × ((p'.zone_pool location.zone).pqueue_entry ≡ some e)
        × ((p'.zone_pool location.zone).filled ≡ true)
  pub not_last :
      location.chunk_offset + 1 ≢ p.max_zone_chunks → p'.invalid_pqueue ≡ p.invalid_pqueue
  pub chunks_kept : p'.max_zone_chunks ≡ p.max_zone_chunks

module _ (asserts : Bool) (links : Links) (tables : Tables (Option ℕ)) (zones : ℕ) (p : ChunkPolicy)
    (location : ZnPair) (k : IsCounted zones p) where
  abbrev place : ℕ
  place = chunk_at p location.zone location.chunk_offset

  -- zn_policy_chunk_update of a write to a chunk that is not in use, in a zone that is not in the heap,
  -- with an entry for the heap and room in it, returns. The chunk is in use then and the last of the
  -- queue, its zone counts one chunk more, and enters the heap by that count exactly where that was its last
  -- chunk; no other zone changes, and the queue, the counts and the heap agree as before.
  pub update_write_correct :
      (link e : ℕ)
      → Writable zones p location
      → IsFresh p.lru link place
      → ¬ Holds p.invalid_pqueue e
      → 0 < p.invalid_pqueue.capacity
      → p.invalid_pqueue.capacity < 2 ^ 30
      → Returns (Wrote zones p location) (
          update_chunk asserts links tables
            (record { link = link; entry = some e; grown = true })
            p
            location
            write)
  unfolding update_chunk push_full
  update_write_correct link e w fresh new room small =
      let zpc = p.zone_pool location.zone in
      let absent : listed place (order_of p) ≡ false =
        k.listed_used location.zone location.chunk_offset w.zone_inside w.chunk_inside ∙ w.unused in
      let (linked, order) = append_correct tables links p.lru link place k.linked fresh absent in
      let last =
        order ∙ ap (λ (ys : List ℕ). ys ++ place ∷ []) (without_absent place (order_of p) absent) in
      let lru = append links tables p.lru link place in
      let k' = written-IsCounted zones p location lru k w linked last in
      let top = used-le p.max_zone_chunks (occupied zpc location).chunks in
      let u =
        used-update p.max_zone_chunks location.chunk_offset zpc.chunks
          ((occupied zpc location).chunks location.chunk_offset) w.chunk_inside in
      let more : (zpc.chunks_in_use + 1) % u32 ≡ zpc.chunks_in_use + 1 =
        ground (arith, u, top, w.unused, k.counted location.zone w.zone_inside, k.short) in
      let unused : not (zpc.chunks location.chunk_offset).in_use ≡ true = rw (w.unused) refl in
      check-Returns asserts _ unused
        (elim (eq_or_ne (location.chunk_offset + 1) p.max_zone_chunks) [
          | inr ne ↦
              let test : (location.chunk_offset == (p.max_zone_chunks + u64 - 1) % u64) ≡ false =
                ground (arith, ne, k.some_chunk, k.short) in
              rw test (
                returns (record {
                  counted = k';
                  order = last;
                  stored = ground arith;
                  one_more = ground (arith, more);
                  others = λ z other. ground (arith, other);
                  full = λ is. absurd (ne is);
                  not_last = λ _. refl;
                  chunks_kept = refl;
                }))
          | inl is ↦
              let test : (location.chunk_offset == (p.max_zone_chunks + u64 - 1) % u64) ≡ true =
                ground (arith, is, k.some_chunk, k.short) in
              let still : ((written lru p location).zone_pool location.zone).pqueue_entry ≡ none =
                ground (arith, w.not_full) in
              rw test (
                Returns-bind
                  (insert_correct p.invalid_pqueue e location.zone
                    (((written lru p location).zone_pool location.zone).chunks_in_use) k.heap new
                    room small)
                  λ r i. returns (record {
                    counted =
                        pushed-IsCounted zones (written lru p location) location.zone k'
                          w.zone_inside still e _ r new i;
                    order = last;
                    stored = ground arith;
                    one_more = ground (arith, more);
                    others = λ z other. ground (arith, other);
                    full = λ _. (e, ground (arith, i.entry), ground arith);
                    not_last = λ ne. absurd (ne is);
                    chunks_kept = refl;
                  }))
        ])
