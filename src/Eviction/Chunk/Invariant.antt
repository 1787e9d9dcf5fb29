-- ===== src/Eviction/Chunk/Invariant.antt =====
-- src/eviction/chunk.c: what holds of the policy between two calls.
use zncache.Base.{ℕ, ◌*◌, ◌<◌, ◌≡◌, true, List, some, u32}
use zncache.MinHeap.Order.{Holds}
use zncache.MinHeap.Insert.{IsValid}
use zncache.Eviction.Lru.Queue.{elements, listed}
use zncache.Eviction.Lru.Moves.{IsLinked}
use zncache.Eviction.Chunk.{ChunkPolicy, chunk_at}
use zncache.Eviction.Chunk.Pool.{used}

-- The chunks of the policy, the one to evict first.
abbrev pub order_of : ChunkPolicy → List ℕ
order_of p = elements p.lru.queue

-- The queue holds exactly the chunks in use, each zone counts its own, and the heap has the full zones by that
-- count; `zones` is the number of zones.
pub record IsCounted (zones : ℕ) (p : ChunkPolicy) : Type 0 where
  pub linked : IsLinked p.lru
  pub some_chunk : 0 < p.max_zone_chunks
  pub short : p.max_zone_chunks < u32
  pub listed_used :
      (z c : ℕ)
      → z < zones
      → c < p.max_zone_chunks
      → listed (chunk_at p z c) (order_of p) ≡ ((p.zone_pool z).chunks c).in_use
  pub inside : (a : ℕ) → listed a (order_of p) ≡ true → a < zones * p.max_zone_chunks
  pub own :
      (z c : ℕ)
      → z < zones
      → c < p.max_zone_chunks
      → ((p.zone_pool z).chunks c).in_use ≡ true
      → (((p.zone_pool z).chunks c).zone ≡ z) × (((p.zone_pool z).chunks c).chunk_offset ≡ c)
  pub counted :
      (z : ℕ)
      → z < zones
      → (p.zone_pool z).chunks_in_use ≡ used p.max_zone_chunks (p.zone_pool z).chunks
  pub heap : IsValid p.invalid_pqueue
  pub held :
      (z e : ℕ) → z < zones → (p.zone_pool z).pqueue_entry ≡ some e → Holds p.invalid_pqueue e
  pub payload :
      (z e : ℕ)
      → z < zones
      → (p.zone_pool z).pqueue_entry ≡ some e
      → (p.invalid_pqueue.memory e).payload ≡ z
  pub priority :
      (z e : ℕ)
      → z < zones
      → (p.zone_pool z).pqueue_entry ≡ some e
      → (p.invalid_pqueue.memory e).priority ≡ (p.zone_pool z).chunks_in_use
