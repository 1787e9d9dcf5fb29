-- ===== src/Eviction/Chunk/Reads.antt =====
-- src/eviction/chunk.c: zn_policy_chunk_update for a read.
use zncache.Base.{
  ℕ, ◌<◌, ◌≡◌, refl, ap, sym, subst, ◌∙◌, arith, inl, inr, Bool, Bool-cases, Option, some, List,
  if◌then◌else◌, eq_or_ne, Returns, returns, Returns-bind,
}
use zncache.Glib.{Links, Tables, assoc}
use zncache.MinHeap.{Ptr}
use zncache.Zones.{ZnPair}
use zncache.Eviction.{read}
use zncache.Eviction.Lru.{node_in, promote, promote_node}
use zncache.Eviction.Lru.Queue.{listed, moved_last}
use zncache.Eviction.Lru.Ordering.{listed-moved_last}
use zncache.Eviction.Lru.Moves.{IsFresh, Leaves, promote_correct}
use zncache.Eviction.Chunk.{ChunkPolicy, chunk_at, update_read, update_chunk}
use zncache.Eviction.Chunk.Invariant.{order_of, IsCounted}

module _ (asserts : Bool) (links : Links) (tables : Tables (Option ℕ)) (zones : ℕ) (p : ChunkPolicy)
    (location : ZnPair) (k : IsCounted zones p) where
  abbrev place : ℕ
  place = chunk_at p location.zone location.chunk_offset

  abbrev after_read : Bool → List ℕ
  after_read there = if there then moved_last place (order_of p) else order_of p

  -- The queue after a read holds the same chunks.
  same_listed : (a : ℕ) → listed a (after_read (listed place (order_of p))) ≡ listed a (order_of p)
  same_listed a = elim (Bool-cases (listed place (order_of p))) [
    | inr absent ↦ rw absent refl
    | inl there ↦
        rw (there, listed-moved_last place a (order_of p))
          (elim (eq_or_ne place a) [
            | inl same ↦ rw (← same) (ground (arith, there))
            | inr ne ↦ ground (arith, ne)
          ])
  ]

  promote-opened :
      (link : ℕ)
      → IsFresh p.lru link place
      → Returns
          (Leaves (after_read (listed place (order_of p))))
          (promote_node links tables p.lru link place (node_in (tables.lookup p.lru.nodes place)))
  unfolding promote
  promote-opened link fresh = promote_correct tables links p.lru link place k.linked fresh

  -- zn_policy_chunk_update of a read of a chunk of the pool, whose link the table has or has as NULL, returns
  -- and moves the chunk to the end of the queue where it is in use. Nothing else changes.
  pub update_read_correct :
      (link : ℕ) (entry : Option Ptr) (grown : Bool) (node : Option ℕ)
      → location.zone < zones
      → location.chunk_offset < p.max_zone_chunks
      → assoc p.lru.nodes place ≡ some node
      → IsFresh p.lru link place
      → Returns
          (λ p'.
            IsCounted zones p'
            × (order_of p' ≡ (
                if ((p.zone_pool location.zone).chunks location.chunk_offset).in_use
                then moved_last place (order_of p)
                else order_of p))
            × (p' ≡ record p { lru = p'.lru }))
          (update_chunk asserts links tables
            (record { link = link; entry = entry; grown = grown })
            p
            location
            read)
  unfolding update_chunk update_read
  update_read_correct link entry grown node zone_in chunk_in present fresh =
      let found : tables.lookup p.lru.nodes place ≡ some node =
        tables.lookup_lem p.lru.nodes place ∙ present in
      let used_there = k.listed_used location.zone location.chunk_offset zone_in chunk_in in
      rw found (
        Returns-bind
          (subst
            (λ (o : Option (Option ℕ)).
              Returns (Leaves (after_read (listed place (order_of p))))
                (promote_node links tables p.lru link place (node_in o)))
            found (promote-opened link fresh))
          λ t (linked, order). returns (
            record {
              linked = linked;
              some_chunk = k.some_chunk;
              short = k.short;
              listed_used = λ z c zi ci.
                  ap (listed (chunk_at p z c)) order
                  ∙ (same_listed (chunk_at p z c) ∙ k.listed_used z c zi ci);
              inside = λ a there. k.inside a (sym (ap (listed a) order ∙ same_listed a) ∙ there);
              own = k.own;
              counted = k.counted;
              heap = k.heap;
              held = k.held;
              payload = k.payload;
              priority = k.priority;
            },
            order ∙ ap after_read used_there,
            refl,
          ))
