-- ===== src/Eviction/Chunk/Setup.antt =====
-- src/eviction_policy.c: the part of zn_evict_policy_init for the policy for chunks.
use zncache.Base.{
  ℕ, zero, suc, ◌+◌, ◌*◌, ◌%◌, ◌<◌, ◌≡◌, ◌≢◌, refl, ap, sym, ◌∙◌, arith, inl, inr, false, Option,
  none, some, List, [], u32, update, eq_or_ne,
}
use zncache.Glib.{Tables, assoc}
use zncache.MinHeap.{Minheap}
use zncache.MinHeap.Insert.{IsValid}
use zncache.Zones.{ZnPair}
use zncache.Eviction.Lru.{node_in}
use zncache.Eviction.Chunk.{PoolZone, ChunkPolicy, chunk_at}
use zncache.Eviction.Chunk.Pool.{used}
use zncache.Eviction.Chunk.Invariant.{order_of, IsCounted}

-- A zone of the pool and the table from chunks to links.
abbrev Filling : Type 0
Filling = PoolZone × List (ℕ × Option ℕ)

abbrev blank_chunk : ZnPair → ZnPair
blank_chunk zp = record zp { chunk_offset = 0; in_use = false }

module _ (tables : Tables (Option ℕ)) (max_zone_chunks : ℕ) where
  -- The loop over the chunks of a zone, the number of rounds first.
  unfoldable pub init_chunks : ℕ → ℕ → ℕ → Filling → Filling
  init_chunks zero z c f = f
  init_chunks (suc n) z c (zpc, nodes) = init_chunks n z (c + 1) (
    record zpc { chunks = update zpc.chunks c (blank_chunk (zpc.chunks c)) },
    tables.insert nodes (z * max_zone_chunks + c) none,
  )

  -- The loop over the zones, the number of rounds first.
  unfoldable pub init_pool :
      ℕ → ℕ → (ℕ → PoolZone) × List (ℕ × Option ℕ) → (ℕ → PoolZone) × List (ℕ × Option ℕ)
  unfolding init_chunks
  init_pool zero z s = s
  init_pool (suc n) z (pool, nodes) =
      let f =
        init_chunks max_zone_chunks z 0
          (record (pool z) { chunks_in_use = 0; filled = false }, nodes) in
      init_pool n (z + 1) (update pool z f.0, f.1)

  -- zn_evict_policy_init for ZN_EVICT_CHUNK. `memory` is the pool that g_new returns, which it does not
  -- initialise, and `heap` what zn_minheap_init returns for the number of zones.
  unfoldable pub init_chunk_policy : (ℕ → PoolZone) → Minheap → ℕ → ChunkPolicy
  unfolding init_pool
  init_chunk_policy memory heap nr_zones =
      let (pool, nodes) = init_pool nr_zones 0 (memory, []) in
      record {
        lru = record { queue = []; nodes = nodes };
        invalid_pqueue = heap;
        zone_pool = pool;
        total_chunks = (nr_zones * max_zone_chunks) % u32;
        max_zone_chunks = max_zone_chunks;
      }

  -- What the loop over the chunks leaves, before its round for chunk `c`.
  record Blank (z c : ℕ) (old : List (ℕ × Option ℕ)) (start : PoolZone) (f : Filling) : Type 0 where
    unused : (i : ℕ) → i < c → (f.0.chunks i).in_use ≡ false
    present : (i : ℕ) → i < c → assoc f.1 (z * max_zone_chunks + i) ≡ some none
    before : (a : ℕ) → assoc old a ≡ some none → assoc f.1 a ≡ some none
    none_else : (a n : ℕ) → ((b : ℕ) → assoc old b ≢ some (some n)) → assoc f.1 a ≢ some (some n)
    entry : f.0.pqueue_entry ≡ start.pqueue_entry
    count : f.0.chunks_in_use ≡ start.chunks_in_use

  init_chunks-Blank :
      (n z c size : ℕ) (old : List (ℕ × Option ℕ)) (start : PoolZone) (f : Filling)
      → c + n ≡ size
      → Blank z c old start f
      → Blank z size old start (init_chunks n z c f)
  unfolding init_chunks
  init_chunks-Blank zero z c size old start f e b =
      let same : c ≡ size = omega arith in rw (← same) b
  init_chunks-Blank (suc n) z c size old start (zpc, nodes) e b =
      init_chunks-Blank n z (c + 1) size old start _ (omega arith) (record {
        unused = λ i below. ground (arith, b.unused i);
        present = λ i below. ground (
          arith,
          tables.assoc-insert nodes (z * max_zone_chunks + c) none (z * max_zone_chunks + i),
          b.present i,
        );
        before = λ a at.
            ground (arith, tables.assoc-insert nodes (z * max_zone_chunks + c) none a, b.before a);
        none_else = λ a n free at.
            b.none_else a n free
              (ground (arith, tables.assoc-insert nodes (z * max_zone_chunks + c) none a, at));
        entry = b.entry;
        count = b.count;
      })

  -- What the loop over the zones leaves, before its round for zone `z`.
  record Pooled (z : ℕ) (memory : ℕ → PoolZone) (s : (ℕ → PoolZone) × List (ℕ × Option ℕ))
      : Type 0 where
    unused : (y c : ℕ) → y < z → c < max_zone_chunks → ((s.0 y).chunks c).in_use ≡ false
    present :
        (y c : ℕ) → y < z → c < max_zone_chunks → assoc s.1 (y * max_zone_chunks + c) ≡ some none
    no_link : (a n : ℕ) → assoc s.1 a ≢ some (some n)
    entries : (y : ℕ) → (s.0 y).pqueue_entry ≡ (memory y).pqueue_entry
    counts : (y : ℕ) → y < z → (s.0 y).chunks_in_use ≡ 0

  init_pool-Pooled :
      (n z zones : ℕ) (memory : ℕ → PoolZone) (s : (ℕ → PoolZone) × List (ℕ × Option ℕ))
      → z + n ≡ zones
      → Pooled z memory s
      → Pooled zones memory (init_pool n z s)
  unfolding init_pool
  init_pool-Pooled zero z zones memory s e p = let same : z ≡ zones = omega arith in rw (← same) p
  init_pool-Pooled (suc n) z zones memory (pool, nodes) e p =
      let start = record (pool z) { chunks_in_use = 0; filled = false } in
      let b =
        init_chunks-Blank max_zone_chunks z 0 max_zone_chunks nodes start (start, nodes)
          (omega arith)
          (record {
            unused = λ i below. absurd (omega arith);
            present = λ i below. absurd (omega arith);
            before = λ a at. at;
            none_else = λ a n free at. free a at;
            entry = refl;
            count = refl;
          }) in
      let f = init_chunks max_zone_chunks z 0 (start, nodes) in
      init_pool-Pooled n (z + 1) zones memory (update pool z f.0, f.1) (omega arith)
        (record {
          unused = λ y c yi ci. elim (eq_or_ne z y) [
            | inl same ↦ ground (arith, same, b.unused c ci)
            | inr ne ↦ ground (arith, ne, p.unused y c)
          ];
          present = λ y c yi ci. elim (eq_or_ne z y) [
            | inl same ↦ rw (← same) (b.present c ci)
            | inr ne ↦ b.before _ (p.present y c (omega arith) ci)
          ];
          no_link = λ a n. b.none_else a n (λ c. p.no_link c n);
          entries = λ y. elim (eq_or_ne z y) [
            | inl same ↦ ground (arith, same, b.entry, p.entries y)
            | inr ne ↦ ground (arith, ne, p.entries y)
          ];
          counts = λ y yi. elim (eq_or_ne z y) [
            | inl same ↦ ground (arith, same, b.count)
            | inr ne ↦ ground (arith, ne, p.counts y)
          ];
        })

linked_nowhere : (o : Option (Option ℕ)) (n : ℕ) → o ≢ some (some n) → node_in o ≢ some n
linked_nowhere none n ne e = cc
linked_nowhere (some link) n ne e = ne (ap some e)

used_none :
    (n : ℕ) (chunks : ℕ → ZnPair)
    → ((c : ℕ) → c < n → (chunks c).in_use ≡ false)
    → used n chunks ≡ 0
used_none zero chunks none_used = refl
used_none (suc n) chunks none_used =
    ground (arith, none_used n (omega arith), used_none n chunks (λ c p. none_used c (omega arith)))

-- zn_evict_policy_init for the policy for chunks, with zones that hold some chunks, a valid and empty heap, and
-- memory in which no zone has an entry of the heap, leaves a policy in order: no chunk is in the queue or in use,
-- and the table has every chunk, without a link.
pub init_chunk_policy-IsCounted :
    (tables : Tables (Option ℕ)) (memory : ℕ → PoolZone) (heap : Minheap)
    (nr_zones max_zone_chunks : ℕ)
    → 0 < max_zone_chunks
    → max_zone_chunks < u32
    → IsValid heap
    → ((z : ℕ) → (memory z).pqueue_entry ≡ none)
    → (let p = init_chunk_policy tables max_zone_chunks memory heap nr_zones in
        IsCounted nr_zones p
        × (order_of p ≡ [])
        × ((z c : ℕ)
            → z < nr_zones
            → c < max_zone_chunks
            → assoc p.lru.nodes (chunk_at p z c) ≡ some none))
unfolding init_chunk_policy
init_chunk_policy-IsCounted tables memory heap nr_zones max_zone_chunks some_chunk short valid
      no_entry =
    let s = init_pool tables max_zone_chunks nr_zones 0 (memory, []) in
    let p =
      init_pool-Pooled tables max_zone_chunks nr_zones 0 nr_zones memory (memory, []) (omega arith)
        (record {
          unused = λ y c yi ci. absurd (omega arith);
          present = λ y c yi ci. absurd (omega arith);
          no_link = λ a n at. cc;
          entries = λ y. refl;
          counts = λ y yi. absurd (omega arith);
        }) in
    let no_entries : (z e : ℕ) → (s.0 z).pqueue_entry ≢ some e =
      λ z e at. cc (p.entries z, no_entry z) in
    (
      record {
        linked = record {
          links = tt;
          mapped = λ n x at. cc;
          queued = λ n x at. absurd (linked_nowhere (assoc s.1 x) n (p.no_link x n) at);
        };
        some_chunk = some_chunk;
        short = short;
        listed_used = λ z c zi ci. sym (p.unused z c zi ci);
        inside = λ a there. cc;
        own = λ z c zi ci at. cc (p.unused z c zi ci);
        counted = λ z zi.
            p.counts z zi
            ∙ sym (used_none max_zone_chunks (s.0 z).chunks (λ c ci. p.unused z c zi ci));
        heap = valid;
        held = λ z e zi at. absurd (no_entries z e at);
        payload = λ z e zi at. absurd (no_entries z e at);
        priority = λ z e zi at. absurd (no_entries z e at);
      },
      refl,
      p.present,
    )
