-- ===== src/Eviction/Chunk/Evict.antt =====
-- src/eviction/chunk.c: the loop of zn_policy_chunk_evict.
pub mod One
pub mod Whole
use zncache.Base.{
  ℕ, zero, suc, ◌+◌, ◌-◌, ◌*◌, ◌/◌, ◌%◌, ◌≤◌, ◌<◌, ◌≡◌, ◌≢◌, refl, ap, sym, ◌∙◌, subst, arith, ◌⊎◌,
  inl, inr, Bool, Bool-cases, true, false, Option, Option-cases, none, some, List, [], ◌∷◌, ◌++◌,
  List-cases, length, ◌==◌, ◌&&◌, if◌then◌else◌, u32, update, eq_or_ne, ok, Returns, returns,
  Returns-map, Returns-bind,
}
use zncache.Glib.{Queues, Links, Tables, assoc}
use zncache.Zones.{ZnPair}
use zncache.Zones.Calls.{mark_chunk_invalid}
use zncache.Zones.Numbers.{mark_chunk_invalid-IsValid}
use zncache.Zones.Invariant.{IsValid}
use zncache.CacheMap.{CacheMap, ZoneMapResult}
use zncache.CacheMap.Invariant.{location_in, location_of, IsConsistent}
use zncache.CacheMap.Clear.{Cleared, empty-location, clear_chunk_correct}
use zncache.Cache.Disk.{Device}
use zncache.Eviction.Lru.{Lru, forget}
use zncache.Eviction.Lru.Queue.{elements, listed}
use zncache.Eviction.Lru.Moves.{IsLinked, forget_correct, first_once}
use zncache.Eviction.Chunk.{
  PoolZone, ChunkPolicy, ChunkCache, Thresholds, chunk_at, pool_chunk, release,
}
use zncache.Eviction.Chunk.Calls.{evict_popped, evict_chunks}
use zncache.Eviction.Chunk.Pool.{address_of, address_inside, address_injective}
use zncache.Eviction.Chunk.Invariant.{order_of, IsCounted}
use zncache.Eviction.Chunk.Release.{Rekeyed, update-Rekeyed, released-IsCounted}

-- A cache under the policy for chunks, between two calls: its parts are in order, and the map has data at exactly
-- the chunks in use.
pub record Managed {D : Type 0} (c : ChunkCache D) : Type 0 where
  pub counted : IsCounted c.zone_state.num_zones c.policy
  pub consistent : IsConsistent c.cache_map
  pub valid : IsValid c.zone_state
  pub mapped :
      (z ch : ℕ)
      → z < c.zone_state.num_zones
      → ch < c.policy.max_zone_chunks
      → ((c.policy.zone_pool z).chunks ch).in_use ≡ true
      → (id : ℕ) × (assoc (c.cache_map.data_map z) ch ≡ some id)
  pub placed :
      (id : ℕ) (l : ZnPair)
      → location_of c.cache_map id ≡ some l
      → (l.zone < c.zone_state.num_zones)
        × (l.chunk_offset < c.policy.max_zone_chunks)
        × (((c.policy.zone_pool l.zone).chunks l.chunk_offset).in_use ≡ true)

-- The address of a location.
abbrev pub address : {D : Type 0} → ChunkCache D → ZnPair → ℕ
address c l = chunk_at c.policy l.zone l.chunk_offset

-- The chunks were evicted in the order of the policy: their data are out of the map, and all other data are where
-- they were.
pub record EvictsChunks {D : Type 0} (c : ChunkCache D) (gone : List ℕ) (c' : ChunkCache D)
    : Type 0 where
  pub order : order_of c.policy ≡ gone ++ order_of c'.policy
  pub emptied :
      (id : ℕ) (l : ZnPair)
      → location_of c.cache_map id ≡ some l
      → listed (address c l) gone ≡ true
      → location_of c'.cache_map id ≡ none
  pub kept :
      (id : ℕ) (l : ZnPair)
      → location_of c.cache_map id ≡ some l
      → listed (address c l) gone ≡ false
      → location_of c'.cache_map id ≡ some l
  pub nowhere : (id : ℕ) → location_of c.cache_map id ≡ none → location_of c'.cache_map id ≡ none
  pub disk_kept : c'.disk ≡ c.disk
  pub free_kept : c'.zone_state.free ≡ c.zone_state.free
  pub chunks : c'.policy.max_zone_chunks ≡ c.policy.max_zone_chunks
  pub total : c'.policy.total_chunks ≡ c.policy.total_chunks

EvictsChunks-nil : {D : Type 0} (c : ChunkCache D) → EvictsChunks c [] c
EvictsChunks-nil c = record {
  order = refl;
  emptied = λ id l at there. cc;
  kept = λ id l at elsewhere. at;
  nowhere = λ id at. at;
  disk_kept = refl;
  free_kept = refl;
  chunks = refl;
  total = refl;
}

EvictsChunks-cons :
    {D : Type 0} (c c' c'' : ChunkCache D) (a : ℕ) (gone : List ℕ)
    → EvictsChunks c (a ∷ []) c'
    → EvictsChunks c' gone c''
    → EvictsChunks c (a ∷ gone) c''
EvictsChunks-cons c c' c'' a gone e f =
    let same : (l : ZnPair) → address c' l ≡ address c l =
      λ l. ap (λ (n : ℕ). l.zone * n + l.chunk_offset) e.chunks in
    record {
      order = e.order ∙ ap (◌∷◌ a) f.order;
      emptied = λ id l at there. elim (eq_or_ne a (address c l)) [
        | inl first ↦ f.nowhere id (e.emptied id l at (ground (arith, first)))
        | inr ne ↦
            let later : listed (address c l) gone ≡ true = ground (arith, there, ne) in
            f.emptied id l (e.kept id l at (ground (arith, ne)))
              (ap (λ (x : ℕ). listed x gone) (same l) ∙ later)
      ];
      kept = λ id l at elsewhere.
          let ne : a ≢ address c l = λ first. ground (arith, elsewhere, first) in
          let later : listed (address c l) gone ≡ false = ground (arith, elsewhere, ne) in
          f.kept id l (e.kept id l at (ground (arith, ne)))
            (ap (λ (x : ℕ). listed x gone) (same l) ∙ later);
      nowhere = λ id at. f.nowhere id (e.nowhere id at);
      disk_kept = f.disk_kept ∙ e.disk_kept;
      free_kept = f.free_kept ∙ e.free_kept;
      chunks = f.chunks ∙ e.chunks;
      total = f.total ∙ e.total;
    }

-- The first chunk of the policy has its place in the pool.
pub record First {D : Type 0} (c : ChunkCache D) (a : ℕ) (zp : ZnPair) : Type 0 where
  pub zone_inside : zp.zone < c.zone_state.num_zones
  pub chunk_inside : zp.chunk_offset < c.policy.max_zone_chunks
  pub at : address c zp ≡ a
  pub was : ((c.policy.zone_pool zp.zone).chunks zp.chunk_offset).in_use ≡ true

pub head-chunk :
    {D : Type 0} (c : ChunkCache D) (a : ℕ) (rest : List ℕ)
    → Managed c
    → order_of c.policy ≡ a ∷ rest
    → First c a (pool_chunk c.policy a)
head-chunk c a rest m e =
    let k = m.counted in
    let size = c.policy.max_zone_chunks in
    let there : listed a (order_of c.policy) ≡ true = rw e (ground arith) in
    let (zi, ci) = address_inside size a c.zone_state.num_zones k.some_chunk (k.inside a there) in
    let at = address_of size a k.some_chunk in
    let was : (pool_chunk c.policy a).in_use ≡ true =
      sym (k.listed_used (a / size) (a % size) zi ci)
      ∙ (ap (λ (x : ℕ). listed x (order_of c.policy)) at ∙ there) in
    let (zone, chunk) = k.own (a / size) (a % size) zi ci was in
    record {
      zone_inside = rw zone zi;
      chunk_inside = rw chunk ci;
      at = rw (zone, chunk) at;
      was = rw (zone, chunk) was;
    }
