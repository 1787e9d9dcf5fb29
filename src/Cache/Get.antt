-- ===== src/Cache/Get.antt =====
-- src/cache.c: zn_cache_get and zn_fg_evict with the promotional policy, as one thread runs them while
-- no other thread is in a call. What the surroundings answer during a call is an argument.
pub mod Hit
pub mod Fill
pub mod RoundTrip
pub mod Ready
pub mod Gone
pub mod Sound
pub mod Evict
pub mod Location
pub mod Claim
pub mod Miss
mod Tests
use zncache.Base.{
  ℕ, zero, suc, ◌+◌, ◌-◌, ◌%◌, Bool, true, false, Option, none, some, List, ltb, ◌&&◌, ◌==◌,
  if◌then◌else◌, u32, u64, update, Run, ok, out_of_fuel, check, ◌>>=◌, ◌>>◌,
}
use zncache.Glib.{Queues, Links, Tables}
use zncache.Zones.{ZnPair, ZoneStateManager, Zbd, chunk_pointer}
use zncache.Zones.Calls.{
  success, retry, error, evict, get_active_zone, return_active_zone, failed_to_write, zone_evict,
  get_num_free_zones,
}
use zncache.CacheMap.{
  CacheMap, ZoneMapResult, result_loc, result_cond, result_empty, located, waits, writes, find,
  copied, insert, fail, clear_zone,
}
use zncache.Eviction.{read, write}
use zncache.Eviction.Promotional
use zncache.Eviction.Promotional.{Promotional, get_zone_to_evict, no_zone}
use zncache.Cache.Disk.{Device, write_out, read_from_disk}
use zncache.Cache.Buffer.{gen_write_buffer}

-- `struct zn_cache`, with the disk behind its file descriptor
pub record Cache (D : Type 0) : Type 0 where
  pub chunk_sz : ℕ
  pub zone_size : ℕ
  pub io_size : ℕ
  pub cache_map : CacheMap
  pub eviction_policy : Promotional
  pub zone_state : ZoneStateManager
  pub hits : ℕ
  pub misses : ℕ
  pub disk : D

-- What a call meets, by its number where there are several: the results of the zone commands, whether
-- the policy's mutex is free, the address of a new link by the links in use, the memory for a read and
-- whether there is memory for a write.
pub record Surroundings : Type 0 where
  pub zbd : ℕ → Zbd
  pub is_unlocked : ℕ → Bool
  pub fresh : List (ℕ × ℕ) → ℕ
  pub read_memory : Option (ℕ → ℕ)
  pub has_memory : Bool

-- Whether a `gint` is above 0.
abbrev pub is_positive : ℕ → Bool
is_positive n = ltb 0 n && ltb n 2147483648

-- The place of a chunk on the disk.
abbrev pub location_pointer : {D : Type 0} → Cache D → ZnPair → ℕ
location_pointer c location =
    chunk_pointer c.zone_size c.chunk_sz location.chunk_offset location.zone

module _ {D : Type 0} (asserts : Bool) (q : Queues) (ids : Tables ZoneMapResult) (chunks : Tables ℕ)
    (links : Links) (tables : Tables (Option ℕ)) (device : Device D) (low_thresh_zones : ℕ)
    (env : Surroundings) where
  -- The rest of a round of zn_fg_evict, with the zone that was evicted: the readers of the zone are waited
  -- for, which for a thread alone never ends. The number of a zone is an `int`, so below 2^31.
  unfoldable pub evict_zone : ℕ → Cache D → ℕ → Run (Cache D)
  evict_zone k c zone = do
    m ← clear_zone asserts ids chunks c.cache_map zone
    (ret, z) ←
        if is_positive (m.active_readers zone)
        then out_of_fuel
        else zone_evict asserts q (env.zbd k) c.zone_state zone
    check asserts (ret == 0)
    ok (record c { cache_map = m; zone_state = z })

  -- The loop of zn_fg_evict, the number of rounds first.
  unfoldable pub evict_loop : ℕ → ℕ → Cache D → Run (Cache D)
  evict_loop zero k c = ok c
  evict_loop (suc n) k c =
      let (zone, p) = get_zone_to_evict links tables (env.is_unlocked k) c.eviction_policy in
      let c' = record c { eviction_policy = p } in
      if zone == no_zone
      then ok c'
      else (evict_zone k c' zone >>= λ after. evict_loop n (k + 1) after)

  -- `zn_fg_evict`
  unfoldable pub fg_evict : ℕ → Cache D → Run (Cache D)
  fg_evict k c =
      let free_zones = get_num_free_zones asserts q c.zone_state in
      evict_loop ((low_thresh_zones + u32 - free_zones) % u32) k c

  -- The loop of zn_cache_get that asks for a zone; `none` where it gives up.
  unfoldable pub claim_loop : ℕ → ℕ → Cache D → Run (Option ZnPair × Cache D)
  claim_loop zero k c = out_of_fuel
  claim_loop (suc fuel) k c = get_active_zone asserts q (env.zbd k) c.zone_state >>= λ (answer, z).
      let c' = record c { zone_state = z } in
      elim answer [
        | success location ↦ ok (some location, c')
        | retry ↦ claim_loop fuel (k + 1) c'
        | error ↦ ok (none, c')
        | evict ↦ fg_evict k c' >>= λ after. claim_loop fuel (k + 1) after
      ]

  -- UNDO_MAP
  abbrev pub undo_map : Cache D → ℕ → Run (Option (ℕ → ℕ) × Cache D)
  undo_map c id =
      fail asserts ids chunks c.cache_map id >>= λ m. ok (none, record c { cache_map = m })

  -- The metadata after a write.
  unfoldable pub publish : Cache D → ℕ → ZnPair → (ℕ → ℕ) → Run (Option (ℕ → ℕ) × Cache D)
  publish c id location bytes = do
    (_, z) ← return_active_zone asserts q (env.zbd 0) c.zone_state location
    p ←
        Promotional.update links tables c.eviction_policy (env.fresh c.eviction_policy.lru.queue)
          location write
    m ← insert asserts ids chunks c.cache_map id location
    ok (
      some bytes,
      record c {
        zone_state = z;
        eviction_policy = p;
        cache_map = m;
        misses = (c.misses + 1) % u64;
      },
    )

  -- The branch of zn_cache_get that fills a chunk, with the location that it got.
  unfoldable pub fill : Cache D → ℕ → (ℕ → ℕ) → Option ZnPair → Run (Option (ℕ → ℕ) × Cache D)
  fill c id random_buffer none = undo_map c id
  fill c id random_buffer (some location) = do
    bytes ← gen_write_buffer env.has_memory c.chunk_sz id random_buffer
    (done, d) ←
        write_out device asserts c.disk c.chunk_sz bytes c.io_size (location_pointer c location)
    let c' = record c { disk = d }
    (if done
        then publish c' id location bytes
        else (failed_to_write asserts q c.zone_state location >>= λ z.
            undo_map (record c' { zone_state = z }) id))

  unfoldable pub get_missing : ℕ → Cache D → ℕ → (ℕ → ℕ) → Run (Option (ℕ → ℕ) × Cache D)
  get_missing fuel c id random_buffer =
      claim_loop fuel 0 c >>= λ (claimed, c'). fill c' id random_buffer claimed

  -- The branch of zn_cache_get that reads a chunk.
  unfoldable pub get_located : Cache D → ZnPair → Run (Option (ℕ → ℕ) × Cache D)
  get_located c location = do
    (bytes, d) ←
        read_from_disk device env.read_memory c.disk c.chunk_sz c.io_size
          (location_pointer c location)
    p ←
        Promotional.update links tables c.eviction_policy (env.fresh c.eviction_policy.lru.queue)
          location read
    let readers = c.cache_map.active_readers
    ok (
      bytes,
      record c {
        disk = d;
        eviction_policy = p;
        cache_map = record (c.cache_map) {
          active_readers = update readers location.zone ((readers location.zone + u32 - 1) % u32);
        };
        hits = (c.hits + 1) % u64;
      },
    )

  -- What zn_cache_get does with the copy of an entry that zn_cachemap_find returned.
  unfoldable pub get_copied :
      ℕ → Cache D → ℕ → (ℕ → ℕ) → Option ZoneMapResult → Run (Option (ℕ → ℕ) × Cache D)
  get_copied fuel c id random_buffer none = get_missing fuel c id random_buffer
  get_copied fuel c id random_buffer (some r) = elim r.type [
    | result_loc ↦ get_located c r.location
    | result_cond ↦ get_missing fuel c id random_buffer
    | result_empty ↦ check asserts false >> get_missing fuel c id random_buffer
  ]

  -- `zn_cache_get`. Where another thread writes the id, a thread alone waits forever.
  unfoldable pub get : ℕ → Cache D → ℕ → (ℕ → ℕ) → Run (Option (ℕ → ℕ) × Cache D)
  get fuel c id random_buffer = find asserts ids chunks c.cache_map id >>= λ (f, m).
      let c' = record c { cache_map = m } in
      elim f [
        | located l ↦ get_copied fuel c' id random_buffer (copied asserts ids chunks m id)
        | waits ↦ out_of_fuel
        | writes ↦ get_missing fuel c' id random_buffer
      ]
