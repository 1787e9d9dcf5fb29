-- ===== src/Cache/Get/Sound/Used.antt =====
-- src/eviction_policy.c: zn_evict_policy_get_cache_size.
use zncache.Base.{ℕ, ◌*◌, ◌%◌, ◌≤◌, ◌<◌, ◌≡◌, arith, length, u64}
use zncache.Glib.{Links}
use zncache.Eviction.Promotional.{Promotional}
use zncache.Eviction.Promotional.Calls.{zones}
use zncache.Eviction.Chunk.{ChunkPolicy}
use zncache.Cache.Disk.{Device}
use zncache.Cache.Get.{Cache}
use zncache.Cache.Get.Ready.{Ready-short, length-elements}
use zncache.Cache.Get.Sound.{Sound}

-- The branches for the two policies.
unfoldable pub get_cache_size : Links → Promotional → ℕ → ℕ
get_cache_size links p zone_cap = (links.get_length p.lru.queue * zone_cap) % u64

unfoldable pub get_cache_size_chunks : Links → ChunkPolicy → ℕ → ℕ
get_cache_size_chunks links p chunk_sz = (links.get_length p.lru.queue * chunk_sz) % u64

product_le : (k n cap : ℕ) → k ≤ n → k * cap ≤ n * cap
product_le k n cap h = grind arith

-- For a sound cache on a disk of a capacity below 2^64, zn_evict_policy_get_cache_size with the promotional policy is
-- the capacity of the zones that the policy has, without wrap-around, and not above that of the disk.
pub get_cache_size_bounds :
    {D : Type 0} (links : Links) (device : Device D) (buffer : ℕ → ℕ) (c : Cache D) (zone_cap : ℕ)
    → Sound device buffer c
    → c.zone_state.num_zones * zone_cap < u64
    → (get_cache_size links c.eviction_policy zone_cap
        ≡ length (zones c.eviction_policy) * zone_cap)
      × (get_cache_size links c.eviction_policy zone_cap ≤ c.zone_state.num_zones * zone_cap)
unfolding get_cache_size
get_cache_size_bounds links device buffer c zone_cap s capacity =
    let queue = length-elements c.eviction_policy.lru.queue in
    let short = Ready-short c s.ready in
    let count : links.get_length c.eviction_policy.lru.queue ≡ length (zones c.eviction_policy) =
      omega (arith, links.get_length_lem c.eviction_policy.lru.queue, queue, short) in
    let fewer : length (zones c.eviction_policy) ≤ c.zone_state.num_zones =
      omega (arith, s.ready.room) in
    let product =
      product_le (length (zones c.eviction_policy)) c.zone_state.num_zones zone_cap fewer in
    rw count (omega (arith, product, capacity), omega (arith, product, capacity))
