-- ===== src/Cache/Get/Sound/Writing.antt =====
-- src/cache.c: the cache while zn_cache_get writes an id, before it asks for a zone.
use zncache.Base.{ℕ, ◌≡◌, ◌≢◌, some}
use zncache.Zones.{ZnPair}
use zncache.CacheMap.{result_cond}
use zncache.CacheMap.Invariant.{location_of, type_of}
use zncache.Cache.Disk.{Device}
use zncache.Cache.Get.{Cache}
use zncache.Cache.Get.Ready.{Ready}
use zncache.Cache.Get.Sound.{Sizes, Holds}

-- As between two calls, but for the one id that is being written.
pub record Writing {D : Type 0} (device : Device D) (buffer : ℕ → ℕ) (id : ℕ) (c : Cache D)
    : Type 0 where
  pub ready : Ready c
  pub idle : c.zone_state.writes_occurring ≡ 0
  pub no_reader : (z : ℕ) → c.cache_map.active_readers z ≡ 0
  pub writing : type_of c.cache_map id ≡ some result_cond
  pub no_other : (j : ℕ) → j ≢ id → type_of c.cache_map j ≢ some result_cond
  pub sizes : Sizes c
  pub held : (j : ℕ) (l : ZnPair) → location_of c.cache_map j ≡ some l → Holds device buffer c j l
