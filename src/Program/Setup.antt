-- ===== src/Program/Setup.antt =====
-- src/cache.c: zn_init_cache with the promotional policy, and the part of zn_evict_policy_init of
-- src/eviction_policy.c for it.
use zncache.Base.{
  ℕ, ◌*◌, ◌/◌, ◌%◌, ◌≤◌, ◌<◌, ◌≢◌, refl, ap, arith, Bool, [], length, ◌==◌, if◌then◌else◌, u32, u64,
}
use zncache.Glib.{Queues, Tables}
use zncache.Zones.{full, Zone, ZnPair, Backend}
use zncache.Zones
use zncache.Zones.Counts.{weight_of, weight-le-tally}
use zncache.Zones.Init.{init-IsValid, init_fields}
use zncache.CacheMap.{ZoneMapResult}
use zncache.CacheMap
use zncache.CacheMap.Lookup.{init-IsConsistent}
use zncache.Eviction.Promotional.{Promotional}
use zncache.Cache.Disk.{Device}
use zncache.Cache.Get.{Cache}
use zncache.Cache.Get.Sound.{Sound}
use zncache.Program.Threads.{Reader}

-- What zn_init_cache reads of `struct zbd_info`
pub record ZbdInfo : Type 0 where
  pub nr_zones : ℕ
  pub max_nr_active_zones : ℕ
  pub zone_size : ℕ

-- MAX_OPEN_ZONES
abbrev pub max_open_zones : ℕ
max_open_zones = 14

abbrev pub active_limit : ZbdInfo → ℕ
active_limit info =
    if info.max_nr_active_zones == 0 then max_open_zones else info.max_nr_active_zones

-- zn_evict_policy_init for ZN_EVICT_PROMOTE_ZONE; the number of chunks becomes a `uint32_t`.
unfoldable pub init_promotional : ℕ → Promotional
init_promotional max_zone_chunks = record {
  lru = record { queue = []; nodes = [] };
  zone_max_chunks = max_zone_chunks % u32;
}

-- What zn_init_cache sets of the reader.
unfoldable pub init_reader : (ℕ → ℕ) → ℕ → Reader
init_reader workload_buffer workload_max = record {
  workload_index = 0;
  workload_buffer = workload_buffer;
  workload_max = workload_max;
  thresh_perc = 0;
}

module _ {D : Type 0} (asserts : Bool) (q : Queues) (ids : Tables ZoneMapResult) (chunks : Tables ℕ)
    (max_io : ℕ) where
  -- The cache that zn_init_cache makes; `memory` is the array of zones that zsm_init allocates.
  unfoldable pub init_cache : (ℕ → Zone) → ZbdInfo → ℕ → ℕ → Backend → D → Cache D
  init_cache memory info chunk_sz zone_cap backend disk = record {
    chunk_sz = chunk_sz;
    zone_size = info.zone_size;
    io_size = if max_io == 0 then chunk_sz else max_io;
    cache_map = CacheMap.init asserts ids chunks (λ zone. 0);
    eviction_policy = init_promotional (zone_cap / chunk_sz);
    zone_state =
        Zones.init asserts q memory info.nr_zones zone_cap info.zone_size chunk_sz
          (active_limit info) backend;
    hits = 0;
    misses = 0;
    disk = disk;
  }

-- Sizes of a device that a cache can be set up on.
pub record Fits (info : ZbdInfo) (chunk_sz zone_cap : ℕ) : Type 0 where
  pub some_zone : 0 < info.nr_zones
  pub zones_short : info.nr_zones < u32
  pub limit_short : info.max_nr_active_zones < u32
  pub long : 4 ≤ chunk_sz
  pub short : chunk_sz < u32
  pub some_chunk : 0 < zone_cap / chunk_sz
  pub chunks_short : zone_cap / chunk_sz < u32
  pub capacity : zone_cap ≤ info.zone_size
  pub disk : info.nr_zones * info.zone_size ≤ u64

whole_chunks : (cap size : ℕ) → 0 < size → cap / size * size ≤ cap
whole_chunks cap size h = grind arith

module _ (asserts : Bool) (q : Queues) (memory : ℕ → Zone) (info : ZbdInfo) (chunk_sz zone_cap : ℕ)
    (backend : Backend) (fits : Fits info chunk_sz zone_cap) where
  abbrev start : Zones.ZoneStateManager
  start =
      Zones.init asserts q memory info.nr_zones zone_cap info.zone_size chunk_sz (active_limit info)
        backend

  limit_bounds : (0 < active_limit info) × (active_limit info < u32)
  limit_bounds = ground (arith, fits.limit_short)

  none_full : (z : ℕ) → z < start.num_zones → (start.state z).state ≢ full
  none_full z inside was =
      let (valid, all_free) =
        init-IsValid asserts q memory info.nr_zones zone_cap info.zone_size chunk_sz
          (active_limit info) backend fits.some_chunk fits.chunks_short fits.zones_short
          limit_bounds.1 in
      let (_, _, _, _, number) =
        init_fields asserts q memory info.nr_zones zone_cap info.zone_size chunk_sz
          (active_limit info) backend in
      let w = weight-le-tally (weight_of full) start.num_zones z start.state inside in
      ground (arith, was, w, valid.total, all_free, number)

  -- zn_init_cache with the promotional policy leaves a sound cache, on a device with zones, chunks of at
  -- least four bytes of which a zone holds some, and sizes that fit their types.
  pub init_cache-Sound :
      {D : Type 0} (ids : Tables ZoneMapResult) (chunks : Tables ℕ) (max_io : ℕ) (device : Device D)
      (buffer : ℕ → ℕ) (disk : D)
      → Sound device buffer
          (init_cache asserts q ids chunks max_io memory info chunk_sz zone_cap backend disk)
  unfolding init_cache init_promotional CacheMap.init
  init_cache-Sound ids chunks max_io device buffer disk =
      let (valid, all_free) =
        init-IsValid asserts q memory info.nr_zones zone_cap info.zone_size chunk_sz
          (active_limit info) backend fits.some_chunk fits.chunks_short fits.zones_short
          limit_bounds.1 in
      let (none_active, no_write, limit, chunks_are, number) =
        init_fields asserts q memory info.nr_zones zone_cap info.zone_size chunk_sz
          (active_limit info) backend in
      record {
        ready = record {
          consistent = init-IsConsistent asserts ids chunks (λ zone. 0);
          valid = valid;
          linked = record { links = tt; mapped = λ n x e. cc; queued = λ n x e. cc };
          all_full = λ z there. cc;
          queued = λ z inside was. absurd (none_full z inside was);
          placed = λ id l at. cc;
          idle = λ z. refl;
          room = omega (arith, ap length none_active, all_free, no_write, number);
        };
        idle = no_write;
        no_reader = λ z. refl;
        no_writer = λ id cond. cc;
        sizes = record {
          some_zone = rw number fits.some_zone;
          some_active = rw limit (limit_bounds.0);
          agree = omega (arith, chunks_are, fits.chunks_short);
          long = fits.long;
          short = fits.short;
          progress = ground (arith, fits.long);
          chunks_fit = rw chunks_are (
              omega
                (arith, whole_chunks zone_cap chunk_sz (omega (arith, fits.long)), fits.capacity));
          zones_fit = rw number fits.disk;
        };
        held = λ id l at. cc;
      }
