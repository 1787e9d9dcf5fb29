-- ===== src/Cache/Get/Sound/Evicting.antt =====
-- src/cache.c: zn_fg_evict on the whole cache.
use zncache.Base.{ℕ, ◌+◌, ◌<◌, sym, ap, ◌∙◌, arith, List, length, u32}
use zncache.Eviction.Promotional.Calls.{zones}
use zncache.Cache.Disk.{Device}
use zncache.Cache.Get.{Cache}
use zncache.Cache.Get.Ready.{Ready, Evicts}
use zncache.Cache.Get.Gone.{Evicts-before}
use zncache.Cache.Get.Sound.{Sound, Sizes}

module _ {D : Type 0} (device : Device D) (buffer : ℕ → ℕ) (c c' : Cache D) (gone : List ℕ)
    (s : Sound device buffer c) (r : Ready c') (e : Evicts c gone c') where
  evicts-Sizes : Sizes c'
  evicts-Sizes = record {
    some_zone = rw (e.shape.number) s.sizes.some_zone;
    some_active = rw (e.limit) s.sizes.some_active;
    agree = e.shape.in_policy ∙ (s.sizes.agree ∙ sym e.shape.in_zones);
    long = rw (e.shape.chunk) s.sizes.long;
    short = rw (e.shape.chunk) s.sizes.short;
    progress = rw (e.shape.io) s.sizes.progress;
    chunks_fit = rw (e.shape.in_zones, e.shape.chunk, e.shape.zone) s.sizes.chunks_fit;
    zones_fit = rw (e.shape.number, e.shape.zone) s.sizes.zones_fit;
  }

  -- Evictions keep a cache sound.
  pub evicts-Sound : Sound device buffer c'
  evicts-Sound = record {
    ready = r;
    idle = e.writes ∙ s.idle;
    no_reader = λ z. ap (λ (f : ℕ → ℕ). f z) e.readers ∙ s.no_reader z;
    no_writer = λ id cond. s.no_writer id (e.types id cond);
    sizes = evicts-Sizes;
    held = λ id l at.
        let o = s.held id l (Evicts-before c c' gone id l e at) in
        record {
          zone_inside = rw (e.shape.number) o.zone_inside;
          chunk_inside = rw (e.shape.in_zones) o.chunk_inside;
          bytes = λ i inside.
              rw (e.shape.chunk, e.shape.zone, e.disk_kept)
                (o.bytes i (rw (← e.shape.chunk) inside));
        };
  }

-- A `guint` holds the number of the zones that are free or in the policy.
pub Ready-room :
    {D : Type 0} (c : Cache D)
    → Ready c
    → length (zones c.eviction_policy) + length c.zone_state.free < u32
Ready-room c r = omega (arith, r.room, r.valid.zones_fit)
