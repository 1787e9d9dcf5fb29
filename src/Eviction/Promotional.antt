-- ===== src/Eviction/Promotional.antt =====
-- src/eviction/promotional.c and include/eviction_policy_promotional.h: the policy that evicts the full
-- zone whose last use is the longest ago. Each function holds the policy's mutex throughout.
pub mod Calls
pub mod History
pub mod LeastRecent
mod Tests
use zncache.Base.{
  ℕ, ◌+◌, ◌-◌, ◌%◌, Bool, Option, none, some, List, ◌==◌, if◌then◌else◌, u32, Run, ok, ◌>>=◌,
}
use zncache.Glib.{Links, Tables}
use zncache.Zones.{ZnPair}
use zncache.Eviction.{IoType, read, write}
use zncache.Eviction.Lru.{Lru, append, promote, forget}

pub record Promotional : Type 0 where
  -- `lru_queue` and `zone_to_lru_map`
  pub lru : Lru
  pub zone_max_chunks : ℕ

-- A zone as an `int`: -1 for none.
abbrev pub no_zone : ℕ
no_zone = u32 - 1

-- The zone that was popped, where NULL is 0.
abbrev pub popped_zone : Option ℕ → ℕ
popped_zone none = 0
popped_zone (some zone) = zone

module _ (links : Links) (tables : Tables (Option ℕ)) where
  -- `zn_policy_promotional_update`; `fresh` is the address of a link that it allocates.
  unfoldable pub update : Promotional → ℕ → ZnPair → IoType → Run Promotional
  update p fresh location write =
      if location.chunk_offset == (p.zone_max_chunks + u32 - 1) % u32
      then ok (record p { lru = append links tables p.lru fresh location.zone })
      else ok p
  update p fresh location read =
      promote links tables p.lru fresh location.zone >>= λ t. ok (record p { lru = t })

  unfoldable pub evict_popped : Promotional → Option ℕ × List (ℕ × ℕ) → ℕ × Promotional
  evict_popped p (popped, rest) =
      let zone_id = popped_zone popped in
      (zone_id, record p { lru = forget links tables rest p.lru.nodes zone_id })

  -- `zn_policy_promotional_get_zone_to_evict`; `locked_by_us` tells whether the mutex was free.
  unfoldable pub get_zone_to_evict : Bool → Promotional → ℕ × Promotional
  unfolding evict_popped
  get_zone_to_evict locked_by_us p =
      if locked_by_us
      then (if links.get_length p.lru.queue == 0
          then (no_zone, p)
          else evict_popped p (links.pop_head p.lru.queue))
      else (no_zone, p)
