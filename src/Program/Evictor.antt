-- ===== src/Program/Evictor.antt =====
-- src/zncache.c: evict_task, the thread that evicts in the background.
use zncache.Base.{
  ℕ, zero, suc, ◌+◌, ◌-◌, ◌%◌, ◌≤◌, ◌<◌, ◌≡◌, refl, arith, ◌⊎◌, inl, inr, Bool, Bool-cases, true,
  false, Option, [], length, ltb, if◌then◌else◌, u32, Run, ok, out_of_fuel, check, ◌>>=◌, ◌>>◌,
  Returns, returns, Returns-map, check-Returns,
}
use zncache.Glib.{Queues, Links, Tables}
use zncache.Zones.Calls.{get_num_free_zones}
use zncache.CacheMap.{ZoneMapResult}
use zncache.Eviction.Promotional.Calls.{zones}
use zncache.Cache.Disk.{Device}
use zncache.Cache.Get.{Cache, Surroundings, fg_evict}
use zncache.Cache.Get.Evict.{fg_evict_correct}
use zncache.Cache.Get.Sound.{Sound}
use zncache.Cache.Get.Sound.Calls.{Favourable}
use zncache.Cache.Get.Sound.Evicting.{evicts-Sound, Ready-room}

module _ {D : Type 0} (asserts : Bool) (q : Queues) (ids : Tables ZoneMapResult) (chunks : Tables ℕ)
    (links : Links) (tables : Tables (Option ℕ)) (device : Device D)
    (low_thresh_zones high_thresh_zones : ℕ) where
  -- The rest of a round of evict_task, where `done` was not set.
  unfoldable pub evict_round : Surroundings → Cache D → Run (Cache D)
  evict_round env c =
      let free_zones = get_num_free_zones asserts q c.zone_state in
      if ltb high_thresh_zones free_zones
      then ok c
      else (check asserts (ltb 0 ((low_thresh_zones + u32 - free_zones) % u32))
          >> fg_evict asserts q ids chunks links tables device low_thresh_zones env 0 c)

  -- `evict_task`, by the value of `done` and the surroundings in each round.
  unfoldable pub evict_task : ℕ → (ℕ → Bool) → (ℕ → Surroundings) → ℕ → Cache D → Run (Cache D)
  evict_task zero done env k c = out_of_fuel
  evict_task (suc fuel) done env k c = elim (done k) [
    | true ↦ ok c
    | false ↦ evict_round (env k) c >>= λ c'. evict_task fuel done env (k + 1) c'
  ]

  -- A run of evict_task from a round on: rounds that did not find `done` set, each with its eviction, up to the
  -- first that did.
  pub data Ran (done : ℕ → Bool) (env : ℕ → Surroundings) : ℕ → Cache D → Cache D → Type 0 where
    stopped : {k : ℕ} {c : Cache D} → done k ≡ true → Ran done env k c c
    another :
        {k : ℕ} {c c' c'' : Cache D}
        → done k ≡ false
        → evict_round (env k) c ≡ ok c'
        → Ran done env (k + 1) c' c''
        → Ran done env k c c''

  module _ (low : high_thresh_zones < low_thresh_zones) (most : low_thresh_zones < u32)
      (buffer : ℕ → ℕ) where
    -- A round of evict_task in favourable surroundings, with the low threshold above the high one and no
    -- other thread in a call, returns and leaves a sound cache sound. It does nothing where more zones are
    -- free than the high threshold, and otherwise leaves as many free as the low threshold, or none to evict.
    pub evict_round-Sound :
        (env : Surroundings) (c : Cache D)
        → Favourable env
        → Sound device buffer c
        → Returns
            (λ c'.
              Sound device buffer c'
              × (c'.chunk_sz ≡ c.chunk_sz)
              × (high_thresh_zones < length c.zone_state.free → c' ≡ c)
              × (length c.zone_state.free ≤ high_thresh_zones
                  → (length c'.zone_state.free ≡ low_thresh_zones)
                    ⊎ (zones c'.eviction_policy ≡ [])))
            (evict_round env c)
    unfolding evict_round get_num_free_zones
    evict_round-Sound env c works s =
        let room = Ready-room c s.ready in
        let counted : q.get_length c.zone_state.free ≡ length c.zone_state.free =
          omega (arith, q.get_length_lem c.zone_state.free, room) in
        elim (Bool-cases (ltb high_thresh_zones (q.get_length c.zone_state.free))) [
          | inl enough ↦
              rw enough
                (returns (s, refl, λ _. refl, λ few. absurd (ground (arith, enough, counted, few))))
          | inr few ↦
              let more : ltb 0 ((low_thresh_zones + u32 - q.get_length c.zone_state.free) % u32)
                  ≡ true =
                ground (arith, few, low, most) in
              rw few (
                check-Returns asserts _ more (
                  Returns-map
                    (fg_evict_correct asserts q ids chunks links tables device low_thresh_zones env
                      works.unlocked works.resets 0 c s.ready most room)
                    λ c' (gone, r, e, below, above). (
                      evicts-Sound device buffer c c' gone s r e,
                      e.shape.chunk,
                      λ many. absurd (ground (arith, few, counted, many)),
                      λ _. below (ground (arith, few, counted, low)),
                    )))
        ]
