-- ===== src/Cache/Get/Claim.antt =====
-- src/cache.c: the loop of zn_cache_get that asks for a zone, with the evictions that it makes.
use zncache.Base.{
  ℕ, zero, suc, ◌+◌, ◌<◌, ◌≡◌, ◌≢◌, refl, ap, ◌∙◌, arith, ◌⊎◌, inl, inr, Bool, true, Option, some,
  List, [], ◌++◌, length, ltb, ◌&&◌, u32, Returns, returns, Returns-bind, Returns-value,
  Returns-map,
}
use zncache.Glib.{Queues, Links, Tables}
use zncache.Zones.{Condition, free, full, active, write_occuring, is, ZnPair, ZoneStateManager}
use zncache.Zones.Counts.{one_if, weight_of, weight-le-tally}
use zncache.Zones.Calls.{ActiveZone, success, retry, error, evict}
use zncache.Zones.Invariant.{IsValid}
use zncache.Zones.Active.{Claimed, Answers, Opens, get_active_zone_correct}
use zncache.CacheMap.{ZoneMapResult}
use zncache.Eviction.Lru.Queue.{listed}
use zncache.Eviction.Promotional.Calls.{zones}
use zncache.Cache.Disk.{Device}
use zncache.Cache.Get.{Cache, Surroundings, claim_loop}
use zncache.Cache.Get.Ready.{Ready-short, Ready, SameShape-after, Evicts, length-elements}
use zncache.Cache.Get.Gone.{Evicts-append}
use zncache.Cache.Get.Evict.{fg_evict_correct}
use zncache.Cache.Get.Location.{Claims, Claimed-Claims}

Condition-cases : (c : Condition) → (c ≡ full) ⊎ (c ≡ active) ⊎ (c ≡ free) ⊎ (c ≡ write_occuring)
Condition-cases full = inl refl
Condition-cases active = inr (inl refl)
Condition-cases free = inr (inr (inl refl))
Condition-cases write_occuring = inr (inr (inr refl))

-- Where no zone is active, free or being written to, every zone is full.
only_full :
    (s : ZoneStateManager) (i : ℕ)
    → IsValid s
    → i < s.num_zones
    → s.active ≡ []
    → s.free ≡ []
    → s.writes_occurring ≡ 0
    → (s.state i).state ≡ full
only_full s i v inside none_active none_free none_writing =
    let a : 0 ≡ one_if (ltb i s.num_zones && is (s.state i).state active) =
      rw none_active at (v.active_queue i) in
    let f : 0 ≡ one_if (ltb i s.num_zones && is (s.state i).state free) =
      rw none_free at (v.free_queue i) in
    let w = weight-le-tally (weight_of write_occuring) s.num_zones i s.state inside in
    elim (Condition-cases (s.state i).state) [
      | inl e ↦ e
      | inr (inl e) ↦ ground (arith, a, e, inside)
      | inr (inr (inl e)) ↦ ground (arith, f, e, inside)
      | inr (inr (inr e)) ↦ ground (arith, w, e, v.writes, none_writing)
    ]

Answers-cases :
    (s : ZoneStateManager) (a : ActiveZone × ZoneStateManager)
    → Answers s a
    → ((l : ZnPair) × (t : ZoneStateManager) × (a ≡ (success l, t)) × Claimed s l t)
      ⊎ ((a ≡ (retry, s))
          × (((s.free ≡ []) × (0 < s.writes_occurring))
              ⊎ (s.writes_occurring ≡ s.max_nr_active_zones)))
      ⊎ ((a ≡ (evict, s)) × (s.active ≡ []) × (s.free ≡ []))
Answers-cases s (success l, t) m = inl (l, t, refl, m)
Answers-cases s (retry, t) (same, none_active, why) = inr (inl (rw same refl, why))
Answers-cases s (evict, t) (same, none_active, none_free, idle) =
    inr (inr (rw same refl, none_active, none_free))
Answers-cases s (error, t) m = elim m [ ]

module _ {D : Type 0} (asserts : Bool) (q : Queues) (ids : Tables ZoneMapResult) (chunks : Tables ℕ)
    (links : Links) (tables : Tables (Option ℕ)) (device : Device D) (low_thresh_zones : ℕ)
    (env : Surroundings) (unlocked : (k : ℕ) → env.is_unlocked k ≡ true)
    (resets : (k wp length : ℕ) → (env.zbd k).reset_zones wp length ≡ 0)
    (opens : (k : ℕ) (s : ZoneStateManager) → Opens (env.zbd k) s) where
  -- A location was handed out.
  abbrev pub Gives : Cache D → Option ZnPair × Cache D → Type 0
  Gives c (claimed, c') = (l : ZnPair) × (claimed ≡ some l) × Claims c l c'

  -- The loop where a zone is active or free.
  claim_now :
      (fuel k : ℕ) (c : Cache D)
      → Ready c
      → c.zone_state.writes_occurring ≡ 0
      → 0 < c.zone_state.max_nr_active_zones
      → (c.zone_state.active ≡ [] → c.zone_state.free ≢ [])
      → Returns
          (Gives c)
          (claim_loop asserts q ids chunks links tables device low_thresh_zones env (suc fuel) k c)
  unfolding claim_loop
  claim_now fuel k c r idle limit some_zone =
      let (a, e, answers) = Returns-value (
        get_active_zone_correct asserts q (env.zbd k) c.zone_state r.valid
          (opens k c.zone_state)) in
      elim (Answers-cases c.zone_state a answers) [
        | inl (l, t, e', m) ↦ rw (e, e') (returns (l, refl, Claimed-Claims c l t r m))
        | inr (inl (e', why)) ↦ elim why [
          | inl (none_free, busy) ↦ absurd (omega (arith, busy, idle))
          | inr most ↦ absurd (omega (arith, most, idle, limit))
        ]
        | inr (inr (e', none_active, none_free)) ↦ absurd (some_zone none_active none_free)
      ]

  some_free :
      (c c' : Cache D) (gone : List ℕ)
      → Ready c
      → c.zone_state.writes_occurring ≡ 0
      → 0 < c.zone_state.num_zones
      → 0 < low_thresh_zones
      → c.zone_state.active ≡ []
      → c.zone_state.free ≡ []
      → Evicts c gone c'
      → (length c'.zone_state.free ≡ low_thresh_zones) ⊎ (zones c'.eviction_policy ≡ [])
      → c'.zone_state.free ≢ []
  some_free c c' gone r idle some_zone low none_active none_free ev how nothing =
      let was = only_full c.zone_state 0 r.valid some_zone none_active none_free idle in
      let there = r.queued 0 some_zone was in
      let none_gone : [] ≡ gone = rw (nothing, none_free) at (ev.freed) in
      elim how [
        | inl enough ↦ absurd (omega (arith, enough, low, ap length nothing))
        | inr none_left ↦
            let empty : zones c.eviction_policy ≡ [] = rw (none_left, ← none_gone) at (ev.order) in
            let absent : listed 0 [] ≡ true = rw empty at there in cc
      ]

  Claims-after :
      (c c' c'' : Cache D) (gone : List ℕ) (l : ZnPair)
      → c.zone_state.active ≡ []
      → c.zone_state.free ≡ []
      → Evicts c gone c'
      → Claims c' l c''
      → Claims c l c''
  Claims-after c c' c'' gone l none_active none_free ev m = record {
    out = m.out;
    valid = m.valid;
    consistent = m.consistent;
    linked = m.linked;
    vacant = m.vacant;
    unlisted = m.unlisted;
    disk_kept = m.disk_kept ∙ ev.disk_kept;
    entries = λ id at. m.entries id (ev.nowhere id at) ∙ ev.entries id at;
    nowhere = λ id at. m.nowhere id (ev.nowhere id at);
    shape = SameShape-after ev.shape m.shape;
    origin =
        let (before, gone', r, ev', claimed, _, rest) = m.origin in
        (
          before,
          gone ++ gone',
          r,
          Evicts-append gone gone' ev ev',
          claimed,
          inr (none_active, none_free),
          rest,
        );
  }

  -- The loop of zn_cache_get that asks for a zone, run by a thread alone on a cache that is ready, over zone
  -- commands that succeed and an unlocked policy, gets a location after one eviction at most. Its zone is
  -- marked as being written to, its chunk holds no data, and the disk is as it was.
  pub claim_loop_correct :
      (fuel k : ℕ) (c : Cache D)
      → 1 < fuel
      → Ready c
      → c.zone_state.writes_occurring ≡ 0
      → 0 < c.zone_state.max_nr_active_zones
      → 0 < c.zone_state.num_zones
      → 0 < low_thresh_zones
      → low_thresh_zones < u32
      → Returns
          (Gives c)
          (claim_loop asserts q ids chunks links tables device low_thresh_zones env fuel k c)
  unfolding claim_loop
  claim_loop_correct zero k c enough r idle limit some_zone low small = absurd (omega arith)
  claim_loop_correct (suc zero) k c enough r idle limit some_zone low small = absurd (omega arith)
  claim_loop_correct (suc (suc fuel)) k c enough r idle limit some_zone low small =
      let (a, e, answers) = Returns-value (
        get_active_zone_correct asserts q (env.zbd k) c.zone_state r.valid
          (opens k c.zone_state)) in
      elim (Answers-cases c.zone_state a answers) [
        | inl (l, t, e', m) ↦ rw (e, e') (returns (l, refl, Claimed-Claims c l t r m))
        | inr (inl (e', why)) ↦ elim why [
          | inl (none_free, busy) ↦ absurd (omega (arith, busy, idle))
          | inr most ↦ absurd (omega (arith, most, idle, limit))
        ]
        | inr (inr (e', none_active, none_free)) ↦
            let room : length (zones c.eviction_policy) + length c.zone_state.free < u32 = omega (
              arith,
              ap length none_free,
              length-elements c.eviction_policy.lru.queue,
              Ready-short c r,
            ) in
            rw (e, e')
              (Returns-bind
                (fg_evict_correct asserts q ids chunks links tables device low_thresh_zones env
                  unlocked resets k c r small room)
                λ c' (gone, r', ev, below, above).
                  let how = below (omega (arith, ap length none_free)) in
                  Returns-map
                    (claim_now fuel (k + 1) c' r' (ev.writes ∙ idle) (rw (ev.limit) limit)
                      (λ _. some_free c c' gone r idle some_zone low none_active none_free ev how))
                    λ (claimed, c'') (l, got, m).
                      (l, got, Claims-after c c' c'' gone l none_active none_free ev m))
      ]
