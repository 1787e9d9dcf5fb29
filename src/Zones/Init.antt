-- ===== src/Zones/Init.antt =====
-- src/zone_state_manager.c: zsm_init.
use zncache.Base.{
  ℕ, zero, suc, ◌+◌, ◌/◌, ◌<◌, ◌≡◌, refl, ap, ◌∙◌, arith, Bool, [], ◌∷◌, ltb, u32, length, count,
  length-append, count-append,
}
use zncache.Glib.{Queues}
use zncache.Zones.{
  free, full, write_occuring, Zone, ZoneStateManager, Backend, set_zone, init_zones, before_zones,
  init,
}
use zncache.Zones.Counts.{one_if, tally, tally-zero, weight_of}
use zncache.Zones.Invariant.{IsValid}

-- A zone as the loop of zsm_init writes it.
abbrev blank : ℕ → Zone
blank i = record { state = free; zone_id = i; chunk_offset = 0; invalid = [] }

-- The state before round `i` of the loop.
record Filling (s : ZoneStateManager) (i : ℕ) : Type 0 where
  zones : (j : ℕ) → j < i → s.state j ≡ blank j
  counts : (j : ℕ) → count j s.free ≡ one_if (ltb j i)
  size : length s.free ≡ i

abbrev Parameters : ZoneStateManager → ZoneStateManager → Type 0
Parameters s t =
    (t.active ≡ s.active)
    × (t.writes_occurring ≡ s.writes_occurring)
    × (t.max_nr_active_zones ≡ s.max_nr_active_zones)
    × (t.max_zone_chunks ≡ s.max_zone_chunks)
    × (t.num_zones ≡ s.num_zones)

filled-IsValid :
    (s t : ZoneStateManager)
    → Filling t s.num_zones
    → Parameters s t
    → s.active ≡ []
    → s.writes_occurring ≡ 0
    → 0 < s.max_zone_chunks
    → s.max_zone_chunks < u32
    → s.num_zones < u32
    → s.max_nr_active_zones < u32
    → IsValid t
filled-IsValid s t f (a, w, m, c, n) none_active no_write some_chunk chunks zones limit =
    let writing : tally (weight_of write_occuring) s.num_zones t.state ≡ 0 =
      tally-zero (weight_of write_occuring) s.num_zones t.state
        (λ j p. ap (weight_of write_occuring) (f.zones j p)) in
    let filled : tally (weight_of full) s.num_zones t.state ≡ 0 =
      tally-zero (weight_of full) s.num_zones t.state (λ j p. ap (weight_of full) (f.zones j p)) in
    let empty : t.active ≡ [] = a ∙ none_active in
    record {
      active_queue = λ j. ground (arith, empty, n, f.zones j);
      free_queue = λ j. ground (arith, n, f.zones j, f.counts j);
      writes = rw (n, writing) (w ∙ no_write);
      total = rw (n, filled) (omega (arith, ap length empty, f.size, w, no_write));
      capped = omega (arith, ap length empty, w, no_write);
      ids = λ j p. ground (arith, n, f.zones j);
      offsets = λ j p. ground (arith, n, c, f.zones j);
      unused = λ j p e. ground (arith, n, f.zones j);
      zones_fit = rw n zones;
      limit_fits = rw m limit;
      chunks_fit = rw c chunks;
    }

module _ (asserts : Bool) (q : Queues) where
  init_zones-Filling :
      (n i k : ℕ) (s : ZoneStateManager)
      → i + n ≡ k
      → Filling s i
      → Filling (init_zones asserts q n i s) k × Parameters s (init_zones asserts q n i s)
  unfolding init_zones
  init_zones-Filling zero i k s e f =
      let e' : i ≡ k = omega arith in rw (← e') (f, (refl, refl, refl, refl, refl))
  init_zones-Filling (suc n) i k s e f =
      init_zones-Filling n (i + 1) k
        (record (set_zone s i (blank i)) { free = q.push_tail s.free i }) (omega arith)
        (rw (q.push_tail_lem s.free i) (record {
          zones = λ j p. ground (arith, f.zones j);
          counts = λ j. ground (arith, f.counts j, count-append j s.free (i ∷ []));
          size = omega (arith, f.size, length-append s.free (i ∷ []));
        }))

  -- zsm_init with at least one chunk to a zone, and numbers that fit their types, leaves a valid state
  -- with every zone free and none active.
  pub init-IsValid :
      (memory : ℕ → Zone) (num_zones zone_cap zone_size chunk_size max_active : ℕ)
      (backend : Backend)
      → 0 < zone_cap / chunk_size
      → zone_cap / chunk_size < u32
      → num_zones < u32
      → max_active < u32
      → IsValid (init asserts q memory num_zones zone_cap zone_size chunk_size max_active backend)
        × (length
              (init asserts q memory num_zones zone_cap zone_size chunk_size max_active
                backend).free
            ≡ num_zones)
  unfolding init
  init-IsValid memory num_zones zone_cap zone_size chunk_size max_active backend some_chunk chunks
        zones limit =
      let start = before_zones memory num_zones zone_cap zone_size chunk_size max_active backend in
      let (f, p) =
        init_zones-Filling num_zones 0 num_zones start (omega arith) (record {
          zones = λ j p. absurd (omega arith);
          counts = λ j. ground arith;
          size = refl;
        }) in
      (
        filled-IsValid start (init_zones asserts q num_zones 0 start) f p refl refl some_chunk
            chunks zones limit,
        f.size,
      )

  -- What zsm_init takes over from its arguments.
  pub init_fields :
      (memory : ℕ → Zone) (num_zones zone_cap zone_size chunk_size max_active : ℕ)
      (backend : Backend)
      → (let s = init asserts q memory num_zones zone_cap zone_size chunk_size max_active backend in
          (s.active ≡ [])
          × (s.writes_occurring ≡ 0)
          × (s.max_nr_active_zones ≡ max_active)
          × (s.max_zone_chunks ≡ zone_cap / chunk_size)
          × (s.num_zones ≡ num_zones))
  unfolding init
  init_fields memory num_zones zone_cap zone_size chunk_size max_active backend =
      (init_zones-Filling num_zones 0 num_zones
        (before_zones memory num_zones zone_cap zone_size chunk_size max_active backend)
        (omega arith)
        (record { zones = λ j p. absurd (omega arith); counts = λ j. ground arith; size = refl })).1
