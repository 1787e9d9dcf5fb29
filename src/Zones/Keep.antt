-- ===== src/Zones/Keep.antt =====
-- src/zone_state_manager.c: the moves of a zone between the queues keep the invariant.
use zncache.Base.{
  ℕ, ◌+◌, ◌-◌, ◌≤◌, ◌<◌, ◌≡◌, refl, true, ap, arith, List, [], ◌∷◌, ◌++◌, u32, ◌%◌, length, count,
  length-append, count-append, ◌==◌, ◌&&◌, ltb, update,
}
use zncache.Zones.{
  Condition, free, full, active, write_occuring, is, Zone, ZoneStateManager, set_zone,
}
use zncache.Zones.Counts.{one_if, weight_of, tally-update, weight-le-tally, conditions_cover}
use zncache.Zones.Invariant.{Queued, IsValid}

-- The queue changes by the zone `i` where it leaves or enters the condition of the queue.
abbrev pub Moved : ℕ → Condition → Condition → Condition → List ℕ → List ℕ → Type 0
Moved i from to c queue queue' =
    (j : ℕ)
    → count j queue' + one_if (i == j && is from c) ≡ count j queue + one_if (i == j && is to c)

Queued-move :
    (n i : ℕ) (state : ℕ → Zone) (zone : Zone) (c : Condition) (queue queue' : List ℕ)
    → i < n
    → Queued n state c queue
    → Moved i (state i).state zone.state c queue queue'
    → Queued n (update state i zone) c queue'
Queued-move n i state zone c queue queue' hi q m j = ground (arith, q j, m j)

pub record Move (s : ZoneStateManager) (i : ℕ) (zone : Zone) (active' free' : List ℕ) (writes' : ℕ)
    : Type 0 where
  pub inside : i < s.num_zones
  pub zone_id : zone.zone_id ≡ i
  pub offset : zone.chunk_offset < s.max_zone_chunks
  pub unused : zone.state ≡ free → zone.chunk_offset ≡ 0
  pub active_moved : Moved i (s.state i).state zone.state active s.active active'
  pub free_moved : Moved i (s.state i).state zone.state free s.free free'
  pub active_length :
      length active' + one_if (is (s.state i).state active)
      ≡ length s.active + one_if (is zone.state active)
  pub free_length :
      length free' + one_if (is (s.state i).state free)
      ≡ length s.free + one_if (is zone.state free)
  pub writes_moved :
      writes' + one_if (is (s.state i).state write_occuring)
      ≡ s.writes_occurring + one_if (is zone.state write_occuring)
  pub cap_kept : length active' + writes' ≤ s.max_nr_active_zones

-- A zone that changes its condition, and its queue with it, leaves a valid state.
pub Move-IsValid :
    (s : ZoneStateManager) (i : ℕ) (zone : Zone) (active' free' : List ℕ) (writes' : ℕ)
    → IsValid s
    → Move s i zone active' free' writes'
    → IsValid
        (record (set_zone s i zone) { active = active'; free = free'; writes_occurring = writes' })
Move-IsValid s i zone active' free' writes' v m =
    let writing = tally-update (weight_of write_occuring) s.num_zones i s.state zone m.inside in
    let filled = tally-update (weight_of full) s.num_zones i s.state zone m.inside in
    record {
      active_queue =
          Queued-move s.num_zones i s.state zone active s.active active' m.inside v.active_queue
            m.active_moved;
      free_queue =
          Queued-move s.num_zones i s.state zone free s.free free' m.inside v.free_queue
            m.free_moved;
      writes = omega (arith, writing, m.writes_moved, v.writes);
      total = omega (
        arith,
        writing,
        filled,
        m.active_length,
        m.free_length,
        m.writes_moved,
        v.total,
        conditions_cover (s.state i).state,
        conditions_cover zone.state,
      );
      capped = m.cap_kept;
      ids = λ j p. ground (arith, v.ids j, m.zone_id);
      offsets = λ j p. ground (arith, v.offsets j, m.offset);
      unused = λ j p f. ground (arith, v.unused j p, m.unused);
      zones_fit = v.zones_fit;
      limit_fits = v.limit_fits;
      chunks_fit = v.chunks_fit;
    }

is_eq : (a b : Condition) → is a b ≡ true → a ≡ b
is_eq a b h = ground arith

-- A zone that stands in a queue is in the condition of the queue.
Queued-inside :
    (n i : ℕ) (state : ℕ → Zone) (c : Condition) (queue rest : List ℕ)
    → Queued n state c queue
    → queue ≡ i ∷ rest
    → (i < n) × ((state i).state ≡ c)
Queued-inside n i state c queue rest q e =
    let found : (ltb i n && is (state i).state c) ≡ true = ground (arith, q i) in
    (ground arith, is_eq (state i).state c (ground arith))

module _ (s : ZoneStateManager) (v : IsValid s) (i : ℕ) (rest : List ℕ) where
  pub first_active : s.active ≡ i ∷ rest → (i < s.num_zones) × ((s.state i).state ≡ active)
  first_active = Queued-inside s.num_zones i s.state active s.active rest v.active_queue

  pub first_free : s.free ≡ i ∷ rest → (i < s.num_zones) × ((s.state i).state ≡ free)
  first_free = Queued-inside s.num_zones i s.state free s.free rest v.free_queue

  -- The first active zone is taken for a write.
  pub taken :
      s.active ≡ i ∷ rest
      → Move s i
          (record (s.state i) { state = write_occuring })
          rest
          s.free
          ((s.writes_occurring + 1) % u32)
  taken e =
      let (inside, was) = first_active e in
      let room : (s.writes_occurring + 1) % u32 ≡ s.writes_occurring + 1 =
        omega (arith, ap length e, v.capped, v.limit_fits) in
      record {
        inside = inside;
        zone_id = v.ids i inside;
        offset = v.offsets i inside;
        unused = λ f. ground arith;
        active_moved = λ j. ground arith;
        free_moved = λ j. ground arith;
        active_length = ground arith;
        free_length = ground arith;
        writes_moved = ground (arith, room);
        cap_kept = ground (arith, room, v.capped);
      }

  -- The first free zone is opened, where one more may be active.
  pub opened :
      s.free ≡ i ∷ rest
      → length s.active + s.writes_occurring < s.max_nr_active_zones
      → 0 < s.max_zone_chunks
      → Move s i
          (record (s.state i) { state = active; chunk_offset = 0 })
          (s.active ++ i ∷ [])
          rest
          s.writes_occurring
  opened e below some_chunk =
      let (inside, was) = first_free e in
      record {
        inside = inside;
        zone_id = v.ids i inside;
        offset = some_chunk;
        unused = λ f. ground arith;
        active_moved = λ j. ground (arith, count-append j s.active (i ∷ []));
        free_moved = λ j. ground arith;
        active_length = ground (arith, length-append s.active (i ∷ []));
        free_length = ground arith;
        writes_moved = ground arith;
        cap_kept = ground (arith, length-append s.active (i ∷ []));
      }

module _ (s : ZoneStateManager) (v : IsValid s) (i : ℕ) (inside : i < s.num_zones) where
  module _ (was : (s.state i).state ≡ write_occuring) where
    -- The number of writes falls by one and does not wrap.
    pub one_write_less : ((s.writes_occurring + u32 - 1) % u32) + 1 ≡ s.writes_occurring
    one_write_less =
        let here : one_if (is (s.state i).state write_occuring) ≡ 1 = ground arith in
        omega (
          arith,
          here,
          weight-le-tally (weight_of write_occuring) s.num_zones i s.state inside,
          v.writes,
          v.capped,
          v.limit_fits,
        )

    -- A zone that was written to is active again, behind the others.
    pub returned :
        (offset : ℕ)
        → offset < s.max_zone_chunks
        → Move s i
            (record (s.state i) { state = active; chunk_offset = offset })
            (s.active ++ i ∷ [])
            s.free
            ((s.writes_occurring + u32 - 1) % u32)
    returned offset below = record {
      inside = inside;
      zone_id = v.ids i inside;
      offset = below;
      unused = λ f. ground arith;
      active_moved = λ j. ground (arith, count-append j s.active (i ∷ []));
      free_moved = λ j. ground arith;
      active_length = ground (arith, length-append s.active (i ∷ []));
      free_length = ground arith;
      writes_moved = ground (arith, one_write_less);
      cap_kept = omega (arith, length-append s.active (i ∷ []), one_write_less, v.capped);
    }

    -- A zone whose last chunk was written is full.
    pub closed :
        0 < s.max_zone_chunks
        → Move s i
            (record (s.state i) { state = full; chunk_offset = 0 })
            s.active
            s.free
            ((s.writes_occurring + u32 - 1) % u32)
    closed some_chunk = record {
      inside = inside;
      zone_id = v.ids i inside;
      offset = some_chunk;
      unused = λ f. ground arith;
      active_moved = λ j. ground arith;
      free_moved = λ j. ground arith;
      active_length = ground arith;
      free_length = ground arith;
      writes_moved = ground (arith, one_write_less);
      cap_kept = omega (arith, one_write_less, v.capped);
    }

  -- A full zone that is reset is free, behind the others.
  pub freed :
      (s.state i).state ≡ full
      → 0 < s.max_zone_chunks
      → Move s i
          (record (s.state i) { state = free; chunk_offset = 0 })
          s.active
          (s.free ++ i ∷ [])
          s.writes_occurring
  freed was some_chunk = record {
    inside = inside;
    zone_id = v.ids i inside;
    offset = some_chunk;
    unused = λ f. ground arith;
    active_moved = λ j. ground arith;
    free_moved = λ j. ground (arith, count-append j s.free (i ∷ []));
    active_length = ground arith;
    free_length = ground (arith, length-append s.free (i ∷ []));
    writes_moved = ground arith;
    cap_kept = v.capped;
  }

-- The list of invalid chunks of a zone has no part in the invariant.
pub relisted-IsValid :
    (s : ZoneStateManager) (i : ℕ) (chunks : List ℕ)
    → IsValid s
    → i < s.num_zones
    → IsValid (set_zone s i (record (s.state i) { invalid = chunks }))
relisted-IsValid s i chunks v inside =
    Move-IsValid s i (record (s.state i) { invalid = chunks }) s.active s.free s.writes_occurring v
      (record {
        inside = inside;
        zone_id = v.ids i inside;
        offset = v.offsets i inside;
        unused = v.unused i inside;
        active_moved = λ j. refl;
        free_moved = λ j. refl;
        active_length = refl;
        free_length = refl;
        writes_moved = refl;
        cap_kept = v.capped;
      })
