-- ===== src/Zones/Invariant.antt =====
-- src/zone_state_manager.c: what holds of the state between two calls.
use zncache.Base.{ℕ, ◌+◌, ◌≤◌, ◌<◌, ◌≡◌, ◌&&◌, List, ltb, u32, length, count}
use zncache.Zones.{Condition, free, full, active, write_occuring, is, Zone, ZoneStateManager}
use zncache.Zones.Counts.{one_if, count_in}

-- The queue holds exactly the zones of the array that are in the condition, each once.
abbrev pub Queued : ℕ → (ℕ → Zone) → Condition → List ℕ → Type 0
Queued n state c queue = (i : ℕ) → count i queue ≡ one_if (ltb i n && is (state i).state c)

pub record IsValid (s : ZoneStateManager) : Type 0 where
  pub active_queue : Queued s.num_zones s.state active s.active
  pub free_queue : Queued s.num_zones s.state free s.free
  pub writes : s.writes_occurring ≡ count_in write_occuring s.num_zones s.state
  -- No zone is lost: each is free, active, being written to, or full.
  pub total :
      length s.active + length s.free + s.writes_occurring + count_in full s.num_zones s.state
      ≡ s.num_zones
  pub capped : length s.active + s.writes_occurring ≤ s.max_nr_active_zones
  pub ids : (i : ℕ) → i < s.num_zones → (s.state i).zone_id ≡ i
  pub offsets : (i : ℕ) → i < s.num_zones → (s.state i).chunk_offset < s.max_zone_chunks
  pub unused : (i : ℕ) → i < s.num_zones → (s.state i).state ≡ free → (s.state i).chunk_offset ≡ 0
  pub zones_fit : s.num_zones < u32
  pub limit_fits : s.max_nr_active_zones < u32
  pub chunks_fit : s.max_zone_chunks < u32
