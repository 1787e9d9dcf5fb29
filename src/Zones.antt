-- ===== src/Zones.antt =====
-- src/zone_state_manager.c and include/zone_state_manager.h: the state of all zones of the disk.
-- Each function holds the state's mutex from its first access to its last, so a call is one step.
-- The array of zones is a function of the index, and a pointer to a zone is its index. The queues
-- come from GLib and the results of the zone commands from libzbd; both are arguments. The build
-- option that enables assertions, off by default, is the argument `asserts`. An `int` is its 32-bit
-- pattern.
pub mod Calls
pub mod Counts
pub mod Invariant
pub mod Keep
pub mod Active
pub mod Return
pub mod Evict
pub mod Init
pub mod Numbers
pub mod System
mod Tests
use zncache.Base.{
  ℕ, zero, suc, ◌+◌, ◌-◌, ◌*◌, ◌/◌, ◌%◌, ◌^◌, Bool, not, ◌||◌, List, [], ltb, leb, ◌==◌,
  if◌then◌else◌, u32, update, Run, ok, aborted, overrun, check, ◌>>=◌, ◌>>◌,
}
use zncache.Glib.{Queues}

pub data Condition : Type 0 where
  free full active write_occuring : Condition

-- The values of `enum zn_zone_condition`.
abbrev pub code : Condition → ℕ
code free = 0
code full = 1
code active = 2
code write_occuring = 3

abbrev pub is : Condition → Condition → Bool
is a b = code a == code b

pub data Backend : Type 0 where
  zns block : Backend

pub record Zone : Type 0 where
  pub state : Condition
  pub zone_id : ℕ
  pub chunk_offset : ℕ
  pub invalid : List ℕ

pub record ZnPair : Type 0 where
  pub zone : ℕ
  pub chunk_offset : ℕ
  pub id : ℕ
  pub in_use : Bool

pub record ZoneStateManager : Type 0 where
  pub active : List ℕ
  pub free : List ℕ
  pub state : ℕ → Zone
  pub writes_occurring : ℕ
  pub zone_cap : ℕ
  pub zone_size : ℕ
  pub chunk_size : ℕ
  pub max_nr_active_zones : ℕ
  pub max_zone_chunks : ℕ
  pub num_zones : ℕ
  pub backend_type : Backend

-- The results of the commands of libzbd in one call, by offset and length in bytes; 0 is success.
pub record Zbd : Type 0 where
  pub open_zones : ℕ → ℕ → ℕ
  pub finish_zones : ℕ → ℕ → ℕ
  pub reset_zones : ℕ → ℕ → ℕ

-- CHUNK_POINTER of include/znutil.h
unfoldable pub chunk_pointer : ℕ → ℕ → ℕ → ℕ → ℕ
chunk_pointer z_sz c_sz c_num z_num = ((z_sz * z_num) % 2 ^ 64 + (c_num * c_sz) % 2 ^ 64) % 2 ^ 64

-- The result of a zone command: none is sent to a block device.
abbrev pub on_zns : Backend → ℕ → ℕ
on_zns zns ret = ret
on_zns block ret = 0

abbrev pub set_zone : ZoneStateManager → ℕ → Zone → ZoneStateManager
set_zone s i zone = record s { state = update s.state i zone }

-- `close_zone`, with the result of the call.
unfoldable pub close_zone : Zbd → ZoneStateManager → ℕ → ℕ × ZoneStateManager
close_zone zbd s i =
    let zone = s.state i in
    let wp = chunk_pointer s.zone_size s.chunk_size 0 zone.zone_id in
    let ret = on_zns s.backend_type (zbd.finish_zones wp s.zone_cap) in
    if is zone.state full
    then (0, s)
    else (if ret == 0
        then (0, set_zone s i (record zone { state = full; chunk_offset = 0 }))
        else (ret, s))

-- The fields that zsm_init sets before its loop.
abbrev pub before_zones : (ℕ → Zone) → ℕ → ℕ → ℕ → ℕ → ℕ → Backend → ZoneStateManager
before_zones memory num_zones zone_cap zone_size chunk_size max_nr_active_zones backend_type =
    record {
      active = [];
      free = [];
      state = memory;
      writes_occurring = 0;
      zone_cap = zone_cap;
      zone_size = zone_size;
      chunk_size = chunk_size;
      max_nr_active_zones = max_nr_active_zones;
      max_zone_chunks = zone_cap / chunk_size;
      num_zones = num_zones;
      backend_type = backend_type;
    }

module _ (asserts : Bool) (q : Queues) where
  -- `reset_zone`
  pub reset_zone : Zbd → ZoneStateManager → ℕ → ℕ × ZoneStateManager
  reset_zone zbd s i =
      let zone = s.state i in
      let wp = chunk_pointer s.zone_size s.chunk_size 0 zone.zone_id in
      let ret = on_zns s.backend_type (zbd.reset_zones wp s.zone_cap) in
      let freed = set_zone s i (record zone { state = free; chunk_offset = 0 }) in
      if is zone.state free
      then (0, s)
      else (if ret == 0 then (0, record freed { free = q.push_tail s.free i }) else (ret, s))

  -- `open_zone`
  pub open_zone : Zbd → ZoneStateManager → ℕ → Run (ℕ × ZoneStateManager)
  open_zone zbd s i =
      let zone = s.state i in
      let wp = chunk_pointer s.zone_size s.chunk_size 0 zone.zone_id in
      let ret = on_zns s.backend_type (zbd.open_zones wp 1) in
      let opened = set_zone s i (record zone { state = active; chunk_offset = 0 }) in
      check asserts (is zone.state free)
      >> (if leb s.max_nr_active_zones ((q.get_length s.active + s.writes_occurring) % u32)
          then ok (u32 - 1, s)
          else (if ret == 0
              then ok (0, record opened { active = q.push_tail s.active i })
              else ok (ret, s)))

  -- `zsm_init`: the loop over the zones, the number of rounds first.
  pub init_zones : ℕ → ℕ → ZoneStateManager → ZoneStateManager
  init_zones zero i s = s
  init_zones (suc n) i s =
      let zone : Zone = record { state = free; zone_id = i; chunk_offset = 0; invalid = [] } in
      init_zones n (i + 1) (record (set_zone s i zone) { free = q.push_tail s.free i })

  -- `zsm_init`; `memory` is the array of zones that `calloc` returns.
  pub init : (ℕ → Zone) → ℕ → ℕ → ℕ → ℕ → ℕ → Backend → ZoneStateManager
  unfolding init_zones
  init memory num_zones zone_cap zone_size chunk_size max_nr_active_zones backend_type =
      init_zones num_zones 0 (
        before_zones memory num_zones zone_cap zone_size chunk_size max_nr_active_zones
          backend_type)
