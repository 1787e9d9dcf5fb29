-- ===== src/Zones/Calls.antt =====
-- src/zone_state_manager.c: the calls of the other components.
use zncache.Base.{
  check, ℕ, zero, suc, ◌+◌, ◌-◌, ◌%◌, Bool, false, ◌&&◌, ◌||◌, Option, none, some, List, ltb, leb,
  ◌==◌, if◌then◌else◌, u32, Run, ok, overrun, ◌>>=◌, ◌>>◌,
}
use zncache.Glib.{Queues}
use zncache.Zones.{
  free, full, active, write_occuring, is, ZnPair, ZoneStateManager, Zbd, set_zone, close_zone,
  reset_zone, open_zone,
}

-- The results of zsm_get_active_zone; the location is written on success only.
pub data ActiveZone : Type 0 where
  success : ZnPair → ActiveZone
  retry error evict : ActiveZone

module _ (asserts : Bool) (q : Queues) where
  -- The end of zsm_get_active_zone: takes the zone that was popped from the active queue.
  unfoldable pub take_popped :
      ZoneStateManager → Option ℕ × List ℕ → Run (ActiveZone × ZoneStateManager)
  take_popped s (none, rest) = overrun
  take_popped s (some i, rest) =
      let zone = s.state i in
      let pair : ZnPair = record {
        zone = zone.zone_id;
        chunk_offset = zone.chunk_offset;
        id = 0;
        in_use = false;
      } in
      let writing = set_zone s i (record zone { state = write_occuring }) in
      check asserts (is zone.state active)
      >> ok (
        success pair,
        record writing { active = rest; writes_occurring = (s.writes_occurring + 1) % u32 },
      )

  abbrev pub take_active : ZoneStateManager → Run (ActiveZone × ZoneStateManager)
  take_active s = take_popped s (q.pop_head s.active)

  -- Opens the zone that was popped from the free queue, as zsm_get_active_zone does where no zone is
  -- active, and takes the first active zone.
  unfoldable pub open_popped :
      Zbd → ZoneStateManager → Option ℕ × List ℕ → Run (ActiveZone × ZoneStateManager)
  open_popped zbd s (none, rest) = overrun
  open_popped zbd s (some i, rest) =
      check asserts (is (s.state i).state free)
      >> (open_zone asserts q zbd (record s { free = rest }) i >>= λ (ret, opened).
          if ret == 0 then take_active opened else (check asserts false >> ok (error, opened)))

  -- `zsm_get_active_zone`
  unfoldable pub get_active_zone : Zbd → ZoneStateManager → Run (ActiveZone × ZoneStateManager)
  unfolding take_popped open_popped
  get_active_zone zbd s =
      let active_queue_size = q.get_length s.active in
      let writer_size = s.writes_occurring in
      let free_queue_size = q.get_length s.free in
      let active_zones = (active_queue_size + writer_size) % u32 in
      if (active_zones == 0) && (free_queue_size == 0)
      then ok (evict, s)
      else (check asserts (ltb 0 active_zones || ltb 0 free_queue_size)
          >> (if active_queue_size == 0
              then (if ltb active_zones s.max_nr_active_zones && ltb 0 free_queue_size
                  then open_popped zbd s (q.pop_head s.free)
                  else ok (retry, s))
              else take_active s))

  -- The three assertions that zsm_return_active_zone and zsm_failed_to_write begin with.
  unfoldable pub check_written : ZoneStateManager → ZnPair → Run (Unit {0})
  check_written s pair =
      check asserts (leb ((q.get_length s.active + s.writes_occurring) % u32) s.max_nr_active_zones)
      >> (check asserts (is (s.state pair.zone).state write_occuring)
          >> check asserts ((s.state pair.zone).chunk_offset == pair.chunk_offset))

  -- `zsm_return_active_zone`, with the result of the call.
  unfoldable pub return_active_zone : Zbd → ZoneStateManager → ZnPair → Run (ℕ × ZoneStateManager)
  unfolding check_written
  return_active_zone zbd s pair =
      let zone = s.state pair.zone in
      let offset = (zone.chunk_offset + 1) % u32 in
      let writes = (s.writes_occurring + u32 - 1) % u32 in
      let written = record (set_zone s pair.zone (record zone { chunk_offset = offset })) {
        writes_occurring = writes;
      } in
      let again = set_zone s pair.zone (record zone { state = active; chunk_offset = offset }) in
      check_written s pair
      >> (if offset == s.max_zone_chunks
          then ok (close_zone zbd written pair.zone)
          else ok (
            0,
            record again { active = q.push_tail s.active pair.zone; writes_occurring = writes },
          ))

  -- `zsm_failed_to_write`
  unfoldable pub failed_to_write : ZoneStateManager → ZnPair → Run ZoneStateManager
  unfolding check_written
  failed_to_write s pair =
      let zone = s.state pair.zone in
      let again = set_zone s pair.zone (record zone { state = active }) in
      check_written s pair
      >> (check asserts (ltb zone.chunk_offset s.max_zone_chunks)
          >> ok (record again {
            active = q.push_tail s.active pair.zone;
            writes_occurring = (s.writes_occurring + u32 - 1) % u32;
          }))

  -- `zsm_evict`, with the result of the call; the number of a zone is an `int`, so below 2^31.
  unfoldable pub zone_evict : Zbd → ZoneStateManager → ℕ → Run (ℕ × ZoneStateManager)
  zone_evict zbd s i =
      let (ret, reset) = reset_zone asserts q zbd s i in
      let zone = reset.state i in
      check asserts (is (s.state i).state full)
      >> (if ret == 0
          then ok (ret, reset)
          else (check asserts (is zone.state free)
              >> ok (0, set_zone reset i (record zone { invalid = q.clear zone.invalid }))))

  -- `zsm_mark_chunk_invalid`
  unfoldable pub mark_chunk_invalid : ZoneStateManager → ZnPair → ZoneStateManager
  mark_chunk_invalid s pair =
      let zone = s.state pair.zone in
      set_zone s pair.zone (record zone { invalid = q.push_tail zone.invalid pair.chunk_offset })

  -- `zsm_get_num_active_zones`, `zsm_get_num_free_zones` and `zsm_get_num_invalid_chunks`
  unfoldable pub get_num_active_zones : ZoneStateManager → ℕ
  get_num_active_zones s = (q.get_length s.active + s.writes_occurring) % u32

  unfoldable pub get_num_free_zones : ZoneStateManager → ℕ
  get_num_free_zones s = q.get_length s.free

  unfoldable pub get_num_invalid_chunks : ZoneStateManager → ℕ → ℕ
  get_num_invalid_chunks s i = q.get_length (s.state i).invalid

-- The loop of zsm_get_num_full_zones, the number of rounds first.
unfoldable pub full_loop : ℕ → ℕ → ℕ → ZoneStateManager → ℕ
full_loop zero i number s = number
full_loop (suc n) i number s =
    full_loop n (i + 1) (if is (s.state i).state full then (number + 1) % u32 else number) s

-- `zsm_get_num_full_zones`
unfoldable pub get_num_full_zones : ZoneStateManager → ℕ
unfolding full_loop
get_num_full_zones s = full_loop s.num_zones 0 0 s
