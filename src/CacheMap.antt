-- ===== src/CacheMap.antt =====
-- src/cachemap.c and include/cachemap.h: where the data of an id is on the disk, and the way back.
-- Each function holds the map's mutex from its first access to its last, but for zn_cachemap_find. That
-- gives it up at the wait for a condition variable, where a thread that wakes up makes the round again,
-- and before it copies the entry that it returns: the copy is a step of its own. The hash tables of GLib
-- are an argument; a result that the table of ids points to is written in place. `asserts` tells whether
-- assertions are enabled.
pub mod Invariant
pub mod Lookup
pub mod Fill
pub mod Clear
pub mod ClearZone
pub mod Faults
mod Tests
use zncache.Base.{
  ℕ, ◌+◌, ◌*◌, ◌%◌, Bool, false, not, ◌&&◌, ◌||◌, Option, none, some, List, [], ◌∷◌, ◌==◌,
  if◌then◌else◌, ltb, u32, update, Run, ok, overrun, check, ◌>>=◌, ◌>>◌,
}
use zncache.Glib.{Tables, store}
use zncache.Zones.{ZnPair}

pub data ResultType : Type 0 where
  result_loc result_cond result_empty : ResultType

-- The values of the enumeration in `struct zone_map_result`.
abbrev pub tag : ResultType → ℕ
tag result_loc = 0
tag result_cond = 1
tag result_empty = 2

pub record ZoneMapResult : Type 0 where
  pub location : ZnPair
  pub type : ResultType

pub record CacheMap : Type 0 where
  pub zone_map : List (ℕ × ZoneMapResult)
  pub data_map : ℕ → List (ℕ × ℕ)
  pub active_readers : ℕ → ℕ

-- The zeroed location of a result that `g_new0` returns.
abbrev pub no_location : ZnPair
no_location = record { zone = 0; chunk_offset = 0; id = 0; in_use = false }

-- The key that an id read from a table as an `int` is looked up with: GINT_TO_POINTER extends the sign.
abbrev pub int_key : ℕ → ℕ
int_key k = if ltb k 2147483648 then k else k + 4294967295 * u32

-- The id that zn_cachemap_clear_chunk reads, where NULL is 0.
abbrev pub looked_up_id : Option ℕ → ℕ
looked_up_id none = 0
looked_up_id (some k) = int_key k

-- What a round of the loop of zn_cachemap_find does: it goes on to return an entry with a location, waits
-- for the thread that writes the data, or tells the caller to write it.
pub data Find : Type 0 where
  located : ZnPair → Find
  waits writes : Find

module _ (asserts : Bool) (ids : Tables ZoneMapResult) (chunks : Tables ℕ) where
  -- `zn_cachemap_init`; the tables of all zones are empty, whatever their number, which is an `int`.
  unfoldable pub init : (ℕ → ℕ) → CacheMap
  init active_readers_arr = record {
    zone_map = [];
    data_map = λ i. [];
    active_readers = active_readers_arr;
  }

  -- The switch of zn_cachemap_find over the entry of an id.
  unfoldable pub find_entry : CacheMap → ℕ → Option ZoneMapResult → Run (Find × CacheMap)
  find_entry m data_id none = overrun
  find_entry m data_id (some r) =
      let zone = r.location.zone in
      elim r.type [
        | result_loc ↦ ok (
          located r.location,
          record m {
            active_readers = update m.active_readers zone ((m.active_readers zone + 1) % u32);
          },
        )
        | result_cond ↦ ok (waits, m)
        | result_empty ↦ ok (
          writes,
          record m { zone_map = store m.zone_map data_id (record r { type = result_cond }) },
        )
      ]

  -- A round of `zn_cachemap_find`.
  unfoldable pub find : CacheMap → ℕ → Run (Find × CacheMap)
  unfolding find_entry
  find m data_id =
      let wait_cond : ZoneMapResult = record { location = no_location; type = result_cond } in
      if ids.contains m.zone_map data_id
      then find_entry m data_id (ids.lookup m.zone_map data_id)
      else ok (writes, record m { zone_map = ids.insert m.zone_map data_id wait_cond })

  -- What zn_cachemap_find returns of an entry: the copy that it makes after it gave the mutex up.
  unfoldable pub copied : CacheMap → ℕ → Option ZoneMapResult
  copied m data_id = ids.lookup m.zone_map data_id

  -- The rest of zn_cachemap_insert, with the entry of the id.
  unfoldable pub insert_entry : CacheMap → ℕ → ZnPair → Option ZoneMapResult → Run CacheMap
  insert_entry m data_id location none = overrun
  insert_entry m data_id location (some r) =
      let zone = location.zone in
      check asserts (tag r.type == tag result_cond)
      >> ok (record m {
        zone_map = store m.zone_map data_id (record { location = location; type = result_loc });
        data_map =
            update m.data_map zone (chunks.insert (m.data_map zone) location.chunk_offset data_id);
      })

  -- `zn_cachemap_insert`
  unfoldable pub insert : CacheMap → ℕ → ZnPair → Run CacheMap
  unfolding insert_entry
  insert m data_id location =
      check asserts (ids.contains m.zone_map data_id)
      >> insert_entry m data_id location (ids.lookup m.zone_map data_id)

  -- `res->type = RESULT_EMPTY`, after the assertions of the two functions that clear entries.
  unfoldable pub clear_entry : CacheMap → ℕ → (ZnPair → Bool) → Option ZoneMapResult → Run CacheMap
  clear_entry m data_id expected none = overrun
  clear_entry m data_id expected (some r) =
      check asserts (tag r.type == tag result_loc)
      >> (check asserts (expected r.location)
          >> ok
              (record m { zone_map = store m.zone_map data_id (record r { type = result_empty }) }))

  -- `zn_cachemap_clear_chunk`; a chunk that the table lacks gives the id 0, as NULL does.
  unfoldable pub clear_chunk : CacheMap → ZnPair → Run CacheMap
  unfolding clear_entry
  clear_chunk m location =
      let table = m.data_map location.zone in
      let data_id = looked_up_id (chunks.lookup table location.chunk_offset) in
      let here =
        λ (l : ZnPair). l.zone == location.zone && l.chunk_offset == location.chunk_offset in
      check asserts (ids.contains m.zone_map data_id)
      >> (clear_entry m data_id here (ids.lookup m.zone_map data_id) >>= λ cleared.
          ok (record cleared {
            data_map =
                update cleared.data_map location.zone (chunks.remove table location.chunk_offset);
          }))

  -- The loop of zn_cachemap_clear_zone over the entries of the zone's table.
  unfoldable pub clear_entries : CacheMap → ℕ → List (ℕ × ℕ) → Run CacheMap
  unfolding clear_entry
  clear_entries m zone [] = ok m
  clear_entries m zone ((chunk, data_id) ∷ rest) =
      check asserts (ids.contains m.zone_map (int_key data_id))
      >> (clear_entry m (int_key data_id) (λ l. l.zone == zone)
            (ids.lookup m.zone_map (int_key data_id))
          >>= λ cleared. clear_entries cleared zone rest)

  -- `zn_cachemap_clear_zone`
  unfoldable pub clear_zone : CacheMap → ℕ → Run CacheMap
  unfolding clear_entries
  clear_zone m zone = clear_entries m zone (m.data_map zone) >>= λ cleared. ok (record cleared {
    data_map = update cleared.data_map zone (chunks.remove_all (cleared.data_map zone));
  })

  -- The rest of zn_cachemap_fail, with the entry of the id.
  unfoldable pub fail_entry : CacheMap → ℕ → Option ZoneMapResult → Run CacheMap
  fail_entry m id none = overrun
  fail_entry m id (some r) =
      check asserts (tag r.type == tag result_cond)
      >> ok (record m { zone_map = store m.zone_map id (record r { type = result_empty }) })

  -- `zn_cachemap_fail`
  unfoldable pub fail : CacheMap → ℕ → Run CacheMap
  unfolding fail_entry
  fail m id =
      check asserts (ids.contains m.zone_map id) >> fail_entry m id (ids.lookup m.zone_map id)
