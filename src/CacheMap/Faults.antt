-- ===== src/CacheMap/Faults.antt =====
-- src/cachemap.c: a location that is cleared before zn_cachemap_find has copied it, and ids from 2^31 on.
use zncache.Base.{
  ℕ, ◌+◌, ◌%◌, ◌≤◌, ◌≡◌, ◌≢◌, refl, ap, arith, Bool, true, Option, none, some, check, ◌>>◌,
  if◌then◌else◌, u32, ok, aborted, overrun, Returns, Returns-map, Returns-at,
}
use zncache.Glib.{Tables, assoc, is_some}
use zncache.Zones.{ZnPair}
use zncache.CacheMap.{
  CacheMap, ResultType, ZoneMapResult, result_loc, result_cond, result_empty, insert, insert_entry,
  Find, located, waits, writes, find, copied, clear_zone, clear_chunk, clear_entry, int_key,
}
use zncache.CacheMap.Invariant.{location_of, type_in, type_of, IsConsistent}
use zncache.CacheMap.Lookup.{Outcome, find_correct}
use zncache.CacheMap.Clear.{entry_at}
use zncache.CacheMap.ClearZone.{clear_zone_correct}

module _ (asserts : Bool) (ids : Tables ZoneMapResult) (chunks : Tables ℕ) where
  -- The zone of the location is cleared between the two steps of a lookup.
  clear_between :
      (m : CacheMap) (id : ℕ) (l : ZnPair) (f : Find) (m' : CacheMap)
      → location_of m id ≡ some l
      → IsConsistent m'
      → Outcome m id f m'
      → Returns
          (λ m''.
            (type_in (copied asserts ids chunks m'' id) ≡ some result_empty)
            × (m''.active_readers l.zone ≡ (m.active_readers l.zone + 1) % u32))
          (clear_zone asserts ids chunks m' l.zone)
  unfolding copied
  clear_between m id l (located k) m' here v (at, same, more) =
      Returns-map (clear_zone_correct asserts ids chunks m' l.zone v) λ m'' (_, c). (
        rw (ids.lookup_lem m''.zone_map id) (c.emptied id l (rw same here) (ground arith)),
        (let same_place : k ≡ l = cc in
            let counted : m'.active_readers k.zone ≡ (m.active_readers k.zone + 1) % u32 =
              rw more (ground arith) in
            rw (c.readers, ← same_place) counted),
      )
  clear_between m id l waits m' here v (writing, _) =
      cc (ap type_in (entry_at (assoc m.zone_map id) l here), writing)
  clear_between m id l writes m' here v (_, nowhere, _, _, _) = cc

  -- A lookup of an id with a location counts one reader in the zone and gives the mutex up. Where an
  -- eviction clears the zone before the entry is copied, the lookup returns an empty entry: neither a
  -- location nor the task to write, and the reader stays counted.
  pub copied-after_clear_zone :
      (m : CacheMap) (id : ℕ) (l : ZnPair) (f : Find) (m' : CacheMap)
      → IsConsistent m
      → location_of m id ≡ some l
      → find asserts ids chunks m id ≡ ok (f, m')
      → Returns
          (λ m''.
            (type_in (copied asserts ids chunks m'' id) ≡ some result_empty)
            × (m''.active_readers l.zone ≡ (m.active_readers l.zone + 1) % u32))
          (clear_zone asserts ids chunks m' l.zone)
  copied-after_clear_zone m id l f m' v here e =
      let (v', o) = Returns-at (find_correct asserts ids chunks m id v) e in
      clear_between m id l f m' here v' o

  -- zn_cachemap_clear_chunk of a place with an id from 2^31 on looks the id up with its sign extended,
  -- which is no id: it fails its assertion, or follows a null pointer where assertions are disabled.
  pub clear_chunk_large_id :
      (m : CacheMap) (location : ZnPair) (id : ℕ)
      → assoc (m.data_map location.zone) location.chunk_offset ≡ some id
      → 2147483648 ≤ id
      → ((k : ℕ) → u32 ≤ k → assoc m.zone_map k ≡ none)
      → clear_chunk asserts ids chunks m location ≡ (if asserts then aborted else overrun)
  unfolding clear_chunk clear_entry
  clear_chunk_large_id m location id here large small_ids =
      let absent : assoc m.zone_map (int_key id) ≡ none =
        small_ids (int_key id) (ground (arith, large)) in
      rw
        (
          chunks.lookup_lem (m.data_map location.zone) location.chunk_offset,
          here,
          ids.contains_lem m.zone_map (int_key id),
          ids.lookup_lem m.zone_map (int_key id),
          absent,
        )
        (ground arith)

module _ (ids : Tables ZoneMapResult) (chunks : Tables ℕ) (m : CacheMap) (id : ℕ)
    (location : ZnPair) where
  insert_entry-aborts :
      (l : ZnPair) (t : ResultType)
      → t ≢ result_cond
      → insert_entry true ids chunks m id location (some (record { location = l; type = t }))
        ≡ aborted
  unfolding insert_entry
  insert_entry-aborts l result_loc idle = refl
  insert_entry-aborts l result_empty idle = refl
  insert_entry-aborts l result_cond idle = absurd (idle refl)

  insert_found-aborts :
      (o : Option ZoneMapResult)
      → type_in o ≢ some result_cond
      → (check true (is_some o) >> insert_entry true ids chunks m id location o) ≡ aborted
  insert_found-aborts none idle = refl
  insert_found-aborts (some r) idle = insert_entry-aborts r.location r.type (λ e. idle (ap some e))

  -- zn_cachemap_insert with assertions enabled aborts for an id that is not being written.
  pub insert-idle_aborts :
      type_of m id ≢ some result_cond → insert true ids chunks m id location ≡ aborted
  unfolding insert
  insert-idle_aborts idle =
      rw (ids.contains_lem m.zone_map id, ids.lookup_lem m.zone_map id)
        (insert_found-aborts (assoc m.zone_map id) idle)
