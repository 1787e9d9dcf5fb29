-- ===== src/CacheMap/Lookup.antt =====
-- src/cachemap.c: zn_cachemap_init, zn_cachemap_find and zn_cachemap_fail.
use zncache.Base.{
  ℕ, ◌+◌, ◌%◌, ◌≡◌, ◌≢◌, ap, inl, inr, refl, arith, Bool, update, List, none, some, Option-cases,
  u32, Returns, returns,
}
use zncache.Glib.{Tables, assoc}
use zncache.Zones.{ZnPair}
use zncache.CacheMap.{
  init, CacheMap, ResultType, ZoneMapResult, result_loc, result_cond, result_empty, Find, located,
  waits, writes, find, find_entry, no_location,
}
use zncache.CacheMap.Invariant.{
  location_in, location_of, type_in, type_of, IsConsistent, IsConsistent-same, Writes, store-Writes,
  Writes-IsConsistent,
}

-- What a round of zn_cachemap_find tells of the map before it, and what it leaves.
abbrev pub Outcome : CacheMap → ℕ → Find → CacheMap → Type 0
Outcome m id (located l) m' =
    (location_of m id ≡ some l)
    × (m'.zone_map ≡ m.zone_map)
    × (m'.active_readers ≡ update m.active_readers l.zone ((m.active_readers l.zone + 1) % u32))
Outcome m id waits m' = (type_of m id ≡ some result_cond) × (m' ≡ m)
Outcome m id writes m' =
    (type_of m id ≢ some result_cond)
    × (location_of m id ≡ none)
    × (type_of m' id ≡ some result_cond)
    × ((j : ℕ) → j ≢ id → assoc m'.zone_map j ≡ assoc m.zone_map j)
    × (m'.active_readers ≡ m.active_readers)

abbrev Answers : CacheMap → ℕ → Find → CacheMap → Type 0
Answers m id f m' = IsConsistent m' × Outcome m id f m'

abbrev waiting : ZoneMapResult
waiting = record { location = no_location; type = result_cond }

-- The caller becomes the one that writes the data.
writes-Answers :
    (m : CacheMap) (id : ℕ) (zone_map : List (ℕ × ZoneMapResult)) (r : ZoneMapResult)
    → Writes m.zone_map zone_map id r
    → r.type ≡ result_cond
    → location_of m id ≡ none
    → type_of m id ≢ some result_cond
    → IsConsistent m
    → Answers m id writes (record m { zone_map = zone_map })
writes-Answers m id zone_map r w e before idle v = (
  Writes-IsConsistent m zone_map id r w before (rw e refl) v,
  (idle, before, rw (w.at) (ap some e), w.elsewhere, refl),
)

module _ (asserts : Bool) (ids : Tables ZoneMapResult) (chunks : Tables ℕ) where
  find_entry-Outcome :
      (m : CacheMap) (id : ℕ) (l : ZnPair) (t : ResultType)
      → assoc m.zone_map id ≡ some (record { location = l; type = t })
      → IsConsistent m
      → Returns
          (λ (f, m'). IsConsistent m' × Outcome m id f m')
          (find_entry asserts ids chunks m id (some (record { location = l; type = t })))
  unfolding find_entry
  find_entry-Outcome m id l result_loc e v =
      let readers = update m.active_readers l.zone ((m.active_readers l.zone + 1) % u32) in
      let p : Answers m id (located l) (record m { active_readers = readers }) =
        (IsConsistent-same m m.zone_map readers (λ j. refl) v, (ap location_in e, refl, refl)) in
      returns p
  find_entry-Outcome m id l result_cond e v =
      let p : Answers m id waits m = (v, (ap type_in e, refl)) in returns p
  find_entry-Outcome m id l result_empty e v =
      let r : ZoneMapResult = record { location = l; type = result_cond } in
      returns (
        writes-Answers m id _ r (store-Writes m.zone_map id _ r e) refl (ap location_in e)
          (λ c. cc (ap type_in e)) v)

  find_new :
      (m : CacheMap) (id : ℕ)
      → assoc m.zone_map id ≡ none
      → IsConsistent m
      → Answers m id writes (record m { zone_map = ids.insert m.zone_map id waiting })
  find_new m id e v =
      let w : Writes m.zone_map (ids.insert m.zone_map id waiting) id waiting = record {
        at = ground (arith, ids.assoc-insert m.zone_map id waiting id);
        elsewhere = λ j ne. ground (arith, ids.assoc-insert m.zone_map id waiting j);
      } in
      writes-Answers m id _ waiting w refl (ap location_in e) (λ c. cc (ap type_in e)) v

  -- A round of zn_cachemap_find keeps the tables in agreement. It returns the location of the id,
  -- counting one reader more in its zone and in no other; or it waits, where the id is being written, and changes
  -- nothing; or, where the id has no location and is not being written, it makes the caller the one
  -- that writes it, and changes no other id and no count of readers.
  pub find_correct :
      (m : CacheMap) (id : ℕ)
      → IsConsistent m
      → Returns (λ (f, m'). IsConsistent m' × Outcome m id f m') (find asserts ids chunks m id)
  unfolding find
  find_correct m id v = elim (Option-cases (assoc m.zone_map id)) [
    | inl e ↦ rw (ids.contains_lem m.zone_map id, e) (returns (find_new m id e v))
    | inr (r, e) ↦
        rw (ids.contains_lem m.zone_map id, ids.lookup_lem m.zone_map id, e)
          (find_entry-Outcome m id r.location r.type e v)
  ]

-- The empty map that zn_cachemap_init makes.
pub init-IsConsistent :
    (asserts : Bool) (ids : Tables ZoneMapResult) (chunks : Tables ℕ) (active_readers : ℕ → ℕ)
    → IsConsistent (init asserts ids chunks active_readers)
unfolding init
init-IsConsistent asserts ids chunks active_readers = record {
  found = λ id l e. cc;
  owned = λ zone chunk id e. cc;
  fits = λ zone chunk id e. cc;
  unique = λ zone. tt;
}
