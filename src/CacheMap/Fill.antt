-- ===== src/CacheMap/Fill.antt =====
-- src/cachemap.c: zn_cachemap_insert and zn_cachemap_fail, which end the write of an id.
use zncache.Base.{
  ℕ, ◌<◌, ◌≡◌, ◌≢◌, refl, ap, ◌⊎◌, inl, inr, arith, Bool, Option, none, some, List, update,
  eq_or_ne, check-Returns, Returns, returns,
}
use zncache.Glib.{Tables, Distinct, assoc}
use zncache.Zones.{ZnPair}
use zncache.CacheMap.{
  CacheMap, ResultType, ZoneMapResult, result_loc, result_cond, result_empty, insert, insert_entry,
  fail, fail_entry,
}
use zncache.CacheMap.Invariant.{
  location_in, location_of, type_in, type_of, IsConsistent, Writes, store-Writes,
  Writes-IsConsistent,
}

pub entry_of :
    (o : Option ZoneMapResult) (t : ResultType)
    → type_in o ≡ some t
    → (l : ZnPair) × (o ≡ some (record { location = l; type = t }))
entry_of none t e = cc
entry_of (some r) t e = (r.location, cc)

module _ (chunks : Tables ℕ) (m : CacheMap) (id : ℕ) (l : ZnPair) where
  -- The tables of the zones with the id at its new place.
  abbrev with_place : ℕ → List (ℕ × ℕ)
  with_place = update m.data_map l.zone (chunks.insert (m.data_map l.zone) l.chunk_offset id)

  with_place-cases :
      (zone chunk : ℕ)
      → ((l.zone ≡ zone) × (l.chunk_offset ≡ chunk) × (assoc (with_place zone) chunk ≡ some id))
        ⊎ (assoc (with_place zone) chunk ≡ assoc (m.data_map zone) chunk)
  with_place-cases zone chunk =
      ground (arith, chunks.assoc-insert (m.data_map l.zone) l.chunk_offset id chunk)

  with_place-at : assoc (with_place l.zone) l.chunk_offset ≡ some id
  with_place-at =
      ground (arith, chunks.assoc-insert (m.data_map l.zone) l.chunk_offset id l.chunk_offset)

  with_place-Distinct : (zone : ℕ) → IsConsistent m → Distinct (with_place zone)
  with_place-Distinct zone v =
      let d = chunks.insert-Distinct (m.data_map l.zone) l.chunk_offset id (v.unique l.zone) in
      ground (arith, v.unique zone, d)

-- The map in which the data of an id has come to a place that no other data has.
placed-IsConsistent :
    (chunks : Tables ℕ) (m : CacheMap) (id : ℕ) (l : ZnPair) (zone_map : List (ℕ × ZoneMapResult))
    → Writes m.zone_map zone_map id (record { location = l; type = result_loc })
    → location_of m id ≡ none
    → id < 2147483648
    → assoc (m.data_map l.zone) l.chunk_offset ≡ none
    → IsConsistent m
    → IsConsistent (record m { zone_map = zone_map; data_map = with_place chunks m id l })
placed-IsConsistent chunks m id l zone_map w before small free v = record {
  found = found';
  owned = owned';
  fits = fits';
  unique = λ zone. with_place-Distinct chunks m id l zone v;
}
  where
    new : ℕ → List (ℕ × ℕ)
    new = with_place chunks m id l

    found' :
        (j : ℕ) (k : ZnPair)
        → location_in (assoc zone_map j) ≡ some k
        → assoc (with_place chunks m id l k.zone) k.chunk_offset ≡ some j
    found' j k e = elim (eq_or_ne j id) [
      | inl same ↦
          let k_is_l : l ≡ k = cc (w.at, e, same) in
          rw (← k_is_l, same) (with_place-at chunks m id l)
      | inr ne ↦ elim (with_place-cases chunks m id l k.zone k.chunk_offset) [
        | inl (z, c, at) ↦ cc (v.found j k (cc (w.elsewhere j ne, e)), z, c, free)
        | inr kept ↦ cc (v.found j k (cc (w.elsewhere j ne, e)), kept)
      ]
    ]

    owned' :
        (zone chunk j : ℕ)
        → assoc (with_place chunks m id l zone) chunk ≡ some j
        → (k : ZnPair) × (location_in (assoc zone_map j) ≡ some k)
          × (k.zone ≡ zone)
          × (k.chunk_offset ≡ chunk)
    owned' zone chunk j e = elim (with_place-cases chunks m id l zone chunk) [
      | inl (z, c, at) ↦ (l, cc (at, e, w.at), z, c)
      | inr kept ↦
          let (k, here, z, c) = v.owned zone chunk j (cc (kept, e)) in
          let ne : j ≢ id = λ same. cc in (k, cc (w.elsewhere j ne, here), z, c)
    ]

    fits' :
        (zone chunk j : ℕ) → assoc (with_place chunks m id l zone) chunk ≡ some j → j < 2147483648
    fits' zone chunk j e = elim (with_place-cases chunks m id l zone chunk) [
      | inl (z, c, at) ↦ let same : id ≡ j = cc (at, e) in rw (← same) small
      | inr kept ↦ v.fits zone chunk j (cc (kept, e))
    ]

module _ (asserts : Bool) (ids : Tables ZoneMapResult) (chunks : Tables ℕ) where
  -- For an id below 2^31 that is being written, and a place that holds no data, zn_cachemap_insert
  -- returns, gives the id that location, keeps the tables in agreement and changes no other id and no
  -- count of readers.
  pub insert_places :
      (m : CacheMap) (id : ℕ) (location : ZnPair)
      → IsConsistent m
      → type_of m id ≡ some result_cond
      → id < 2147483648
      → assoc (m.data_map location.zone) location.chunk_offset ≡ none
      → Returns
          (λ m'.
            IsConsistent m'
            × (location_of m' id ≡ some location)
            × ((j : ℕ) → j ≢ id → assoc m'.zone_map j ≡ assoc m.zone_map j)
            × (m'.active_readers ≡ m.active_readers))
          (insert asserts ids chunks m id location)
  unfolding insert insert_entry
  insert_places m id location v writing small free =
      let (l, e) = entry_of (assoc m.zone_map id) result_cond writing in
      let w = store-Writes m.zone_map id _ (record { location = location; type = result_loc }) e in
      rw (ids.contains_lem m.zone_map id, ids.lookup_lem m.zone_map id, e)
        (check-Returns asserts _ refl (
          check-Returns asserts _ refl (
            returns (
              placed-IsConsistent chunks m id location _ w (ap location_in e) small free v,
              ap location_in w.at,
              w.elsewhere,
              refl,
            ))))

  -- For an id that is being written, zn_cachemap_fail returns, leaves the id with neither a location
  -- nor a writer, keeps the tables in agreement and changes no other id and no count of readers.
  pub fail_correct :
      (m : CacheMap) (id : ℕ)
      → IsConsistent m
      → type_of m id ≡ some result_cond
      → Returns
          (λ m'.
            IsConsistent m'
            × (type_of m' id ≡ some result_empty)
            × ((j : ℕ) → j ≢ id → assoc m'.zone_map j ≡ assoc m.zone_map j)
            × (m'.active_readers ≡ m.active_readers))
          (fail asserts ids chunks m id)
  unfolding fail fail_entry
  fail_correct m id v writing =
      let (l, e) = entry_of (assoc m.zone_map id) result_cond writing in
      let w = store-Writes m.zone_map id _ (record { location = l; type = result_empty }) e in
      rw (ids.contains_lem m.zone_map id, ids.lookup_lem m.zone_map id, e)
        (check-Returns asserts _ refl (
          check-Returns asserts _ refl (
            returns (
              Writes-IsConsistent m _ id _ w (ap location_in e) refl v,
              ap type_in w.at,
              w.elsewhere,
              refl,
            ))))
