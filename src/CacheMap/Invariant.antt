-- ===== src/CacheMap/Invariant.antt =====
-- src/cachemap.c: what the two tables of the map say of each other.
use zncache.Base.{ℕ, ◌<◌, ◌≡◌, ◌≢◌, refl, ap, arith, eq_or_ne, inl, inr, Option, none, some, List}
use zncache.Glib.{Distinct, assoc, store, assoc-store}
use zncache.Zones.{ZnPair}
use zncache.CacheMap.{CacheMap, ResultType, ZoneMapResult, result_loc}

abbrev pub location_in : Option ZoneMapResult → Option ZnPair
location_in none = none
location_in (some r) = elim r.type [ result_loc ↦ some r.location | _ ↦ none ]

-- Where the data of an id is.
abbrev pub location_of : CacheMap → ℕ → Option ZnPair
location_of m id = location_in (assoc m.zone_map id)

abbrev pub type_in : Option ZoneMapResult → Option ResultType
type_in none = none
type_in (some r) = some r.type

-- The type of the entry of an id.
abbrev pub type_of : CacheMap → ℕ → Option ResultType
type_of m id = type_in (assoc m.zone_map id)

-- The tables agree: an id has a location exactly where the table of that zone has it at that chunk.
pub record IsConsistent (m : CacheMap) : Type 0 where
  pub found :
      (id : ℕ) (l : ZnPair)
      → location_of m id ≡ some l
      → assoc (m.data_map l.zone) l.chunk_offset ≡ some id
  pub owned :
      (zone chunk id : ℕ)
      → assoc (m.data_map zone) chunk ≡ some id
      → (l : ZnPair) × (location_of m id ≡ some l) × (l.zone ≡ zone) × (l.chunk_offset ≡ chunk)
  pub fits : (zone chunk id : ℕ) → assoc (m.data_map zone) chunk ≡ some id → id < 2147483648
  pub unique : (zone : ℕ) → Distinct (m.data_map zone)

-- A change of the table of ids that moves no location keeps the tables in agreement.
pub IsConsistent-same :
    (m : CacheMap) (zone_map : List (ℕ × ZoneMapResult)) (active_readers : ℕ → ℕ)
    → ((j : ℕ) → location_in (assoc zone_map j) ≡ location_of m j)
    → IsConsistent m
    → IsConsistent
        (record { zone_map = zone_map; data_map = m.data_map; active_readers = active_readers })
IsConsistent-same m zone_map active_readers same v = record {
  found = λ id l e. v.found id l (cc (same id));
  owned = λ zone chunk id e. let (l, at, z, c) = v.owned zone chunk id e in (l, cc (same id), z, c);
  fits = v.fits;
  unique = v.unique;
}

-- A table in which one entry was written.
pub record Writes (old new : List (ℕ × ZoneMapResult)) (id : ℕ) (r : ZoneMapResult) : Type 0 where
  pub at : assoc new id ≡ some r
  pub elsewhere : (j : ℕ) → j ≢ id → assoc new j ≡ assoc old j

pub store-Writes :
    (t : List (ℕ × ZoneMapResult)) (id : ℕ) (old r : ZoneMapResult)
    → assoc t id ≡ some old
    → Writes t (store t id r) id r
store-Writes t id old r e = record {
  at = ground (arith, assoc-store t id r id);
  elsewhere = λ j ne. ground (arith, assoc-store t id r j);
}

-- An entry without a location is written over by another without a location.
pub Writes-IsConsistent :
    (m : CacheMap) (zone_map : List (ℕ × ZoneMapResult)) (id : ℕ) (r : ZoneMapResult)
    → Writes m.zone_map zone_map id r
    → location_of m id ≡ none
    → location_in (some r) ≡ none
    → IsConsistent m
    → IsConsistent (record m { zone_map = zone_map })
Writes-IsConsistent m zone_map id r w before after v =
    IsConsistent-same m zone_map m.active_readers same v
  where
    same : (j : ℕ) → location_in (assoc zone_map j) ≡ location_of m j
    same j = elim (eq_or_ne j id) [
      | inl e ↦ rw (e, w.at, after, before) refl
      | inr ne ↦ ap location_in (w.elsewhere j ne)
    ]
