-- ===== src/Zones/System/Writers.antt =====
-- src/zone_state_manager.c under threads: the list of the locations that are being written to.
use zncache.Base.{ℕ, ◌≡◌, ◌≢◌, arith, List, [], ◌∷◌, ◌++◌, ap, sym, ◌∙◌}
use zncache.Zones.{write_occuring, ZnPair, ZoneStateManager}
use zncache.Zones.Return.{Outstanding}
use zncache.Zones.System.{Apart, Exclusive, AllOutstanding}

Outstanding-keep :
    {s t : ZoneStateManager} {p : ZnPair}
    → t.num_zones ≡ s.num_zones
    → t.state p.zone ≡ s.state p.zone
    → Outstanding s p
    → Outstanding t p
Outstanding-keep zones same out = record {
  inside = ground (arith, out.inside);
  claimed = ground (arith, out.claimed);
  offset = ground (arith, out.offset);
}

-- A call that leaves the zones with an ongoing write alone.
pub AllOutstanding-keep :
    (s t : ZoneStateManager) (ps : List ZnPair)
    → t.num_zones ≡ s.num_zones
    → ((j : ℕ) → (s.state j).state ≡ write_occuring → t.state j ≡ s.state j)
    → AllOutstanding s ps
    → AllOutstanding t ps
AllOutstanding-keep s t [] zones same all = tt
AllOutstanding-keep s t (p ∷ ps) zones same (out, all) = (
  Outstanding-keep zones (same p.zone out.claimed) out,
  AllOutstanding-keep s t ps zones same all,
)

-- A call that changes one zone, with no write of these at it.
pub AllOutstanding-Apart :
    (s t : ZoneStateManager) (z : ℕ) (ps : List ZnPair)
    → t.num_zones ≡ s.num_zones
    → ((j : ℕ) → j ≢ z → t.state j ≡ s.state j)
    → Apart z ps
    → AllOutstanding s ps
    → AllOutstanding t ps
AllOutstanding-Apart s t z [] zones same far all = tt
AllOutstanding-Apart s t z (p ∷ ps) zones same (ne, far) (out, all) = (
  Outstanding-keep zones (same p.zone (λ e. ne (sym e))) out,
  AllOutstanding-Apart s t z ps zones same far all,
)

-- A zone without an ongoing write is at no writer.
pub not_writing-Apart :
    (s : ZoneStateManager) (z : ℕ) (ps : List ZnPair)
    → (s.state z).state ≢ write_occuring
    → AllOutstanding s ps
    → Apart z ps
not_writing-Apart s z [] ne all = tt
not_writing-Apart s z (p ∷ ps) ne (out, all) =
    (λ e. ne (ap (λ (i : ℕ). (s.state i).state) e ∙ out.claimed), not_writing-Apart s z ps ne all)

-- One writer leaves.
pub AllOutstanding-split :
    (s : ZoneStateManager) (before after : List ZnPair) (p : ZnPair)
    → AllOutstanding s (before ++ (p ∷ after))
    → Outstanding s p × AllOutstanding s (before ++ after)
AllOutstanding-split s [] after p (out, all) = (out, all)
AllOutstanding-split s (x ∷ before) after p (first, all) =
    let (out, rest) = AllOutstanding-split s before after p all in (out, (first, rest))

Apart-split :
    (z : ℕ) (before after : List ZnPair) (p : ZnPair)
    → Apart z (before ++ (p ∷ after))
    → (z ≢ p.zone) × Apart z (before ++ after)
Apart-split z [] after p (ne, far) = (ne, far)
Apart-split z (x ∷ before) after p (first, far) =
    let (ne, rest) = Apart-split z before after p far in (ne, (first, rest))

pub Exclusive-split :
    (before after : List ZnPair) (p : ZnPair)
    → Exclusive (before ++ (p ∷ after))
    → Apart p.zone (before ++ after) × Exclusive (before ++ after)
Exclusive-split [] after p (far, ex) = (far, ex)
Exclusive-split (x ∷ before) after p (far, ex) =
    let (ne, apart) = Apart-split x.zone before after p far in
    let (away, rest) = Exclusive-split before after p ex in
    (((λ e. ne (sym e)), away), (apart, rest))
