-- ===== src/Zones/Counts.antt =====
-- How many of the first zones of the array are in a condition.
use zncache.Base.{ℕ, zero, suc, ◌+◌, ◌≤◌, ◌<◌, ◌≡◌, refl, arith, Bool, if◌then◌else◌, update}
use zncache.Zones.{Condition, free, full, active, write_occuring, Zone, is}

abbrev pub one_if : Bool → ℕ
one_if b = if b then 1 else 0

-- The sum of a weight over the first zones.
abbrev pub tally : (Zone → ℕ) → ℕ → (ℕ → Zone) → ℕ
tally weight zero state = 0
tally weight (suc n) state = weight (state n) + tally weight n state

abbrev pub weight_of : Condition → Zone → ℕ
weight_of c zone = one_if (is zone.state c)

abbrev pub count_in : Condition → ℕ → (ℕ → Zone) → ℕ
count_in c = tally (weight_of c)

tally-update_above :
    (weight : Zone → ℕ) (n i : ℕ) (state : ℕ → Zone) (zone : Zone)
    → n ≤ i
    → tally weight n (update state i zone) ≡ tally weight n state
tally-update_above weight zero i state zone h = refl
tally-update_above weight (suc n) i state zone h =
    ground (arith, tally-update_above weight n i state zone)

-- A write to a zone of the array trades its old weight for the new one.
pub tally-update :
    (weight : Zone → ℕ) (n i : ℕ) (state : ℕ → Zone) (zone : Zone)
    → i < n
    → tally weight n (update state i zone) + weight (state i) ≡ tally weight n state + weight zone
tally-update weight zero i state zone h = absurd (omega arith)
tally-update weight (suc n) i state zone h =
    ground (arith, tally-update weight n i state zone, tally-update_above weight n i state zone)

-- Every zone is in one of the four conditions.
pub conditions_cover :
    (c : Condition)
    → one_if (is c active) + one_if (is c free) + one_if (is c write_occuring) + one_if (is c full)
      ≡ 1
conditions_cover free = refl
conditions_cover full = refl
conditions_cover active = refl
conditions_cover write_occuring = refl

pub weight-le-tally :
    (weight : Zone → ℕ) (n i : ℕ) (state : ℕ → Zone)
    → i < n
    → weight (state i) ≤ tally weight n state
weight-le-tally weight zero i state h = absurd (omega arith)
weight-le-tally weight (suc n) i state h = ground (arith, weight-le-tally weight n i state)

pub tally-zero :
    (weight : Zone → ℕ) (n : ℕ) (state : ℕ → Zone)
    → ((j : ℕ) → j < n → weight (state j) ≡ 0)
    → tally weight n state ≡ 0
tally-zero weight zero state h = refl
tally-zero weight (suc n) state h =
    omega (arith, h n (omega arith), tally-zero weight n state (λ j p. h j (omega arith)))

pub count_in-le : (c : Condition) (n : ℕ) (state : ℕ → Zone) → count_in c n state ≤ n
count_in-le c zero state = omega arith
count_in-le c (suc n) state =
    let one : weight_of c (state n) ≤ 1 = ground arith in omega (arith, one, count_in-le c n state)
