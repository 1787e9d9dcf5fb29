-- ===== src/Eviction/Chunk/Pool.antt =====
-- src/eviction/chunk.c: the pool of chunks, the addresses of its chunks, and how many are in use.
use zncache.Base.{
  ℕ, zero, suc, ◌+◌, ◌*◌, ◌/◌, ◌%◌, ◌≤◌, ◌<◌, ◌≡◌, refl, ap, sym, ◌∙◌, arith, update,
}
use zncache.Zones.{ZnPair}
use zncache.Zones.Counts.{one_if}

-- The number of chunks in use among the first ones.
abbrev pub used : ℕ → (ℕ → ZnPair) → ℕ
used zero chunks = 0
used (suc n) chunks = one_if (chunks n).in_use + used n chunks

used-update_above :
    (n i : ℕ) (chunks : ℕ → ZnPair) (zp : ZnPair)
    → n ≤ i
    → used n (update chunks i zp) ≡ used n chunks
used-update_above zero i chunks zp h = refl
used-update_above (suc n) i chunks zp h = ground (arith, used-update_above n i chunks zp)

-- A write to a chunk trades its old weight for the new one.
pub used-update :
    (n i : ℕ) (chunks : ℕ → ZnPair) (zp : ZnPair)
    → i < n
    → used n (update chunks i zp) + one_if (chunks i).in_use ≡ used n chunks + one_if zp.in_use
used-update zero i chunks zp h = absurd (omega arith)
used-update (suc n) i chunks zp h =
    ground (arith, used-update n i chunks zp, used-update_above n i chunks zp)

pub used-le : (n : ℕ) (chunks : ℕ → ZnPair) → used n chunks ≤ n
used-le zero chunks = omega arith
used-le (suc n) chunks =
    let one : one_if (chunks n).in_use ≤ 1 = ground arith in omega (arith, one, used-le n chunks)

module _ (size : ℕ) where
  -- The zone and the number of a chunk by its address.
  pub address-div : (z c : ℕ) → c < size → (z * size + c) / size ≡ z
  address-div z c h = grind arith

  pub address-mod : (z c : ℕ) → c < size → (z * size + c) % size ≡ c
  address-mod z c h = grind arith

  pub address_of : (a : ℕ) → 0 < size → a / size * size + a % size ≡ a
  address_of a h = grind arith

  pub address_inside : (a n : ℕ) → 0 < size → a < n * size → (a / size < n) × (a % size < size)
  address_inside a n h p = grind arith

  pub address_bound : (z c n : ℕ) → c < size → z < n → z * size + c < n * size
  address_bound z c n h p = grind arith

  -- Chunks with one address are the same.
  pub address_injective :
      (z c z' c' : ℕ) → c < size → c' < size → z * size + c ≡ z' * size + c' → (z ≡ z') × (c ≡ c')
  address_injective z c z' c' h h' e = (
    sym (address-div z c h) ∙ (ap (λ (a : ℕ). a / size) e ∙ address-div z' c' h'),
    sym (address-mod z c h) ∙ (ap (λ (a : ℕ). a % size) e ∙ address-mod z' c' h'),
  )
