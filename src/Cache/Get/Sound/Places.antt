-- ===== src/Cache/Get/Sound/Places.antt =====
-- include/znutil.h: CHUNK_POINTER does not wrap where the zones fit into 64 bits, and gives each chunk
-- bytes of its own.
use zncache.Base.{ℕ, ◌+◌, ◌*◌, ◌≤◌, ◌<◌, ◌≡◌, ◌≢◌, arith, inl, inr, u64, eq_or_ne, lt_or_le}
use zncache.Zones.{chunk_pointer}
use zncache.Cache.Disk.Write.{Outside}

-- A block of the given number, and the blocks before it, end where the next one starts.
block_end : (size i n : ℕ) → i < n → size * i + size ≤ size * n
block_end size i n h = grind arith

module _ (zone_size chunk_size zones chunks : ℕ) (inner : chunks * chunk_size ≤ zone_size)
    (outer : zones * zone_size ≤ u64) where
  -- The chunk lies within its zone.
  chunk_end : (k : ℕ) → k < chunks → k * chunk_size + chunk_size ≤ zone_size
  chunk_end k h = grind arith

  zone_end : (z : ℕ) → z < zones → zone_size * z + zone_size ≤ u64
  zone_end z h = grind arith

  -- For a chunk of a zone of the disk, CHUNK_POINTER is the number of bytes before it, without wrap-around,
  -- and the chunk ends within 64 bits.
  pub chunk_pointer_flat :
      (k z : ℕ)
      → 0 < chunk_size
      → k < chunks
      → z < zones
      → (chunk_pointer zone_size chunk_size k z ≡ zone_size * z + k * chunk_size)
        × (zone_size * z + k * chunk_size + chunk_size ≤ u64)
  unfolding chunk_pointer
  chunk_pointer_flat k z some h p =
      let a = chunk_end k h in let b = zone_end z p in (omega (arith, a, b), omega (arith, a, b))

  -- Where the chunks of a zone fit into it and the zones into 64 bits, the bytes of two different chunks of the
  -- disk are apart.
  pub chunk_pointer_apart :
      (k z k' z' i : ℕ)
      → k < chunks
      → z < zones
      → k' < chunks
      → z' < zones
      → (z ≡ z' → k ≢ k')
      → i < chunk_size
      → Outside
          (chunk_pointer zone_size chunk_size k z)
          chunk_size
          (chunk_pointer zone_size chunk_size k' z' + i)
  chunk_pointer_apart k z k' z' i h p h' p' ne small =
      let (at, _) = chunk_pointer_flat k z (omega arith) h p in
      let (at', _) = chunk_pointer_flat k' z' (omega arith) h' p' in
      elim (eq_or_ne z z') [
        | inl same ↦ elim (lt_or_le k k') [
          | inl less ↦
              let e = block_end chunk_size k k' less in inr (rw (at, at', same) (grind arith))
          | inr more ↦
              let less : k' < k = ground (arith, ne same) in
              let e = block_end chunk_size k' k less in inl (rw (at, at', same) (grind arith))
        ]
        | inr other ↦ elim (lt_or_le z z') [
          | inl less ↦
              let e = block_end zone_size z z' less in
              let f = chunk_end k h in inr (rw (at, at') (omega arith))
          | inr more ↦
              let less : z' < z = omega arith in
              let e = block_end zone_size z' z less in
              let f = chunk_end k' h' in inl (rw (at, at') (omega arith))
        ]
      ]
