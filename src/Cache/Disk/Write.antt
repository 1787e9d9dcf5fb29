-- ===== src/Cache/Disk/Write.antt =====
-- src/cache.c: what zn_write_out leaves on the disk.
use zncache.Base.{
  ℕ, zero, suc, ◌+◌, ◌-◌, ◌%◌, ◌≤◌, ◌<◌, ◌≡◌, refl, ◌∙◌, ap, arith, ◌⊎◌, inl, inr, Bool, Bool-cases,
  true, false, ltb, u64, check-Returns, Returns, returns, Returns-map, subst, Option, none, some,
  lt_or_le,
}
use zncache.Cache.Disk.{Device, is_whole, piece, write_retries, write_piece, write_loop, write_out}

-- A position outside a range.
abbrev pub Outside : ℕ → ℕ → ℕ → Type 0
Outside offset size j = (j < offset) ⊎ (offset + size ≤ j)

pub piece_bounds :
    (remaining most : ℕ)
    → 0 < remaining
    → 0 < most
    → (0 < piece remaining most) × (piece remaining most ≤ remaining)
piece_bounds remaining most h k = ground arith

module _ {D : Type 0} (disk : Device D) where
  -- The given number of calls in a row, each after the other, moved less than the piece.
  abbrev pub AllShort : ℕ → D → (ℕ → ℕ) → ℕ → ℕ → Type 0
  AllShort zero d buffer size offset = Unit {0}
  AllShort (suc k) d buffer size offset =
      (is_whole (disk.pwrite d buffer size offset).0 size ≡ false)
      × AllShort k (disk.pwrite d buffer size offset).1 buffer size offset

  -- The outcome of a write of a range.
  pub record Stores (d : D) (buffer : ℕ → ℕ) (size offset : ℕ) (done : Bool) (d' : D) : Type 0 where
    pub outside : (j : ℕ) → Outside offset size j → disk.byte d' j ≡ disk.byte d j
    pub stored : done ≡ true → (i : ℕ) → i < size → disk.byte d' (offset + i) ≡ buffer i

  whole-stored :
      (d : D) (buffer : ℕ → ℕ) (size offset : ℕ) (r : Option ℕ)
      → (disk.pwrite d buffer size offset).0 ≡ r
      → is_whole r size ≡ true
      → (i : ℕ) → i < size
      → disk.byte (disk.pwrite d buffer size offset).1 (offset + i) ≡ buffer i
  whole-stored d buffer size offset none e whole i inside = cc
  whole-stored d buffer size offset (some n) e whole i inside =
      disk.pwrite-stored d buffer size offset n i e (ground (arith, whole))

  write_piece-Stores :
      (k : ℕ) (d : D) (buffer : ℕ → ℕ) (size offset : ℕ)
      → Stores d buffer size offset
          (write_piece disk k d buffer size offset).0
          (write_piece disk k d buffer size offset).1
  unfolding write_piece
  write_piece-Stores zero d buffer size offset = record {
    outside = λ j out. refl;
    stored = λ e. cc;
  }
  write_piece-Stores (suc k) d buffer size offset =
      let first = disk.pwrite d buffer size offset in
      elim (Bool-cases (is_whole first.0 size)) [
        | inl whole ↦ rw whole (record {
          outside = disk.pwrite-outside d buffer size offset;
          stored = λ e. whole-stored d buffer size offset first.0 refl whole;
        })
        | inr short ↦
            let s = write_piece-Stores k first.1 buffer size offset in
            rw short (record {
              outside = λ j out. s.outside j out ∙ disk.pwrite-outside d buffer size offset j out;
              stored = s.stored;
            })
      ]

  write_piece-AllShort :
      (k : ℕ) (d : D) (buffer : ℕ → ℕ) (size offset : ℕ)
      → (write_piece disk k d buffer size offset).0 ≡ false
      → AllShort k d buffer size offset
  unfolding write_piece
  write_piece-AllShort zero d buffer size offset e = tt
  write_piece-AllShort (suc k) d buffer size offset e =
      let first = disk.pwrite d buffer size offset in
      elim (Bool-cases (is_whole first.0 size)) [
        | inl whole ↦ ground arith
        | inr short ↦ (short, write_piece-AllShort k first.1 buffer size offset (ground arith))
      ]

  -- The outcome of the loop from `total` on.
  record Written (d : D) (to_write : ℕ) (buffer : ℕ → ℕ) (write_size wp total : ℕ) (done : Bool)
      (d' : D) : Type 0 where
    outside : (j : ℕ) → (j < wp + total) ⊎ (wp + to_write ≤ j) → disk.byte d' j ≡ disk.byte d j
    stored : done ≡ true → (i : ℕ) → total ≤ i → i < to_write → disk.byte d' (wp + i) ≡ buffer i
    failed :
        done ≡ false
        → (e : D) × (at : ℕ) × (at < to_write)
          × AllShort write_retries e
              (λ i. buffer (at + i))
              (piece (to_write - at) write_size)
              (wp + at)

  module _ (to_write : ℕ) (buffer : ℕ → ℕ) (write_size wp : ℕ) where
    -- A piece that was written, and the rest behind it.
    Written-next :
        (d d' d'' : D) (total size : ℕ) (done : Bool)
        → total + size ≤ to_write
        → Stores d (λ i. buffer (total + i)) size (wp + total) true d'
        → Written d' to_write buffer write_size wp (total + size) done d''
        → Written d to_write buffer write_size wp total done d''
    Written-next d d' d'' total size done fits s w = record {
      outside = λ j out. w.outside j (ground arith) ∙ s.outside j (ground arith);
      stored = λ e i from below. elim (lt_or_le i (total + size)) [
        | inl here ↦
            w.outside (wp + i) (inl (omega arith))
            ∙ (rw (place i from) (s.stored refl (i - total) (omega arith))
                ∙ ap buffer (offset_back i from))
        | inr later ↦ w.stored e i later below
      ];
      failed = w.failed;
    }
      where
        place : (i : ℕ) → total ≤ i → wp + i ≡ wp + total + (i - total)
        place i from = omega arith

        offset_back : (i : ℕ) → total ≤ i → total + (i - total) ≡ i
        offset_back i from = omega arith

    write_loop-Written :
        (asserts : Bool) (fuel : ℕ) (d : D) (total : ℕ)
        → to_write - total < fuel
        → total ≤ to_write
        → 0 < write_size
        → wp + to_write ≤ u64
        → Returns
            (λ (done, d'). Written d to_write buffer write_size wp total done d')
            (write_loop disk asserts fuel d to_write buffer write_size wp total)
    unfolding write_loop
    write_loop-Written asserts zero d total enough inside progress fits = absurd (omega arith)
    write_loop-Written asserts (suc fuel) d total enough inside progress fits =
        elim (Bool-cases (ltb total to_write)) [
          | inr full ↦ rw full (
              check-Returns asserts _ (ground (arith, inside, full)) (
                returns (record {
                  outside = λ j out. refl;
                  stored = λ e i from below. absurd (ground (arith, full));
                  failed = λ e. cc;
                })))
          | inl more ↦
              let size = piece (to_write - total) write_size in
              let here : (wp + total) % u64 ≡ wp + total = ground (arith, more) in
              let bounds =
                piece_bounds (to_write - total) write_size (ground (arith, more)) progress in
              let w =
                write_piece disk write_retries d (λ i. buffer (total + i)) size (wp + total) in
              let s =
                write_piece-Stores write_retries d (λ i. buffer (total + i)) size (wp + total) in
              rw (more, here)
                (elim (Bool-cases w.0) [
                  | inl done ↦ rw done (
                      Returns-map
                        (write_loop-Written asserts fuel w.1 (total + size)
                          (omega (arith, bounds.0, bounds.1)) (omega (arith, bounds.1, bounds.0))
                          progress fits)
                        λ (done', d'') v.
                          Written-next d w.1 d'' total size done'
                            (omega (arith, bounds.1, bounds.0))
                            (subst (λ b. Stores d (λ i. buffer (total + i)) size (wp + total) b w.1)
                              done s)
                            v)
                  | inr failed ↦ rw failed (
                      returns (record {
                        outside = λ j out. s.outside j (ground (arith, bounds.1, out));
                        stored = λ e. cc;
                        failed = λ e. (
                          d,
                          total,
                          ground (arith, more),
                          write_piece-AllShort write_retries d (λ i. buffer (total + i)) size
                              (wp + total) failed,
                        );
                      }))
                ])
        ]

  -- zn_write_out of a buffer to a range below 2^64, in pieces of at least one byte, returns and changes no
  -- byte outside the range. Where it returns 0 the range holds the buffer. It returns -1 only after
  -- eight calls in a row that wrote less than one piece of the range.
  pub write_out_correct :
      (asserts : Bool) (d : D) (to_write : ℕ) (buffer : ℕ → ℕ) (write_size wp : ℕ)
      → 0 < write_size
      → wp + to_write ≤ u64
      → Returns
          (λ (done, d').
            ((j : ℕ) → Outside wp to_write j → disk.byte d' j ≡ disk.byte d j)
            × (done ≡ true → (i : ℕ) → i < to_write → disk.byte d' (wp + i) ≡ buffer i)
            × (done ≡ false
                → (e : D) × (at : ℕ) × (at < to_write)
                  × AllShort 8 e
                      (λ i. buffer (at + i))
                      (piece (to_write - at) write_size)
                      (wp + at)))
          (write_out disk asserts d to_write buffer write_size wp)
  unfolding write_out
  write_out_correct asserts d to_write buffer write_size wp progress fits =
      Returns-map
        (write_loop-Written to_write buffer write_size wp asserts (to_write + 1) d 0 (omega arith)
          (omega arith) progress fits)
        λ (done, d') w. (
          λ j out. w.outside j (ground arith),
          λ e i below. w.stored e i (omega arith) below,
          w.failed,
        )
