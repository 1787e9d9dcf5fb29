-- ===== src/Cache/Disk/Read.antt =====
-- src/cache.c: what zn_read_from_disk returns.
use zncache.Base.{
  ℕ, zero, suc, ◌+◌, ◌-◌, ◌%◌, ◌≤◌, ◌<◌, ◌≡◌, ◌≢◌, refl, sym, ◌∙◌, ap, subst, arith, ◌⊎◌, inl, inr,
  Bool-cases, true, not, ◌||◌, ltb, ◌==◌, u64, Returns, returns, Returns-map, Option, none, some,
  lt_or_le,
}
use zncache.Cache.Disk.{
  Device, direct_alignment, read_retries, read_piece, read_loop, read_from_disk,
}
use zncache.Cache.Disk.ReadPiece.{
  next_size, next_size_bounds, AllShort, Fills, read_piece-Fills, read_piece-AllShort,
}

module _ {D : Type 0} (disk : Device D) where
  -- The outcome of the loop from `total` on.
  record Loaded (d : D) (memory : ℕ → ℕ) (chunk_sz max_io wp total : ℕ) (r : Option (ℕ → ℕ))
      (d' : D) : Type 0 where
    kept : (j : ℕ) → disk.byte d' j ≡ disk.byte d j
    below : (bytes : ℕ → ℕ) → r ≡ some bytes → (i : ℕ) → i < total → bytes i ≡ memory i
    loaded :
        (bytes : ℕ → ℕ)
        → r ≡ some bytes
        → (i : ℕ) → total ≤ i
        → i < chunk_sz
        → bytes i ≡ disk.byte d (wp + i)
    failed :
        r ≡ none
        → (e : D) × (at : ℕ) × (at < chunk_sz)
          × AllShort disk read_retries e (next_size max_io (chunk_sz - at)) (wp + at)

  module _ (chunk_sz max_io wp : ℕ) where
    Loaded-next :
        (d d' d'' : D) (memory memory' : ℕ → ℕ) (total size : ℕ) (r : Option (ℕ → ℕ))
        → Fills disk d memory total size (wp + total) true memory' d'
        → Loaded d' memory' chunk_sz max_io wp (total + size) r d''
        → Loaded d memory chunk_sz max_io wp total r d''
    Loaded-next d d' d'' memory memory' total size r s w = record {
      kept = λ j. w.kept j ∙ s.kept j;
      below = λ bytes e i h. w.below bytes e i (omega arith) ∙ s.below i h;
      loaded = λ bytes e i from inside. elim (lt_or_le i (total + size)) [
        | inl here ↦
            let back : total + (i - total) ≡ i = omega arith in
            let place : wp + total + (i - total) ≡ wp + i = omega arith in
            w.below bytes e i here
            ∙ (ap memory' (sym back)
                ∙ (s.filled refl (i - total) (omega arith) ∙ ap (disk.byte d) place))
        | inr later ↦ w.loaded bytes e i later inside ∙ s.kept (wp + i)
      ];
      failed = w.failed;
    }

    read_loop-Loaded :
        (fuel : ℕ) (d : D) (memory : ℕ → ℕ) (total : ℕ)
        → chunk_sz - total < fuel
        → total ≤ chunk_sz
        → 0 < max_io
        → wp + chunk_sz ≤ u64
        → Returns
            (λ (r, d'). Loaded d memory chunk_sz max_io wp total r d')
            (read_loop disk fuel d memory chunk_sz max_io wp total)
    unfolding read_loop
    read_loop-Loaded zero d memory total enough inside progress fits = absurd (omega arith)
    read_loop-Loaded (suc fuel) d memory total enough inside progress fits =
        elim (Bool-cases (ltb total chunk_sz)) [
          | inr full ↦ rw full (
              returns (record {
                kept = λ j. refl;
                below = λ bytes e i h. cc;
                loaded = λ bytes e i from below. absurd (ground (arith, full));
                failed = λ e. cc;
              }))
          | inl more ↦
              let size = next_size max_io (chunk_sz - total) in
              let here : (wp + total) % u64 ≡ wp + total = ground (arith, more) in
              let bounds =
                next_size_bounds max_io (chunk_sz - total) (ground (arith, more)) progress in
              let w = read_piece disk read_retries d memory total size (wp + total) in
              let s = read_piece-Fills disk read_retries d memory total size (wp + total) in
              rw (more, here)
                (elim (Bool-cases w.0) [
                  | inl done ↦ rw done (
                      Returns-map
                        (read_loop-Loaded fuel w.2 w.1 (total + size)
                          (omega (arith, bounds.0, bounds.1)) (omega (arith, bounds.1, bounds.0))
                          progress fits)
                        λ (r, d'') v.
                          Loaded-next d w.2 d'' memory w.1 total size r
                            (subst (λ b. Fills disk d memory total size (wp + total) b w.1 w.2) done
                              s)
                            v)
                  | inr short ↦ rw short (
                      returns (record {
                        kept = s.kept;
                        below = λ bytes e i h. cc;
                        loaded = λ bytes e i from below. cc;
                        failed = λ e. (
                          d,
                          total,
                          ground (arith, more),
                          read_piece-AllShort disk read_retries d memory total size (wp + total)
                              short,
                        );
                      }))
                ])
        ]

  -- zn_read_from_disk, with memory at hand and a range below 2^64, returns and changes no byte of the
  -- disk. What it returns, if not NULL, are the bytes of the range. It returns NULL only where a size or
  -- the offset is not aligned to 4096, or after five calls in a row that read less than one piece.
  pub read_from_disk_correct :
      (memory : ℕ → ℕ) (d : D) (chunk_sz max_io wp : ℕ)
      → 0 < max_io
      → wp + chunk_sz ≤ u64
      → Returns
          (λ (r, d').
            ((j : ℕ) → disk.byte d' j ≡ disk.byte d j)
            × ((bytes : ℕ → ℕ)
                → r ≡ some bytes
                → (i : ℕ) → i < chunk_sz
                → bytes i ≡ disk.byte d (wp + i))
            × (r ≡ none
                → (chunk_sz % 4096 ≢ 0)
                  ⊎ (max_io % 4096 ≢ 0)
                  ⊎ (wp % 4096 ≢ 0)
                  ⊎ ((e : D) × (at : ℕ) × (at < chunk_sz)
                      × AllShort disk 5 e (next_size max_io (chunk_sz - at)) (wp + at))))
          (read_from_disk disk (some memory) d chunk_sz max_io wp)
  unfolding read_from_disk
  read_from_disk_correct memory d chunk_sz max_io wp progress fits =
      elim (Bool-cases
        (not (chunk_sz % direct_alignment == 0) || not (max_io % direct_alignment == 0))) [
          | inl crooked ↦ rw crooked (
              returns (
                λ j. refl,
                λ bytes e. cc,
                λ _. elim (Bool-cases (chunk_sz % direct_alignment == 0)) [
                  | inl straight ↦ inr (inl (ground (arith, crooked, straight)))
                  | inr no_chunk ↦ inl (ground (arith, no_chunk))
                ],
              ))
          | inr straight ↦ rw straight (elim (Bool-cases (not (wp % direct_alignment == 0))) [
            | inl crooked ↦
                rw crooked (
                  returns
                    (λ j. refl, λ bytes e. cc, λ e. inr (inr (inl (ground (arith, crooked))))))
            | inr aligned ↦ rw aligned (
                Returns-map
                  (read_loop-Loaded chunk_sz max_io wp (chunk_sz + 1) d memory 0 (omega arith)
                    (omega arith) progress fits)
                  λ (r, d') w. (
                    w.kept,
                    λ bytes e i inside. w.loaded bytes e i (omega arith) inside,
                    λ e. inr (inr (inr (w.failed e))),
                  ))
          ])
        ]
