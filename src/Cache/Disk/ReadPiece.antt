-- ===== src/Cache/Disk/ReadPiece.antt =====
-- src/cache.c: the attempts of zn_read_from_disk to read one piece.
use zncache.Base.{
  ℕ, zero, suc, ◌+◌, ◌-◌, ◌≤◌, ◌<◌, ◌≡◌, refl, ◌∙◌, ap, arith, inl, inr, Bool, Bool-cases, true,
  false, ltb, leb, ◌&&◌, if◌then◌else◌, Option, none, some,
}
use zncache.Cache.Disk.{Device, is_whole, read_piece}

-- The size of the next piece of a read.
abbrev pub next_size : ℕ → ℕ → ℕ
next_size max_io remaining = if ltb max_io remaining then max_io else remaining

pub next_size_bounds :
    (max_io remaining : ℕ)
    → 0 < remaining
    → 0 < max_io
    → (0 < next_size max_io remaining) × (next_size max_io remaining ≤ remaining)
next_size_bounds max_io remaining h k = ground arith

module _ {D : Type 0} (disk : Device D) where
  -- The given number of calls in a row, each after the other, read less than the piece.
  abbrev pub AllShort : ℕ → D → ℕ → ℕ → Type 0
  AllShort zero d size offset = Unit {0}
  AllShort (suc k) d size offset =
      (is_whole (disk.pread d size offset).0 size ≡ false)
      × AllShort k (disk.pread d size offset).2 size offset

  -- The outcome of a read of a piece into memory.
  pub record Fills (d : D) (memory : ℕ → ℕ) (total size offset : ℕ) (done : Bool) (memory' : ℕ → ℕ)
      (d' : D) : Type 0 where
    pub kept : (j : ℕ) → disk.byte d' j ≡ disk.byte d j
    pub below : (i : ℕ) → i < total → memory' i ≡ memory i
    pub filled : done ≡ true → (i : ℕ) → i < size → memory' (total + i) ≡ disk.byte d (offset + i)

  whole-filled :
      (d : D) (size offset : ℕ) (r : Option ℕ)
      → (disk.pread d size offset).0 ≡ r
      → is_whole r size ≡ true
      → (i : ℕ) → i < size
      → (disk.pread d size offset).1 i ≡ disk.byte d (offset + i)
  whole-filled d size offset none e whole i inside = cc
  whole-filled d size offset (some n) e whole i inside =
      disk.pread-read d size offset n i e (ground (arith, whole))

  -- The memory after one call.
  abbrev into : (ℕ → ℕ) → (ℕ → ℕ) → ℕ → ℕ → ℕ → ℕ
  into memory bytes total size i =
      if leb total i && ltb i (total + size) then bytes (i - total) else memory i

  into-at :
      (memory bytes : ℕ → ℕ) (total size i : ℕ)
      → i < size
      → into memory bytes total size (total + i) ≡ bytes i
  into-at memory bytes total size i inside =
      let here : (leb total (total + i) && ltb (total + i) (total + size)) ≡ true =
        ground (arith, inside) in
      let back : total + i - total ≡ i = omega arith in rw here (ap bytes back)

  pub read_piece-Fills :
      (k : ℕ) (d : D) (memory : ℕ → ℕ) (total size offset : ℕ)
      → Fills d memory total size offset
          (read_piece disk k d memory total size offset).0
          (read_piece disk k d memory total size offset).1
          (read_piece disk k d memory total size offset).2
  unfolding read_piece
  read_piece-Fills zero d memory total size offset = record {
    kept = λ j. refl;
    below = λ i h. refl;
    filled = λ e. cc;
  }
  read_piece-Fills (suc k) d memory total size offset =
      let first = disk.pread d size offset in
      elim (Bool-cases (is_whole first.0 size)) [
        | inl whole ↦ rw whole (record {
          kept = disk.pread-keeps d size offset;
          below = λ i h. ground (arith, h);
          filled = λ e i inside.
              into-at memory first.1 total size i inside
              ∙ whole-filled d size offset first.0 refl whole i inside;
        })
        | inr short ↦
            let s = read_piece-Fills k first.2 (into memory first.1 total size) total size offset in
            rw short (record {
              kept = λ j. s.kept j ∙ disk.pread-keeps d size offset j;
              below = λ i h. s.below i h ∙ ground (arith, h);
              filled =
                  λ e i inside. s.filled e i inside ∙ disk.pread-keeps d size offset (offset + i);
            })
      ]

  pub read_piece-AllShort :
      (k : ℕ) (d : D) (memory : ℕ → ℕ) (total size offset : ℕ)
      → (read_piece disk k d memory total size offset).0 ≡ false
      → AllShort k d size offset
  unfolding read_piece
  read_piece-AllShort zero d memory total size offset e = tt
  read_piece-AllShort (suc k) d memory total size offset e =
      let first = disk.pread d size offset in
      elim (Bool-cases (is_whole first.0 size)) [
        | inl whole ↦ ground arith
        | inr short ↦ (
          short,
          read_piece-AllShort k first.2 (into memory first.1 total size) total size offset
              (ground arith),
        )
      ]
