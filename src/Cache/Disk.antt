-- ===== src/Cache/Disk.antt =====
-- src/cache.c: zn_write_out and zn_read_from_disk, which repeat their system calls until they have
-- moved a chunk. The disk is a parameter, with what POSIX says of pwrite and pread. Sizes are below
-- 2^63, so that the conversions between size_t and ssize_t keep them; the waits between attempts change
-- nothing.
pub mod Write
pub mod ReadPiece
pub mod Read
mod Tests
use zncache.Base.{
  ℕ, zero, suc, ◌+◌, ◌-◌, ◌%◌, ◌≤◌, ◌<◌, ◌≡◌, refl, ap, arith, ◌⊎◌, Bool, true, false, not, ◌&&◌,
  ◌||◌, Option, none, some, ltb, leb, ◌==◌, if◌then◌else◌, u64, Run, ok, aborted, out_of_fuel,
  check, ◌>>=◌, ◌>>◌,
}

-- A disk with state `D`. Memory is a function from an offset, and a result of -1 is `none`.
pub record Device (D : Type 0) : Type 0 where
  pub byte : D → ℕ → ℕ
  -- `pwrite` of a length to an offset: at most that many bytes are written, all within the range.
  pub pwrite : D → (ℕ → ℕ) → ℕ → ℕ → Option ℕ × D
  pub pwrite-stored :
      (d : D) (buffer : ℕ → ℕ) (length offset n i : ℕ)
      → (pwrite d buffer length offset).0 ≡ some n
      → i < n
      → byte (pwrite d buffer length offset).1 (offset + i) ≡ buffer i
  pub pwrite-outside :
      (d : D) (buffer : ℕ → ℕ) (length offset j : ℕ)
      → (j < offset) ⊎ (offset + length ≤ j)
      → byte (pwrite d buffer length offset).1 j ≡ byte d j
  -- `pread` of a length from an offset, with the memory of that length after the call.
  pub pread : D → ℕ → ℕ → Option ℕ × (ℕ → ℕ) × D
  pub pread-read :
      (d : D) (length offset n i : ℕ)
      → (pread d length offset).0 ≡ some n
      → i < n
      → (pread d length offset).1 i ≡ byte d (offset + i)
  pub pread-keeps : (d : D) (length offset j : ℕ) → byte (pread d length offset).2 j ≡ byte d j

-- Whether a call moved as many bytes as it was asked to.
abbrev pub is_whole : Option ℕ → ℕ → Bool
is_whole none size = false
is_whole (some n) size = n == size

-- ZN_DIRECT_ALIGNMENT, and BACKOFF_RETRIES as the reads and as the writes see it.
abbrev pub direct_alignment : ℕ
direct_alignment = 4096

abbrev pub read_retries : ℕ
read_retries = 5

abbrev pub write_retries : ℕ
write_retries = 8

-- The size of the next piece.
abbrev pub piece : ℕ → ℕ → ℕ
piece remaining most = if ltb remaining most then remaining else most

module _ {D : Type 0} (disk : Device D) where
  -- The attempts to write one piece, by the number of attempts left.
  unfoldable pub write_piece : ℕ → D → (ℕ → ℕ) → ℕ → ℕ → Bool × D
  write_piece zero d buffer size offset = (false, d)
  write_piece (suc retries) d buffer size offset =
      let (written, d') = disk.pwrite d buffer size offset in
      let again = write_piece retries d' buffer size offset in
      if is_whole written size then (true, d') else again

  -- The loop of zn_write_out. Each round writes at least one byte, so `to_write + 1` rounds are enough.
  unfoldable pub write_loop : Bool → ℕ → D → ℕ → (ℕ → ℕ) → ℕ → ℕ → ℕ → Run (Bool × D)
  write_loop asserts zero d to_write buffer write_size wp total = out_of_fuel
  write_loop asserts (suc fuel) d to_write buffer write_size wp total =
      let size = piece (to_write - total) write_size in
      let (done, d') =
        write_piece write_retries d (λ i. buffer (total + i)) size ((wp + total) % u64) in
      let rest = write_loop asserts fuel d' to_write buffer write_size wp (total + size) in
      if ltb total to_write
      then (if done then rest else ok (false, d'))
      else (check asserts (total == to_write) >> ok (true, d))

  -- `zn_write_out`: `true` for the result 0 and `false` for -1.
  unfoldable pub write_out : Bool → D → ℕ → (ℕ → ℕ) → ℕ → ℕ → Run (Bool × D)
  write_out asserts d to_write buffer write_size wp =
      write_loop asserts (to_write + 1) d to_write buffer write_size wp 0

  -- The attempts to read one piece into the memory from `total` on.
  unfoldable pub read_piece : ℕ → D → (ℕ → ℕ) → ℕ → ℕ → ℕ → Bool × (ℕ → ℕ) × D
  read_piece zero d memory total size offset = (false, memory, d)
  read_piece (suc retries) d memory total size offset =
      let (r, bytes, d') = disk.pread d size offset in
      let memory' =
        λ (i : ℕ). if leb total i && ltb i (total + size) then bytes (i - total) else memory i in
      let again = read_piece retries d' memory' total size offset in
      if is_whole r size then (true, memory', d') else again

  -- The loop of zn_read_from_disk, with `chunk_sz + 1` rounds at most.
  unfoldable pub read_loop : ℕ → D → (ℕ → ℕ) → ℕ → ℕ → ℕ → ℕ → Run (Option (ℕ → ℕ) × D)
  read_loop zero d memory chunk_sz max_io wp total = out_of_fuel
  read_loop (suc fuel) d memory chunk_sz max_io wp total =
      let size = if ltb max_io (chunk_sz - total) then max_io else chunk_sz - total in
      let (done, memory', d') = read_piece read_retries d memory total size ((wp + total) % u64) in
      let rest = read_loop fuel d' memory' chunk_sz max_io wp (total + size) in
      if ltb total chunk_sz then (if done then rest else ok (none, d')) else ok (some memory, d)

  -- `zn_read_from_disk`, from the write pointer on: `allocated` is the memory that posix_memalign gives.
  -- Without memory the program exits.
  unfoldable pub read_from_disk : Option (ℕ → ℕ) → D → ℕ → ℕ → ℕ → Run (Option (ℕ → ℕ) × D)
  read_from_disk allocated d chunk_sz max_io wp =
      if not (chunk_sz % direct_alignment == 0) || not (max_io % direct_alignment == 0)
      then ok (none, d)
      else elim allocated [
        | none ↦ aborted
        | some memory ↦
            if not (wp % direct_alignment == 0)
            then ok (none, d)
            else read_loop (chunk_sz + 1) d memory chunk_sz max_io wp 0
      ]

pub memory-stored :
    (d buffer : ℕ → ℕ) (length offset n i : ℕ)
    → some length ≡ some n
    → i < n
    → (if leb offset (offset + i) && ltb (offset + i) (offset + length)
        then buffer (offset + i - offset)
        else d (offset + i))
      ≡ buffer i
memory-stored d buffer length offset n i e inside =
    let same : length ≡ n = cc in
    let here : (leb offset (offset + i) && ltb (offset + i) (offset + length)) ≡ true =
      ground (arith, inside) in
    let back : offset + i - offset ≡ i = omega arith in rw here (ap buffer back)

pub memory-outside :
    (d buffer : ℕ → ℕ) (length offset j : ℕ)
    → (j < offset) ⊎ (offset + length ≤ j)
    → (if leb offset j && ltb j (offset + length) then buffer (j - offset) else d j) ≡ d j
memory-outside d buffer length offset j out = ground (arith, out)

-- A disk in memory, on which every call moves all that it is asked to.
abbrev pub memory_disk : Device (ℕ → ℕ)
memory_disk = record {
  byte = λ d j. d j;
  pwrite = λ d buffer length offset. (
    some length,
    λ j. if leb offset j && ltb j (offset + length) then buffer (j - offset) else d j,
  );
  pwrite-stored = memory-stored;
  pwrite-outside = memory-outside;
  pread = λ d length offset. (some length, λ i. d (offset + i), d);
  pread-read = λ d length offset n i e inside. refl;
  pread-keeps = λ d length offset j. refl;
}
