-- ===== src/Cache/Disk/Tests.antt =====
-- src/cache.c: the loops over the disk at a disk in memory, and at one on which no write succeeds.
use zncache.Base.{
  ℕ, ◌+◌, ◌-◌, ◌<◌, ◌≡◌, ◌≢◌, ◌%◌, ◌⊎◌, refl, arith, true, false, none, some, Returns, ok,
}
use zncache.Cache.Disk.{
  Device, memory_disk, piece, write_piece, write_loop, write_out, read_piece, read_loop,
  read_from_disk,
}
use zncache.Cache.Disk.Write.{Outside, AllShort, write_out_correct}
use zncache.Cache.Disk.ReadPiece
use zncache.Cache.Disk.ReadPiece.{next_size}
use zncache.Cache.Disk.Read.{read_from_disk_correct}

abbrev zeros : ℕ → ℕ
zeros j = 0

abbrev ones : ℕ → ℕ
ones i = 1

-- Ten bytes in pieces of four.
write_out_correct_example :
    Returns
      (λ (done, d').
        ((j : ℕ) → Outside 8192 10 j → memory_disk.byte d' j ≡ 0)
        × (done ≡ true → (i : ℕ) → i < 10 → memory_disk.byte d' (8192 + i) ≡ 1)
        × (done ≡ false
            → (e : ℕ → ℕ) × (at : ℕ) × (at < 10)
              × AllShort memory_disk 8 e (λ i. 1) (piece (10 - at) 4) (8192 + at)))
      (write_out memory_disk true zeros 10 ones 4 8192)
write_out_correct_example =
    write_out_correct memory_disk true zeros 10 ones 4 8192 (omega arith) (omega arith)

no_result : (n : ℕ) {A : Type 0} → none ≡ some n → A
no_result n e = cc

-- A disk that takes nothing.
abbrev broken_disk : Device (ℕ → ℕ)
broken_disk = record {
  byte = λ d j. d j;
  pwrite = λ d buffer length offset. (none, d);
  pwrite-stored = λ d buffer length offset n i e inside. no_result n e;
  pwrite-outside = λ d buffer length offset j out. refl;
  pread = λ d length offset. (none, zeros, d);
  pread-read = λ d length offset n i e inside. no_result n e;
  pread-keeps = λ d length offset j. refl;
}

write_out_broken : write_out broken_disk true zeros 10 ones 4 8192 ≡ ok (false, zeros)
unfolding write_out write_loop write_piece
write_out_broken = refl

read_from_disk_broken :
    read_from_disk broken_disk (some ones) zeros 4096 4096 8192 ≡ ok (none, zeros)
unfolding read_from_disk read_loop read_piece
read_from_disk_broken = refl

read_from_disk_correct_example :
    Returns
      (λ (r, d').
        ((j : ℕ) → memory_disk.byte d' j ≡ 0)
        × ((bytes : ℕ → ℕ) → r ≡ some bytes → (i : ℕ) → i < 8192 → bytes i ≡ 0)
        × (r ≡ none
            → (8192 % 4096 ≢ 0)
              ⊎ (4096 % 4096 ≢ 0)
              ⊎ (12288 % 4096 ≢ 0)
              ⊎ ((e : ℕ → ℕ) × (at : ℕ) × (at < 8192)
                  × ReadPiece.AllShort memory_disk 5 e (next_size 4096 (8192 - at)) (12288 + at))))
      (read_from_disk memory_disk (some ones) zeros 8192 4096 12288)
read_from_disk_correct_example =
    read_from_disk_correct memory_disk ones zeros 8192 4096 12288 (omega arith) (omega arith)
