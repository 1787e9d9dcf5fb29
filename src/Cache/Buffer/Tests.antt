-- ===== src/Cache/Buffer/Tests.antt =====
-- src/cache.c: the buffer of a chunk of 4096 bytes, tested in memory.
use zncache.Base.{ℕ, ◌<◌, ◌≡◌, ◌↔◌, refl, arith, true, Returns}
use zncache.Cache.Buffer.{with_id, gen_write_buffer, validate_read}
use zncache.Cache.Buffer.Valid.{validate_read_iff}

abbrev zeros : ℕ → ℕ
zeros j = 0

-- The id 2000000007 over a buffer of zeros.
abbrev made : ℕ → ℕ
made = with_id 2000000007 zeros

validate_read_iff_example :
    Returns
      (λ r. (r ≡ true) ↔ ((i : ℕ) → i < 4096 → 0 ≡ made i))
      (validate_read 4096 zeros 2000000007 zeros)
unfolding gen_write_buffer
validate_read_iff_example =
    validate_read_iff 4096 zeros 2000000007 zeros made (omega arith) (omega arith)
      (λ i h. omega arith) refl
