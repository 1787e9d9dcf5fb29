-- ===== src/Profiler/Tests.antt =====
-- src/znprofiler.c: a report, with numbers for `double`.
use zncache.Base.{ℕ, ◌+◌, ◌/◌, ◌≡◌, refl, arith, List, [], ◌∷◌, ◌++◌}
use zncache.Profiler.{
  Doubles, header, row, Profiler, profiling_metrics, write_all_and_reset, type_of,
}
use zncache.Profiler.History.{Call, add, put, run_calls}
use zncache.Profiler.Report.{AllFresh, report, write_all-report}

abbrev numbers : Doubles ℕ
numbers = record { plus = λ a b. a + b; over = λ a b. a / b; of_count = λ n. n }

abbrev fresh : Profiler ℕ
fresh = record {
  lines = header ∷ [];
  metrics = λ i. record { count = 0; value = 0; type = type_of i };
}

abbrev calls : List (Call ℕ)
calls = add 0 30 ∷ put 1 8 ∷ add 0 50 ∷ add 8 4096 ∷ []

fresh-AllFresh : AllFresh numbers 10 fresh
fresh-AllFresh i below = record { count = refl; value = refl; type = refl }

write_all-report_example :
    (let zp' = write_all_and_reset numbers 10 (λ i. 7) (run_calls numbers 10 calls fresh) in
      (zp'.lines ≡ (header ∷ []) ++ report numbers 10 profiling_metrics 0 (λ i. 7) calls)
      × AllFresh numbers 10 zp')
write_all-report_example =
    write_all-report numbers 10 (λ i. 7) fresh calls fresh-AllFresh (λ i. ground arith)

-- The first lines of the report.
report_first :
    report numbers 10 3 0 (λ i. 7) calls
    ≡ row 7 "GETLATENCY" 40 ∷ row 7 "CACHE_USED_MIB" 8 ∷ row 7 "HITRATIO" 0 ∷ []
report_first = refl
