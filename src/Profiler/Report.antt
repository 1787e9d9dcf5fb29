-- ===== src/Profiler/Report.antt =====
-- src/znprofiler.c: what zn_profiler_write_all_and_reset writes.
use zncache.Base.{
  ℕ, zero, suc, ◌+◌, ◌≤◌, ◌<◌, ◌≡◌, refl, ap, sym, ◌∙◌, arith, inl, inr, true, some, List, [], ◌∷◌,
  ◌++◌, ◌==◌, if◌then◌else◌, u32, update, eq_or_ne,
}
use mathlib.Core.List.{append_assoc}
use zncache.Profiler.{
  Doubles, Metric, MetricType, avg, set_last, over_time, Line, header, row, Profiler,
  profiling_metrics, name_of, type_of, printed, reset_metric, write_loop, write_all_and_reset,
  init_loop, init,
}
use zncache.Profiler.History.{Call, run_calls, value_after, additions, run_calls_lem}

module _ {F : Type 0} (d : Doubles F) (profiling_interval_sec : ℕ) where
  -- The metrics from one on, as lines.
  abbrev pub lines_from : ℕ → ℕ → (ℕ → F) → (ℕ → Metric F) → List (Line F)
  lines_from zero i now metrics = []
  lines_from (suc n) i now metrics =
      row (now i) (name_of i) (printed d profiling_interval_sec (metrics i))
      ∷ lines_from n (i + 1) now metrics

  lines_from-same :
      (n i : ℕ) (now : ℕ → F) (metrics other : ℕ → Metric F)
      → ((j : ℕ) → i ≤ j → j < i + n → metrics j ≡ other j)
      → lines_from n i now metrics ≡ lines_from n i now other
  lines_from-same zero i now metrics other same = refl
  lines_from-same (suc n) i now metrics other same =
      let first = same i (omega arith) (omega arith) in
      let rest =
        lines_from-same n (i + 1) now metrics other (λ j p r. same j (omega arith) (omega arith)) in
      cc (first, rest)

  append-nil : (ls : List (Line F)) → ls ++ [] ≡ ls
  append-nil [] = refl
  append-nil (l ∷ ls) = ap (◌∷◌ l) (append-nil ls)

  -- A metric that was reset.
  pub record IsReset (old new : Metric F) : Type 0 where
    pub count : new.count ≡ 0
    pub value : new.value ≡ d.of_count 0
    pub type : new.type ≡ old.type

  abbrev Wrote : ℕ → ℕ → (ℕ → F) → Profiler F → Profiler F → Type 0
  Wrote n i now zp zp' =
      (zp'.lines ≡ zp.lines ++ lines_from n i now zp.metrics)
      × ((j : ℕ) → i ≤ j → j < i + n → IsReset (zp.metrics j) (zp'.metrics j))
      × ((j : ℕ) → j < i → zp'.metrics j ≡ zp.metrics j)

  write_loop-Wrote :
      (n i : ℕ) (now : ℕ → F) (zp : Profiler F)
      → Wrote n i now zp (write_loop d profiling_interval_sec n i now zp)
  unfolding write_loop reset_metric
  write_loop-Wrote zero i now zp =
      (sym (append-nil zp.lines), λ j p r. absurd (omega arith), λ j p. refl)
  write_loop-Wrote (suc n) i now zp =
      let line = row (now i) (name_of i) (printed d profiling_interval_sec (zp.metrics i)) in
      let next =
        reset_metric d profiling_interval_sec (record zp { lines = zp.lines ++ line ∷ [] }) i in
      let (lines, reset, before) = write_loop-Wrote n (i + 1) now next in
      let rest =
        lines_from-same n (i + 1) now next.metrics zp.metrics (λ j p r. ground (arith, p)) in
      (
        lines
            ∙ (ap (λ (ls : List (Line F)). (zp.lines ++ line ∷ []) ++ ls) rest
                ∙ append_assoc zp.lines (line ∷ []) _),
        λ j p r. elim (eq_or_ne i j) [
          | inl same ↦
              let here : i < i + 1 = omega arith in
              let kept = before i here in
              rw (← same, kept)
                (record { count = ground arith; value = ground arith; type = ground arith })
          | inr ne ↦
              let later = reset j (omega (arith, p, ne)) (omega (arith, r)) in
              record {
                count = later.count;
                value = later.value;
                type = later.type ∙ ground (arith, ne);
              }
        ],
        λ j p. before j (omega (arith, p)) ∙ ground (arith, p),
      )

  -- zn_profiler_write_all_and_reset writes one line for each metric, in the order of the tags, each with the value
  -- that its type asks for, and resets every metric.
  pub write_all_and_reset_lem :
      (now : ℕ → F) (zp : Profiler F)
      → (let zp' = write_all_and_reset d profiling_interval_sec now zp in
          (zp'.lines ≡ zp.lines ++ lines_from profiling_metrics 0 now zp.metrics)
          × ((j : ℕ) → j < profiling_metrics → IsReset (zp.metrics j) (zp'.metrics j)))
  unfolding write_all_and_reset
  write_all_and_reset_lem now zp =
      let (lines, reset, _) = write_loop-Wrote profiling_metrics 0 now zp in
      (lines, λ j below. reset j (omega arith) (omega (arith, below)))

  -- A metric as zn_profiler_init leaves it.
  pub record IsFresh (i : ℕ) (m : Metric F) : Type 0 where
    pub count : m.count ≡ 0
    pub value : m.value ≡ d.of_count 0
    pub type : m.type ≡ type_of i

  init_loop-IsFresh :
      (n i : ℕ) (zp : Profiler F)
      → ((init_loop d profiling_interval_sec n i zp).lines ≡ zp.lines)
        × ((j : ℕ)
            → i ≤ j
            → j < i + n
            → IsFresh j ((init_loop d profiling_interval_sec n i zp).metrics j))
        × ((j : ℕ) → j < i → (init_loop d profiling_interval_sec n i zp).metrics j ≡ zp.metrics j)
  unfolding init_loop reset_metric
  init_loop-IsFresh zero i zp = (refl, λ j p r. absurd (omega arith), λ j p. refl)
  init_loop-IsFresh (suc n) i zp =
      let zp' = reset_metric d profiling_interval_sec zp i in
      let next = record zp' {
        metrics = update zp'.metrics i (record (zp'.metrics i) { type = type_of i });
      } in
      let (lines, fresh, before) = init_loop-IsFresh n (i + 1) next in
      (
        lines,
        λ j p r. elim (eq_or_ne i j) [
          | inl same ↦
              let kept = before i (omega arith) in
              rw (← same, kept)
                (record { count = ground arith; value = ground arith; type = ground arith })
          | inr ne ↦ fresh j (omega (arith, p, ne)) (omega (arith, r))
        ],
        λ j p. before j (omega (arith, p)) ∙ ground (arith, p),
      )

  -- Every metric is fresh.
  abbrev pub AllFresh : Profiler F → Type 0
  AllFresh zp = (i : ℕ) → i < profiling_metrics → IsFresh i (zp.metrics i)

  -- zn_profiler_init writes the header and leaves every metric fresh.
  pub init-AllFresh :
      (memory : ℕ → Metric F) (zp : Profiler F)
      → init d profiling_interval_sec true true memory ≡ some zp
      → AllFresh zp × (zp.lines ≡ header ∷ [])
  unfolding init
  init-AllFresh memory zp e =
      let start : Profiler F = record { lines = header ∷ []; metrics = memory } in
      let (lines, fresh, _) = init_loop-IsFresh profiling_metrics 0 start in
      let same : init_loop d profiling_interval_sec profiling_metrics 0 start ≡ zp = cc in
      rw (← same) (λ i below. fresh i (omega arith) (omega (arith, below)), lines)

  -- What a report says of a metric after some calls: the mean of what was added, the value that was set, or the sum
  -- over the interval of the reports.
  abbrev pub reported : MetricType → ℕ → F → F
  reported avg n v = if n == 0 then d.of_count 0 else d.over v (d.of_count n)
  reported set_last n v = v
  reported over_time n v = d.over v (d.of_count profiling_interval_sec)

  abbrev pub report : ℕ → ℕ → (ℕ → F) → List (Call F) → List (Line F)
  report zero i now calls = []
  report (suc n) i now calls =
      row (now i) (name_of i) (
        reported (type_of i) (additions d profiling_interval_sec i calls)
          (value_after d profiling_interval_sec i calls (d.of_count 0)))
      ∷ report n (i + 1) now calls

  printed-reported :
      (count : ℕ) (value : F) (type : MetricType)
      → printed d profiling_interval_sec (record { count = count; value = value; type = type })
        ≡ reported type count value
  unfolding printed
  printed-reported count value avg = refl
  printed-reported count value set_last = refl
  printed-reported count value over_time = refl

  lines_from-report :
      (n i : ℕ) (now : ℕ → F) (metrics : ℕ → Metric F) (calls : List (Call F))
      → ((j : ℕ)
          → j < i + n
          → ((metrics j).value ≡ value_after d profiling_interval_sec j calls (d.of_count 0))
            × ((metrics j).count ≡ additions d profiling_interval_sec j calls)
            × ((metrics j).type ≡ type_of j))
      → lines_from n i now metrics ≡ report n i now calls
  lines_from-report zero i now metrics calls is = refl
  lines_from-report (suc n) i now metrics calls is =
      let (v, c, t) = is i (omega arith) in
      let first : printed d profiling_interval_sec (metrics i)
          ≡ reported (type_of i) (additions d profiling_interval_sec i calls)
              (value_after d profiling_interval_sec i calls (d.of_count 0)) =
        printed-reported (metrics i).count (metrics i).value (metrics i).type ∙ rw (v, c, t) refl in
      let rest = lines_from-report n (i + 1) now metrics calls (λ j p. is j (omega (arith, p))) in
      cc (first, rest)

  -- From a profiler whose metrics are fresh, after any calls of zn_profiler_update_metric and
  -- zn_profiler_set_metric that are fewer than 2^32 for each metric, zn_profiler_write_all_and_reset adds exactly
  -- the lines of the report: for each metric, in the order of the tags, the mean of what was added, the sum over
  -- the interval, or the value that was set, as its type asks. The metrics are fresh again.
  pub write_all-report :
      (now : ℕ → F) (zp : Profiler F) (calls : List (Call F))
      → AllFresh zp
      → ((i : ℕ) → additions d profiling_interval_sec i calls < u32)
      → (let zp' =
            write_all_and_reset d profiling_interval_sec now
              (run_calls d profiling_interval_sec calls zp) in
          (zp'.lines ≡ zp.lines ++ report profiling_metrics 0 now calls) × AllFresh zp')
  write_all-report now zp calls fresh few =
      let mid = run_calls d profiling_interval_sec calls zp in
      let (lines, reset) = write_all_and_reset_lem now mid in
      let after = λ (i : ℕ) (below : i < profiling_metrics).
        run_calls_lem d profiling_interval_sec calls zp i
          (rw ((fresh i below).count) (omega (arith, few i))) in
      let (_, _, _, kept) = after 0 (omega arith) in
      let is = lines_from-report profiling_metrics 0 now mid.metrics calls λ j below.
        let f = fresh j (omega (arith, below)) in
        let (v, c, t, _) = after j (omega (arith, below)) in
        (
          v ∙ ap (value_after d profiling_interval_sec j calls) f.value,
          omega (arith, c, f.count),
          t ∙ f.type,
        ) in
      (
        lines ∙ cc (kept, is),
        λ i below.
            let r = reset i below in
            let f = fresh i below in
            let (_, _, t, _) = after i below in
            record { count = r.count; value = r.value; type = r.type ∙ (t ∙ f.type) },
      )
