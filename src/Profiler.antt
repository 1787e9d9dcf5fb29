-- ===== src/Profiler.antt =====
-- src/znprofiler.c and include/znprofiler.h: the metrics of a run. Each function that changes a metric holds the
-- profiler's mutex. `double` and its operations are a parameter, and so is the time that a line is written at. A tag
-- is its number, and the file is the list of the lines written to it.
pub mod History
pub mod Report
mod Tests
use zncache.Base.{
  ℕ, zero, suc, ◌+◌, ◌%◌, Bool, Option, none, some, List, [], ◌∷◌, ◌++◌, ◌==◌, if◌then◌else◌, u32,
  update, get_or,
}
use Prim.Native.String.{String}

-- The operations of `double` that the profiler uses, with the conversion of an integer.
pub record Doubles (F : Type 0) : Type 0 where
  pub plus : F → F → F
  pub over : F → F → F
  pub of_count : ℕ → F

-- `enum zn_profiler_type`, whose last two have other names here
pub data MetricType : Type 0 where
  avg set_last over_time : MetricType

-- `struct zn_profiler_metrics`
pub record Metric (F : Type 0) : Type 0 where
  pub count : ℕ
  pub value : F
  pub type : MetricType

-- A line of the file: the header, or the time, the name and the value of a metric.
pub data Line (F : Type 0) : Type 0 where
  header : Line F
  row : F → String → F → Line F

-- `struct zn_profiler`
pub record Profiler (F : Type 0) : Type 0 where
  pub lines : List (Line F)
  pub metrics : ℕ → Metric F

-- PROFILING_METRICS
abbrev pub profiling_metrics : ℕ
profiling_metrics = 11

-- `zn_profiler_metric_names`
abbrev pub metric_names : List String
metric_names =
    "GETLATENCY" ∷ "CACHE_USED_MIB" ∷ "HITRATIO" ∷ "READLATENCY" ∷ "WRITELATENCY" ∷ "FREEZONES"
    ∷ "CACHEHITLATENCY" ∷ "CACHEMISSLATENCY" ∷ "CACHETHROUGHPUT" ∷ "CACHEHITTHROUGHPUT"
    ∷ "CACHEMISSTHROUGHPUT" ∷ []

-- `zn_profiler_metric_types`
abbrev pub metric_types : List MetricType
metric_types =
    avg ∷ set_last ∷ set_last ∷ avg ∷ avg ∷ set_last ∷ avg ∷ avg ∷ over_time ∷ over_time ∷ over_time
    ∷ []

abbrev pub name_of : ℕ → String
name_of i = get_or metric_names i ""

abbrev pub type_of : ℕ → MetricType
type_of i = get_or metric_types i avg

module _ {F : Type 0} (d : Doubles F) (profiling_interval_sec : ℕ) where
  -- `zn_profiler_reset_metric`
  unfoldable pub reset_metric : Profiler F → ℕ → Profiler F
  reset_metric zp metric = record zp {
    metrics =
        update zp.metrics metric (record (zp.metrics metric) { value = d.of_count 0; count = 0 });
  }

  -- `zn_profiler_update_metric`
  unfoldable pub update_metric : Profiler F → ℕ → F → Profiler F
  update_metric zp metric value =
      let m = zp.metrics metric in
      record zp {
        metrics =
            update zp.metrics metric
              (record m { value = d.plus m.value value; count = (m.count + 1) % u32 });
      }

  -- `zn_profiler_set_metric`
  unfoldable pub set_metric : Profiler F → ℕ → F → Profiler F
  set_metric zp metric value = record zp {
    metrics = update zp.metrics metric (record (zp.metrics metric) { value = value });
  }

  -- The value of a metric that zn_profiler_write_all_and_reset prints.
  unfoldable pub printed : Metric F → F
  printed m = elim m.type [
    | avg ↦ if m.count == 0 then d.of_count 0 else d.over m.value (d.of_count m.count)
    | over_time ↦ d.over m.value (d.of_count profiling_interval_sec)
    | set_last ↦ m.value
  ]

  -- The loop of zn_profiler_write_all_and_reset, the number of rounds first; `now` has the time of each round.
  unfoldable pub write_loop : ℕ → ℕ → (ℕ → F) → Profiler F → Profiler F
  unfolding printed reset_metric
  write_loop zero i now zp = zp
  write_loop (suc n) i now zp =
      let line = row (now i) (name_of i) (printed (zp.metrics i)) in
      write_loop n (i + 1) now (reset_metric (record zp { lines = zp.lines ++ line ∷ [] }) i)

  -- `zn_profiler_write_all_and_reset`
  unfoldable pub write_all_and_reset : (ℕ → F) → Profiler F → Profiler F
  unfolding write_loop
  write_all_and_reset now zp = write_loop profiling_metrics 0 now zp

  -- The loop of zn_profiler_init, the number of rounds first.
  unfoldable pub init_loop : ℕ → ℕ → Profiler F → Profiler F
  unfolding reset_metric
  init_loop zero i zp = zp
  init_loop (suc n) i zp =
      let zp' = reset_metric zp i in
      init_loop n (i + 1) (record zp' {
        metrics = update zp'.metrics i (record (zp'.metrics i) { type = type_of i });
      })

  -- `zn_profiler_init`: whether malloc and fopen succeed, and the metrics as malloc returns them.
  unfoldable pub init : Bool → Bool → (ℕ → Metric F) → Option (Profiler F)
  unfolding init_loop
  init allocated opened memory =
      if allocated
      then (if opened
          then some
              (init_loop profiling_metrics 0 (record { lines = header ∷ []; metrics = memory }))
          else none)
      else none
