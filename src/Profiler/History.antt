-- ===== src/Profiler/History.antt =====
-- src/znprofiler.c: the metrics after a sequence of calls.
use zncache.Base.{
  ℕ, ◌+◌, ◌<◌, ◌≡◌, refl, arith, inl, inr, List, [], ◌∷◌, ◌==◌, if◌then◌else◌, u32, eq_or_ne,
}
use zncache.Profiler.{Doubles, Profiler, update_metric, set_metric}

-- A call that changes a metric.
pub data Call (F : Type 0) : Type 0 where
  add : ℕ → F → Call F
  put : ℕ → F → Call F

module _ {F : Type 0} (d : Doubles F) (profiling_interval_sec : ℕ) where
  -- The calls, the first one first.
  unfoldable pub run_calls : List (Call F) → Profiler F → Profiler F
  run_calls [] zp = zp
  run_calls (add i v ∷ calls) zp = run_calls calls (update_metric d profiling_interval_sec zp i v)
  run_calls (put i v ∷ calls) zp = run_calls calls (set_metric d profiling_interval_sec zp i v)

  -- The value of a metric by the calls: the sum of what was added since it was last set.
  abbrev pub value_after : ℕ → List (Call F) → F → F
  value_after i [] v = v
  value_after i (add j w ∷ calls) v = value_after i calls (if j == i then d.plus v w else v)
  value_after i (put j w ∷ calls) v = value_after i calls (if j == i then w else v)

  -- How often something was added to a metric.
  abbrev pub additions : ℕ → List (Call F) → ℕ
  additions i [] = 0
  additions i (add j w ∷ calls) = (if j == i then 1 else 0) + additions i calls
  additions i (put j w ∷ calls) = additions i calls

  pub run_calls_lem :
      (calls : List (Call F)) (zp : Profiler F) (i : ℕ)
      → (zp.metrics i).count + additions i calls < u32
      → (((run_calls calls zp).metrics i).value ≡ value_after i calls (zp.metrics i).value)
        × (((run_calls calls zp).metrics i).count ≡ (zp.metrics i).count + additions i calls)
        × (((run_calls calls zp).metrics i).type ≡ (zp.metrics i).type)
        × ((run_calls calls zp).lines ≡ zp.lines)
  unfolding run_calls update_metric set_metric
  run_calls_lem [] zp i few = (refl, omega arith, refl, refl)
  run_calls_lem (add j w ∷ calls) zp i few = elim (eq_or_ne j i) [
    | inl same ↦
        ground
          (arith, same, few, run_calls_lem calls (update_metric d profiling_interval_sec zp j w) i)
    | inr ne ↦
        ground
          (arith, ne, few, run_calls_lem calls (update_metric d profiling_interval_sec zp j w) i)
  ]
  run_calls_lem (put j w ∷ calls) zp i few = elim (eq_or_ne j i) [
    | inl same ↦
        ground
          (arith, same, few, run_calls_lem calls (set_metric d profiling_interval_sec zp j w) i)
    | inr ne ↦
        ground (arith, ne, few, run_calls_lem calls (set_metric d profiling_interval_sec zp j w) i)
  ]
