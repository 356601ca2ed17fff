-- ===== src/Output/Telemetry/Intervals.antt =====
-- Intervals that are measured one after the other, by a clock that never goes back.
use mathlib.Core.Path.{subst}
use yet_another_reuse_distan.Prelude.{
  ℕ, zero, suc, ◌+◌, ◌-◌, ◌≤◌, ◌<◌, ◌≡◌, refl, ap, ◌∙◌, List, [], ◌∷◌, Option, none, arith, get_or,
  length, Result, ok, ◌>>=◌,
}
use yet_another_reuse_distan.Mapping.LineMapping.{u64_max}
use yet_another_reuse_distan.Output.Telemetry.{
  AnalysisStage, stage_index, parse_map, parse_cache, parse_elf, resolve_and_stream,
  hierarchy_analysis, serialize_result, AnalysisTelemetryCollector, Readings, make_collector,
  now_ns, value_or_zero, set_stage, checked_measurement_sum, finish_stage,
}

-- The times of all the stages together.
pub total_time : List (Option ℕ) → ℕ
total_time [] = 0
total_time (stage ∷ stages) = value_or_zero stage + total_time stages

-- The start of an interval is read, and then the interval is finished.
pub measure :
    Readings → AnalysisTelemetryCollector → AnalysisStage → Result AnalysisTelemetryCollector
measure clock c stage = let (start, c') = now_ns clock c in finish_stage clock c' stage start

pub measure_all :
    Readings → AnalysisTelemetryCollector → List AnalysisStage → Result AnalysisTelemetryCollector
measure_all clock c [] = ok c
measure_all clock c (stage ∷ stages) = measure clock c stage >>= λ c'. measure_all clock c' stages

length-set_stage : (s : List (Option ℕ)) (i t : ℕ) → length (set_stage s i t) ≡ length s
unfolding set_stage
length-set_stage [] i t = refl
length-set_stage (o ∷ s) zero t = refl
length-set_stage (o ∷ s) (suc i) t = omega (arith, length-set_stage s i t)

total_time-set_stage :
    (s : List (Option ℕ)) (i t : ℕ)
    → i < length s
    → total_time (set_stage s i t) + value_or_zero (get_or s i none) ≡ total_time s + t
unfolding set_stage total_time
total_time-set_stage [] i t lt = absurd (omega arith)
total_time-set_stage (o ∷ s) zero t lt = omega arith
total_time-set_stage (o ∷ s) (suc i) t lt =
    omega (arith, total_time-set_stage s i t (omega (arith, lt)))

value_or_zero-le :
    (s : List (Option ℕ)) (i : ℕ) → i < length s → value_or_zero (get_or s i none) ≤ total_time s
unfolding total_time
value_or_zero-le [] i lt = absurd (omega arith)
value_or_zero-le (o ∷ s) zero lt = omega arith
value_or_zero-le (o ∷ s) (suc i) lt = omega (arith, value_or_zero-le s i (omega (arith, lt)))

stage_index-lt : (stage : AnalysisStage) → stage_index stage < 6
stage_index-lt parse_map = omega arith
stage_index-lt parse_cache = omega arith
stage_index-lt parse_elf = omega arith
stage_index-lt resolve_and_stream = omega arith
stage_index-lt hierarchy_analysis = omega arith
stage_index-lt serialize_result = omega arith

-- The collector has read the clock `n` times after its start, and its times fit the time since.
pub record Within (clock : Readings) (n : ℕ) (c : AnalysisTelemetryCollector) : Type 0 where
  pub readings : c.readings ≡ n + 1
  pub stages : length c.stages ≡ 6
  pub started : c.started_at ≡ clock 0
  pub time : total_time c.stages + clock 0 ≤ clock n

module _ (clock : Readings) (forward : (n : ℕ) → clock n ≤ clock (n + 1))
    (small : (n : ℕ) → clock n ≤ u64_max) where
  measure-Within :
      (n : ℕ) (c : AnalysisTelemetryCollector) (stage : AnalysisStage)
      → Within clock n c
      → (c' : AnalysisTelemetryCollector) × (measure clock c stage ≡ ok c')
        × Within clock (n + 2) c'
  unfolding measure finish_stage now_ns checked_measurement_sum
  measure-Within n c stage v =
      let i = stage_index stage in
      let start = clock (n + 1) in
      let end = clock (n + 2) in
      let room : i < length c.stages = omega (arith, v.stages, stage_index-lt stage) in
      let before = value_or_zero (get_or c.stages i none) in
      let time = before + (end - start) in
      let forward' : clock (n + 1) ≤ clock (n + 2) =
        subst (λ (k : ℕ). clock (n + 1) ≤ clock k) (omega arith) (forward (n + 1)) in
      let second : c.readings + 1 ≡ n + 2 = omega (arith, v.readings) in
      let third : c.readings + 1 + 1 ≡ n + 3 = omega (arith, v.readings) in
      let since : clock 0 ≤ start = omega (arith, v.time, forward n) in
      let at_start = ap clock v.readings in
      let at_end = ap clock second in
      let least = value_or_zero-le c.stages i room in
      let moved = total_time-set_stage c.stages i time room in
      let c' : AnalysisTelemetryCollector = record {
        started_at = c.started_at;
        stages = set_stage c.stages i time;
        readings = n + 3;
      } in
      (
        c',
        ground (
          arith,
          v.stages,
          stage_index-lt stage,
          v.started,
          at_start,
          at_end,
          third,
          since,
          forward',
          least,
          v.time,
          small (n + 2),
          small (n + 1),
          forward n,
        ),
        record {
          readings = omega arith;
          stages = length-set_stage c.stages i time ∙ v.stages;
          started = v.started;
          time = omega (arith, moved, v.time, forward n, forward', least);
        },
      )

  measure_all-Within :
      (n : ℕ) (c : AnalysisTelemetryCollector) (stages : List AnalysisStage)
      → Within clock n c
      → (c' : AnalysisTelemetryCollector) × (k : ℕ) × (measure_all clock c stages ≡ ok c')
        × Within clock k c'
  unfolding measure_all
  measure_all-Within n c [] v = (c, n, refl, v)
  measure_all-Within n c (stage ∷ stages) v =
      let (c1, ran, w) = measure-Within n c stage v in
      let (c2, k, rest, w') = measure_all-Within (n + 2) c1 stages w in (c2, k, rw ran rest, w')

  -- With a clock that never goes back and stays within 64 bits, a new collector measures any
  -- sequence of stages, one interval after the other, without an error; the times of all its
  -- stages together are at most the time from its start to its last reading.
  pub measure_all-fits :
      (stages : List AnalysisStage)
      → (c : AnalysisTelemetryCollector) × (k : ℕ) × (measure_all clock
            (make_collector clock)
            stages
          ≡ ok c)
        × (c.readings ≡ k + 1)
        × (total_time c.stages + clock 0 ≤ clock k)
  measure_all-fits stages =
      let (c, k, ran, w) = measure_all-Within 0 (make_collector clock) stages (
        unfold make_collector in
        record {
          readings = omega arith;
          stages = omega arith;
          started = refl;
          time = unfold total_time in omega arith;
        }) in
      (c, k, ran, w.readings, w.time)
