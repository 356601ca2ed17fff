-- ===== src/Output/Telemetry.antt =====
-- backend/src/cache/output/analysis_telemetry.cpp and analysis_telemetry_validation.cpp: the
-- measurements of one run. The readings of the clock are given by their number.
pub mod Intervals
use yet_another_reuse_distan.Prelude.{
  ℕ, zero, suc, ◌+◌, ◌-◌, ◌*◌, ◌%◌, ◌<◌, Bool, true, false, not, ◌&&◌, ◌||◌, List, [], ◌∷◌, Option,
  none, some, ltb, leb, ◌==◌, if◌then◌else◌, get_or, length, Result, ok, throw, throw_if, ◌>>=◌,
  ◌>>◌, invalid_argument, overflow_error,
}
use yet_another_reuse_distan.Mapping.LineMapping.{u64_max}
use yet_another_reuse_distan.Trace.Budget.{TraceExecutionStatistics}
use yet_another_reuse_distan.Hierarchy.Types.{TraceCoverage, complete}
use yet_another_reuse_distan.Output.Identity.{Bytes, require_sha256}

pub data AnalysisStage : Type 0 where
  parse_map parse_cache parse_elf resolve_and_stream hierarchy_analysis serialize_result :
      AnalysisStage

-- The number of a stage.
abbrev pub stage_index : AnalysisStage → ℕ
stage_index parse_map = 0
stage_index parse_cache = 1
stage_index parse_elf = 2
stage_index resolve_and_stream = 3
stage_index hierarchy_analysis = 4
stage_index serialize_result = 5

pub record AnalysisTelemetryHost : Type 0 where
  pub hostname : Bytes
  pub os : Bytes
  pub release : Bytes
  pub machine : Bytes

pub record AnalysisTelemetry : Type 0 where
  pub analysis_id : Bytes
  pub total_time_ns : ℕ
  pub stage_time_ns : List (Option ℕ)
  pub peak_rss_bytes : ℕ
  pub source_accesses_emitted : ℕ
  pub line_references_emitted : ℕ
  pub execution : TraceExecutionStatistics
  pub host : AnalysisTelemetryHost
  pub measured_at_utc : Bytes

-- What the providers other than the clock return.
pub record Observations : Type 0 where
  pub peak_rss_bytes : ℕ
  pub host : AnalysisTelemetryHost
  pub measured_at_utc : Bytes

unfoldable pub checked_measurement_sum : ℕ → ℕ → Result ℕ
checked_measurement_sum left right = do
  throw_if (ltb (u64_max - left) right) overflow_error
  ok (left + right)

abbrev pub is_digit : ℕ → Bool
is_digit c = leb b'0' c && leb c b'9'

-- `std::stoi` of decimal digits.
unfoldable pub stoi : ℕ → Bytes → ℕ
stoi n [] = n
stoi n (c ∷ digits) = stoi (10 * n + (c - b'0')) digits

unfoldable pub substr : Bytes → ℕ → ℕ → Bytes
substr value start zero = []
substr value start (suc n) = get_or value start 0 ∷ substr value (start + 1) n

abbrev pub is_separator : ℕ → Bool
is_separator i = i == 4 || i == 7 || i == 10 || i == 13 || i == 16 || i == 19

-- The loop over the characters, of which so many are left.
unfoldable pub has_digits : ℕ → Bytes → ℕ → Bool
has_digits zero value i = true
has_digits (suc left) value i =
    (is_separator i || is_digit (get_or value i 0)) && has_digits left value (i + 1)

abbrev pub month_days : List ℕ
month_days = 31 ∷ 28 ∷ 31 ∷ 30 ∷ 31 ∷ 30 ∷ 31 ∷ 31 ∷ 30 ∷ 31 ∷ 30 ∷ 31 ∷ []

unfoldable pub valid_moment : ℕ → ℕ → ℕ → ℕ → ℕ → ℕ → Bool
valid_moment year month day hour minute second =
    let leap = year % 4 == 0 && (not (year % 100 == 0) || year % 400 == 0) in
    let maximum = get_or month_days (month - 1) 0 + (if month == 2 && leap then 1 else 0) in
    leb 1 month
    && leb month 12
    && leb 1 day
    && leb day maximum
    && ltb hour 24
    && ltb minute 60
    && ltb second 60

unfoldable pub valid_timestamp : Bytes → Bool
unfolding has_digits stoi substr valid_moment
valid_timestamp value =
    length value == 20
    && get_or value 4 0 == b'-'
    && get_or value 7 0 == b'-'
    && get_or value 10 0 == b'T'
    && get_or value 13 0 == b':'
    && get_or value 16 0 == b':'
    && get_or value 19 0 == b'Z'
    && has_digits (length value) value 0
    && valid_moment (stoi 0 (substr value 0 4)) (stoi 0 (substr value 5 2))
        (stoi 0 (substr value 8 2)) (stoi 0 (substr value 11 2)) (stoi 0 (substr value 14 2))
        (stoi 0 (substr value 17 2))

-- The loop over the stages: each is measured, and the exclusive ones are summed.
unfoldable pub sum_stages : ℕ → ℕ → List (Option ℕ) → Result ℕ
unfolding checked_measurement_sum
sum_stages i exclusive [] = ok exclusive
sum_stages i exclusive (none ∷ stages) = throw invalid_argument
sum_stages i exclusive (some time ∷ stages) = do
  exclusive' ←
      if i == stage_index hierarchy_analysis
      then ok exclusive
      else checked_measurement_sum exclusive time
  sum_stages (i + 1) exclusive' stages

-- The time of a stage that was measured.
abbrev pub stage_time : AnalysisStage → List (Option ℕ) → ℕ
stage_time stage stages = elim (get_or stages (stage_index stage) none) [
  | none ↦ 0
  | some time ↦ time
]

abbrev pub is_blank : Bytes → Bool
is_blank [] = true
is_blank (c ∷ text) = false

unfoldable pub validate_analysis_telemetry : AnalysisTelemetry → Result (Unit {0})
unfolding require_sha256 sum_stages valid_timestamp
validate_analysis_telemetry t = do
  require_sha256 t.analysis_id
  exclusive ← sum_stages 0 0 t.stage_time_ns
  throw_if
      (ltb t.total_time_ns exclusive
        || ltb (stage_time resolve_and_stream t.stage_time_ns)
            (stage_time hierarchy_analysis t.stage_time_ns))
      invalid_argument
  throw_if
      (ltb t.line_references_emitted t.source_accesses_emitted
        || (t.source_accesses_emitted == 0 && not (t.line_references_emitted == 0)))
      invalid_argument
  throw_if
      (is_blank t.host.hostname
        || is_blank t.host.os
        || is_blank t.host.release
        || is_blank t.host.machine
        || not (valid_timestamp t.measured_at_utc))
      invalid_argument

-- The collector, with the number of readings of its clock.
pub record AnalysisTelemetryCollector : Type 0 where
  pub started_at : ℕ
  pub stages : List (Option ℕ)
  pub readings : ℕ

-- The clock at each reading.
abbrev pub Readings : Type 0
Readings = ℕ → ℕ

abbrev pub no_stages : List (Option ℕ)
no_stages = none ∷ none ∷ none ∷ none ∷ none ∷ none ∷ []

-- A collector with complete providers reads its clock once.
unfoldable pub make_collector : Readings → AnalysisTelemetryCollector
make_collector clock = record { started_at = clock 0; stages = no_stages; readings = 1 }

unfoldable pub now_ns : Readings → AnalysisTelemetryCollector → ℕ × AnalysisTelemetryCollector
now_ns clock c = (clock c.readings, record c { readings = c.readings + 1 })

abbrev pub value_or_zero : Option ℕ → ℕ
value_or_zero none = 0
value_or_zero (some time) = time

unfoldable pub set_stage : List (Option ℕ) → ℕ → ℕ → List (Option ℕ)
set_stage [] i time = []
set_stage (stage ∷ stages) zero time = some time ∷ stages
set_stage (stage ∷ stages) (suc i) time = stage ∷ set_stage stages i time

-- An `AnalysisStage` of the type is below the number of the stages.
unfoldable pub finish_stage :
    Readings → AnalysisTelemetryCollector → AnalysisStage → ℕ → Result AnalysisTelemetryCollector
unfolding now_ns checked_measurement_sum set_stage
finish_stage clock c stage started_at = do
  let index = stage_index stage
  throw_if (leb (length c.stages) index) invalid_argument
  let (ended_at, c') = now_ns clock c
  throw_if (ltb started_at c.started_at || ltb ended_at started_at) invalid_argument
  time ←
      checked_measurement_sum (value_or_zero (get_or c.stages index none)) (ended_at - started_at)
  ok (record c' { stages = set_stage c.stages index time })

unfoldable pub snapshot :
    Readings
    → AnalysisTelemetryCollector
    → Bytes
    → TraceCoverage
    → TraceExecutionStatistics
    → Observations
    → Result AnalysisTelemetry
unfolding now_ns validate_analysis_telemetry
snapshot clock c analysis_id coverage execution observed = do
  let (ended_at, c') = now_ns clock c
  throw_if (ltb ended_at c.started_at) invalid_argument
  throw_if (not (complete coverage)) invalid_argument
  let result : AnalysisTelemetry = record {
    analysis_id = analysis_id;
    total_time_ns = ended_at - c.started_at;
    stage_time_ns = c.stages;
    peak_rss_bytes = observed.peak_rss_bytes;
    source_accesses_emitted = coverage.source_accesses;
    line_references_emitted = coverage.emitted_line_references;
    execution = execution;
    host = observed.host;
    measured_at_utc = observed.measured_at_utc;
  }
  validate_analysis_telemetry result
  ok result
