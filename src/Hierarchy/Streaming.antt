-- ===== src/Hierarchy/Streaming.antt =====
-- backend/src/cache/streaming/streaming_hierarchy.cpp: the analysis of a module, task by task.
pub mod Finished
pub mod Totals
pub mod Sound
use Prim.Native.String.{String}
use yet_another_reuse_distan.Prelude.{
  ℕ, ◌≤◌, Bool, true, false, not, ◌&&◌, ◌||◌, List, [], ◌∷◌, ◌++◌, Option, none, some, ◌==◌, Result,
  ok, throw, throw_if, ◌>>=◌, ◌>>◌, invalid_argument, logic_error,
}
use yet_another_reuse_distan.Mapping.Address.{cache_set_count}
use yet_another_reuse_distan.Mapping.Resolved.{ResolvedAccess}
use yet_another_reuse_distan.Trace.Budget.{
  TraceEmissionBudget, TraceEmissionLimits, ExpansionBudget, TraceExecutionStatistics,
  emission_budget,
}
use yet_another_reuse_distan.Trace.Stream.{
  TaskAccessSink, TaskRoot, Resolve, stream_resolved_task_accesses,
}
use yet_another_reuse_distan.Rd.RecencyIndex.{Platform, Clock, RecencyIndex}
use yet_another_reuse_distan.Hierarchy.Types.{
  TraceCoverage, complete, TaskHierarchySummary, AnalysisHierarchy,
}
use yet_another_reuse_distan.Hierarchy.Level.{add_streaming_coverage}
use yet_another_reuse_distan.Hierarchy.Task.{
  StreamingHierarchyOptions, HierarchyEventDelivery, StreamingHierarchyTask, World, no_coverage,
  make_task, accept, finish,
}
use yet_another_reuse_distan.Output.Telemetry.{
  AnalysisTelemetryCollector, Readings, AnalysisStage, hierarchy_analysis, resolve_and_stream,
  now_ns, finish_stage,
}

pub record StreamingHierarchyResult : Type 0 where
  pub tasks : List TaskHierarchySummary
  pub coverage : TraceCoverage
  pub event_delivery : HierarchyEventDelivery
  pub execution_statistics : TraceExecutionStatistics

-- What the callbacks change: the result so far, the active task, the collector of the
-- measurements, the caller's state.
pub record Run (S : Type 0) : Type 0 where
  pub tasks : List TaskHierarchySummary
  pub coverage : TraceCoverage
  pub event_delivery : HierarchyEventDelivery
  pub active : Option StreamingHierarchyTask
  pub telemetry : Option AnalysisTelemetryCollector
  pub state : S

-- The code outside: the containers, the clocks of each task's compactions and of the
-- measurements, the buckets of a hash map, the callbacks.
pub record Surroundings (S : Type 0) : Type 0 where
  pub platform : Platform
  pub clocks : String → ℕ → Clock × Clock
  pub clock : Readings
  pub buckets : RecencyIndex → ℕ
  pub options : StreamingHierarchyOptions S

-- `telemetry ? telemetry->now_ns() : 0`
unfoldable pub start_interval :
    Readings → Option AnalysisTelemetryCollector → ℕ × Option AnalysisTelemetryCollector
start_interval clock none = (0, none)
start_interval clock (some c) = let (start, c') = now_ns clock c in (start, some c')

-- `if (telemetry) telemetry->finish_stage(stage, start);`
unfoldable pub finish_interval :
    Readings
    → Option AnalysisTelemetryCollector
    → AnalysisStage
    → ℕ
    → Result (Option AnalysisTelemetryCollector)
finish_interval clock none stage start = ok none
finish_interval clock (some c) stage start = do c' ← finish_stage clock c stage start; ok (some c')

abbrev pub is_set {ℓ} : {A : Type ℓ} → Option A → Bool
is_set none = false
is_set (some a) = true

-- The source stream and the result disagree.
unfoldable pub disagrees : TraceCoverage → TraceCoverage → Bool
disagrees source result =
    not (complete source)
    || not (source.emitted_line_references == 0)
    || not (source.source_accesses == result.source_accesses)
    || not (source.resolved_accesses == result.resolved_accesses)
    || not (source.rejected_accesses == result.rejected_accesses)

module _ {S : Type 0} where
  -- The body of a callback between the readings of its interval.
  unfoldable pub timed :
      Surroundings S
      → (TraceEmissionBudget × Run S → Result (TraceEmissionBudget × Run S))
      → TraceEmissionBudget × Run S
      → Result (TraceEmissionBudget × Run S)
  unfolding start_interval finish_interval
  timed o body (budget, run) = do
    let (start, telemetry) = start_interval o.clock run.telemetry
    (budget', run') ← body (budget, record run { telemetry = telemetry })
    telemetry' ← finish_interval o.clock run'.telemetry hierarchy_analysis start
    ok (budget', record run' { telemetry = telemetry' })

  unfoldable pub begin_active :
      Surroundings S
      → AnalysisHierarchy
      → String
      → ℕ
      → TraceEmissionBudget × Run S
      → Result (TraceEmissionBudget × Run S)
  begin_active o hierarchy id excluded (budget, run) = do
    throw_if (not (excluded == 0)) invalid_argument
    task ← make_task id hierarchy (is_set o.options.statistics_sink)
    ok (budget, record run { active = some task })

  -- The task, with what it borrows from the run.
  abbrev pub world : Run S → StreamingHierarchyTask → World S
  world run task = record { task = task; delivery = run.event_delivery; state = run.state }

  -- Outside a task the code would call through an empty pointer, which the stream never does.
  unfoldable pub accept_active :
      Surroundings S
      → String
      → ResolvedAccess
      → TraceEmissionBudget × Run S
      → Result (TraceEmissionBudget × Run S)
  accept_active o id access (budget, run) = elim run.active [
    | none ↦ throw logic_error
    | some task ↦ do
      (budget', w) ← accept o.platform (o.clocks id) o.options access (budget, world run task)
      ok (
        budget',
        record run { active = some w.task; event_delivery = w.delivery; state = w.state },
      )
  ]

  unfoldable pub finish_active :
      Surroundings S
      → TraceCoverage
      → TraceEmissionBudget × Run S
      → Result (TraceEmissionBudget × Run S)
  finish_active o coverage (budget, run) = elim run.active [
    | none ↦ throw logic_error
    | some t ↦ do
      (task, state) ← finish o.platform o.buckets o.options (world run t) coverage
      total ← add_streaming_coverage run.coverage task.coverage
      ok (
        budget,
        record run {
          coverage = total;
          tasks = run.tasks ++ task ∷ [];
          active = none;
          state = state;
        },
      )
  ]

  unfoldable pub streaming_sink : Surroundings S → AnalysisHierarchy → TaskAccessSink (Run S)
  unfolding timed begin_active accept_active finish_active
  streaming_sink o hierarchy = record {
    begin_task = λ s id excluded. timed o (begin_active o hierarchy id excluded) s;
    access = λ s id access. timed o (accept_active o id access) s;
    end_task = λ s id coverage. timed o (finish_active o coverage) s;
  }

  unfoldable pub analyze_streaming_hierarchy :
      {A : Type 0}
      → Surroundings S
      → Resolve A
      → List (TaskRoot A)
      → ExpansionBudget
      → AnalysisHierarchy
      → TraceEmissionLimits
      → Option AnalysisTelemetryCollector
      → S
      → Result (StreamingHierarchyResult × (Option AnalysisTelemetryCollector × S))
  unfolding streaming_sink disagrees start_interval finish_interval
  analyze_streaming_hierarchy o resolve roots expanded hierarchy limits telemetry state = do
    _ ← cache_set_count hierarchy.l1.geometry
    _ ← cache_set_count hierarchy.llc.geometry
    throw_if (not (hierarchy.l1.geometry.line_size == hierarchy.llc.geometry.line_size))
        invalid_argument
    throw_if (not (is_set o.options.event_sink) && not (o.options.event_limit == 0))
        invalid_argument
    let (start, telemetry') = start_interval o.clock telemetry
    (source, (budget, run)) ←
        stream_resolved_task_accesses resolve (streaming_sink o hierarchy) roots expanded (
          emission_budget limits,
          record {
            tasks = [];
            coverage = no_coverage;
            event_delivery = record { emitted_events = 0; events_truncated = false };
            active = none;
            telemetry = telemetry';
            state = state;
          },
        )
    throw_if (disagrees source.coverage run.coverage) logic_error
    telemetry'' ← finish_interval o.clock run.telemetry resolve_and_stream start
    ok (
      record {
        tasks = run.tasks;
        coverage = run.coverage;
        event_delivery = run.event_delivery;
        execution_statistics = source.execution_statistics;
      },
      (telemetry'', run.state),
    )
