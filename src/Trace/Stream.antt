-- ===== src/Trace/Stream.antt =====
-- backend/src/trace/output/task_access_stream.cpp, task_access_support.cpp and the resolved unroller
-- of backend/src/trace/execution/unroller.cpp: the accesses of a module, task by task. A task is
-- given by the visits of its prepared trace; `resolve` stands for the evaluation of an access and
-- `resolve_access`.
pub mod Keeps
use Prim.Native.String.{String}
use yet_another_reuse_distan.Prelude.{ℕ, ◌+◌, ◌-◌, ◌%◌, ◌^◌, List, [], ◌∷◌, Result, ok, ◌>>=◌}
use yet_another_reuse_distan.Mapping.Resolved.{ResolvedAccess}
use yet_another_reuse_distan.Hierarchy.Types.{TraceCoverage}
use yet_another_reuse_distan.Trace.Budget.{
  TraceEmissionBudget, ExpansionBudget, TraceExecutionStatistics, consume_source_access,
  consume_loop_iterations,
}

-- A 64-bit difference.
abbrev pub sub64 : ℕ → ℕ → ℕ
sub64 a b = (a + 2 ^ 64 - b) % 2 ^ 64

unfoldable pub coverage_delta : TraceCoverage → TraceCoverage → TraceCoverage
coverage_delta after before = record {
  source_accesses = sub64 after.source_accesses before.source_accesses;
  resolved_accesses = sub64 after.resolved_accesses before.resolved_accesses;
  rejected_accesses = sub64 after.rejected_accesses before.rejected_accesses;
  emitted_line_references = sub64 after.emitted_line_references before.emitted_line_references;
}

-- The callbacks, over the emission budget that they share with the unroller and a state.
pub record TaskAccessSink (W : Type 0) : Type 0 where
  pub begin_task : TraceEmissionBudget × W → String → ℕ → Result (TraceEmissionBudget × W)
  pub access : TraceEmissionBudget × W → String → ResolvedAccess → Result (TraceEmissionBudget × W)
  pub end_task : TraceEmissionBudget × W → String → TraceCoverage → Result (TraceEmissionBudget × W)

-- A step of a prepared trace: a loop is entered for so many rounds, or an access is met.
pub data Visit (A : Type 0) : Type 0 where
  enter_loop : ℕ → Visit A
  meet : A → Visit A

-- A root of the expanded module, without its opaque calls.
pub record TaskRoot (A : Type 0) : Type 0 where
  pub task_id : String
  pub excluded : ℕ
  pub visits : List (Visit A)

pub record ResolvedTraceUnroller : Type 0 where
  pub coverage : TraceCoverage
  pub next_source_access_ordinal : ℕ
  pub expansion_budget : ExpansionBudget

pub record TaskAccessStreamResult : Type 0 where
  pub coverage : TraceCoverage
  pub excluded_opaque_call_sites : ℕ
  pub execution_statistics : TraceExecutionStatistics

abbrev pub Resolve : Type 0 → Type 0
Resolve A = A → String → ℕ → TraceCoverage → Result (ResolvedAccess × TraceCoverage)

module _ {A W : Type 0} where
  -- `emit` of the resolved unroller.
  unfoldable pub emit :
      Resolve A
      → TaskAccessSink W
      → String
      → A
      → ResolvedTraceUnroller × (TraceEmissionBudget × W)
      → Result (ResolvedTraceUnroller × (TraceEmissionBudget × W))
  emit resolve sink task_id a (u, (budget, w)) = do
    budget' ← consume_source_access budget
    let ordinal = u.next_source_access_ordinal
    let counted = record u.coverage { source_accesses = (u.coverage.source_accesses + 1) % 2 ^ 64 }
    (resolved, coverage) ← resolve a task_id ordinal counted
    s ← sink.access (budget', w) task_id resolved
    ok (record u { coverage = coverage; next_source_access_ordinal = (ordinal + 1) % 2 ^ 64 }, s)

  unfoldable pub unroll :
      Resolve A
      → TaskAccessSink W
      → String
      → List (Visit A)
      → ResolvedTraceUnroller × (TraceEmissionBudget × W)
      → Result (ResolvedTraceUnroller × (TraceEmissionBudget × W))
  unfolding emit
  unroll resolve sink task_id [] s = ok s
  unroll resolve sink task_id (enter_loop count ∷ visits) (u, s) = do
    b ← consume_loop_iterations u.expansion_budget count
    unroll resolve sink task_id visits (record u { expansion_budget = b }, s)
  unroll resolve sink task_id (meet a ∷ visits) s = do
    s' ← emit resolve sink task_id a s
    unroll resolve sink task_id visits s'

  -- A round of the loop over the roots.
  unfoldable pub stream_task :
      Resolve A
      → TaskAccessSink W
      → TaskRoot A
      → ResolvedTraceUnroller × (TraceEmissionBudget × W)
      → Result (ResolvedTraceUnroller × (TraceEmissionBudget × W))
  unfolding unroll coverage_delta
  stream_task resolve sink root (u, s) = do
    s' ← sink.begin_task s root.task_id root.excluded
    (u', s'') ←
        unroll resolve sink root.task_id root.visits
          (record u { next_source_access_ordinal = 0 }, s')
    s''' ← sink.end_task s'' root.task_id (coverage_delta u'.coverage u.coverage)
    ok (u', s''')

  unfoldable pub stream_tasks :
      Resolve A
      → TaskAccessSink W
      → List (TaskRoot A)
      → ℕ
      → ResolvedTraceUnroller × (TraceEmissionBudget × W)
      → Result (ℕ × (ResolvedTraceUnroller × (TraceEmissionBudget × W)))
  unfolding stream_task
  stream_tasks resolve sink [] excluded s = ok (excluded, s)
  stream_tasks resolve sink (root ∷ roots) excluded s = do
    s' ← stream_task resolve sink root s
    stream_tasks resolve sink roots ((excluded + root.excluded) % 2 ^ 64) s'

  -- The expansion budget is the one that the expansion of the calls has left.
  unfoldable pub stream_resolved_task_accesses :
      Resolve A
      → TaskAccessSink W
      → List (TaskRoot A)
      → ExpansionBudget
      → TraceEmissionBudget × W
      → Result (TaskAccessStreamResult × (TraceEmissionBudget × W))
  unfolding stream_tasks
  stream_resolved_task_accesses resolve sink roots expanded s = do
    (excluded, (u, s')) ← stream_tasks resolve sink roots 0 (
      record {
        coverage = record {
          source_accesses = 0;
          resolved_accesses = 0;
          rejected_accesses = 0;
          emitted_line_references = 0;
        };
        next_source_access_ordinal = 0;
        expansion_budget = expanded;
      },
      s,
    )
    ok (
      record {
        coverage = u.coverage;
        excluded_opaque_call_sites = excluded;
        execution_statistics = record {
          maximum_inline_depth = u.expansion_budget.maximum_inline_depth;
          loop_iterations_expanded = u.expansion_budget.loop_iterations;
        };
      },
      s',
    )
