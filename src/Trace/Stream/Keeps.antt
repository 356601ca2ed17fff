-- ===== src/Trace/Stream/Keeps.antt =====
-- What the callbacks of a sink keep, the stream of a module keeps.
use Prim.Native.String.{String}
use yet_another_reuse_distan.Prelude.{
  ℕ, ◌+◌, ◌%◌, ◌^◌, ◌≡◌, ap, List, [], ◌∷◌, ok, >>=-eq-ok, ok-injective,
}
use mathlib.Core.Path.{subst}
use yet_another_reuse_distan.Mapping.Resolved.{ResolvedAccess}
use yet_another_reuse_distan.Hierarchy.Types.{TraceCoverage}
use yet_another_reuse_distan.Trace.Budget.{
  TraceEmissionBudget, ExpansionBudget, consume_source_access, consume_loop_iterations,
}
use yet_another_reuse_distan.Trace.Stream.{
  TaskAccessSink, Visit, enter_loop, meet, TaskRoot, ResolvedTraceUnroller, TaskAccessStreamResult,
  Resolve, emit, unroll, coverage_delta, stream_task, stream_tasks, stream_resolved_task_accesses,
}

-- A callback that returns leaves the property of the state.
pub record SinkKeeps {W : Type 0} (P : W → Type 0) (sink : TaskAccessSink W) : Type 0 where
  pub begin_task :
      (s s' : TraceEmissionBudget × W) (id : String) (excluded : ℕ)
      → P s.1
      → sink.begin_task s id excluded ≡ ok s'
      → P s'.1
  pub access :
      (s s' : TraceEmissionBudget × W) (id : String) (a : ResolvedAccess)
      → P s.1
      → sink.access s id a ≡ ok s'
      → P s'.1
  pub end_task :
      (s s' : TraceEmissionBudget × W) (id : String) (coverage : TraceCoverage)
      → P s.1
      → sink.end_task s id coverage ≡ ok s'
      → P s'.1

module _ {A W : Type 0} (P : W → Type 0) (resolve : Resolve A) (sink : TaskAccessSink W)
    (keeps : SinkKeeps P sink) where
  -- The state of the sink, in the state of the stream.
  abbrev Kept : ResolvedTraceUnroller × (TraceEmissionBudget × W) → Type 0
  Kept (u, (budget, w)) = P w

  emit-keeps :
      (id : String) (a : A) (s s' : ResolvedTraceUnroller × (TraceEmissionBudget × W))
      → Kept s
      → emit resolve sink id a s ≡ ok s'
      → Kept s'
  unfolding emit
  emit-keeps id a (u, (budget, w)) s' v h =
      let (b, charged, h₁) = >>=-eq-ok (consume_source_access budget) _ h in
      let ((resolved, coverage), found, h₂) =
        >>=-eq-ok
          (resolve a id u.next_source_access_ordinal
            (record u.coverage { source_accesses = (u.coverage.source_accesses + 1) % 2 ^ 64 }))
          _ h₁ in
      let (t, taken, h₃) = >>=-eq-ok (sink.access (b, w) id resolved) _ h₂ in
      subst Kept (ok-injective h₃) (keeps.access (b, w) t id resolved v taken)

  unroll-keeps :
      (id : String) (visits : List (Visit A))
      (s s' : ResolvedTraceUnroller × (TraceEmissionBudget × W))
      → Kept s
      → unroll resolve sink id visits s ≡ ok s'
      → Kept s'
  unfolding unroll
  unroll-keeps id [] s s' v h = subst Kept (ok-injective h) v
  unroll-keeps id (enter_loop count ∷ visits) (u, s) s' v h =
      let (b, charged, h₁) = >>=-eq-ok (consume_loop_iterations u.expansion_budget count) _ h in
      unroll-keeps id visits _ s' v h₁
  unroll-keeps id (meet a ∷ visits) s s' v h =
      let (t, met, h₁) = >>=-eq-ok (emit resolve sink id a s) _ h in
      unroll-keeps id visits t s' (emit-keeps id a s t v met) h₁

  stream_task-keeps :
      (root : TaskRoot A) (s s' : ResolvedTraceUnroller × (TraceEmissionBudget × W))
      → Kept s
      → stream_task resolve sink root s ≡ ok s'
      → Kept s'
  unfolding stream_task
  stream_task-keeps root (u, s) s' v h =
      let (t, begun, h₁) = >>=-eq-ok (sink.begin_task s root.task_id root.excluded) _ h in
      let ((u', t'), unrolled, h₂) =
        >>=-eq-ok
          (unroll resolve sink root.task_id root.visits
            (record u { next_source_access_ordinal = 0 }, t))
          _ h₁ in
      let (t'', ended, h₃) =
        >>=-eq-ok (sink.end_task t' root.task_id (coverage_delta u'.coverage u.coverage)) _ h₂ in
      let begun' = keeps.begin_task s t root.task_id root.excluded v begun in
      let unrolled' = unroll-keeps root.task_id root.visits _ (u', t') begun' unrolled in
      subst Kept (ok-injective h₃)
        (keeps.end_task t' t'' root.task_id (coverage_delta u'.coverage u.coverage) unrolled' ended)

  stream_tasks-keeps :
      (roots : List (TaskRoot A)) (excluded excluded' : ℕ)
      (s s' : ResolvedTraceUnroller × (TraceEmissionBudget × W))
      → Kept s
      → stream_tasks resolve sink roots excluded s ≡ ok (excluded', s')
      → Kept s'
  unfolding stream_tasks
  stream_tasks-keeps [] excluded excluded' s s' v h = subst Kept (ap (λ z. z.1) (ok-injective h)) v
  stream_tasks-keeps (root ∷ roots) excluded excluded' s s' v h =
      let (t, done, h₁) = >>=-eq-ok (stream_task resolve sink root s) _ h in
      stream_tasks-keeps roots _ excluded' t s' (stream_task-keeps root s t v done) h₁

  pub stream-keeps :
      (roots : List (TaskRoot A)) (expanded : ExpansionBudget) (s s' : TraceEmissionBudget × W)
      (result : TaskAccessStreamResult)
      → P s.1
      → stream_resolved_task_accesses resolve sink roots expanded s ≡ ok (result, s')
      → P s'.1
  unfolding stream_resolved_task_accesses
  stream-keeps roots expanded s s' result v h =
      let ((excluded, (u, t)), done, h₁) = >>=-eq-ok (stream_tasks resolve sink roots 0 _) _ h in
      subst P (ap (λ z. z.1.1) (ok-injective h₁))
        (stream_tasks-keeps roots 0 excluded _ (u, t) v done)
