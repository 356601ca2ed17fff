-- ===== src/Hierarchy/Streaming/Sound.antt =====
-- What a module's result has, whatever the module and its callbacks do.
use Prim.Native.String.{String}
use yet_another_reuse_distan.Prelude.{
  ℕ, ◌≡◌, refl, sym, ap, ◌∙◌, true, false, not, ◌&&◌, inl, inr, List, [], ◌∷◌, ◌++◌, Option, none,
  some, arith, ◌==◌, Result, ok, throw, throw_if, ◌>>=◌, logic_error, invalid_argument, >>=-eq-ok,
  throw_if-eq-ok, ok-injective, Option-cases,
}
use mathlib.Core.Path.{subst}
use yet_another_reuse_distan.Mapping.Address.{cache_set_count}
use yet_another_reuse_distan.Mapping.Resolved.{ResolvedAccess}
use yet_another_reuse_distan.Trace.Budget.{
  TraceEmissionBudget, TraceEmissionLimits, ExpansionBudget, emission_budget,
}
use yet_another_reuse_distan.Trace.Stream.{TaskRoot, Resolve, stream_resolved_task_accesses}
use yet_another_reuse_distan.Trace.Stream.Keeps.{SinkKeeps, stream-keeps}
use yet_another_reuse_distan.Prelude.Maps.{total}
use yet_another_reuse_distan.Hierarchy.Types.{TraceCoverage, complete, AnalysisHierarchy}
use yet_another_reuse_distan.Hierarchy.Level.{add_streaming_coverage}
use yet_another_reuse_distan.Hierarchy.Task.{
  StreamingHierarchyTask, no_coverage, make_task, accept, finish,
}
use yet_another_reuse_distan.Hierarchy.Task.Serving.{Serving}
use yet_another_reuse_distan.Hierarchy.Task.Runs.{accept-Serving}
use yet_another_reuse_distan.Output.Telemetry.{
  AnalysisTelemetryCollector, hierarchy_analysis, resolve_and_stream,
}
use yet_another_reuse_distan.Hierarchy.Streaming.{
  StreamingHierarchyResult, Run, Surroundings, start_interval, finish_interval, is_set, timed,
  begin_active, world, accept_active, finish_active, streaming_sink, disagrees,
  analyze_streaming_hierarchy,
}
use yet_another_reuse_distan.Hierarchy.Streaming.Finished.{make_task-Serving, finish-Serves}
use yet_another_reuse_distan.Hierarchy.Streaming.Totals.{
  EachServes, IsSum, EachServes-snoc, add_coverage-IsSum, sum_of,
}

-- The tasks so far are conserved, and the active one agrees with its levels.
record Sound {S : Type 0} (run : Run S) : Type 0 where
  tasks : EachServes run.tasks
  coverage : IsSum run.coverage run.tasks
  active : (t : StreamingHierarchyTask) → run.active ≡ some t → Serving t

some-injective : {A : Type 0} {a b : A} → some a ≡ some b → a ≡ b
some-injective h = cc

no_tasks :
    {S : Type 0} (run : Run S)
    → run.tasks ≡ []
    → run.coverage ≡ no_coverage
    → run.active ≡ none
    → Sound run
unfolding EachServes sum_of
no_tasks run e c a = record {
  tasks = rw e tt;
  coverage =
      rw (e, c) (record { sources = refl; resolved = refl; rejected = refl; emitted = refl });
  active = λ t is. cc (sym a ∙ is);
}

agreed : (source result : TraceCoverage) → disagrees source result ≡ false → complete result ≡ true
unfolding disagrees complete
agreed source result h = ground (arith, h)

module _ {S : Type 0} (o : Surroundings S) where
  begin_active-Sound :
      (h : AnalysisHierarchy) (id : String) (excluded : ℕ) (s s' : TraceEmissionBudget × Run S)
      → Sound s.1
      → begin_active o h id excluded s ≡ ok s'
      → Sound s'.1
  unfolding begin_active
  begin_active-Sound h id excluded (budget, run) s' v e =
      let (u, whole, e₁) = >>=-eq-ok (throw_if (not (excluded == 0)) invalid_argument) _ e in
      let (t, made, e₂) = >>=-eq-ok (make_task id h (is_set o.options.statistics_sink)) _ e₁ in
      subst (λ z. Sound z.1) (ok-injective e₂)
        (record {
          tasks = v.tasks;
          coverage = v.coverage;
          active = λ t' is.
              subst Serving (some-injective is)
                (make_task-Serving id h (is_set o.options.statistics_sink) t made);
        })

  accept_active-Sound :
      (id : String) (access : ResolvedAccess) (s s' : TraceEmissionBudget × Run S)
      → Sound s.1
      → accept_active o id access s ≡ ok s'
      → Sound s'.1
  unfolding accept_active
  accept_active-Sound id access (budget, run) s' v e = elim (Option-cases run.active) [
    | inl n ↦ let stop : throw logic_error ≡ ok s' = ground (arith, n, e) in cc stop
    | inr (t, n) ↦
        let go : (accept o.platform (o.clocks id) o.options access (budget, world run t)
              >>= λ (b, w). ok (
                b,
                record run { active = some w.task; event_delivery = w.delivery; state = w.state },
              ))
            ≡ ok s' =
          ground (arith, n, e) in
        let ((b, w), accepted, e₁) =
          >>=-eq-ok (accept o.platform (o.clocks id) o.options access (budget, world run t)) _ go in
        subst (λ z. Sound z.1) (ok-injective e₁)
          (record {
            tasks = v.tasks;
            coverage = v.coverage;
            active = λ t' is. subst Serving (some-injective is) (
                accept-Serving o.platform (o.clocks id) o.options access budget b (world run t) w
                  (v.active t n) accepted);
          })
  ]

  finish_active-Sound :
      (coverage : TraceCoverage) (s s' : TraceEmissionBudget × Run S)
      → Sound s.1
      → finish_active o coverage s ≡ ok s'
      → Sound s'.1
  unfolding finish_active
  finish_active-Sound coverage (budget, run) s' v e = elim (Option-cases run.active) [
    | inl n ↦ let stop : throw logic_error ≡ ok s' = ground (arith, n, e) in cc stop
    | inr (t, n) ↦
        let go : (finish o.platform o.buckets o.options (world run t) coverage >>= λ (task, state).
        add_streaming_coverage run.coverage task.coverage >>= λ total. ok (
          budget,
          record run {
            coverage = total;
            tasks = run.tasks ++ task ∷ [];
            active = none;
            state = state;
          },
        ))
            ≡ ok s' =
          ground (arith, n, e) in
        let ((task, state), finished, e₁) =
          >>=-eq-ok (finish o.platform o.buckets o.options (world run t) coverage) _ go in
        let (total, added, e₂) =
          >>=-eq-ok (add_streaming_coverage run.coverage task.coverage) _ e₁ in
        let serves =
          finish-Serves o.platform o.buckets o.options (world run t) coverage task state
            (v.active t n) finished in
        subst (λ z. Sound z.1) (ok-injective e₂)
          (record {
            tasks = EachServes-snoc run.tasks task v.tasks serves;
            coverage = add_coverage-IsSum run.coverage total run.tasks task v.coverage added;
            active = λ t' is. cc is;
          })
  ]

  -- The readings of an interval change the collector alone.
  timed-Sound :
      (body : TraceEmissionBudget × Run S → Result (TraceEmissionBudget × Run S))
      → ((s s' : TraceEmissionBudget × Run S) → Sound s.1 → body s ≡ ok s' → Sound s'.1)
      → (s s' : TraceEmissionBudget × Run S) → Sound s.1
      → timed o body s ≡ ok s'
      → Sound s'.1
  unfolding timed
  timed-Sound body keeps (budget, run) s' v h =
      let (start, telemetry) = start_interval o.clock run.telemetry in
      let ((b, r), done, h₁) =
        >>=-eq-ok (body (budget, record run { telemetry = telemetry })) _ h in
      let (telemetry', read, h₂) =
        >>=-eq-ok (finish_interval o.clock r.telemetry hierarchy_analysis start) _ h₁ in
      let before : Sound (record run { telemetry = telemetry }) = record {
        tasks = v.tasks;
        coverage = v.coverage;
        active = v.active;
      } in
      let after = keeps (budget, record run { telemetry = telemetry }) (b, r) before done in
      subst (λ z. Sound z.1) (ok-injective h₂)
        (record { tasks = after.tasks; coverage = after.coverage; active = after.active })

  streaming_sink-keeps : (h : AnalysisHierarchy) → SinkKeeps Sound (streaming_sink o h)
  unfolding streaming_sink
  streaming_sink-keeps h = record {
    begin_task = λ s s' id excluded.
        timed-Sound (begin_active o h id excluded) (begin_active-Sound h id excluded) s s';
    access = λ s s' id access.
        timed-Sound (accept_active o id access) (accept_active-Sound id access) s s';
    end_task = λ s s' id coverage.
        timed-Sound (finish_active o coverage) (finish_active-Sound coverage) s s';
  }

  -- Whatever the module, the resolution of its accesses, the clocks and the callbacks do: where the
  -- analysis of a module returns, the counts of every task are conserved, the coverage of the
  -- module is the sum of the coverages of its tasks, and every source access was resolved.
  pub analyze_streaming_hierarchy-Sound :
      {A : Type 0} (resolve : Resolve A) (roots : List (TaskRoot A)) (expanded : ExpansionBudget)
      (h : AnalysisHierarchy) (limits : TraceEmissionLimits)
      (telemetry telemetry' : Option AnalysisTelemetryCollector) (state state' : S)
      (result : StreamingHierarchyResult)
      → analyze_streaming_hierarchy o resolve roots expanded h limits telemetry state
        ≡ ok (result, (telemetry', state'))
      → EachServes result.tasks
        × IsSum result.coverage result.tasks
        × (complete result.coverage ≡ true)
  unfolding analyze_streaming_hierarchy
  analyze_streaming_hierarchy-Sound resolve roots expanded h limits telemetry telemetry' state
        state' result ran =
      let (n₁, first, h₁) = >>=-eq-ok (cache_set_count h.l1.geometry) _ ran in
      let (n₂, last, h₂) = >>=-eq-ok (cache_set_count h.llc.geometry) _ h₁ in
      let (u₁, equal, h₃) =
        >>=-eq-ok
          (throw_if (not (h.l1.geometry.line_size == h.llc.geometry.line_size)) invalid_argument) _
          h₂ in
      let (u₂, sunk, h₄) =
        >>=-eq-ok
          (throw_if (not (is_set o.options.event_sink) && not (o.options.event_limit == 0))
            invalid_argument)
          _ h₃ in
      let ((source, (b, run)), streamed, h₅) =
        >>=-eq-ok
          (stream_resolved_task_accesses resolve (streaming_sink o h) roots expanded
            (emission_budget limits, _))
          _ h₄ in
      let (u₃, coherent, h₆) =
        >>=-eq-ok (throw_if (disagrees source.coverage run.coverage) logic_error) _ h₅ in
      let (t, read, h₇) =
        >>=-eq-ok (finish_interval o.clock run.telemetry resolve_and_stream _) _ h₆ in
      let e : (record {
        tasks = run.tasks;
        coverage = run.coverage;
        event_delivery = run.event_delivery;
        execution_statistics = source.execution_statistics;
      })
          ≡ result =
        ap (λ z. z.0) (ok-injective h₇) in
      let v =
        stream-keeps Sound resolve (streaming_sink o h) (streaming_sink-keeps h) roots expanded _
          (b, run) source (no_tasks _ refl refl refl) streamed in
      let whole =
        agreed source.coverage run.coverage
          (throw_if-eq-ok (disagrees source.coverage run.coverage) logic_error coherent) in
      subst (λ z. EachServes z.tasks × IsSum z.coverage z.tasks × (complete z.coverage ≡ true)) e
        (v.tasks, v.coverage, whole)
