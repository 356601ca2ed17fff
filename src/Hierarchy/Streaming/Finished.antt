-- ===== src/Hierarchy/Streaming/Finished.antt =====
-- The start and the end of a task.
use Prim.Native.String.{String}
use yet_another_reuse_distan.Prelude.{
  ℕ, ◌≡◌, ◌≤◌, refl, sym, ap, ◌∙◌, Bool, not, ◌||◌, inl, inr, arith, ◌==◌, Result, ok, throw_if,
  ◌>>=◌, logic_error, >>=-eq-ok, ok-injective, Option-cases,
}
use mathlib.Core.Path.{subst}
use yet_another_reuse_distan.Mapping.Address.{cache_set_count}
use yet_another_reuse_distan.Rd.Arithmetic.{u64_max}
use yet_another_reuse_distan.Rd.Exact.{ExactCsrdAnalyzer, empty_summary}
use yet_another_reuse_distan.Rd.Exact
use yet_another_reuse_distan.Rd.RecencyIndex.{Platform, RecencyIndex}
use yet_another_reuse_distan.Rd.Statistics.{statistics}
use yet_another_reuse_distan.Prelude.Maps.{total}
use yet_another_reuse_distan.Mapping.Address.{CacheGeometry}
use yet_another_reuse_distan.Hierarchy.Types.{
  TraceCoverage, complete, TaskHierarchySummary, AnalysisHierarchy,
}
use yet_another_reuse_distan.Hierarchy.Service.{
  Serves, checked-Serves, finalize_hierarchy_service, finalize_hierarchy_service_iff,
}
use yet_another_reuse_distan.Hierarchy.Level.{
  Counts, Rising, summarized, summarize_streaming_level, summarize_streaming_level-Counts,
}
use yet_another_reuse_distan.Hierarchy.Task.{
  StreamingHierarchyOptions, StreamingHierarchyTask, World, make_task, finish,
}
use yet_another_reuse_distan.Hierarchy.Task.Serving.{Serving, closed}

make-Counts :
    (g : CacheGeometry) (measured : Bool) (a : ExactCsrdAnalyzer)
    → Exact.make g measured ≡ ok a
    → a.summary ≡ empty_summary
unfolding Exact.make
make-Counts g measured a h =
    let (n, counted, h₁) = >>=-eq-ok (cache_set_count g) _ h in
    sym (ap (λ z. z.summary) (ok-injective h₁))

empty-Counts : Counts empty_summary
unfolding total Rising
empty-Counts = record { lookups = omega arith; finite = omega arith; unique = refl; rising = tt }

-- A new task is of two cold levels.
pub make_task-Serving :
    (id : String) (h : AnalysisHierarchy) (measured : Bool) (t : StreamingHierarchyTask)
    → make_task id h measured ≡ ok t
    → Serving t
unfolding make_task
make_task-Serving id h measured t e =
    let (l1, first, e₁) = >>=-eq-ok (Exact.make h.l1.geometry measured) _ e in
    let (llc, last, e₂) = >>=-eq-ok (Exact.make h.llc.geometry measured) _ e₁ in
    let cold = make-Counts h.l1.geometry measured l1 first in
    let cold' = make-Counts h.llc.geometry measured llc last in
    subst Serving (ok-injective e₂) (record {
      l1 = subst Counts (sym cold) empty-Counts;
      llc = subst Counts (sym cold') empty-Counts;
      l1_hits = sym (ap (λ s. s.hits) cold);
      llc_hits = sym (ap (λ s. s.hits) cold');
      memory = rw cold' (omega arith);
      modeled = sym (ap (λ s. s.lookups) cold);
      small = omega arith;
      input = rw (cold, cold') (omega arith);
    })

-- A task that is finished has a summary whose counts are conserved.
pub finish-Serves :
    {S : Type 0} (p : Platform) (buckets : RecencyIndex → ℕ) (options : StreamingHierarchyOptions S)
    (w : World S) (coverage : TraceCoverage) (result : TaskHierarchySummary) (s : S)
    → Serving w.task
    → finish p buckets options w coverage ≡ ok (result, s)
    → Serves result
unfolding finish closed summarized
finish-Serves {S} p buckets options w coverage result s v h =
    let t = w.task in
    let level1 =
      summarize_streaming_level-Counts t.l1.summary (omega (arith, v.small, v.modeled)) v.l1 in
    let level2 =
      summarize_streaming_level-Counts t.llc.summary
        (omega (arith, v.small, v.modeled, v.input, v.l1.lookups)) v.llc in
    let (u, passed, h₁) =
      >>=-eq-ok
        (throw_if
          (not (complete coverage)
            || not (coverage.source_accesses == t.summary.source_accesses)
            || not (coverage.emitted_line_references == 0))
          logic_error)
        _ h in
    let (l1, first, h₂) = >>=-eq-ok (summarize_streaming_level t.l1.summary) _ h₁ in
    let (llc, last, h₃) = >>=-eq-ok (summarize_streaming_level t.llc.summary) _ h₂ in
    let own : l1 ≡ summarized t.l1.summary = ok-injective (sym first ∙ level1) in
    let (done, finalized, h₄) =
      >>=-eq-ok
        (finalize_hierarchy_service (record t.summary {
          coverage = record coverage { emitted_line_references = t.summary.modeled_accesses };
          l1 = l1;
          llc = llc;
        }))
        _ h₃ in
    let same : done ≡ result = elim (Option-cases options.statistics_sink) [
      | inl e ↦
          let told : ◌≡◌ {A = Result (TaskHierarchySummary × S)} (ok (done, w.state))
              (ok (result, s)) =
            ground (arith, e, h₄) in
          ap (λ q. q.0) (ok-injective told)
      | inr (sink, e) ↦
          let report : Result (TaskHierarchySummary × S) =
            (statistics p buckets t.l1 >>= λ a. statistics p buckets t.llc >>= λ b.
            sink w.state done.task_id a b >>= λ z. ok (done, z)) in
          let told : report ≡ ok (result, s) = ground (arith, e, h₄) in
          let (a, taken, k₁) = >>=-eq-ok (statistics p buckets t.l1) _ told in
          let (b, taken', k₂) = >>=-eq-ok (statistics p buckets t.llc) _ k₁ in
          let (z, sunk, k₃) = >>=-eq-ok (sink w.state done.task_id a b) _ k₂ in
          ap (λ q. q.0) (ok-injective k₃)
    ] in
    let small : l1.lookups ≤ u64_max =
      rw (ap (λ q. q.lookups) own) (omega (arith, v.small, v.modeled)) in
    let (serves, e) =
      (finalize_hierarchy_service_iff
          (record t.summary {
            coverage = record coverage { emitted_line_references = t.summary.modeled_accesses };
            l1 = l1;
            llc = llc;
          })
          done small).0
        finalized in
    subst Serves (sym e ∙ same) (checked-Serves _ serves)
