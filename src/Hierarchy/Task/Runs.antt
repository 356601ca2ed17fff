-- ===== src/Hierarchy/Task/Runs.antt =====
-- Whole tasks: source accesses one after the other, and the summary at the end.
use yet_another_reuse_distan.Prelude.{
  ℕ, ◌≡◌, ap, ◌∙◌, not, ◌==◌, ok, throw_if, invalid_argument, >>=-eq-ok, ok-injective,
}
use yet_another_reuse_distan.Mapping.Types.{CacheLineMapping}
use yet_another_reuse_distan.Mapping.LineMapping.Invariant.{for_each_cache_line-keeps}
use yet_another_reuse_distan.Mapping.Resolved.{
  ResolvedAccess, range_of, annotate, budgeted, for_each_access_line, for_each_budgeted_line,
}
use yet_another_reuse_distan.Trace.Budget.{TraceEmissionBudget, consume_line_reference}
use yet_another_reuse_distan.Rd.RecencyIndex.{Platform, Clock}
use yet_another_reuse_distan.Hierarchy.Service.{checked_service_sum}
use yet_another_reuse_distan.Hierarchy.Task.{
  StreamingHierarchyOptions, World, observe_line, is_absolute, is_known, accept,
}
use yet_another_reuse_distan.Hierarchy.Task.Serving.{Serving, observe_line-Serving}

module _ {S : Type 0} (p : Platform) (clocks : ℕ → Clock × Clock)
    (options : StreamingHierarchyOptions S) where
  abbrev ServingWorld : TraceEmissionBudget × World S → Type 0
  ServingWorld (budget, w) = Serving w.task

  line-keeps :
      (access : ResolvedAccess) (s s' : TraceEmissionBudget × World S) (m : CacheLineMapping)
      → ServingWorld s
      → budgeted (observe_line p clocks options) s (annotate access m) ≡ ok s'
      → ServingWorld s'
  unfolding budgeted
  line-keeps access (budget, w) (budget', w') m v h =
      let (b, consumed, h₁) = >>=-eq-ok (consume_line_reference budget) _ h in
      let (x, seen, h₂) = >>=-eq-ok (observe_line p clocks options w (annotate access m)) _ h₁ in
      let e : x ≡ w' = ap (λ q. q.1) (ok-injective h₂) in
      observe_line-Serving p clocks options w w' (annotate access m) v (seen ∙ ap ok e)

  -- A source access that is accepted keeps the counters of the task equal to those of its levels,
  -- over all the lines of the access.
  pub accept-Serving :
      (access : ResolvedAccess) (budget budget' : TraceEmissionBudget) (w w' : World S)
      → Serving w.task
      → accept p clocks options access (budget, w) ≡ ok (budget', w')
      → Serving w'.task
  unfolding accept for_each_budgeted_line for_each_access_line
  accept-Serving access budget budget' w w' v h =
      let (u₁, absolute, h₁) =
        >>=-eq-ok (throw_if (not (is_absolute access.address_basis)) invalid_argument) _ h in
      let (u₂, known, h₂) =
        >>=-eq-ok (throw_if (not (is_known access.operation)) invalid_argument) _ h₁ in
      let (u₃, next, h₃) =
        >>=-eq-ok
          (throw_if (not (access.source_access_ordinal == w.task.summary.source_accesses))
            invalid_argument)
          _ h₂ in
      let (sources, counted, h₄) =
        >>=-eq-ok (checked_service_sum w.task.summary.source_accesses 1) _ h₃ in
      for_each_cache_line-keeps ServingWorld
        (λ s m. budgeted (observe_line p clocks options) s (annotate access m)) (line-keeps access)
        (range_of access) w.task.hierarchy.l1.geometry _ (budget', w')
        (record {
          l1 = v.l1;
          llc = v.llc;
          l1_hits = v.l1_hits;
          llc_hits = v.llc_hits;
          memory = v.memory;
          modeled = v.modeled;
          small = v.small;
          input = v.input;
        })
        h₄
