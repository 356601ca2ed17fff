-- ===== src/Batch/Module/Input.antt =====
-- backend/src/cache/hierarchy/hierarchy_input_validation.cpp: the tasks that are collected from a
-- linked program are accepted by the batch analysis.
use mathlib.Core.Path.{subst}
use yet_another_reuse_distan.Prelude.{
  ℕ, ◌+◌, ◌%◌, ◌^◌, ◌≡◌, refl, ◌∙◌, inl, inr, true, false, List, [], ◌∷◌, arith, ◌==◌, length,
  Result, ok, throw, invalid_argument,
}
use yet_another_reuse_distan.Mapping.Address.{cache_set_count}
use yet_another_reuse_distan.Mapping.Types.{absolute}
use yet_another_reuse_distan.Mapping.Resolved.{ResolvedAccess}
use yet_another_reuse_distan.Hierarchy.Types.{TraceCoverage, AnalysisHierarchy}
use yet_another_reuse_distan.Trace.Budget.{ExpansionBudget}
use yet_another_reuse_distan.Trace.Stream.{TaskRoot}
use yet_another_reuse_distan.Trace.Access.{
  ObjectAddressModel, AccessLayouts, Met, Resolution, rejected, resolved, resolve_access, resolver,
}
use yet_another_reuse_distan.Trace.Access.Extent.{
  AllWords, IsPlanned, Located, resolve_access-Located,
}
use yet_another_reuse_distan.Batch.Level.{same_basis, same_operation}
use yet_another_reuse_distan.Batch.Traces.{
  ResolvedTaskTrace, ResolvedTaskTraceResult, validate_resolved_task_result, resolved_task_traces,
}
use yet_another_reuse_distan.Batch.Traces.Collected.{
  Stamps, Numbered, AllRoots, EachCollected, excluded_total, resolved_task_traces-EachCollected,
}
use yet_another_reuse_distan.Batch.Traces.Accepted.{has_fresh_names, validate_resolved-Collected}
use yet_another_reuse_distan.Batch.Module.{
  validate_accesses, validate_tasks, validate_hierarchy_input,
}

-- A plan that an earlier visit left is of the model.
abbrev pub MetPlanned : ObjectAddressModel → Met → Type 0
MetPlanned model met = IsPlanned model met.prepared.plan

-- The resolution of accesses counts each and gives it its ordinal.
pub resolver-Stamps :
    (layouts : AccessLayouts) (model : ObjectAddressModel)
    → AllWords model.objects
    → Stamps (MetPlanned model) (Located model) (resolver layouts model)
unfolding resolver
resolver-Stamps layouts model w = record {
  stamp = λ met id ordinal c c' access planned h.
      found met ordinal c c' access planned
        (resolve_access layouts model met.node met.prepared met.exact_indices ordinal c) refl h;
}
  where
    found :
        (met : Met) (ordinal : ℕ) (c c' : TraceCoverage) (access : ResolvedAccess)
        → MetPlanned model met
        → (r : Resolution)
        → resolve_access layouts model met.node met.prepared met.exact_indices ordinal c ≡ r
        → (elim r as (λ x. Result (ResolvedAccess × TraceCoverage)) [
          | rejected category counted ↦ throw invalid_argument
          | resolved access prepared counted ↦ ok (access, counted)
        ])
          ≡ ok (access, c')
        → Located model access
          × (access.source_access_ordinal ≡ ordinal)
          × (c' ≡ record c { resolved_accesses = (c.resolved_accesses + 1) % 2 ^ 64 })
    found met ordinal c c' access planned (rejected category counted) e h = cc
    found met ordinal c c' access planned (resolved a prepared counted) e h =
        let same : ◌≡◌ {A = ResolvedAccess × TraceCoverage} (a, counted) (access, c') = cc h in
        let (located, stamped, kept, covers) =
          resolve_access-Located layouts model met.node met.prepared prepared met.exact_indices
            ordinal c counted a w planned e in
        subst
          (λ (z : ResolvedAccess × TraceCoverage).
            Located model z.0
            × (z.0.source_access_ordinal ≡ ordinal)
            × (z.1 ≡ record c { resolved_accesses = (c.resolved_accesses + 1) % 2 ^ 64 }))
          same (located, stamped, covers)

module _ (model : ObjectAddressModel) (linked : model.basis ≡ absolute) where
  validate_accesses-ok :
      (index : ℕ) (accesses : List ResolvedAccess)
      → Numbered (Located model) index accesses
      → validate_accesses index accesses ≡ ok tt
  unfolding validate_accesses Numbered same_basis same_operation
  validate_accesses-ok index [] v = refl
  validate_accesses-ok index (a ∷ accesses) (l, numbered, v) =
      let rest = validate_accesses-ok (index + 1) accesses v in
      let absolute_basis = l.basis ∙ linked in
      elim l.operation [
        | inl loads ↦ rw (absolute_basis, loads, numbered) (ground (arith, rest))
        | inr stores ↦ rw (absolute_basis, stores, numbered) (ground (arith, rest))
      ]

  validate_tasks-ok :
      {A : Type 0} (roots : List (TaskRoot A)) (tasks : List ResolvedTaskTrace)
      → EachCollected (Located model) roots tasks
      → excluded_total roots ≡ 0
      → validate_tasks tasks ≡ ok tt
  unfolding validate_tasks EachCollected excluded_total
  validate_tasks-ok [] [] each none_excluded = refl
  validate_tasks-ok (root ∷ roots) (task ∷ tasks) (v, each) none_excluded =
      let kept : task.excluded_opaque_call_sites ≡ 0 = v.excluded ∙ omega (arith, none_excluded) in
      rw (kept, validate_accesses-ok 0 task.accesses v.numbered)
        (validate_tasks-ok roots tasks each (omega (arith, none_excluded)))
  validate_tasks-ok [] (task ∷ tasks) each none_excluded = absurd each
  validate_tasks-ok (root ∷ roots) [] each none_excluded = absurd each

-- What the source stream of a program linked at absolute addresses collects is accepted by the
-- mapper and by the batch analysis: its roots have distinct names, at least one, and no excluded
-- calls, its object sizes are 64-bit numbers, plans that earlier visits left are of its objects,
-- and the two levels have valid geometries with equal lines.
pub validate_hierarchy_input-Collected :
    (layouts : AccessLayouts) (model : ObjectAddressModel) (roots : List (TaskRoot Met))
    (expanded : ExpansionBudget) (h : AnalysisHierarchy) (result : ResolvedTaskTraceResult)
    (l1_sets llc_sets : ℕ)
    → AllWords model.objects
    → model.basis ≡ absolute
    → AllRoots (MetPlanned model) roots
    → (length roots == 0) ≡ false
    → has_fresh_names [] roots ≡ true
    → excluded_total roots ≡ 0
    → cache_set_count h.l1.geometry ≡ ok l1_sets
    → cache_set_count h.llc.geometry ≡ ok llc_sets
    → h.l1.geometry.line_size ≡ h.llc.geometry.line_size
    → resolved_task_traces (resolver layouts model) roots expanded ≡ ok result
    → (validate_resolved_task_result result ≡ ok tt) × (validate_hierarchy_input result h ≡ ok tt)
unfolding validate_hierarchy_input
validate_hierarchy_input-Collected layouts model roots expanded h result l1_sets llc_sets w linked
      all given fresh none_excluded l1 llc equal ran =
    let stamps = resolver-Stamps layouts model w in
    let (each, covers, fits, excluded) =
      resolved_task_traces-EachCollected (MetPlanned model) (Located model) (resolver layouts model)
        stamps roots expanded result all ran in
    let whole : result.excluded_opaque_call_sites ≡ 0 = omega (arith, excluded, none_excluded) in
    let tasks = validate_tasks-ok model linked roots result.tasks each none_excluded in
    (
      validate_resolved-Collected (Located model) (MetPlanned model) (resolver layouts model) stamps
          roots expanded result all given fresh ran,
      rw (l1, llc, equal, whole, tasks) (ground arith),
    )
