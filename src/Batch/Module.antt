-- ===== src/Batch/Module.antt =====
-- backend/src/cache/hierarchy/hierarchy_input_validation.cpp and hierarchy_analysis.cpp: the batch
-- analysis of all the tasks of a module.
pub mod Served
pub mod Sound
pub mod Input
use yet_another_reuse_distan.Prelude.{
  ℕ, true, false, ◌+◌, ◌||◌, not, List, [], ◌∷◌, ◌==◌, Result, ok, throw_if, ◌>>=◌, ◌>>◌,
  invalid_argument,
}
use yet_another_reuse_distan.Mapping.Address.{CacheGeometry, cache_set_count, decode_cache_address}
use yet_another_reuse_distan.Mapping.Types.{CacheLineMapping, absolute, load, store}
use yet_another_reuse_distan.Mapping.Resolved.{ResolvedAccess}
use yet_another_reuse_distan.Hierarchy.Types.{TraceCoverage, AnalysisHierarchy, LruAccessResult}
use yet_another_reuse_distan.Hierarchy.Level.{is_hit}
use yet_another_reuse_distan.Batch.Level.{
  BatchTaskHierarchyResult, analyze_hierarchy_level, aggregate_hierarchy_task, same_basis,
  same_operation,
}
use yet_another_reuse_distan.Batch.Traces.{
  ResolvedTaskTrace, ResolvedTaskTraceResult, MappedTaskTrace, map_resolved_task_traces,
}

-- The loop over the accesses of a task, from an index.
unfoldable pub validate_accesses : ℕ → List ResolvedAccess → Result (Unit {0})
unfolding same_basis same_operation
validate_accesses index [] = ok tt
validate_accesses index (access ∷ accesses) = do
  throw_if (not (same_basis access.address_basis absolute)) invalid_argument
  throw_if (not (same_operation access.operation load || same_operation access.operation store))
      invalid_argument
  throw_if (not (access.source_access_ordinal == index)) invalid_argument
  validate_accesses (index + 1) accesses

unfoldable pub validate_tasks : List ResolvedTaskTrace → Result (Unit {0})
unfolding validate_accesses
validate_tasks [] = ok tt
validate_tasks (task ∷ tasks) = do
  throw_if (not (task.excluded_opaque_call_sites == 0)) invalid_argument
  validate_accesses 0 task.accesses
  validate_tasks tasks

unfoldable pub validate_hierarchy_input :
    ResolvedTaskTraceResult → AnalysisHierarchy → Result (Unit {0})
unfolding validate_tasks
validate_hierarchy_input resolved h = do
  _ ← cache_set_count h.l1.geometry
  _ ← cache_set_count h.llc.geometry
  throw_if (not (h.l1.geometry.line_size == h.llc.geometry.line_size)) invalid_argument
  throw_if (not (resolved.excluded_opaque_call_sites == 0)) invalid_argument
  validate_tasks resolved.tasks

-- The rows that miss the first level, decoded for the last.
unfoldable pub forward_misses :
    List LruAccessResult → List CacheLineMapping → CacheGeometry → Result (List CacheLineMapping)
forward_misses (access ∷ accesses) (mapping ∷ mappings) g = elim (is_hit access.outcome) [
  | true ↦ forward_misses accesses mappings g
  | false ↦ do
    decoded ← decode_cache_address mapping.decoded.address g
    rest ← forward_misses accesses mappings g
    ok (record mapping { decoded = decoded } ∷ rest)
]
forward_misses _ _ g = ok []

unfoldable pub analyze_task : AnalysisHierarchy → MappedTaskTrace → Result BatchTaskHierarchyResult
unfolding forward_misses analyze_hierarchy_level aggregate_hierarchy_task
analyze_task h task = do
  l1 ← analyze_hierarchy_level task.accesses h.l1.geometry
  misses ← forward_misses l1.accesses l1.mappings h.llc.geometry
  llc ← analyze_hierarchy_level misses h.llc.geometry
  aggregate_hierarchy_task task.task_id task.coverage l1 llc

unfoldable pub analyze_tasks :
    AnalysisHierarchy → List MappedTaskTrace → Result (List BatchTaskHierarchyResult)
unfolding analyze_task
analyze_tasks h [] = ok []
analyze_tasks h (task ∷ tasks) = do
  analyzed ← analyze_task h task
  rest ← analyze_tasks h tasks
  ok (analyzed ∷ rest)

pub record BatchHierarchyResult : Type 0 where
  pub tasks : List BatchTaskHierarchyResult
  pub coverage : TraceCoverage

unfoldable pub analyze_batch_hierarchy :
    ResolvedTaskTraceResult → AnalysisHierarchy → Result BatchHierarchyResult
unfolding validate_hierarchy_input map_resolved_task_traces analyze_tasks
analyze_batch_hierarchy resolved h = do
  validate_hierarchy_input resolved h
  mapped ← map_resolved_task_traces resolved h.l1.geometry
  tasks ← analyze_tasks h mapped.tasks
  ok (record { tasks = tasks; coverage = mapped.coverage })
