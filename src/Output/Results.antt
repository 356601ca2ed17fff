-- ===== src/Output/Results.antt =====
-- backend/src/cache/output/hierarchy_result_validation.cpp: the checks of a result. The sign and the
-- equality of ratios are those of the platform's doubles.
pub mod Levels
use Prim.Native.String.{String}
use text.Mathlib.Text.{◌==◌ as str_eq}
use yet_another_reuse_distan.Prelude.{
  ℕ, ◌+◌, ◌*◌, ◌/◌, Bool, true, false, not, ◌&&◌, ◌||◌, List, [], ◌∷◌, Option, none, some, ltb, leb,
  ◌==◌, if◌then◌else◌, Result, ok, throw, throw_if, ◌>>=◌, ◌>>◌, invalid_argument, overflow_error,
}
use yet_another_reuse_distan.Mapping.Address.{CacheGeometry, cache_set_count}
use yet_another_reuse_distan.Mapping.LineMapping.{u64_max}
use yet_another_reuse_distan.Hierarchy.Types.{
  TraceCoverage, complete, CacheLevelSummary, Ratio, TaskHierarchySummary, AnalysisCacheLevel,
  AnalysisHierarchy,
}
use yet_another_reuse_distan.Hierarchy.Service.{checked_service_sum, finalize_hierarchy_service}
use yet_another_reuse_distan.Hierarchy.Level.{add_streaming_coverage}
use yet_another_reuse_distan.Hierarchy.Task.{no_coverage}
use yet_another_reuse_distan.Hierarchy.Streaming.{StreamingHierarchyResult}
use yet_another_reuse_distan.Output.Events.{has_task}

-- The loop over the histogram, with the hits and the replacements so far.
unfoldable pub split_histogram : CacheLevelSummary → ℕ → ℕ → ℕ → List (ℕ × ℕ) → Result (ℕ × ℕ)
unfolding checked_service_sum
split_histogram level associativity hits replacements [] = ok (hits, replacements)
split_histogram level associativity hits replacements ((distance, count) ∷ entries) = do
  throw_if (count == 0) invalid_argument
  throw_if (leb level.unique_lines distance) invalid_argument
  sum ← checked_service_sum (if ltb distance associativity then hits else replacements) count
  split_histogram level associativity (if ltb distance associativity then sum else hits)
      (if ltb distance associativity then replacements else sum) entries

unfoldable pub validate_level : CacheLevelSummary → CacheGeometry → Result (Unit {0})
unfolding split_histogram
validate_level level g = do
  (hits, replacements) ← split_histogram level g.associativity 0 0 level.csrd_histogram
  _ ← checked_service_sum hits replacements
  throw_if
      (not (hits == level.hits)
        || not (replacements == level.replacement_misses)
        || not (level.unique_lines == level.cold_misses))
      invalid_argument

unfoldable pub hierarchy_level_capacity : AnalysisCacheLevel → Result ℕ
hierarchy_level_capacity level = do
  _ ← cache_set_count level.geometry
  throw_if (ltb (u64_max / level.geometry.line_size) level.geometry.line_count) overflow_error
  ok (level.geometry.line_count * level.geometry.line_size)

pub record HierarchyResultMetadata : Type 0 where
  pub analysis_core_id : ℕ
  pub hierarchy : AnalysisHierarchy
  pub map_schema_version : ℕ
  pub cache_schema_version : ℕ
  pub elf_address_size : ℕ
  pub elf_machine : ℕ

-- The selected path has three names, the two roles and one line size.
unfoldable pub is_invalid_path : ℕ → AnalysisHierarchy → Bool
is_invalid_path analysis_core_id h =
    not (h.core_id == 0)
    || not (h.core_id == analysis_core_id)
    || str_eq h.l1.name ""
    || str_eq h.llc.name ""
    || str_eq h.memory_name ""
    || not (str_eq h.l1.role "L1")
    || not (str_eq h.llc.role "LLC")
    || str_eq h.l1.name h.llc.name
    || str_eq h.l1.name h.memory_name
    || str_eq h.llc.name h.memory_name
    || not (h.l1.geometry.line_size == h.llc.geometry.line_size)

module _ (signbit : Ratio → Bool) (same_value : Ratio → Ratio → Bool) where
  -- `==` of optional ratios
  unfoldable pub same_ratio : Option Ratio → Option Ratio → Bool
  same_ratio none none = true
  same_ratio (some a) (some b) = same_value a b
  same_ratio _ _ = false

  abbrev pub is_negative : Option Ratio → Bool
  is_negative none = false
  is_negative (some ratio) = signbit ratio

  unfoldable pub validate_task : TaskHierarchySummary → AnalysisHierarchy → Result (Unit {0})
  unfolding validate_level same_ratio
  validate_task task hierarchy = do
    let flags = task.invariants
    throw_if
        (not flags.level_conservation_l1
          || not flags.level_conservation_llc
          || not flags.llc_input_matches_l1_misses
          || not flags.first_service_conservation
          || not flags.all_passed)
        invalid_argument
    validate_level task.l1 hierarchy.l1.geometry
    validate_level task.llc hierarchy.llc.geometry
    throw_if (ltb task.l1.unique_lines task.llc.unique_lines) invalid_argument
    throw_if
        (ltb task.modeled_accesses task.source_accesses
          || (task.source_accesses == 0 && not (task.modeled_accesses == 0)))
        invalid_argument
    checked ← finalize_hierarchy_service task
    throw_if
        (is_negative task.l1_first_hit_ratio
          || is_negative task.llc_first_hit_ratio
          || is_negative task.all_cache_miss_ratio)
        invalid_argument
    throw_if
        (not (same_ratio task.l1_first_hit_ratio checked.l1_first_hit_ratio)
          || not (same_ratio task.llc_first_hit_ratio checked.llc_first_hit_ratio)
          || not (same_ratio task.all_cache_miss_ratio checked.all_cache_miss_ratio))
        invalid_argument

  -- The loop over the tasks, with their names and the sum of their coverages.
  unfoldable pub validate_tasks :
      AnalysisHierarchy
      → List String
      → TraceCoverage
      → List TaskHierarchySummary
      → Result TraceCoverage
  unfolding validate_task
  validate_tasks hierarchy identities aggregate [] = ok aggregate
  validate_tasks hierarchy identities aggregate (task ∷ tasks) = do
    throw_if (str_eq task.task_id "" || has_task task.task_id identities) invalid_argument
    validate_task task hierarchy
    aggregate' ← add_streaming_coverage aggregate task.coverage
    validate_tasks hierarchy (task.task_id ∷ identities) aggregate' tasks

  unfoldable pub validate_hierarchy_result :
      HierarchyResultMetadata → StreamingHierarchyResult → Result (Unit {0})
  unfolding is_invalid_path hierarchy_level_capacity validate_tasks
  validate_hierarchy_result metadata result = do
    let hierarchy = metadata.hierarchy
    throw_if
        (not (metadata.map_schema_version == 2)
          || not (metadata.cache_schema_version == 1)
          || (not (metadata.elf_address_size == 4) && not (metadata.elf_address_size == 8))
          || metadata.elf_machine == 0)
        invalid_argument
    throw_if (is_invalid_path metadata.analysis_core_id hierarchy) invalid_argument
    _ ← hierarchy_level_capacity hierarchy.l1
    _ ← hierarchy_level_capacity hierarchy.llc
    throw_if (elim result.tasks [ [] ↦ true | task ∷ tasks ↦ false ]) invalid_argument
    aggregate ← validate_tasks hierarchy [] no_coverage result.tasks
    throw_if
        (not (complete result.coverage)
          || not (aggregate.source_accesses == result.coverage.source_accesses)
          || not (aggregate.resolved_accesses == result.coverage.resolved_accesses)
          || not (aggregate.rejected_accesses == result.coverage.rejected_accesses)
          || not (aggregate.emitted_line_references == result.coverage.emitted_line_references))
        invalid_argument
