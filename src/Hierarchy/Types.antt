-- ===== src/Hierarchy/Types.antt =====
-- The data of backend/include/yarda/cache/hierarchy_summary.hpp, hierarchy_model.hpp,
-- hierarchy_analysis.hpp and trace/trace_coverage.hpp. A ratio of doubles is kept as its two counts.
use Prim.Native.String.{String}
use yet_another_reuse_distan.Prelude.{ℕ, Bool, ◌&&◌, List, Option, ◌==◌}
use yet_another_reuse_distan.Mapping.Address.{CacheGeometry}
use yet_another_reuse_distan.Mapping.Types.{CacheLineMapping}
use yet_another_reuse_distan.Rd.Exact.{LruAccessOutcome}

pub record TraceCoverage : Type 0 where
  pub source_accesses : ℕ
  pub resolved_accesses : ℕ
  pub rejected_accesses : ℕ
  pub emitted_line_references : ℕ

unfoldable pub complete : TraceCoverage → Bool
complete c = c.rejected_accesses == 0 && c.source_accesses == c.resolved_accesses

pub record CacheLevelSummary : Type 0 where
  pub lookups : ℕ
  pub hits : ℕ
  pub misses : ℕ
  pub cold_misses : ℕ
  pub replacement_misses : ℕ
  pub unique_lines : ℕ
  pub csrd_histogram : List (ℕ × ℕ)

pub record HierarchyInvariants : Type 0 where
  pub level_conservation_l1 : Bool
  pub level_conservation_llc : Bool
  pub llc_input_matches_l1_misses : Bool
  pub first_service_conservation : Bool
  pub all_passed : Bool

pub record Ratio : Type 0 where
  pub numerator : ℕ
  pub denominator : ℕ

pub record TaskHierarchySummary : Type 0 where
  pub task_id : String
  pub source_accesses : ℕ
  pub modeled_accesses : ℕ
  pub l1 : CacheLevelSummary
  pub llc : CacheLevelSummary
  pub l1_first_hit_count : ℕ
  pub llc_first_hit_count : ℕ
  pub all_cache_misses : ℕ
  pub l1_first_hit_ratio : Option Ratio
  pub llc_first_hit_ratio : Option Ratio
  pub all_cache_miss_ratio : Option Ratio
  pub coverage : TraceCoverage
  pub invariants : HierarchyInvariants

pub record AnalysisCacheLevel : Type 0 where
  pub name : String
  pub role : String
  pub geometry : CacheGeometry

pub record AnalysisHierarchy : Type 0 where
  pub core_id : ℕ
  pub l1 : AnalysisCacheLevel
  pub llc : AnalysisCacheLevel
  pub memory_name : String

pub record LruAccessResult : Type 0 where
  pub outcome : LruAccessOutcome
  pub reuse_distance : Option ℕ

pub data FirstServiceLevel : Type 0 where
  at_l1 at_llc at_memory : FirstServiceLevel

pub record HierarchyAccessEvent : Type 0 where
  pub l1_mapping : CacheLineMapping
  pub l1 : LruAccessResult
  pub llc_mapping : Option CacheLineMapping
  pub llc : Option LruAccessResult
  pub first_service : FirstServiceLevel
