-- ===== src/Batch/Level.antt =====
-- backend/src/cache/hierarchy/hierarchy_level_analysis.cpp, hierarchy_aggregation.cpp and
-- hierarchy_input_validation.cpp: the batch analysis of a task.
use Prim.Native.String.{String}
use text.Mathlib.Text.{◌==◌ as str_eq}
use yet_another_reuse_distan.Prelude.{
  ℕ, ◌+◌, ◌-◌, Bool, true, false, not, ◌&&◌, ◌||◌, List, [], ◌∷◌, ◌++◌, none, some, ltb, ◌==◌,
  if◌then◌else◌, length, Result, ok, throw, throw_if, ◌>>=◌, ◌>>◌, overflow_error, logic_error,
}
use yet_another_reuse_distan.Mapping.Address.{CacheGeometry}
use yet_another_reuse_distan.Mapping.Types.{
  CacheLineMapping, AddressBasis, absolute, image_relative, AccessOperation, unknown, load, store,
}
use yet_another_reuse_distan.Rd.Arithmetic.{u64_max}
use yet_another_reuse_distan.Batch.Csrd.{BatchCsrdResult, analyze_batch_csrd}
use yet_another_reuse_distan.Hierarchy.Types.{
  CacheLevelSummary, TaskHierarchySummary, TraceCoverage, LruAccessResult, HierarchyAccessEvent,
  at_l1, at_llc, at_memory,
}
use yet_another_reuse_distan.Hierarchy.Service.{checked_service_sum, finalize_hierarchy_service}
use yet_another_reuse_distan.Hierarchy.Level.{is_hit}
use yet_another_reuse_distan.Hierarchy.Task.{empty_task}

unfoldable pub checked_sum : ℕ → ℕ → Result ℕ
checked_sum left right = do throw_if (ltb (u64_max - left) right) overflow_error; ok (left + right)

-- The loop over the histogram.
unfoldable pub finite_references : ℕ → List (ℕ × ℕ) → Result ℕ
unfolding checked_sum
finite_references finite [] = ok finite
finite_references finite ((distance, count) ∷ entries) = do
  finite' ← checked_sum finite count
  finite_references finite' entries

unfoldable pub contains : ℕ → List ℕ → Bool
contains k [] = false
contains k (j ∷ l) = k == j || contains k l

-- The set of block numbers, as a list with no number twice.
unfoldable pub blocks_of : List CacheLineMapping → List ℕ
unfolding contains
blocks_of [] = []
blocks_of (mapping ∷ mappings) =
    let rest = blocks_of mappings in
    if contains mapping.decoded.block_number rest then rest else mapping.decoded.block_number ∷ rest

-- `size_t` has 64 bits, so that its counts convert.
unfoldable pub summarize_hierarchy_level :
    BatchCsrdResult → List CacheLineMapping → Result CacheLevelSummary
unfolding finite_references blocks_of
summarize_hierarchy_level analysis mappings = do
  throw_if (not (length analysis.accesses == length mappings)) logic_error
  misses ← checked_sum analysis.cold_misses analysis.replacement_misses
  lookups ← checked_sum analysis.hits misses
  throw_if (not (lookups == length mappings)) logic_error
  finite ← finite_references 0 analysis.histogram
  references ← checked_sum analysis.hits analysis.replacement_misses
  throw_if (not (finite == references)) logic_error
  let unique = length (blocks_of mappings)
  throw_if (not (unique == analysis.cold_misses)) logic_error
  ok (record {
    lookups = length mappings;
    hits = analysis.hits;
    misses = misses;
    cold_misses = analysis.cold_misses;
    replacement_misses = analysis.replacement_misses;
    unique_lines = unique;
    csrd_histogram = analysis.histogram;
  })

pub record BatchCacheLevelResult : Type 0 where
  pub summary : CacheLevelSummary
  pub mappings : List CacheLineMapping
  pub accesses : List LruAccessResult

unfoldable pub analyze_hierarchy_level :
    List CacheLineMapping → CacheGeometry → Result BatchCacheLevelResult
unfolding summarize_hierarchy_level
analyze_hierarchy_level mappings g = do
  analysis ← analyze_batch_csrd mappings g
  summary ← summarize_hierarchy_level analysis mappings
  ok (record { summary = summary; mappings = mappings; accesses = analysis.accesses })

unfoldable pub same_basis : AddressBasis → AddressBasis → Bool
same_basis absolute absolute = true
same_basis image_relative image_relative = true
same_basis _ _ = false

unfoldable pub same_operation : AccessOperation → AccessOperation → Bool
same_operation unknown unknown = true
same_operation load load = true
same_operation store store = true
same_operation _ _ = false

unfoldable pub same_reference : CacheLineMapping → CacheLineMapping → Bool
unfolding same_basis same_operation
same_reference left right =
    left.source_access_ordinal == right.source_access_ordinal
    && left.line_span_ordinal == right.line_span_ordinal
    && str_eq left.object_id right.object_id
    && left.object_byte_offset == right.object_byte_offset
    && same_basis left.address_basis right.address_basis
    && left.decoded.address == right.decoded.address
    && left.source_object_byte_offset == right.source_object_byte_offset
    && left.source_access_size == right.source_access_size
    && left.source_linked_byte_address == right.source_linked_byte_address
    && same_operation left.operation right.operation

-- The rows of the two levels that are still to be paired, and what was made of the others.
pub record Pairing : Type 0 where
  pub llc_mappings : List CacheLineMapping
  pub llc_accesses : List LruAccessResult
  pub summary : TaskHierarchySummary
  pub events : List HierarchyAccessEvent

-- A hit of the first level.
unfoldable pub pair_hit : CacheLineMapping → LruAccessResult → Pairing → Result Pairing
pair_hit mapping access p = do
  count ← checked_service_sum p.summary.l1_first_hit_count 1
  ok (record p {
    summary = record p.summary { l1_first_hit_count = count };
    events =
        p.events
        ++ record {
          l1_mapping = mapping;
          l1 = access;
          llc_mapping = none;
          llc = none;
          first_service = at_l1;
        }
          ∷ [];
  })

unfoldable pub count_last : LruAccessResult → TaskHierarchySummary → Result TaskHierarchySummary
count_last access s = elim (is_hit access.outcome) [
  | true ↦ do
    count ← checked_service_sum s.llc_first_hit_count 1
    ok (record s { llc_first_hit_count = count })
  | false ↦ do
    count ← checked_service_sum s.all_cache_misses 1
    ok (record s { all_cache_misses = count })
]

-- A miss of the first level takes the next row of the last. The two lists of the last level have
-- one length, which was checked before.
unfoldable pub pair_miss :
    CacheLineMapping
    → LruAccessResult
    → List CacheLineMapping
    → List LruAccessResult
    → Pairing
    → Result Pairing
unfolding count_last same_reference
pair_miss mapping access (row ∷ rows) (seen ∷ rest) p = do
  throw_if (not (same_reference mapping row)) logic_error
  s ← count_last seen p.summary
  ok (record {
    llc_mappings = rows;
    llc_accesses = rest;
    summary = s;
    events =
        p.events
        ++ record {
          l1_mapping = mapping;
          l1 = access;
          llc_mapping = some row;
          llc = some seen;
          first_service = if is_hit seen.outcome then at_llc else at_memory;
        }
          ∷ [];
  })
pair_miss mapping access _ _ p = throw logic_error

unfoldable pub pair_rows : List CacheLineMapping → List LruAccessResult → Pairing → Result Pairing
unfolding pair_hit pair_miss
pair_rows (mapping ∷ mappings) (access ∷ accesses) p = do
  p' ←
      (if is_hit access.outcome
        then pair_hit mapping access p
        else pair_miss mapping access p.llc_mappings p.llc_accesses p)
  pair_rows mappings accesses p'
pair_rows _ _ p = ok p

pub record BatchTaskHierarchyResult : Type 0 where
  pub summary : TaskHierarchySummary
  pub events : List HierarchyAccessEvent

unfoldable pub is_ragged : BatchCacheLevelResult → Bool
is_ragged level =
    not (length level.accesses == length level.mappings)
    || not (length level.mappings == level.summary.lookups)

unfoldable pub aggregate_hierarchy_task :
    String
    → TraceCoverage
    → BatchCacheLevelResult
    → BatchCacheLevelResult
    → Result BatchTaskHierarchyResult
unfolding pair_rows is_ragged
aggregate_hierarchy_task task_id coverage l1 llc = do
  throw_if (is_ragged l1) logic_error
  throw_if (is_ragged llc) logic_error
  p ← pair_rows l1.mappings l1.accesses (record {
    llc_mappings = llc.mappings;
    llc_accesses = llc.accesses;
    summary = empty_task task_id;
    events = [];
  })
  throw_if (not (length p.llc_accesses == 0)) logic_error
  summary ← finalize_hierarchy_service (record p.summary {
    source_accesses = coverage.source_accesses;
    modeled_accesses = l1.summary.lookups;
    l1 = l1.summary;
    llc = llc.summary;
    coverage = coverage;
  })
  ok (record { summary = summary; events = p.events })
