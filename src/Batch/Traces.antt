-- ===== src/Batch/Traces.antt =====
-- backend/src/trace/output/resolved_access.cpp and mapped_trace.cpp: the tasks of a module are
-- collected from the source stream, and mapped to cache lines. A hash set of names is a list.
pub mod Collected
pub mod Accepted
use Prim.Native.String.{String, compare as compare_text}
use Prim.Native.Nat.{Ordering}
use text.Mathlib.Text.{◌==◌ as str_eq}
use yet_another_reuse_distan.Prelude.{
  ℕ, ◌+◌, ◌%◌, ◌^◌, Bool, true, false, not, ◌&&◌, ◌||◌, List, [], ◌∷◌, ◌++◌, ◌==◌, if◌then◌else◌,
  length, ltb, Result, ok, throw_if, ◌>>=◌, ◌>>◌, invalid_argument,
}
use yet_another_reuse_distan.Mapping.Address.{CacheGeometry, DecodedCacheAddress, cache_set_count}
use yet_another_reuse_distan.Mapping.Types.{CacheLineMapping, AddressBasis}
use yet_another_reuse_distan.Mapping.Resolved.{ResolvedAccess, map_access_lines}
use yet_another_reuse_distan.Hierarchy.Types.{TraceCoverage, complete}
use yet_another_reuse_distan.Rd.Arithmetic.{u64_max}
use yet_another_reuse_distan.Trace.Budget.{TraceEmissionLimits, ExpansionBudget, emission_budget}
use yet_another_reuse_distan.Trace.Stream.{
  TaskAccessSink, TaskRoot, Resolve, stream_resolved_task_accesses,
}

pub record ResolvedTaskTrace : Type 0 where
  pub task_id : String
  pub accesses : List ResolvedAccess
  pub coverage : TraceCoverage
  pub excluded_opaque_call_sites : ℕ

pub record ResolvedTaskTraceResult : Type 0 where
  pub tasks : List ResolvedTaskTrace
  pub coverage : TraceCoverage
  pub excluded_opaque_call_sites : ℕ

abbrev pub no_coverage : TraceCoverage
no_coverage = record {
  source_accesses = 0;
  resolved_accesses = 0;
  rejected_accesses = 0;
  emitted_line_references = 0;
}

-- `tasks.back()`, which a task has begun.
unfoldable pub change_back :
    (ResolvedTaskTrace → ResolvedTaskTrace) → List ResolvedTaskTrace → List ResolvedTaskTrace
change_back change [] = []
change_back change (task ∷ []) = change task ∷ []
change_back change (task ∷ next ∷ tasks) = task ∷ change_back change (next ∷ tasks)

abbrev pub add_access : ResolvedAccess → ResolvedTaskTrace → ResolvedTaskTrace
add_access access task = record task { accesses = task.accesses ++ access ∷ [] }

-- The sink of `resolved_task_traces`, whose state is the tasks so far.
unfoldable pub collector : TaskAccessSink (List ResolvedTaskTrace)
unfolding change_back
collector = record {
  begin_task = λ (budget, tasks) task_id excluded. ok (
    budget,
    tasks
        ++ record {
          task_id = task_id;
          accesses = [];
          coverage = no_coverage;
          excluded_opaque_call_sites = excluded;
        }
          ∷ [],
  );
  access = λ (budget, tasks) _ access. ok (budget, change_back (add_access access) tasks);
  end_task = λ (budget, tasks) _ coverage.
      ok (budget, change_back (λ task. record task { coverage = coverage }) tasks);
}

unfoldable pub resolved_task_traces :
    {A : Type 0} → Resolve A → List (TaskRoot A) → ExpansionBudget → Result ResolvedTaskTraceResult
unfolding collector emission_budget stream_resolved_task_accesses
resolved_task_traces resolve roots expanded =
    let unlimited : TraceEmissionLimits = record {
      emitted_source_accesses = u64_max;
      emitted_line_references = u64_max;
    } in
    do
      (summary, (budget, tasks)) ←
          stream_resolved_task_accesses resolve collector roots expanded
            (emission_budget unlimited, [])
      ok (record {
        tasks = tasks;
        coverage = summary.coverage;
        excluded_opaque_call_sites = summary.excluded_opaque_call_sites;
      })

unfoldable pub equal_coverage : TraceCoverage → TraceCoverage → Bool
equal_coverage left right =
    left.source_accesses == right.source_accesses
    && left.resolved_accesses == right.resolved_accesses
    && left.rejected_accesses == right.rejected_accesses
    && left.emitted_line_references == right.emitted_line_references

unfoldable pub names : String → List String → Bool
names id [] = false
names id (other ∷ ids) = str_eq id other || names id ids

abbrev pub is_unnamed : String → Bool
is_unnamed String.[] = true
is_unnamed (String.◌∷◌ c s) = false

-- The variables of the loop over the tasks.
pub record TaskTally : Type 0 where
  pub task_ids : List String
  pub source_accesses : ℕ
  pub resolved_accesses : ℕ
  pub rejected_accesses : ℕ
  pub excluded_opaque_call_sites : ℕ

unfoldable pub tally_task : ResolvedTaskTrace → TaskTally → Result TaskTally
unfolding names complete
tally_task task t = do
  throw_if (is_unnamed task.task_id || names task.task_id t.task_ids) invalid_argument
  throw_if
      (not (complete task.coverage)
        || not (task.coverage.emitted_line_references == 0)
        || not (task.coverage.resolved_accesses == length task.accesses))
      invalid_argument
  ok (record {
    task_ids = task.task_id ∷ t.task_ids;
    source_accesses = (t.source_accesses + task.coverage.source_accesses) % 2 ^ 64;
    resolved_accesses = (t.resolved_accesses + task.coverage.resolved_accesses) % 2 ^ 64;
    rejected_accesses = (t.rejected_accesses + task.coverage.rejected_accesses) % 2 ^ 64;
    excluded_opaque_call_sites =
        (t.excluded_opaque_call_sites + task.excluded_opaque_call_sites) % 2 ^ 64;
  })

unfoldable pub tally_tasks : List ResolvedTaskTrace → TaskTally → Result TaskTally
unfolding tally_task
tally_tasks [] t = ok t
tally_tasks (task ∷ tasks) t = do t' ← tally_task task t; tally_tasks tasks t'

abbrev pub empty_tally : TaskTally
empty_tally = record {
  task_ids = [];
  source_accesses = 0;
  resolved_accesses = 0;
  rejected_accesses = 0;
  excluded_opaque_call_sites = 0;
}

-- No task has a line reference yet, so that the sum of them is zero.
abbrev pub aggregate_of : TaskTally → TraceCoverage
aggregate_of t = record {
  source_accesses = t.source_accesses;
  resolved_accesses = t.resolved_accesses;
  rejected_accesses = t.rejected_accesses;
  emitted_line_references = 0;
}

unfoldable pub validate_resolved_task_result : ResolvedTaskTraceResult → Result (Unit {0})
unfolding tally_tasks equal_coverage complete
validate_resolved_task_result resolved = do
  throw_if (length resolved.tasks == 0) invalid_argument
  t ← tally_tasks resolved.tasks empty_tally
  throw_if
      (not (complete resolved.coverage)
        || not (resolved.coverage.emitted_line_references == 0)
        || not (equal_coverage (aggregate_of t) resolved.coverage))
      invalid_argument
  throw_if (not (t.excluded_opaque_call_sites == resolved.excluded_opaque_call_sites))
      invalid_argument

pub record MappedTaskTrace : Type 0 where
  pub task_id : String
  pub accesses : List CacheLineMapping
  pub coverage : TraceCoverage
  pub excluded_opaque_call_sites : ℕ

pub record CacheLineAddressMapping : Type 0 where
  pub object_id : String
  pub object_byte_offset : ℕ
  pub address_basis : AddressBasis
  pub decoded : DecodedCacheAddress

pub record MappedTaskTraceResult : Type 0 where
  pub tasks : List MappedTaskTrace
  pub coverage : TraceCoverage
  pub excluded_opaque_call_sites : ℕ
  pub mappings : List CacheLineAddressMapping

unfoldable pub map_resolved_accesses :
    List ResolvedAccess → CacheGeometry → Result (List CacheLineMapping)
unfolding map_access_lines
map_resolved_accesses [] g = ok []
map_resolved_accesses (access ∷ accesses) g = do
  mappings ← map_access_lines access g
  rest ← map_resolved_accesses accesses g
  ok (mappings ++ rest)

abbrev pub mapping_of : CacheLineMapping → CacheLineAddressMapping
mapping_of m = record {
  object_id = m.object_id;
  object_byte_offset = m.object_byte_offset;
  address_basis = m.address_basis;
  decoded = m.decoded;
}

-- The order of the keys, by object and offset.
abbrev pub key_before : CacheLineMapping → CacheLineAddressMapping → Bool
key_before m known = elim (compare_text m.object_id known.object_id) [
  | Ordering.lt ↦ true
  | Ordering.eq ↦ ltb m.object_byte_offset known.object_byte_offset
  | Ordering.gt ↦ false
]

-- `emplace`, which keeps the first entry of a key, in the order of the keys.
unfoldable pub emplace_mapping :
    CacheLineMapping → List CacheLineAddressMapping → List CacheLineAddressMapping
emplace_mapping m [] = mapping_of m ∷ []
emplace_mapping m (known ∷ table) =
    let rest = emplace_mapping m table in
    if str_eq m.object_id known.object_id && m.object_byte_offset == known.object_byte_offset
    then known ∷ table
    else if key_before m known
    then mapping_of m ∷ known ∷ table
    else known ∷ rest

unfoldable pub emplace_mappings :
    List CacheLineMapping → List CacheLineAddressMapping → List CacheLineAddressMapping
unfolding emplace_mapping
emplace_mappings [] table = table
emplace_mappings (m ∷ mappings) table = emplace_mappings mappings (emplace_mapping m table)

unfoldable pub collect_mappings :
    List MappedTaskTrace → List CacheLineAddressMapping → List CacheLineAddressMapping
unfolding emplace_mappings
collect_mappings [] table = table
collect_mappings (task ∷ tasks) table =
    collect_mappings tasks (emplace_mappings task.accesses table)

abbrev pub set_emitted : ℕ → TraceCoverage → TraceCoverage
set_emitted count coverage = record coverage { emitted_line_references = count }

unfoldable pub map_task : ResolvedTaskTrace → CacheGeometry → Result MappedTaskTrace
unfolding map_resolved_accesses
map_task task g = do
  accesses ← map_resolved_accesses task.accesses g
  ok (record {
    task_id = task.task_id;
    accesses = accesses;
    coverage = set_emitted (length accesses) task.coverage;
    excluded_opaque_call_sites = task.excluded_opaque_call_sites;
  })

-- The loop over the tasks, with the sum of the line references.
unfoldable pub map_tasks :
    List ResolvedTaskTrace → CacheGeometry → ℕ → Result (ℕ × List MappedTaskTrace)
unfolding map_task
map_tasks [] g emitted = ok (emitted, [])
map_tasks (task ∷ tasks) g emitted = do
  mapped ← map_task task g
  (emitted', rest) ← map_tasks tasks g ((emitted + length mapped.accesses) % 2 ^ 64)
  ok (emitted', mapped ∷ rest)

unfoldable pub map_resolved_task_traces :
    ResolvedTaskTraceResult → CacheGeometry → Result MappedTaskTraceResult
unfolding validate_resolved_task_result map_tasks collect_mappings
map_resolved_task_traces resolved g = do
  _ ← cache_set_count g
  validate_resolved_task_result resolved
  (emitted, tasks) ← map_tasks resolved.tasks g 0
  ok (record {
    tasks = tasks;
    coverage = set_emitted emitted resolved.coverage;
    excluded_opaque_call_sites = resolved.excluded_opaque_call_sites;
    mappings = collect_mappings tasks [];
  })
