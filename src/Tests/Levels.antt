-- ===== src/Tests/Levels.antt =====
-- The counters of a task over two levels.
use yet_another_reuse_distan.Prelude.{
  ℕ, ◌≡◌, ◌↔◌, refl, true, false, [], ◌∷◌, none, ok, Result, throw, arith, length,
}
use yet_another_reuse_distan.Tests.Data.{platform, small_cache, clock}
use yet_another_reuse_distan.Bits.PowerOfTwo.{is_power_of_two}
use yet_another_reuse_distan.Bits.Lowbit.{lowbit}
use yet_another_reuse_distan.Mapping.Address.{partition, cache_set_count, decode_cache_address}
use yet_another_reuse_distan.Mapping.Address
use yet_another_reuse_distan.Mapping.LineMapping.{
  for_each_cache_line, validate_range, line_loop, row, advance,
}
use yet_another_reuse_distan.Rd.RecencyIndex
use yet_another_reuse_distan.Rd.Exact
use yet_another_reuse_distan.Rd.Slots.{emplace}
use yet_another_reuse_distan.Rd.Fenwick.{update, update_loop, bump}
use yet_another_reuse_distan.Mapping.Types.{absolute, load}
use yet_another_reuse_distan.Mapping.Resolved.{
  ResolvedAccess, for_each_budgeted_line, for_each_access_line, range_of, annotate, budgeted,
}
use yet_another_reuse_distan.Trace.Budget.{TraceEmissionBudget, consume_line_reference}
use yet_another_reuse_distan.Rd.RecencyIndex.{RecencyIndex}
use yet_another_reuse_distan.Rd.Arithmetic.{
  csrd_checked_add, csrd_checked_add_within, csrd_storage_size,
}
use yet_another_reuse_distan.Rd.Exact.{ExactCsrdAnalyzer, ExactCsrdSummary, empty_summary}
use yet_another_reuse_distan.Rd.Statistics.{
  CsrdStatistics, statistics, sum_statistics, index_statistics, add_statistics, active_in,
  statistics-totals,
}
use yet_another_reuse_distan.Prelude.Maps.{total, find, insert}
use yet_another_reuse_distan.Hierarchy.Level.{Rising}
use yet_another_reuse_distan.Hierarchy.Types.{
  AnalysisHierarchy, TaskHierarchySummary, TraceCoverage,
}
use yet_another_reuse_distan.Hierarchy.Service.{
  checked_service_sum, Serves, checked, finalize_hierarchy_service, finalize_hierarchy_service_iff,
}
use yet_another_reuse_distan.Hierarchy.Task.{
  StreamingHierarchyTask, StreamingHierarchyOptions, World, empty_task, finish, accept,
  observe_line, is_misplaced, propagate, count_service, deliver_event, is_absolute, is_known,
}
use yet_another_reuse_distan.Hierarchy.Task.Serving.{Serving, closed, finish-Serving}
use yet_another_reuse_distan.Hierarchy.Task.Runs.{accept-Serving}

-- Three references: one hit, two cold misses that miss the last level as well.
abbrev seen : ExactCsrdSummary
seen = record {
  lookups = 3;
  hits = 1;
  cold_misses = 2;
  replacement_misses = 0;
  unique_lines = 2;
  histogram = (0, 1) ∷ [];
}

abbrev missed : ExactCsrdSummary
missed = record {
  lookups = 2;
  hits = 0;
  cold_misses = 2;
  replacement_misses = 0;
  unique_lines = 2;
  histogram = [];
}

abbrev analyzer : ExactCsrdSummary → ExactCsrdAnalyzer
analyzer s = record {
  geometry = small_cache;
  set_count = 2;
  measure_statistics = false;
  summary = s;
  sets = [];
}

abbrev pub two_levels : AnalysisHierarchy
two_levels = record {
  core_id = 0;
  l1 = record { name = "L1_0"; role = "L1"; geometry = small_cache };
  llc = record { name = "L2"; role = "LLC"; geometry = small_cache };
  memory_name = "Memory";
}

abbrev task : StreamingHierarchyTask
task = record {
  hierarchy = two_levels;
  l1 = analyzer seen;
  llc = analyzer missed;
  summary = record (empty_task "main") {
    source_accesses = 3;
    modeled_accesses = 3;
    l1_first_hit_count = 1;
    all_cache_misses = 2;
  };
  next_span_ordinal = 1;
}

task-Serving : Serving task
unfolding total Rising
task-Serving = record {
  l1 = record { lookups = refl; finite = refl; unique = refl; rising = (omega arith, tt) };
  llc = record { lookups = refl; finite = refl; unique = refl; rising = tt };
  l1_hits = refl;
  llc_hits = refl;
  memory = refl;
  modeled = refl;
  small = omega arith;
  input = refl;
}

abbrev world : World ℕ
world = record {
  task = task;
  delivery = record { emitted_events = 0; events_truncated = false };
  state = 0;
}

abbrev pub quiet : StreamingHierarchyOptions ℕ
quiet = record { event_sink = none; event_limit = 0; statistics_sink = none }

abbrev coverage : TraceCoverage
coverage = record {
  source_accesses = 3;
  resolved_accesses = 3;
  rejected_accesses = 0;
  emitted_line_references = 0;
}

finish-Serving_example :
    (result : TaskHierarchySummary) × (finish platform (λ r. 8) quiet world coverage
      ≡ ok (result, 0))
    × (result ≡ checked (closed task coverage))
    × Serves (closed task coverage)
finish-Serving_example =
    finish-Serving platform (λ r. 8) quiet world coverage task-Serving refl refl refl refl refl

finalize_hierarchy_service_iff_example :
    (finalize_hierarchy_service (closed task coverage) ≡ ok (checked (closed task coverage))) ↔ (
      Serves (closed task coverage)
      × (checked (closed task coverage) ≡ checked (closed task coverage)))
finalize_hierarchy_service_iff_example =
    finalize_hierarchy_service_iff (closed task coverage) (checked (closed task coverage))
      (unfold closed in omega arith)

-- A measured analyzer with one set.
abbrev measured : ExactCsrdAnalyzer
measured = record {
  geometry = small_cache;
  set_count = 2;
  measure_statistics = true;
  summary = seen;
  sets =
      (
        0,
        record {
          slots = (7, 1) ∷ [];
          tree = 0 ∷ 1 ∷ [];
          capacity_floor = 1;
          slot_limit = 9;
          capacity = 1;
          next_slot = 2;
          active_count = 1;
          measure_statistics = true;
          compaction_count = 0;
          compaction_time_ns = 0;
          maximum_compaction_scratch_bytes = 0;
        },
      )
      ∷ [];
}

abbrev snapshot : CsrdStatistics
snapshot = record {
  touched_sets = 1;
  active_history_entries = 1;
  fenwick_slots = 1;
  allocated_fenwick_elements = 2;
  hash_buckets = 8;
  histogram_keys = 1;
  compaction_count = 0;
  compaction_time_ns = 0;
  maximum_compaction_scratch_bytes = 0;
}

measured_once : statistics platform (λ r. 8) measured ≡ ok snapshot
unfolding statistics sum_statistics index_statistics add_statistics csrd_checked_add
    csrd_checked_add_within
measured_once = refl

statistics-totals_example :
    (1 ≡ active_in platform (λ r. 8) measured.sets)
    × (1 ≡ length measured.sets)
    × (1 ≡ length seen.histogram)
statistics-totals_example = statistics-totals platform (λ r. 8) measured snapshot measured_once

abbrev pub whole_line : ResolvedAccess
whole_line = record {
  object_id = "buffer";
  object_byte_offset = 0;
  access_size = 8;
  linked_byte_address = 64;
  address_basis = absolute;
  operation = load;
  source_access_ordinal = 0;
}

abbrev pub cold_world : World ℕ
cold_world = record {
  task = record {
    hierarchy = two_levels;
    l1 = analyzer empty_summary;
    llc = analyzer empty_summary;
    summary = empty_task "main";
    next_span_ordinal = 0;
  };
  delivery = record { emitted_events = 0; events_truncated = false };
  state = 0;
}

abbrev pub budget : TraceEmissionBudget
budget = record {
  limits = record { emitted_source_accesses = 10; emitted_line_references = 10 };
  source_accesses = 1;
  line_references = 0;
}

-- The value of a result that is not an exception, and another one else.
unfoldable pub value_or : {A : Type 0} → A → Result A → A
value_or a (ok b) = b
value_or a (throw e) = a

after : TraceEmissionBudget × World ℕ
after =
    value_or (budget, cold_world)
      (accept platform (λ n. (clock, clock)) quiet whole_line (budget, cold_world))

accepted : accept platform (λ n. (clock, clock)) quiet whole_line (budget, cold_world) ≡ ok after
unfolding after value_or accept for_each_budgeted_line for_each_access_line for_each_cache_line
    validate_range line_loop row advance cache_set_count Address.validate is_power_of_two
    decode_cache_address partition range_of annotate budgeted consume_line_reference observe_line
    is_misplaced propagate count_service deliver_event is_absolute is_known checked_service_sum
    Exact.observe Exact.is_inconsistent Exact.set_state Exact.count_access Exact.count_cold
    RecencyIndex.make RecencyIndex.observe RecencyIndex.record_key find insert csrd_checked_add
    csrd_checked_add_within csrd_storage_size emplace update update_loop bump lowbit
accepted = refl

cold_world-Serving : Serving cold_world.task
unfolding total Rising
cold_world-Serving = record {
  l1 = record { lookups = refl; finite = refl; unique = refl; rising = tt };
  llc = record { lookups = refl; finite = refl; unique = refl; rising = tt };
  l1_hits = refl;
  llc_hits = refl;
  memory = refl;
  modeled = refl;
  small = omega arith;
  input = refl;
}

accept-Serving_example : Serving after.1.task
accept-Serving_example =
    accept-Serving platform (λ n. (clock, clock)) quiet whole_line budget after.0 cold_world after.1
      cold_world-Serving accepted
