-- ===== src/Tests/Modules.antt =====
-- The analysis of a module of one task.
use yet_another_reuse_distan.Prelude.{
  ℕ, ◌+◌, ◌≡◌, refl, true, false, [], ◌∷◌, List, Option, none, ok,
}
use yet_another_reuse_distan.Tests.Data.{platform, clock}
use yet_another_reuse_distan.Tests.Levels.{two_levels, whole_line, quiet, value_or}
use yet_another_reuse_distan.Bits.PowerOfTwo.{is_power_of_two}
use yet_another_reuse_distan.Bits.Lowbit.{lowbit}
use yet_another_reuse_distan.Mapping.Address.{partition, cache_set_count, decode_cache_address}
use yet_another_reuse_distan.Mapping.Address
use yet_another_reuse_distan.Mapping.LineMapping.{
  for_each_cache_line, validate_range, line_loop, row, advance,
}
use yet_another_reuse_distan.Rd.RecencyIndex
use yet_another_reuse_distan.Rd.Exact
use yet_another_reuse_distan.Rd.Slots.{emplace}
use yet_another_reuse_distan.Rd.Fenwick.{update, update_loop, bump}
use yet_another_reuse_distan.Rd.Arithmetic.{
  csrd_checked_add, csrd_checked_add_within, csrd_storage_size,
}
use yet_another_reuse_distan.Mapping.Resolved.{
  for_each_budgeted_line, for_each_access_line, range_of, annotate, budgeted,
}
use yet_another_reuse_distan.Trace.Budget.{
  TraceEmissionLimits, ExpansionBudget, emission_budget, consume, consume_line_reference,
  consume_source_access, consume_loop_iterations,
}
use yet_another_reuse_distan.Trace.Stream
use yet_another_reuse_distan.Trace.Stream.{TaskRoot, Resolve, enter_loop, meet}
use yet_another_reuse_distan.Prelude.Maps.{find, insert}
use yet_another_reuse_distan.Hierarchy.Types.{complete}
use yet_another_reuse_distan.Hierarchy.Service.{
  checked_service_sum, finalize_hierarchy_service, invariants_of, ratio_of,
}
use yet_another_reuse_distan.Hierarchy.Level.{
  summarize_streaming_level, sum_histogram, add_streaming_coverage,
}
use yet_another_reuse_distan.Hierarchy.Task.{
  make_task, finish, accept, observe_line, is_misplaced, propagate, count_service, deliver_event,
  is_absolute, is_known, event_of, no_coverage,
}
use yet_another_reuse_distan.Hierarchy.Streaming
use yet_another_reuse_distan.Hierarchy.Streaming.{
  StreamingHierarchyResult, Surroundings, analyze_streaming_hierarchy,
}
use yet_another_reuse_distan.Hierarchy.Streaming.Totals.{EachServes, IsSum}
use yet_another_reuse_distan.Hierarchy.Streaming.Sound.{analyze_streaming_hierarchy-Sound}
use yet_another_reuse_distan.Output.Telemetry.{AnalysisTelemetryCollector}

abbrev around : Surroundings ℕ
around = record {
  platform = platform;
  clocks = λ id n. (clock, clock);
  clock = λ n. n;
  buckets = λ r. 8;
  options = quiet;
}

-- Each access is a whole line at its address.
abbrev resolve_line : Resolve ℕ
resolve_line address id ordinal coverage = ok (
  record whole_line { linked_byte_address = address; source_access_ordinal = ordinal },
  record coverage { resolved_accesses = coverage.resolved_accesses + 1 },
)

abbrev roots : List (TaskRoot ℕ)
roots =
    record { task_id = "main"; excluded = 0; visits = enter_loop 2 ∷ meet 64 ∷ meet 128 ∷ [] } ∷ []

abbrev expanded : ExpansionBudget
expanded = record {
  limits = record { expanded_nodes = 100; inline_call_depth = 8 };
  loop_limits = record { single_loop_iterations = 10; cumulative_loop_iterations = 20 };
  expanded_nodes = 3;
  loop_iterations = 0;
  maximum_inline_depth = 0;
}

abbrev limits : TraceEmissionLimits
limits = record { emitted_source_accesses = 10; emitted_line_references = 10 }

abbrev nothing : StreamingHierarchyResult × (Option AnalysisTelemetryCollector × ℕ)
nothing = (
  record {
    tasks = [];
    coverage = no_coverage;
    event_delivery = record { emitted_events = 0; events_truncated = false };
    execution_statistics = record { maximum_inline_depth = 0; loop_iterations_expanded = 0 };
  },
  (none, 0),
)

analyzed : StreamingHierarchyResult × (Option AnalysisTelemetryCollector × ℕ)
analyzed =
    value_or nothing
      (analyze_streaming_hierarchy around resolve_line roots expanded two_levels limits none 0)

analysis_returns :
    analyze_streaming_hierarchy around resolve_line roots expanded two_levels limits none 0
    ≡ ok (analyzed.0, (analyzed.1.0, analyzed.1.1))
unfolding analyzed value_or analyze_streaming_hierarchy Streaming.streaming_sink Streaming.timed
    Streaming.begin_active Streaming.accept_active Streaming.finish_active Streaming.disagrees
    Streaming.start_interval Streaming.finish_interval Stream.stream_resolved_task_accesses
    Stream.stream_tasks Stream.stream_task Stream.unroll Stream.emit Stream.coverage_delta
    emission_budget consume consume_source_access consume_loop_iterations make_task Exact.make
    accept for_each_budgeted_line for_each_access_line for_each_cache_line validate_range line_loop
    row advance cache_set_count Address.validate is_power_of_two decode_cache_address partition
    range_of annotate budgeted consume_line_reference observe_line is_misplaced propagate
    count_service deliver_event event_of is_absolute is_known checked_service_sum Exact.observe
    Exact.is_inconsistent Exact.set_state Exact.count_access Exact.count_cold RecencyIndex.make
    RecencyIndex.observe RecencyIndex.record_key find insert csrd_checked_add
    csrd_checked_add_within csrd_storage_size emplace update update_loop bump lowbit finish complete
    summarize_streaming_level sum_histogram finalize_hierarchy_service invariants_of ratio_of
    add_streaming_coverage
analysis_returns = refl

analyze_streaming_hierarchy-Sound_example :
    EachServes analyzed.0.tasks
    × IsSum analyzed.0.coverage analyzed.0.tasks
    × (complete analyzed.0.coverage ≡ true)
analyze_streaming_hierarchy-Sound_example =
    analyze_streaming_hierarchy-Sound around resolve_line roots expanded two_levels limits none
      analyzed.1.0 0 analyzed.1.1 analyzed.0 analysis_returns
