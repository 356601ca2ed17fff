-- ===== src/Tests/Batches.antt =====
-- The batch analysis of a program of two tasks, from its accesses on.
use yet_another_reuse_distan.Prelude.{
  ℕ, ◌+◌, ◌%◌, ◌^◌, ◌≡◌, refl, true, false, [], ◌∷◌, List, none, some, ok, get_or, arith,
}
use yet_another_reuse_distan.Tests.Levels.{two_levels, value_or}
use yet_another_reuse_distan.Bits.PowerOfTwo.{is_power_of_two}
use yet_another_reuse_distan.Bits.Lowbit.{lowbit}
use yet_another_reuse_distan.Mapping.Address.{partition, cache_set_count, decode_cache_address}
use yet_another_reuse_distan.Mapping.Address
use yet_another_reuse_distan.Mapping.Types.{absolute, load}
use yet_another_reuse_distan.Mapping.LineMapping.{
  for_each_cache_line, validate_range, line_loop, row, advance, push_back,
}
use yet_another_reuse_distan.Mapping.Resolved.{
  ResolvedAccess, map_access_lines, for_each_access_line, range_of, annotate,
}
use yet_another_reuse_distan.Rd.Fenwick.{bump, prefix_sum}
use yet_another_reuse_distan.Prelude.Maps.{find, insert, count_at}
use yet_another_reuse_distan.Hierarchy.Types.{TraceCoverage, complete}
use yet_another_reuse_distan.Hierarchy.Service.{
  checked_service_sum, finalize_hierarchy_service, invariants_of, ratio_of,
}
use yet_another_reuse_distan.Hierarchy.Level.{is_hit}
use yet_another_reuse_distan.Trace.Loop.{pos}
use yet_another_reuse_distan.Trace.Budget.{
  ExpansionBudget, emission_budget, consume, consume_source_access, consume_loop_iterations,
}
use yet_another_reuse_distan.Trace.Stream
use yet_another_reuse_distan.Trace.Stream.{TaskRoot, enter_loop, meet, Visit}
use yet_another_reuse_distan.Trace.Access
use yet_another_reuse_distan.Trace.Access.{
  AccessLayouts, AccessNode, ObjectAddressModel, PreparedAccess, Met, resolver, resolve_access,
}
use yet_another_reuse_distan.Trace.Access.Extent.{
  AllWords, Located, IsPlanned, resolve_access-Located,
}
use yet_another_reuse_distan.Batch.Csrd
use yet_another_reuse_distan.Batch.Level
use yet_another_reuse_distan.Batch.Traces
use yet_another_reuse_distan.Batch.Traces.{ResolvedTaskTraceResult, resolved_task_traces}
use yet_another_reuse_distan.Batch.Traces.Collected.{AllRoots, access_total, excluded_total}
use yet_another_reuse_distan.Batch.Traces.Accepted.{has_fresh_names}
use yet_another_reuse_distan.Batch.Module
use yet_another_reuse_distan.Batch.Module.{
  BatchHierarchyResult, analyze_batch_hierarchy, validate_hierarchy_input,
}
use yet_another_reuse_distan.Batch.Module.Sound.{
  EachAccounts, event_total, analyze_batch_hierarchy-EachAccounts,
}
use yet_another_reuse_distan.Batch.Module.Input.{validate_hierarchy_input-Collected}

-- An array of 128 bytes at address 64.
abbrev model : ObjectAddressModel
model = record { basis = absolute; objects = ("global::a", record { base = 64; size = 128 }) ∷ [] }

-- The bytes of an access start at its first index.
abbrev layouts : AccessLayouts
layouts = record {
  object_kind = λ id. some "array";
  prepare = λ node values. ok (
    record { structured = false; width = pos 1; extent = pos 0; steps = [] },
    some (record { offset = get_or values 0 (pos 0); size = pos 40 }),
  );
}

abbrev node : AccessNode
node = record {
  object = some "global::a";
  node_type = "Array";
  indices = Access.absent;
  op = some "load";
}

abbrev fresh : ℕ → PreparedAccess
fresh offset = record { numeric_values = pos offset ∷ []; plan = none }

abbrev at : ℕ → Visit Met
at offset = meet (record { node = node; prepared = fresh offset; exact_indices = true })

abbrev roots : List (TaskRoot Met)
roots =
    record { task_id = "main"; excluded = 0; visits = enter_loop 2 ∷ at 0 ∷ at 32 ∷ [] }
    ∷ record { task_id = "helper"; excluded = 0; visits = at 0 ∷ [] }
    ∷ []

abbrev expanded : ExpansionBudget
expanded = record {
  limits = record { expanded_nodes = 100; inline_call_depth = 10 };
  loop_limits = record { single_loop_iterations = 10; cumulative_loop_iterations = 20 };
  expanded_nodes = 4;
  loop_iterations = 0;
  maximum_inline_depth = 0;
}

abbrev nothing : ResolvedTaskTraceResult
nothing = record { tasks = []; coverage = Traces.no_coverage; excluded_opaque_call_sites = 0 }

collected : ResolvedTaskTraceResult
collected = value_or nothing (resolved_task_traces (resolver layouts model) roots expanded)

collects_tasks : resolved_task_traces (resolver layouts model) roots expanded ≡ ok collected
unfolding collected value_or resolved_task_traces Traces.collector Traces.change_back resolver
    resolve_access Access.resolve_first Access.conclude Access.check_node Access.check_kind
    Access.bytes_of Access.place Access.object_or_reject Access.find_object
    Access.has_invalid_indices Access.operation_of Stream.stream_resolved_task_accesses
    Stream.stream_tasks Stream.stream_task Stream.unroll Stream.emit Stream.coverage_delta
    emission_budget consume consume_source_access consume_loop_iterations
collects_tasks = refl

validate_hierarchy_input-Collected_example :
    (Traces.validate_resolved_task_result collected ≡ ok tt)
    × (validate_hierarchy_input collected two_levels ≡ ok tt)
unfolding cache_set_count Address.validate is_power_of_two AllWords AllRoots has_fresh_names
    Traces.names excluded_total
validate_hierarchy_input-Collected_example =
    validate_hierarchy_input-Collected layouts model roots expanded two_levels collected 2 2
      (omega arith, tt) refl ((tt, (tt, tt)), ((tt, tt), tt)) refl refl refl refl refl refl
      collects_tasks

abbrev no_result : BatchHierarchyResult
no_result = record { tasks = []; coverage = Traces.no_coverage }

analyzed : BatchHierarchyResult
unfolding collected
analyzed = value_or no_result (analyze_batch_hierarchy collected two_levels)

analyzes_tasks : analyze_batch_hierarchy collected two_levels ≡ ok analyzed
unfolding analyzed collected value_or resolved_task_traces Traces.collector Traces.change_back
    resolver resolve_access Access.resolve_first Access.conclude Access.check_node Access.check_kind
    Access.bytes_of Access.place Access.object_or_reject Access.find_object
    Access.has_invalid_indices Access.operation_of Stream.stream_resolved_task_accesses
    Stream.stream_tasks Stream.stream_task Stream.unroll Stream.emit Stream.coverage_delta
    emission_budget consume consume_source_access consume_loop_iterations analyze_batch_hierarchy
    validate_hierarchy_input Module.validate_tasks Module.validate_accesses Level.same_basis
    Level.same_operation cache_set_count Address.validate is_power_of_two
    Traces.map_resolved_task_traces Traces.validate_resolved_task_result Traces.tally_tasks
    Traces.tally_task Traces.names Traces.equal_coverage complete Traces.map_tasks Traces.map_task
    Traces.map_resolved_accesses map_access_lines for_each_access_line range_of annotate
    for_each_cache_line validate_range line_loop row advance push_back decode_cache_address
    partition Module.analyze_tasks Module.analyze_task Level.analyze_hierarchy_level
    Module.forward_misses Level.aggregate_hierarchy_task Level.is_ragged Level.pair_rows
    Level.pair_hit Level.pair_miss Level.count_last Level.same_reference
    Level.summarize_hierarchy_level Level.checked_sum Level.finite_references Level.blocks_of
    Level.contains Csrd.analyze_batch_csrd Csrd.analyze_sets Csrd.analyze_set Csrd.analyze_lines
    Csrd.analyze_line Csrd.group_lines Csrd.lines_at Csrd.record_reuse Csrd.set_access Csrd.next
    Csrd.count_distance Csrd.add Csrd.add_loop find insert count_at bump prefix_sum lowbit is_hit
    checked_service_sum finalize_hierarchy_service invariants_of ratio_of
analyzes_tasks = refl

analyze_batch_hierarchy-EachAccounts_example :
    EachAccounts collected.tasks analyzed.tasks
    × (analyzed.coverage.source_accesses ≡ access_total collected.tasks % 2 ^ 64)
    × (analyzed.coverage.emitted_line_references ≡ event_total analyzed.tasks % 2 ^ 64)
    × (complete analyzed.coverage ≡ true)
analyze_batch_hierarchy-EachAccounts_example =
    analyze_batch_hierarchy-EachAccounts collected two_levels analyzed analyzes_tasks

abbrev no_accesses : TraceCoverage
no_accesses = Traces.no_coverage

abbrev found : ResolvedAccess
found = record {
  object_id = "global::a";
  object_byte_offset = 32;
  access_size = 40;
  linked_byte_address = 96;
  address_basis = absolute;
  operation = load;
  source_access_ordinal = 5;
}

abbrev planned : PreparedAccess
planned = record {
  numeric_values = pos 32 ∷ [];
  plan = some (record {
    object_id = "global::a";
    operation = load;
    object = record { base = 64; size = 128 };
    basis = absolute;
    layout = record { structured = false; width = pos 1; extent = pos 0; steps = [] };
  });
}

resolves_access :
    resolve_access layouts model node (fresh 32) true 5 no_accesses
    ≡ Access.resolved found planned (record no_accesses { resolved_accesses = 1 })
unfolding resolve_access Access.resolve_first Access.conclude Access.check_node Access.check_kind
    Access.bytes_of Access.place Access.object_or_reject Access.find_object
    Access.has_invalid_indices Access.operation_of
resolves_access = refl

resolve_access-Located_example :
    Located model found
    × (found.source_access_ordinal ≡ 5)
    × IsPlanned model planned.plan
    × ◌≡◌ {A = TraceCoverage}
        (record no_accesses { resolved_accesses = 1 })
        (record no_accesses { resolved_accesses = (0 + 1) % 2 ^ 64 })
unfolding AllWords
resolve_access-Located_example =
    resolve_access-Located layouts model node (fresh 32) planned true 5 no_accesses
      (record no_accesses { resolved_accesses = 1 }) found (omega arith, tt) tt resolves_access
