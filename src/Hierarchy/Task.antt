-- ===== src/Hierarchy/Task.antt =====
-- backend/src/cache/streaming/streaming_hierarchy_task.cpp: one task against two cold levels.
pub mod Serving
pub mod Runs
use Prim.Native.String.{String}
use yet_another_reuse_distan.Prelude.{
  ℕ, ◌+◌, ◌-◌, ◌%◌, ◌^◌, Bool, true, false, not, ◌&&◌, ◌||◌, Option, none, some, [], ◌==◌,
  if◌then◌else◌, Result, ok, throw, throw_if, ◌>>=◌, ◌>>◌, invalid_argument, logic_error,
}
use yet_another_reuse_distan.Mapping.Address.{DecodedCacheAddress, decode_cache_address}
use yet_another_reuse_distan.Mapping.Types.{
  CacheLineMapping, AccessOperation, unknown, load, store, AddressBasis, absolute, image_relative,
}
use yet_another_reuse_distan.Mapping.Resolved.{ResolvedAccess, for_each_budgeted_line}
use yet_another_reuse_distan.Trace.Budget.{TraceEmissionBudget}
use yet_another_reuse_distan.Rd.RecencyIndex.{Platform, Clock, RecencyIndex}
use yet_another_reuse_distan.Rd.Exact.{
  ExactCsrdAnalyzer, CsrdObservation, LruAccessOutcome, hit, cold_miss, replacement_miss,
}
use yet_another_reuse_distan.Rd.Exact
use yet_another_reuse_distan.Rd.Statistics.{CsrdStatistics, statistics}
use yet_another_reuse_distan.Hierarchy.Types.{
  TraceCoverage, complete, CacheLevelSummary, TaskHierarchySummary, AnalysisHierarchy,
  HierarchyAccessEvent, FirstServiceLevel, at_l1, at_llc, at_memory,
}
use yet_another_reuse_distan.Hierarchy.Service.{checked_service_sum, finalize_hierarchy_service}
use yet_another_reuse_distan.Hierarchy.Level.{
  summarize_streaming_level, streaming_lru_result, is_hit,
}

-- The callbacks over the state `S` of the caller; an empty `std::function` is `none`.
pub record StreamingHierarchyOptions (S : Type 0) : Type 0 where
  pub event_sink : Option (S → String → HierarchyAccessEvent → Result S)
  pub event_limit : ℕ
  pub statistics_sink : Option (S → String → CsrdStatistics → CsrdStatistics → Result S)

pub record HierarchyEventDelivery : Type 0 where
  pub emitted_events : ℕ
  pub events_truncated : Bool

pub record StreamingHierarchyTask : Type 0 where
  pub hierarchy : AnalysisHierarchy
  pub l1 : ExactCsrdAnalyzer
  pub llc : ExactCsrdAnalyzer
  pub summary : TaskHierarchySummary
  pub next_span_ordinal : ℕ

-- What the callback of a line can change: the task, the delivery counters, the caller's state.
pub record World (S : Type 0) : Type 0 where
  pub task : StreamingHierarchyTask
  pub delivery : HierarchyEventDelivery
  pub state : S

abbrev pub no_coverage : TraceCoverage
no_coverage = record {
  source_accesses = 0;
  resolved_accesses = 0;
  rejected_accesses = 0;
  emitted_line_references = 0;
}

abbrev pub empty_level : CacheLevelSummary
empty_level = record {
  lookups = 0;
  hits = 0;
  misses = 0;
  cold_misses = 0;
  replacement_misses = 0;
  unique_lines = 0;
  csrd_histogram = [];
}

abbrev pub empty_task : String → TaskHierarchySummary
empty_task id = record {
  task_id = id;
  source_accesses = 0;
  modeled_accesses = 0;
  l1 = empty_level;
  llc = empty_level;
  l1_first_hit_count = 0;
  llc_first_hit_count = 0;
  all_cache_misses = 0;
  l1_first_hit_ratio = none;
  llc_first_hit_ratio = none;
  all_cache_miss_ratio = none;
  coverage = no_coverage;
  invariants = record {
    level_conservation_l1 = false;
    level_conservation_llc = false;
    llc_input_matches_l1_misses = false;
    first_service_conservation = false;
    all_passed = false;
  };
}

unfoldable pub make_task : String → AnalysisHierarchy → Bool → Result StreamingHierarchyTask
make_task id hierarchy measured = do
  l1 ← Exact.make hierarchy.l1.geometry measured
  llc ← Exact.make hierarchy.llc.geometry measured
  ok (record {
    hierarchy = hierarchy;
    l1 = l1;
    llc = llc;
    summary = empty_task id;
    next_span_ordinal = 0;
  })

-- What the last level saw of a reference, where it saw it.
pub record Propagation : Type 0 where
  pub llc : ExactCsrdAnalyzer
  pub seen : Option (DecodedCacheAddress × CsrdObservation)
  pub service : FirstServiceLevel

-- A miss of the first level is forwarded.
unfoldable pub propagate :
    Platform
    → Clock
    → StreamingHierarchyTask
    → CacheLineMapping
    → LruAccessOutcome
    → Result Propagation
propagate p c t mapping outcome = elim (is_hit outcome) [
  | true ↦ ok (record { llc = t.llc; seen = none; service = at_l1 })
  | false ↦ do
    address ← decode_cache_address mapping.decoded.address t.hierarchy.llc.geometry
    (llc, seen) ← Exact.observe p c t.llc address
    ok (record {
      llc = llc;
      seen = some (address, seen);
      service = if is_hit seen.outcome then at_llc else at_memory;
    })
]

unfoldable pub count_service :
    TaskHierarchySummary → FirstServiceLevel → Result TaskHierarchySummary
count_service s at_l1 = do
  count ← checked_service_sum s.l1_first_hit_count 1
  ok (record s { l1_first_hit_count = count })
count_service s at_llc = do
  count ← checked_service_sum s.llc_first_hit_count 1
  ok (record s { llc_first_hit_count = count })
count_service s at_memory = do
  count ← checked_service_sum s.all_cache_misses 1
  ok (record s { all_cache_misses = count })

-- The event of a reference.
unfoldable pub event_of :
    CacheLineMapping
    → CsrdObservation
    → Option (DecodedCacheAddress × CsrdObservation)
    → FirstServiceLevel
    → HierarchyAccessEvent
event_of mapping l1 none service = record {
  l1_mapping = mapping;
  l1 = streaming_lru_result l1;
  llc_mapping = none;
  llc = none;
  first_service = service;
}
event_of mapping l1 (some (address, llc)) service = record {
  l1_mapping = mapping;
  l1 = streaming_lru_result l1;
  llc_mapping = some (record mapping { decoded = address });
  llc = some (streaming_lru_result llc);
  first_service = service;
}

-- The line is not the next one of the last source access.
unfoldable pub is_misplaced : StreamingHierarchyTask → CacheLineMapping → Bool
is_misplaced t mapping =
    not (mapping.source_access_ordinal == (t.summary.source_accesses + (2 ^ 64 - 1)) % 2 ^ 64)
    || not (mapping.line_span_ordinal == t.next_span_ordinal)

module _ {S : Type 0} where
  unfoldable pub deliver_event :
      StreamingHierarchyOptions S
      → String
      → HierarchyAccessEvent
      → HierarchyEventDelivery
      → S
      → Result (HierarchyEventDelivery × S)
  deliver_event options id event d s = elim options.event_sink [
    | none ↦ ok (d, s)
    | some sink ↦ elim (d.emitted_events == options.event_limit) [
      | true ↦ ok (record d { events_truncated = true }, s)
      | false ↦ do
        s' ← sink s id event
        emitted ← checked_service_sum d.emitted_events 1
        ok (record d { emitted_events = emitted }, s')
    ]
  ]

  -- The two readings are of the clock of each level, where it compacts.
  unfoldable pub observe_line :
      Platform
      → (ℕ → Clock × Clock)
      → StreamingHierarchyOptions S
      → World S
      → CacheLineMapping
      → Result (World S)
  unfolding propagate count_service event_of deliver_event is_misplaced
  observe_line p clocks options w mapping = do
    let t = w.task
    let s = t.summary
    throw_if (is_misplaced t mapping) logic_error
    span ← checked_service_sum t.next_span_ordinal 1
    let (c1, c2) = clocks s.modeled_accesses
    (l1, seen) ← Exact.observe p c1 t.l1 mapping.decoded
    forwarded ← propagate p c2 t mapping seen.outcome
    served ← count_service s forwarded.service
    modeled ← checked_service_sum served.modeled_accesses 1
    (delivery, state) ←
        deliver_event options s.task_id (event_of mapping seen forwarded.seen forwarded.service)
          w.delivery w.state
    ok (record {
      task = record t {
        l1 = l1;
        llc = forwarded.llc;
        summary = record served { modeled_accesses = modeled };
        next_span_ordinal = span;
      };
      delivery = delivery;
      state = state;
    })

unfoldable pub is_absolute : AddressBasis → Bool
is_absolute absolute = true
is_absolute image_relative = false

unfoldable pub is_known : AccessOperation → Bool
is_known unknown = false
is_known load = true
is_known store = true

module _ {S : Type 0} where
  unfoldable pub accept :
      Platform
      → (ℕ → Clock × Clock)
      → StreamingHierarchyOptions S
      → ResolvedAccess
      → TraceEmissionBudget × World S
      → Result (TraceEmissionBudget × World S)
  unfolding is_absolute is_known observe_line
  accept p clocks options access (budget, w) = do
    let t = w.task
    throw_if (not (is_absolute access.address_basis)) invalid_argument
    throw_if (not (is_known access.operation)) invalid_argument
    throw_if (not (access.source_access_ordinal == t.summary.source_accesses)) invalid_argument
    sources ← checked_service_sum t.summary.source_accesses 1
    let t' = record t {
      summary = record t.summary { source_accesses = sources };
      next_span_ordinal = 0;
    }
    for_each_budgeted_line access t.hierarchy.l1.geometry (some (observe_line p clocks options))
        (budget, record w { task = t' })

  -- `finish`; it moves the summary away, so the task is used up.
  unfoldable pub finish :
      Platform
      → (RecencyIndex → ℕ)
      → StreamingHierarchyOptions S
      → World S
      → TraceCoverage
      → Result (TaskHierarchySummary × S)
  finish p buckets options w coverage = do
    let t = w.task
    throw_if
        (not (complete coverage)
          || not (coverage.source_accesses == t.summary.source_accesses)
          || not (coverage.emitted_line_references == 0))
        logic_error
    l1 ← summarize_streaming_level t.l1.summary
    llc ← summarize_streaming_level t.llc.summary
    result ← finalize_hierarchy_service (record t.summary {
      coverage = record coverage { emitted_line_references = t.summary.modeled_accesses };
      l1 = l1;
      llc = llc;
    })
    elim options.statistics_sink [
      | none ↦ ok (result, w.state)
      | some sink ↦ do
        first ← statistics p buckets t.l1
        last ← statistics p buckets t.llc
        s ← sink w.state result.task_id first last
        ok (result, s)
    ]
