-- ===== src/Hierarchy/Task/Serving.antt =====
-- The counters of a task agree with those of its two levels, line by line.
use yet_another_reuse_distan.Prelude.{
  ℕ, ◌+◌, ◌≤◌, ◌≡◌, refl, sym, ap, Bool, true, false, not, ◌||◌, inl, inr, none, some, arith, ◌==◌,
  if◌then◌else◌, ok, throw_if, ◌>>=◌, logic_error, >>=-eq-ok, ok-injective, Bool-cases,
}
use mathlib.Core.Path.{subst}
use yet_another_reuse_distan.Mapping.Address.{decode_cache_address}
use yet_another_reuse_distan.Mapping.Types.{CacheLineMapping}
use yet_another_reuse_distan.Rd.Arithmetic.{u64_max}
use yet_another_reuse_distan.Rd.RecencyIndex.{Platform, Clock, RecencyIndex}
use yet_another_reuse_distan.Rd.Exact.{ExactCsrdAnalyzer, CsrdObservation, LruAccessOutcome}
use yet_another_reuse_distan.Rd.Exact
use yet_another_reuse_distan.Hierarchy.Types.{
  TaskHierarchySummary, TraceCoverage, FirstServiceLevel, at_l1, at_llc, at_memory, complete,
}
use yet_another_reuse_distan.Hierarchy.Service.{
  checked_service_sum, Serves, checked, finalize_hierarchy_service, finalize_hierarchy_service_iff,
}
use yet_another_reuse_distan.Hierarchy.Level.{
  Counts, Counted, is_hit, observe-Counts, summarized, summarize_streaming_level-Counts,
}
use yet_another_reuse_distan.Hierarchy.Task.{
  StreamingHierarchyTask, StreamingHierarchyOptions, World, Propagation, propagate, count_service,
  observe_line, deliver_event, event_of, is_misplaced, finish,
}

-- Each reference was counted by the level that served it, and the last level saw the misses.
pub record Serving (t : StreamingHierarchyTask) : Type 0 where
  pub l1 : Counts t.l1.summary
  pub llc : Counts t.llc.summary
  pub l1_hits : t.summary.l1_first_hit_count ≡ t.l1.summary.hits
  pub llc_hits : t.summary.llc_first_hit_count ≡ t.llc.summary.hits
  pub memory :
      t.summary.all_cache_misses ≡ t.llc.summary.cold_misses + t.llc.summary.replacement_misses
  pub modeled : t.summary.modeled_accesses ≡ t.l1.summary.lookups
  pub small : t.summary.modeled_accesses ≤ u64_max
  pub input : t.llc.summary.lookups ≡ t.l1.summary.cold_misses + t.l1.summary.replacement_misses

abbrev is_l1 : FirstServiceLevel → Bool
is_l1 at_l1 = true
is_l1 _ = false

abbrev llc_share : FirstServiceLevel → ℕ
llc_share at_llc = 1
llc_share _ = 0

-- How the last level and the service of one reference go together.
record Forwarded (t : StreamingHierarchyTask) (outcome : LruAccessOutcome) (f : Propagation)
    : Type 0 where
  counts : Counts f.llc.summary
  lookups : f.llc.summary.lookups ≡ t.llc.summary.lookups + (if is_hit outcome then 0 else 1)
  hits : f.llc.summary.hits ≡ t.llc.summary.hits + llc_share f.service
  service : is_l1 f.service ≡ is_hit outcome

propagate-Forwarded :
    (p : Platform) (c : Clock) (t : StreamingHierarchyTask) (m : CacheLineMapping)
    (outcome : LruAccessOutcome) (f : Propagation)
    → Counts t.llc.summary
    → propagate p c t m outcome ≡ ok f
    → Forwarded t outcome f
unfolding propagate
propagate-Forwarded p c t m outcome f counts h = elim (Bool-cases (is_hit outcome)) [
  | inl e ↦
      let same : f ≡ record { llc = t.llc; seen = none; service = at_l1 } = ground (arith, e, h) in
      rw same (record {
        counts = counts;
        lookups = rw e (omega arith);
        hits = omega arith;
        service = sym e;
      })
  | inr e ↦
      let h' : (decode_cache_address m.decoded.address t.hierarchy.llc.geometry >>= λ address.
      Exact.observe p c t.llc address >>= λ (llc, seen). ok (record {
        llc = llc;
        seen = some (address, seen);
        service = if is_hit seen.outcome then at_llc else at_memory;
      }))
          ≡ ok f =
        ground (arith, e, h) in
      let (address, decoded, h₁) =
        >>=-eq-ok (decode_cache_address m.decoded.address t.hierarchy.llc.geometry) _ h' in
      let ((llc, seen), observed, h₂) = >>=-eq-ok (Exact.observe p c t.llc address) _ h₁ in
      let v = observe-Counts p c t.llc llc address seen counts observed in
      let same = ok-injective h₂ in
      subst (Forwarded t outcome) same (record {
        counts = v.counts;
        lookups = ground (arith, e, v.lookups);
        hits = ground (arith, v.hits);
        service = ground (arith, e);
      })
]

-- The counters of a task after one more reference.
record Recorded (s t : TaskHierarchySummary) (service : FirstServiceLevel) : Type 0 where
  l1 : t.l1_first_hit_count ≡ s.l1_first_hit_count + (if is_l1 service then 1 else 0)
  total :
      t.l1_first_hit_count + t.llc_first_hit_count + t.all_cache_misses
      ≡ s.l1_first_hit_count + s.llc_first_hit_count + s.all_cache_misses + 1
  llc : t.llc_first_hit_count ≡ s.llc_first_hit_count + llc_share service
  modeled : t.modeled_accesses ≡ s.modeled_accesses

count_service-Recorded :
    (s t : TaskHierarchySummary) (service : FirstServiceLevel)
    → count_service s service ≡ ok t
    → Recorded s t service
unfolding count_service checked_service_sum
count_service-Recorded s t at_l1 h = record {
  l1 = ground (arith, h);
  total = ground (arith, h);
  llc = ground (arith, h);
  modeled = ground (arith, h);
}
count_service-Recorded s t at_llc h = record {
  l1 = ground (arith, h);
  total = ground (arith, h);
  llc = ground (arith, h);
  modeled = ground (arith, h);
}
count_service-Recorded s t at_memory h = record {
  l1 = ground (arith, h);
  total = ground (arith, h);
  llc = ground (arith, h);
  modeled = ground (arith, h);
}

-- The task after one more reference, from the results of its steps.
after_line :
    StreamingHierarchyTask
    → ExactCsrdAnalyzer
    → Propagation
    → TaskHierarchySummary
    → ℕ
    → ℕ
    → StreamingHierarchyTask
after_line t l1 f s modeled span = record t {
  l1 = l1;
  llc = f.llc;
  summary = record s { modeled_accesses = modeled };
  next_span_ordinal = span;
}

after_line-Serving :
    (t : StreamingHierarchyTask) (l1 : ExactCsrdAnalyzer) (outcome : LruAccessOutcome)
    (f : Propagation) (s : TaskHierarchySummary) (n span : ℕ)
    → Serving t
    → Counted t.l1.summary l1.summary outcome
    → Forwarded t outcome f
    → Recorded t.summary s f.service
    → n ≡ s.modeled_accesses + 1
    → n ≤ u64_max
    → Serving (after_line t l1 f s n span)
unfolding after_line
after_line-Serving t l1 outcome f s n span v a b r k small = record {
  l1 = a.counts;
  llc = b.counts;
  l1_hits = ground (arith, r.l1, a.hits, b.service, v.l1_hits);
  llc_hits = omega (arith, r.llc, b.hits, v.llc_hits);
  memory = ground (
    arith, r.l1, r.total, r.llc, b.hits, b.lookups, b.counts.lookups, b.service, v.llc.lookups,
    v.memory, v.l1_hits, v.llc_hits,
  );
  modeled = omega (arith, k, r.modeled, a.lookups, v.modeled);
  small = small;
  input = ground (arith, a.hits, a.lookups, a.counts.lookups, v.l1.lookups, b.lookups, v.input);
}

checked_service_sum-eq-ok :
    (a b c : ℕ) → a ≤ u64_max → checked_service_sum a b ≡ ok c → (c ≡ a + b) × (c ≤ u64_max)
unfolding checked_service_sum
checked_service_sum-eq-ok a b c small h = (ground (arith, h), ground (arith, small, h))

-- A line that is observed keeps the counters of the task equal to those of its levels.
pub observe_line-Serving :
    {S : Type 0} (p : Platform) (clocks : ℕ → Clock × Clock) (options : StreamingHierarchyOptions S)
    (w w' : World S) (m : CacheLineMapping)
    → Serving w.task
    → observe_line p clocks options w m ≡ ok w'
    → Serving w'.task
unfolding observe_line after_line
observe_line-Serving {S} p clocks options w w' m v h =
    let (u, placed, h₁) = >>=-eq-ok (throw_if (is_misplaced w.task m) logic_error) _ h in
    let (span, counted, h₂) = >>=-eq-ok (checked_service_sum w.task.next_span_ordinal 1) _ h₁ in
    let ((l1, seen), first, h₃) =
      >>=-eq-ok (Exact.observe p (clocks w.task.summary.modeled_accesses).0 w.task.l1 m.decoded) _
        h₂ in
    let (f, forwarded, h₄) =
      >>=-eq-ok (propagate p (clocks w.task.summary.modeled_accesses).1 w.task m seen.outcome) _
        h₃ in
    let (s, served, h₅) = >>=-eq-ok (count_service w.task.summary f.service) _ h₄ in
    let (n, modeled, h₆) = >>=-eq-ok (checked_service_sum s.modeled_accesses 1) _ h₅ in
    let ((delivery, state), delivered, h₇) =
      >>=-eq-ok
        (deliver_event options w.task.summary.task_id (event_of m seen f.seen f.service) w.delivery
          w.state)
        _ h₆ in
    let below : s.modeled_accesses ≤ u64_max =
      omega (arith, (count_service-Recorded w.task.summary s f.service served).modeled, v.small) in
    let e : after_line w.task l1 f s n span ≡ w'.task = ap (λ q. q.task) (ok-injective h₇) in
    subst Serving e (
      after_line-Serving w.task l1 seen.outcome f s n span v
        (observe-Counts p (clocks w.task.summary.modeled_accesses).0 w.task.l1 l1 m.decoded seen
          v.l1 first)
        (propagate-Forwarded p (clocks w.task.summary.modeled_accesses).1 w.task m seen.outcome f
          v.llc forwarded)
        (count_service-Recorded w.task.summary s f.service served)
        (checked_service_sum-eq-ok s.modeled_accesses 1 n below modeled).0
        (checked_service_sum-eq-ok s.modeled_accesses 1 n below modeled).1)

-- The summary of a task before it is checked.
unfoldable pub closed : StreamingHierarchyTask → TraceCoverage → TaskHierarchySummary
unfolding summarized
closed t coverage = record t.summary {
  coverage = record coverage { emitted_line_references = t.summary.modeled_accesses };
  l1 = summarized t.l1.summary;
  llc = summarized t.llc.summary;
}

-- A task whose counters agree with its levels finishes: where its coverage is complete, of its
-- source accesses and with no emitted line, and there is no sink for statistics, no conservation
-- check throws, the counts are conserved, and the summary is the checked one.
pub finish-Serving :
    {S : Type 0} (p : Platform) (buckets : RecencyIndex → ℕ) (options : StreamingHierarchyOptions S)
    (w : World S) (coverage : TraceCoverage)
    → Serving w.task
    → options.statistics_sink ≡ none
    → coverage.rejected_accesses ≡ 0
    → coverage.source_accesses ≡ coverage.resolved_accesses
    → coverage.source_accesses ≡ w.task.summary.source_accesses
    → coverage.emitted_line_references ≡ 0
    → (result : TaskHierarchySummary) × (finish p buckets options w coverage ≡ ok (result, w.state))
      × (result ≡ checked (closed w.task coverage))
      × Serves (closed w.task coverage)
unfolding finish closed summarized
finish-Serving p buckets options w coverage v quiet none_rejected all_resolved all_seen
      none_emitted =
    let t = w.task in
    let s = closed t coverage in
    let serves : Serves s = record {
      l1 = record { misses = refl; lookups = omega (arith, v.l1.lookups) };
      llc = record { misses = refl; lookups = omega (arith, v.llc.lookups) };
      input = v.input;
      modeled = v.modeled;
      l1_hits = v.l1_hits;
      llc_hits = v.llc_hits;
      memory = v.memory;
      resolved = all_resolved;
      rejected = none_rejected;
      sources = sym all_seen;
      emitted = refl;
    } in
    let level1 =
      summarize_streaming_level-Counts t.l1.summary (omega (arith, v.small, v.modeled)) v.l1 in
    let level2 =
      summarize_streaming_level-Counts t.llc.summary
        (omega (arith, v.small, v.modeled, v.input, v.l1.lookups)) v.llc in
    let last : finalize_hierarchy_service s ≡ ok (checked s) =
      (finalize_hierarchy_service_iff s (checked s) (omega (arith, v.small, v.modeled))).1
        (serves, refl) in
    let passes : (not (complete coverage)
          || not (coverage.source_accesses == t.summary.source_accesses)
          || not (coverage.emitted_line_references == 0))
        ≡ false =
      unfold complete in ground (arith, none_rejected, all_resolved, all_seen, none_emitted) in
    (checked s, rw passes (rw level1 (rw level2 (rw last (rw quiet refl)))), refl, serves)
