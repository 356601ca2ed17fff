-- ===== src/Hierarchy/Service.antt =====
-- backend/src/cache/hierarchy/hierarchy_service_summary.cpp: the checked summary of a task.
use yet_another_reuse_distan.Prelude.{
  ℕ, ◌+◌, ◌-◌, ◌≤◌, ◌≡◌, ◌↔◌, ◌∙◌, sym, ap, true, not, ◌&&◌, ◌||◌, none, some, arith, ltb, ◌==◌,
  if◌then◌else◌, Result, ok, throw_if, ◌>>=◌, ◌>>◌, overflow_error, logic_error, Option,
  ok-injective,
}
use yet_another_reuse_distan.Rd.Arithmetic.{u64_max}
use yet_another_reuse_distan.Hierarchy.Types.{
  TaskHierarchySummary, HierarchyInvariants, CacheLevelSummary, Ratio, complete,
}

unfoldable pub checked_service_sum : ℕ → ℕ → Result ℕ
checked_service_sum left right = do
  throw_if (ltb (u64_max - left) right) overflow_error
  ok (left + right)

-- The flags, from the six sums.
unfoldable pub invariants_of : TaskHierarchySummary → ℕ → ℕ → ℕ → ℕ → ℕ → ℕ → HierarchyInvariants
invariants_of s l1_misses llc_misses l1_lookups llc_lookups llc_services services =
    let conserved_l1 = l1_misses == s.l1.misses && l1_lookups == s.l1.lookups in
    let conserved_llc = llc_misses == s.llc.misses && llc_lookups == s.llc.lookups in
    let matches = s.llc.lookups == s.l1.misses in
    let first_service =
      s.modeled_accesses == s.l1.lookups
      && s.l1_first_hit_count == s.l1.hits
      && s.llc_first_hit_count == s.llc.hits
      && s.all_cache_misses == s.llc.misses
      && services == s.modeled_accesses
      && llc_services == s.llc.lookups in
    record {
      level_conservation_l1 = conserved_l1;
      level_conservation_llc = conserved_llc;
      llc_input_matches_l1_misses = matches;
      first_service_conservation = first_service;
      all_passed = conserved_l1 && conserved_llc && matches && first_service;
    }

unfoldable pub ratio_of : ℕ → ℕ → Option Ratio
ratio_of count total =
    if total == 0 then none else some (record { numerator = count; denominator = total })

unfoldable pub finalize_hierarchy_service : TaskHierarchySummary → Result TaskHierarchySummary
unfolding invariants_of
finalize_hierarchy_service s = do
  l1_misses ← checked_service_sum s.l1.cold_misses s.l1.replacement_misses
  llc_misses ← checked_service_sum s.llc.cold_misses s.llc.replacement_misses
  l1_lookups ← checked_service_sum s.l1.hits s.l1.misses
  llc_lookups ← checked_service_sum s.llc.hits s.llc.misses
  llc_services ← checked_service_sum s.llc_first_hit_count s.all_cache_misses
  services ← checked_service_sum s.l1_first_hit_count llc_services
  let checks = invariants_of s l1_misses llc_misses l1_lookups llc_lookups llc_services services
  throw_if (not checks.all_passed) logic_error
  throw_if
      (not (complete s.coverage)
        || not (s.source_accesses == s.coverage.source_accesses)
        || not (s.modeled_accesses == s.coverage.emitted_line_references))
      logic_error
  ok (record s {
    invariants = checks;
    l1_first_hit_ratio = ratio_of s.l1_first_hit_count s.modeled_accesses;
    llc_first_hit_ratio = ratio_of s.llc_first_hit_count s.modeled_accesses;
    all_cache_miss_ratio = ratio_of s.all_cache_misses s.modeled_accesses;
  })

-- The counts of a level add up.
pub record Conserves (s : CacheLevelSummary) : Type 0 where
  pub misses : s.cold_misses + s.replacement_misses ≡ s.misses
  pub lookups : s.hits + s.misses ≡ s.lookups

-- Every reference is served by exactly one level, and the last level sees the misses of the first.
pub record Serves (s : TaskHierarchySummary) : Type 0 where
  pub l1 : Conserves s.l1
  pub llc : Conserves s.llc
  pub input : s.llc.lookups ≡ s.l1.misses
  pub modeled : s.modeled_accesses ≡ s.l1.lookups
  pub l1_hits : s.l1_first_hit_count ≡ s.l1.hits
  pub llc_hits : s.llc_first_hit_count ≡ s.llc.hits
  pub memory : s.all_cache_misses ≡ s.llc.misses
  pub resolved : s.coverage.source_accesses ≡ s.coverage.resolved_accesses
  pub rejected : s.coverage.rejected_accesses ≡ 0
  pub sources : s.source_accesses ≡ s.coverage.source_accesses
  pub emitted : s.modeled_accesses ≡ s.coverage.emitted_line_references

pub checked_service_sum_fits : (a b : ℕ) → a + b ≤ u64_max → checked_service_sum a b ≡ ok (a + b)
unfolding checked_service_sum
checked_service_sum_fits a b h = ground arith

-- The summary with every flag true and its ratios.
pub checked : TaskHierarchySummary → TaskHierarchySummary
checked s = record s {
  invariants = record {
    level_conservation_l1 = true;
    level_conservation_llc = true;
    llc_input_matches_l1_misses = true;
    first_service_conservation = true;
    all_passed = true;
  };
  l1_first_hit_ratio = ratio_of s.l1_first_hit_count s.modeled_accesses;
  llc_first_hit_ratio = ratio_of s.llc_first_hit_count s.modeled_accesses;
  all_cache_miss_ratio = ratio_of s.all_cache_misses s.modeled_accesses;
}

-- The checked summary has the same counts.
pub checked-Serves : (s : TaskHierarchySummary) → Serves s → Serves (checked s)
unfolding checked
checked-Serves s v = record {
  l1 = v.l1;
  llc = v.llc;
  input = v.input;
  modeled = v.modeled;
  l1_hits = v.l1_hits;
  llc_hits = v.llc_hits;
  memory = v.memory;
  resolved = v.resolved;
  rejected = v.rejected;
  sources = v.sources;
  emitted = v.emitted;
}

served :
    (s : TaskHierarchySummary)
    → s.l1.lookups ≤ u64_max
    → Serves s
    → finalize_hierarchy_service s ≡ ok (checked s)
unfolding finalize_hierarchy_service invariants_of complete checked_service_sum checked
served s small h = ground (
  arith, h.l1.misses, h.l1.lookups, h.llc.misses, h.llc.lookups, h.input, h.modeled, h.l1_hits,
  h.llc_hits, h.memory, h.resolved, h.rejected, h.sources, h.emitted, small,
)

pub serves : (s t : TaskHierarchySummary) → finalize_hierarchy_service s ≡ ok t → Serves s
unfolding finalize_hierarchy_service invariants_of complete checked_service_sum
serves s t h = record {
  l1 = record { misses = ground (arith, h); lookups = ground (arith, h) };
  llc = record { misses = ground (arith, h); lookups = ground (arith, h) };
  input = ground (arith, h);
  modeled = ground (arith, h);
  l1_hits = ground (arith, h);
  llc_hits = ground (arith, h);
  memory = ground (arith, h);
  resolved = ground (arith, h);
  rejected = ground (arith, h);
  sources = ground (arith, h);
  emitted = ground (arith, h);
}

-- The summary of a task whose lookups of the first level fit 64 bits is accepted exactly when its
-- counts are conserved: each level's lookups are its hits and its misses, the last level looks up
-- the misses of the first, each reference is served once, and every source access was resolved. All
-- flags of the result are true.
pub finalize_hierarchy_service_iff :
    (s t : TaskHierarchySummary)
    → s.l1.lookups ≤ u64_max
    → (finalize_hierarchy_service s ≡ ok t) ↔ (Serves s × (t ≡ checked s))
finalize_hierarchy_service_iff s t small = (
  λ h. let v = serves s t h in (v, ok-injective (sym h ∙ served s small v)),
  λ (v, e). served s small v ∙ ap ok (sym e),
)
