-- ===== src/Hierarchy/Level.antt =====
-- backend/src/cache/streaming/streaming_hierarchy_summary.cpp: the checked summary of a level.
use yet_another_reuse_distan.Prelude.{
  ℕ, ◌+◌, ◌≤◌, ◌<◌, ◌≡◌, refl, ap, ◌∙◌, not, Bool, true, false, List, [], ◌∷◌, Option, none, some,
  arith, ◌==◌, if◌then◌else◌, Result, ok, throw_if, ◌>>=◌, ◌>>◌, logic_error, invalid_argument,
  ok-injective, >>=-eq-ok,
}
use yet_another_reuse_distan.Prelude.Maps.{find, insert, count_at, total}
use yet_another_reuse_distan.Rd.Arithmetic.{u64_max, csrd_checked_add, csrd_checked_add_within}
use mathlib.Core.Path.{subst₂}
use yet_another_reuse_distan.Mapping.Address.{DecodedCacheAddress}
use yet_another_reuse_distan.Rd.RecencyIndex.{Platform, Clock}
use yet_another_reuse_distan.Rd.RecencyIndex
use yet_another_reuse_distan.Rd.Exact.{
  ExactCsrdAnalyzer, is_inconsistent, set_state, observe, CsrdObservation, ExactCsrdSummary,
  LruAccessOutcome, hit, count_cold, count_reuse, count_access,
}
use yet_another_reuse_distan.Hierarchy.Types.{CacheLevelSummary, TraceCoverage, LruAccessResult}
use yet_another_reuse_distan.Hierarchy.Service.{checked_service_sum, checked_service_sum_fits}

-- The loop over the histogram.
unfoldable pub sum_histogram : ℕ → List (ℕ × ℕ) → Result ℕ
sum_histogram finite [] = ok finite
sum_histogram finite ((distance, count) ∷ entries) = do
  finite' ← checked_service_sum finite count
  sum_histogram finite' entries

unfoldable pub summarize_streaming_level : ExactCsrdSummary → Result CacheLevelSummary
unfolding sum_histogram
summarize_streaming_level s = do
  misses ← checked_service_sum s.cold_misses s.replacement_misses
  lookups ← checked_service_sum s.hits misses
  throw_if (not (lookups == s.lookups)) logic_error
  finite ← sum_histogram 0 s.histogram
  references ← checked_service_sum s.hits s.replacement_misses
  throw_if (not (finite == references)) logic_error
  throw_if (not (s.unique_lines == s.cold_misses)) logic_error
  ok (record {
    lookups = s.lookups;
    hits = s.hits;
    misses = misses;
    cold_misses = s.cold_misses;
    replacement_misses = s.replacement_misses;
    unique_lines = s.unique_lines;
    csrd_histogram = s.histogram;
  })

unfoldable pub add_streaming_coverage : TraceCoverage → TraceCoverage → Result TraceCoverage
add_streaming_coverage total task = do
  source ← checked_service_sum total.source_accesses task.source_accesses
  resolved ← checked_service_sum total.resolved_accesses task.resolved_accesses
  rejected ← checked_service_sum total.rejected_accesses task.rejected_accesses
  emitted ← checked_service_sum total.emitted_line_references task.emitted_line_references
  ok (record {
    source_accesses = source;
    resolved_accesses = resolved;
    rejected_accesses = rejected;
    emitted_line_references = emitted;
  })

-- `size_t` has 64 bits.
unfoldable pub streaming_lru_result : CsrdObservation → LruAccessResult
streaming_lru_result o = record { outcome = o.outcome; reuse_distance = o.distance }

-- The keys of a histogram rise from `low` on.
unfoldable pub Rising : ℕ → List (ℕ × ℕ) → Type 0
Rising low [] = Unit {0}
Rising low ((d, n) ∷ h) = (low ≤ d) × Rising (d + 1) h

abbrev pub is_hit : LruAccessOutcome → Bool
is_hit hit = true
is_hit _ = false

-- What the counters of an analyzer satisfy after any accesses.
pub record Counts (s : ExactCsrdSummary) : Type 0 where
  pub lookups : s.hits + s.cold_misses + s.replacement_misses ≡ s.lookups
  pub finite : total s.histogram ≡ s.hits + s.replacement_misses
  pub unique : s.unique_lines ≡ s.cold_misses
  pub rising : Rising 0 s.histogram

find-below : (k low : ℕ) (h : List (ℕ × ℕ)) → k < low → Rising low h → count_at k h ≡ 0
unfolding count_at find Rising
find-below k low [] lt r = refl
find-below k low ((d, n) ∷ h) lt (le, r) =
    ground (arith, lt, le, find-below k (d + 1) h (omega (arith, lt, le)) r)

total-insert :
    (k v low : ℕ) (h : List (ℕ × ℕ))
    → Rising low h
    → total (insert k v h) + count_at k h ≡ total h + v
unfolding total insert count_at find Rising
total-insert k v low [] r = omega arith
total-insert k v low ((d, n) ∷ h) (le, r) =
    ground (arith, le, total-insert k v (d + 1) h r, find-below k (d + 1) h)

insert-Rising :
    (k v low : ℕ) (h : List (ℕ × ℕ)) → low ≤ k → Rising low h → Rising low (insert k v h)
unfolding insert Rising
insert-Rising k v low [] le r = (le, tt)
insert-Rising k v low ((d, n) ∷ h) le (below, r) =
    ground (arith, le, below, r, insert-Rising k v (d + 1) h)

sum_histogram-total :
    (finite : ℕ) (h : List (ℕ × ℕ))
    → finite + total h ≤ u64_max
    → sum_histogram finite h ≡ ok (finite + total h)
unfolding total sum_histogram
sum_histogram-total finite [] le = ap ok (omega arith)
sum_histogram-total finite ((d, n) ∷ h) le =
    rw (checked_service_sum_fits finite n (omega (arith, le)))
      (sum_histogram-total (finite + n) h (omega (arith, le)) ∙ ap ok (omega arith))

-- The summary of a level whose counters are conserved.
unfoldable pub summarized : ExactCsrdSummary → CacheLevelSummary
summarized s = record {
  lookups = s.lookups;
  hits = s.hits;
  misses = s.cold_misses + s.replacement_misses;
  cold_misses = s.cold_misses;
  replacement_misses = s.replacement_misses;
  unique_lines = s.unique_lines;
  csrd_histogram = s.histogram;
}

pub summarize_streaming_level-Counts :
    (s : ExactCsrdSummary)
    → s.lookups ≤ u64_max
    → Counts s
    → summarize_streaming_level s ≡ ok (summarized s)
unfolding summarize_streaming_level summarized
summarize_streaming_level-Counts s small c =
    rw
      (checked_service_sum_fits s.cold_misses s.replacement_misses
        (omega (arith, c.lookups, small)))
      (rw
        (checked_service_sum_fits s.hits (s.cold_misses + s.replacement_misses)
          (omega (arith, c.lookups, small)))
        (rw (sum_histogram-total 0 s.histogram (omega (arith, c.finite, c.lookups, small))) (
          rw
            (checked_service_sum_fits s.hits s.replacement_misses (omega (arith, c.lookups, small)))
            (ground (arith, c.lookups, c.finite, c.unique)))))

-- What an access did to the counters.
pub record Counted (s t : ExactCsrdSummary) (o : LruAccessOutcome) : Type 0 where
  pub counts : Counts t
  pub lookups : t.lookups ≡ s.lookups + 1
  pub hits : t.hits ≡ s.hits + (if is_hit o then 1 else 0)

count_cold-Counts :
    (s t : ExactCsrdSummary) (out : CsrdObservation)
    → Counts s
    → count_cold s (s.lookups + 1) ≡ ok (t, out)
    → Counted s t out.outcome
unfolding count_cold csrd_checked_add csrd_checked_add_within
count_cold-Counts s t out c h = record {
  counts = record {
    lookups = ground (arith, c.lookups, h);
    finite = ground (arith, c.finite, h);
    unique = ground (arith, c.unique, h);
    rising = ground (arith, c.rising, h);
  };
  lookups = ground (arith, h);
  hits = ground (arith, h);
}

count_reuse-Counts :
    (ways d : ℕ) (s t : ExactCsrdSummary) (out : CsrdObservation)
    → Counts s
    → count_reuse ways s (s.lookups + 1) d ≡ ok (t, out)
    → Counted s t out.outcome
unfolding count_reuse csrd_checked_add csrd_checked_add_within
count_reuse-Counts ways d s t out c h =
    let n = count_at d s.histogram + 1 in
    let grows = total-insert d n 0 s.histogram c.rising in
    let sorted = insert-Rising d n 0 s.histogram (omega arith) c.rising in
    record {
      counts = record {
        lookups = ground (arith, c.lookups, h);
        finite = ground (arith, c.finite, grows, h);
        unique = ground (arith, c.unique, h);
        rising = ground (arith, sorted, h);
      };
      lookups = ground (arith, h);
      hits = ground (arith, h);
    }

-- An access that is counted keeps the counters conserved.
pub count_access-Counts :
    (ways : ℕ) (s t : ExactCsrdSummary) (o : Option ℕ) (out : CsrdObservation)
    → Counts s
    → count_access ways s (s.lookups + 1) o ≡ ok (t, out)
    → Counted s t out.outcome
unfolding count_access
count_access-Counts ways s t none out c h = count_cold-Counts s t out c h
count_access-Counts ways s t (some d) out c h = count_reuse-Counts ways d s t out c h

pub observe-Counts :
    (p : Platform) (c : Clock) (a b : ExactCsrdAnalyzer) (d : DecodedCacheAddress)
    (out : CsrdObservation)
    → Counts a.summary
    → observe p c a d ≡ ok (b, out)
    → Counted a.summary b.summary out.outcome
unfolding observe
observe-Counts p c a b d out before h =
    let (u, sane, h₁) = >>=-eq-ok (throw_if (is_inconsistent a d) invalid_argument) _ h in
    let (lookups, looked, h₂) = >>=-eq-ok (csrd_checked_add a.summary.lookups 1) _ h₁ in
    let (r, ready, h₃) = >>=-eq-ok (set_state p a d.set_index) _ h₂ in
    let ((r', o), seen, h₄) = >>=-eq-ok (RecencyIndex.observe p c r d.block_number) _ h₃ in
    let ((t, out'), counted, h₅) =
      >>=-eq-ok (count_access a.geometry.associativity a.summary lookups o) _ h₄ in
    let n : lookups ≡ a.summary.lookups + 1 =
      unfold csrd_checked_add csrd_checked_add_within in ground (arith, looked) in
    let v =
      count_access-Counts a.geometry.associativity a.summary t o out' before (rw (← n) counted) in
    let e = ok-injective h₅ in
    subst₂ (λ w z. Counted a.summary w z) (ap (λ q. q.0.summary) e) (ap (λ q. q.1.outcome) e) v
