-- ===== src/Rd/Exact/Counters.antt =====
-- The counters of the analyzer follow the specified tally.
use yet_another_reuse_distan.Prelude.{
  ℕ, ◌+◌, ◌<◌, ◌≡◌, ap, true, false, inl, inr, List, ◌∷◌, none, some, arith, ltb, length, ok,
  Option-cases, Bool-cases,
}
use yet_another_reuse_distan.Prelude.Maps.{insert, count_at, count_at-insert}
use yet_another_reuse_distan.Rd.Arithmetic.{u64_max, csrd_checked_add_fits}
use yet_another_reuse_distan.Rd.Exact.{ExactCsrdSummary, count_access}
use yet_another_reuse_distan.Rd.Exact.Specification.{
  distance_at, observation, count_outcome, count_distance, Tally, outcomes_total, count_distance-le,
}

module _ (n ways : ℕ) (past : List ℕ) (b : ℕ) (s : ExactCsrdSummary) (small : length past < u64_max)
    (t : Tally n ways past s) where
  abbrev pub Counted : Type 0
  Counted =
      (s' : ExactCsrdSummary) × (count_access ways s (length past + 1) (distance_at n past b)
        ≡ ok (s', observation ways (distance_at n past b)))
      × Tally n ways (b ∷ past) s'

  counted_cold : distance_at n past b ≡ none → Counted
  unfolding count_access count_outcome count_distance observation
  counted_cold e = (
    record s {
      cold_misses = s.cold_misses + 1;
      unique_lines = s.unique_lines + 1;
      lookups = length past + 1;
    },
    ground (
      arith,
      e,
      t.cold_misses,
      t.unique_lines,
      outcomes_total n ways past,
      csrd_checked_add_fits s.cold_misses 1,
      csrd_checked_add_fits s.unique_lines 1,
    ),
    record {
      lookups = omega arith;
      hits = ground (arith, e, t.hits);
      cold_misses = ground (arith, e, t.cold_misses);
      replacement_misses = ground (arith, e, t.replacement_misses);
      unique_lines = ground (arith, e, t.unique_lines);
      histogram = λ d. ground (arith, e, t.histogram d);
    },
  )

  counted_hit : (d : ℕ) → distance_at n past b ≡ some d → ltb d ways ≡ true → Counted
  unfolding count_access count_outcome count_distance observation
  counted_hit d e near = (
    record s {
      hits = s.hits + 1;
      histogram = insert d (count_at d s.histogram + 1) s.histogram;
      lookups = length past + 1;
    },
    ground (
      arith,
      e,
      near,
      t.hits,
      t.histogram d,
      count_distance-le n d past,
      outcomes_total n ways past,
      csrd_checked_add_fits s.hits 1,
      csrd_checked_add_fits (count_at d s.histogram) 1,
    ),
    record {
      lookups = omega arith;
      hits = ground (arith, e, near, t.hits);
      cold_misses = ground (arith, e, near, t.cold_misses);
      replacement_misses = ground (arith, e, near, t.replacement_misses);
      unique_lines = ground (arith, e, near, t.unique_lines);
      histogram = λ j. ground (
        arith,
        e,
        t.histogram j,
        t.histogram d,
        ap (λ (k : ℕ). count_at k s.histogram) {x = j} {y = d},
        count_at-insert j d (count_at d s.histogram + 1) s.histogram,
      );
    },
  )

  counted_replacement : (d : ℕ) → distance_at n past b ≡ some d → ltb d ways ≡ false → Counted
  unfolding count_access count_outcome count_distance observation
  counted_replacement d e far = (
    record s {
      replacement_misses = s.replacement_misses + 1;
      histogram = insert d (count_at d s.histogram + 1) s.histogram;
      lookups = length past + 1;
    },
    ground (
      arith,
      e,
      far,
      t.replacement_misses,
      t.histogram d,
      count_distance-le n d past,
      outcomes_total n ways past,
      csrd_checked_add_fits s.replacement_misses 1,
      csrd_checked_add_fits (count_at d s.histogram) 1,
    ),
    record {
      lookups = omega arith;
      hits = ground (arith, e, far, t.hits);
      cold_misses = ground (arith, e, far, t.cold_misses);
      replacement_misses = ground (arith, e, far, t.replacement_misses);
      unique_lines = ground (arith, e, far, t.unique_lines);
      histogram = λ j. ground (
        arith,
        e,
        t.histogram j,
        t.histogram d,
        ap (λ (k : ℕ). count_at k s.histogram) {x = j} {y = d},
        count_at-insert j d (count_at d s.histogram + 1) s.histogram,
      );
    },
  )

  -- One access is counted as the specification says.
  pub count_access-Tally : Counted
  count_access-Tally = elim (Option-cases (distance_at n past b)) [
    | inl e ↦ counted_cold e
    | inr (d, e) ↦ elim (Bool-cases (ltb d ways)) [
      | inl near ↦ counted_hit d e near
      | inr far ↦ counted_replacement d e far
    ]
  ]
