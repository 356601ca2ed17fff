-- ===== src/Tests/Index.antt =====
-- The recency index and the analyzer on short traces.
use mathlib.Core.Path.{subst}
use yet_another_reuse_distan.Prelude.Maps.{find}
use yet_another_reuse_distan.Bits.Lowbit.{lowbit}
use yet_another_reuse_distan.Rd.Fenwick.{IsFenwick}
use yet_another_reuse_distan.Rd.Slots.{count_le}
use yet_another_reuse_distan.Rd.Slots.Perms.{perm_refl}
use yet_another_reuse_distan.Rd.RecencyIndex.Refused.{Returns, observe_refused_iff}
use yet_another_reuse_distan.Prelude.{
  ℕ, ◌+◌, ◌-◌, ◌<◌, ◌≤◌, ◌↔◌, ◌⊎◌, get_or, ◌/◌, ◌≡◌, refl, List, [], ◌∷◌, false, ok, throw, arith,
  overflow_error, ◌>>=◌,
}
use yet_another_reuse_distan.Tests.Data.{platform, small_cache, clock, timed}
use yet_another_reuse_distan.Mapping.Address.{cache_set_count, partition}
use yet_another_reuse_distan.Mapping.Address.Partition.{cache_set_count_iff}
use yet_another_reuse_distan.Rd.RecencyIndex.{RecencyIndex}
use yet_another_reuse_distan.Rd.RecencyIndex
use yet_another_reuse_distan.Rd.RecencyIndex.Runs.{observe_all as index_all}
use yet_another_reuse_distan.Rd.RecencyIndex.Runs.{
  distances, observe_all-distances, Holds, observe-Holds, make-Holds,
}
use yet_another_reuse_distan.Rd.History.{touch, reuse_distance}
use yet_another_reuse_distan.Rd.History.Window.{reuse_distance-window, history, distinct_since}
use yet_another_reuse_distan.Rd.Exact
use yet_another_reuse_distan.Rd.Exact.{ExactCsrdAnalyzer}
use yet_another_reuse_distan.Rd.Exact.Specification.{Tally, observation, distance_at}
use yet_another_reuse_distan.Rd.Exact.Runs.{observe_all as analyze_all}
use yet_another_reuse_distan.Rd.Exact.Runs.{expected, blocks, observe_all-exact, make-Tracks}
use yet_another_reuse_distan.Rd.Exact.Refinement.{Tracks, observe-Tracks}

abbrev calls : List ℕ
calls = 5 ∷ 6 ∷ 7 ∷ 5 ∷ 5 ∷ 6 ∷ []

-- Three slots, so that the index compacts on the way.
observe_all-distances_example :
    (r : RecencyIndex) × ((RecencyIndex.make platform 3 1000 false >>= λ i.
    index_all platform i (timed calls))
      ≡ ok (r, distances [] (timed calls)))
observe_all-distances_example =
    observe_all-distances platform 3 1000 (timed calls) (omega arith) (omega arith) (omega arith)
      (omega arith)

fresh :
    (r : RecencyIndex) × (RecencyIndex.make platform 3 1000 false ≡ ok r) × Holds platform 1000 r []
fresh = make-Holds platform 3 1000 (omega arith) (omega arith) (omega arith) (omega arith)

observe-Holds_example :
    (r' : RecencyIndex) × (RecencyIndex.observe platform clock fresh.0 5
      ≡ ok (r', reuse_distance 5 []))
    × Holds platform 1000 r' (touch 5 [])
observe-Holds_example = observe-Holds platform 1000 clock fresh.0 [] 5 (omega arith) fresh.2

reuse_distance-window_example : reuse_distance 5 (history calls) ≡ distinct_since 5 calls
reuse_distance-window_example = reuse_distance-window 5 calls

-- One active key in one slot, and no room for a second.
abbrev exhausted : RecencyIndex
exhausted = record {
  slots = (7, 1) ∷ [];
  tree = 0 ∷ 1 ∷ [];
  capacity_floor = 1;
  slot_limit = 1;
  capacity = 1;
  next_slot = 2;
  active_count = 1;
  measure_statistics = false;
  compaction_count = 0;
  compaction_time_ns = 0;
  maximum_compaction_scratch_bytes = 0;
}

exhausted_tree : IsFenwick 1 (λ i. count_le i ((7, 1) ∷ [])) (0 ∷ 1 ∷ [])
unfolding count_le lowbit
exhausted_tree = record {
  size = refl;
  node = λ i positive small.
      let e : 1 ≡ i = omega (arith, positive, small) in
      subst
        (λ (j : ℕ).
          get_or (0 ∷ 1 ∷ []) j 0 + count_le (j - lowbit j) ((7, 1) ∷ [])
          ≡ count_le j ((7, 1) ∷ []))
        e refl;
}

-- It holds the history of its key.
exhausted-Holds : Holds platform 1 exhausted (7 ∷ [])
unfolding find
exhausted-Holds = (
  (7, 1) ∷ [],
  refl,
  record {
    slots = perm_refl ((7, 1) ∷ []);
    distinct = (refl, tt);
    rises = omega arith;
    active = refl;
    room = omega arith;
    small = omega arith;
    tree = exhausted_tree;
    floor = omega arith;
    floor_fits = omega arith;
    slot_limit = refl;
    unmeasured = refl;
  },
)

observe_refused_iff_example :
    ((RecencyIndex.observe platform clock exhausted 8 ≡ throw overflow_error) ↔ ((1 < 2) × (1 < 2)))
    × (Returns platform 1 clock exhausted (7 ∷ []) 8 ↔ ((2 ≤ 1) ⊎ (2 ≤ 1)))
observe_refused_iff_example =
    observe_refused_iff platform 1 clock exhausted (7 ∷ []) 8 (omega arith) exhausted-Holds

abbrev addresses : List ℕ
addresses = 0 ∷ 64 ∷ 4 ∷ 128 ∷ 32 ∷ 192 ∷ 64 ∷ []

two_sets : cache_set_count small_cache ≡ ok 2
two_sets =
    (cache_set_count_iff small_cache 2).1
      (5, 1, 1, record { line_size = refl; line_count = refl; associativity = refl }, refl)

observe_all-exact_example :
    (a : ExactCsrdAnalyzer) × ((Exact.make small_cache false >>= λ start.
    analyze_all platform small_cache start (timed addresses))
      ≡ ok (a, expected small_cache 2 [] (timed addresses)))
    × Tally 2 2 (blocks small_cache [] (timed addresses)) a.summary
observe_all-exact_example =
    observe_all-exact platform small_cache 2 (timed addresses) two_sets (omega arith) (omega arith)

cold :
    (a : ExactCsrdAnalyzer) × (Exact.make small_cache false ≡ ok a)
    × Tracks platform small_cache 2 [] a
cold = make-Tracks platform small_cache 2 two_sets

observe-Tracks_example :
    (a : ExactCsrdAnalyzer) × (Exact.observe platform clock cold.0 (partition 2 small_cache 77)
      ≡ ok (a, observation 2 (distance_at 2 [] (77 / 32))))
    × Tracks platform small_cache 2 (77 / 32 ∷ []) a
observe-Tracks_example =
    observe-Tracks platform clock small_cache 2 [] cold.0 77 (omega arith) (omega arith) cold.2
