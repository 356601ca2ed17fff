-- ===== src/Rd/Exact/Runs.antt =====
-- Whole runs of the analyzer of one level, from a cold start.
use yet_another_reuse_distan.Prelude.{
  ℕ, suc, ◌+◌, ◌/◌, ◌<◌, ◌≡◌, refl, false, List, [], ◌∷◌, arith, length, Result, ok, ◌>>=◌,
}
use yet_another_reuse_distan.Mapping.Address.{CacheGeometry, cache_set_count, decode_cache_address}
use yet_another_reuse_distan.Prelude.Maps.{find, count_at}
use yet_another_reuse_distan.Rd.Arithmetic.{u64_max}
use yet_another_reuse_distan.Rd.RecencyIndex.{Platform, Clock}
use yet_another_reuse_distan.Rd.Exact.{
  ExactCsrdAnalyzer, CsrdObservation, empty_summary, make, observe,
}
use yet_another_reuse_distan.Rd.Exact.Specification.{
  in_set, distance_at, observation, count_outcome, count_distance, Tally,
}
use yet_another_reuse_distan.Rd.Exact.Refinement.{Tracks, Room, observe-Tracks}

-- A sequence of addresses, each decoded and observed, with the readings of the clock.
pub observe_all :
    Platform
    → CacheGeometry
    → ExactCsrdAnalyzer
    → List (Clock × ℕ)
    → Result (ExactCsrdAnalyzer × List CsrdObservation)
observe_all p g a [] = ok (a, [])
observe_all p g a ((c, address) ∷ calls) = do
  d ← decode_cache_address address g
  (a', observation) ← observe p c a d
  (a'', rest) ← observe_all p g a' calls
  ok (a'', observation ∷ rest)

-- What the raw trace of blocks says of them.
pub expected : CacheGeometry → ℕ → List ℕ → List (Clock × ℕ) → List CsrdObservation
expected g n past [] = []
expected g n past ((c, address) ∷ calls) =
    let b = address / g.line_size in
    observation g.associativity (distance_at n past b) ∷ expected g n (b ∷ past) calls

-- The trace after them.
pub blocks : CacheGeometry → List ℕ → List (Clock × ℕ) → List ℕ
blocks g past [] = past
blocks g past ((c, address) ∷ calls) = blocks g (address / g.line_size ∷ past) calls

pub make-Tracks :
    (p : Platform) (g : CacheGeometry) (n : ℕ)
    → cache_set_count g ≡ ok n
    → (a : ExactCsrdAnalyzer) × (make g false ≡ ok a) × Tracks p g n [] a
unfolding make in_set count_outcome count_distance find count_at
make-Tracks p g n e = (
  record {
    geometry = g;
    set_count = n;
    measure_statistics = false;
    summary = empty_summary;
    sets = [];
  },
  rw e refl,
  record {
    geometry = refl;
    set_count = refl;
    unmeasured = refl;
    tally = record {
      lookups = refl;
      hits = refl;
      cold_misses = refl;
      replacement_misses = refl;
      unique_lines = refl;
      histogram = λ d. refl;
    };
    sets = λ set. refl;
  },
)

observe_all-Tracks :
    (p : Platform) (g : CacheGeometry) (n : ℕ) (past : List ℕ) (a : ExactCsrdAnalyzer)
    (calls : List (Clock × ℕ))
    → cache_set_count g ≡ ok n
    → Room p (length past + length calls)
    → length past + length past + length calls + length calls < u64_max
    → Tracks p g n past a
    → (a' : ExactCsrdAnalyzer) × (observe_all p g a calls ≡ ok (a', expected g n past calls))
      × Tracks p g n (blocks g past calls) a'
unfolding observe_all expected blocks decode_cache_address
observe_all-Tracks p g n past a [] e room small t = (a, refl, t)
observe_all-Tracks p g n past a ((c, address) ∷ calls) e room small t =
    let now : Room p (length past) = omega (arith, room) in
    let (a', seen, t') = observe-Tracks p c g n past a address now (omega (arith, small)) t in
    let later : Room p (suc (length past) + length calls) = omega (arith, room) in
    let (a'', rest, t'') =
      observe_all-Tracks p g n (address / g.line_size ∷ past) a' calls e later
        (omega (arith, small)) t' in
    (a'', rw (e, seen) (rw rest refl), t'')

-- A cold analyzer over any sequence of addresses for which there is room never throws; it reports
-- for each the number of distinct blocks of the same set since the last access to its block, a hit
-- exactly where that is below the associativity, and its counters and its histogram are the
-- numbers of the accesses with each outcome and each distance.
pub observe_all-exact :
    (p : Platform) (g : CacheGeometry) (n : ℕ) (calls : List (Clock × ℕ))
    → cache_set_count g ≡ ok n
    → Room p (length calls)
    → length calls + length calls < u64_max
    → (a : ExactCsrdAnalyzer) × ((make g false >>= λ start. observe_all p g start calls)
        ≡ ok (a, expected g n [] calls))
      × Tally n g.associativity (blocks g [] calls) a.summary
observe_all-exact p g n calls e room small =
    let (start, made, t) = make-Tracks p g n e in
    let there : Room p (0 + length calls) = omega (arith, room) in
    let (a, run, t') = observe_all-Tracks p g n [] start calls e there (omega (arith, small)) t in
    (a, rw made run, t'.tally)
