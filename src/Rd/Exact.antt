-- ===== src/Rd/Exact.antt =====
-- backend/src/cache/rd/exact_csrd.cpp: the streaming analyzer of one cache level, a recency index
-- for each set that was touched.
pub mod Specification
pub mod Counters
pub mod Runs
pub mod Refinement
use yet_another_reuse_distan.Prelude.{
  ℕ, ◌+◌, ◌/◌, ◌%◌, Bool, true, false, not, ◌||◌, List, [], Option, none, some, ltb, ◌==◌,
  if◌then◌else◌, Result, ok, throw_if, ◌>>=◌, ◌>>◌, invalid_argument,
}
use yet_another_reuse_distan.Prelude.Maps.{find, insert, count_at}
use yet_another_reuse_distan.Mapping.Address.{CacheGeometry, DecodedCacheAddress, cache_set_count}
use yet_another_reuse_distan.Rd.Arithmetic.{u64_max, csrd_checked_add}
use yet_another_reuse_distan.Rd.RecencyIndex.{Platform, Clock, RecencyIndex}
use yet_another_reuse_distan.Rd.RecencyIndex

pub data LruAccessOutcome : Type 0 where
  hit cold_miss replacement_miss : LruAccessOutcome

pub record CsrdObservation : Type 0 where
  pub outcome : LruAccessOutcome
  pub distance : Option ℕ

pub record ExactCsrdSummary : Type 0 where
  pub lookups : ℕ
  pub hits : ℕ
  pub cold_misses : ℕ
  pub replacement_misses : ℕ
  pub unique_lines : ℕ
  pub histogram : List (ℕ × ℕ)

pub record ExactCsrdAnalyzer : Type 0 where
  pub geometry : CacheGeometry
  pub set_count : ℕ
  pub measure_statistics : Bool
  pub summary : ExactCsrdSummary
  pub sets : List (ℕ × RecencyIndex)

abbrev pub empty_summary : ExactCsrdSummary
empty_summary = record {
  lookups = 0;
  hits = 0;
  cold_misses = 0;
  replacement_misses = 0;
  unique_lines = 0;
  histogram = [];
}

unfoldable pub make : CacheGeometry → Bool → Result ExactCsrdAnalyzer
make g measure_statistics = do
  set_count ← cache_set_count g
  ok (record {
    geometry = g;
    set_count = set_count;
    measure_statistics = measure_statistics;
    summary = empty_summary;
    sets = [];
  })

-- The test of a decoded address against the geometry of the analyzer.
unfoldable pub is_inconsistent : ExactCsrdAnalyzer → DecodedCacheAddress → Bool
is_inconsistent a d =
    not (d.block_number == d.address / a.geometry.line_size)
    || not (d.set_index == d.block_number % a.set_count)
    || not (d.tag == d.block_number / a.set_count)
    || not (d.line_offset == d.address % a.geometry.line_size)

-- The index of a set, which its first access makes.
unfoldable pub set_state : Platform → ExactCsrdAnalyzer → ℕ → Result RecencyIndex
set_state p a set = elim (find set a.sets) [
  | none ↦ RecencyIndex.make p 16 u64_max a.measure_statistics
  | some r ↦ ok r
]

unfoldable pub count_cold : ExactCsrdSummary → ℕ → Result (ExactCsrdSummary × CsrdObservation)
count_cold s lookups = do
  cold ← csrd_checked_add s.cold_misses 1
  unique ← csrd_checked_add s.unique_lines 1
  ok (
    record s { cold_misses = cold; unique_lines = unique; lookups = lookups },
    record { outcome = cold_miss; distance = none },
  )

unfoldable pub count_reuse :
    ℕ → ExactCsrdSummary → ℕ → ℕ → Result (ExactCsrdSummary × CsrdObservation)
count_reuse associativity s lookups distance = elim (ltb distance associativity) [
  | true ↦ do
    count ← csrd_checked_add s.hits 1
    frequency ← csrd_checked_add (count_at distance s.histogram) 1
    ok (
      record s {
        hits = count;
        histogram = insert distance frequency s.histogram;
        lookups = lookups;
      },
      record { outcome = hit; distance = some distance },
    )
  | false ↦ do
    count ← csrd_checked_add s.replacement_misses 1
    frequency ← csrd_checked_add (count_at distance s.histogram) 1
    ok (
      record s {
        replacement_misses = count;
        histogram = insert distance frequency s.histogram;
        lookups = lookups;
      },
      record { outcome = replacement_miss; distance = some distance },
    )
]

-- The counters after a distance is known.
unfoldable pub count_access :
    ℕ → ExactCsrdSummary → ℕ → Option ℕ → Result (ExactCsrdSummary × CsrdObservation)
unfolding count_cold count_reuse
count_access associativity s lookups none = count_cold s lookups
count_access associativity s lookups (some d) = count_reuse associativity s lookups d

unfoldable pub observe :
    Platform
    → Clock
    → ExactCsrdAnalyzer
    → DecodedCacheAddress
    → Result (ExactCsrdAnalyzer × CsrdObservation)
observe p c a d = do
  throw_if (is_inconsistent a d) invalid_argument
  lookups ← csrd_checked_add a.summary.lookups 1
  state ← set_state p a d.set_index
  (state', distance) ← RecencyIndex.observe p c state d.block_number
  (summary, observation) ← count_access a.geometry.associativity a.summary lookups distance
  ok (record a { summary = summary; sets = insert d.set_index state' a.sets }, observation)
