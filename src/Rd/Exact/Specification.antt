-- ===== src/Rd/Exact/Specification.antt =====
-- What the analyzer of a level must report, from the raw trace of blocks, the newest first.
use yet_another_reuse_distan.Prelude.{
  ℕ, ◌+◌, ◌%◌, ◌≤◌, ◌≡◌, Bool, true, false, List, [], ◌∷◌, Option, none, some, arith, ltb, ◌==◌,
  if◌then◌else◌, length,
}
use yet_another_reuse_distan.Rd.History.Window.{distinct_since}
use yet_another_reuse_distan.Rd.Exact.{
  LruAccessOutcome, hit, cold_miss, replacement_miss, CsrdObservation, ExactCsrdSummary,
}
use yet_another_reuse_distan.Prelude.Maps.{count_at}

-- The blocks that map to one of `n` sets.
unfoldable pub in_set : ℕ → ℕ → List ℕ → List ℕ
in_set n set [] = []
in_set n set (b ∷ past) = if set == b % n then b ∷ in_set n set past else in_set n set past

-- The cache-set reuse distance: the distinct blocks of the same set since the last access.
unfoldable pub distance_at : ℕ → List ℕ → ℕ → Option ℕ
distance_at n past b = distinct_since b (in_set n (b % n) past)

-- A set of so many ways under LRU hits exactly the blocks nearer than its ways.
unfoldable pub outcome_of : ℕ → Option ℕ → LruAccessOutcome
outcome_of ways none = cold_miss
outcome_of ways (some d) = if ltb d ways then hit else replacement_miss

unfoldable pub observation : ℕ → Option ℕ → CsrdObservation
unfolding outcome_of
observation ways o = record { outcome = outcome_of ways o; distance = o }

unfoldable pub same_outcome : LruAccessOutcome → LruAccessOutcome → Bool
same_outcome hit hit = true
same_outcome cold_miss cold_miss = true
same_outcome replacement_miss replacement_miss = true
same_outcome _ _ = false

-- The accesses of a trace with an outcome, and those with a distance.
unfoldable pub count_outcome : ℕ → ℕ → LruAccessOutcome → List ℕ → ℕ
unfolding same_outcome outcome_of
count_outcome n ways o [] = 0
count_outcome n ways o (b ∷ past) =
    (if same_outcome o (outcome_of ways (distance_at n past b)) then 1 else 0)
    + count_outcome n ways o past

unfoldable pub is_distance : ℕ → Option ℕ → Bool
is_distance d none = false
is_distance d (some e) = d == e

unfoldable pub count_distance : ℕ → ℕ → List ℕ → ℕ
unfolding is_distance
count_distance n d [] = 0
count_distance n d (b ∷ past) =
    (if is_distance d (distance_at n past b) then 1 else 0) + count_distance n d past

-- The counters of a level after a trace.
pub record Tally (n ways : ℕ) (past : List ℕ) (s : ExactCsrdSummary) : Type 0 where
  pub lookups : s.lookups ≡ length past
  pub hits : s.hits ≡ count_outcome n ways hit past
  pub cold_misses : s.cold_misses ≡ count_outcome n ways cold_miss past
  pub replacement_misses : s.replacement_misses ≡ count_outcome n ways replacement_miss past
  pub unique_lines : s.unique_lines ≡ count_outcome n ways cold_miss past
  pub histogram : (d : ℕ) → count_at d s.histogram ≡ count_distance n d past

pub outcomes_total :
    (n ways : ℕ) (past : List ℕ)
    → count_outcome n ways hit past
        + count_outcome n ways cold_miss past
        + count_outcome n ways replacement_miss past
      ≡ length past
unfolding count_outcome
outcomes_total n ways [] = omega arith
outcomes_total n ways (b ∷ past) = ground (arith, outcomes_total n ways past)

pub count_distance-le : (n d : ℕ) (past : List ℕ) → count_distance n d past ≤ length past
unfolding count_distance
count_distance-le n d [] = omega arith
count_distance-le n d (b ∷ past) = ground (arith, count_distance-le n d past)

pub length-in_set : (n set : ℕ) (past : List ℕ) → length (in_set n set past) ≤ length past
unfolding in_set
length-in_set n set [] = omega arith
length-in_set n set (b ∷ past) = ground (arith, length-in_set n set past)
