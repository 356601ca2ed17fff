-- ===== src/Rd/Statistics.antt =====
-- backend/src/cache/rd/csrd_statistics.cpp and recency_statistics.cpp: measured storage.
use yet_another_reuse_distan.Prelude.{
  ℕ, ◌+◌, ◌≡◌, ◌∙◌, max, not, List, [], ◌∷◌, arith, Result, ok, throw_if, ◌>>=◌, ◌>>◌, logic_error,
  length, >>=-eq-ok, ok-injective,
}
use yet_another_reuse_distan.Rd.Arithmetic.{csrd_checked_add, csrd_checked_add_within}
use yet_another_reuse_distan.Rd.RecencyIndex.{Platform, RecencyIndex}
use yet_another_reuse_distan.Rd.Exact.{ExactCsrdAnalyzer}

pub record CsrdStatistics : Type 0 where
  pub touched_sets : ℕ
  pub active_history_entries : ℕ
  pub fenwick_slots : ℕ
  pub allocated_fenwick_elements : ℕ
  pub hash_buckets : ℕ
  pub histogram_keys : ℕ
  pub compaction_count : ℕ
  pub compaction_time_ns : ℕ
  pub maximum_compaction_scratch_bytes : ℕ

-- `buckets` stands for `bucket_count()` of the hash map of slots.
module _ (p : Platform) (buckets : RecencyIndex → ℕ) where
  unfoldable pub index_statistics : RecencyIndex → Result CsrdStatistics
  index_statistics r = do
    throw_if (not r.measure_statistics) logic_error
    ok (record {
      touched_sets = 1;
      active_history_entries = r.active_count;
      fenwick_slots = r.capacity;
      allocated_fenwick_elements = p.vector_capacity (length r.tree);
      hash_buckets = buckets r;
      histogram_keys = 0;
      compaction_count = r.compaction_count;
      compaction_time_ns = r.compaction_time_ns;
      maximum_compaction_scratch_bytes = r.maximum_compaction_scratch_bytes;
    })

-- The loop over the members that are summed.
unfoldable pub add_statistics : CsrdStatistics → CsrdStatistics → Result CsrdStatistics
add_statistics total state = do
  entries ← csrd_checked_add total.active_history_entries state.active_history_entries
  slots ← csrd_checked_add total.fenwick_slots state.fenwick_slots
  elements ← csrd_checked_add total.allocated_fenwick_elements state.allocated_fenwick_elements
  hash ← csrd_checked_add total.hash_buckets state.hash_buckets
  count ← csrd_checked_add total.compaction_count state.compaction_count
  time ← csrd_checked_add total.compaction_time_ns state.compaction_time_ns
  ok (record total {
    active_history_entries = entries;
    fenwick_slots = slots;
    allocated_fenwick_elements = elements;
    hash_buckets = hash;
    compaction_count = count;
    compaction_time_ns = time;
    maximum_compaction_scratch_bytes =
        max total.maximum_compaction_scratch_bytes state.maximum_compaction_scratch_bytes;
  })

module _ (p : Platform) (buckets : RecencyIndex → ℕ) where
  -- The loop over the sets.
  unfoldable pub sum_statistics : CsrdStatistics → List (ℕ × RecencyIndex) → Result CsrdStatistics
  unfolding index_statistics add_statistics
  sum_statistics total [] = ok total
  sum_statistics total ((set, r) ∷ sets) = do
    state ← index_statistics p buckets r
    total' ← add_statistics total state
    sum_statistics total' sets

  unfoldable pub statistics : ExactCsrdAnalyzer → Result CsrdStatistics
  unfolding sum_statistics
  statistics a = do
    throw_if (not a.measure_statistics) logic_error
    sum_statistics
        (record {
          touched_sets = length a.sets;
          active_history_entries = 0;
          fenwick_slots = 0;
          allocated_fenwick_elements = 0;
          hash_buckets = 0;
          histogram_keys = length a.summary.histogram;
          compaction_count = 0;
          compaction_time_ns = 0;
          maximum_compaction_scratch_bytes = 0;
        })
        a.sets

  -- The keys that all the indices hold.
  pub active_in : List (ℕ × RecencyIndex) → ℕ
  active_in [] = 0
  active_in ((set, r) ∷ sets) = r.active_count + active_in sets

  summed :
      (total out : CsrdStatistics) (sets : List (ℕ × RecencyIndex))
      → sum_statistics total sets ≡ ok out
      → (out.active_history_entries ≡ total.active_history_entries + active_in sets)
        × (out.touched_sets ≡ total.touched_sets)
        × (out.histogram_keys ≡ total.histogram_keys)
  unfolding sum_statistics active_in index_statistics add_statistics csrd_checked_add
      csrd_checked_add_within
  summed total out [] h =
      let e = ok-injective h in (ground (arith, e), ground (arith, e), ground (arith, e))
  summed total out ((set, r) ∷ sets) h =
      let (state, one, h₁) = >>=-eq-ok (index_statistics p buckets r) _ h in
      let (total', added, h₂) = >>=-eq-ok (add_statistics total state) _ h₁ in
      let (entries, touched, keys) = summed total' out sets h₂ in
      (
        ground (arith, one, added, entries),
        ground (arith, added, touched),
        ground (arith, added, keys),
      )

  -- A snapshot that is taken counts every touched set, every key of the histogram and the active
  -- keys of all the sets, with no wrap.
  pub statistics-totals :
      (a : ExactCsrdAnalyzer) (out : CsrdStatistics)
      → statistics a ≡ ok out
      → (out.active_history_entries ≡ active_in a.sets)
        × (out.touched_sets ≡ length a.sets)
        × (out.histogram_keys ≡ length a.summary.histogram)
  unfolding statistics
  statistics-totals a out h =
      let (u, on, h₁) = >>=-eq-ok (throw_if (not a.measure_statistics) logic_error) _ h in
      let (entries, touched, keys) = summed _ out a.sets h₁ in
      (entries ∙ omega arith, touched, keys)
