-- ===== src/Batch/Replay.antt =====
-- The batch analysis of one set computes the distance of every line by its definition.
pub mod Finds
use yet_another_reuse_distan.Prelude.{
  ℕ, suc, ◌+◌, ◌-◌, ◌%◌, ◌^◌, ◌≤◌, ◌<◌, ◌≡◌, refl, sym, ap, ◌∙◌, true, false, inl, inr, List, [],
  ◌∷◌, ◌++◌, Option, none, some, arith, ◌==◌, if◌then◌else◌, length, replicate, length-replicate,
  get_or-replicate, Option-cases, Bool-cases, ok, ok-injective,
}
use mathlib.Core.Path.{subst, subst₂}
use yet_another_reuse_distan.Prelude.Maps.{find, insert, find-insert}
use yet_another_reuse_distan.Rd.Arithmetic.{csrd_checked_add_fits}
use yet_another_reuse_distan.Rd.Fenwick.{
  IsFenwick, prefix_sum, prefix_sum_lem, update, length-update,
}
use yet_another_reuse_distan.Rd.History.{touch, reuse_distance}
use yet_another_reuse_distan.Rd.History.Window.{history, distinct_since, reuse_distance-window}
use yet_another_reuse_distan.Rd.Slots.{Entries, count_le, emplace, assign}
use yet_another_reuse_distan.Rd.Slots.Perms.{Distinct, perm_refl}
use yet_another_reuse_distan.Rd.Slots.Order.{
  Rises, Rises-lt, find-Rises, keys, drop_key, count_le-le, count_le-below,
}
use yet_another_reuse_distan.Rd.RecencyIndex.{Platform, RecencyIndex, record_key}
use yet_another_reuse_distan.Rd.RecencyIndex.Refinement.{Represents, record_key-Represents}
use yet_another_reuse_distan.Rd.RecencyIndex.Runs.{keys-moved}
use yet_another_reuse_distan.Batch.Csrd.{
  IndexedLine, LruSetResult, BatchCsrdResult, SetLoop, next, record_reuse, set_access, add,
  analyze_line, analyze_lines, analyze_set, add-update,
}
use yet_another_reuse_distan.Rd.Exact.{cold_miss}
use yet_another_reuse_distan.Batch.Replay.Finds.{find-moved, count_le_all}

-- What the analysis does with the distance of one line.
pub note : ℕ → ℕ → Option ℕ → BatchCsrdResult → LruSetResult → BatchCsrdResult × LruSetResult
note ways index none result lines = (
  record result {
    accesses =
        set_access result.accesses index (record { outcome = cold_miss; reuse_distance = none });
    cold_misses = next result.cold_misses;
  },
  record lines { cold_misses = next lines.cold_misses },
)
note ways index (some d) result lines = record_reuse result lines index d ways

-- The lines one after the other, with the distinct tags since the last line of the same tag;
-- `past` holds the tags before, the newest first.
pub replay :
    ℕ → List ℕ → List IndexedLine → BatchCsrdResult → LruSetResult → BatchCsrdResult × LruSetResult
replay ways past [] result set = (result, set)
replay ways past (line ∷ lines) result set =
    let (result', set') = note ways line.input_index (distinct_since line.tag past) result set in
    replay ways (line.tag ∷ past) lines result' set'

-- The loop has seen the entries `m`, oldest first, in a tree of so many slots.
record Sees (capacity position : ℕ) (m : Entries) (s : SetLoop) : Type 0 where
  tree : IsFenwick capacity (λ i. count_le i m) s.positions
  distinct : Distinct m
  rises : Rises 0 m position
  seen : (k : ℕ) → find k s.last_seen ≡ find k m

abbrev some_platform : Platform
some_platform = record { tree_max_size = 2; pairs_max_size = 0; vector_capacity = λ n. n }

-- A recency index with the same tree.
abbrev index_of : ℕ → ℕ → Entries → List ℕ → RecencyIndex
index_of capacity position m positions = record {
  slots = m;
  tree = positions;
  capacity_floor = 1;
  slot_limit = 0;
  capacity = capacity;
  next_slot = position;
  active_count = length m;
  measure_statistics = false;
  compaction_count = 0;
  compaction_time_ns = 0;
  maximum_compaction_scratch_bytes = 0;
}

index_of-Represents :
    (capacity position : ℕ) (m : Entries) (s : SetLoop)
    → capacity < 2 ^ 63
    → position ≤ capacity
    → Sees capacity position m s
    → Represents some_platform 0 (index_of capacity position m s.positions) m
index_of-Represents capacity position m s small room v = record {
  slots = perm_refl m;
  distinct = v.distinct;
  rises = v.rises;
  active = refl;
  room = omega (arith, room);
  small = omega (arith, small);
  tree = v.tree;
  floor = omega arith;
  floor_fits = omega arith;
  slot_limit = refl;
  unmeasured = refl;
}

module _ (capacity ways position : ℕ) (line : IndexedLine) (m : Entries) (s : SetLoop)
    (small : capacity < 2 ^ 63) (room : position ≤ capacity) (v : Sees capacity position m s) where
  index : RecencyIndex
  index = index_of capacity position m s.positions

  recorded :
      (r' : RecencyIndex) × (record_key index line.tag ≡ ok (r', reuse_distance line.tag (keys m)))
      × Represents some_platform 0 r' (drop_key line.tag m ++ (line.tag, position) ∷ [])
  unfolding index
  recorded =
      record_key-Represents some_platform 0 (omega arith) index m
        (index_of-Represents capacity position m s small room v) line.tag room

  pos : 0 < position
  pos = omega (arith, Rises-lt 0 m position v.rises)

  last_seen_lem :
      (k : ℕ)
      → find k (insert line.tag position s.last_seen)
        ≡ find k (drop_key line.tag m ++ (line.tag, position) ∷ [])
  last_seen_lem k =
      find-insert k line.tag position s.last_seen
      ∙ ap (λ o. if k == line.tag then some position else o) (v.seen k)
      ∙ sym (find-moved k line.tag position m v.distinct)

  moved : Entries
  moved = drop_key line.tag m ++ (line.tag, position) ∷ []

  -- The loop after the line, in the tree of an index that represents the moved entries.
  step : BatchCsrdResult × LruSetResult → List ℕ → SetLoop
  step (result, lines) positions = record {
    positions = positions;
    last_seen = insert line.tag position s.last_seen;
    result = result;
    lines = lines;
  }

  step-Sees :
      (out : BatchCsrdResult × LruSetResult) (positions : List ℕ) (r : RecencyIndex)
      → Represents some_platform 0 r moved
      → r.capacity ≡ capacity
      → r.next_slot ≡ suc position
      → positions ≡ r.tree
      → Sees capacity (suc position) moved (step out positions)
  unfolding step moved
  step-Sees out positions r w c n e = record {
    tree = subst₂ (λ (k : ℕ) (t : List ℕ). IsFenwick k (λ i. count_le i moved) t) c (sym e) w.tree;
    distinct = w.distinct;
    rises = subst (λ (k : ℕ). Rises 0 moved k) n w.rises;
    seen = last_seen_lem;
  }

  -- The line is noted with the distance of its tag, and the loop has seen it.
  Stepped : Type 0
  Stepped =
      Sees capacity (suc position) moved (analyze_line ways position line s)
      × (((analyze_line ways position line s).result, (analyze_line ways position line s).lines)
          ≡ note ways line.input_index (reuse_distance line.tag (keys m)) s.result s.lines)

  step-Stepped :
      (positions : List ℕ) (r : RecencyIndex) (o : Option ℕ)
      → record_key index line.tag ≡ ok (r, o)
      → r.capacity ≡ capacity
      → r.next_slot ≡ suc position
      → positions ≡ r.tree
      → analyze_line ways position line s
        ≡ step (note ways line.input_index o s.result s.lines) positions
      → Stepped
  unfolding Stepped step moved
  step-Stepped positions r o ran c n t e =
      let (r', ran', w) = recorded in
      let both : ◌≡◌ {A = RecencyIndex × Option ℕ} (r', reuse_distance line.tag (keys m)) (r, o) =
        ok-injective (sym ran' ∙ ran) in
      let w' = subst (λ z. Represents some_platform 0 z moved) (ap (λ z. z.0) both) w in
      let out = note ways line.input_index o s.result s.lines in
      (
        subst (Sees capacity (suc position) moved) (sym e) (step-Sees out positions r w' c n t),
        ap (λ z. (z.result, z.lines)) e
            ∙ ap (λ z. note ways line.input_index z s.result s.lines) (sym (ap (λ z. z.1) both)),
      )

  cold_line : find line.tag m ≡ none → Stepped
  unfolding analyze_line note step record_key index
  cold_line new =
      let positions = add s.positions position true in
      let tree = add-update capacity position true s.positions v.tree.size small pos in
      let absent : find line.tag s.last_seen ≡ none = v.seen line.tag ∙ new in
      let done : RecencyIndex = record index {
        slots = emplace line.tag position m;
        active_count = length m + 1;
        tree = update capacity s.positions position true;
        next_slot = position + 1;
      } in
      step-Stepped positions done none
        (ground (
          arith,
          new,
          csrd_checked_add_fits position 1 (omega (arith, room, small)),
          csrd_checked_add_fits (length m) 1
              (omega (arith, room, small, Rises-lt 0 m position v.rises)),
        ))
        refl (omega arith) tree (ground (arith, absent))

  reused_line : (slot : ℕ) → find line.tag m ≡ some slot → Stepped
  unfolding analyze_line note step record_key index
  reused_line slot old =
      let seen : find line.tag s.last_seen ≡ some slot = v.seen line.tag ∙ old in
      let below = find-Rises 0 line.tag m position {s = slot} v.rises old in
      let tree = add-update capacity slot false s.positions v.tree.size small below.0 in
      let kept : length (update capacity s.positions slot false) ≡ capacity + 1 =
        length-update capacity s.positions slot false (omega (arith, small)) ∙ v.tree.size in
      let tree' =
        add-update capacity position true (update capacity s.positions slot false) kept small pos in
      let all : prefix_sum s.positions (position - 1) ≡ length m =
        prefix_sum_lem capacity (λ i. count_le i m) s.positions (omega (arith, small))
          (position - 1) v.tree (count_le-below 0 0 m position v.rises (omega arith))
          (omega (arith, room))
          (omega (arith, count_le-le (position - 1) m, Rises-lt 0 m position v.rises, room, small))
        ∙ count_le_all 0 m position (position - 1) v.rises (omega (arith, pos)) in
      let distance = (length m + 2 ^ 64 - prefix_sum s.positions slot) % 2 ^ 64 in
      let done : RecencyIndex = record index {
        slots = assign line.tag position m;
        tree = update capacity (update capacity s.positions slot false) position true;
        next_slot = position + 1;
      } in
      step-Stepped (add (add s.positions slot false) position true) done (some distance)
        (ground (arith, old, csrd_checked_add_fits position 1 (omega (arith, room, small)))) refl
        (omega arith) (ap (λ t. add t position true) tree ∙ tree') (ground (arith, seen, all))

  analyze_line-Stepped : Stepped
  analyze_line-Stepped = elim (Option-cases (find line.tag m)) [
    | inl new ↦ cold_line new
    | inr (slot, old) ↦ reused_line slot old
  ]

analyze_lines-replay :
    (capacity ways position : ℕ) (past : List ℕ) (lines : List IndexedLine) (m : Entries)
    (s : SetLoop)
    → capacity < 2 ^ 63
    → position + length lines ≤ capacity + 1
    → keys m ≡ history past
    → Sees capacity position m s
    → ((analyze_lines ways position lines s).result, (analyze_lines ways position lines s).lines)
      ≡ replay ways past lines s.result s.lines
unfolding analyze_lines replay Stepped moved
analyze_lines-replay capacity ways position past [] m s small room h v = refl
analyze_lines-replay capacity ways position past (line ∷ lines) m s small room h v =
    let (v', noted) =
      analyze_line-Stepped capacity ways position line m s small (omega (arith, room)) v in
    let m' = drop_key line.tag m ++ (line.tag, position) ∷ [] in
    let h' : keys m' ≡ history (line.tag ∷ past) =
      unfold history in keys-moved m line.tag position ∙ ap (touch line.tag) h in
    let distance : reuse_distance line.tag (keys m) ≡ distinct_since line.tag past =
      ap (reuse_distance line.tag) h ∙ reuse_distance-window line.tag past in
    let rest =
      analyze_lines-replay capacity ways (position + 1) (line.tag ∷ past) lines m'
        (analyze_line ways position line s) small (omega (arith, room)) h'
        (subst (λ (n : ℕ). Sees capacity n m' (analyze_line ways position line s)) (omega arith)
          v') in
    rest
    ∙ ap (λ z. replay ways (line.tag ∷ past) lines z.0 z.1)
        (noted ∙ ap (λ o. note ways line.input_index o s.result s.lines) distance)

-- The analysis of one set of fewer than 2 ^ 63 lines records each line, in order, as a cold miss
-- where its tag is new, and otherwise with the number of distinct tags since the last line of that
-- tag as its distance.
pub analyze_set-replay :
    (lines : List IndexedLine) (ways : ℕ) (result : BatchCsrdResult) (set : LruSetResult)
    → length lines < 2 ^ 63
    → analyze_set lines ways result set ≡ replay ways [] lines result set
unfolding analyze_set history
analyze_set-replay lines ways result set small =
    analyze_lines-replay (length lines) ways 1 [] lines []
      (record {
        positions = replicate (length lines + 1) 0;
        last_seen = [];
        result = result;
        lines = set;
      })
      small (omega arith) refl
      (record {
        tree = record {
          size = length-replicate {A = ℕ} (length lines + 1) 0;
          node = λ i q c.
              unfold count_le in omega (arith, get_or-replicate {A = ℕ} (length lines + 1) i 0);
        };
        distinct = tt;
        rises = omega arith;
        seen = λ k. refl;
      })
