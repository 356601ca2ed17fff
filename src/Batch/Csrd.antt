-- ===== src/Batch/Csrd.antt =====
-- backend/src/cache/rd/batch_csrd.cpp: the distances of a whole trace, set by set.
use yet_another_reuse_distan.Prelude.{
  ℕ, zero, suc, ◌+◌, ◌-◌, ◌%◌, ◌^◌, ◌≤◌, ◌<◌, ◌≡◌, refl, ◌∙◌, Bool, true, false, inl, inr, List, [],
  ◌∷◌, ◌++◌, none, some, arith, ltb, leb, lt_or_ge, get_or, set, length, length-set, replicate,
  Result, ok, throw_if, ◌>>=◌, ◌>>◌, invalid_argument,
}
use yet_another_reuse_distan.Prelude.Maps.{find, insert, count_at}
use yet_another_reuse_distan.Bits.Lowbit.{lowbit, lowbit_bounds}
use yet_another_reuse_distan.Mapping.Address.{CacheGeometry, cache_set_count}
use yet_another_reuse_distan.Mapping.Types.{CacheLineMapping}
use yet_another_reuse_distan.Rd.Exact.{hit, cold_miss, replacement_miss}
use yet_another_reuse_distan.Rd.Fenwick.{bump, prefix_sum, update, update_loop}
use yet_another_reuse_distan.Hierarchy.Types.{LruAccessResult}

-- The counts are signed 64-bit numbers there; they are kept modulo 2 ^ 64 here, as is the
-- difference that is cast to a distance.
unfoldable pub add_loop : ℕ → Bool → ℕ → List ℕ → List ℕ
unfolding bump
add_loop zero insert position tree = tree
add_loop (suc fuel) insert position tree = elim (ltb position (length tree)) [
  | false ↦ tree
  | true ↦
      add_loop fuel insert ((position + lowbit position) % 2 ^ 64)
        (set tree position (bump insert (get_or tree position 0)))
]

-- The position rises in every round, from above zero; the delta is 1 or -1.
unfoldable pub add : List ℕ → ℕ → Bool → List ℕ
unfolding add_loop
add tree position insert = add_loop (length tree) insert position tree

pub record IndexedLine : Type 0 where
  pub input_index : ℕ
  pub tag : ℕ

pub record LruSetResult : Type 0 where
  pub histogram : List (ℕ × ℕ)
  pub hits : ℕ
  pub cold_misses : ℕ
  pub replacement_misses : ℕ

pub record BatchCsrdResult : Type 0 where
  pub accesses : List LruAccessResult
  pub histogram : List (ℕ × ℕ)
  pub sets : List (ℕ × LruSetResult)
  pub hits : ℕ
  pub cold_misses : ℕ
  pub replacement_misses : ℕ

-- `++count`
unfoldable pub next : ℕ → ℕ
next n = (n + 1) % 2 ^ 64

-- `++histogram[distance]`
unfoldable pub count_distance : ℕ → List (ℕ × ℕ) → List (ℕ × ℕ)
unfolding next
count_distance d h = insert d (next (count_at d h)) h

unfoldable pub set_access : List LruAccessResult → ℕ → LruAccessResult → List LruAccessResult
set_access [] i a = []
set_access (b ∷ l) zero a = a ∷ l
set_access (b ∷ l) (suc i) a = b ∷ set_access l i a

unfoldable pub record_reuse :
    BatchCsrdResult → LruSetResult → ℕ → ℕ → ℕ → BatchCsrdResult × LruSetResult
unfolding next count_distance set_access
record_reuse result lines input_index distance associativity = elim (ltb distance associativity) [
  | true ↦ (
    record result {
      histogram = count_distance distance result.histogram;
      accesses =
          set_access result.accesses input_index
            (record { outcome = hit; reuse_distance = some distance });
      hits = next result.hits;
    },
    record lines { histogram = count_distance distance lines.histogram; hits = next lines.hits },
  )
  | false ↦ (
    record result {
      histogram = count_distance distance result.histogram;
      accesses =
          set_access result.accesses input_index
            (record { outcome = replacement_miss; reuse_distance = some distance });
      replacement_misses = next result.replacement_misses;
    },
    record lines {
      histogram = count_distance distance lines.histogram;
      replacement_misses = next lines.replacement_misses;
    },
  )
]

-- The variables of the loop over the lines of one set.
pub record SetLoop : Type 0 where
  pub positions : List ℕ
  pub last_seen : List (ℕ × ℕ)
  pub result : BatchCsrdResult
  pub lines : LruSetResult

unfoldable pub analyze_line : ℕ → ℕ → IndexedLine → SetLoop → SetLoop
unfolding next add record_reuse set_access
analyze_line associativity position line s = elim (find line.tag s.last_seen) [
  | none ↦ record {
    positions = add s.positions position true;
    last_seen = insert line.tag position s.last_seen;
    result = record s.result {
      accesses =
          set_access s.result.accesses line.input_index
            (record { outcome = cold_miss; reuse_distance = none });
      cold_misses = next s.result.cold_misses;
    };
    lines = record s.lines { cold_misses = next s.lines.cold_misses };
  }
  | some previous ↦
      let newer =
        (prefix_sum s.positions (position - 1) + 2 ^ 64 - prefix_sum s.positions previous)
        % 2 ^ 64 in
      let (result, lines) = record_reuse s.result s.lines line.input_index newer associativity in
      record {
        positions = add (add s.positions previous false) position true;
        last_seen = insert line.tag position s.last_seen;
        result = result;
        lines = lines;
      }
]

unfoldable pub analyze_lines : ℕ → ℕ → List IndexedLine → SetLoop → SetLoop
unfolding analyze_line
analyze_lines associativity position [] s = s
analyze_lines associativity position (line ∷ rest) s =
    analyze_lines associativity (position + 1) rest (analyze_line associativity position line s)

abbrev pub empty_set : LruSetResult
empty_set = record { histogram = []; hits = 0; cold_misses = 0; replacement_misses = 0 }

unfoldable pub analyze_set :
    List IndexedLine → ℕ → BatchCsrdResult → LruSetResult → BatchCsrdResult × LruSetResult
unfolding analyze_lines
analyze_set lines associativity result set =
    let s = analyze_lines associativity 1 lines (record {
      positions = replicate (length lines + 1) 0;
      last_seen = [];
      result = result;
      lines = set;
    }) in
    (s.result, s.lines)

unfoldable pub lines_at : ℕ → List (ℕ × List IndexedLine) → List IndexedLine
lines_at set m = elim (find set m) [ none ↦ [] | some lines ↦ lines ]

-- The first loop, which groups the lines by their sets.
unfoldable pub group_lines :
    ℕ
    → ℕ
    → List CacheLineMapping
    → List (ℕ × List IndexedLine)
    → Result (List (ℕ × List IndexedLine))
unfolding lines_at
group_lines set_count index [] groups = ok groups
group_lines set_count index (access ∷ accesses) groups = do
  let set = access.decoded.set_index
  throw_if (leb set_count set) invalid_argument
  group_lines set_count (index + 1) accesses (
      insert set
        (lines_at set groups ++ record { input_index = index; tag = access.decoded.tag } ∷ [])
        groups)

-- The second loop, over the sets in the order of their numbers; each begins with an empty result.
unfoldable pub analyze_sets : ℕ → List (ℕ × List IndexedLine) → BatchCsrdResult → BatchCsrdResult
unfolding analyze_set
analyze_sets associativity [] result = result
analyze_sets associativity ((set, lines) ∷ groups) result =
    let (result', lines') = analyze_set lines associativity result empty_set in
    analyze_sets associativity groups (record result' { sets = insert set lines' result'.sets })

abbrev pub unseen : LruAccessResult
unseen = record { outcome = cold_miss; reuse_distance = none }

unfoldable pub analyze_batch_csrd : List CacheLineMapping → CacheGeometry → Result BatchCsrdResult
unfolding group_lines analyze_sets
analyze_batch_csrd accesses g = do
  set_count ← cache_set_count g
  groups ← group_lines set_count 0 accesses []
  ok (
      analyze_sets g.associativity groups (record {
        accesses = replicate (length accesses) unseen;
        histogram = [];
        sets = [];
        hits = 0;
        cold_misses = 0;
        replacement_misses = 0;
      }))

add_loop-stop :
    (fuel : ℕ) (insert : Bool) (position : ℕ) (tree : List ℕ)
    → length tree ≤ position
    → add_loop fuel insert position tree ≡ tree
unfolding add_loop
add_loop-stop zero insert position tree h = refl
add_loop-stop (suc fuel) insert position tree h = ground (arith, h)

add_loop-update :
    (fuel capacity position : ℕ) (insert : Bool) (tree : List ℕ)
    → length tree ≡ capacity + 1
    → capacity < 2 ^ 63
    → 0 < position
    → capacity < position + fuel
    → add_loop (suc fuel) insert position tree ≡ update_loop fuel insert capacity position tree
unfolding add_loop update_loop
add_loop-update zero capacity position insert tree size small pos enough =
    ground (arith, size, enough)
add_loop-update (suc fuel) capacity position insert tree size small pos enough =
    elim (lt_or_ge capacity position) [
      | inl past ↦ ground (arith, size, past)
      | inr within ↦
          let low = lowbit_bounds position pos (omega (arith, within, small)) in
          let v = bump insert (get_or tree position 0) in
          let size' = length-set tree position v in
          let plain : (position + lowbit position) % 2 ^ 64 ≡ position + lowbit position =
            omega (arith, low, within, small) in
          let rest =
            add_loop-update fuel capacity (position + lowbit position) insert (set tree position v)
              (size' ∙ size) small (omega (arith, pos)) (omega (arith, low, enough)) in
          let stop =
            add_loop-stop (suc fuel) insert (position + lowbit position) (set tree position v) in
          ground (arith, size, pos, within, rest, size', plain, stop)
    ]

-- The batch analyzer's update of a tree of at most 2 ^ 63 counts, at a position above zero, is that
-- of the recency index, whose loop stops before the slot could wrap.
pub add-update :
    (capacity position : ℕ) (insert : Bool) (tree : List ℕ)
    → length tree ≡ capacity + 1
    → capacity < 2 ^ 63
    → 0 < position
    → add tree position insert ≡ update capacity tree position insert
unfolding add update
add-update capacity position insert tree size small pos =
    let rounds : length tree ≡ suc capacity = omega (arith, size) in
    rw rounds
      (add_loop-update capacity capacity position insert tree size small pos (omega (arith, pos)))
