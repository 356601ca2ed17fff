-- ===== src/Rd/RecencyIndex/Runs.antt =====
-- Whole runs of `RecencyIndex`: every sequence of observations returns the exact distances.
use yet_another_reuse_distan.Prelude.{
  ℕ, ◌+◌, ◌^◌, ◌≤◌, ◌<◌, ◌≡◌, refl, sym, ap, ◌∙◌, false, inl, inr, List, [], ◌∷◌, ◌++◌, Option,
  arith, length, length-append, Result, ok, ◌>>=◌, lt_or_ge, lt→ltb, ge→ltb, replicate,
  length-replicate, get_or-replicate,
}
use mathlib.Core.List.{Permᴰ}
use yet_another_reuse_distan.Rd.Arithmetic.{csrd_checked_add_fits, csrd_storage_size_fits}
use yet_another_reuse_distan.Rd.History.{remove, touch, reuse_distance}
use yet_another_reuse_distan.Rd.History.Window.{history, distinct_since, reuse_distance-window}
use yet_another_reuse_distan.Rd.Slots.{Entries, count_le}
use yet_another_reuse_distan.Rd.Slots.Order.{length-keys, keys, drop_key}
use yet_another_reuse_distan.Rd.Slots.Moves.{keys-drop_key, relabel, keys-relabel}
use yet_another_reuse_distan.Rd.RecencyIndex.{Platform, Clock, RecencyIndex, make, observe}
use yet_another_reuse_distan.Rd.RecencyIndex.Refinement.{
  Represents, compacted, compact-Represents, record_key-Represents,
}

-- The index holds the history `h` of distinct keys, oldest first.
abbrev pub Holds : Platform → ℕ → RecencyIndex → List ℕ → Type 0
Holds p limit r h = (m : Entries) × (keys m ≡ h) × Represents p limit r m

pub keys-snoc : (m : Entries) (k s : ℕ) → keys (m ++ (k, s) ∷ []) ≡ keys m ++ k ∷ []
keys-snoc [] k s = refl
keys-snoc ((j, t) ∷ m) k s = ap (◌∷◌ j) (keys-snoc m k s)

pub keys-moved : (m : Entries) (k s : ℕ) → keys (drop_key k m ++ (k, s) ∷ []) ≡ touch k (keys m)
unfolding touch
keys-moved m k s = keys-snoc (drop_key k m) k s ∙ ap (λ l. l ++ k ∷ []) (keys-drop_key k m)

-- The sizes of the containers, and the limit, leave room for `n` distinct keys.
pub record Fits (p : Platform) (limit n : ℕ) : Type 0 where
  pub words : p.tree_max_size < 2 ^ 64
  pub slots : n + n ≤ limit
  pub tree : n + n < p.tree_max_size
  pub pairs : n ≤ p.pairs_max_size

-- One observation returns the distance that the history gives its key, and moves the key to the
-- end of the history, whether or not the index was compacted on the way.
pub observe-Holds :
    (p : Platform) (limit : ℕ) (c : Clock) (r : RecencyIndex) (h : List ℕ) (key : ℕ)
    → Fits p limit (length h)
    → Holds p limit r h
    → (r' : RecencyIndex) × (observe p c r key ≡ ok (r', reuse_distance key h))
      × Holds p limit r' (touch key h)
unfolding observe
observe-Holds p limit c r h key f (m, e, v) = elim (lt_or_ge r.capacity r.next_slot) [
  | inl full ↦
      let n : length m ≡ length h = sym (length-keys m) ∙ ap length e in
      let (ran, v', free) =
        compact-Represents p limit f.words r m v c (omega (arith, n, f.slots))
          (omega (arith, n, f.tree)) (omega (arith, n, f.pairs)) in
      let m' = relabel 1 m in
      let e' : keys m' ≡ h = keys-relabel 1 m ∙ e in
      let (r', done, w) = record_key-Represents p limit f.words (compacted r) m' v' key free in
      (
        r',
        rw (lt→ltb r.capacity r.next_slot full, ran) (rw (← e') done),
        (_, keys-moved m' key (compacted r).next_slot ∙ ap (touch key) e', w),
      )
  | inr free ↦
      let (r', done, w) = record_key-Represents p limit f.words r m v key free in
      (
        r',
        rw (ge→ltb r.capacity r.next_slot free) (rw (← e) done),
        (_, keys-moved m key r.next_slot ∙ ap (touch key) e, w),
      )
]

-- A sequence of observations, each with the readings of the clock, and their results.
pub observe_all :
    Platform → RecencyIndex → List (Clock × ℕ) → Result (RecencyIndex × List (Option ℕ))
observe_all p r [] = ok (r, [])
observe_all p r ((c, key) ∷ calls) = do
  (r', distance) ← observe p c r key
  (r'', rest) ← observe_all p r' calls
  ok (r'', distance ∷ rest)

-- What the raw trace says of them; `past` holds the keys observed before, the newest first.
pub distances : List ℕ → List (Clock × ℕ) → List (Option ℕ)
distances past [] = []
distances past ((c, key) ∷ calls) = distinct_since key past ∷ distances (key ∷ past) calls

length-remove : (k : ℕ) (h : List ℕ) → length (remove k h) ≤ length h
unfolding remove
length-remove k [] = omega arith
length-remove k (j ∷ h) = ground (arith, length-remove k h)

length-touch : (k : ℕ) (h : List ℕ) → length (touch k h) ≤ length h + 1
unfolding touch
length-touch k h = omega (arith, length-append (remove k h) (k ∷ []), length-remove k h)

observe_all-Holds :
    (p : Platform) (limit : ℕ) (r : RecencyIndex) (past : List ℕ) (calls : List (Clock × ℕ))
    → Fits p limit (length (history past) + length calls)
    → Holds p limit r (history past)
    → (r' : RecencyIndex) × (observe_all p r calls ≡ ok (r', distances past calls))
unfolding observe_all distances history
observe_all-Holds p limit r past [] f v = (r, refl)
observe_all-Holds p limit r past ((c, key) ∷ calls) f v =
    let h = history past in
    let now : Fits p limit (length h) = omega (arith, f.words) in
    let (r', done, v') = observe-Holds p limit c r h key now v in
    let later : Fits p limit (length (touch key h) + length calls) =
      omega (arith, length-touch key h, f.words) in
    let (r'', rest) = observe_all-Holds p limit r' (key ∷ past) calls later v' in
    (r'', rw (done, reuse_distance-window key past) (rw rest))

pub make-Holds :
    (p : Platform) (floor limit : ℕ)
    → 0 < floor
    → floor ≤ limit
    → floor < p.tree_max_size
    → p.tree_max_size < 2 ^ 64
    → (r : RecencyIndex) × (make p floor limit false ≡ ok r) × Holds p limit r []
unfolding make
make-Holds p floor limit pos within fits words = (
  fresh,
  ground (
    arith,
    csrd_checked_add_fits floor 1 (omega arith),
    csrd_storage_size_fits (floor + 1) p.tree_max_size (omega arith),
  ),
  (
    [],
    refl,
    record {
      slots = Permᴰ.nil;
      distinct = tt;
      rises = omega arith;
      active = refl;
      room = omega arith;
      small = omega arith;
      tree = record {
        size = length-replicate (floor + 1) 0;
        node = λ i q c. unfold count_le in omega (arith, get_or-replicate {A = ℕ} (floor + 1) i 0);
      };
      floor = pos;
      floor_fits = fits;
      slot_limit = refl;
      unmeasured = refl;
    },
  ),
)
  where
    fresh : RecencyIndex
    fresh = record {
      slots = [];
      tree = replicate (floor + 1) 0;
      capacity_floor = floor;
      slot_limit = limit;
      capacity = floor;
      next_slot = 1;
      active_count = 0;
      measure_statistics = false;
      compaction_count = 0;
      compaction_time_ns = 0;
      maximum_compaction_scratch_bytes = 0;
    }

-- A new unmeasured index, over any sequence of observations whose number the slot limit and the
-- containers have room for twice, never throws, and returns for each key the number of distinct
-- keys observed since its last observation.
pub observe_all-distances :
    (p : Platform) (floor limit : ℕ) (calls : List (Clock × ℕ))
    → 0 < floor
    → floor ≤ limit
    → floor < p.tree_max_size
    → Fits p limit (length calls)
    → (r : RecencyIndex) × ((make p floor limit false >>= λ i. observe_all p i calls)
        ≡ ok (r, distances [] calls))
unfolding history
observe_all-distances p floor limit calls pos within fits f =
    let (i, made, v) = make-Holds p floor limit pos within fits f.words in
    let start : Fits p limit (0 + length calls) = omega (arith, f.words) in
    let (r, done) = observe_all-Holds p limit i [] calls start v in (r, rw made done)
