-- ===== src/Rd/RecencyIndex.antt =====
-- backend/src/cache/rd/recency_index.cpp and recency_statistics.cpp: `RecencyIndex`.
pub mod Rebuild
pub mod Refinement
pub mod Runs
pub mod Refused
use yet_another_reuse_distan.Prelude.{
  ℕ, zero, suc, ◌+◌, ◌-◌, ◌*◌, ◌%◌, ◌^◌, min, max, ◌||◌, Bool, true, false, List, [], Option, none,
  some, ltb, ◌==◌, if◌then◌else◌, set, replicate, Result, ok, throw_if, ◌>>=◌, ◌>>◌,
  invalid_argument, logic_error,
}
use yet_another_reuse_distan.Prelude.Maps.{find}
use yet_another_reuse_distan.Bits.Lowbit.{lowbit}
use yet_another_reuse_distan.Rd.Arithmetic.{
  csrd_checked_add, csrd_checked_add_within, csrd_storage_size,
}
use yet_another_reuse_distan.Rd.Fenwick.{prefix_sum, update}
use yet_another_reuse_distan.Rd.Slots.{Entries, emplace, assign, sort, by_slot, renumber}

-- What the containers of the platform decide: their largest sizes, and the capacity that a vector
-- has after it was made or reserved for a number of elements.
pub record Platform : Type 0 where
  pub tree_max_size : ℕ
  pub pairs_max_size : ℕ
  pub vector_capacity : ℕ → ℕ

pub record RecencyIndex : Type 0 where
  pub slots : Entries
  pub tree : List ℕ
  pub capacity_floor : ℕ
  pub slot_limit : ℕ
  pub capacity : ℕ
  pub next_slot : ℕ
  pub active_count : ℕ
  pub measure_statistics : Bool
  pub compaction_count : ℕ
  pub compaction_time_ns : ℕ
  pub maximum_compaction_scratch_bytes : ℕ

unfoldable pub make : Platform → ℕ → ℕ → Bool → Result RecencyIndex
make p capacity_floor slot_limit measure_statistics = do
  throw_if (capacity_floor == 0 || ltb slot_limit capacity_floor) invalid_argument
  elements ← csrd_checked_add capacity_floor 1
  size ← csrd_storage_size elements p.tree_max_size
  ok (record {
    slots = [];
    tree = replicate size 0;
    capacity_floor = capacity_floor;
    slot_limit = slot_limit;
    capacity = capacity_floor;
    next_slot = 1;
    active_count = 0;
    measure_statistics = measure_statistics;
    compaction_count = 0;
    compaction_time_ns = 0;
    maximum_compaction_scratch_bytes = 0;
  })

-- The loop over `rebuilt`, from `slot` on for so many rounds.
unfoldable pub rebuild : ℕ → ℕ → ℕ → List ℕ → List ℕ
rebuild zero slot active tree = tree
rebuild (suc rounds) slot active tree = rebuild rounds (slot + 1) active (
    if ltb (slot - lowbit slot) active
    then set tree slot (min slot active - (slot - lowbit slot))
    else tree)

-- `sizeof(std::uint64_t)`, and that of a pair of two.
abbrev word_bytes : ℕ
word_bytes = 8

abbrev pair_bytes : ℕ
pair_bytes = 16

unfoldable pub scratch_bytes : Platform → RecencyIndex → ℕ → Result ℕ
scratch_bytes p r size = elim r.measure_statistics [
  | true ↦ do
    bytes ←
        csrd_checked_add (p.vector_capacity size * word_bytes % 2 ^ 64)
          (p.vector_capacity r.active_count * pair_bytes % 2 ^ 64)
    ok (max r.maximum_compaction_scratch_bytes bytes)
  | false ↦ ok r.maximum_compaction_scratch_bytes
]

unfoldable pub compact_storage : Platform → RecencyIndex → Result RecencyIndex
compact_storage p r = do
  doubled ← csrd_checked_add_within r.active_count r.active_count r.slot_limit
  let capacity = max r.capacity_floor doubled
  next_slot ← csrd_checked_add r.active_count 1
  elements ← csrd_checked_add capacity 1
  size ← csrd_storage_size elements p.tree_max_size
  _ ← csrd_storage_size r.active_count p.pairs_max_size
  scratch ← scratch_bytes p r size
  ok (record r {
    slots = renumber 1 (sort (by_slot r.slots)) r.slots;
    tree = rebuild capacity 1 r.active_count (replicate size 0);
    capacity = capacity;
    next_slot = next_slot;
    maximum_compaction_scratch_bytes = scratch;
  })

-- The two readings of the steady clock round a compaction that is measured.
pub record Clock : Type 0 where
  pub start : ℕ
  pub stop : ℕ

unfoldable pub compact : Platform → Clock → RecencyIndex → Result RecencyIndex
compact p c r = elim r.measure_statistics [
  | true ↦ do
    r' ← compact_storage p r
    throw_if (ltb c.stop c.start) logic_error
    count ← csrd_checked_add r'.compaction_count 1
    time ← csrd_checked_add r'.compaction_time_ns (c.stop - c.start)
    ok (record r' { compaction_count = count; compaction_time_ns = time })
  | false ↦ compact_storage p r
]

-- `observe` after the compaction: the slot of the key is renewed, and its rank is read before.
unfoldable pub record_key : RecencyIndex → ℕ → Result (RecencyIndex × Option ℕ)
record_key r key = do
  following_slot ← csrd_checked_add r.next_slot 1
  elim (find key r.slots) [
    | none ↦ do
      next_count ← csrd_checked_add r.active_count 1
      ok (
        record r {
          slots = emplace key r.next_slot r.slots;
          active_count = next_count;
          tree = update r.capacity r.tree r.next_slot true;
          next_slot = following_slot;
        },
        none,
      )
    | some slot ↦
        let distance = (r.active_count + 2 ^ 64 - prefix_sum r.tree slot) % 2 ^ 64 in
        let tree = update r.capacity r.tree slot false in
        ok (
          record r {
            slots = assign key r.next_slot r.slots;
            tree = update r.capacity tree r.next_slot true;
            next_slot = following_slot;
          },
          some distance,
        )
  ]

unfoldable pub observe : Platform → Clock → RecencyIndex → ℕ → Result (RecencyIndex × Option ℕ)
observe p c r key = do
  r' ← (if ltb r.capacity r.next_slot then compact p c r else ok r)
  record_key r' key
