-- ===== src/Rd/Slots.antt =====
-- The key-to-slot map of `RecencyIndex` as an association list, and what compaction does with it.
pub mod Perms
pub mod Order
pub mod Moves
use yet_another_reuse_distan.Prelude.{
  ℕ, ◌+◌, Bool, ◌&&◌, ◌||◌, List, [], ◌∷◌, ltb, leb, ◌==◌, if◌then◌else◌,
}

abbrev pub Entries : Type 0
Entries = List (ℕ × ℕ)

-- `slots_.emplace(key, slot)` of a key that is not there. The order of the entries is unspecified.
unfoldable pub emplace : ℕ → ℕ → Entries → Entries
emplace k s m = (k, s) ∷ m

-- `previous->second = slot`, or `slots_.at(key) = slot`, of a key that is there.
unfoldable pub assign : ℕ → ℕ → Entries → Entries
assign k v [] = []
assign k v ((j, s) ∷ m) = (if k == j then (j, v) else (j, s)) ∷ assign k v m

-- The order of `std::pair`, and `std::sort` by it.
unfoldable pub pair_less : ℕ × ℕ → ℕ × ℕ → Bool
pair_less (a, b) (c, d) = ltb a c || (a == c && ltb b d)

unfoldable pub sort_insert : ℕ × ℕ → Entries → Entries
sort_insert x [] = x ∷ []
sort_insert x (y ∷ ys) = if pair_less y x then y ∷ sort_insert x ys else x ∷ y ∷ ys

unfoldable pub sort : Entries → Entries
sort [] = []
sort (x ∷ xs) = sort_insert x (sort xs)

-- `for (const auto & [key, slot] : slots_) ordered.emplace_back(slot, key);`
unfoldable pub by_slot : Entries → Entries
by_slot [] = []
by_slot ((k, s) ∷ m) = (s, k) ∷ by_slot m

-- `for (const auto & entry : ordered) slots_.at(entry.second) = slot++;`
unfoldable pub renumber : ℕ → Entries → Entries → Entries
renumber slot [] m = m
renumber slot ((s, k) ∷ rest) m = renumber (slot + 1) rest (assign k slot m)

-- How many keys have a slot up to `i`.
unfoldable pub count_le : ℕ → Entries → ℕ
count_le i [] = 0
count_le i ((k, s) ∷ m) = (if leb s i then 1 else 0) + count_le i m
