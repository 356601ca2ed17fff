-- ===== src/Reuse/Profile.antt =====
-- backend/src/reuse/profile.cpp: the global reuse distances of a trace of names.
pub mod Batch
use Prim.Native.String.{String}
use text.Mathlib.Text.{◌==◌ as str_eq}
use yet_another_reuse_distan.Prelude.{
  ℕ, ◌+◌, ◌-◌, ◌%◌, ◌^◌, Bool, true, false, ◌||◌, List, [], ◌∷◌, Option, none, some, if◌then◌else◌,
  length, replicate,
}
use yet_another_reuse_distan.Rd.Fenwick.{prefix_sum}
use yet_another_reuse_distan.Batch.Csrd.{add, count_distance}

pub record ReuseProfile : Type 0 where
  pub histogram : List (ℕ × ℕ)
  pub cold_misses : List String

unfoldable pub find_name : String → List (String × ℕ) → Option ℕ
find_name name [] = none
find_name name ((other, position) ∷ seen) =
    if str_eq name other then some position else find_name name seen

-- `last_seen[address] = position`
unfoldable pub set_name : String → ℕ → List (String × ℕ) → List (String × ℕ)
set_name name position [] = (name, position) ∷ []
set_name name position ((other, old) ∷ seen) =
    let rest = set_name name position seen in
    if str_eq name other then (other, position) ∷ seen else (other, old) ∷ rest

unfoldable pub has_name : String → List String → Bool
has_name name [] = false
has_name name (other ∷ names) = str_eq name other || has_name name names

-- `insert` of a set.
unfoldable pub add_name : String → List String → List String
unfolding has_name
add_name name names = if has_name name names then names else name ∷ names

-- The variables of the loop.
pub record ProfileLoop : Type 0 where
  pub positions : List ℕ
  pub last_seen : List (String × ℕ)
  pub profile : ReuseProfile

-- One round; the tree is the one of the batch analysis, whose source is the same text.
unfoldable pub profile_name : ℕ → String → ProfileLoop → ProfileLoop
unfolding find_name set_name add_name
profile_name position address s = elim (find_name address s.last_seen) [
  | none ↦ record {
    positions = add s.positions position true;
    last_seen = set_name address position s.last_seen;
    profile = record s.profile { cold_misses = add_name address s.profile.cold_misses };
  }
  | some previous ↦
      let newer =
        (prefix_sum s.positions (position - 1) + 2 ^ 64 - prefix_sum s.positions previous)
        % 2 ^ 64 in
      record {
        positions = add (add s.positions previous false) position true;
        last_seen = set_name address position s.last_seen;
        profile = record s.profile { histogram = count_distance newer s.profile.histogram };
      }
]

unfoldable pub profile_names : ℕ → List String → ProfileLoop → ProfileLoop
unfolding profile_name
profile_names position [] s = s
profile_names position (address ∷ trace) s =
    profile_names (position + 1) trace (profile_name position address s)

unfoldable pub calculate_reuse_profile : List String → ReuseProfile
unfolding profile_names
calculate_reuse_profile trace =
    (profile_names 1 trace (record {
      positions = replicate (length trace + 1) 0;
      last_seen = [];
      profile = record { histogram = []; cold_misses = [] };
    })).profile
