-- ===== src/Rd/History.antt =====
-- The specification of exact reuse distances: the distinct keys that were observed, oldest first.
pub mod Window
use yet_another_reuse_distan.Prelude.{
  ℕ, ◌==◌, List, [], ◌∷◌, ◌++◌, Option, none, some, if◌then◌else◌, length,
}

-- The keys that were observed after the last observation of `k`, each of them once.
unfoldable pub after : ℕ → List ℕ → Option (List ℕ)
after k [] = none
after k (j ∷ h) = if k == j then some h else after k h

unfoldable pub remove : ℕ → List ℕ → List ℕ
remove k [] = []
remove k (j ∷ h) = if k == j then h else j ∷ remove k h

-- The history after `k` is observed.
unfoldable pub touch : ℕ → List ℕ → List ℕ
touch k h = remove k h ++ k ∷ []

-- The number of distinct keys since the last observation of `k`, or `none` for a new key.
unfoldable pub reuse_distance : ℕ → List ℕ → Option ℕ
reuse_distance k h = elim (after k h) [ none ↦ none | some newer ↦ some (length newer) ]
