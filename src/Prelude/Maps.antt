-- ===== src/Prelude/Maps.antt =====
-- `std::map` over numbers as an association list in the order of its keys.
use Prim.Native.Nat.{ℕ, ◌+◌}
use mathlib.Core.Path.{◌≡◌, refl}
use native.Mathlib.Omega.{arith}
use mathlib.Core.List.{List, [], ◌∷◌}
use mathlib.Core.Option.{Option, none, some}
use yet_another_reuse_distan.Prelude.Tests.{◌==◌, ltb, if◌then◌else◌}

module _ {ℓ} {V : Type ℓ} where
  unfoldable pub find : ℕ → List (ℕ × V) → Option V
  find k [] = none
  find k ((j, v) ∷ m) = if k == j then some v else find k m

  -- `m[k] = v`
  unfoldable pub insert : ℕ → V → List (ℕ × V) → List (ℕ × V)
  insert k v [] = (k, v) ∷ []
  insert k v ((j, w) ∷ m) =
      if k == j then (k, v) ∷ m else if ltb k j then (k, v) ∷ (j, w) ∷ m else (j, w) ∷ insert k v m

-- `m[k]` of counts, which reads a missing key as a new zero.
unfoldable pub count_at : ℕ → List (ℕ × ℕ) → ℕ
count_at k m = elim (find k m) [ none ↦ 0 | some v ↦ v ]

-- The sum of the values.
unfoldable pub total : List (ℕ × ℕ) → ℕ
total [] = 0
total ((k, v) ∷ m) = v + total m

pub find-insert {ℓ} :
    {V : Type ℓ} (j k : ℕ) (v : V) (m : List (ℕ × V))
    → find j (insert k v m) ≡ (if j == k then some v else find j m)
unfolding find insert
find-insert j k v [] = refl
find-insert j k v ((i, w) ∷ m) = ground (arith, find-insert j k v m)

pub count_at-insert :
    (j k v : ℕ) (m : List (ℕ × ℕ))
    → count_at j (insert k v m) ≡ (if j == k then v else count_at j m)
unfolding count_at
count_at-insert j k v m = ground (arith, find-insert j k v m)
