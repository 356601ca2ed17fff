-- ===== src/Trace/Index.antt =====
-- backend/src/trace/index/prepared_index.cpp and trace/access/prepared_access.cpp: the numbers of
-- the indices of an access, from the values of the loops around it.
pub mod Exact
pub mod Preparation
use yet_another_reuse_distan.Prelude.{
  ℕ, ◌^◌, Bool, true, false, ◌&&◌, List, [], ◌∷◌, Option, none, some, ltb, get_or, if◌then◌else◌,
}
use yet_another_reuse_distan.Output.Identity.{Bytes}
use yet_another_reuse_distan.Trace.Affine.{same_name}
use yet_another_reuse_distan.Trace.Loop.{ℤ, pos, negsuc}
use yet_another_reuse_distan.Trace.Signed.{◌+ℤ◌, ◌*ℤ◌, checked, add_overflow}

-- The loops around a node, the innermost first.
pub record LoopScope : Type 0 where
  pub variable : Bytes
  pub slot : ℕ

unfoldable pub find_slot : Bytes → List LoopScope → Option ℕ
unfolding same_name
find_slot name [] = none
find_slot name (scope ∷ parents) =
    let rest = find_slot name parents in
    if same_name scope.variable name then some scope.slot else rest

pub record PreparedIndex : Type 0 where
  pub slot : Option ℕ
  pub literal : Option ℤ
  pub offset : ℤ
  pub constant : Option ℤ
  pub terms : List (ℕ × ℤ)

-- The number is one of 128 bits.
abbrev pub in_wide_range : ℤ → Bool
in_wide_range (pos n) = ltb n (2 ^ 127)
in_wide_range (negsuc n) = ltb n (2 ^ 127)

-- The product of two numbers of 64 bits is one of 128 bits.
unfoldable pub sum_terms : List ℤ → List (ℕ × ℤ) → ℤ → Option ℤ
unfolding ◌+ℤ◌ ◌*ℤ◌
sum_terms values [] total = some total
sum_terms values ((slot, coefficient) ∷ terms) total =
    let total' = total +ℤ coefficient *ℤ get_or values slot (pos 0) in
    elim (in_wide_range total') [ false ↦ none | true ↦ sum_terms values terms total' ]

unfoldable pub evaluate_affine : List (ℕ × ℤ) → ℤ → List ℤ → Option ℤ
unfolding sum_terms checked
evaluate_affine terms constant values = elim (sum_terms values terms constant) [
  | none ↦ none
  | some total ↦ checked total
]

unfoldable pub evaluate_slot : PreparedIndex → ℕ → List ℤ → Option ℤ
unfolding add_overflow
evaluate_slot index slot values = elim (add_overflow (get_or values slot (pos 0)) index.offset) [
  | none ↦ index.literal
  | some resolved ↦ some resolved
]

unfoldable pub evaluate_numeric : PreparedIndex → List ℤ → Option ℤ
unfolding evaluate_affine evaluate_slot
evaluate_numeric index values = elim index.constant [
  | some constant ↦ evaluate_affine index.terms constant values
  | none ↦ elim index.slot [ none ↦ index.literal | some slot ↦ evaluate_slot index slot values ]
]

abbrev pub value_or : ℤ → Option ℤ → ℤ
value_or default none = default
value_or default (some value) = value

abbrev pub has_value : Option ℤ → Bool
has_value none = false
has_value (some value) = true

-- The indices of an access, and whether each has an exact value.
unfoldable pub evaluate_indices : List PreparedIndex → List ℤ → Bool × List ℤ
unfolding evaluate_numeric
evaluate_indices [] slots = (true, [])
evaluate_indices (index ∷ indices) slots =
    let value = evaluate_numeric index slots in
    let (exact, numbers) = evaluate_indices indices slots in
    (has_value value && exact, value_or (pos 0) value ∷ numbers)
