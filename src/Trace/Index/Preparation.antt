-- ===== src/Trace/Index/Preparation.antt =====
-- The preparation of an index from its text: the constructor of `PreparedIndex`, and
-- `parse_exact_integer` of backend/src/trace/layout/access_layout.cpp.
pub mod Meaning
pub mod Agreement
use yet_another_reuse_distan.Prelude.{
  ℕ, ◌+◌, ◌-◌, ◌^◌, ◌≡◌, Bool, true, false, ◌&&◌, ◌||◌, List, [], ◌∷◌, Option, none, some, arith,
  leb, ◌==◌, if◌then◌else◌, Result, ok, ◌>>=◌,
}
use yet_another_reuse_distan.Output.Identity.{Bytes}
use yet_another_reuse_distan.Trace.Loop.{ℤ, pos}
use yet_another_reuse_distan.Trace.Affine.{
  AffineExpression, is_digit, take_digits, signed, parse_affine_expression,
}
use yet_another_reuse_distan.Trace.Index.{
  LoopScope, find_slot, PreparedIndex, evaluate_affine, evaluate_numeric,
}

-- The white space that `std::stoll` skips.
abbrev pub is_space : ℕ → Bool
is_space c = c == b' ' || (leb 9 c && leb c 13)

unfoldable pub parse_magnitude : Bool → Bytes → Option ℤ
unfolding take_digits
parse_magnitude negative [] = none
parse_magnitude negative (c ∷ text) = elim (is_digit c) [
  | false ↦ none
  | true ↦ elim (take_digits (2 ^ 63 - 1 + (if negative then 1 else 0)) 0 (c ∷ text)) [
    | none ↦ none
    | some (magnitude, rest) ↦ elim rest [ [] ↦ some (signed negative magnitude) | d ∷ more ↦ none ]
  ]
]

-- A text that `std::stoll` consumes whole; the exceptions of `std::stoll` are no number.
unfoldable pub parse_exact_integer : Bytes → Option ℤ
unfolding parse_magnitude
parse_exact_integer [] = none
parse_exact_integer (c ∷ text) =
    let rest = parse_exact_integer text in
    if is_space c
    then rest
    else (if c == b'+' || c == b'-'
        then parse_magnitude (c == b'-') text
        else parse_magnitude false (c ∷ text))

-- What stands before the first sign, and the rest from the sign on.
unfoldable pub split_sign : Bytes → Option (Bytes × Bytes)
split_sign [] = none
split_sign (c ∷ text) =
    let rest = split_sign text in
    if c == b'+' || c == b'-'
    then some ([], c ∷ text)
    else elim rest [ none ↦ none | some (base, offset) ↦ some (c ∷ base, offset) ]

-- A sign at the first character does not count.
unfoldable pub split_offset : Bytes → Option (Bytes × Bytes)
unfolding split_sign
split_offset [] = none
split_offset (c ∷ text) = elim (split_sign text) [
  | none ↦ none
  | some (base, offset) ↦ some (c ∷ base, offset)
]

-- A loop variable with an offset.
unfoldable pub find_offset : Bytes → List LoopScope → Option (ℕ × ℤ)
unfolding split_offset parse_exact_integer find_slot
find_offset expression scope = elim (split_offset expression) [
  | none ↦ none
  | some (base, offset) ↦ elim (find_slot base scope) [
    | none ↦ none
    | some slot ↦ elim (parse_exact_integer offset) [
      | none ↦ none
      | some number ↦ some (slot, number)
    ]
  ]
]

-- The terms whose variables are bound, up to the first that is not, and whether all are.
unfoldable pub bind_terms : List (Bytes × ℤ) → List LoopScope → List (ℕ × ℤ) × Bool
unfolding find_slot
bind_terms [] scope = ([], true)
bind_terms ((name, coefficient) ∷ terms) scope =
    let (bound, whole) = bind_terms terms scope in
    elim (find_slot name scope) [
      | none ↦ ([], false)
      | some slot ↦ ((slot, coefficient) ∷ bound, whole)
    ]

abbrev pub unprepared : PreparedIndex
unprepared = record { slot = none; literal = none; offset = pos 0; constant = none; terms = [] }

unfoldable pub prepare_affine : Option AffineExpression → List LoopScope → PreparedIndex
unfolding bind_terms
prepare_affine none scope = unprepared
prepare_affine (some affine) scope =
    let (bound, whole) = bind_terms affine.terms scope in
    record unprepared { terms = bound; constant = if whole then some affine.constant else none }

unfoldable pub prepare_index : Bytes → List LoopScope → Result PreparedIndex
unfolding find_slot parse_exact_integer find_offset prepare_affine
prepare_index expression scope = elim (find_slot expression scope) [
  | some slot ↦ ok (record unprepared { slot = some slot })
  | none ↦
      let literal = parse_exact_integer expression in
      elim (find_offset expression scope) [
        | some (slot, offset) ↦
            ok (record unprepared { slot = some slot; literal = literal; offset = offset })
        | none ↦ elim literal [
          | some number ↦ ok (record unprepared { literal = some number })
          | none ↦ do affine ← parse_affine_expression expression; ok (prepare_affine affine scope)
        ]
      ]
]
