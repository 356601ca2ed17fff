-- ===== src/Trace/Affine.antt =====
-- backend/src/trace/index/affine_expression.cpp: sums of multiples of variables, from their texts.
-- A text is its bytes; a `std::map` of names is a list in the order of the names.
pub mod Canonical
pub mod Parsing
use yet_another_reuse_distan.Prelude.{
  ℕ, zero, suc, ◌+◌, ◌-◌, ◌*◌, ◌/◌, ◌%◌, ◌^◌, Bool, true, false, not, ◌&&◌, ◌||◌, List, [], ◌∷◌,
  ◌++◌, Option, none, some, ltb, leb, ◌==◌, if◌then◌else◌, length, Result, ok, throw, ◌>>=◌,
  logic_error,
}
use yet_another_reuse_distan.Output.Identity.{Bytes}
use yet_another_reuse_distan.Trace.Loop.{ℤ, pos, negsuc, is_negative}
use yet_another_reuse_distan.Trace.Signed.{add_overflow, mul_overflow}

-- `<` and `==` on names
unfoldable pub less : Bytes → Bytes → Bool
less [] [] = false
less [] (b ∷ name) = true
less (a ∷ name) [] = false
less (a ∷ name) (b ∷ other) = let rest = less name other in ltb a b || (a == b && rest)

unfoldable pub same_name : Bytes → Bytes → Bool
same_name [] [] = true
same_name [] (b ∷ name) = false
same_name (a ∷ name) [] = false
same_name (a ∷ name) (b ∷ other) = let rest = same_name name other in a == b && rest

pub record AffineExpression : Type 0 where
  pub constant : ℤ
  pub terms : List (Bytes × ℤ)

abbrev pub is_zero : ℤ → Bool
is_zero (pos zero) = true
is_zero (pos (suc n)) = false
is_zero (negsuc n) = false

abbrev pub is_digit : ℕ → Bool
is_digit c = leb b'0' c && leb c b'9'

abbrev pub identifier_start : ℕ → Bool
identifier_start c = (leb b'a' c && leb c b'z') || (leb b'A' c && leb c b'Z') || c == b'_'

-- The sum, where neither operation overflows.
unfoldable pub add_scaled : ℤ → ℤ → ℤ → Option ℤ
unfolding add_overflow mul_overflow
add_scaled target value coefficient = elim (mul_overflow value coefficient) [
  | none ↦ none
  | some product ↦ add_overflow target product
]

-- A term, which is erased where its coefficient is zero.
unfoldable pub keep_term : Bytes → ℤ → List (Bytes × ℤ) → List (Bytes × ℤ)
keep_term name coefficient terms =
    if is_zero coefficient then terms else (name, coefficient) ∷ terms

-- A round of the loop over the terms of the source.
unfoldable pub add_term : Bytes → ℤ → ℤ → List (Bytes × ℤ) → Option (List (Bytes × ℤ))
unfolding add_scaled keep_term
add_term name value coefficient [] = elim (add_scaled (pos 0) value coefficient) [
  | none ↦ none
  | some sum ↦ some (keep_term name sum [])
]
add_term name value coefficient ((other, term) ∷ terms) =
    let later = add_term name value coefficient terms in
    elim (same_name name other) [
      | true ↦ elim (add_scaled term value coefficient) [
        | none ↦ none
        | some sum ↦ some (keep_term name sum terms)
      ]
      | false ↦ elim (less name other) [
        | true ↦ elim (add_scaled (pos 0) value coefficient) [
          | none ↦ none
          | some sum ↦ some (keep_term name sum ((other, term) ∷ terms))
        ]
        | false ↦ elim later [ none ↦ none | some terms' ↦ some ((other, term) ∷ terms') ]
      ]
    ]

unfoldable pub add_terms : ℤ → List (Bytes × ℤ) → List (Bytes × ℤ) → Option (List (Bytes × ℤ))
unfolding add_term
add_terms coefficient target [] = some target
add_terms coefficient target ((name, value) ∷ source) =
    elim (add_term name value coefficient target) [
      | none ↦ none
      | some target' ↦ add_terms coefficient target' source
    ]

-- `none` is `false`, which leaves the target in no state that is read.
unfoldable pub add_affine_expression :
    AffineExpression → AffineExpression → ℤ → Option AffineExpression
unfolding add_scaled add_terms
add_affine_expression target source coefficient =
    elim (add_scaled target.constant source.constant coefficient) [
      | none ↦ none
      | some constant ↦ elim (add_terms coefficient target.terms source.terms) [
        | none ↦ none
        | some terms ↦ some (record { constant = constant; terms = terms })
      ]
    ]

-- The digits of a magnitude within a limit, and what follows them.
unfoldable pub take_digits : ℕ → ℕ → Bytes → Option (ℕ × Bytes)
take_digits limit magnitude [] = some (magnitude, [])
take_digits limit magnitude (c ∷ text) =
    let rest = take_digits limit (magnitude * 10 + (c - b'0')) text in
    if is_digit c
    then (if ltb ((limit - (c - b'0')) / 10) magnitude then none else rest)
    else some (magnitude, c ∷ text)

-- The rest of an identifier, and what follows it.
unfoldable pub take_identifier : Bytes → Bytes × Bytes
take_identifier [] = ([], [])
take_identifier (c ∷ text) =
    let (name, rest) = take_identifier text in
    if identifier_start c || is_digit c then (c ∷ name, rest) else ([], c ∷ text)

-- The variable of a term.
unfoldable pub take_variable : ℤ → Bytes → Option (AffineExpression × Bytes)
unfolding take_identifier
take_variable coefficient [] = none
take_variable coefficient (c ∷ text) =
    let (name, rest) = take_identifier text in
    if identifier_start c
    then some (record { constant = pos 0; terms = (c ∷ name, coefficient) ∷ [] }, rest)
    else none

abbrev pub signed : Bool → ℕ → ℤ
signed true (suc n) = negsuc n
signed true zero = pos zero
signed false n = pos n

-- What follows the number of a term.
unfoldable pub take_factor : ℤ → Bytes → Option (AffineExpression × Bytes)
unfolding take_variable
take_factor coefficient [] = some (record { constant = coefficient; terms = [] }, [])
take_factor coefficient (c ∷ text) = elim (c == b'*') [
  | true ↦ take_variable coefficient text
  | false ↦ some (record { constant = coefficient; terms = [] }, c ∷ text)
]

-- A term after its sign.
unfoldable pub take_unsigned : Bool → Bytes → Option (AffineExpression × Bytes)
unfolding take_digits take_factor take_variable
take_unsigned negative [] = none
take_unsigned negative (c ∷ text) = elim (is_digit c) [
  | true ↦ elim (take_digits (2 ^ 63 - 1 + (if negative then 1 else 0)) 0 (c ∷ text)) [
    | none ↦ none
    | some (magnitude, rest) ↦ take_factor (signed negative magnitude) rest
  ]
  | false ↦ take_variable (if negative then negsuc 0 else pos 1) (c ∷ text)
]

-- The first term may have no sign.
unfoldable pub take_term : Bool → Bytes → Option (AffineExpression × Bytes)
unfolding take_unsigned
take_term first [] = none
take_term first (c ∷ text) =
    if c == b'+' || c == b'-'
    then take_unsigned (c == b'-') text
    else (if first then take_unsigned false (c ∷ text) else none)

-- The loop over the terms, each of at least one byte; `ok none` is no expression.
unfoldable pub parse_terms : ℕ → Bool → AffineExpression → Bytes → Result (Option AffineExpression)
unfolding take_term add_affine_expression
parse_terms fuel first result [] = ok (some result)
parse_terms zero first result (c ∷ text) = throw logic_error
parse_terms (suc fuel) first result (c ∷ text) = elim (take_term first (c ∷ text)) [
  | none ↦ ok none
  | some (term, rest) ↦ elim (add_affine_expression result term (pos 1)) [
    | none ↦ ok none
    | some result' ↦ parse_terms fuel false result' rest
  ]
]

unfoldable pub parse_affine_expression : Bytes → Result (Option AffineExpression)
unfolding parse_terms
parse_affine_expression [] = ok none
parse_affine_expression (c ∷ text) =
    parse_terms (length (c ∷ text)) true (record { constant = pos 0; terms = [] }) (c ∷ text)

-- The decimal digits, of which there are at most as many as the first number.
unfoldable pub to_string : ℕ → ℕ → Bytes → Bytes
to_string zero n digits = digits
to_string (suc fuel) n digits =
    let digit = b'0' + n % 10 in
    let rest = to_string fuel (n / 10) (digit ∷ digits) in if ltb n 10 then digit ∷ digits else rest

-- `std::uint64_t` has at most twenty digits.
unfoldable pub signed_term : ℤ → Bytes → Bool → Bytes
unfolding to_string
signed_term value variable first =
    let magnitude : ℕ = elim value [ pos n ↦ n | negsuc n ↦ n + 1 ] in
    let sign = if is_negative value then b'-' ∷ [] else (if first then [] else b'+' ∷ []) in
    let factor : Bytes = elim variable [
      | [] ↦ to_string 20 magnitude []
      | c ∷ name ↦ if magnitude == 1 then [] else to_string 20 magnitude [] ++ b'*' ∷ []
    ] in
    sign ++ factor ++ variable

abbrev pub is_nothing : Bytes → Bool
is_nothing [] = true
is_nothing (c ∷ text) = false

unfoldable pub format_terms : Bytes → List (Bytes × ℤ) → Bytes
unfolding signed_term
format_terms result [] = result
format_terms result ((name, coefficient) ∷ terms) =
    format_terms (result ++ signed_term coefficient name (is_nothing result)) terms

unfoldable pub format_affine_expression : AffineExpression → Bytes
unfolding format_terms
format_affine_expression expression =
    let result = format_terms [] expression.terms in
    if not (is_zero expression.constant) || is_nothing result
    then result ++ signed_term expression.constant [] (is_nothing result)
    else result
