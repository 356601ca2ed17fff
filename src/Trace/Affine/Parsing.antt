-- ===== src/Trace/Affine/Parsing.antt =====
-- The parser of affine expressions never runs out of rounds.
use yet_another_reuse_distan.Prelude.{
  ℕ, zero, suc, ◌+◌, ◌-◌, ◌*◌, ◌^◌, ◌≤◌, ◌<◌, ◌≡◌, refl, Bool, true, false, inl, inr, [], ◌∷◌,
  Option, none, some, arith, ◌==◌, if◌then◌else◌, length, ok, Bool-cases, Option-cases,
}
use yet_another_reuse_distan.Output.Identity.{Bytes}
use yet_another_reuse_distan.Trace.Loop.{ℤ, pos, negsuc}
use yet_another_reuse_distan.Trace.Affine.Canonical.{Ordered, add_affine_expression-Ordered}
use yet_another_reuse_distan.Trace.Affine.{
  AffineExpression, is_digit, take_digits, take_identifier, take_variable, take_factor,
  take_unsigned, take_term, signed, add_affine_expression, parse_terms, parse_affine_expression,
}

take_digits-le :
    (limit magnitude n : ℕ) (text rest : Bytes)
    → take_digits limit magnitude text ≡ some (n, rest)
    → length rest ≤ length text
unfolding take_digits
take_digits-le limit magnitude n [] rest h = ground (arith, h)
take_digits-le limit magnitude n (c ∷ text) rest h =
    ground (arith, h, take_digits-le limit (magnitude * 10 + (c - b'0')) n text rest)

take_identifier-le : (text : Bytes) → length (take_identifier text).1 ≤ length text
unfolding take_identifier
take_identifier-le [] = omega arith
take_identifier-le (c ∷ text) = ground (arith, take_identifier-le text)

take_variable-le :
    (k : ℤ) (text rest : Bytes) (e : AffineExpression)
    → take_variable k text ≡ some (e, rest)
    → length rest < length text
unfolding take_variable
take_variable-le k [] rest e h = cc h
take_variable-le k (c ∷ text) rest e h = ground (arith, h, take_identifier-le text)

take_factor-le :
    (k : ℤ) (text rest : Bytes) (e : AffineExpression)
    → take_factor k text ≡ some (e, rest)
    → length rest ≤ length text
unfolding take_factor
take_factor-le k [] rest e h = ground (arith, h)
take_factor-le k (c ∷ text) rest e h = ground (arith, h, take_variable-le k text rest e)

take_digits-lt :
    (limit n c : ℕ) (text rest : Bytes)
    → is_digit c ≡ true
    → take_digits limit 0 (c ∷ text) ≡ some (n, rest)
    → length rest ≤ length text
unfolding take_digits
take_digits-lt limit n c text rest d h =
    ground (arith, d, h, take_digits-le limit (0 * 10 + (c - b'0')) n text rest)

take_unsigned-lt :
    (negative : Bool) (text rest : Bytes) (e : AffineExpression)
    → take_unsigned negative text ≡ some (e, rest)
    → length rest < length text
unfolding take_unsigned
take_unsigned-lt negative [] rest e h = cc h
take_unsigned-lt negative (c ∷ text) rest e h =
    let limit = 2 ^ 63 - 1 + (if negative then 1 else 0) in
    elim (Bool-cases (is_digit c)) [
      | inr d ↦
          take_variable-le (if negative then negsuc 0 else pos 1) (c ∷ text) rest e
            (ground (arith, d, h))
      | inl d ↦ elim (Option-cases (take_digits limit 0 (c ∷ text))) [
        | inl n ↦
            let stop : ◌≡◌ {A = Option (AffineExpression × Bytes)} none (some (e, rest)) =
              ground (arith, d, n, h) in
            cc stop
        | inr ((magnitude, after), n) ↦
            let go : ◌≡◌ {A = Option (AffineExpression × Bytes)}
                (take_factor (signed negative magnitude) after) (some (e, rest)) =
              ground (arith, d, n, h) in
            omega (
              arith,
              take_factor-le (signed negative magnitude) after rest e go,
              take_digits-lt limit magnitude c text after d n,
            )
      ]
    ]

take_term-lt :
    (first : Bool) (c : ℕ) (text rest : Bytes) (e : AffineExpression)
    → take_term first (c ∷ text) ≡ some (e, rest)
    → length rest ≤ length text
unfolding take_term
take_term-lt first c text rest e h =
    ground
      (arith, h, take_unsigned-lt (c == b'-') text rest e, take_unsigned-lt false (c ∷ text) rest e)

-- The names of the expression, where there is one, rise, and its coefficients are not zero.
abbrev pub Canonical : Option AffineExpression → Type 0
Canonical none = Unit {0}
Canonical (some e) = Ordered none e.terms

parse_terms_total :
    (fuel : ℕ) (first : Bool) (result : AffineExpression) (text : Bytes)
    → length text ≤ fuel
    → Ordered none result.terms
    → (o : Option AffineExpression) × (parse_terms fuel first result text ≡ ok o) × Canonical o
unfolding parse_terms
parse_terms_total zero first result [] le v = (some result, refl, v)
parse_terms_total (suc fuel) first result [] le v = (some result, refl, v)
parse_terms_total zero first result (c ∷ text) le v = absurd (omega (arith, le))
parse_terms_total (suc fuel) first result (c ∷ text) le v =
    elim (Option-cases (take_term first (c ∷ text))) [
      | inl n ↦ (none, ground (arith, n), tt)
      | inr ((term, rest), t) ↦ elim (Option-cases (add_affine_expression result term (pos 1))) [
        | inl n ↦ (none, ground (arith, t, n), tt)
        | inr (result', s) ↦
            let shorter = take_term-lt first c text rest term t in
            let v' = add_affine_expression-Ordered result term result' (pos 1) v s in
            let (o, go, w) =
              parse_terms_total fuel false result' rest (omega (arith, shorter, le)) v' in
            (o, ground (arith, t, s, go), w)
      ]
    ]

-- For every text the parser returns none or an expression, and never runs out of rounds; the names
-- of an expression rise in their order, each once, with coefficients that are not zero.
pub parse_affine_expression-Canonical :
    (text : Bytes)
    → (o : Option AffineExpression) × (parse_affine_expression text ≡ ok o) × Canonical o
unfolding parse_affine_expression Ordered
parse_affine_expression-Canonical [] = (none, refl, tt)
parse_affine_expression-Canonical (c ∷ text) =
    parse_terms_total (length (c ∷ text)) true (record { constant = pos 0; terms = [] }) (c ∷ text)
      (omega arith) tt
