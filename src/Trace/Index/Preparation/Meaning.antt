-- ===== src/Trace/Index/Preparation/Meaning.antt =====
-- backend/src/trace/index/prepared_index.cpp: what the text of an index means, by the names of the
-- loops around it.
use yet_another_reuse_distan.Prelude.{
  ℕ, ap, sym, ◌∙◌, ◌≡◌, refl, true, false, inl, inr, List, [], ◌∷◌, Option, none, some, arith,
  get_or, if◌then◌else◌, Option-cases, ok,
}
use yet_another_reuse_distan.Output.Identity.{Bytes}
use yet_another_reuse_distan.Trace.Loop.{ℤ, pos, negsuc}
use yet_another_reuse_distan.Trace.Signed.{◌+ℤ◌, ◌*ℤ◌, checked, in_range}
use yet_another_reuse_distan.Trace.Affine.{AffineExpression, same_name, parse_affine_expression}
use yet_another_reuse_distan.Trace.Index.{LoopScope, find_slot, in_wide_range, sum_terms}
use yet_another_reuse_distan.Trace.Index.Preparation.{
  parse_exact_integer, split_offset, find_offset, bind_terms,
}

pub checked-exact : (a v : ℤ) → checked a ≡ some v → v ≡ a
unfolding checked
checked-exact a v h = ground (arith, h)

pub checked-fits : (a : ℤ) → in_range a ≡ true → checked a ≡ some a
unfolding checked
checked-fits a h = ground (arith, h)

pub add_zero : (a : ℤ) → a +ℤ pos 0 ≡ a
unfolding ◌+ℤ◌
add_zero (pos n) = ground arith
add_zero (negsuc n) = ground arith

-- The value of the nearest loop that has the name.
unfoldable pub loop_value : List ℤ → Bytes → List LoopScope → Option ℤ
loop_value values name [] = none
loop_value values name (loop ∷ outer) =
    let rest = loop_value values name outer in
    if same_name loop.variable name then some (get_or values loop.slot (pos 0)) else rest

abbrev pub held : List ℤ → ℕ → ℤ
held values slot = get_or values slot (pos 0)

abbrev pub held_at : List ℤ → Option ℕ → Option ℤ
held_at values none = none
held_at values (some slot) = some (held values slot)

module _ (scope : List LoopScope) (values : List ℤ) where
  -- The sum of the multiples of named loop variables, in 128 bits.
  unfoldable pub named_sum : List (Bytes × ℤ) → ℤ → Option ℤ
  named_sum [] total = some total
  named_sum ((name, coefficient) ∷ terms) total = elim (loop_value values name scope) [
    | none ↦ none
    | some value ↦ elim (in_wide_range (total +ℤ coefficient *ℤ value)) [
      | false ↦ none
      | true ↦ named_sum terms (total +ℤ coefficient *ℤ value)
    ]
  ]

  -- The numbers that a text means: the value of a loop variable, that of one with an offset, a
  -- number, or, where it is no loop variable with an offset, that of an affine expression over loop
  -- variables.
  pub data Means (text : Bytes) (v : ℤ) : Type 0 where
    variable : loop_value values text scope ≡ some v → Means text v
    offset :
        (base rest : Bytes) (value n : ℤ)
        → split_offset text ≡ some (base, rest)
        → loop_value values base scope ≡ some value
        → parse_exact_integer rest ≡ some n
        → v ≡ value +ℤ n
        → Means text v
    number : parse_exact_integer text ≡ some v → Means text v
    affine :
        (expression : AffineExpression)
        → find_offset text scope ≡ none
        → parse_affine_expression text ≡ ok (some expression)
        → named_sum expression.terms expression.constant ≡ some v
        → Means text v

  pub loop_value-find_slot :
      (name : Bytes) (loops : List LoopScope)
      → loop_value values name loops ≡ held_at values (find_slot name loops)
  unfolding loop_value find_slot
  loop_value-find_slot name [] = refl
  loop_value-find_slot name (loop ∷ outer) = ground (arith, loop_value-find_slot name outer)

  -- The slots to which the names are bound hold the values of the loops.
  pub named_sum-bind_terms :
      (terms : List (Bytes × ℤ)) (total : ℤ)
      → named_sum terms total ≡ (
          if (bind_terms terms scope).1
          then sum_terms values (bind_terms terms scope).0 total
          else none)
  unfolding named_sum bind_terms sum_terms
  named_sum-bind_terms [] total = refl
  named_sum-bind_terms ((name, coefficient) ∷ terms) total =
      let value = loop_value-find_slot name scope in
      elim (Option-cases (find_slot name scope)) [
        | inl absent ↦ ground (arith, absent, value)
        | inr (slot, found) ↦ ground (
          arith,
          found,
          value,
          named_sum-bind_terms terms (total +ℤ coefficient *ℤ held values slot),
        )
      ]

  -- The parts of a loop variable with an offset.
  pub find_offset-parts :
      (text : Bytes) (slot : ℕ) (n : ℤ)
      → find_offset text scope ≡ some (slot, n)
      → (base : Bytes) × (rest : Bytes) × (split_offset text ≡ some (base, rest))
        × (find_slot base scope ≡ some slot)
        × (parse_exact_integer rest ≡ some n)
  unfolding find_offset
  find_offset-parts text slot n h = elim (Option-cases (split_offset text)) [
    | inl whole ↦ ground (arith, whole, h)
    | inr ((base, rest), split) ↦ elim (Option-cases (find_slot base scope)) [
      | inl absent ↦ ground (arith, split, absent, h)
      | inr (slot', found) ↦ elim (Option-cases (parse_exact_integer rest)) [
        | inl unread ↦ ground (arith, split, found, unread, h)
        | inr (n', read) ↦ (
          base,
          rest,
          split,
          ground (arith, split, found, read, h),
          ground (arith, split, found, read, h),
        )
      ]
    ]
  ]

  pub find_offset-found :
      (text base rest : Bytes) (value n : ℤ)
      → split_offset text ≡ some (base, rest)
      → loop_value values base scope ≡ some value
      → parse_exact_integer rest ≡ some n
      → (slot : ℕ) × (find_offset text scope ≡ some (slot, n)) × (value ≡ held values slot)
  unfolding find_offset
  find_offset-found text base rest value n split named read =
      let e = loop_value-find_slot base scope in
      elim (Option-cases (find_slot base scope)) [
        | inl absent ↦ ground (arith, absent, e, named)
        | inr (slot, found) ↦
            (slot, ground (arith, split, found, read), ground (arith, found, e, named))
      ]

  unnamed-loop_value :
      (text : Bytes) → find_slot text scope ≡ none → loop_value values text scope ≡ none
  unnamed-loop_value text unnamed = loop_value-find_slot text scope ∙ ap (held_at values) unnamed

  -- What else a loop variable means with an offset that does not fit.
  pub offset_meant :
      (text : Bytes) (slot : ℕ) (n v : ℤ)
      → find_slot text scope ≡ none
      → find_offset text scope ≡ some (slot, n)
      → checked (held values slot +ℤ n) ≡ none
      → in_range v ≡ true
      → Means text v
      → parse_exact_integer text ≡ some v
  offset_meant text slot n v unnamed found over small (variable h) =
      let both_ways : none ≡ some v = sym (unnamed-loop_value text unnamed) ∙ h in cc both_ways
  offset_meant text slot n v unnamed found over small
        (offset base rest value n' split named read e) =
      let (slot', found', value') = find_offset-found text base rest value n' split named read in
      let same : some (slot, n) ≡ some (slot', n') = sym found ∙ found' in
      let sum : v ≡ held values slot +ℤ n = cc (e, value', same) in
      let both_ways : none ≡ some v = sym over ∙ ap checked (sym sum) ∙ checked-fits v small in
      cc both_ways
  offset_meant text slot n v unnamed found over small (number h) = h
  offset_meant text slot n v unnamed found over small (affine e bare parsed h) =
      let both_ways : some (slot, n) ≡ none = sym found ∙ bare in cc both_ways

  -- What a text that is read in no other way means.
  pub affine_meant :
      (text : Bytes) (v : ℤ)
      → find_slot text scope ≡ none
      → find_offset text scope ≡ none
      → parse_exact_integer text ≡ none
      → Means text v
      → (e : AffineExpression) × (parse_affine_expression text ≡ ok (some e))
        × (named_sum e.terms e.constant ≡ some v)
  affine_meant text v unnamed bare unread (variable h) =
      let both_ways : none ≡ some v = sym (unnamed-loop_value text unnamed) ∙ h in cc both_ways
  affine_meant text v unnamed bare unread (offset base rest value n split named read e) =
      let (slot, found, value') = find_offset-found text base rest value n split named read in
      let both_ways : none ≡ some (slot, n) = sym bare ∙ found in cc both_ways
  affine_meant text v unnamed bare unread (number h) =
      let both_ways : none ≡ some v = sym unread ∙ h in cc both_ways
  affine_meant text v unnamed bare unread (affine e none_found parsed h) = (e, parsed, h)
