-- ===== src/Trace/Index/Preparation/Agreement.antt =====
-- backend/src/trace/index/prepared_index.cpp: a prepared index against what its text means.
use mathlib.Core.Path.{subst}
use yet_another_reuse_distan.Prelude.{
  ℕ, ◌≡◌, refl, sym, ap, ◌∙◌, true, inl, inr, List, Option, none, some, arith, get_or, Bool-cases,
  Option-cases, ok,
}
use yet_another_reuse_distan.Output.Identity.{Bytes}
use yet_another_reuse_distan.Trace.Loop.{ℤ, pos}
use yet_another_reuse_distan.Trace.Signed.{◌+ℤ◌, checked, add_overflow, in_range}
use yet_another_reuse_distan.Trace.Affine.{AffineExpression, parse_affine_expression}
use yet_another_reuse_distan.Trace.Affine.Parsing.{parse_affine_expression-Canonical}
use yet_another_reuse_distan.Trace.Index.{
  LoopScope, find_slot, PreparedIndex, sum_terms, evaluate_affine, evaluate_slot, evaluate_numeric,
}
use yet_another_reuse_distan.Trace.Index.Preparation.{
  parse_exact_integer, find_offset, bind_terms, unprepared, prepare_affine, prepare_index,
}
use yet_another_reuse_distan.Trace.Index.Preparation.Meaning.{
  named_sum, Means, variable, offset, number, affine, held, held_at, loop_value-find_slot,
  named_sum-bind_terms, checked-exact, checked-fits, add_zero, find_offset-parts, offset_meant,
  affine_meant,
}

module _ (scope : List LoopScope) (values : List ℤ) where
  -- The index has no value that the text does not mean, and one where it means any of 64 bits.
  abbrev Agrees : Bytes → PreparedIndex → Type 0
  Agrees text index =
      ((v : ℤ) → evaluate_numeric index values ≡ some v → Means scope values text v)
      × ((v : ℤ)
          → Means scope values text v
          → in_range v ≡ true
          → (w : ℤ) × (evaluate_numeric index values ≡ some w))

  abbrev of_slot : ℕ → PreparedIndex
  of_slot slot = record unprepared { slot = some slot }

  variable-Agrees :
      (text : Bytes) (slot : ℕ)
      → in_range (held values slot) ≡ true
      → find_slot text scope ≡ some slot
      → Agrees text (of_slot slot)
  unfolding evaluate_numeric evaluate_slot add_overflow
  variable-Agrees text slot small found =
      let sum : checked (held values slot +ℤ pos 0) ≡ some (held values slot) =
        ap checked (add_zero (held values slot)) ∙ checked-fits (held values slot) small in
      let ran : evaluate_numeric (of_slot slot) values ≡ some (held values slot) =
        ground (arith, sum) in
      (
        λ v h. variable (
            loop_value-find_slot scope values text scope ∙ ap (held_at values) found ∙ sym ran ∙ h),
        λ v meant fits. (held values slot, ran),
      )

  abbrev of_offset : Bytes → ℕ → ℤ → PreparedIndex
  of_offset text slot n = record unprepared {
    slot = some slot;
    literal = parse_exact_integer text;
    offset = n;
  }

  offset-Agrees :
      (text : Bytes) (slot : ℕ) (n : ℤ)
      → find_slot text scope ≡ none
      → find_offset text scope ≡ some (slot, n)
      → Agrees text (of_offset text slot n)
  unfolding evaluate_numeric evaluate_slot add_overflow
  offset-Agrees text slot n unnamed found =
      let (base, rest, split, named, read) = find_offset-parts scope values text slot n found in
      let value = loop_value-find_slot scope values base scope ∙ ap (held_at values) named in
      elim (Option-cases (checked (held values slot +ℤ n))) [
        | inr (sum, fits) ↦
            let ran : evaluate_numeric (of_offset text slot n) values ≡ some sum =
              ground (arith, fits) in
            (
              λ v h.
                  let same : sum ≡ v = ground (arith, sym ran ∙ h) in
                  offset base rest (held values slot) n split value read
                    (sym same ∙ checked-exact (held values slot +ℤ n) sum fits),
              λ v meant small. (sum, ran),
            )
        | inl over ↦
            let ran : evaluate_numeric (of_offset text slot n) values ≡ parse_exact_integer text =
              ground (arith, over) in
            (
              λ v h. number (sym ran ∙ h),
              λ v meant small.
                  (v, ran ∙ offset_meant scope values text slot n v unnamed found over small meant),
            )
      ]

  abbrev of_number : ℤ → PreparedIndex
  of_number n = record unprepared { literal = some n }

  number-Agrees :
      (text : Bytes) (n : ℤ) → parse_exact_integer text ≡ some n → Agrees text (of_number n)
  unfolding evaluate_numeric
  number-Agrees text n read = (λ v h. number (read ∙ h), λ v meant small. (n, refl))

  affine-Agrees :
      (text : Bytes) (o : Option AffineExpression)
      → find_slot text scope ≡ none
      → find_offset text scope ≡ none
      → parse_exact_integer text ≡ none
      → parse_affine_expression text ≡ ok o
      → Agrees text (prepare_affine o scope)
  unfolding prepare_affine evaluate_numeric evaluate_affine
  affine-Agrees text none unnamed bare unread parsed = (
    λ v h. cc h,
    λ v meant small.
        let (e, read, h) = affine_meant scope values text v unnamed bare unread meant in
        let both_ways : ok none ≡ ok (some e) = sym parsed ∙ read in cc both_ways,
  )
  affine-Agrees text (some e) unnamed bare unread parsed =
      let sum = named_sum-bind_terms scope values e.terms e.constant in
      (
        λ v h. elim (Bool-cases (bind_terms e.terms scope).1) [
          | inr partial ↦ ground (arith, partial, h)
          | inl whole ↦
              elim (Option-cases (sum_terms values (bind_terms e.terms scope).0 e.constant)) [
                | inl over ↦ ground (arith, whole, over, h)
                | inr (total, added) ↦
                    let same = checked-exact total v (ground (arith, whole, added, h)) in
                    affine e bare parsed (ground (arith, sum, whole, added, same))
              ]
        ],
        λ v meant small.
            let (e', read, h) = affine_meant scope values text v unnamed bare unread meant in
            let same : e' ≡ e = cc (sym read ∙ parsed) in
            let total : named_sum scope values e.terms e.constant ≡ some v =
              ap (λ z. named_sum scope values z.terms z.constant) (sym same) ∙ h in
            let fits = checked-fits v small in
            elim (Bool-cases (bind_terms e.terms scope).1) [
              | inr partial ↦ ground (arith, partial, sum, total)
              | inl whole ↦ (v, ground (arith, whole, sum, total, fits))
            ],
      )

  -- A value is one that the text means; there is none only where the text means no 64-bit number.
  abbrev pub Gives : Bytes → Option ℤ → Type 0
  Gives text (some v) = Means scope values text v
  Gives text none = ¬ ((v : ℤ) × Means scope values text v × (in_range v ≡ true))

  Agrees-Gives :
      (text : Bytes) (index : PreparedIndex)
      → Agrees text index
      → Gives text (evaluate_numeric index values)
  Agrees-Gives text index (sound, complete) = elim (Option-cases (evaluate_numeric index values)) [
    | inr (v, ran) ↦ subst (Gives text) (sym ran) (sound v ran)
    | inl unvalued ↦ subst (Gives text) (sym unvalued) (λ (v, meant, small).
        let (w, ran) = complete v meant small in
        let both_ways : none ≡ some w = sym unvalued ∙ ran in cc both_ways)
  ]

  prepare_index-Agrees :
      (text : Bytes)
      → ((slot : ℕ) → in_range (held values slot) ≡ true)
      → (index : PreparedIndex) × (prepare_index text scope ≡ ok index) × Agrees text index
  unfolding prepare_index
  prepare_index-Agrees text small = elim (Option-cases (find_slot text scope)) [
    | inr (slot, found) ↦
        (of_slot slot, ground (arith, found), variable-Agrees text slot (small slot) found)
    | inl unnamed ↦ elim (Option-cases (find_offset text scope)) [
      | inr ((slot, n), found) ↦ (
        of_offset text slot n,
        ground (arith, unnamed, found),
        offset-Agrees text slot n unnamed found,
      )
      | inl bare ↦ elim (Option-cases (parse_exact_integer text)) [
        | inr (n, read) ↦
            (of_number n, ground (arith, unnamed, bare, read), number-Agrees text n read)
        | inl unread ↦
            let (o, parsed, canonical) = parse_affine_expression-Canonical text in
            (
              prepare_affine o scope,
              ground (arith, unnamed, bare, unread, parsed),
              affine-Agrees text o unnamed bare unread parsed,
            )
      ]
    ]
  ]

  -- Where the loops have 64-bit values, the preparation of an index never fails; the value of the
  -- index is a number that its text means, and it has none only where the text means no 64-bit
  -- number.
  pub prepare_index-Gives :
      (text : Bytes)
      → ((slot : ℕ) → in_range (get_or values slot (pos 0)) ≡ true)
      → (index : PreparedIndex) × (prepare_index text scope ≡ ok index)
        × Gives text (evaluate_numeric index values)
  prepare_index-Gives text small =
      let (index, prepared, agrees) = prepare_index-Agrees text small in
      (index, prepared, Agrees-Gives text index agrees)
