-- ===== src/Trace/Index/Exact.antt =====
-- An index that has a value has the exact one.
use yet_another_reuse_distan.Prelude.{
  ℕ, ◌≡◌, ◌↔◌, refl, sym, ap, ◌∙◌, true, inl, inr, List, [], ◌∷◌, none, some, arith, get_or,
  Bool-cases, Option-cases,
}
use yet_another_reuse_distan.Trace.Loop.{ℤ, pos}
use yet_another_reuse_distan.Trace.Signed.{◌+ℤ◌, ◌*ℤ◌, checked, in_range}
use yet_another_reuse_distan.Trace.Index.{in_wide_range, sum_terms, evaluate_affine}

-- The exact sum of the terms.
pub affine_value : List ℤ → List (ℕ × ℤ) → ℤ → ℤ
affine_value values [] total = total
affine_value values ((slot, coefficient) ∷ terms) total =
    affine_value values terms (total +ℤ coefficient *ℤ get_or values slot (pos 0))

-- Every sum on the way fits 128 bits.
unfoldable pub Wide : List ℤ → List (ℕ × ℤ) → ℤ → Type 0
Wide values [] total = Unit {0}
Wide values ((slot, coefficient) ∷ terms) total =
    (in_wide_range (total +ℤ coefficient *ℤ get_or values slot (pos 0)) ≡ true)
    × Wide values terms (total +ℤ coefficient *ℤ get_or values slot (pos 0))

sum_terms_exact :
    (values : List ℤ) (terms : List (ℕ × ℤ)) (total out : ℤ)
    → (sum_terms values terms total ≡ some out)
      ↔ (Wide values terms total × (out ≡ affine_value values terms total))
unfolding sum_terms affine_value Wide
sum_terms_exact values [] total out = (λ h. (tt, cc h), λ (w, e). ap some (sym e))
sum_terms_exact values ((slot, coefficient) ∷ terms) total out =
    let total' = total +ℤ coefficient *ℤ get_or values slot (pos 0) in
    let rest = sum_terms_exact values terms total' out in
    (
      λ h. elim (Bool-cases (in_wide_range total')) [
        | inl e ↦ let (w, same) = rest.0 (ground (arith, e, h)) in ((e, w), same)
        | inr e ↦ let stop : none ≡ some out = ground (arith, e, h) in cc stop
      ],
      λ ((e, w), same).
          let go : sum_terms values terms total' ≡ some out = rest.1 (w, same) in
          ground (arith, e, go),
    )

checked_exact : (a v : ℤ) → (checked a ≡ some v) ↔ ((in_range a ≡ true) × (v ≡ a))
unfolding checked
checked_exact a v = elim (Bool-cases (in_range a)) [
  | inl e ↦ (λ h. (e, ground (arith, e, h)), λ (r, same). ground (arith, e, same))
  | inr e ↦ (λ h. ground (arith, e, h), λ (r, same). ground (arith, e, r))
]

-- An affine index has a value exactly where each sum on the way fits 128 bits and the exact sum of
-- its constant and its terms fits 64 bits; the value is then that sum.
pub evaluate_affine_iff :
    (values : List ℤ) (terms : List (ℕ × ℤ)) (constant v : ℤ)
    → (evaluate_affine terms constant values ≡ some v) ↔ (
        Wide values terms constant
        × (in_range (affine_value values terms constant) ≡ true)
        × (v ≡ affine_value values terms constant))
unfolding evaluate_affine
evaluate_affine_iff values terms constant v = (
  λ h. elim (Option-cases (sum_terms values terms constant)) [
    | inl n ↦ let stop : none ≡ some v = ground (arith, n, h) in cc stop
    | inr (total, s) ↦
        let (w, e) = (sum_terms_exact values terms constant total).0 s in
        let (r, same) = (checked_exact total v).0 (ground (arith, s, h)) in
        (w, rw (← e) r, same ∙ e)
  ],
  λ (w, r, same).
      let s =
        (sum_terms_exact values terms constant (affine_value values terms constant)).1 (w, refl) in
      let c = (checked_exact (affine_value values terms constant) v).1 (r, same) in
      ground (arith, s, c),
)
