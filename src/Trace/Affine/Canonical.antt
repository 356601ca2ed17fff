-- ===== src/Trace/Affine/Canonical.antt =====
-- Sums of canonical expressions are canonical.
use yet_another_reuse_distan.Prelude.{
  ◌≡◌, refl, sym, Bool, true, false, inl, inr, List, [], ◌∷◌, Option, none, some, arith, Bool-cases,
  Option-cases,
}
use mathlib.Core.Path.{subst}
use yet_another_reuse_distan.Output.Identity.{Bytes}
use yet_another_reuse_distan.Trace.Loop.{ℤ, pos}
use yet_another_reuse_distan.Trace.Affine.{
  AffineExpression, is_zero, less, same_name, add_scaled, keep_term, add_term, add_terms,
  add_affine_expression,
}

less_trans : (a b c : Bytes) → less a b ≡ true → less b c ≡ true → less a c ≡ true
unfolding less
less_trans [] [] c h k = cc h
less_trans [] (y ∷ b) [] h k = cc k
less_trans [] (y ∷ b) (z ∷ c) h k = refl
less_trans (x ∷ a) [] c h k = cc h
less_trans (x ∷ a) (y ∷ b) [] h k = cc k
less_trans (x ∷ a) (y ∷ b) (z ∷ c) h k = ground (arith, h, k, less_trans a b c)

-- Of two different names one comes first.
less_total : (a b : Bytes) → same_name a b ≡ false → less a b ≡ false → less b a ≡ true
unfolding less same_name
less_total [] [] s h = cc s
less_total [] (y ∷ b) s h = cc h
less_total (x ∷ a) [] s h = refl
less_total (x ∷ a) (y ∷ b) s h = ground (arith, s, h, less_total a b)

-- The bound of a list, where it has one, comes before a name.
abbrev pub precedes : Option Bytes → Bytes → Bool
precedes none name = true
precedes (some low) name = less low name

-- Names after the bound in their order, with coefficients that are not zero.
unfoldable pub Ordered : Option Bytes → List (Bytes × ℤ) → Type 0
Ordered low [] = Unit {0}
Ordered low ((name, coefficient) ∷ terms) =
    (precedes low name ≡ true) × (is_zero coefficient ≡ false) × Ordered (some name) terms

precedes_trans :
    (low : Option Bytes) (a b : Bytes)
    → precedes low a ≡ true
    → less a b ≡ true
    → precedes low b ≡ true
precedes_trans none a b h k = refl
precedes_trans (some low) a b h k = less_trans low a b h k

weaken :
    (low : Option Bytes) (name : Bytes) (terms : List (Bytes × ℤ))
    → precedes low name ≡ true
    → Ordered (some name) terms
    → Ordered low terms
unfolding Ordered
weaken low name [] h o = tt
weaken low name ((other, c) ∷ terms) h (after, nonzero, o) =
    (precedes_trans low name other h after, nonzero, o)

keep_term-Ordered :
    (low : Option Bytes) (name : Bytes) (c : ℤ) (terms : List (Bytes × ℤ))
    → precedes low name ≡ true
    → Ordered (some name) terms
    → Ordered low (keep_term name c terms)
unfolding keep_term Ordered
keep_term-Ordered low name c terms h o = elim (Bool-cases (is_zero c)) [
  | inl e ↦ rw e (weaken low name terms h o)
  | inr e ↦ rw e (h, e, o)
]

same_name-eq : (a b : Bytes) → same_name a b ≡ true → a ≡ b
unfolding same_name
same_name-eq [] [] h = refl
same_name-eq [] (y ∷ b) h = cc h
same_name-eq (x ∷ a) [] h = cc h
same_name-eq (x ∷ a) (y ∷ b) h =
    let head : x ≡ y = ground (arith, h) in
    let tail : a ≡ b = same_name-eq a b (ground (arith, h)) in cc (head, tail)

add_term-Ordered :
    (low : Option Bytes) (name : Bytes) (value k : ℤ) (target out : List (Bytes × ℤ))
    → precedes low name ≡ true
    → Ordered low target
    → add_term name value k target ≡ some out
    → Ordered low out
unfolding add_term Ordered
add_term-Ordered low name value k [] out p o h = elim (Option-cases (add_scaled (pos 0) value k)) [
  | inl n ↦ let stop : none ≡ some out = ground (arith, n, h) in cc stop
  | inr (sum, s) ↦
      let e : keep_term name sum [] ≡ out = ground (arith, s, h) in
      subst (Ordered low) e (keep_term-Ordered low name sum [] p tt)
]
add_term-Ordered low name value k ((other, term) ∷ terms) out p (before, nonzero, after) h =
    elim (Bool-cases (same_name name other)) [
      | inl e ↦
          let eq = same_name-eq name other e in
          elim (Option-cases (add_scaled term value k)) [
            | inl n ↦ let stop : none ≡ some out = ground (arith, e, n, h) in cc stop
            | inr (sum, s) ↦
                let f : keep_term name sum terms ≡ out = ground (arith, e, s, h) in
                subst (Ordered low) f (
                  keep_term-Ordered low name sum terms p
                    (subst (λ z. Ordered (some z) terms) (sym eq) after))
          ]
      | inr e ↦ elim (Bool-cases (less name other)) [
        | inl l ↦ elim (Option-cases (add_scaled (pos 0) value k)) [
          | inl n ↦ let stop : none ≡ some out = ground (arith, e, l, n, h) in cc stop
          | inr (sum, s) ↦
              let f : keep_term name sum ((other, term) ∷ terms) ≡ out =
                ground (arith, e, l, s, h) in
              subst (Ordered low) f
                (keep_term-Ordered low name sum ((other, term) ∷ terms) p (l, nonzero, after))
        ]
        | inr l ↦ elim (Option-cases (add_term name value k terms)) [
          | inl n ↦ let stop : none ≡ some out = ground (arith, e, l, n, h) in cc stop
          | inr (rest, s) ↦
              let f : (other, term) ∷ rest ≡ out = ground (arith, e, l, s, h) in
              let o =
                add_term-Ordered (some other) name value k terms rest (less_total name other e l)
                  after s in
              subst (Ordered low) f (before, nonzero, o)
        ]
      ]
    ]

add_terms-Ordered :
    (k : ℤ) (source target out : List (Bytes × ℤ))
    → Ordered none target
    → add_terms k target source ≡ some out
    → Ordered none out
unfolding add_terms
add_terms-Ordered k [] target out o h = ground (arith, o, h)
add_terms-Ordered k ((name, value) ∷ source) target out o h =
    elim (Option-cases (add_term name value k target)) [
      | inl n ↦ let stop : none ≡ some out = ground (arith, n, h) in cc stop
      | inr (next, s) ↦
          add_terms-Ordered k source next out
            (add_term-Ordered none name value k target next refl o s) (ground (arith, s, h))
    ]

-- Where a multiple of an expression is added without an overflow to one whose names rise in their
-- order with coefficients that are not zero, the names of the sum rise and its coefficients are
-- not zero.
pub add_affine_expression-Ordered :
    (target source out : AffineExpression) (k : ℤ)
    → Ordered none target.terms
    → add_affine_expression target source k ≡ some out
    → Ordered none out.terms
unfolding add_affine_expression
add_affine_expression-Ordered target source out k o h =
    elim (Option-cases (add_scaled target.constant source.constant k)) [
      | inl n ↦ let stop : none ≡ some out = ground (arith, n, h) in cc stop
      | inr (constant, c) ↦ elim (Option-cases (add_terms k target.terms source.terms)) [
        | inl n ↦ let stop : none ≡ some out = ground (arith, c, n, h) in cc stop
        | inr (terms, s) ↦
            let f : (record { constant = constant; terms = terms }) ≡ out =
              ground (arith, c, s, h) in
            subst (λ z. Ordered none z.terms) f
              (add_terms-Ordered k source.terms target.terms terms o s)
      ]
    ]
