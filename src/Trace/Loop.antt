-- ===== src/Trace/Loop.antt =====
-- backend/src/trace/execution/loop_iteration.cpp: how often a loop runs.
use native.Mathlib.Nat.{div-add-mod', mod-lt, mul-le-mul_right, add-mul}
use yet_another_reuse_distan.Prelude.{
  ℕ, zero, suc, ◌+◌, ◌-◌, ◌*◌, ◌/◌, ◌%◌, ◌^◌, ◌≤◌, ◌<◌, ◌≡◌, refl, Bool, true, false, inl, inr,
  arith, ltb, ◌==◌, if◌then◌else◌, Result, ok, throw, invalid_argument, lt_or_ge, ◌↔◌, Bool-cases,
}

-- A 64-bit signed number: `pos n` is `n` and `negsuc n` is `-(n + 1)`.
pub data ℤ : Type 0 where
  pos negsuc : ℕ → ℤ

unfoldable pub is_negative : ℤ → Bool
is_negative (pos n) = false
is_negative (negsuc n) = true

unfoldable pub lt_int : ℤ → ℤ → Bool
lt_int (pos m) (pos n) = ltb m n
lt_int (pos m) (negsuc n) = false
lt_int (negsuc m) (pos n) = true
lt_int (negsuc m) (negsuc n) = ltb n m

-- `upper - lower`, whose branches are those of the two signs; `lower` is not above `upper`. Where
-- the signs are equal it is the signed difference that the source casts.
unfoldable pub positive_distance : ℤ → ℤ → ℕ
positive_distance (negsuc m) (pos n) = ((m + 1) % 2 ^ 64 + n) % 2 ^ 64
positive_distance (pos m) (pos n) = n - m
positive_distance (negsuc m) (negsuc n) = m - n
positive_distance (pos m) (negsuc n) = 0

unfoldable pub step_magnitude : ℤ → ℕ
step_magnitude (negsuc m) = (m + 1) % 2 ^ 64
step_magnitude (pos m) = 0

unfoldable pub ceil_divide : ℕ → ℕ → ℕ
ceil_divide dividend divisor = dividend / divisor + (if dividend % divisor == 0 then 0 else 1)

unfoldable pub loop_iteration_count : ℤ → ℤ → ℤ → Result ℕ
unfolding lt_int positive_distance step_magnitude ceil_divide
loop_iteration_count start bound (pos zero) = throw invalid_argument
loop_iteration_count start bound (pos (suc k)) =
    ok (if lt_int start bound then ceil_divide (positive_distance start bound) (suc k) else 0)
loop_iteration_count start bound (negsuc k) = ok (
    if lt_int bound start
    then ceil_divide (positive_distance bound start) (step_magnitude (negsuc k))
    else 0)

-- The number fits 64 bits, and its place on a line that starts at the least one.
unfoldable pub InRange : ℤ → Type 0
InRange (pos n) = n < 2 ^ 63
InRange (negsuc n) = n < 2 ^ 63

unfoldable pub place : ℤ → ℕ
place (pos n) = 2 ^ 63 + n
place (negsuc n) = 2 ^ 63 - 1 - n

round_below : (i d s : ℕ) → 0 < s → i < ceil_divide d s → i * s < d
unfolding ceil_divide
round_below i d s p h = elim (lt_or_ge i (d / s)) [
  | inl lt ↦
      let le : suc i * s ≤ d / s * s = mul-le-mul_right s (omega (arith, lt)) in
      omega (arith, le, div-add-mod' d s, p, add-mul i 1 s)
  | inr ge ↦
      let same : i ≡ d / s = ground (arith, h, ge) in
      let rest : 0 < d % s = ground (arith, h, ge) in
      rw same (omega (arith, div-add-mod' d s, rest))
]

below_round : (i d s : ℕ) → 0 < s → i * s < d → i < ceil_divide d s
unfolding ceil_divide
below_round i d s p h = elim (lt_or_ge i (d / s)) [
  | inl lt ↦ ground (arith, lt)
  | inr ge ↦
      let le : d / s * s ≤ i * s = mul-le-mul_right s ge in
      let rest : 0 < d % s = omega (arith, le, div-add-mod' d s, h) in
      elim (lt_or_ge (d / s) i) [
        | inr le' ↦ ground (arith, le', rest)
        | inl gt ↦
            let more : suc (d / s) * s ≤ i * s = mul-le-mul_right s (omega (arith, gt)) in
            absurd (omega (arith, more, div-add-mod' d s, mod-lt d p, add-mul (d / s) 1 s, h))
      ]
]

-- The rounds of a loop: `i` is one of them exactly when `i` steps do not cover the distance.
ceil_divide_lem : (i d s : ℕ) → 0 < s → (i < ceil_divide d s) ↔ (i * s < d)
ceil_divide_lem i d s p = (round_below i d s p, below_round i d s p)

distance_lem :
    (a b : ℤ)
    → InRange a
    → InRange b
    → lt_int a b ≡ true
    → place a + positive_distance a b ≡ place b
unfolding InRange place lt_int positive_distance
distance_lem (pos m) (pos n) x y h = ground (arith, x, y, h)
distance_lem (pos m) (negsuc n) x y h = cc
distance_lem (negsuc m) (pos n) x y h = omega (arith, x, y)
distance_lem (negsuc m) (negsuc n) x y h = ground (arith, x, y, h)

order_lem : (a b : ℤ) → InRange a → InRange b → lt_int a b ≡ false → place b ≤ place a
unfolding InRange place lt_int
order_lem (pos m) (pos n) x y h = ground (arith, x, y, h)
order_lem (pos m) (negsuc n) x y h = omega (arith, x, y)
order_lem (negsuc m) (pos n) x y h = cc
order_lem (negsuc m) (negsuc n) x y h = ground (arith, x, y, h)

-- The rounds from `a` up to `b` by `s`.
rounds : ℤ → ℤ → ℕ → ℕ
rounds a b s = if lt_int a b then ceil_divide (positive_distance a b) s else 0

rounds_lem :
    (a b : ℤ) (s i : ℕ)
    → InRange a
    → InRange b
    → 0 < s
    → (i < rounds a b s) ↔ (place a + i * s < place b)
unfolding rounds
rounds_lem a b s i x y p = elim (Bool-cases (lt_int a b)) [
  | inl e ↦
      let d = distance_lem a b x y e in
      let (there, back) = ceil_divide_lem i (positive_distance a b) s p in
      rw e (λ h. omega (arith, there h, d), λ h. back (omega (arith, h, d)))
  | inr e ↦
      let le = order_lem a b x y e in
      rw e (λ h. absurd (omega (arith, h)), λ h. absurd (omega (arith, h, le)))
]

-- Between 64-bit numbers, counting up by a positive step, the count is of exactly the rounds before the bound: round `i`
-- runs where the start and `i` steps lie below the bound.
pub loop_iteration_count_up :
    (start bound : ℤ) (k : ℕ)
    → InRange start
    → InRange bound
    → (n : ℕ) × (loop_iteration_count start bound (pos (suc k)) ≡ ok n)
      × ((i : ℕ) → (i < n) ↔ (place start + i * suc k < place bound))
unfolding loop_iteration_count rounds
loop_iteration_count_up start bound k x y =
    (rounds start bound (suc k), refl, λ i. rounds_lem start bound (suc k) i x y (omega arith))

-- Between 64-bit numbers, counting down by a negative 64-bit step, the count is of exactly the
-- rounds before the bound: round `i` runs where the bound and `i` steps lie below the start.
pub loop_iteration_count_down :
    (start bound : ℤ) (k : ℕ)
    → InRange start
    → InRange bound
    → InRange (negsuc k)
    → (n : ℕ) × (loop_iteration_count start bound (negsuc k) ≡ ok n)
      × ((i : ℕ) → (i < n) ↔ (place bound + i * (k + 1) < place start))
unfolding loop_iteration_count rounds step_magnitude InRange
loop_iteration_count_down start bound k x y z =
    let small : (k + 1) % 2 ^ 64 ≡ k + 1 = omega (arith, z) in
    (
      rounds bound start (k + 1),
      rw small refl,
      λ i. rounds_lem bound start (k + 1) i y x (omega arith),
    )
