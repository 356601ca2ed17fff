-- ===== src/Trace/Signed.antt =====
-- The checked arithmetic of signed 64-bit numbers: `__builtin_add_overflow` and
-- `__builtin_mul_overflow`.
use yet_another_reuse_distan.Prelude.{
  ℕ, suc, ◌+◌, ◌-◌, ◌*◌, ◌^◌, ◌≡◌, Bool, Option, none, some, arith, ltb, leb, if◌then◌else◌,
}
use yet_another_reuse_distan.Trace.Loop.{ℤ, pos, negsuc}

abbrev pub pos_part : ℤ → ℕ
pos_part (pos n) = n
pos_part (negsuc n) = 0

abbrev pub neg_part : ℤ → ℕ
neg_part (pos n) = 0
neg_part (negsuc n) = suc n

-- `a - b`
abbrev pub sub_ℕ : ℕ → ℕ → ℤ
sub_ℕ a b = if leb b a then pos (a - b) else negsuc (b - a - 1)

infixl 65 ◌+ℤ◌
infixl 70 ◌*ℤ◌
unfoldable pub ◌+ℤ◌ : ℤ → ℤ → ℤ
a +ℤ b = sub_ℕ (pos_part a + pos_part b) (neg_part a + neg_part b)

unfoldable pub ◌*ℤ◌ : ℤ → ℤ → ℤ
a *ℤ b =
    sub_ℕ (pos_part a * pos_part b + neg_part a * neg_part b)
      (pos_part a * neg_part b + neg_part a * pos_part b)

-- The number is one of 64 bits.
abbrev pub in_range : ℤ → Bool
in_range (pos n) = ltb n (2 ^ 63)
in_range (negsuc n) = ltb n (2 ^ 63)

unfoldable pub checked : ℤ → Option ℤ
checked a = if in_range a then some a else none

unfoldable pub add_overflow : ℤ → ℤ → Option ℤ
unfolding ◌+ℤ◌ checked
add_overflow a b = checked (a +ℤ b)

unfoldable pub mul_overflow : ℤ → ℤ → Option ℤ
unfolding ◌*ℤ◌ checked
mul_overflow a b = checked (a *ℤ b)

-- A sum of two numbers that are not negative.
pub add_overflow-pos :
    (a b : ℕ)
    → add_overflow (pos a) (pos b) ≡ (if ltb (a + b) (2 ^ 63) then some (pos (a + b)) else none)
unfolding add_overflow ◌+ℤ◌ checked
add_overflow-pos a b = ground arith

pub mul_overflow-pos :
    (a b : ℕ)
    → mul_overflow (pos a) (pos b) ≡ (if ltb (a * b) (2 ^ 63) then some (pos (a * b)) else none)
unfolding mul_overflow ◌*ℤ◌ checked
mul_overflow-pos a b = ground arith
