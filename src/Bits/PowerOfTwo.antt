-- ===== src/Bits/PowerOfTwo.antt =====
-- `value != 0 && (value & (value - 1)) == 0` of backend/src/cache/mapping/address.cpp.
use Prim.Native.Nat.{bit_and}
use native.Mathlib.Nat.{pow-suc}
use yet_another_reuse_distan.Prelude.{
  ℕ, zero, suc, ◌+◌, ◌-◌, ◌*◌, ◌/◌, ◌^◌, ◌≤◌, ◌<◌, ◌≡◌, ◌↔◌, refl, ap, Bool, true, not, ◌&&◌, inl,
  inr, arith, ◌==◌,
}
use yet_another_reuse_distan.Bits.And.{zero-bit_and, bit_and_step}
use yet_another_reuse_distan.Bits.Lowbit.{Parity, parity}

unfoldable pub is_power_of_two : ℕ → Bool
is_power_of_two value = not (value == 0) && bit_and value (value - 1) == 0

bit_and_self : (fuel x : ℕ) → x ≤ fuel → bit_and x x ≡ x
bit_and_self fuel zero h = zero-bit_and 0
bit_and_self zero (suc x) h = absurd (omega arith)
bit_and_self (suc fuel) (suc x) h =
    omega (arith, bit_and_step (suc x) (suc x), bit_and_self fuel (suc x / 2) (omega arith))

-- The bits that clearing the lowest one leaves, for an even and for an odd word.
clear_even : (m : ℕ) → 0 < m → bit_and (2 * m) (2 * m - 1) ≡ 2 * bit_and m (m - 1)
clear_even m h =
    let a : 2 * m / 2 ≡ m = omega arith in
    let b : (2 * m - 1) / 2 ≡ m - 1 = omega arith in
    let both : bit_and (2 * m / 2) ((2 * m - 1) / 2) ≡ bit_and m (m - 1) = rw (a, b) in
    omega (arith, bit_and_step (2 * m) (2 * m - 1), both)

clear_odd : (m : ℕ) → bit_and (2 * m + 1) (2 * m) ≡ 2 * m
clear_odd m =
    let a : (2 * m + 1) / 2 ≡ m = omega arith in
    let b : 2 * m / 2 ≡ m = omega arith in
    let both : bit_and ((2 * m + 1) / 2) (2 * m / 2) ≡ bit_and m m = rw (a, b) in
    omega (arith, bit_and_step (2 * m + 1) (2 * m), both, bit_and_self m m (omega arith))

cleared_is_power : (fuel x : ℕ) → x ≤ fuel → 0 < x → bit_and x (x - 1) ≡ 0 → (k : ℕ) × (x ≡ 2 ^ k)
unfolding Parity
cleared_is_power zero x h p e = absurd (omega arith)
cleared_is_power (suc fuel) x h p e = elim (parity x) [
  | inl (m, d) ↦
      let same : bit_and x (x - 1) ≡ bit_and (2 * m) (2 * m - 1) = rw d in
      let (k, q) =
        cleared_is_power fuel m (omega arith) (omega arith)
          (omega (arith, same, e, clear_even m (omega arith))) in
      (suc k, omega (arith, pow-suc 2 k, q, d))
  | inr (m, d) ↦
      let same : bit_and x (x - 1) ≡ bit_and (2 * m + 1) (2 * m + 1 - 1) = rw d in
      let less : bit_and (2 * m + 1) (2 * m + 1 - 1) ≡ bit_and (2 * m + 1) (2 * m) =
        ap (bit_and (2 * m + 1)) (omega arith) in
      (0, omega (arith, same, less, e, clear_odd m, d))
]

pub power_is_positive : (k : ℕ) → 0 < 2 ^ k
power_is_positive zero = omega arith
power_is_positive (suc k) = omega (arith, pow-suc 2 k, power_is_positive k)

power_is_cleared : (k : ℕ) → bit_and (2 ^ k) (2 ^ k - 1) ≡ 0
power_is_cleared zero = refl
power_is_cleared (suc k) =
    let double : 2 ^ suc k ≡ 2 * 2 ^ k = omega (arith, pow-suc 2 k) in
    rw double (omega (arith, clear_even (2 ^ k) (power_is_positive k), power_is_cleared k))

-- The test accepts exactly the powers of two.
pub is_power_of_two_iff : (value : ℕ) → (is_power_of_two value ≡ true) ↔ ((k : ℕ) × (value ≡ 2 ^ k))
unfolding is_power_of_two
is_power_of_two_iff value = (
  λ h. cleared_is_power value value (omega arith) (ground (arith, h)) (ground (arith, h)),
  λ (k, e). rw e (ground (arith, power_is_positive k, power_is_cleared k)),
)
