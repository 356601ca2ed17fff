-- ===== src/Bits/And.antt =====
-- The native `bit_and` by its lowest digit, and what follows by recursion on the width.
use Prim.Native.Nat.{bit_and, digits, bit_and-bitwise}
use yet_another_reuse_distan.Prelude.{
  ℕ, zero, suc, ◌+◌, ◌-◌, ◌*◌, ◌/◌, ◌%◌, ◌^◌, ◌≤◌, ◌<◌, min, ◌≡◌, refl, sym, ap, ◌∙◌, arith,
}
use native.Mathlib.Nat.{pow-suc}

-- What `bit_and` stands for, with a bound on its rounds.
abbrev in_rounds : ℕ → ℕ → ℕ → ℕ
in_rounds rounds x y = digits (λ rest. zero) min rounds x y

nothing_left : (rounds y : ℕ) → in_rounds rounds zero y ≡ zero
nothing_left (suc rounds) y = refl
nothing_left zero y = refl

-- The rounds past the first operand change nothing.
rounds_agree : (x y r s : ℕ) → x ≤ r → x ≤ s → in_rounds r x y ≡ in_rounds s x y
rounds_agree zero y r s below below' = nothing_left r y ∙ sym (nothing_left s y)
rounds_agree (suc x) y (suc r) (suc s) below below' =
    let half =
      rounds_agree (suc x / 2) (y / 2) r s (omega (arith, below)) (omega (arith, below')) in
    omega (arith, half)
rounds_agree (suc x) y (suc r) zero below below' = absurd (omega (arith, below'))
rounds_agree (suc x) y zero s below below' = absurd (omega (arith, below))

pub zero-bit_and : (y : ℕ) → bit_and 0 y ≡ 0
zero-bit_and y = bit_and-bitwise zero y ∙ nothing_left zero y

pub bit_and_step : (x y : ℕ) → bit_and x y ≡ bit_and (x / 2) (y / 2) * 2 + min (x % 2) (y % 2)
bit_and_step (suc x) y =
    let half = rounds_agree (suc x / 2) (y / 2) x (suc x / 2) (omega arith) (omega arith) in
    omega (arith, half, bit_and-bitwise (suc x / 2) (y / 2), bit_and-bitwise (suc x) y)
bit_and_step zero y = omega (arith, zero-bit_and (y / 2), zero-bit_and y)

-- A word and its complement have no bit in common.
pub bit_and_complement : (w x : ℕ) → x < 2 ^ w → bit_and x (2 ^ w - 1 - x) ≡ 0
bit_and_complement zero zero h = zero-bit_and 0
bit_and_complement zero (suc x) h = absurd (omega arith)
bit_and_complement (suc w) x h =
    let p = pow-suc 2 w in
    let half : (2 ^ suc w - 1 - x) / 2 ≡ 2 ^ w - 1 - x / 2 = omega (arith, p) in
    let rest = bit_and_complement w (x / 2) (omega (arith, p)) in
    omega (arith, p, bit_and_step x (2 ^ suc w - 1 - x), ap (bit_and (x / 2)) half, rest)
