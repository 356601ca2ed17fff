-- ===== src/Bits/Lowbit.antt =====
-- `slot & (~slot + 1)`, the lowest set bit of a 64-bit word, and how the bits of two words nest.
use Prim.Native.Nat.{bit_and}
use native.Mathlib.Nat.{pow-suc}
use yet_another_reuse_distan.Prelude.{
  ℕ, zero, suc, ◌+◌, ◌-◌, ◌*◌, ◌/◌, ◌%◌, ◌^◌, ◌≤◌, ◌<◌, ◌≡◌, refl, ap, ◌∙◌, ◌⊎◌, inl, inr, arith,
  lt_or_ge, eq_or_ne,
}
use yet_another_reuse_distan.Bits.And.{bit_and_step, bit_and_complement}

-- `~slot + 1` wraps at the width of the word.
unfoldable pub lowbit : ℕ → ℕ
lowbit slot = bit_and slot ((2 ^ 64 - 1 - slot + 1) % 2 ^ 64)

-- The same word at any width, for a positive slot.
low : ℕ → ℕ → ℕ
low w x = bit_and x (2 ^ w - x)

low_odd : (w k : ℕ) → 2 * k + 1 < 2 ^ suc w → low (suc w) (2 * k + 1) ≡ 1
unfolding low
low_odd w k h =
    let p = pow-suc 2 w in
    let x = 2 * k + 1 in
    let a : x / 2 ≡ k = omega arith in
    let b : (2 ^ suc w - x) / 2 ≡ 2 ^ w - 1 - k = omega (arith, p) in
    let rest = bit_and_complement w k (omega (arith, p)) in
    let both : bit_and (x / 2) ((2 ^ suc w - x) / 2) ≡ 0 = rw (a, b) rest in
    omega (arith, p, bit_and_step x (2 ^ suc w - x), both)

low_even : (w k : ℕ) → 2 * k < 2 ^ suc w → low (suc w) (2 * k) ≡ 2 * low w k
unfolding low
low_even w k h =
    let p = pow-suc 2 w in
    let x = 2 * k in
    let a : x / 2 ≡ k = omega arith in
    let b : (2 ^ suc w - x) / 2 ≡ 2 ^ w - k = omega (arith, p) in
    let both : bit_and (x / 2) ((2 ^ suc w - x) / 2) ≡ bit_and k (2 ^ w - k) = rw (a, b) in
    omega (arith, p, bit_and_step x (2 ^ suc w - x), both)

unfoldable pub Parity : ℕ → Type 0
Parity x = ((k : ℕ) × (x ≡ 2 * k)) ⊎ ((k : ℕ) × (x ≡ 2 * k + 1))

pub parity : (x : ℕ) → Parity x
unfolding Parity
parity zero = inl (0, refl)
parity (suc x) = elim (parity x) [
  | inl (k, e) ↦ inr (k, omega arith)
  | inr (k, e) ↦ inl (k + 1, omega arith)
]

-- The lowest bit is positive and at most the word.
low_bounds : (w x : ℕ) → 0 < x → x < 2 ^ w → (0 < low w x) × (low w x ≤ x)
unfolding Parity
low_bounds zero x h k = absurd (omega arith)
low_bounds (suc w) x h k = elim (parity x) [
  | inl (m, e) ↦
      let ih = low_bounds w m (omega arith) (omega (arith, pow-suc 2 w)) in
      rw e (omega (arith, low_even w m (omega arith), ih))
  | inr (m, e) ↦ rw e (omega (arith, low_odd w m (omega arith)))
]

-- A step by the lowest bit stays within the width.
low_top : (w x : ℕ) → 0 < x → x < 2 ^ w → x + low w x ≤ 2 ^ w
unfolding Parity
low_top zero x h k = absurd (omega arith)
low_top (suc w) x h k = elim (parity x) [
  | inl (m, e) ↦
      let ih = low_top w m (omega arith) (omega (arith, pow-suc 2 w)) in
      rw e (omega (arith, low_even w m (omega arith), ih, pow-suc 2 w))
  | inr (m, e) ↦ rw e (omega (arith, low_odd w m (omega arith), pow-suc 2 w))
]

-- What lies strictly inside the step of `s` steps to no more than where `s` steps to.
low_next : (w s u : ℕ) → 0 < s → s < u → u < 2 ^ w → u < s + low w s → u + low w u ≤ s + low w s
unfolding Parity
low_next zero s u p h k l = absurd (omega arith)
low_next (suc w) s u p h k l = elim (parity s) [
  | inr (m, e) ↦ absurd (omega (arith, low_odd w m (omega arith), ap (low (suc w)) e))
  | inl (m, e) ↦
      let s_low = ap (low (suc w)) e ∙ low_even w m (omega arith) in
      elim (parity u) [
        | inr (n, d) ↦ omega (arith, s_low, ap (low (suc w)) d ∙ low_odd w n (omega arith))
        | inl (n, d) ↦
            let u_low = ap (low (suc w)) d ∙ low_even w n (omega arith) in
            let ih =
              low_next w m n (omega arith) (omega arith) (omega (arith, pow-suc 2 w))
                (omega (arith, s_low)) in
            omega (arith, s_low, u_low, ih)
      ]
]

-- What lies strictly inside the span that ends at `x` steps to no more than `x`.
low_prev : (w x s : ℕ) → x < 2 ^ w → x < s + low w x → s < x → s + low w s ≤ x
unfolding Parity
low_prev zero x s k h l = absurd (omega arith)
low_prev (suc w) x s k h l = elim (parity x) [
  | inr (m, e) ↦ absurd (omega (arith, low_odd w m (omega arith), ap (low (suc w)) e))
  | inl (m, e) ↦
      let x_low = ap (low (suc w)) e ∙ low_even w m (omega arith) in
      elim (parity s) [
        | inr (n, d) ↦ omega (arith, ap (low (suc w)) d ∙ low_odd w n (omega arith))
        | inl (n, d) ↦
            let s_low = ap (low (suc w)) d ∙ low_even w n (omega arith) in
            let ih =
              low_prev w m n (omega (arith, pow-suc 2 w)) (omega (arith, x_low)) (omega arith) in
            omega (arith, s_low, ih)
      ]
]

-- The start of a span has a higher lowest bit than its end.
low_parent : (w x y : ℕ) → x < 2 ^ w → x ≡ y + low w x → 0 < y → low w x < low w y
unfolding Parity
low_parent zero x y k h l = absurd (omega arith)
low_parent (suc w) x y k h l = elim (parity x) [
  | inr (m, e) ↦
      let x_low = ap (low (suc w)) e ∙ low_odd w m (omega arith) in
      let d : y ≡ 2 * m = omega (arith, x_low) in
      let y_low = ap (low (suc w)) d ∙ low_even w m (omega arith) in
      let pos = low_bounds w m (omega arith) (omega (arith, pow-suc 2 w)) in
      omega (arith, x_low, y_low, pos)
  | inl (m, e) ↦
      let x_low = ap (low (suc w)) e ∙ low_even w m (omega arith) in
      let d : y ≡ 2 * (m - low w m) = omega (arith, x_low) in
      let y_low = ap (low (suc w)) d ∙ low_even w (m - low w m) (omega arith) in
      let ih =
        low_parent w m (m - low w m) (omega (arith, pow-suc 2 w)) (omega (arith, x_low))
          (omega arith) in
      omega (arith, x_low, y_low, ih)
]

-- The properties of the 64-bit expression.
low-lowbit : (x : ℕ) → 0 < x → x < 2 ^ 64 → lowbit x ≡ low 64 x
unfolding lowbit low
low-lowbit x h k = ap (bit_and x) (omega arith)

pub lowbit_bounds : (x : ℕ) → 0 < x → x < 2 ^ 64 → (0 < lowbit x) × (lowbit x ≤ x)
lowbit_bounds x h k = omega (arith, low-lowbit x h k, low_bounds 64 x h k)

pub lowbit_top : (x : ℕ) → 0 < x → x < 2 ^ 64 → x + lowbit x ≤ 2 ^ 64
lowbit_top x h k = omega (arith, low-lowbit x h k, low_top 64 x h k)

-- The spans `(i - lowbit i, i]` that hold `s`, other than its own, hold the slot to which `s` steps.
pub lowbit-spans_up : (i s : ℕ) → 0 < s → s < i → i < 2 ^ 64 → i < s + lowbit i → s + lowbit s ≤ i
lowbit-spans_up i s p h k in_span =
    let i_low = low-lowbit i (omega arith) k in
    let s_low = low-lowbit s p (omega arith) in
    omega (arith, i_low, s_low, low_prev 64 i s k (omega (arith, i_low)) h)

-- The other way round: a span that holds the slot to which `s` steps holds `s`.
pub lowbit-spans_down :
    (i s : ℕ)
    → 0 < s
    → i < 2 ^ 64
    → s + lowbit s ≤ i
    → i < s + lowbit s + lowbit i
    → i < s + lowbit i
lowbit-spans_down i s p k reached in_span = elim (lt_or_ge i (s + lowbit i)) [
  | inl done ↦ done
  | inr outside ↦ absurd (elim (eq_or_ne s (i - lowbit i)) [
    | inl e ↦
        let parent = low_parent 64 i s k (omega (arith, i_low, i_bounds)) p in
        omega (arith, i_low, s_low, parent)
    | inr ne ↦
        let u = i - lowbit i in
        let next = low_next 64 s u p (omega (arith, ne)) (omega arith) (omega (arith, s_low)) in
        let parent = low_parent 64 i u k (omega (arith, i_low, i_bounds)) (omega arith) in
        omega (arith, i_low, s_low, next, parent, i_bounds)
  ])
]
  where
    s_bound : s < 2 ^ 64
    s_bound = omega arith

    i_low : lowbit i ≡ low 64 i
    i_low = low-lowbit i (omega arith) k

    s_low : lowbit s ≡ low 64 s
    s_low = low-lowbit s p s_bound

    i_bounds : (0 < lowbit i) × (lowbit i ≤ i)
    i_bounds = lowbit_bounds i (omega arith) k
