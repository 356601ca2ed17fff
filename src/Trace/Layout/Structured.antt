-- ===== src/Trace/Layout/Structured.antt =====
-- A structured access: exact bytes within the extent of its object.
use yet_another_reuse_distan.Prelude.{
  ℕ, ◌+◌, ◌*◌, ◌^◌, ◌≤◌, ◌<◌, ◌≡◌, ap, ◌∙◌, true, List, [], ◌∷◌, none, some, arith, get_or, ok,
}
use yet_another_reuse_distan.Trace.Loop.{ℤ, pos, is_negative, lt_int}
use yet_another_reuse_distan.Trace.Signed.{add_overflow-pos, mul_overflow-pos}
use yet_another_reuse_distan.Trace.Layout.{
  PreparedLayoutStep, PreparedLayout, or_reject, step_amount, add_step, add_steps, is_outside,
  finish_layout, resolve,
}

-- A step of natural numbers: its index, where it has one, is within its dimension, and it is of so
-- many bytes.
pub data Takes (indices : List ℤ) (step : PreparedLayoutStep) : ℕ → Type 0 where
  field : (stride : ℕ) → step.index ≡ none → step.stride ≡ pos stride → Takes indices step stride
  element :
      (i index stride dimension : ℕ)
      → step.index ≡ some i
      → get_or indices i (pos 0) ≡ pos index
      → step.stride ≡ pos stride
      → step.dimension ≡ pos dimension
      → index < dimension
      → Takes indices step (index * stride)

-- The steps take so many bytes together.
pub data Spans (indices : List ℤ) : List PreparedLayoutStep → ℕ → Type 0 where
  none_left : Spans indices [] 0
  one_more :
      {step : PreparedLayoutStep} {steps : List PreparedLayoutStep} (m n : ℕ)
      → Takes indices step m
      → Spans indices steps n
      → Spans indices (step ∷ steps) (m + n)

step_taken :
    (indices : List ℤ) (step : PreparedLayoutStep) (offset n : ℕ)
    → Takes indices step n
    → offset + n < 2 ^ 63
    → add_step true indices step (pos offset) ≡ ok (some (pos (offset + n)))
unfolding add_step step_amount or_reject is_negative lt_int
step_taken indices step offset n (field stride e s) small =
    rw (e, s, add_overflow-pos offset stride) (ground (arith, small))
step_taken indices step offset n (element i index stride dimension e at s d lt) small =
    rw (e, at, s, d, mul_overflow-pos index stride)
      (ground (arith, small, lt, add_overflow-pos offset (index * stride)))

steps_taken :
    (indices : List ℤ) (steps : List PreparedLayoutStep) (offset n : ℕ)
    → Spans indices steps n
    → offset + n < 2 ^ 63
    → add_steps true indices steps (pos offset) ≡ ok (some (pos (offset + n)))
unfolding add_steps
steps_taken indices [] offset n none_left small = ap (λ k. ok (some (pos k))) (omega arith)
steps_taken indices (step ∷ steps) offset k (one_more m n t s) small =
    rw (step_taken indices step offset m t (omega (arith, small))) (
      steps_taken indices steps (offset + m) n s (omega (arith, small))
      ∙ ap (λ j. ok (some (pos j))) (omega arith))

-- A structured access whose steps have indices within their dimensions and take `n` bytes together,
-- with its bytes inside an extent of 64 bits, is resolved to exactly the offset `n`.
pub resolve_structured :
    (layout : PreparedLayout) (indices : List ℤ) (n width extent : ℕ)
    → layout.structured ≡ true
    → layout.width ≡ pos width
    → layout.extent ≡ pos extent
    → extent < 2 ^ 63
    → Spans indices layout.steps n
    → n + width ≤ extent
    → resolve layout indices ≡ ok (some (record { offset = pos n; size = pos width }))
unfolding resolve finish_layout is_outside lt_int
resolve_structured layout indices n width extent s w e small v within =
    let taken = steps_taken indices layout.steps 0 n v (omega (arith, within, small)) in
    let sum = add_overflow-pos n width in
    rw (s, taken) (ground (arith, s, w, e, sum, within, small))
