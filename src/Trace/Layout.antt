-- ===== src/Trace/Layout.antt =====
-- backend/src/trace/layout/prepared_layout.cpp: the bytes of an access, from its indices.
pub mod Structured
use yet_another_reuse_distan.Prelude.{
  ℕ, Bool, true, false, not, ◌&&◌, ◌||◌, List, [], ◌∷◌, Option, none, some, get_or, Result, ok,
  throw, throw_if, ◌>>=◌, ◌>>◌, invalid_argument,
}
use yet_another_reuse_distan.Trace.Loop.{ℤ, pos, is_negative, lt_int}
use yet_another_reuse_distan.Trace.Signed.{add_overflow, mul_overflow}

pub record ByteAccess : Type 0 where
  pub offset : ℤ
  pub size : ℤ

pub record PreparedLayoutStep : Type 0 where
  pub index : Option ℕ
  pub stride : ℤ
  pub dimension : ℤ

pub record PreparedLayout : Type 0 where
  pub structured : Bool
  pub width : ℤ
  pub extent : ℤ
  pub steps : List PreparedLayoutStep

-- A structured access rejects an overflow; otherwise there is no value.
unfoldable pub or_reject : Bool → Option ℤ → Result (Option ℤ)
or_reject structured (some a) = ok (some a)
or_reject true none = throw invalid_argument
or_reject false none = ok none

unfoldable pub step_amount : Bool → List ℤ → PreparedLayoutStep → Result (Option ℤ)
unfolding or_reject
step_amount structured indices step = elim step.index [
  | none ↦ ok (some step.stride)
  | some i ↦ do
    let index = get_or indices i (pos 0)
    throw_if (structured && is_negative index) invalid_argument
    throw_if (structured && not (lt_int index step.dimension)) invalid_argument
    or_reject structured (mul_overflow index step.stride)
]

-- A round of the loop over the steps.
unfoldable pub add_step : Bool → List ℤ → PreparedLayoutStep → ℤ → Result (Option ℤ)
unfolding step_amount or_reject
add_step structured indices step offset = do
  amount ← step_amount structured indices step
  elim amount [ none ↦ ok none | some a ↦ or_reject structured (add_overflow offset a) ]

unfoldable pub add_steps : Bool → List ℤ → List PreparedLayoutStep → ℤ → Result (Option ℤ)
unfolding add_step
add_steps structured indices [] offset = ok (some offset)
add_steps structured indices (step ∷ steps) offset = do
  next ← add_step structured indices step offset
  elim next [ none ↦ ok none | some offset' ↦ add_steps structured indices steps offset' ]

-- The end of a structured access is past the extent, or no number of 64 bits.
unfoldable pub is_outside : ℤ → Option ℤ → Bool
is_outside extent none = true
is_outside extent (some end) = lt_int extent end

unfoldable pub finish_layout : PreparedLayout → ℤ → Result (Option ByteAccess)
unfolding is_outside
finish_layout layout offset = elim layout.structured [
  | false ↦ elim (mul_overflow offset layout.width) [
    | none ↦ ok none
    | some scaled ↦ ok (some (record { offset = scaled; size = layout.width }))
  ]
  | true ↦ do
    throw_if (is_outside layout.extent (add_overflow offset layout.width)) invalid_argument
    ok (some (record { offset = offset; size = layout.width }))
]

unfoldable pub resolve : PreparedLayout → List ℤ → Result (Option ByteAccess)
unfolding add_steps finish_layout
resolve layout indices = do
  offset ← add_steps layout.structured indices layout.steps (pos 0)
  elim offset [ none ↦ ok none | some o ↦ finish_layout layout o ]
