-- ===== src/Tests/Traces.antt =====
-- Layouts, indices and rounds of a trace, and the lines of a set.
use yet_another_reuse_distan.Prelude.{
  ℕ, ◌+◌, ◌*◌, ◌<◌, ◌≡◌, ◌↔◌, refl, true, List, [], ◌∷◌, Option, some, none, arith, ok, Result,
  ◌>>=◌, get_or, zero, suc,
}
use yet_another_reuse_distan.Trace.Loop.{
  ℤ, is_negative, pos, negsuc, InRange, place, loop_iteration_count,
}
use yet_another_reuse_distan.Trace.Signed.{
  in_range, add_overflow, mul_overflow, checked, ◌+ℤ◌, ◌*ℤ◌,
}
use yet_another_reuse_distan.Trace.Affine
use yet_another_reuse_distan.Trace.Affine.{
  AffineExpression, parse_affine_expression, format_affine_expression,
}
use yet_another_reuse_distan.Trace.Affine.Parsing.{Canonical, parse_affine_expression-Canonical}
use yet_another_reuse_distan.Output.Identity.{Bytes}
use yet_another_reuse_distan.Trace.Layout.{PreparedLayout, PreparedLayoutStep, resolve}
use yet_another_reuse_distan.Trace.Layout.Structured.{
  field, element, none_left, one_more, resolve_structured,
}
use yet_another_reuse_distan.Trace.Index.{
  LoopScope, find_slot, PreparedIndex, evaluate_affine, evaluate_numeric, sum_terms,
}
use yet_another_reuse_distan.Trace.Index.Preparation
use yet_another_reuse_distan.Trace.Index.Preparation.Agreement.{Gives, prepare_index-Gives}
use yet_another_reuse_distan.Trace.Index.Exact.{Wide, affine_value, evaluate_affine_iff}
use yet_another_reuse_distan.Trace.Execution.{rounds}
use yet_another_reuse_distan.Trace.Execution.Rounds.{run_values, progression, rounds_up}
use yet_another_reuse_distan.Batch.Csrd.{
  IndexedLine, BatchCsrdResult, analyze_set, empty_set, unseen,
}
use yet_another_reuse_distan.Batch.Replay.{replay, analyze_set-replay}

-- The second field of the third element of an array of five.
abbrev row_step : PreparedLayoutStep
row_step = record { index = some 0; stride = pos 16; dimension = pos 5 }

abbrev field_step : PreparedLayoutStep
field_step = record { index = none; stride = pos 8; dimension = pos 0 }

abbrev array_of_pairs : PreparedLayout
array_of_pairs = record {
  structured = true;
  width = pos 8;
  extent = pos 80;
  steps = row_step ∷ field_step ∷ [];
}

resolve_structured_example :
    resolve array_of_pairs (pos 2 ∷ []) ≡ ok (some (record { offset = pos 40; size = pos 8 }))
resolve_structured_example =
    resolve_structured array_of_pairs (pos 2 ∷ []) 40 8 80 refl refl refl (omega arith)
      (one_more 32 8 (element 0 2 16 5 refl refl refl refl (omega arith))
        (one_more 8 0 (field 8 refl refl) none_left))
      (omega arith)

-- 3 i - j + 1
abbrev index_terms : List (ℕ × ℤ)
index_terms = (0, pos 3) ∷ (1, negsuc 0) ∷ []

evaluate_affine_iff_example :
    (evaluate_affine index_terms (pos 1) (pos 7 ∷ pos 4 ∷ []) ≡ some (pos 18)) ↔ (
      Wide (pos 7 ∷ pos 4 ∷ []) index_terms (pos 1)
      × (in_range (affine_value (pos 7 ∷ pos 4 ∷ []) index_terms (pos 1)) ≡ true)
      × (pos 18 ≡ affine_value (pos 7 ∷ pos 4 ∷ []) index_terms (pos 1)))
evaluate_affine_iff_example = evaluate_affine_iff (pos 7 ∷ pos 4 ∷ []) index_terms (pos 1) (pos 18)

-- A body that keeps the value in its slot.
abbrev counted : List ℤ × ℕ → Result (List ℤ × ℕ)
counted (values, n) = ok (values, n + 1)

rounds_up_example :
    (n : ℕ) × (loop_iteration_count (negsuc 3) (pos 9) (pos 3) ≡ ok n)
    × ((i : ℕ) → (i < n) ↔ (place (negsuc 3) + i * 3 < place (pos 9)))
    × (rounds n counted (pos 3) 0 (negsuc 3) (pos 0 ∷ [], 0)
        ≡ run_values counted 0 (progression n (negsuc 3) 3) (pos 0 ∷ [], 0))
rounds_up_example =
    rounds_up (negsuc 3) (pos 9) 2 0 counted (pos 0 ∷ [], 0) (unfold InRange in omega arith)
      (unfold InRange in omega arith)

abbrev lines : List IndexedLine
lines =
    record { input_index = 0; tag = 5 }
    ∷ record { input_index = 1; tag = 6 }
    ∷ record { input_index = 2; tag = 5 }
    ∷ []

abbrev before : BatchCsrdResult
before = record {
  accesses = unseen ∷ unseen ∷ unseen ∷ [];
  histogram = [];
  sets = [];
  hits = 0;
  cold_misses = 0;
  replacement_misses = 0;
}

analyze_set-replay_example :
    analyze_set lines 2 before empty_set ≡ replay 2 [] lines before empty_set
analyze_set-replay_example = analyze_set-replay lines 2 before empty_set (omega arith)

-- 2*i-j+i+4
abbrev text : Bytes
text = b'2' ∷ b'*' ∷ b'i' ∷ b'-' ∷ b'j' ∷ b'+' ∷ b'i' ∷ b'+' ∷ b'4' ∷ []

abbrev parsed : AffineExpression
parsed = record { constant = pos 4; terms = (b'i' ∷ [], pos 3) ∷ (b'j' ∷ [], negsuc 0) ∷ [] }

parses_text : parse_affine_expression text ≡ ok (some parsed)
unfolding parse_affine_expression Affine.parse_terms Affine.take_term Affine.take_unsigned
    Affine.take_digits Affine.take_factor Affine.take_variable Affine.take_identifier
    Affine.add_affine_expression Affine.add_terms Affine.add_term Affine.add_scaled Affine.keep_term
    Affine.same_name Affine.less add_overflow mul_overflow checked ◌+ℤ◌ ◌*ℤ◌
parses_text = refl

-- 3*i-j+4
formats_text : format_affine_expression parsed ≡ b'3' ∷ b'*' ∷ b'i' ∷ b'-' ∷ b'j' ∷ b'+' ∷ b'4' ∷ []
unfolding format_affine_expression Affine.format_terms Affine.signed_term Affine.to_string
    is_negative
formats_text = refl

parse_affine_expression-Canonical_example :
    (o : Option AffineExpression) × (parse_affine_expression text ≡ ok o) × Canonical o
parse_affine_expression-Canonical_example = parse_affine_expression-Canonical text

abbrev loops : List LoopScope
loops = record { variable = b'j' ∷ []; slot = 1 } ∷ record { variable = b'i' ∷ []; slot = 0 } ∷ []

abbrev loop_values : List ℤ
loop_values = pos 7 ∷ pos 4 ∷ []

loop_values_small : (slot : ℕ) → in_range (get_or loop_values slot (pos 0)) ≡ true
loop_values_small zero = refl
loop_values_small (suc zero) = refl
loop_values_small (suc (suc slot)) = refl

prepare_index-Gives_example :
    (index : PreparedIndex) × (Preparation.prepare_index text loops ≡ ok index)
    × Gives loops loop_values text (evaluate_numeric index loop_values)
prepare_index-Gives_example = prepare_index-Gives loops loop_values text loop_values_small

-- 3*7-4+4
value_of_text :
    (Preparation.prepare_index text loops >>= λ index. ok (evaluate_numeric index loop_values))
    ≡ ok (some (pos 21))
unfolding Preparation.prepare_index Preparation.prepare_affine Preparation.bind_terms
    Preparation.find_offset Preparation.split_offset Preparation.split_sign
    Preparation.parse_exact_integer Preparation.parse_magnitude find_slot evaluate_numeric
    evaluate_affine sum_terms parse_affine_expression Affine.parse_terms Affine.take_term
    Affine.take_unsigned Affine.take_digits Affine.take_factor Affine.take_variable
    Affine.take_identifier Affine.add_affine_expression Affine.add_terms Affine.add_term
    Affine.add_scaled Affine.keep_term Affine.same_name Affine.less add_overflow mul_overflow
    checked ◌+ℤ◌ ◌*ℤ◌
value_of_text = refl
