-- ===== src/Trace/Budget.antt =====
-- backend/src/trace/execution/emission_budget.cpp and expansion_budget.hpp: inclusive limits on the
-- work of one module.
use yet_another_reuse_distan.Prelude.{
  ℕ, ◌+◌, ◌-◌, ◌%◌, ◌^◌, ◌≤◌, ◌<◌, ◌≡◌, ◌↔◌, ◌∙◌, sym, ap, ◌||◌, List, [], ◌∷◌, arith, ltb, leb,
  if◌then◌else◌, Result, ok, throw_if, ◌>>=◌, ◌>>◌, invalid_argument, >>=-eq-ok,
}

pub record TraceEmissionLimits : Type 0 where
  pub emitted_source_accesses : ℕ
  pub emitted_line_references : ℕ

pub record TraceEmissionBudget : Type 0 where
  pub limits : TraceEmissionLimits
  pub source_accesses : ℕ
  pub line_references : ℕ

unfoldable pub emission_budget : TraceEmissionLimits → TraceEmissionBudget
emission_budget limits = record { limits = limits; source_accesses = 0; line_references = 0 }

unfoldable pub consume_source_access : TraceEmissionBudget → Result TraceEmissionBudget
consume_source_access b = do
  throw_if (leb b.limits.emitted_source_accesses b.source_accesses) invalid_argument
  ok (record b { source_accesses = (b.source_accesses + 1) % 2 ^ 64 })

unfoldable pub consume_line_reference : TraceEmissionBudget → Result TraceEmissionBudget
consume_line_reference b = do
  throw_if (leb b.limits.emitted_line_references b.line_references) invalid_argument
  ok (record b { line_references = (b.line_references + 1) % 2 ^ 64 })

pub record ExpansionLimits : Type 0 where
  pub expanded_nodes : ℕ
  pub inline_call_depth : ℕ

pub record LoopWorkLimits : Type 0 where
  pub single_loop_iterations : ℕ
  pub cumulative_loop_iterations : ℕ

pub record TraceExecutionStatistics : Type 0 where
  pub maximum_inline_depth : ℕ
  pub loop_iterations_expanded : ℕ

pub record ExpansionBudget : Type 0 where
  pub limits : ExpansionLimits
  pub loop_limits : LoopWorkLimits
  pub expanded_nodes : ℕ
  pub loop_iterations : ℕ
  pub maximum_inline_depth : ℕ

unfoldable pub expansion_budget : ExpansionLimits → LoopWorkLimits → ExpansionBudget
expansion_budget limits loop_limits = record {
  limits = limits;
  loop_limits = loop_limits;
  expanded_nodes = 0;
  loop_iterations = 0;
  maximum_inline_depth = 0;
}

unfoldable pub consume : ℕ → ℕ → ℕ → Result ℕ
consume used amount limit = do
  throw_if (ltb limit used || ltb (limit - used) amount) invalid_argument
  ok ((used + amount) % 2 ^ 64)

unfoldable pub consume_expanded_node : ExpansionBudget → Result ExpansionBudget
unfolding consume
consume_expanded_node b = do
  used ← consume b.expanded_nodes 1 b.limits.expanded_nodes
  ok (record b { expanded_nodes = used })

unfoldable pub consume_loop_iterations : ExpansionBudget → ℕ → Result ExpansionBudget
unfolding consume
consume_loop_iterations b count = do
  throw_if (ltb b.loop_limits.single_loop_iterations count) invalid_argument
  used ← consume b.loop_iterations count b.loop_limits.cumulative_loop_iterations
  ok (record b { loop_iterations = used })

unfoldable pub validate_inline_call_depth : ExpansionBudget → ℕ → Result ExpansionBudget
validate_inline_call_depth b depth = do
  throw_if (ltb b.limits.inline_call_depth depth) invalid_argument
  ok (if ltb b.maximum_inline_depth depth then record b { maximum_inline_depth = depth } else b)

unfoldable pub execution_statistics : ExpansionBudget → TraceExecutionStatistics
execution_statistics b = record {
  maximum_inline_depth = b.maximum_inline_depth;
  loop_iterations_expanded = b.loop_iterations;
}

-- Loops that are entered one after the other, each with its count of iterations.
pub enter_loops : ExpansionBudget → List ℕ → Result ExpansionBudget
enter_loops b [] = ok b
enter_loops b (count ∷ counts) = do b' ← consume_loop_iterations b count; enter_loops b' counts

pub sum : List ℕ → ℕ
sum [] = 0
sum (n ∷ l) = n + sum l

-- Every count is within a bound.
pub AllWithin : ℕ → List ℕ → Type 0
AllWithin limit [] = Unit {0}
AllWithin limit (n ∷ l) = (n ≤ limit) × AllWithin limit l

entered :
    (b c : ExpansionBudget) (counts : List ℕ)
    → b.loop_limits.cumulative_loop_iterations < 2 ^ 64
    → b.loop_iterations ≤ b.loop_limits.cumulative_loop_iterations
    → enter_loops b counts ≡ ok c
    → (c ≡ record b { loop_iterations = b.loop_iterations + sum counts })
      × AllWithin b.loop_limits.single_loop_iterations counts
      × (b.loop_iterations + sum counts ≤ b.loop_limits.cumulative_loop_iterations)
unfolding enter_loops sum consume_loop_iterations consume AllWithin
entered b c [] words within h = (ground (arith, h), tt, omega (arith, within))
entered b c (n ∷ counts) words within h =
    let (b', one, rest) = >>=-eq-ok (consume_loop_iterations b n) (λ w. enter_loops w counts) h in
    let e : b' ≡ record b { loop_iterations = b.loop_iterations + n } =
      ground (arith, one, words, within) in
    let single : n ≤ b.loop_limits.single_loop_iterations = ground (arith, one) in
    let fits : b.loop_iterations + n ≤ b.loop_limits.cumulative_loop_iterations =
      ground (arith, one, words, within) in
    let (f, all, total) =
      entered (record b { loop_iterations = b.loop_iterations + n }) c counts words fits
        (rw (← e) rest) in
    (
      f ∙ ap (λ k. record b { loop_iterations = k }) (omega arith),
      (single, all),
      omega (arith, total),
    )

left_over :
    (b : ExpansionBudget) (counts : List ℕ)
    → b.loop_limits.cumulative_loop_iterations < 2 ^ 64
    → AllWithin b.loop_limits.single_loop_iterations counts
    → b.loop_iterations + sum counts ≤ b.loop_limits.cumulative_loop_iterations
    → enter_loops b counts ≡ ok (record b { loop_iterations = b.loop_iterations + sum counts })
unfolding enter_loops sum consume_loop_iterations consume AllWithin
left_over b [] words all fits = ap (λ k. ok (record b { loop_iterations = k })) (omega arith)
left_over b (n ∷ counts) words (single, all) fits =
    let b' = record b { loop_iterations = b.loop_iterations + n } in
    let one : consume_loop_iterations b n ≡ ok b' = ground (arith, single, fits, words) in
    rw one (
      left_over b' counts words all (omega (arith, fits))
      ∙ ap (λ k. ok (record b { loop_iterations = k })) (omega arith))

-- Under a cumulative limit of 64 bits that is not yet passed, a module enters a sequence of loops
-- exactly where each count is within the limit of one loop and their sum is within what is left of
-- the cumulative limit; it is then charged that sum.
pub enter_loops_iff :
    (b c : ExpansionBudget) (counts : List ℕ)
    → b.loop_limits.cumulative_loop_iterations < 2 ^ 64
    → b.loop_iterations ≤ b.loop_limits.cumulative_loop_iterations
    → (enter_loops b counts ≡ ok c) ↔ (
        (c ≡ record b { loop_iterations = b.loop_iterations + sum counts })
        × AllWithin b.loop_limits.single_loop_iterations counts
        × (b.loop_iterations + sum counts ≤ b.loop_limits.cumulative_loop_iterations))
enter_loops_iff b c counts words within = (
  entered b c counts words within,
  λ (e, all, fits). left_over b counts words all fits ∙ ap ok (sym e),
)
