-- ===== src/Trace/Execution.antt =====
-- backend/src/trace/execution/prepared_trace.cpp and prepared_trace_node.hpp: the walk over a
-- prepared trace. Its nodes are prepared here, each loop with its slot among the values.
pub mod Rounds
use Prim.Native.String.{String}
use yet_another_reuse_distan.Prelude.{
  ℕ, zero, suc, Bool, true, false, ◌||◌, List, [], ◌∷◌, Option, none, some, set, Result, ok, throw,
  ◌>>=◌, invalid_argument,
}
use yet_another_reuse_distan.Trace.Loop.{ℤ, pos, loop_iteration_count}
use yet_another_reuse_distan.Trace.Signed.{add_overflow}
use yet_another_reuse_distan.Trace.Index.{PreparedIndex, evaluate_numeric}
use yet_another_reuse_distan.Trace.Budget.{ExpansionBudget, consume_loop_iterations}

pub record PreparedLoop : Type 0 where
  pub variable : String
  pub start : ℤ
  pub start_expression : Option PreparedIndex
  pub bound : ℤ
  pub bound_expression : Option PreparedIndex
  pub step : ℤ
  pub count : ℕ
  pub slot : ℕ

mutual
  pub data PreparedNode (A : Type 0) : Type 0 where
    access : A → PreparedNode A
    loop : PreparedLoop → PreparedNodes A → PreparedNode A

  pub data PreparedNodes (A : Type 0) : Type 0 where
    done : PreparedNodes A
    then : PreparedNode A → PreparedNodes A → PreparedNodes A

-- The start or the bound of a loop, whose expression is evaluated at each execution.
unfoldable pub loop_end : Option PreparedIndex → ℤ → List ℤ → Result ℤ
unfolding evaluate_numeric
loop_end none fixed values = ok fixed
loop_end (some expression) fixed values = elim (evaluate_numeric expression values) [
  | none ↦ throw invalid_argument
  | some value ↦ ok value
]

-- The count is computed again where an end has an expression.
unfoldable pub loop_count : PreparedLoop → ℤ → ℤ → Result ℕ
unfolding loop_iteration_count
loop_count l value bound = elim l.start_expression [
  | some e ↦ loop_iteration_count value bound l.step
  | none ↦ elim l.bound_expression [
    | some e ↦ loop_iteration_count value bound l.step
    | none ↦ ok l.count
  ]
]

-- The value of the next round, where there is one.
unfoldable pub next_value : ℕ → ℤ → ℤ → Result ℤ
unfolding add_overflow
next_value zero step value = ok value
next_value (suc left) step value = elim (add_overflow value step) [
  | none ↦ throw invalid_argument
  | some value' ↦ ok value'
]

module _ {S : Type 0} where
  -- So many rounds of a loop, each of which sets its slot and runs the body.
  unfoldable pub rounds :
      ℕ → (List ℤ × S → Result (List ℤ × S)) → ℤ → ℕ → ℤ → List ℤ × S → Result (List ℤ × S)
  unfolding next_value
  rounds zero body step slot value s = ok s
  rounds (suc left) body step slot value (values, s) = do
    s' ← body (set values slot value, s)
    value' ← next_value left step value
    rounds left body step slot value' s'

module _ {A W : Type 0} where
  unfoldable mutual
    unfolding loop_end loop_count rounds

    pub execute_node :
        (A → List ℤ → W → Result W)
        → PreparedNode A
        → List ℤ × (ExpansionBudget × W)
        → Result (List ℤ × (ExpansionBudget × W))
    execute_node sink (access a) (values, (budget, w)) = do
      w' ← sink a values w
      ok (values, (budget, w'))
    execute_node sink (loop l body) (values, (budget, w)) = do
      value ← loop_end l.start_expression l.start values
      bound ← loop_end l.bound_expression l.bound values
      count ← loop_count l value bound
      budget' ← consume_loop_iterations budget count
      rounds count (execute_nodes sink body) l.step l.slot value (values, (budget', w))

    pub execute_nodes :
        (A → List ℤ → W → Result W)
        → PreparedNodes A
        → List ℤ × (ExpansionBudget × W)
        → Result (List ℤ × (ExpansionBudget × W))
    execute_nodes sink done s = ok s
    execute_nodes sink (then node nodes) s = do
      s' ← execute_node sink node s
      execute_nodes sink nodes s'
