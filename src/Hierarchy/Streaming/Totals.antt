-- ===== src/Hierarchy/Streaming/Totals.antt =====
-- The coverages of the tasks of a module, one after the other.
use yet_another_reuse_distan.Prelude.{
  ℕ, ◌+◌, ◌≡◌, List, [], ◌∷◌, ◌++◌, arith, ok, >>=-eq-ok, ok-injective,
}
use mathlib.Core.Path.{subst}
use yet_another_reuse_distan.Hierarchy.Types.{TraceCoverage, TaskHierarchySummary}
use yet_another_reuse_distan.Hierarchy.Service.{checked_service_sum, Serves}
use yet_another_reuse_distan.Hierarchy.Level.{add_streaming_coverage}

unfoldable pub EachServes : List TaskHierarchySummary → Type 0
EachServes [] = Unit {0}
EachServes (task ∷ tasks) = Serves task × EachServes tasks

-- A count over all the tasks.
unfoldable pub sum_of : (TaskHierarchySummary → ℕ) → List TaskHierarchySummary → ℕ
sum_of count [] = 0
sum_of count (task ∷ tasks) = count task + sum_of count tasks

-- A coverage is the sum of the coverages of the tasks.
pub record IsSum (c : TraceCoverage) (tasks : List TaskHierarchySummary) : Type 0 where
  pub sources : c.source_accesses ≡ sum_of (λ t. t.coverage.source_accesses) tasks
  pub resolved : c.resolved_accesses ≡ sum_of (λ t. t.coverage.resolved_accesses) tasks
  pub rejected : c.rejected_accesses ≡ sum_of (λ t. t.coverage.rejected_accesses) tasks
  pub emitted : c.emitted_line_references ≡ sum_of (λ t. t.coverage.emitted_line_references) tasks

pub EachServes-snoc :
    (tasks : List TaskHierarchySummary) (task : TaskHierarchySummary)
    → EachServes tasks
    → Serves task
    → EachServes (tasks ++ task ∷ [])
unfolding EachServes
EachServes-snoc [] task e v = (v, tt)
EachServes-snoc (t ∷ tasks) task (a, e) v = (a, EachServes-snoc tasks task e v)

sum_of-snoc :
    (count : TaskHierarchySummary → ℕ) (tasks : List TaskHierarchySummary)
    (task : TaskHierarchySummary)
    → sum_of count (tasks ++ task ∷ []) ≡ sum_of count tasks + count task
unfolding sum_of
sum_of-snoc count [] task = omega arith
sum_of-snoc count (t ∷ tasks) task = omega (arith, sum_of-snoc count tasks task)

checked_sum_exact : (a b c : ℕ) → checked_service_sum a b ≡ ok c → c ≡ a + b
unfolding checked_service_sum
checked_sum_exact a b c h = ground (arith, h)

pub add_coverage-IsSum :
    (c d : TraceCoverage) (tasks : List TaskHierarchySummary) (task : TaskHierarchySummary)
    → IsSum c tasks
    → add_streaming_coverage c task.coverage ≡ ok d
    → IsSum d (tasks ++ task ∷ [])
unfolding add_streaming_coverage
add_coverage-IsSum c d tasks task v h =
    let k = task.coverage in
    let (a₁, s₁, h₁) = >>=-eq-ok (checked_service_sum c.source_accesses k.source_accesses) _ h in
    let (a₂, s₂, h₂) =
      >>=-eq-ok (checked_service_sum c.resolved_accesses k.resolved_accesses) _ h₁ in
    let (a₃, s₃, h₃) =
      >>=-eq-ok (checked_service_sum c.rejected_accesses k.rejected_accesses) _ h₂ in
    let (a₄, s₄, h₄) =
      >>=-eq-ok (checked_service_sum c.emitted_line_references k.emitted_line_references) _ h₃ in
    subst (λ z. IsSum z (tasks ++ task ∷ [])) (ok-injective h₄)
      (record {
        sources = omega (
          arith,
          checked_sum_exact _ _ a₁ s₁,
          v.sources,
          sum_of-snoc (λ t. t.coverage.source_accesses) tasks task,
        );
        resolved = omega (
          arith,
          checked_sum_exact _ _ a₂ s₂,
          v.resolved,
          sum_of-snoc (λ t. t.coverage.resolved_accesses) tasks task,
        );
        rejected = omega (
          arith,
          checked_sum_exact _ _ a₃ s₃,
          v.rejected,
          sum_of-snoc (λ t. t.coverage.rejected_accesses) tasks task,
        );
        emitted = omega (
          arith,
          checked_sum_exact _ _ a₄ s₄,
          v.emitted,
          sum_of-snoc (λ t. t.coverage.emitted_line_references) tasks task,
        );
      })
