-- ===== src/Batch/Module/Sound.antt =====
-- What the result of the batch analysis of a module has, task by task and in its totals.
use mathlib.Core.Path.{subst}
use yet_another_reuse_distan.Prelude.{
  ℕ, ◌+◌, ◌%◌, ◌^◌, ◌≡◌, refl, sym, ap, ◌∙◌, not, ◌||◌, true, List, [], ◌∷◌, arith, ◌==◌, length,
  ok, throw_if, >>=-eq-ok, throw_if-eq-ok, ok-injective, invalid_argument,
}
use yet_another_reuse_distan.Mapping.Address.{CacheGeometry, cache_set_count}
use yet_another_reuse_distan.Hierarchy.Types.{AnalysisHierarchy, complete}
use yet_another_reuse_distan.Batch.Level.{BatchTaskHierarchyResult, analyze_hierarchy_level}
use yet_another_reuse_distan.Batch.Traces.{
  ResolvedTaskTrace, ResolvedTaskTraceResult, MappedTaskTrace, TaskTally, tally_task, tally_tasks,
  empty_tally, aggregate_of, equal_coverage, validate_resolved_task_result, map_resolved_accesses,
  map_task, map_tasks, map_resolved_task_traces, set_emitted,
}
use yet_another_reuse_distan.Batch.Traces.Collected.{access_total}
use yet_another_reuse_distan.Batch.Module.{
  BatchHierarchyResult, validate_hierarchy_input, forward_misses, analyze_task, analyze_tasks,
  analyze_batch_hierarchy,
}
use yet_another_reuse_distan.Batch.Module.Served.{Served, aggregate_hierarchy_task-Served}

-- The result of a task accounts for its source accesses and its line references.
pub record Accounts (task : ResolvedTaskTrace) (r : BatchTaskHierarchyResult) : Type 0 where
  pub served : Served r
  pub named : r.summary.task_id ≡ task.task_id
  pub sources : r.summary.source_accesses ≡ length task.accesses

unfoldable pub EachAccounts : List ResolvedTaskTrace → List BatchTaskHierarchyResult → Type 0
EachAccounts [] [] = Unit {0}
EachAccounts (task ∷ tasks) (r ∷ rs) = Accounts task r × EachAccounts tasks rs
EachAccounts _ _ = ⊥

unfoldable pub event_total : List BatchTaskHierarchyResult → ℕ
event_total [] = 0
event_total (r ∷ rs) = length r.events + event_total rs

-- Every access of every task was resolved.
AllResolved : List ResolvedTaskTrace → Type 0
AllResolved [] = Unit {0}
AllResolved (task ∷ tasks) =
    (task.coverage.source_accesses ≡ length task.accesses) × AllResolved tasks

tally_task-sources :
    (task : ResolvedTaskTrace) (t t' : TaskTally)
    → tally_task task t ≡ ok t'
    → (task.coverage.source_accesses ≡ length task.accesses)
      × (t'.source_accesses ≡ (t.source_accesses + length task.accesses) % 2 ^ 64)
unfolding tally_task complete
tally_task-sources task t t' h = (ground (arith, h), ground (arith, h))

tally_tasks-sources :
    (tasks : List ResolvedTaskTrace) (t t' : TaskTally) (k : ℕ)
    → t.source_accesses ≡ k % 2 ^ 64
    → tally_tasks tasks t ≡ ok t'
    → AllResolved tasks × (t'.source_accesses ≡ (k + access_total tasks) % 2 ^ 64)
unfolding tally_tasks AllResolved access_total
tally_tasks-sources [] t t' k e h =
    (tt, ap (λ z. z.source_accesses) (sym (ok-injective h)) ∙ omega (arith, e))
tally_tasks-sources (task ∷ tasks) t t' k e h =
    let (s, tallied, h₁) = >>=-eq-ok (tally_task task t) _ h in
    let (a, b) = tally_task-sources task t s tallied in
    let (c, d) =
      tally_tasks-sources tasks s t' (k + length task.accesses) (omega (arith, b, e)) h₁ in
    ((a, c), omega (arith, d))

record IsMapped (task : ResolvedTaskTrace) (m : MappedTaskTrace) : Type 0 where
  named : m.task_id ≡ task.task_id
  coverage : m.coverage ≡ set_emitted (length m.accesses) task.coverage

EachMapped : List ResolvedTaskTrace → List MappedTaskTrace → Type 0
EachMapped [] [] = Unit {0}
EachMapped (task ∷ tasks) (m ∷ ms) = IsMapped task m × EachMapped tasks ms
EachMapped _ _ = ⊥

line_total : List MappedTaskTrace → ℕ
line_total [] = 0
line_total (m ∷ ms) = length m.accesses + line_total ms

map_task-IsMapped :
    (task : ResolvedTaskTrace) (g : CacheGeometry) (m : MappedTaskTrace)
    → map_task task g ≡ ok m
    → IsMapped task m
unfolding map_task
map_task-IsMapped task g m h =
    let (lines, mapped, h₁) = >>=-eq-ok (map_resolved_accesses task.accesses g) _ h in
    subst (IsMapped task) (ok-injective h₁) (record { named = refl; coverage = refl })

map_tasks-EachMapped :
    (tasks : List ResolvedTaskTrace) (g : CacheGeometry) (emitted k : ℕ) (emitted' : ℕ)
    (ms : List MappedTaskTrace)
    → emitted ≡ k % 2 ^ 64
    → map_tasks tasks g emitted ≡ ok (emitted', ms)
    → EachMapped tasks ms × (emitted' ≡ (k + line_total ms) % 2 ^ 64)
unfolding map_tasks EachMapped line_total
map_tasks-EachMapped [] g emitted k emitted' ms e h =
    subst
      (λ (z : ℕ × List MappedTaskTrace). EachMapped [] z.1 × (z.0 ≡ (k + line_total z.1) % 2 ^ 64))
      (ok-injective h) (tt, omega (arith, e))
map_tasks-EachMapped (task ∷ tasks) g emitted k emitted' ms e h =
    let (m, mapped, h₁) = >>=-eq-ok (map_task task g) _ h in
    let ((last, rest), more, h₂) =
      >>=-eq-ok (map_tasks tasks g ((emitted + length m.accesses) % 2 ^ 64)) _ h₁ in
    let (each, sum) =
      map_tasks-EachMapped tasks g _ (k + length m.accesses) last rest (omega (arith, e)) more in
    subst
      (λ (z : ℕ × List MappedTaskTrace).
        EachMapped (task ∷ tasks) z.1 × (z.0 ≡ (k + line_total z.1) % 2 ^ 64))
      (ok-injective h₂) ((map_task-IsMapped task g m mapped, each), omega (arith, sum))

analyze_task-Accounts :
    (h : AnalysisHierarchy) (task : ResolvedTaskTrace) (m : MappedTaskTrace)
    (r : BatchTaskHierarchyResult)
    → IsMapped task m
    → task.coverage.source_accesses ≡ length task.accesses
    → analyze_task h m ≡ ok r
    → Accounts task r × (length r.events ≡ length m.accesses)
unfolding analyze_task
analyze_task-Accounts h task m r mapped resolved ran =
    let (l1, first, h₁) = >>=-eq-ok (analyze_hierarchy_level m.accesses h.l1.geometry) _ ran in
    let (misses, forwarded, h₂) =
      >>=-eq-ok (forward_misses l1.accesses l1.mappings h.llc.geometry) _ h₁ in
    let (llc, last, h₃) = >>=-eq-ok (analyze_hierarchy_level misses h.llc.geometry) _ h₂ in
    let (served, covered, named) =
      aggregate_hierarchy_task-Served m.task_id m.coverage l1 llc r h₃ in
    let coverage = covered ∙ mapped.coverage in
    (
      record {
        served = served;
        named = named ∙ mapped.named;
        sources = served.summary.sources ∙ ap (λ c. c.source_accesses) coverage ∙ resolved;
      },
      served.modeled ∙ served.summary.emitted ∙ ap (λ c. c.emitted_line_references) coverage,
    )

analyze_tasks-EachAccounts :
    (h : AnalysisHierarchy) (tasks : List ResolvedTaskTrace) (ms : List MappedTaskTrace)
    (rs : List BatchTaskHierarchyResult)
    → EachMapped tasks ms
    → AllResolved tasks
    → analyze_tasks h ms ≡ ok rs
    → EachAccounts tasks rs × (event_total rs ≡ line_total ms)
unfolding analyze_tasks EachMapped AllResolved EachAccounts event_total line_total
analyze_tasks-EachAccounts h [] [] rs each all ran =
    subst (λ z. EachAccounts [] z × (event_total z ≡ 0)) (ok-injective ran) (tt, refl)
analyze_tasks-EachAccounts h (task ∷ tasks) (m ∷ ms) rs (mapped, each) (resolved, all) ran =
    let (r, analyzed, h₁) = >>=-eq-ok (analyze_task h m) _ ran in
    let (rest, more, h₂) = >>=-eq-ok (analyze_tasks h ms) _ h₁ in
    let (a, lines) = analyze_task-Accounts h task m r mapped resolved analyzed in
    let (b, sum) = analyze_tasks-EachAccounts h tasks ms rest each all more in
    subst (λ z. EachAccounts (task ∷ tasks) z × (event_total z ≡ line_total (m ∷ ms)))
      (ok-injective h₂) ((a, b), omega (arith, lines, sum))
analyze_tasks-EachAccounts h [] (m ∷ ms) rs each all ran = absurd each
analyze_tasks-EachAccounts h (task ∷ tasks) [] rs each all ran = absurd each

-- The coverage of an accepted module adds up its tasks.
validate_resolved-sources :
    (resolved : ResolvedTaskTraceResult)
    → validate_resolved_task_result resolved ≡ ok tt
    → AllResolved resolved.tasks
      × (resolved.coverage.source_accesses ≡ access_total resolved.tasks % 2 ^ 64)
      × (complete resolved.coverage ≡ true)
unfolding validate_resolved_task_result equal_coverage
validate_resolved-sources resolved h =
    let (_, some_task, h₁) =
      >>=-eq-ok (throw_if (length resolved.tasks == 0) invalid_argument) _ h in
    let (t, tallied, h₂) = >>=-eq-ok (tally_tasks resolved.tasks empty_tally) _ h₁ in
    let (_, covered, h₃) =
      >>=-eq-ok
        (throw_if
          (not (complete resolved.coverage)
            || not (resolved.coverage.emitted_line_references == 0)
            || not (equal_coverage (aggregate_of t) resolved.coverage))
          invalid_argument)
        _ h₂ in
    let plain = throw_if-eq-ok _ _ covered in
    let (all, sum) = tally_tasks-sources resolved.tasks empty_tally t 0 refl tallied in
    (all, ground (arith, plain, sum), ground (arith, plain))

-- Where the batch analysis of a module returns, it has a result for each task in order, with the
-- name of the task and as many source accesses as the task has accesses; the counters of a result
-- are conserved and are the numbers of its events that each level serves first. The coverage of the
-- module is complete, and counts the accesses and the events of all the tasks modulo 2 ^ 64.
pub analyze_batch_hierarchy-EachAccounts :
    (resolved : ResolvedTaskTraceResult) (h : AnalysisHierarchy) (result : BatchHierarchyResult)
    → analyze_batch_hierarchy resolved h ≡ ok result
    → EachAccounts resolved.tasks result.tasks
      × (result.coverage.source_accesses ≡ access_total resolved.tasks % 2 ^ 64)
      × (result.coverage.emitted_line_references ≡ event_total result.tasks % 2 ^ 64)
      × (complete result.coverage ≡ true)
unfolding analyze_batch_hierarchy map_resolved_task_traces complete
analyze_batch_hierarchy-EachAccounts resolved h result ran =
    let (_, valid, h₁) = >>=-eq-ok (validate_hierarchy_input resolved h) _ ran in
    let (mapped, mapping, h₂) = >>=-eq-ok (map_resolved_task_traces resolved h.l1.geometry) _ h₁ in
    let (rs, analyzed, h₃) = >>=-eq-ok (analyze_tasks h mapped.tasks) _ h₂ in
    let (_, sets, k₁) = >>=-eq-ok (cache_set_count h.l1.geometry) _ mapping in
    let (_, accepted, k₂) = >>=-eq-ok (validate_resolved_task_result resolved) _ k₁ in
    let ((emitted, ms), lines, k₃) = >>=-eq-ok (map_tasks resolved.tasks h.l1.geometry 0) _ k₂ in
    let (all, sources, whole) = validate_resolved-sources resolved accepted in
    let (each, sum) = map_tasks-EachMapped resolved.tasks h.l1.geometry 0 0 emitted ms refl lines in
    let same = ok-injective k₃ in
    let (accounts, events) =
      analyze_tasks-EachAccounts h resolved.tasks ms rs each all
        (ap (λ z. analyze_tasks h z.tasks) same ∙ analyzed) in
    subst
      (λ z.
        EachAccounts resolved.tasks z.tasks
        × (z.coverage.source_accesses ≡ access_total resolved.tasks % 2 ^ 64)
        × (z.coverage.emitted_line_references ≡ event_total z.tasks % 2 ^ 64)
        × (complete z.coverage ≡ true))
      (ok-injective h₃)
      (
        accounts,
        ap (λ z. z.coverage.source_accesses) (sym same) ∙ sources,
        ap (λ z. z.coverage.emitted_line_references) (sym same) ∙ omega (arith, sum, events),
        subst (λ z. complete z.coverage ≡ true) same whole,
      )
