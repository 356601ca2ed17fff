-- ===== src/Batch/Traces/Accepted.antt =====
-- backend/src/trace/output/mapped_trace.cpp and cache/hierarchy/hierarchy_input_validation.cpp: the
-- tasks that are collected from a module are accepted.
use Prim.Native.String.{String}
use yet_another_reuse_distan.Prelude.{
  ℕ, ◌+◌, ◌%◌, ◌^◌, ◌≡◌, refl, Bool, true, false, not, ◌&&◌, List, [], ◌∷◌, arith, ◌==◌, length, ok,
}
use yet_another_reuse_distan.Mapping.Resolved.{ResolvedAccess}
use yet_another_reuse_distan.Hierarchy.Types.{complete}
use yet_another_reuse_distan.Trace.Budget.{ExpansionBudget}
use yet_another_reuse_distan.Trace.Stream.{TaskRoot, Resolve}
use yet_another_reuse_distan.Batch.Traces.{
  ResolvedTaskTrace, ResolvedTaskTraceResult, TaskTally, names, is_unnamed, tally_task, tally_tasks,
  empty_tally, equal_coverage, validate_resolved_task_result, resolved_task_traces,
}
use yet_another_reuse_distan.Batch.Traces.Collected.{
  Stamps, AllRoots, IsCollected, EachCollected, access_total, excluded_total,
  resolved_task_traces-EachCollected,
}

-- The roots have names that are not empty, none of them twice or among those given.
unfoldable pub has_fresh_names : {A : Type 0} → List String → List (TaskRoot A) → Bool
has_fresh_names ids [] = true
has_fresh_names ids (root ∷ roots) =
    not (is_unnamed root.task_id)
    && not (names root.task_id ids)
    && has_fresh_names (root.task_id ∷ ids) roots

record Counts (n calls : ℕ) (t : TaskTally) : Type 0 where
  sources : t.source_accesses ≡ n % 2 ^ 64
  resolved : t.resolved_accesses ≡ n % 2 ^ 64
  rejected : t.rejected_accesses ≡ 0
  excluded : t.excluded_opaque_call_sites ≡ calls % 2 ^ 64

module _ {A : Type 0} (Good : ResolvedAccess → Type 0) where
  tally_task-ok :
      (root : TaskRoot A) (task : ResolvedTaskTrace) (t : TaskTally)
      → IsCollected Good root task
      → is_unnamed root.task_id ≡ false
      → names root.task_id t.task_ids ≡ false
      → tally_task task t
        ≡ ok (record {
          task_ids = root.task_id ∷ t.task_ids;
          source_accesses = (t.source_accesses + length task.accesses) % 2 ^ 64;
          resolved_accesses = (t.resolved_accesses + length task.accesses) % 2 ^ 64;
          rejected_accesses = (t.rejected_accesses + 0) % 2 ^ 64;
          excluded_opaque_call_sites = (t.excluded_opaque_call_sites + root.excluded) % 2 ^ 64;
        })
  unfolding tally_task complete
  tally_task-ok root task t v named fresh =
      rw (v.coverage, v.named, v.excluded, named, fresh) (ground arith)

  tally_tasks-ok :
      (roots : List (TaskRoot A)) (tasks : List ResolvedTaskTrace) (t : TaskTally) (n excluded : ℕ)
      → EachCollected Good roots tasks
      → has_fresh_names t.task_ids roots ≡ true
      → Counts n excluded t
      → (t' : TaskTally) × (tally_tasks tasks t ≡ ok t')
        × Counts (n + access_total tasks) (excluded + excluded_total roots) t'
  unfolding tally_tasks EachCollected has_fresh_names access_total excluded_total
  tally_tasks-ok [] [] t n excluded each fresh c = (
    t,
    refl,
    record {
      sources = omega (arith, c.sources);
      resolved = omega (arith, c.resolved);
      rejected = c.rejected;
      excluded = omega (arith, c.excluded);
    },
  )
  tally_tasks-ok (root ∷ roots) (task ∷ tasks) t n excluded (v, each) fresh c =
      let named : is_unnamed root.task_id ≡ false = ground (arith, fresh) in
      let other : names root.task_id t.task_ids ≡ false = ground (arith, fresh) in
      let rest : has_fresh_names (root.task_id ∷ t.task_ids) roots ≡ true = ground (arith, fresh) in
      let (t', ran, counts) =
        tally_tasks-ok roots tasks
          (record {
            task_ids = root.task_id ∷ t.task_ids;
            source_accesses = (t.source_accesses + length task.accesses) % 2 ^ 64;
            resolved_accesses = (t.resolved_accesses + length task.accesses) % 2 ^ 64;
            rejected_accesses = (t.rejected_accesses + 0) % 2 ^ 64;
            excluded_opaque_call_sites = (t.excluded_opaque_call_sites + root.excluded) % 2 ^ 64;
          })
          (n + length task.accesses) (excluded + root.excluded) each rest
          (record {
            sources = omega (arith, c.sources);
            resolved = omega (arith, c.resolved);
            rejected = omega (arith, c.rejected);
            excluded = omega (arith, c.excluded);
          }) in
      (
        t',
        rw (tally_task-ok root task t v named other) ran,
        record {
          sources = omega (arith, counts.sources);
          resolved = omega (arith, counts.resolved);
          rejected = counts.rejected;
          excluded = omega (arith, counts.excluded);
        },
      )
  tally_tasks-ok [] (task ∷ tasks) t n excluded each fresh c = absurd each
  tally_tasks-ok (root ∷ roots) [] t n excluded each fresh c = absurd each

  -- A collected task is there for each root.
  some_task :
      (roots : List (TaskRoot A)) (tasks : List ResolvedTaskTrace)
      → EachCollected Good roots tasks
      → (length roots == 0) ≡ false
      → (length tasks == 0) ≡ false
  unfolding EachCollected
  some_task [] tasks each h = cc
  some_task (root ∷ roots) [] each h = absurd each
  some_task (root ∷ roots) (task ∷ tasks) each h = ground arith

  -- What is collected from roots with distinct names passes the check of the mapper.
  pub validate_resolved-Collected :
      (Allowed : A → Type 0) (resolve : Resolve A) (stamps : Stamps Allowed Good resolve)
      (roots : List (TaskRoot A)) (expanded : ExpansionBudget) (result : ResolvedTaskTraceResult)
      → AllRoots Allowed roots
      → (length roots == 0) ≡ false
      → has_fresh_names [] roots ≡ true
      → resolved_task_traces resolve roots expanded ≡ ok result
      → validate_resolved_task_result result ≡ ok tt
  unfolding validate_resolved_task_result equal_coverage complete
  validate_resolved-Collected Allowed resolve stamps roots expanded result all given fresh ran =
      let (each, covers, fits, excluded) =
        resolved_task_traces-EachCollected Allowed Good resolve stamps roots expanded result all
          ran in
      let (t, tallied, counts) =
        tally_tasks-ok roots result.tasks empty_tally 0 0 each fresh
          (record { sources = refl; resolved = refl; rejected = refl; excluded = refl }) in
      let sources : t.source_accesses ≡ access_total result.tasks =
        omega (arith, counts.sources, fits) in
      let resolved : t.resolved_accesses ≡ access_total result.tasks =
        omega (arith, counts.resolved, fits) in
      let left_out : t.excluded_opaque_call_sites ≡ result.excluded_opaque_call_sites =
        omega (arith, counts.excluded, excluded) in
      rw
        (
          some_task roots result.tasks each given,
          tallied,
          covers,
          sources,
          resolved,
          counts.rejected,
          left_out,
        )
        (ground arith)
