-- ===== src/Batch/Traces/Collected.antt =====
-- backend/src/trace/output/resolved_access.cpp over task_access_stream.cpp: what the collected tasks
-- of a module have.
use Prim.Native.String.{String}
use mathlib.Core.List.{append_assoc, append-nil}
use mathlib.Core.Path.{subst}
use yet_another_reuse_distan.Prelude.{
  ℕ, ◌+◌, ◌%◌, ◌^◌, ◌≤◌, ◌<◌, ◌≡◌, refl, sym, ap, ◌∙◌, List, [], ◌∷◌, ◌++◌, arith, length,
  length-append, ok, >>=-eq-ok, ok-injective,
}
use yet_another_reuse_distan.Mapping.Resolved.{ResolvedAccess}
use yet_another_reuse_distan.Hierarchy.Types.{TraceCoverage}
use yet_another_reuse_distan.Rd.Arithmetic.{u64_max}
use yet_another_reuse_distan.Trace.Budget.{
  TraceEmissionLimits, TraceEmissionBudget, ExpansionBudget, consume_source_access,
  consume_loop_iterations, emission_budget,
}
use yet_another_reuse_distan.Trace.Stream.{
  Visit, enter_loop, meet, TaskRoot, ResolvedTraceUnroller, Resolve, emit, unroll, coverage_delta,
  stream_task, stream_tasks, stream_resolved_task_accesses,
}
use yet_another_reuse_distan.Batch.Traces.{
  ResolvedTaskTrace, no_coverage, change_back, add_access, collector, ResolvedTaskTraceResult,
  resolved_task_traces,
}

-- So many accesses, all resolved.
abbrev pub covered : ℕ → TraceCoverage
covered n = record {
  source_accesses = n;
  resolved_accesses = n;
  rejected_accesses = 0;
  emitted_line_references = 0;
}

abbrev pub unlimited : TraceEmissionLimits
unlimited = record { emitted_source_accesses = u64_max; emitted_line_references = u64_max }

-- A resolution that returns has counted the access, given it its ordinal, and found it good.
pub record Stamps {A : Type 0} (Allowed : A → Type 0) (Good : ResolvedAccess → Type 0)
    (resolve : Resolve A) : Type 0 where
  pub stamp :
      (a : A) (id : String) (ordinal : ℕ) (c c' : TraceCoverage) (access : ResolvedAccess)
      → Allowed a
      → resolve a id ordinal c ≡ ok (access, c')
      → Good access
        × (access.source_access_ordinal ≡ ordinal)
        × (c' ≡ record c { resolved_accesses = (c.resolved_accesses + 1) % 2 ^ 64 })

zero_add : (n : ℕ) → 0 + n ≡ n
zero_add n = omega arith

-- The accesses are good, with ordinals that count up from a number.
unfoldable pub Numbered : (ResolvedAccess → Type 0) → ℕ → List ResolvedAccess → Type 0
Numbered Good n [] = Unit {0}
Numbered Good n (a ∷ accesses) =
    Good a × (a.source_access_ordinal ≡ n) × Numbered Good (n + 1) accesses

unfoldable pub AllMeet : {A : Type 0} → (A → Type 0) → List (Visit A) → Type 0
AllMeet Allowed [] = Unit {0}
AllMeet Allowed (enter_loop count ∷ visits) = AllMeet Allowed visits
AllMeet Allowed (meet a ∷ visits) = Allowed a × AllMeet Allowed visits

unfoldable pub AllRoots : {A : Type 0} → (A → Type 0) → List (TaskRoot A) → Type 0
unfolding AllMeet
AllRoots Allowed [] = Unit {0}
AllRoots Allowed (root ∷ roots) = AllMeet Allowed root.visits × AllRoots Allowed roots

Numbered-snoc :
    (Good : ResolvedAccess → Type 0) (n : ℕ) (accesses : List ResolvedAccess) (a : ResolvedAccess)
    → Numbered Good n accesses
    → Good a
    → a.source_access_ordinal ≡ n + length accesses
    → Numbered Good n (accesses ++ a ∷ [])
unfolding Numbered
Numbered-snoc Good n [] a v g e = (g, e ∙ omega arith, tt)
Numbered-snoc Good n (b ∷ accesses) a (x, y, v) g e =
    (x, y, Numbered-snoc Good (n + 1) accesses a v g (e ∙ omega arith))

change_back-snoc :
    (change : ResolvedTaskTrace → ResolvedTaskTrace) (tasks : List ResolvedTaskTrace)
    (task : ResolvedTaskTrace)
    → change_back change (tasks ++ task ∷ []) ≡ tasks ++ change task ∷ []
unfolding change_back
change_back-snoc change [] task = refl
change_back-snoc change (t ∷ []) task = refl
change_back-snoc change (t ∷ u ∷ tasks) task =
    ap (λ z. t ∷ z) (change_back-snoc change (u ∷ tasks) task)

unfoldable pub access_total : List ResolvedTaskTrace → ℕ
access_total [] = 0
access_total (task ∷ tasks) = length task.accesses + access_total tasks

-- A task is what its root says, with all its accesses covered.
pub record IsCollected {A : Type 0} (Good : ResolvedAccess → Type 0) (root : TaskRoot A)
    (task : ResolvedTaskTrace) : Type 0 where
  pub named : task.task_id ≡ root.task_id
  pub excluded : task.excluded_opaque_call_sites ≡ root.excluded
  pub numbered : Numbered Good 0 task.accesses
  pub coverage : task.coverage ≡ covered (length task.accesses)

unfoldable pub EachCollected :
    {A : Type 0} → (ResolvedAccess → Type 0) → List (TaskRoot A) → List ResolvedTaskTrace → Type 0
EachCollected Good [] [] = Unit {0}
EachCollected Good (root ∷ roots) (task ∷ tasks) =
    IsCollected Good root task × EachCollected Good roots tasks
EachCollected Good _ _ = ⊥

unfoldable pub excluded_total : {A : Type 0} → List (TaskRoot A) → ℕ
excluded_total [] = 0
excluded_total (root ∷ roots) = root.excluded + excluded_total roots

abbrev open_task : String → ℕ → List ResolvedAccess → ResolvedTaskTrace
open_task id excluded accesses = record {
  task_id = id;
  accesses = accesses;
  coverage = no_coverage;
  excluded_opaque_call_sites = excluded;
}

abbrev Stream : Type 0
Stream = ResolvedTraceUnroller × (TraceEmissionBudget × List ResolvedTaskTrace)

-- Between the accesses of a task that begins after so many accesses of the tasks before.
record InTask (Good : ResolvedAccess → Type 0) (base : ℕ) (done : List ResolvedTaskTrace)
    (id : String) (excluded : ℕ) (s : Stream) : Type 0 where
  accesses : List ResolvedAccess
  tasks : s.1.1 ≡ done ++ open_task id excluded accesses ∷ []
  numbered : Numbered Good 0 accesses
  next : s.0.next_source_access_ordinal ≡ length accesses
  coverage : s.0.coverage ≡ covered (base + length accesses)
  charged : s.1.0.source_accesses ≡ base + length accesses
  limits : s.1.0.limits ≡ unlimited
  bounded : base + length accesses ≤ u64_max

consume_source-ok :
    (b b' : TraceEmissionBudget)
    → b.limits ≡ unlimited
    → consume_source_access b ≡ ok b'
    → (b.source_accesses < u64_max)
      × (b'.source_accesses ≡ b.source_accesses + 1)
      × (b'.limits ≡ unlimited)
unfolding consume_source_access
consume_source-ok b b' l h = (ground arith, ground arith, ground arith)

covered_next :
    (c : TraceCoverage) (n : ℕ)
    → c ≡ covered n
    → n < u64_max
    → record c {
      source_accesses = (c.source_accesses + 1) % 2 ^ 64;
      resolved_accesses = (c.resolved_accesses + 1) % 2 ^ 64;
    }
      ≡ covered (n + 1)
covered_next c n e h = ground arith

-- The difference of two coverages of a stream.
covered_delta :
    (c d : TraceCoverage) (m n : ℕ)
    → c ≡ covered (m + n)
    → d ≡ covered m
    → m + n ≤ u64_max
    → coverage_delta c d ≡ covered n
unfolding coverage_delta
covered_delta c d m n e e' h = ground arith

module _ {A : Type 0} (Allowed : A → Type 0) (Good : ResolvedAccess → Type 0) (resolve : Resolve A)
    (stamps : Stamps Allowed Good resolve) where
  emit-InTask :
      (base : ℕ) (done : List ResolvedTaskTrace) (id : String) (excluded : ℕ) (a : A)
      (s s' : Stream)
      → Allowed a
      → InTask Good base done id excluded s
      → emit resolve collector id a s ≡ ok s'
      → InTask Good base done id excluded s'
  unfolding emit collector
  emit-InTask base done id excluded a (u, (budget, tasks)) s' allowed v h =
      let (b, spent, h₁) = >>=-eq-ok (consume_source_access budget) _ h in
      let counted : TraceCoverage = record u.coverage {
        source_accesses = (u.coverage.source_accesses + 1) % 2 ^ 64;
      } in
      let ((access, c), found, h₂) =
        >>=-eq-ok (resolve a id u.next_source_access_ordinal counted) _ h₁ in
      let (good, stamped, covers) =
        stamps.stamp a id u.next_source_access_ordinal counted c access allowed found in
      let (below, charged, limits) = consume_source-ok budget b v.limits spent in
      let longer : length (v.accesses ++ access ∷ []) ≡ length v.accesses + 1 =
        length-append v.accesses (access ∷ []) in
      subst (InTask Good base done id excluded) (ok-injective h₂) (record {
        accesses = v.accesses ++ access ∷ [];
        tasks =
            ap (change_back (add_access access)) v.tasks
            ∙ change_back-snoc (add_access access) done (open_task id excluded v.accesses);
        numbered =
            Numbered-snoc Good 0 v.accesses access v.numbered good (stamped ∙ v.next ∙ omega arith);
        next = omega (arith, longer, v.next, v.bounded, v.charged, below);
        coverage =
            covers
            ∙ covered_next u.coverage (base + length v.accesses) v.coverage
                (omega (arith, v.charged, below))
            ∙ ap covered (omega (arith, longer));
        charged = omega (arith, charged, v.charged, longer);
        limits = limits;
        bounded = omega (arith, longer, v.charged, below);
      })

  unroll-InTask :
      (base : ℕ) (done : List ResolvedTaskTrace) (id : String) (excluded : ℕ)
      (visits : List (Visit A)) (s s' : Stream)
      → AllMeet Allowed visits
      → InTask Good base done id excluded s
      → unroll resolve collector id visits s ≡ ok s'
      → InTask Good base done id excluded s'
  unfolding unroll AllMeet
  unroll-InTask base done id excluded [] s s' all v h =
      subst (InTask Good base done id excluded) (ok-injective h) v
  unroll-InTask base done id excluded (enter_loop count ∷ visits) (u, s) s' all v h =
      let (b, charged, h₁) = >>=-eq-ok (consume_loop_iterations u.expansion_budget count) _ h in
      unroll-InTask base done id excluded visits (record u { expansion_budget = b }, s) s' all
        (record {
          accesses = v.accesses;
          tasks = v.tasks;
          numbered = v.numbered;
          next = v.next;
          coverage = v.coverage;
          charged = v.charged;
          limits = v.limits;
          bounded = v.bounded;
        })
        h₁
  unroll-InTask base done id excluded (meet a ∷ visits) s s' (allowed, all) v h =
      let (t, met, h₁) = >>=-eq-ok (emit resolve collector id a s) _ h in
      unroll-InTask base done id excluded visits t s' all
        (emit-InTask base done id excluded a s t allowed v met) h₁

  -- Between two tasks, after so many accesses.
  record Between (base : ℕ) (done : List ResolvedTaskTrace) (s : Stream) : Type 0 where
    tasks : s.1.1 ≡ done
    coverage : s.0.coverage ≡ covered base
    charged : s.1.0.source_accesses ≡ base
    limits : s.1.0.limits ≡ unlimited
    bounded : base ≤ u64_max

  moved :
      {base base' : ℕ} {done done' : List ResolvedTaskTrace} {s : Stream}
      → base ≡ base'
      → done ≡ done'
      → Between base done s
      → Between base' done' s
  moved {base} {base'} {done} {done'} {s} e e' v =
      subst (λ n. Between n done' s) e (subst (λ tasks. Between base tasks s) e' v)

  stream_task-Between :
      (base : ℕ) (done : List ResolvedTaskTrace) (root : TaskRoot A) (s s' : Stream)
      → AllMeet Allowed root.visits
      → Between base done s
      → stream_task resolve collector root s ≡ ok s'
      → (task : ResolvedTaskTrace) × IsCollected Good root task
        × Between (base + length task.accesses) (done ++ task ∷ []) s'
  unfolding stream_task collector Numbered
  stream_task-Between base done root (u, (budget, tasks)) s' all v h =
      let begun : Stream = (
        record u { next_source_access_ordinal = 0 },
        (budget, tasks ++ open_task root.task_id root.excluded [] ∷ []),
      ) in
      let ((u', (b, ts)), unrolled, h₁) =
        >>=-eq-ok (unroll resolve collector root.task_id root.visits begun) _ h in
      let w =
        unroll-InTask base done root.task_id root.excluded root.visits begun (u', (b, ts)) all
          (record {
            accesses = [];
            tasks = ap (λ z. z ++ open_task root.task_id root.excluded [] ∷ []) v.tasks;
            numbered = tt;
            next = refl;
            coverage = v.coverage ∙ ap covered (omega arith);
            charged = omega (arith, v.charged);
            limits = v.limits;
            bounded = omega (arith, v.bounded);
          })
          unrolled in
      let task : ResolvedTaskTrace = record {
        task_id = root.task_id;
        accesses = w.accesses;
        coverage = coverage_delta u'.coverage u.coverage;
        excluded_opaque_call_sites = root.excluded;
      } in
      let close : ResolvedTaskTrace → ResolvedTaskTrace =
        λ t. record t { coverage = coverage_delta u'.coverage u.coverage } in
      let collected : IsCollected Good root task = record {
        named = refl;
        excluded = refl;
        numbered = w.numbered;
        coverage =
            covered_delta u'.coverage u.coverage base (length w.accesses) w.coverage v.coverage
              w.bounded;
      } in
      let after : Between (base + length task.accesses) (done ++ task ∷ []) s' =
        subst (Between (base + length task.accesses) (done ++ task ∷ [])) (ok-injective h₁)
          (record {
            tasks =
                ap (change_back close) w.tasks
                ∙ change_back-snoc close done (open_task root.task_id root.excluded w.accesses);
            coverage = w.coverage;
            charged = w.charged;
            limits = w.limits;
            bounded = w.bounded;
          }) in
      (task, collected, after)

  stream_tasks-Between :
      (base : ℕ) (done : List ResolvedTaskTrace) (roots : List (TaskRoot A))
      (k excluded excluded' : ℕ) (s s' : Stream)
      → AllRoots Allowed roots
      → Between base done s
      → excluded ≡ k % 2 ^ 64
      → stream_tasks resolve collector roots excluded s ≡ ok (excluded', s')
      → (tasks : List ResolvedTaskTrace) × EachCollected Good roots tasks
        × Between (base + access_total tasks) (done ++ tasks) s'
        × (excluded' ≡ (k + excluded_total roots) % 2 ^ 64)
  unfolding stream_tasks AllRoots EachCollected access_total excluded_total
  stream_tasks-Between base done [] k excluded excluded' s s' all v e h =
      let same = ok-injective h in
      let after : Between (base + 0) (done ++ []) s' =
        moved (omega arith) (sym (append-nil done))
          (subst (Between base done) (ap (λ z. z.1) same) v) in
      ([], tt, after, sym (ap (λ z. z.0) same) ∙ omega (arith, e))
  stream_tasks-Between base done (root ∷ roots) k excluded excluded' s s' (all, rest) v e h =
      let (t, ran, h₁) = >>=-eq-ok (stream_task resolve collector root s) _ h in
      let (task, collected, after) = stream_task-Between base done root s t all v ran in
      let (tasks, each, final, total) =
        stream_tasks-Between (base + length task.accesses) (done ++ task ∷ []) roots
          (k + root.excluded) _ excluded' t s' rest after (omega (arith, e)) h₁ in
      (
        task ∷ tasks,
        (collected, each),
        moved (omega arith) (append_assoc done (task ∷ []) tasks) final,
        omega (arith, total),
      )

  -- The tasks that are collected from a module are those of its roots in order: each has its name
  -- and exclusions, its accesses are numbered from zero and all covered; the totals are those of
  -- the tasks, and fit 64 bits.
  pub resolved_task_traces-EachCollected :
      (roots : List (TaskRoot A)) (expanded : ExpansionBudget) (result : ResolvedTaskTraceResult)
      → AllRoots Allowed roots
      → resolved_task_traces resolve roots expanded ≡ ok result
      → EachCollected Good roots result.tasks
        × (result.coverage ≡ covered (access_total result.tasks))
        × (access_total result.tasks ≤ u64_max)
        × (result.excluded_opaque_call_sites ≡ excluded_total roots % 2 ^ 64)
  unfolding resolved_task_traces stream_resolved_task_accesses emission_budget
  resolved_task_traces-EachCollected roots expanded result all h =
      let start : Stream = (
        record {
          coverage = covered 0;
          next_source_access_ordinal = 0;
          expansion_budget = expanded;
        },
        (emission_budget unlimited, []),
      ) in
      let ((summary, (b, tasks)), streamed, h₁) =
        >>=-eq-ok
          (stream_resolved_task_accesses resolve collector roots expanded
            (emission_budget unlimited, []))
          _ h in
      let ((excluded, s), ran, h₂) =
        >>=-eq-ok (stream_tasks resolve collector roots 0 start) _ streamed in
      let (found, each, after, total) =
        stream_tasks-Between 0 [] roots 0 0 excluded start s all
          (record {
            tasks = refl;
            coverage = refl;
            charged = refl;
            limits = refl;
            bounded = omega arith;
          })
          refl ran in
      let made = ok-injective h₂ in
      let kept : tasks ≡ found = ap (λ z. z.1.1) (sym made) ∙ after.tasks in
      let covers : summary.coverage ≡ covered (access_total tasks) =
        ap (λ z. z.0.coverage) (sym made)
        ∙ after.coverage
        ∙ ap covered (zero_add (access_total found) ∙ ap access_total (sym kept)) in
      subst
        (λ z.
          EachCollected Good roots z.tasks
          × (z.coverage ≡ covered (access_total z.tasks))
          × (access_total z.tasks ≤ u64_max)
          × (z.excluded_opaque_call_sites ≡ excluded_total roots % 2 ^ 64))
        (ok-injective h₁)
        (
          subst (EachCollected Good roots) (sym kept) each,
          covers,
          subst (λ z. access_total z ≤ u64_max) (sym kept) (omega (arith, after.bounded)),
          ap (λ z. z.0.excluded_opaque_call_sites) (sym made) ∙ total ∙ omega arith,
        )
