-- ===== src/Batch/Module/Served.antt =====
-- backend/src/cache/hierarchy/hierarchy_aggregation.cpp: the events of a task are its counts.
use Prim.Native.String.{String}
use yet_another_reuse_distan.Prelude.{
  ℕ, ◌+◌, ◌≡◌, refl, sym, ap, ◌∙◌, inl, inr, Bool, true, false, not, Bool-cases, List, [], ◌∷◌,
  ◌++◌, arith, ◌==◌, if◌then◌else◌, length, ok, throw_if, >>=-eq-ok, throw_if-eq-ok, ok-injective,
  logic_error,
}
use mathlib.Core.Path.{subst}
use yet_another_reuse_distan.Mapping.Types.{CacheLineMapping}
use yet_another_reuse_distan.Hierarchy.Types.{
  TraceCoverage, TaskHierarchySummary, LruAccessResult, HierarchyAccessEvent, FirstServiceLevel,
  at_l1, at_llc, at_memory,
}
use yet_another_reuse_distan.Hierarchy.Service.{
  checked_service_sum, finalize_hierarchy_service, Serves, serves,
}
use yet_another_reuse_distan.Hierarchy.Level.{is_hit}
use yet_another_reuse_distan.Hierarchy.Task.{empty_task}
use yet_another_reuse_distan.Batch.Level.{
  Pairing, pair_hit, pair_miss, pair_rows, count_last, BatchCacheLevelResult,
  BatchTaskHierarchyResult, aggregate_hierarchy_task, is_ragged, same_reference,
}

abbrev pub same_service : FirstServiceLevel → FirstServiceLevel → Bool
same_service at_l1 at_l1 = true
same_service at_llc at_llc = true
same_service at_memory at_memory = true
same_service _ _ = false

-- The events that one level serves first.
unfoldable pub served_by : FirstServiceLevel → List HierarchyAccessEvent → ℕ
served_by level [] = 0
served_by level (event ∷ events) =
    (if same_service level event.first_service then 1 else 0) + served_by level events

-- The counts of a summary are those of its events, and its invariants hold.
pub record Served (r : BatchTaskHierarchyResult) : Type 0 where
  pub summary : Serves r.summary
  pub modeled : length r.events ≡ r.summary.modeled_accesses
  pub l1 : served_by at_l1 r.events ≡ r.summary.l1_first_hit_count
  pub llc : served_by at_llc r.events ≡ r.summary.llc_first_hit_count
  pub memory : served_by at_memory r.events ≡ r.summary.all_cache_misses

record Paired (id : String) (p : Pairing) (rows : ℕ) : Type 0 where
  named : p.summary.task_id ≡ id
  count : length p.events ≡ rows
  l1 : served_by at_l1 p.events ≡ p.summary.l1_first_hit_count
  llc : served_by at_llc p.events ≡ p.summary.llc_first_hit_count
  memory : served_by at_memory p.events ≡ p.summary.all_cache_misses

served_by-snoc :
    (level : FirstServiceLevel) (events : List HierarchyAccessEvent) (event : HierarchyAccessEvent)
    → served_by level (events ++ event ∷ [])
      ≡ served_by level events + (if same_service level event.first_service then 1 else 0)
unfolding served_by
served_by-snoc level [] event = omega arith
served_by-snoc level (e ∷ events) event = omega (arith, served_by-snoc level events event)

length-snoc : {A : Type 0} (xs : List A) (x : A) → length (xs ++ x ∷ []) ≡ length xs + 1
length-snoc [] x = omega arith
length-snoc (y ∷ xs) x = omega (arith, length-snoc xs x)

checked_sum-eq : (a b c : ℕ) → checked_service_sum a b ≡ ok c → c ≡ a + b
unfolding checked_service_sum
checked_sum-eq a b c h = ground (arith, h)

-- One more event of a level, with the counter of that level.
add_event :
    (id : String) (p q : Pairing) (rows : ℕ) (event : HierarchyAccessEvent)
    → Paired id p rows
    → q.summary.task_id ≡ p.summary.task_id
    → q.events ≡ p.events ++ event ∷ []
    → q.summary.l1_first_hit_count
      ≡ p.summary.l1_first_hit_count + (if same_service at_l1 event.first_service then 1 else 0)
    → q.summary.llc_first_hit_count
      ≡ p.summary.llc_first_hit_count + (if same_service at_llc event.first_service then 1 else 0)
    → q.summary.all_cache_misses
      ≡ p.summary.all_cache_misses + (if same_service at_memory event.first_service then 1 else 0)
    → Paired id q (rows + 1)
add_event id p q rows event v named e a b c = record {
  named = named ∙ v.named;
  count = ap length e ∙ omega (arith, length-snoc p.events event, v.count);
  l1 = ap (served_by at_l1) e ∙ omega (arith, served_by-snoc at_l1 p.events event, v.l1, a);
  llc = ap (served_by at_llc) e ∙ omega (arith, served_by-snoc at_llc p.events event, v.llc, b);
  memory =
      ap (served_by at_memory) e
      ∙ omega (arith, served_by-snoc at_memory p.events event, v.memory, c);
}

pair_hit-Paired :
    (id : String) (mapping : CacheLineMapping) (access : LruAccessResult) (p q : Pairing) (rows : ℕ)
    → Paired id p rows
    → pair_hit mapping access p ≡ ok q
    → Paired id q (rows + 1)
unfolding pair_hit
pair_hit-Paired id mapping access p q rows v h =
    let (count, summed, h₁) = >>=-eq-ok (checked_service_sum p.summary.l1_first_hit_count 1) _ h in
    let exact = checked_sum-eq _ _ _ summed in
    subst (λ z. Paired id z (rows + 1)) (ok-injective h₁)
      (add_event id p _ rows _ v refl refl exact (omega arith) (omega arith))

abbrev service_of : Bool → FirstServiceLevel
service_of found = if found then at_llc else at_memory

count_last-counts :
    (seen : LruAccessResult) (s t : TaskHierarchySummary)
    → count_last seen s ≡ ok t
    → (t.task_id ≡ s.task_id)
      × (t.l1_first_hit_count ≡ s.l1_first_hit_count)
      × (t.llc_first_hit_count
          ≡ s.llc_first_hit_count
            + (if same_service at_llc (service_of (is_hit seen.outcome)) then 1 else 0))
      × (t.all_cache_misses
          ≡ s.all_cache_misses
            + (if same_service at_memory (service_of (is_hit seen.outcome)) then 1 else 0))
unfolding count_last checked_service_sum
count_last-counts seen s t h =
    (ground (arith, h), ground (arith, h), ground (arith, h), ground (arith, h))

not_l1 : (found : Bool) → same_service at_l1 (service_of found) ≡ false
not_l1 true = refl
not_l1 false = refl

pair_miss-Paired :
    (id : String) (mapping : CacheLineMapping) (access : LruAccessResult)
    (mappings : List CacheLineMapping) (accesses : List LruAccessResult) (p q : Pairing) (rows : ℕ)
    → Paired id p rows
    → pair_miss mapping access mappings accesses p ≡ ok q
    → Paired id q (rows + 1)
unfolding pair_miss
pair_miss-Paired id mapping access (row ∷ more) (seen ∷ rest) p q rows v h =
    let (_, same, h₁) = >>=-eq-ok (throw_if (not (same_reference mapping row)) logic_error) _ h in
    let (s, counted, h₂) = >>=-eq-ok (count_last seen p.summary) _ h₁ in
    let (n, a, b, c) = count_last-counts seen p.summary s counted in
    subst (λ z. Paired id z (rows + 1)) (ok-injective h₂)
      (add_event id p _ rows _ v n refl (rw (not_l1 (is_hit seen.outcome)) (omega (arith, a))) b c)
pair_miss-Paired id mapping access [] _ p q rows v h = cc
pair_miss-Paired id mapping access (row ∷ more) [] p q rows v h = cc

pair_rows-Paired :
    (id : String) (mappings : List CacheLineMapping) (accesses : List LruAccessResult)
    (p q : Pairing) (rows : ℕ)
    → Paired id p rows
    → length accesses ≡ length mappings
    → pair_rows mappings accesses p ≡ ok q
    → Paired id q (rows + length mappings)
unfolding pair_rows
pair_rows-Paired id [] [] p q rows v e h =
    subst (λ z. Paired id z (rows + 0)) (ok-injective h) (subst (Paired id p) (omega arith) v)
pair_rows-Paired id [] (a ∷ accesses) p q rows v e h = absurd (omega arith)
pair_rows-Paired id (m ∷ mappings) [] p q rows v e h = absurd (omega arith)
pair_rows-Paired id (m ∷ mappings) (a ∷ accesses) p q rows v e h =
    let (p', paired, h₁) =
      >>=-eq-ok
        (if is_hit a.outcome then pair_hit m a p else pair_miss m a p.llc_mappings p.llc_accesses p)
        _ h in
    let v' : Paired id p' (rows + 1) = elim (Bool-cases (is_hit a.outcome)) [
      | inl hits ↦ pair_hit-Paired id m a p p' rows v (ground (arith, hits, paired))
      | inr missed ↦
          pair_miss-Paired id m a p.llc_mappings p.llc_accesses p p' rows v
            (ground (arith, missed, paired))
    ] in
    subst (Paired id q) (omega arith)
      (pair_rows-Paired id mappings accesses p' q (rows + 1) v' (omega (arith, e)) h₁)

abbrev unpaired : String → BatchCacheLevelResult → Pairing
unpaired id llc = record {
  llc_mappings = llc.mappings;
  llc_accesses = llc.accesses;
  summary = empty_task id;
  events = [];
}

-- The check of a summary fills in its flags and its ratios alone.
finalized :
    (s t : TaskHierarchySummary)
    → finalize_hierarchy_service s ≡ ok t
    → t ≡ record s {
      invariants = t.invariants;
      l1_first_hit_ratio = t.l1_first_hit_ratio;
      llc_first_hit_ratio = t.llc_first_hit_ratio;
      all_cache_miss_ratio = t.all_cache_miss_ratio;
    }
unfolding finalize_hierarchy_service
finalized s t h = ground (arith, h)

finalized-Serves : (s t : TaskHierarchySummary) → finalize_hierarchy_service s ≡ ok t → Serves t
finalized-Serves s t h =
    let v = serves s t h in
    subst Serves (sym (finalized s t h)) (record {
      l1 = v.l1;
      llc = v.llc;
      input = v.input;
      modeled = v.modeled;
      l1_hits = v.l1_hits;
      llc_hits = v.llc_hits;
      memory = v.memory;
      resolved = v.resolved;
      rejected = v.rejected;
      sources = v.sources;
      emitted = v.emitted;
    })

level_lengths :
    (level : BatchCacheLevelResult)
    → is_ragged level ≡ false
    → (length level.accesses ≡ length level.mappings)
      × (length level.mappings ≡ level.summary.lookups)
unfolding is_ragged
level_lengths level h = (ground (arith, h), ground (arith, h))

-- The counters of an aggregated task.
pub aggregate_hierarchy_task-Served :
    (id : String) (coverage : TraceCoverage) (l1 llc : BatchCacheLevelResult)
    (r : BatchTaskHierarchyResult)
    → aggregate_hierarchy_task id coverage l1 llc ≡ ok r
    → Served r × (r.summary.coverage ≡ coverage) × (r.summary.task_id ≡ id)
unfolding aggregate_hierarchy_task served_by
aggregate_hierarchy_task-Served id coverage l1 llc r h =
    let (_, whole, h₁) = >>=-eq-ok (throw_if (is_ragged l1) logic_error) _ h in
    let (_, last, h₂) = >>=-eq-ok (throw_if (is_ragged llc) logic_error) _ h₁ in
    let (p, paired, h₃) = >>=-eq-ok (pair_rows l1.mappings l1.accesses (unpaired id llc)) _ h₂ in
    let (_, used, h₄) = >>=-eq-ok (throw_if (not (length p.llc_accesses == 0)) logic_error) _ h₃ in
    let (summary, finished, h₅) = >>=-eq-ok (finalize_hierarchy_service _) _ h₄ in
    let same = finalized _ summary finished in
    let (equal, lookups) = level_lengths l1 (throw_if-eq-ok _ _ whole) in
    let v =
      pair_rows-Paired id l1.mappings l1.accesses (unpaired id llc) p 0
        (record { named = refl; count = refl; l1 = refl; llc = refl; memory = refl }) equal
        paired in
    subst (λ z. Served z × (z.summary.coverage ≡ coverage) × (z.summary.task_id ≡ id))
      (ok-injective h₅)
      (
        record {
          summary = finalized-Serves _ summary finished;
          modeled = v.count ∙ omega (arith, lookups) ∙ ap (λ z. z.modeled_accesses) (sym same);
          l1 = v.l1 ∙ ap (λ z. z.l1_first_hit_count) (sym same);
          llc = v.llc ∙ ap (λ z. z.llc_first_hit_count) (sym same);
          memory = v.memory ∙ ap (λ z. z.all_cache_misses) (sym same);
        },
        ap (λ z. z.coverage) same,
        ap (λ z. z.task_id) same ∙ v.named,
      )
