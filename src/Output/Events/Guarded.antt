-- ===== src/Output/Events/Guarded.antt =====
-- A sink that checks every event before it takes it sees what an unchecked sink sees.
use Prim.Native.String.{String}
use mathlib.Core.Path.{subst}
use yet_another_reuse_distan.Prelude.{
  ℕ, ◌≤◌, ◌≡◌, refl, sym, ap, ◌∙◌, true, not, inl, inr, none, some, arith, ◌==◌, ok, throw_if, ◌>>◌,
  invalid_argument, logic_error, >>=-eq-ok, >>=_cong_ok, Result-cases, ok-injective, Option-cases,
}
use yet_another_reuse_distan.Mapping.Address.{cache_set_count}
use yet_another_reuse_distan.Mapping.Types.{CacheLineMapping}
use yet_another_reuse_distan.Mapping.LineMapping.{
  u64_max, LineSink, row, validate_range, for_each_cache_line,
}
use yet_another_reuse_distan.Mapping.LineMapping.Rows.{rows_from, line_span, rows}
use yet_another_reuse_distan.Mapping.LineMapping.Delivery.{
  validate_range-eq-ok, for_each_cache_line-rows,
}
use yet_another_reuse_distan.Mapping.Resolved.{
  ResolvedAccess, range_of, annotate, budgeted, for_each_access_line, for_each_budgeted_line,
}
use yet_another_reuse_distan.Trace.Budget.{TraceEmissionBudget, consume_line_reference}
use yet_another_reuse_distan.Rd.RecencyIndex.{Platform, Clock}
use yet_another_reuse_distan.Rd.Exact
use yet_another_reuse_distan.Hierarchy.Types.{AnalysisHierarchy, HierarchyAccessEvent}
use yet_another_reuse_distan.Hierarchy.Service.{checked_service_sum}
use yet_another_reuse_distan.Hierarchy.Task.{
  StreamingHierarchyOptions, HierarchyEventDelivery, World, propagate, count_service, event_of,
  is_misplaced, deliver_event, observe_line, is_absolute, is_known, accept,
}
use yet_another_reuse_distan.Output.Events.{validate_event}
use yet_another_reuse_distan.Output.Events.Observed.{event-valid}
use yet_another_reuse_distan.Output.Events.Provenance.{
  Decoded, deliver-agree, rows_from-Every, row_at-Decoded,
}

-- The sink with every event checked first.
abbrev pub guarded : {S : Type 0} → StreamingHierarchyOptions S → StreamingHierarchyOptions S
guarded options = record options {
  event_sink = elim options.event_sink [
    | none ↦ none
    | some sink ↦ some (λ s id event. validate_event event >> sink s id event)
  ];
}

module _ {S : Type 0} where
  deliver_event-guarded :
      (options : StreamingHierarchyOptions S) (id : String) (event : HierarchyAccessEvent)
      (d : HierarchyEventDelivery) (s : S)
      → validate_event event ≡ ok tt
      → deliver_event (guarded options) id event d s ≡ deliver_event options id event d s
  unfolding deliver_event
  deliver_event-guarded options id event d s v = elim (Option-cases options.event_sink) [
    | inl e ↦ ground (arith, e)
    | inr (sink, e) ↦ ground (arith, e, v)
  ]

  observe_line-guarded :
      (p : Platform) (clocks : ℕ → Clock × Clock) (options : StreamingHierarchyOptions S)
      (w : World S) (m : CacheLineMapping)
      → w.task.hierarchy.l1.geometry.line_size ≡ w.task.hierarchy.llc.geometry.line_size
      → Decoded w.task.hierarchy.l1.geometry m
      → observe_line p clocks (guarded options) w m ≡ observe_line p clocks options w m
  unfolding observe_line
  observe_line-guarded p clocks options w m same row =
      let (c1, c2) = clocks w.task.summary.modeled_accesses in
      >>=_cong_ok (throw_if (is_misplaced w.task m) logic_error) _ _ (λ u placed.
        >>=_cong_ok (checked_service_sum w.task.next_span_ordinal 1) _ _ (λ span counted.
          >>=_cong_ok (Exact.observe p c1 w.task.l1 m.decoded) _ _ (λ (l1, seen) first.
            >>=_cong_ok (propagate p c2 w.task m seen.outcome) _ _ (λ f forwarded.
              >>=_cong_ok (count_service w.task.summary f.service) _ _ (λ served h.
                >>=_cong_ok (checked_service_sum served.modeled_accesses 1) _ _ (λ modeled h'.
                  rw
                    (deliver_event-guarded options w.task.summary.task_id
                      (event_of m seen f.seen f.service) w.delivery w.state
                      (event-valid p c1 c2 w.task l1 m seen f same row.decoded row.valid first
                        forwarded))
                    refl))))))

  observe_line-hierarchy :
      (p : Platform) (clocks : ℕ → Clock × Clock) (options : StreamingHierarchyOptions S)
      (w w' : World S) (m : CacheLineMapping)
      → observe_line p clocks options w m ≡ ok w'
      → w'.task.hierarchy ≡ w.task.hierarchy
  unfolding observe_line
  observe_line-hierarchy p clocks options w w' m h =
      let (c1, c2) = clocks w.task.summary.modeled_accesses in
      let (u, placed, h₁) = >>=-eq-ok (throw_if (is_misplaced w.task m) logic_error) _ h in
      let (span, counted, h₂) = >>=-eq-ok (checked_service_sum w.task.next_span_ordinal 1) _ h₁ in
      let ((l1, seen), first, h₃) = >>=-eq-ok (Exact.observe p c1 w.task.l1 m.decoded) _ h₂ in
      let (f, forwarded, h₄) = >>=-eq-ok (propagate p c2 w.task m seen.outcome) _ h₃ in
      let (s, served, h₅) = >>=-eq-ok (count_service w.task.summary f.service) _ h₄ in
      let (n, modeled, h₆) = >>=-eq-ok (checked_service_sum s.modeled_accesses 1) _ h₅ in
      let (d, delivered, h₇) =
        >>=-eq-ok
          (deliver_event options w.task.summary.task_id (event_of m seen f.seen f.service)
            w.delivery w.state)
          _ h₆ in
      sym (ap (λ q. q.task.hierarchy) (ok-injective h₇))

module _ {S : Type 0} (p : Platform) (clocks : ℕ → Clock × Clock)
    (options : StreamingHierarchyOptions S) (access : ResolvedAccess) where
  -- The sink that the walk over the access calls.
  abbrev line_sink : StreamingHierarchyOptions S → LineSink (TraceEmissionBudget × World S)
  line_sink o s m = budgeted (observe_line p clocks o) s (annotate access m)

  -- The state of the walk still has the hierarchy of the task.
  abbrev HasHierarchy : AnalysisHierarchy → TraceEmissionBudget × World S → Type 0
  HasHierarchy h (budget, w) = w.task.hierarchy ≡ h

  line_sink-agree :
      (h : AnalysisHierarchy) (s : TraceEmissionBudget × World S) (m : CacheLineMapping)
      → h.l1.geometry.line_size ≡ h.llc.geometry.line_size
      → HasHierarchy h s
      → Decoded h.l1.geometry (annotate access m)
      → line_sink (guarded options) s m ≡ line_sink options s m
  unfolding budgeted
  line_sink-agree h (budget, w) m same i row =
      >>=_cong_ok (consume_line_reference budget) _ _ (λ b consumed.
        rw
          (observe_line-guarded p clocks options w (annotate access m)
            (subst (λ z. z.l1.geometry.line_size ≡ z.llc.geometry.line_size) (sym i) same)
            (subst (λ z. Decoded z.l1.geometry (annotate access m)) (sym i) row))
          refl)

  line_sink-keeps :
      (h : AnalysisHierarchy) (s s' : TraceEmissionBudget × World S) (m : CacheLineMapping)
      → HasHierarchy h s
      → line_sink options s m ≡ ok s'
      → HasHierarchy h s'
  unfolding budgeted
  line_sink-keeps h (budget, w) (budget', w') m i ran =
      let (b, consumed, h₁) = >>=-eq-ok (consume_line_reference budget) _ ran in
      let (x, seen, h₂) = >>=-eq-ok (observe_line p clocks options w (annotate access m)) _ h₁ in
      let e : x ≡ w' = ap (λ q. q.1) (ok-injective h₂) in
      observe_line-hierarchy p clocks options w w' (annotate access m) (seen ∙ ap ok e) ∙ i

  walk-agree :
      (h : AnalysisHierarchy) (s : TraceEmissionBudget × World S)
      → access.linked_byte_address ≤ u64_max
      → access.object_byte_offset ≤ u64_max
      → h.l1.geometry.line_size ≡ h.llc.geometry.line_size
      → is_absolute access.address_basis ≡ true
      → is_known access.operation ≡ true
      → HasHierarchy h s
      → for_each_cache_line (range_of access) h.l1.geometry (some (line_sink (guarded options))) s
        ≡ for_each_cache_line (range_of access) h.l1.geometry (some (line_sink options)) s
  unfolding range_of
  walk-agree h s low high same absolute known i =
      let g = h.l1.geometry in
      let range = range_of access in
      elim (Result-cases (validate_range range)) [
        | inl (e, refused) ↦ unfold for_each_cache_line in rw refused refl
        | inr (u, valid) ↦ elim (Result-cases (cache_set_count g)) [
          | inl (e, refused) ↦ unfold for_each_cache_line in rw (valid, refused) refl
          | inr (sets, counted) ↦
              let r = validate_range-eq-ok range low high valid in
              for_each_cache_line-rows range g (line_sink (guarded options)) s sets r counted
              ∙ unfold rows in
                deliver-agree (HasHierarchy h) (λ m. Decoded g (annotate access m))
                  (line_sink (guarded options)) (line_sink options)
                  (λ t m i' row. line_sink-agree h t m same i' row)
                  (λ t t' m i' ran. line_sink-keeps h t t' m i' ran)
                  (rows_from range g sets (line_span range g) 0) s
                  (rows_from-Every (λ m. Decoded g (annotate access m)) range g sets
                    (line_span range g) 0
                    (λ k lt.
                      row_at-Decoded access g sets k r counted absolute known (omega (arith, lt))))
                  i
                ∙ sym (for_each_cache_line-rows range g (line_sink options) s sets r counted)
        ]
      ]

  -- Where the two levels have equal lines and the access is of 64-bit words, accepting it with a
  -- sink that first checks every event by `validate_event`, and throws where the check does, is
  -- accepting it with the sink itself: every event that is delivered passes the check.
  pub accept-guarded :
      (budget : TraceEmissionBudget) (w : World S)
      → access.linked_byte_address ≤ u64_max
      → access.object_byte_offset ≤ u64_max
      → w.task.hierarchy.l1.geometry.line_size ≡ w.task.hierarchy.llc.geometry.line_size
      → accept p clocks (guarded options) access (budget, w)
        ≡ accept p clocks options access (budget, w)
  unfolding accept for_each_budgeted_line for_each_access_line
  accept-guarded budget w low high same =
      >>=_cong_ok (throw_if (not (is_absolute access.address_basis)) invalid_argument) _ _ (λ u a.
        >>=_cong_ok (throw_if (not (is_known access.operation)) invalid_argument) _ _ (λ u' k.
          >>=_cong_ok
            (throw_if (not (access.source_access_ordinal == w.task.summary.source_accesses))
              invalid_argument)
            _ _
            (λ u'' next.
              >>=_cong_ok (checked_service_sum w.task.summary.source_accesses 1) _ _
                (λ sources counted.
                  walk-agree w.task.hierarchy _ low high same (ground (arith, a))
                    (ground (arith, k)) refl))))
