-- ===== src/Output/Events/Observed.antt =====
-- The event of an observed line passes the checks of the retained events.
use text.Mathlib.TextPositions.{eq_refl}
use yet_another_reuse_distan.Prelude.{
  ℕ, ◌/◌, ◌%◌, ◌≡◌, refl, sym, ap, ◌∙◌, true, inl, inr, Option, none, some, arith, if◌then◌else◌,
  ok, throw_if, ◌>>=◌, invalid_argument, >>=-eq-ok, ok-injective, Bool-cases,
}
use mathlib.Core.Path.{subst}
use yet_another_reuse_distan.Mapping.Address.{
  CacheGeometry, DecodedCacheAddress, cache_set_count, partition, decode_cache_address,
}
use yet_another_reuse_distan.Mapping.Types.{CacheLineMapping, AccessOperation, unknown, load, store}
use yet_another_reuse_distan.Rd.RecencyIndex.{Platform, Clock}
use yet_another_reuse_distan.Rd.RecencyIndex
use yet_another_reuse_distan.Rd.Arithmetic.{csrd_checked_add, csrd_checked_add_within}
use yet_another_reuse_distan.Rd.Exact.{
  ExactCsrdAnalyzer, ExactCsrdSummary, is_inconsistent, set_state, CsrdObservation, count_cold,
  count_reuse, count_access, hit, cold_miss, replacement_miss,
}
use yet_another_reuse_distan.Rd.Exact
use yet_another_reuse_distan.Hierarchy.Types.{FirstServiceLevel, at_l1, at_llc, at_memory}
use yet_another_reuse_distan.Hierarchy.Level.{is_hit, streaming_lru_result}
use yet_another_reuse_distan.Hierarchy.Task.{
  StreamingHierarchyTask, Propagation, propagate, event_of,
}
use yet_another_reuse_distan.Output.Events.{
  validate_observation, same_operation, same_service, same_source, same_provenance,
  validate_mapping, expected_after_miss, expected_service, validate_event,
}

count_access-valid :
    (ways : ℕ) (s t : ExactCsrdSummary) (lookups : ℕ) (o : Option ℕ) (out : CsrdObservation)
    → count_access ways s lookups o ≡ ok (t, out)
    → validate_observation (streaming_lru_result out) ≡ ok tt
unfolding count_access count_cold count_reuse validate_observation streaming_lru_result
    csrd_checked_add csrd_checked_add_within
count_access-valid ways s t lookups none out h = ground (arith, h)
count_access-valid ways s t lookups (some d) out h = ground (arith, h)

-- What an analyzer reports has a distance exactly where it is no cold miss.
pub observe-valid :
    (p : Platform) (c : Clock) (a b : ExactCsrdAnalyzer) (d : DecodedCacheAddress)
    (out : CsrdObservation)
    → Exact.observe p c a d ≡ ok (b, out)
    → validate_observation (streaming_lru_result out) ≡ ok tt
unfolding Exact.observe
observe-valid p c a b d out h =
    let (u, sane, h₁) = >>=-eq-ok (throw_if (is_inconsistent a d) invalid_argument) _ h in
    let (lookups, looked, h₂) = >>=-eq-ok (csrd_checked_add a.summary.lookups 1) _ h₁ in
    let (r, ready, h₃) = >>=-eq-ok (set_state p a d.set_index) _ h₂ in
    let ((r', o), seen, h₄) = >>=-eq-ok (RecencyIndex.observe p c r d.block_number) _ h₃ in
    let ((t, out'), counted, h₅) =
      >>=-eq-ok (count_access a.geometry.associativity a.summary lookups o) _ h₄ in
    subst (λ z. validate_observation (streaming_lru_result z) ≡ ok tt)
      (ap (λ q. q.1) (ok-injective h₅))
      (count_access-valid a.geometry.associativity a.summary t lookups o out' counted)

same_operation_refl : (o : AccessOperation) → same_operation o o ≡ true
same_operation_refl unknown = refl
same_operation_refl load = refl
same_operation_refl store = refl

-- The same row under another geometry with the same lines.
record Redecoded (m : CacheLineMapping) (d : DecodedCacheAddress) : Type 0 where
  address : d.address ≡ m.decoded.address
  block : d.block_number ≡ m.decoded.block_number
  offset : d.line_offset ≡ m.decoded.line_offset

decode-Redecoded :
    (m : CacheLineMapping) (g h : CacheGeometry) (d : DecodedCacheAddress)
    → g.line_size ≡ h.line_size
    → decode_cache_address m.decoded.address g ≡ ok m.decoded
    → decode_cache_address m.decoded.address h ≡ ok d
    → Redecoded m d
unfolding decode_cache_address partition
decode-Redecoded m g h d same first last =
    let (n, counted, e₁) = >>=-eq-ok (cache_set_count g) _ first in
    let (k, counted', e₂) = >>=-eq-ok (cache_set_count h) _ last in
    let a = ok-injective e₁ in
    let b = ok-injective e₂ in
    record {
      address = sym (ap (λ z. z.address) b);
      block =
          sym (ap (λ z. z.block_number) b)
          ∙ ap (λ (l : ℕ). m.decoded.address / l) (sym same)
          ∙ ap (λ z. z.block_number) a;
      offset =
          sym (ap (λ z. z.line_offset) b)
          ∙ ap (λ (l : ℕ). m.decoded.address % l) (sym same)
          ∙ ap (λ z. z.line_offset) a;
    }

validate_mapping-Redecoded :
    (m : CacheLineMapping) (d : DecodedCacheAddress)
    → Redecoded m d
    → validate_mapping m ≡ ok tt
    → validate_mapping (record m { decoded = d }) ≡ ok tt
unfolding validate_mapping
validate_mapping-Redecoded m d r v = rw r.address v

same_provenance-Redecoded :
    (m : CacheLineMapping) (d : DecodedCacheAddress)
    → Redecoded m d
    → same_provenance m (record m { decoded = d }) ≡ true
unfolding same_provenance same_source
same_provenance-Redecoded m d r =
    ground
      (arith, r.address, r.block, r.offset, eq_refl m.object_id, same_operation_refl m.operation)

-- What the last level is seen to do after the first level is what the event is expected to name.
propagate-expected :
    (p : Platform) (c : Clock) (t : StreamingHierarchyTask) (m : CacheLineMapping)
    (seen : CsrdObservation) (f : Propagation)
    → t.hierarchy.l1.geometry.line_size ≡ t.hierarchy.llc.geometry.line_size
    → decode_cache_address m.decoded.address t.hierarchy.l1.geometry ≡ ok m.decoded
    → validate_mapping m ≡ ok tt
    → propagate p c t m seen.outcome ≡ ok f
    → expected_service (event_of m seen f.seen f.service) ≡ ok f.service
unfolding propagate expected_service expected_after_miss event_of streaming_lru_result
propagate-expected p c t m seen f same first v h = elim (Bool-cases (is_hit seen.outcome)) [
  | inl e ↦
      let f' : f ≡ record { llc = t.llc; seen = none; service = at_l1 } = ground (arith, e, h) in
      rw f' (ground (arith, e))
  | inr e ↦
      let h' : (decode_cache_address m.decoded.address t.hierarchy.llc.geometry >>= λ address.
      Exact.observe p c t.llc address >>= λ (llc, seen). ok (record {
        llc = llc;
        seen = some (address, seen);
        service = if is_hit seen.outcome then at_llc else at_memory;
      }))
          ≡ ok f =
        ground (arith, e, h) in
      let (address, decoded, h₁) =
        >>=-eq-ok (decode_cache_address m.decoded.address t.hierarchy.llc.geometry) _ h' in
      let ((llc, last), observed, h₂) = >>=-eq-ok (Exact.observe p c t.llc address) _ h₁ in
      let r =
        decode-Redecoded m t.hierarchy.l1.geometry t.hierarchy.llc.geometry address same first
          decoded in
      let reported = observe-valid p c t.llc llc address last observed in
      let row = validate_mapping-Redecoded m address r v in
      let f' = sym (ok-injective h₂) in
      rw f' (ground (arith, e, reported, row, same_provenance-Redecoded m address r))
]

same_service_refl : (s : FirstServiceLevel) → same_service s s ≡ true
same_service_refl at_l1 = refl
same_service_refl at_llc = refl
same_service_refl at_memory = refl

event_of-valid :
    (m : CacheLineMapping) (seen : CsrdObservation)
    (last : Option (DecodedCacheAddress × CsrdObservation)) (service : FirstServiceLevel)
    → validate_mapping m ≡ ok tt
    → validate_observation (streaming_lru_result seen) ≡ ok tt
    → expected_service (event_of m seen last service) ≡ ok service
    → validate_event (event_of m seen last service) ≡ ok tt
unfolding validate_event event_of
event_of-valid m seen none service v o e = ground (arith, v, o, e, same_service_refl service)
event_of-valid m seen (some (a, l)) service v o e =
    ground (arith, v, o, e, same_service_refl service)

-- The event of an observed line, of levels with equal lines, passes the check of an event.
pub event-valid :
    (p : Platform) (c1 c2 : Clock) (t : StreamingHierarchyTask) (l1 : ExactCsrdAnalyzer)
    (m : CacheLineMapping) (seen : CsrdObservation) (f : Propagation)
    → t.hierarchy.l1.geometry.line_size ≡ t.hierarchy.llc.geometry.line_size
    → decode_cache_address m.decoded.address t.hierarchy.l1.geometry ≡ ok m.decoded
    → validate_mapping m ≡ ok tt
    → Exact.observe p c1 t.l1 m.decoded ≡ ok (l1, seen)
    → propagate p c2 t m seen.outcome ≡ ok f
    → validate_event (event_of m seen f.seen f.service) ≡ ok tt
event-valid p c1 c2 t l1 m seen f same decoded v first forwarded =
    event_of-valid m seen f.seen f.service v (observe-valid p c1 t.l1 l1 m.decoded seen first)
      (propagate-expected p c2 t m seen f same decoded v forwarded)
