-- ===== src/Trace/Access/Extent.antt =====
-- backend/src/trace/access/access_resolver.cpp: a resolved access lies in its object, and can be
-- mapped to cache lines.
use Prim.Native.String.{String}
use text.Mathlib.Text.{◌==◌ as str_eq, starts_with}
use text.Mathlib.TextEquality.{eq_iff}
use yet_another_reuse_distan.Prelude.{
  ℕ, ◌+◌, ◌-◌, ◌%◌, ◌^◌, ◌≤◌, ◌<◌, ◌≡◌, refl, sym, ◌⊎◌, inl, inr, Bool, true, false, not, List, [],
  ◌∷◌, Option, none, some, arith, ltb, leb, Option-cases, Bool-cases,
}
use mathlib.Core.Path.{subst}
use yet_another_reuse_distan.Mapping.Types.{AccessOperation, load, store}
use yet_another_reuse_distan.Mapping.Resolved.{ResolvedAccess, range_of}
use yet_another_reuse_distan.Mapping.LineMapping.Rows.{IsRange}
use yet_another_reuse_distan.Rd.Arithmetic.{u64_max}
use yet_another_reuse_distan.Hierarchy.Types.{TraceCoverage}
use yet_another_reuse_distan.Trace.Loop.{ℤ}
use yet_another_reuse_distan.Trace.Layout.{ByteAccess, resolve}
use yet_another_reuse_distan.Trace.Access.{
  Verdict, reject, accept, reject_if, ◌>>=◌, ObjectAddress, ObjectAddressModel, find_object,
  AccessNode, PreparedAccessPlan, PreparedAccess, AccessLayouts, object_of, check_node,
  operation_of, check_kind, caught, bytes_of, place, object_or_reject, resolve_first,
  resolve_planned, resolved, resolve_access, conclude, unsupported, unresolved, has_invalid_indices,
}

abbrev pub IsLoadStore : AccessOperation → Type 0
IsLoadStore operation = (operation ≡ load) ⊎ (operation ≡ store)

-- A plan is of an object of the model.
pub record Planned (model : ObjectAddressModel) (plan : PreparedAccessPlan) : Type 0 where
  pub object : find_object plan.object_id model.objects ≡ some plan.object
  pub basis : plan.basis ≡ model.basis
  pub operation : IsLoadStore plan.operation
  pub named : str_eq plan.object_id "" ≡ false

-- The access is of so many bytes of an object of the model, from an offset on.
pub record Located (model : ObjectAddressModel) (a : ResolvedAccess) : Type 0 where
  pub object : ObjectAddress
  pub found : find_object a.object_id model.objects ≡ some object
  pub inside : a.object_byte_offset + a.access_size ≤ object.size
  pub address : a.linked_byte_address ≡ object.base + a.object_byte_offset
  pub basis : a.address_basis ≡ model.basis
  pub operation : IsLoadStore a.operation
  pub range : IsRange (range_of a)

abbrev pub IsPlanned : ObjectAddressModel → Option PreparedAccessPlan → Type 0
IsPlanned model none = Unit {0}
IsPlanned model (some plan) = Planned model plan

>>=-eq-accept :
    {A B : Type 0} (m : Verdict A) (next : A → Verdict B) {b : B}
    → (m >>= next) ≡ accept b
    → (a : A) × (m ≡ accept a) × (next a ≡ accept b)
>>=-eq-accept (accept a) next h = (a, refl, h)
>>=-eq-accept (reject category) next h = cc

accept-injective : {A : Type 0} {a b : A} → accept a ≡ accept b → a ≡ b
accept-injective h = cc

-- The sizes of the objects are 64-bit numbers.
unfoldable pub AllWords : List (String × ObjectAddress) → Type 0
AllWords [] = Unit {0}
AllWords ((name, object) ∷ objects) = (object.size ≤ u64_max) × AllWords objects

find_object-word :
    (id : String) (objects : List (String × ObjectAddress)) {object : ObjectAddress}
    → AllWords objects
    → find_object id objects ≡ some object
    → object.size ≤ u64_max
unfolding AllWords find_object
find_object-word id [] w h = cc
find_object-word id ((name, o) ∷ objects) {object} (w, ws) h = elim (Bool-cases (str_eq id name)) [
  | inl same ↦ let e : o ≡ object = ground (arith, same, h) in subst (λ z. z.size ≤ u64_max) e w
  | inr other ↦ find_object-word id objects {object = object} ws (ground (arith, other, h))
]

-- What `place` lets through.
place-eq :
    (plan : PreparedAccessPlan) (offset size ordinal : ℕ) (a : ResolvedAccess)
    → place plan offset size ordinal ≡ accept a
    → (record {
      object_id = plan.object_id;
      object_byte_offset = offset;
      access_size = size;
      linked_byte_address = plan.object.base + offset;
      address_basis = plan.basis;
      operation = plan.operation;
      source_access_ordinal = ordinal;
    }
        ≡ a)
      × (leb plan.object.size offset ≡ false)
      × (ltb (plan.object.size - offset) size ≡ false)
      × (ltb (u64_max - offset) plan.object.base ≡ false)
      × (ltb (u64_max - (plan.object.base + offset)) (size - 1) ≡ false)
unfolding place
place-eq plan offset size ordinal a h =
    (ground arith, ground arith, ground arith, ground arith, ground arith)

bytes_of-pos :
    (access : Option ByteAccess) (offset size : ℕ)
    → bytes_of access ≡ accept (offset, size)
    → 0 < size
unfolding bytes_of
bytes_of-pos access offset size h = ground arith

place-Located :
    (model : ObjectAddressModel) (plan : PreparedAccessPlan) (offset size ordinal : ℕ)
    (a : ResolvedAccess)
    → AllWords model.objects
    → Planned model plan
    → 0 < size
    → place plan offset size ordinal ≡ accept a
    → Located model a × (a.source_access_ordinal ≡ ordinal)
unfolding range_of
place-Located model plan offset size ordinal a w p positive h =
    let (same, starts, ends, linked, last) = place-eq plan offset size ordinal a h in
    let small = find_object-word plan.object_id model.objects w p.object in
    let below : offset < plan.object.size = ground (arith, starts) in
    let within : offset + size ≤ plan.object.size = ground (arith, below, ends) in
    let no_wrap : plan.object.base + offset ≤ u64_max = ground (arith, small, below, linked) in
    let last_byte : plan.object.base + offset + (size - 1) ≤ u64_max =
      ground (arith, no_wrap, last) in
    subst (λ z. Located model z × (z.source_access_ordinal ≡ ordinal)) same
      (
        record {
          object = plan.object;
          found = p.object;
          inside = within;
          address = refl;
          basis = p.basis;
          operation = p.operation;
          range = record {
            named = p.named;
            positive = positive;
            linked = last_byte;
            object = omega (arith, last_byte);
          };
        },
        refl,
      )

resolve_planned-Located :
    (model : ObjectAddressModel) (plan plan' : PreparedAccessPlan) (values : List ℤ)
    (exact_indices : Bool) (ordinal : ℕ) (a : ResolvedAccess)
    → AllWords model.objects
    → Planned model plan
    → resolve_planned plan values exact_indices ordinal ≡ accept (a, plan')
    → Located model a × (a.source_access_ordinal ≡ ordinal) × Planned model plan'
unfolding resolve_planned
resolve_planned-Located model plan plan' values exact_indices ordinal a w p h =
    let (_, exact, h₁) = >>=-eq-accept (reject_if (not exact_indices) unsupported) _ h in
    let (access, caught_access, h₂) = >>=-eq-accept (caught (resolve plan.layout values)) _ h₁ in
    let ((offset, size), bytes, h₃) = >>=-eq-accept (bytes_of access) _ h₂ in
    let (found, placed, h₄) = >>=-eq-accept (place plan offset size ordinal) _ h₃ in
    let (located, stamped) =
      place-Located model plan offset size ordinal found w p (bytes_of-pos access offset size bytes)
        placed in
    subst
      (λ (z : ResolvedAccess × PreparedAccessPlan).
        Located model z.0 × (z.0.source_access_ordinal ≡ ordinal) × Planned model z.1)
      (accept-injective h₄) (located, stamped, p)

global_named : (id : String) → starts_with id "global::" ≡ true → str_eq id "" ≡ false
global_named id h = elim (Bool-cases (str_eq id "")) [
  | inl empty ↦
      let e : id ≡ "" = (eq_iff id "").0 empty in
      let stop : starts_with "" "global::" ≡ true =
        subst (λ z. starts_with z "global::" ≡ true) e h in
      cc stop
  | inr named ↦ named
]

operation_of-ok :
    (op : Option String) (operation : AccessOperation)
    → operation_of op ≡ accept operation
    → IsLoadStore operation
unfolding operation_of
operation_of-ok none operation h = cc
operation_of-ok (some op) operation h = elim (Bool-cases (str_eq op "load")) [
  | inl loads ↦ inl (ground (arith, loads, h))
  | inr other ↦ inr (ground (arith, other, h))
]

check_node-ok :
    (node : AccessNode) (operation : AccessOperation)
    → check_node node ≡ accept operation
    → IsLoadStore operation × (str_eq (object_of node) "" ≡ false)
unfolding check_node
check_node-ok node operation h =
    let (_, global, h₁) =
      >>=-eq-accept (reject_if (not (starts_with (object_of node) "global::")) unsupported) _ h in
    let (_, indexed, h₂) = >>=-eq-accept (reject_if (has_invalid_indices node) unresolved) _ h₁ in
    (operation_of-ok node.op operation h₂, global_named (object_of node) (ground (arith, global)))

object_found :
    (o : Option ObjectAddress) (object : ObjectAddress)
    → object_or_reject o ≡ accept object
    → o ≡ some object
unfolding object_or_reject
object_found none object h = cc
object_found (some o) object h = cc

resolve_first-Located :
    (layouts : AccessLayouts) (model : ObjectAddressModel) (node : AccessNode) (values : List ℤ)
    (exact_indices : Bool) (ordinal : ℕ) (a : ResolvedAccess) (plan : PreparedAccessPlan)
    → AllWords model.objects
    → resolve_first layouts model node values exact_indices ordinal ≡ accept (a, plan)
    → Located model a × (a.source_access_ordinal ≡ ordinal) × Planned model plan
unfolding resolve_first
resolve_first-Located layouts model node values exact_indices ordinal a plan w h =
    let (operation, checked, h₁) = >>=-eq-accept (check_node node) _ h in
    let (_, exact, h₂) = >>=-eq-accept (reject_if (not exact_indices) unsupported) _ h₁ in
    let (_, kind, h₃) = >>=-eq-accept (check_kind (layouts.object_kind (object_of node))) _ h₂ in
    let ((layout, access), prepared, h₄) =
      >>=-eq-accept (caught (layouts.prepare node values)) _ h₃ in
    let ((offset, size), bytes, h₅) = >>=-eq-accept (bytes_of access) _ h₄ in
    let (object, found, h₆) =
      >>=-eq-accept (object_or_reject (find_object (object_of node) model.objects)) _ h₅ in
    let fresh : PreparedAccessPlan = record {
      object_id = object_of node;
      operation = operation;
      object = object;
      basis = model.basis;
      layout = layout;
    } in
    let (placed, at, h₇) = >>=-eq-accept (place fresh offset size ordinal) _ h₆ in
    let (load_store, named) = check_node-ok node operation checked in
    let p : Planned model fresh = record {
      object = object_found _ object found;
      basis = refl;
      operation = load_store;
      named = named;
    } in
    let (located, stamped) =
      place-Located model fresh offset size ordinal placed w p
        (bytes_of-pos access offset size bytes) at in
    subst
      (λ (z : ResolvedAccess × PreparedAccessPlan).
        Located model z.0 × (z.0.source_access_ordinal ≡ ordinal) × Planned model z.1)
      (accept-injective h₇) (located, stamped, p)

conclude-eq :
    (prepared prepared' : PreparedAccess) (coverage coverage' : TraceCoverage) (a : ResolvedAccess)
    (verdict : Verdict (ResolvedAccess × PreparedAccessPlan))
    → conclude prepared coverage verdict ≡ resolved a prepared' coverage'
    → (plan : PreparedAccessPlan) × (verdict ≡ accept (a, plan))
      × (prepared'.plan ≡ some plan)
      × (coverage'
          ≡ record coverage { resolved_accesses = (coverage.resolved_accesses + 1) % 2 ^ 64 })
unfolding conclude
conclude-eq prepared prepared' coverage coverage' a (reject category) h = cc
conclude-eq prepared prepared' coverage coverage' a (accept (b, plan)) h =
    (plan, ground arith, ground arith, ground arith)

-- An access that is resolved, at its first visit or by the plan that an earlier one left, lies
-- inside an object of the model at the linked address of that object, is a load or a store with the
-- given ordinal, and is a range that can be mapped to cache lines; it is counted, and the plan that
-- is kept is again of the model.
pub resolve_access-Located :
    (layouts : AccessLayouts) (model : ObjectAddressModel) (node : AccessNode)
    (prepared prepared' : PreparedAccess) (exact_indices : Bool) (ordinal : ℕ)
    (coverage coverage' : TraceCoverage) (a : ResolvedAccess)
    → AllWords model.objects
    → IsPlanned model prepared.plan
    → resolve_access layouts model node prepared exact_indices ordinal coverage
      ≡ resolved a prepared' coverage'
    → Located model a
      × (a.source_access_ordinal ≡ ordinal)
      × IsPlanned model prepared'.plan
      × (coverage'
          ≡ record coverage { resolved_accesses = (coverage.resolved_accesses + 1) % 2 ^ 64 })
unfolding resolve_access
resolve_access-Located layouts model node prepared prepared' exact_indices ordinal coverage
      coverage' a w p h =
    elim (Option-cases prepared.plan) [
      | inl cold ↦
          let verdict =
            resolve_first layouts model node prepared.numeric_values exact_indices ordinal in
          let first : conclude prepared coverage verdict ≡ resolved a prepared' coverage' =
            ground (arith, cold, h) in
          let (plan, found, kept, counted) =
            conclude-eq prepared prepared' coverage coverage' a verdict first in
          let (located, stamped, planned) =
            resolve_first-Located layouts model node prepared.numeric_values exact_indices ordinal a
              plan w found in
          (located, stamped, subst (IsPlanned model) (sym kept) planned, counted)
      | inr (known, warm) ↦
          let verdict = resolve_planned known prepared.numeric_values exact_indices ordinal in
          let again : conclude prepared coverage verdict ≡ resolved a prepared' coverage' =
            ground (arith, warm, h) in
          let (plan, found, kept, counted) =
            conclude-eq prepared prepared' coverage coverage' a verdict again in
          let (located, stamped, planned) =
            resolve_planned-Located model known plan prepared.numeric_values exact_indices ordinal a
              w (subst (IsPlanned model) warm p) found in
          (located, stamped, subst (IsPlanned model) (sym kept) planned, counted)
    ]
