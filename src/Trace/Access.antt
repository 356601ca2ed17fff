-- ===== src/Trace/Access.antt =====
-- backend/src/trace/access/access_resolver.cpp and prepared_access.hpp: the bytes that an access
-- touches, in the object of the linked program. A node is what the source reads of its JSON; the
-- metadata of layouts are parameters; the messages of errors are dropped.
pub mod Extent
use Prim.Native.String.{String}
use text.Mathlib.Text.{◌==◌ as str_eq, starts_with}
use yet_another_reuse_distan.Prelude.{
  ℕ, ◌+◌, ◌-◌, ◌%◌, ◌^◌, Bool, true, false, not, ◌&&◌, ◌||◌, List, [], ◌∷◌, Option, none, some, ltb,
  leb, ◌==◌, if◌then◌else◌, Result, ok, throw, invalid_argument,
}
use yet_another_reuse_distan.Mapping.Types.{AddressBasis, AccessOperation, load, store}
use yet_another_reuse_distan.Mapping.Resolved.{ResolvedAccess}
use yet_another_reuse_distan.Rd.Arithmetic.{u64_max}
use yet_another_reuse_distan.Hierarchy.Types.{TraceCoverage}
use yet_another_reuse_distan.Trace.Loop.{ℤ, pos, negsuc}
use yet_another_reuse_distan.Trace.Layout.{ByteAccess, PreparedLayout, resolve}
use yet_another_reuse_distan.Trace.Stream.{Resolve}

pub data ResolutionCategory : Type 0 where
  unsupported unresolved : ResolutionCategory

pub data Verdict (A : Type 0) : Type 0 where
  reject : ResolutionCategory → Verdict A
  accept : A → Verdict A

infixl 5 ◌>>=◌ ◌>>◌
abbrev pub ◌>>=◌ : {A B : Type 0} → Verdict A → (A → Verdict B) → Verdict B
reject category >>= next = reject category
accept a >>= next = next a

abbrev pub ◌>>◌ : {B : Type 0} → Verdict (Unit {0}) → Verdict B → Verdict B
check >> rest = check >>= λ _. rest

-- `if (bad) reject(category, …);`
abbrev pub reject_if : Bool → ResolutionCategory → Verdict (Unit {0})
reject_if true category = reject category
reject_if false category = accept tt

pub record ObjectAddress : Type 0 where
  pub base : ℕ
  pub size : ℕ

pub record ObjectAddressModel : Type 0 where
  pub basis : AddressBasis
  pub objects : List (String × ObjectAddress)

unfoldable pub find_object : String → List (String × ObjectAddress) → Option ObjectAddress
find_object id [] = none
find_object id ((name, object) ∷ objects) =
    if str_eq id name then some object else find_object id objects

-- The `indices` of a node: absent, no array, or an array of so many.
pub data NodeIndices : Type 0 where
  absent other : NodeIndices
  array : ℕ → NodeIndices

pub record AccessNode : Type 0 where
  pub object : Option String
  pub node_type : String
  pub indices : NodeIndices
  pub op : Option String

pub record PreparedAccessPlan : Type 0 where
  pub object_id : String
  pub operation : AccessOperation
  pub object : ObjectAddress
  pub basis : AddressBasis
  pub layout : PreparedLayout

pub record PreparedAccess : Type 0 where
  pub numeric_values : List ℤ
  pub plan : Option PreparedAccessPlan

-- The metadata of objects, and the layout of a node with its bytes, or an error of the metadata.
pub record AccessLayouts : Type 0 where
  pub object_kind : String → Option String
  pub prepare : AccessNode → List ℤ → Result (PreparedLayout × Option ByteAccess)

abbrev pub object_of : AccessNode → String
object_of node = elim node.object [ none ↦ "" | some id ↦ id ]

unfoldable pub has_invalid_indices : AccessNode → Bool
has_invalid_indices node =
    str_eq node.node_type "Scalar"
    && elim node.indices [ absent ↦ false | other ↦ true | array count ↦ ltb 0 count ]

unfoldable pub operation_of : Option String → Verdict AccessOperation
operation_of none = reject unresolved
operation_of (some op) =
    if str_eq op "load"
    then accept load
    else if str_eq op "store"
    then accept store
    else reject unsupported

-- The checks of a node that has no plan yet.
unfoldable pub check_node : AccessNode → Verdict AccessOperation
unfolding has_invalid_indices operation_of
check_node node = do
  reject_if (not (starts_with (object_of node) "global::")) unsupported
  reject_if (has_invalid_indices node) unresolved
  operation_of node.op

unfoldable pub check_kind : Option String → Verdict (Unit {0})
check_kind none = reject unresolved
check_kind (some kind) = do
  reject_if (str_eq kind "") unresolved
  reject_if (str_eq kind "pointer") unsupported
  reject_if (not (str_eq kind "array") && not (str_eq kind "scalar") && not (str_eq kind "struct"))
      unsupported

-- A layout throws an invalid argument or an error of the JSON library, and either rejects the
-- access.
abbrev pub caught : {A : Type 0} → Result A → Verdict A
caught (ok a) = accept a
caught (throw e) = reject unresolved

-- A byte offset and a size above zero.
unfoldable pub bytes_of : Option ByteAccess → Verdict (ℕ × ℕ)
bytes_of none = reject unresolved
bytes_of (some access) = elim access.offset [
  | negsuc n ↦ reject unresolved
  | pos offset ↦ elim access.size [
    | negsuc n ↦ reject unresolved
    | pos size ↦ if size == 0 then reject unresolved else accept (offset, size)
  ]
]

-- The checks against the extent of the object and the end of the address space.
unfoldable pub place : PreparedAccessPlan → ℕ → ℕ → ℕ → Verdict ResolvedAccess
place plan offset size ordinal =
    let address = plan.object.base + offset in
    do
      reject_if (leb plan.object.size offset || ltb (plan.object.size - offset) size) unresolved
      reject_if (ltb (u64_max - offset) plan.object.base) unresolved
      reject_if (ltb (u64_max - address) (size - 1)) unresolved
      accept (record {
        object_id = plan.object_id;
        object_byte_offset = offset;
        access_size = size;
        linked_byte_address = address;
        address_basis = plan.basis;
        operation = plan.operation;
        source_access_ordinal = ordinal;
      })

unfoldable pub object_or_reject : Option ObjectAddress → Verdict ObjectAddress
object_or_reject none = reject unresolved
object_or_reject (some object) = accept object

-- The first resolution of a node, with the plan that it leaves.
unfoldable pub resolve_first :
    AccessLayouts
    → ObjectAddressModel
    → AccessNode
    → List ℤ
    → Bool
    → ℕ
    → Verdict (ResolvedAccess × PreparedAccessPlan)
unfolding find_object check_node check_kind bytes_of place object_or_reject
resolve_first layouts model node values exact_indices ordinal = do
  operation ← check_node node
  reject_if (not exact_indices) unsupported
  check_kind (layouts.object_kind (object_of node))
  (layout, access) ← caught (layouts.prepare node values)
  (offset, size) ← bytes_of access
  object ← object_or_reject (find_object (object_of node) model.objects)
  let plan : PreparedAccessPlan = record {
    object_id = object_of node;
    operation = operation;
    object = object;
    basis = model.basis;
    layout = layout;
  }
  resolved ← place plan offset size ordinal
  accept (resolved, plan)

-- The resolution of a node that has a plan.
unfoldable pub resolve_planned :
    PreparedAccessPlan → List ℤ → Bool → ℕ → Verdict (ResolvedAccess × PreparedAccessPlan)
unfolding bytes_of place
resolve_planned plan values exact_indices ordinal = do
  reject_if (not exact_indices) unsupported
  access ← caught (resolve plan.layout values)
  (offset, size) ← bytes_of access
  resolved ← place plan offset size ordinal
  accept (resolved, plan)

pub data Resolution : Type 0 where
  rejected : ResolutionCategory → TraceCoverage → Resolution
  resolved : ResolvedAccess → PreparedAccess → TraceCoverage → Resolution

-- The counts, and the plan that is kept of a success.
unfoldable pub conclude :
    PreparedAccess → TraceCoverage → Verdict (ResolvedAccess × PreparedAccessPlan) → Resolution
conclude prepared coverage (reject category) =
    rejected category
      (record coverage { rejected_accesses = (coverage.rejected_accesses + 1) % 2 ^ 64 })
conclude prepared coverage (accept (access, plan)) =
    resolved access (record prepared { plan = some plan })
      (record coverage { resolved_accesses = (coverage.resolved_accesses + 1) % 2 ^ 64 })

unfoldable pub resolve_access :
    AccessLayouts
    → ObjectAddressModel
    → AccessNode
    → PreparedAccess
    → Bool
    → ℕ
    → TraceCoverage
    → Resolution
unfolding resolve_first resolve_planned conclude
resolve_access layouts model node prepared exact_indices ordinal coverage = elim prepared.plan [
  | none ↦
      conclude prepared coverage
        (resolve_first layouts model node prepared.numeric_values exact_indices ordinal)
  | some plan ↦
      conclude prepared coverage
        (resolve_planned plan prepared.numeric_values exact_indices ordinal)
]

-- An access that is met: its node, what was prepared for it, and whether its indices are exact.
pub record Met : Type 0 where
  pub node : AccessNode
  pub prepared : PreparedAccess
  pub exact_indices : Bool

-- The resolution that the unroller of the source stream calls; a rejection is thrown.
unfoldable pub resolver : AccessLayouts → ObjectAddressModel → Resolve Met
unfolding resolve_access
resolver layouts model met task_id ordinal coverage =
    elim (resolve_access layouts model met.node met.prepared met.exact_indices ordinal coverage) [
      | rejected category counted ↦ throw invalid_argument
      | resolved access prepared counted ↦ ok (access, counted)
    ]
