-- ===== src/Output/Events.antt =====
-- backend/src/cache/output/hierarchy_event_validation.cpp: the checks of retained events.
pub mod Observed
pub mod Provenance
pub mod Guarded
use Prim.Native.String.{String}
use text.Mathlib.Text.{◌==◌ as str_eq}
use yet_another_reuse_distan.Prelude.{
  ℕ, ◌-◌, min, Bool, true, false, not, ◌&&◌, ◌||◌, List, [], ◌∷◌, Option, none, some, ltb, leb,
  ◌==◌, length, Result, ok, throw, throw_if, ◌>>=◌, ◌>>◌, invalid_argument,
}
use yet_another_reuse_distan.Mapping.Types.{CacheLineMapping, AccessOperation, unknown, load, store}
use yet_another_reuse_distan.Mapping.LineMapping.{u64_max}
use yet_another_reuse_distan.Rd.Exact.{hit, cold_miss, replacement_miss}
use yet_another_reuse_distan.Hierarchy.Types.{
  LruAccessResult, HierarchyAccessEvent, FirstServiceLevel, at_l1, at_llc, at_memory,
}
use yet_another_reuse_distan.Hierarchy.Level.{is_hit}
use yet_another_reuse_distan.Hierarchy.Task.{HierarchyEventDelivery, is_absolute, is_known}
use yet_another_reuse_distan.Output.Identity.{Bytes, require_sha256}

abbrev pub is_some {ℓ} : {A : Type ℓ} → Option A → Bool
is_some none = false
is_some (some a) = true

unfoldable pub validate_observation : LruAccessResult → Result (Unit {0})
validate_observation observation = elim observation.outcome [
  | cold_miss ↦ throw_if (is_some observation.reuse_distance) invalid_argument
  | hit ↦ throw_if (not (is_some observation.reuse_distance)) invalid_argument
  | replacement_miss ↦ throw_if (not (is_some observation.reuse_distance)) invalid_argument
]

-- `==` on the enumerators
abbrev pub same_operation : AccessOperation → AccessOperation → Bool
same_operation unknown unknown = true
same_operation load load = true
same_operation store store = true
same_operation _ _ = false

abbrev pub same_service : FirstServiceLevel → FirstServiceLevel → Bool
same_service at_l1 at_l1 = true
same_service at_llc at_llc = true
same_service at_memory at_memory = true
same_service _ _ = false

unfoldable pub same_source : CacheLineMapping → CacheLineMapping → Bool
same_source left right =
    str_eq left.object_id right.object_id
    && left.source_object_byte_offset == right.source_object_byte_offset
    && left.source_linked_byte_address == right.source_linked_byte_address
    && left.source_access_size == right.source_access_size
    && left.source_access_ordinal == right.source_access_ordinal
    && same_operation left.operation right.operation

unfoldable pub validate_mapping : CacheLineMapping → Result (Unit {0})
unfolding is_absolute is_known
validate_mapping mapping =
    let base = mapping.source_linked_byte_address in
    let address = mapping.decoded.address in
    throw_if
      (str_eq mapping.object_id ""
        || not (is_absolute mapping.address_basis)
        || not (is_known mapping.operation)
        || mapping.source_access_size == 0
        || ltb address base
        || ltb (u64_max - base) (mapping.source_access_size - 1)
        || leb mapping.source_access_size (address - base)
        || ltb mapping.object_byte_offset mapping.source_object_byte_offset
        || not (mapping.object_byte_offset - mapping.source_object_byte_offset == address - base)
        || (mapping.line_span_ordinal == 0 && not (address == base)))
      invalid_argument

-- The rows of the two levels of one event differ at most in their sets and tags.
unfoldable pub same_provenance : CacheLineMapping → CacheLineMapping → Bool
unfolding same_source
same_provenance left right =
    same_source left right
    && left.line_span_ordinal == right.line_span_ordinal
    && left.object_byte_offset == right.object_byte_offset
    && left.decoded.address == right.decoded.address
    && left.decoded.block_number == right.decoded.block_number
    && left.decoded.line_offset == right.decoded.line_offset

-- The branch of a miss of the first level.
unfoldable pub expected_after_miss :
    CacheLineMapping → Option LruAccessResult → Option CacheLineMapping → Result FirstServiceLevel
unfolding validate_observation validate_mapping same_provenance
expected_after_miss left (some llc) (some right) = do
  validate_observation llc
  validate_mapping right
  throw_if (not (same_provenance left right)) invalid_argument
  ok (elim (is_hit llc.outcome) [ true ↦ at_llc | false ↦ at_memory ])
expected_after_miss left _ _ = throw invalid_argument

unfoldable pub expected_service : HierarchyAccessEvent → Result FirstServiceLevel
unfolding expected_after_miss
expected_service event = elim (is_hit event.l1.outcome) [
  | true ↦ do throw_if (is_some event.llc || is_some event.llc_mapping) invalid_argument; ok at_l1
  | false ↦ expected_after_miss event.l1_mapping event.llc event.llc_mapping
]

unfoldable pub validate_event : HierarchyAccessEvent → Result (Unit {0})
unfolding validate_mapping validate_observation expected_service
validate_event event = do
  validate_mapping event.l1_mapping
  validate_observation event.l1
  expected ← expected_service event
  throw_if (not (same_service event.first_service expected)) invalid_argument

unfoldable pub is_next : CacheLineMapping → CacheLineMapping → Bool
unfolding same_source
is_next previous current = elim (current.source_access_ordinal == previous.source_access_ordinal) [
  | true ↦
      same_source previous current
      && ltb previous.line_span_ordinal current.line_span_ordinal
      && current.line_span_ordinal - previous.line_span_ordinal == 1
      && ltb previous.decoded.address current.decoded.address
  | false ↦
      ltb previous.source_access_ordinal current.source_access_ordinal
      && current.source_access_ordinal - previous.source_access_ordinal == 1
      && current.line_span_ordinal == 0
]

unfoldable pub validate_next : CacheLineMapping → CacheLineMapping → Result (Unit {0})
unfolding is_next
validate_next previous current = throw_if (not (is_next previous current)) invalid_argument

pub record HierarchyEventRecord : Type 0 where
  pub task_id : String
  pub event : HierarchyAccessEvent

pub record HierarchyEventMetadata : Type 0 where
  pub analysis_id : Bytes
  pub event_limit : ℕ
  pub total_line_references : ℕ
  pub delivery : HierarchyEventDelivery

unfoldable pub has_task : String → List String → Bool
has_task id [] = false
has_task id (task ∷ tasks) = str_eq id task || has_task id tasks

-- The first event of a task.
unfoldable pub validate_first : HierarchyEventRecord → List String → Result (List String)
unfolding has_task
validate_first first tasks = do
  let mapping = first.event.l1_mapping
  throw_if
      (str_eq first.task_id ""
        || has_task first.task_id tasks
        || not (mapping.source_access_ordinal == 0)
        || not (mapping.line_span_ordinal == 0))
      invalid_argument
  ok (first.task_id ∷ tasks)

-- The check of one event against the one before; the names of the tasks so far are kept.
unfoldable pub validate_order :
    Option HierarchyEventRecord → HierarchyEventRecord → List String → Result (List String)
unfolding validate_first validate_next
validate_order none current tasks = validate_first current tasks
validate_order (some previous) current tasks = elim (str_eq current.task_id previous.task_id) [
  | false ↦ validate_first current tasks
  | true ↦ do validate_next previous.event.l1_mapping current.event.l1_mapping; ok tasks
]

unfoldable pub validate_records :
    Option HierarchyEventRecord → List String → List HierarchyEventRecord → Result (Unit {0})
unfolding validate_event validate_order
validate_records previous tasks [] = ok tt
validate_records previous tasks (current ∷ events) = do
  validate_event current.event
  tasks' ← validate_order previous current tasks
  validate_records (some current) tasks' events

-- `!=` on Booleans
abbrev pub differ : Bool → Bool → Bool
differ true b = not b
differ false b = b

unfoldable pub validate_hierarchy_events :
    HierarchyEventMetadata → List HierarchyEventRecord → Result (Unit {0})
unfolding require_sha256 validate_records
validate_hierarchy_events metadata events = do
  require_sha256 metadata.analysis_id
  let retained = min metadata.event_limit metadata.total_line_references
  throw_if
      (not (length events == retained)
        || not (metadata.delivery.emitted_events == retained)
        || differ metadata.delivery.events_truncated
            (ltb metadata.event_limit metadata.total_line_references))
      invalid_argument
  validate_records none [] events
