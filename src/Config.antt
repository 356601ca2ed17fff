-- ===== src/Config.antt =====
-- backend/src/cache/config/cache_config.cpp and backend/src/cache/hierarchy/hierarchy_model.cpp: the
-- configured caches, and the two levels that are analyzed.
pub mod Selection
pub mod Termination
use Prim.Native.String.{String}
use text.Mathlib.Text.{◌==◌ as str_eq}
use yet_another_reuse_distan.Prelude.{
  ℕ, zero, suc, ◌+◌, ◌/◌, ◌%◌, Bool, true, false, not, ◌&&◌, ◌||◌, List, [], ◌∷◌, Option, none,
  some, ltb, leb, ◌==◌, if◌then◌else◌, length, Result, ok, throw, throw_if, ◌>>=◌, ◌>>◌,
  invalid_argument, logic_error,
}
use yet_another_reuse_distan.Mapping.Address.{CacheGeometry, cache_set_count}
use yet_another_reuse_distan.Hierarchy.Types.{AnalysisHierarchy}

pub data WritePolicy : Type 0 where
  write_back write_through : WritePolicy

pub data Replacement : Type 0 where
  lru fifo mru : Replacement

pub record CoreMapping : Type 0 where
  pub id : ℕ
  pub l1 : String

pub record CacheConfig : Type 0 where
  pub name : String
  pub role : String
  pub private_to : Option ℕ
  pub size_bytes : ℕ
  pub line_size : ℕ
  pub associativity : ℕ
  pub replacement : Replacement
  pub write_policy : WritePolicy
  pub write_allocate : Bool
  pub delay_cycles : ℕ
  pub next : String

pub record MemoryConfig : Type 0 where
  pub name : String
  pub delay_cycles : ℕ

pub record HierarchyConfig : Type 0 where
  pub schema_version : ℕ
  pub num_cores : ℕ
  pub core_mappings : List CoreMapping
  pub caches : List CacheConfig
  pub memory : MemoryConfig

unfoldable pub find_cache : List CacheConfig → String → Result CacheConfig
find_cache [] name = throw invalid_argument
find_cache (cache ∷ caches) name =
    if str_eq cache.name name then ok cache else find_cache caches name

unfoldable pub find_cache_config : HierarchyConfig → String → Result CacheConfig
unfolding find_cache
find_cache_config config name = find_cache config.caches name

-- The loop over the core mappings.
unfoldable pub find_mapping : List CoreMapping → ℕ → Result CoreMapping
find_mapping [] core = throw invalid_argument
find_mapping (mapping ∷ mappings) core =
    if mapping.id == core then ok mapping else find_mapping mappings core

unfoldable pub entry_cache_config : HierarchyConfig → ℕ → Result CacheConfig
unfolding find_mapping find_cache_config
entry_cache_config config core = do
  throw_if (leb config.num_cores core) invalid_argument
  mapping ← find_mapping config.core_mappings core
  find_cache_config config mapping.l1

unfoldable pub make_cache_geometry : CacheConfig → Result CacheGeometry
make_cache_geometry cache = do
  throw_if (cache.size_bytes == 0 || cache.line_size == 0 || cache.associativity == 0)
      invalid_argument
  throw_if (not (cache.size_bytes % cache.line_size == 0)) invalid_argument
  let geometry : CacheGeometry = record {
    line_size = cache.line_size;
    line_count = cache.size_bytes / cache.line_size;
    associativity = cache.associativity;
  }
  _ ← cache_set_count geometry
  ok geometry

unfoldable pub contains_name : String → List String → Bool
contains_name name [] = false
contains_name name (other ∷ names) = str_eq name other || contains_name name names

unfoldable pub is_outside : ℕ → Option ℕ → Bool
is_outside cores none = false
is_outside cores (some core) = leb cores core

-- The first loop; it returns the names.
unfoldable pub validate_caches :
    HierarchyConfig → List String → List CacheConfig → Result (List String)
unfolding contains_name is_outside make_cache_geometry
validate_caches config names [] = ok names
validate_caches config names (cache ∷ caches) = do
  throw_if (str_eq cache.name "" || str_eq cache.role "") invalid_argument
  throw_if (str_eq cache.name config.memory.name || contains_name cache.name names) invalid_argument
  throw_if (is_outside config.num_cores cache.private_to) invalid_argument
  throw_if (str_eq cache.next "") invalid_argument
  _ ← make_cache_geometry cache
  validate_caches config (cache.name ∷ names) caches

unfoldable pub validate_targets :
    HierarchyConfig → List String → List CacheConfig → Result (Unit {0})
unfolding contains_name
validate_targets config names [] = ok tt
validate_targets config names (cache ∷ caches) = do
  throw_if (not (str_eq cache.next config.memory.name) && not (contains_name cache.next names))
      invalid_argument
  validate_targets config names caches

unfoldable pub contains_id : ℕ → List ℕ → Bool
contains_id id [] = false
contains_id id (other ∷ ids) = id == other || contains_id id ids

unfoldable pub is_private_to : ℕ → Option ℕ → Bool
is_private_to core none = false
is_private_to core (some other) = other == core

-- The loop over the core mappings; `mapped` holds the cores whose bit is set.
unfoldable pub validate_mappings : HierarchyConfig → List ℕ → List CoreMapping → Result (Unit {0})
unfolding contains_id is_private_to find_cache_config
validate_mappings config mapped [] = ok tt
validate_mappings config mapped (mapping ∷ mappings) = do
  throw_if (leb config.num_cores mapping.id || contains_id mapping.id mapped) invalid_argument
  entry ← find_cache_config config mapping.l1
  throw_if (not (str_eq entry.role "L1") || not (is_private_to mapping.id entry.private_to))
      invalid_argument
  validate_mappings config (mapping.id ∷ mapped) mappings

-- The walk from one cache to the memory. A name that is looked up again throws, so that a round
-- for each cache and one more are enough.
unfoldable pub walk : ℕ → HierarchyConfig → List String → CacheConfig → Result (Unit {0})
unfolding contains_name find_cache_config
walk zero config visited current = throw logic_error
walk (suc fuel) config visited current = elim (str_eq current.next config.memory.name) [
  | true ↦ ok tt
  | false ↦ do
    throw_if (contains_name current.name visited) invalid_argument
    following ← find_cache_config config current.next
    walk fuel config (current.name ∷ visited) following
]

unfoldable pub validate_walks : HierarchyConfig → List CacheConfig → Result (Unit {0})
unfolding walk
validate_walks config [] = ok tt
validate_walks config (cache ∷ caches) = do
  walk (length config.caches + 2) config [] cache
  validate_walks config caches

unfoldable pub is_empty : List CacheConfig → Bool
is_empty [] = true
is_empty (cache ∷ caches) = false

unfoldable pub validate_cache_config : HierarchyConfig → Result (Unit {0})
unfolding validate_caches validate_targets validate_mappings validate_walks is_empty
validate_cache_config config = do
  throw_if (not (config.schema_version == 1)) invalid_argument
  throw_if (config.num_cores == 0) invalid_argument
  throw_if (str_eq config.memory.name "") invalid_argument
  throw_if (is_empty config.caches) invalid_argument
  names ← validate_caches config [] config.caches
  validate_targets config names config.caches
  throw_if (not (length config.core_mappings == config.num_cores)) invalid_argument
  validate_mappings config [] config.core_mappings
  validate_walks config config.caches

unfoldable pub is_lru : Replacement → Bool
is_lru lru = true
is_lru _ = false

unfoldable pub is_shared : Option ℕ → Bool
is_shared none = true
is_shared (some core) = false

-- The loop over the two selected caches.
unfoldable pub require_supported : CacheConfig → Result (Unit {0})
unfolding is_lru
require_supported cache = do
  throw_if (not (is_lru cache.replacement)) invalid_argument
  throw_if (not cache.write_allocate) invalid_argument

unfoldable pub select_analysis_hierarchy : HierarchyConfig → Result AnalysisHierarchy
unfolding validate_cache_config entry_cache_config require_supported is_shared
select_analysis_hierarchy config = do
  validate_cache_config config
  l1 ← entry_cache_config config 0
  throw_if (str_eq l1.next config.memory.name) invalid_argument
  llc ← find_cache_config config l1.next
  throw_if (not (str_eq llc.role "LLC")) invalid_argument
  throw_if (not (is_shared llc.private_to)) invalid_argument
  throw_if (not (str_eq llc.next config.memory.name)) invalid_argument
  require_supported l1
  require_supported llc
  throw_if (not (l1.line_size == llc.line_size)) invalid_argument
  first ← make_cache_geometry l1
  last ← make_cache_geometry llc
  ok (record {
    core_id = 0;
    l1 = record { name = l1.name; role = l1.role; geometry = first };
    llc = record { name = llc.name; role = llc.role; geometry = last };
    memory_name = config.memory.name;
  })
