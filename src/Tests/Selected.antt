-- ===== src/Tests/Selected.antt =====
-- A configuration of one core, two caches and a memory.
use yet_another_reuse_distan.Prelude.{
  ◌⊎◌, throw, invalid_argument, ◌≡◌, refl, true, [], ◌∷◌, none, some, ok,
}
use yet_another_reuse_distan.Bits.PowerOfTwo.{is_power_of_two}
use yet_another_reuse_distan.Mapping.Address.{validate, cache_set_count}
use yet_another_reuse_distan.Hierarchy.Types.{AnalysisHierarchy}
use yet_another_reuse_distan.Config.{
  HierarchyConfig, CacheConfig, write_back, lru, validate_cache_config, select_analysis_hierarchy,
}
use yet_another_reuse_distan.Config
use yet_another_reuse_distan.Config.Termination.{validate_cache_config-Decided}
use yet_another_reuse_distan.Config.Selection.{
  Each, Reaches, Supported, validate_cache_config-Reaches, select_analysis_hierarchy-Supported,
}

abbrev pub first_level : CacheConfig
first_level = record {
  name = "L1_0";
  role = "L1";
  private_to = some 0;
  size_bytes = 128;
  line_size = 32;
  associativity = 2;
  replacement = lru;
  write_policy = write_back;
  write_allocate = true;
  delay_cycles = 1;
  next = "L2";
}

abbrev last_level : CacheConfig
last_level = record {
  name = "L2";
  role = "LLC";
  private_to = none;
  size_bytes = 256;
  line_size = 32;
  associativity = 4;
  replacement = lru;
  write_policy = write_back;
  write_allocate = true;
  delay_cycles = 9;
  next = "Memory";
}

abbrev config : HierarchyConfig
config = record {
  schema_version = 1;
  num_cores = 1;
  core_mappings = record { id = 0; l1 = "L1_0" } ∷ [];
  caches = first_level ∷ last_level ∷ [];
  memory = record { name = "Memory"; delay_cycles = 120 };
}

abbrev selected : AnalysisHierarchy
selected = record {
  core_id = 0;
  l1 = record {
    name = "L1_0";
    role = "L1";
    geometry = record { line_size = 32; line_count = 4; associativity = 2 };
  };
  llc = record {
    name = "L2";
    role = "LLC";
    geometry = record { line_size = 32; line_count = 8; associativity = 4 };
  };
  memory_name = "Memory";
}

config_is_valid : validate_cache_config config ≡ ok tt
unfolding validate_cache_config Config.validate_caches Config.validate_targets
    Config.validate_mappings Config.validate_walks Config.walk Config.is_empty Config.contains_name
    Config.contains_id Config.is_outside Config.is_private_to Config.find_cache
    Config.find_cache_config Config.make_cache_geometry cache_set_count validate is_power_of_two
config_is_valid = refl

config_selects : select_analysis_hierarchy config ≡ ok selected
unfolding select_analysis_hierarchy Config.entry_cache_config Config.find_mapping Config.is_shared
    Config.is_lru Config.require_supported validate_cache_config Config.validate_caches
    Config.validate_targets Config.validate_mappings Config.validate_walks Config.walk
    Config.is_empty Config.contains_name Config.contains_id Config.is_outside Config.is_private_to
    Config.find_cache Config.find_cache_config Config.make_cache_geometry cache_set_count validate
    is_power_of_two
config_selects = refl

validate_cache_config-Reaches_example : Each (Reaches config) (first_level ∷ last_level ∷ [])
validate_cache_config-Reaches_example = validate_cache_config-Reaches config config_is_valid

select_analysis_hierarchy-Supported_example :
    (validate_cache_config config ≡ ok tt) × Supported selected
select_analysis_hierarchy-Supported_example =
    select_analysis_hierarchy-Supported config selected config_selects

validate_cache_config-Decided_example :
    ((u : Unit {0}) × (validate_cache_config config ≡ ok u))
    ⊎ (validate_cache_config config ≡ throw invalid_argument)
validate_cache_config-Decided_example = validate_cache_config-Decided config
