-- ===== src/Config/Termination.antt =====
-- The validation of a configuration always ends, with success or an invalid argument: the walk to
-- the memory has rounds enough, as it refuses a name that it has seen.
pub mod Walks
use Prim.Native.String.{String}
use text.Mathlib.Text.{◌==◌ as str_eq}
use text.Mathlib.TextEquality.{eq_iff}
use yet_another_reuse_distan.Prelude.{
  ℕ, zero, suc, ◌+◌, ◌/◌, ◌%◌, ltb, leb, ◌&&◌, ◌≤◌, ◌≡◌, ◌⊎◌, refl, sym, ap, Bool, true, false, not,
  ◌||◌, inl, inr, List, [], ◌∷◌, arith, length, Result, ok, throw, throw_if, ◌>>=◌,
  invalid_argument, ◌==◌, if◌then◌else◌, Bool-cases,
}
use mathlib.Core.Path.{subst}
use yet_another_reuse_distan.Bits.PowerOfTwo.{is_power_of_two}
use yet_another_reuse_distan.Mapping.Address.{CacheGeometry, validate, cache_set_count}
use yet_another_reuse_distan.Config.{
  HierarchyConfig, CacheConfig, CoreMapping, find_cache, find_cache_config, contains_name,
  is_outside, contains_id, is_private_to, is_empty, walk, validate_walks, validate_caches,
  validate_targets, validate_mappings, make_cache_geometry, validate_cache_config,
}
use yet_another_reuse_distan.Config.Termination.Walks.{
  Within-self, Within, check-Decided, names_of, Decided, >>=-Decided, throw_if-Decided,
  validate_walks-Decided, Within-more, find_cache-Decided,
}

validate-Decided : (g : CacheGeometry) → Decided (validate g)
unfolding validate
validate-Decided g =
    check-Decided
      (not (is_power_of_two g.line_size)
        || not (is_power_of_two g.line_count)
        || not (is_power_of_two g.associativity))
      _
      (throw_if-Decided
        (ltb g.line_count g.associativity || not (g.line_count % g.associativity == 0)))

cache_set_count-Decided : (g : CacheGeometry) → Decided (cache_set_count g)
unfolding cache_set_count
cache_set_count-Decided g =
    >>=-Decided (validate g) _ (validate-Decided g)
      (λ u e. inl (g.line_count / g.associativity, refl))

make_cache_geometry-Decided : (cache : CacheConfig) → Decided (make_cache_geometry cache)
unfolding make_cache_geometry
make_cache_geometry-Decided cache =
    let geometry : CacheGeometry = record {
      line_size = cache.line_size;
      line_count = cache.size_bytes / cache.line_size;
      associativity = cache.associativity;
    } in
    check-Decided (cache.size_bytes == 0 || cache.line_size == 0 || cache.associativity == 0) _ (
      check-Decided (not (cache.size_bytes % cache.line_size == 0)) _ (
        >>=-Decided (cache_set_count geometry) _ (cache_set_count-Decided geometry)
          (λ n e. inl (geometry, refl))))

validate_caches-Decided :
    (config : HierarchyConfig) (names : List String) (caches : List CacheConfig)
    → Decided (validate_caches config names caches)
unfolding validate_caches
validate_caches-Decided config names [] = inl (names, refl)
validate_caches-Decided config names (c ∷ caches) =
    check-Decided (str_eq c.name "" || str_eq c.role "") _ (
      check-Decided (str_eq c.name config.memory.name || contains_name c.name names) _ (
        check-Decided (is_outside config.num_cores c.private_to) _ (
          check-Decided (str_eq c.next "") _ (
            >>=-Decided (make_cache_geometry c) _ (make_cache_geometry-Decided c)
              (λ g e. validate_caches-Decided config (c.name ∷ names) caches)))))

validate_targets-Decided :
    (config : HierarchyConfig) (names : List String) (caches : List CacheConfig)
    → Decided (validate_targets config names caches)
unfolding validate_targets
validate_targets-Decided config names [] = inl (tt, refl)
validate_targets-Decided config names (c ∷ caches) =
    check-Decided (not (str_eq c.next config.memory.name) && not (contains_name c.next names)) _
      (validate_targets-Decided config names caches)

validate_mappings-Decided :
    (config : HierarchyConfig) (mapped : List ℕ) (mappings : List CoreMapping)
    → Decided (validate_mappings config mapped mappings)
unfolding validate_mappings find_cache_config
validate_mappings-Decided config mapped [] = inl (tt, refl)
validate_mappings-Decided config mapped (m ∷ mappings) =
    check-Decided (leb config.num_cores m.id || contains_id m.id mapped) _ (
      >>=-Decided (find_cache config.caches m.l1) _ (find_cache-Decided config.caches m.l1) (λ c e.
        check-Decided (not (str_eq c.role "L1") || not (is_private_to m.id c.private_to)) _
          (validate_mappings-Decided config (m.id ∷ mapped) mappings)))

-- The validation of a configuration succeeds or throws an invalid argument: the walks to the
-- memory never run out of rounds.
pub validate_cache_config-Decided :
    (config : HierarchyConfig)
    → ((u : Unit {0}) × (validate_cache_config config ≡ ok u))
      ⊎ (validate_cache_config config ≡ throw invalid_argument)
unfolding validate_cache_config
validate_cache_config-Decided config = check-Decided (not (config.schema_version == 1)) _ (
    check-Decided (config.num_cores == 0) _ (
      check-Decided (str_eq config.memory.name "") _ (
        check-Decided (is_empty config.caches) _ (
          >>=-Decided (validate_caches config [] config.caches) _
            (validate_caches-Decided config [] config.caches)
            (λ names e₁.
              >>=-Decided (validate_targets config names config.caches) _
                (validate_targets-Decided config names config.caches)
                (λ u e₂. check-Decided (not (length config.core_mappings == config.num_cores)) _ (
                  >>=-Decided (validate_mappings config [] config.core_mappings) _
                    (validate_mappings-Decided config [] config.core_mappings)
                    (λ v e₃.
                      validate_walks-Decided config config.caches
                        (Within-self config.caches)))))))))
