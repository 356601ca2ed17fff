-- ===== src/Config/Selection.antt =====
-- What a configuration that is selected has, and what its walks reach.
use Prim.Native.String.{String}
use text.Mathlib.Text.{◌==◌ as str_eq}
use yet_another_reuse_distan.Prelude.{
  ℕ, zero, suc, ◌+◌, ◌*◌, ◌/◌, ◌%◌, ◌≡◌, ◌||◌, refl, sym, ap, ◌∙◌, Bool, true, false, not, inl, inr,
  List, [], ◌∷◌, arith, length, ok, throw_if, ◌>>=◌, ◌>>◌, invalid_argument, ◌==◌, Bool-cases,
  >>=-eq-ok, ok-injective,
}
use mathlib.Core.Path.{subst}
use native.Mathlib.Nat.{div-add-mod'}
use yet_another_reuse_distan.Mapping.Address.{CacheGeometry, cache_set_count}
use yet_another_reuse_distan.Hierarchy.Types.{AnalysisHierarchy}
use yet_another_reuse_distan.Config.{
  HierarchyConfig, CacheConfig, find_cache_config, walk, contains_name, validate_walks,
  make_cache_geometry, is_empty, validate_caches, validate_targets, validate_mappings,
  validate_cache_config, entry_cache_config, is_shared, require_supported,
  select_analysis_hierarchy,
}

-- The memory is reached from a cache by following the `next` names.
pub data Reaches (config : HierarchyConfig) : CacheConfig → Type 0 where
  last : {c : CacheConfig} → str_eq c.next config.memory.name ≡ true → Reaches config c
  step :
      {c d : CacheConfig}
      → find_cache_config config c.next ≡ ok d
      → Reaches config d
      → Reaches config c

pub walk-Reaches :
    (fuel : ℕ) (config : HierarchyConfig) (visited : List String) (c : CacheConfig) {u : Unit {0}}
    → walk fuel config visited c ≡ ok u
    → Reaches config c
unfolding walk
walk-Reaches zero config visited c {u} h = cc
walk-Reaches (suc fuel) config visited c {u} h =
    elim (Bool-cases (str_eq c.next config.memory.name)) [
      | inl e ↦ last e
      | inr e ↦
          let go : (throw_if (contains_name c.name visited) invalid_argument
                >> (find_cache_config config c.next >>= λ d. walk fuel config (c.name ∷ visited) d))
              ≡ ok u =
            ground (arith, e, h) in
          let (v, fresh, h₁) =
            >>=-eq-ok (throw_if (contains_name c.name visited) invalid_argument) _ go in
          let (d, found, h₂) = >>=-eq-ok (find_cache_config config c.next) _ h₁ in
          step found (walk-Reaches fuel config (c.name ∷ visited) d h₂)
    ]

unfoldable pub Each : (CacheConfig → Type 0) → List CacheConfig → Type 0
Each P [] = Unit {0}
Each P (c ∷ caches) = P c × Each P caches

pub validate_walks-Reaches :
    (config : HierarchyConfig) (caches : List CacheConfig) {u : Unit {0}}
    → validate_walks config caches ≡ ok u
    → Each (Reaches config) caches
unfolding validate_walks Each
validate_walks-Reaches config [] h = tt
validate_walks-Reaches config (c ∷ caches) h =
    let (u, walked, h₁) = >>=-eq-ok (walk (length config.caches + 2) config [] c) _ h in
    (
      walk-Reaches (length config.caches + 2) config [] c walked,
      validate_walks-Reaches config caches h₁,
    )

-- Following the `next` names from any cache of an accepted configuration ends at the memory.
pub validate_cache_config-Reaches :
    (config : HierarchyConfig)
    → validate_cache_config config ≡ ok tt
    → Each (Reaches config) config.caches
unfolding validate_cache_config
validate_cache_config-Reaches config h =
    let (u₁, p₁, h₁) =
      >>=-eq-ok (throw_if (not (config.schema_version == 1)) invalid_argument) _ h in
    let (u₂, p₂, h₂) = >>=-eq-ok (throw_if (config.num_cores == 0) invalid_argument) _ h₁ in
    let (u₃, p₃, h₃) = >>=-eq-ok (throw_if (str_eq config.memory.name "") invalid_argument) _ h₂ in
    let (u₄, p₄, h₄) = >>=-eq-ok (throw_if (is_empty config.caches) invalid_argument) _ h₃ in
    let (names, p₅, h₅) = >>=-eq-ok (validate_caches config [] config.caches) _ h₄ in
    let (u₆, p₆, h₆) = >>=-eq-ok (validate_targets config names config.caches) _ h₅ in
    let (u₇, p₇, h₇) =
      >>=-eq-ok (throw_if (not (length config.core_mappings == config.num_cores)) invalid_argument)
        _ h₆ in
    let (u₈, p₈, h₈) = >>=-eq-ok (validate_mappings config [] config.core_mappings) _ h₇ in
    validate_walks-Reaches config config.caches h₈

pub geometry_of :
    (cache : CacheConfig) (g : CacheGeometry)
    → make_cache_geometry cache ≡ ok g
    → (g.line_size ≡ cache.line_size)
      × ((n : ℕ) × (cache_set_count g ≡ ok n))
      × (cache.size_bytes ≡ g.line_count * g.line_size)
unfolding make_cache_geometry
geometry_of cache g h =
    let (u₁, p₁, h₁) =
      >>=-eq-ok
        (throw_if (cache.size_bytes == 0 || cache.line_size == 0 || cache.associativity == 0)
          invalid_argument)
        _ h in
    let (u₂, p₂, h₂) =
      >>=-eq-ok (throw_if (not (cache.size_bytes % cache.line_size == 0)) invalid_argument) _ h₁ in
    let made : CacheGeometry = record {
      line_size = cache.line_size;
      line_count = cache.size_bytes / cache.line_size;
      associativity = cache.associativity;
    } in
    let whole : cache.size_bytes % cache.line_size ≡ 0 = ground (arith, p₂) in
    let (n, counted, h₃) = >>=-eq-ok (cache_set_count made) _ h₂ in
    let e = ok-injective h₃ in
    (
      sym (ap (λ k. k.line_size) e),
      (n, subst (λ k. cache_set_count k ≡ ok n) e counted),
      subst (λ k. cache.size_bytes ≡ k.line_count * k.line_size) e
          (omega (arith, div-add-mod' cache.size_bytes cache.line_size, whole)),
    )

required : (b : Bool) {u : Unit {0}} → throw_if (not b) invalid_argument ≡ ok u → b ≡ true
required true h = refl
required false h = cc

required_equal : (a b : ℕ) {u : Unit {0}} → throw_if (not (a == b)) invalid_argument ≡ ok u → a ≡ b
required_equal a b h = ground (arith, h)

-- What the analysis asks of the hierarchy that it is given.
pub record Supported (h : AnalysisHierarchy) : Type 0 where
  pub core : h.core_id ≡ 0
  pub l1_sets : (n : ℕ) × (cache_set_count h.l1.geometry ≡ ok n)
  pub llc_sets : (n : ℕ) × (cache_set_count h.llc.geometry ≡ ok n)
  pub line_size : h.l1.geometry.line_size ≡ h.llc.geometry.line_size
  pub llc_role : str_eq h.llc.role "LLC" ≡ true

-- A hierarchy that is selected from a configuration is of core 0, both its geometries are valid
-- with equal lines, its last level has the role of one; and the configuration is valid.
pub select_analysis_hierarchy-Supported :
    (config : HierarchyConfig) (h : AnalysisHierarchy)
    → select_analysis_hierarchy config ≡ ok h
    → (validate_cache_config config ≡ ok tt) × Supported h
unfolding select_analysis_hierarchy
select_analysis_hierarchy-Supported config h e =
    let (tt, valid, e₁) = >>=-eq-ok (validate_cache_config config) _ e in
    let (l1, entered, e₂) = >>=-eq-ok (entry_cache_config config 0) _ e₁ in
    let (u₁, p₁, e₃) =
      >>=-eq-ok (throw_if (str_eq l1.next config.memory.name) invalid_argument) _ e₂ in
    let (llc, found, e₄) = >>=-eq-ok (find_cache_config config l1.next) _ e₃ in
    let (u₂, p₂, e₅) = >>=-eq-ok (throw_if (not (str_eq llc.role "LLC")) invalid_argument) _ e₄ in
    let (u₃, p₃, e₆) =
      >>=-eq-ok (throw_if (not (is_shared llc.private_to)) invalid_argument) _ e₅ in
    let (u₄, p₄, e₇) =
      >>=-eq-ok (throw_if (not (str_eq llc.next config.memory.name)) invalid_argument) _ e₆ in
    let (u₅, p₅, e₈) = >>=-eq-ok (require_supported l1) _ e₇ in
    let (u₆, p₆, e₉) = >>=-eq-ok (require_supported llc) _ e₈ in
    let (u₇, p₇, f₁) =
      >>=-eq-ok (throw_if (not (l1.line_size == llc.line_size)) invalid_argument) _ e₉ in
    let (first, made, f₂) = >>=-eq-ok (make_cache_geometry l1) _ f₁ in
    let (final, made', f₃) = >>=-eq-ok (make_cache_geometry llc) _ f₂ in
    let role = required (str_eq llc.role "LLC") p₂ in
    let lines = required_equal l1.line_size llc.line_size p₇ in
    let (size, sets, whole) = geometry_of l1 first made in
    let (size', sets', whole') = geometry_of llc final made' in
    (
      valid,
      subst Supported (ok-injective f₃) (record {
        core = refl;
        l1_sets = sets;
        llc_sets = sets';
        line_size = size ∙ lines ∙ sym size';
        llc_role = role;
      }),
    )
