-- ===== src/Output/Results/Levels.antt =====
-- What the checks of a level accept, and the size of a level.
use yet_another_reuse_distan.Prelude.{
  ℕ, ◌+◌, ◌≤◌, ◌<◌, ◌≡◌, ◌↔◌, ap, inl, inr, List, [], ◌∷◌, arith, ltb, leb, ◌==◌, if◌then◌else◌, ok,
  throw_if, invalid_argument, >>=-eq-ok, lt_or_ge,
}
use yet_another_reuse_distan.Mapping.Address.{CacheGeometry}
use yet_another_reuse_distan.Mapping.Address.Partition.{cache_set_count-pos}
use yet_another_reuse_distan.Mapping.LineMapping.{u64_max}
use yet_another_reuse_distan.Mapping.LineMapping.Rows.{le-div}
use yet_another_reuse_distan.Hierarchy.Types.{CacheLevelSummary, AnalysisCacheLevel}
use yet_another_reuse_distan.Hierarchy.Service.{checked_service_sum, checked_service_sum_fits}
use yet_another_reuse_distan.Config.{CacheConfig, make_cache_geometry}
use yet_another_reuse_distan.Config.Selection.{geometry_of}
use yet_another_reuse_distan.Output.Results.{
  split_histogram, validate_level, hierarchy_level_capacity,
}

-- The references at distances below the associativity, and at the others.
unfoldable pub below : ℕ → List (ℕ × ℕ) → ℕ
below ways [] = 0
below ways ((d, n) ∷ h) = (if ltb d ways then n else 0) + below ways h

unfoldable pub above : ℕ → List (ℕ × ℕ) → ℕ
above ways [] = 0
above ways ((d, n) ∷ h) = (if ltb d ways then 0 else n) + above ways h

-- Each distance was met, and there are more distinct lines than it.
unfoldable pub Met : ℕ → List (ℕ × ℕ) → Type 0
Met lines [] = Unit {0}
Met lines ((d, n) ∷ h) = (0 < n) × (d < lines) × Met lines h

pub record IsLevel (level : CacheLevelSummary) (g : CacheGeometry) : Type 0 where
  pub met : Met level.unique_lines level.csrd_histogram
  pub hits : below g.associativity level.csrd_histogram ≡ level.hits
  pub replacements : above g.associativity level.csrd_histogram ≡ level.replacement_misses
  pub unique : level.unique_lines ≡ level.cold_misses

split_histogram-sums :
    (level : CacheLevelSummary) (ways hits replacements : ℕ) (h : List (ℕ × ℕ))
    → hits + replacements + (below ways h + above ways h) ≤ u64_max
    → Met level.unique_lines h
    → split_histogram level ways hits replacements h
      ≡ ok (hits + below ways h, replacements + above ways h)
unfolding split_histogram below above Met
split_histogram-sums level ways hits replacements [] small m = ap ok (ground arith)
split_histogram-sums level ways hits replacements ((d, n) ∷ h) small (pos, lt, m) =
    elim (lt_or_ge d ways) [
      | inl near ↦
          let rest =
            split_histogram-sums level ways (hits + n) replacements h (ground (arith, small, near))
              m in
          let fits = checked_service_sum_fits hits n (ground (arith, small, near)) in
          ground (arith, near, fits, rest, pos, lt)
      | inr far ↦
          let rest =
            split_histogram-sums level ways hits (replacements + n) h (ground (arith, small, far))
              m in
          let fits = checked_service_sum_fits replacements n (ground (arith, small, far)) in
          ground (arith, far, fits, rest, pos, lt)
    ]

split_histogram-Met :
    (level : CacheLevelSummary) (ways : ℕ) (h : List (ℕ × ℕ)) (hits replacements : ℕ) (out : ℕ × ℕ)
    → split_histogram level ways hits replacements h ≡ ok out
    → Met level.unique_lines h
unfolding split_histogram Met
split_histogram-Met level ways [] hits replacements out e = tt
split_histogram-Met level ways ((d, n) ∷ h) hits replacements out e =
    let (u₁, some_count, e₁) = >>=-eq-ok (throw_if (n == 0) invalid_argument) _ e in
    let (u₂, some_line, e₂) =
      >>=-eq-ok (throw_if (leb level.unique_lines d) invalid_argument) _ e₁ in
    let (sum, added, e₃) =
      >>=-eq-ok (checked_service_sum (if ltb d ways then hits else replacements) n) _ e₂ in
    (
      ground (arith, some_count),
      ground (arith, some_line),
      split_histogram-Met level ways h _ _ out e₃,
    )

-- Where its references fit 64 bits, a level is accepted exactly when each distance of its histogram
-- has a count and is below the number of distinct lines, its hits are the references at distances
-- below the associativity, its replacement misses the others, and each line was cold once.
pub validate_level_iff :
    (level : CacheLevelSummary) (g : CacheGeometry)
    → below g.associativity level.csrd_histogram + above g.associativity level.csrd_histogram
      ≤ u64_max
    → (validate_level level g ≡ ok tt) ↔ IsLevel level g
unfolding validate_level
validate_level_iff level g small = (
  λ e.
      let (out, split, e₁) =
        >>=-eq-ok (split_histogram level g.associativity 0 0 level.csrd_histogram) _ e in
      let met = split_histogram-Met level g.associativity level.csrd_histogram 0 0 out split in
      let counted =
        split_histogram-sums level g.associativity 0 0 level.csrd_histogram (omega (arith, small))
          met in
      let fits =
        checked_service_sum_fits (0 + below g.associativity level.csrd_histogram)
          (0 + above g.associativity level.csrd_histogram) (omega (arith, small)) in
      record {
        met = met;
        hits = ground (arith, e, counted, fits);
        replacements = ground (arith, e, counted, fits);
        unique = ground (arith, e, counted, fits);
      },
  λ v.
      let counted =
        split_histogram-sums level g.associativity 0 0 level.csrd_histogram (omega (arith, small))
          v.met in
      let fits =
        checked_service_sum_fits (0 + below g.associativity level.csrd_histogram)
          (0 + above g.associativity level.csrd_histogram) (omega (arith, small)) in
      ground (arith, counted, fits, v.hits, v.replacements, v.unique),
)

-- The capacity of the geometry of a configured cache, of a size of 64 bits, is its size.
pub capacity-make_cache_geometry :
    (cache : CacheConfig) (level : AnalysisCacheLevel)
    → cache.size_bytes ≤ u64_max
    → make_cache_geometry cache ≡ ok level.geometry
    → hierarchy_level_capacity level ≡ ok cache.size_bytes
unfolding hierarchy_level_capacity
capacity-make_cache_geometry cache level small made =
    let g = level.geometry in
    let (line, (n, counted), size) = geometry_of cache g made in
    let pos = (cache_set_count-pos g n counted).1 in
    let within = le-div u64_max g.line_count g.line_size pos (omega (arith, small, size)) in
    rw counted (ground (arith, within, size))
