-- ===== src/Mapping/LineMapping/Invariant.antt =====
-- What a sink keeps, the walk over a range keeps.
use yet_another_reuse_distan.Prelude.{
  ℕ, zero, suc, ◌-◌, ◌≡◌, min, inl, inr, some, arith, ◌==◌, ok, ◌>>=◌, Bool-cases, >>=-eq-ok,
  ok-injective,
}
use mathlib.Core.Path.{subst}
use yet_another_reuse_distan.Mapping.Address.{CacheGeometry, cache_set_count, decode_cache_address}
use yet_another_reuse_distan.Mapping.Types.{CacheLineMapping, CacheLineAddressRange}
use yet_another_reuse_distan.Mapping.LineMapping.{
  LineSink, Cursor, row, advance, validate_range, line_loop, for_each_cache_line,
}

module _ {S : Type 0} (P : S → Type 0) (sink : LineSink S)
    (keeps : (s s' : S) (m : CacheLineMapping) → P s → sink s m ≡ ok s' → P s') where
  line_loop-keeps :
      (fuel : ℕ) (range : CacheLineAddressRange) (g : CacheGeometry) (c : Cursor) (s s' : S)
      → P s
      → line_loop fuel range g sink c s ≡ ok s'
      → P s'
  unfolding line_loop
  line_loop-keeps zero range g c s s' v h = subst P (ok-injective h) v
  line_loop-keeps (suc fuel) range g c s s' v h = elim (Bool-cases (c.remaining == 0)) [
    | inl e ↦ subst P (ok-injective (ground (arith, e, h))) v
    | inr e ↦
        let go : (decode_cache_address c.address g >>= λ d.
        sink s (row range d c.offset c.ordinal) >>= λ t.
        line_loop fuel range g sink (advance c (min c.remaining (g.line_size - d.line_offset))) t)
            ≡ ok s' =
          ground (arith, e, h) in
        let (d, decoded, h₁) = >>=-eq-ok (decode_cache_address c.address g) _ go in
        let (t, sunk, h₂) = >>=-eq-ok (sink s (row range d c.offset c.ordinal)) _ h₁ in
        line_loop-keeps fuel range g (advance c (min c.remaining (g.line_size - d.line_offset))) t
          s' (keeps s t (row range d c.offset c.ordinal) v sunk) h₂
  ]

  pub for_each_cache_line-keeps :
      (range : CacheLineAddressRange) (g : CacheGeometry) (s s' : S)
      → P s
      → for_each_cache_line range g (some sink) s ≡ ok s'
      → P s'
  unfolding for_each_cache_line
  for_each_cache_line-keeps range g s s' v h =
      let (u, valid, h₁) = >>=-eq-ok (validate_range range) _ h in
      let (n, counted, h₂) = >>=-eq-ok (cache_set_count g) _ h₁ in
      line_loop-keeps range.access_size range g _ s s' v h₂
