-- ===== src/Output/Events/Provenance.antt =====
-- The rows of an access are valid lines of their range, decoded by the geometry.
use native.Mathlib.Nat.{div-add-mod'}
use yet_another_reuse_distan.Prelude.{
  ℕ, zero, suc, ◌+◌, ◌-◌, ◌*◌, ◌/◌, ◌≤◌, ◌<◌, ◌≡◌, refl, true, List, [], ◌∷◌, arith, ok,
  >>=_cong_ok,
}
use yet_another_reuse_distan.Mapping.Address.{
  CacheGeometry, cache_set_count, partition, decode_cache_address,
}
use yet_another_reuse_distan.Mapping.Address.Partition.{cache_set_count-pos}
use yet_another_reuse_distan.Mapping.Types.{CacheLineMapping, CacheLineAddressRange}
use yet_another_reuse_distan.Mapping.LineMapping.{LineSink, row}
use yet_another_reuse_distan.Mapping.LineMapping.Rows.{
  IsRange, row_address, row_address_bounds, row_at, rows_from, line_span, deliver,
}
use yet_another_reuse_distan.Mapping.Resolved.{ResolvedAccess, range_of, annotate}
use yet_another_reuse_distan.Hierarchy.Task.{is_absolute, is_known}
use yet_another_reuse_distan.Output.Events.{validate_mapping}

-- A line is valid and decoded by a geometry.
pub record Decoded (g : CacheGeometry) (m : CacheLineMapping) : Type 0 where
  pub valid : validate_mapping m ≡ ok tt
  pub decoded : decode_cache_address m.decoded.address g ≡ ok m.decoded

unfoldable pub Every : (CacheLineMapping → Type 0) → List CacheLineMapping → Type 0
Every P [] = Unit {0}
Every P (m ∷ ms) = P m × Every P ms

-- Two sinks that agree on the rows, in the states that the second one keeps.
pub deliver-agree :
    {S : Type 0} (I : S → Type 0) (P : CacheLineMapping → Type 0) (sink sink' : LineSink S)
    → ((s : S) (m : CacheLineMapping) → I s → P m → sink s m ≡ sink' s m)
    → ((s s' : S) (m : CacheLineMapping) → I s → sink' s m ≡ ok s' → I s')
    → (ms : List CacheLineMapping) (s : S) → Every P ms
    → I s
    → deliver sink ms s ≡ deliver sink' ms s
unfolding deliver Every
deliver-agree I P sink sink' same keeps [] s a i = refl
deliver-agree I P sink sink' same keeps (m ∷ ms) s (a, rest) i = rw (same s m i a) (
    >>=_cong_ok (sink' s m) _ _
      (λ s' h. deliver-agree I P sink sink' same keeps ms s' rest (keeps s s' m i h)))

pub rows_from-Every :
    (P : CacheLineMapping → Type 0) (range : CacheLineAddressRange) (g : CacheGeometry)
    (sets n i : ℕ)
    → ((k : ℕ) → k < i + n → P (row_at range g sets k))
    → Every P (rows_from range g sets n i)
unfolding rows_from Every
rows_from-Every P range g sets zero i all = tt
rows_from-Every P range g sets (suc n) i all = (
  all i (omega arith),
  rows_from-Every P range g sets n (i + 1) (λ k lt. all k (omega (arith, lt))),
)

mul_le : (a b l : ℕ) → a ≤ b → a * l ≤ b * l
mul_le a b l h = grind arith

-- A row stands within its range.
row_address_within :
    (range : CacheLineAddressRange) (g : CacheGeometry) (i : ℕ)
    → 0 < g.line_size
    → 0 < range.access_size
    → i < line_span range g
    → row_address range g i < range.linked_byte_address + range.access_size
unfolding row_address line_span
row_address_within range g zero size pos lt = omega (arith, pos)
row_address_within range g (suc i) size pos lt =
    let last = range.linked_byte_address + range.access_size - 1 in
    let line : range.linked_byte_address / g.line_size + suc i ≤ last / g.line_size =
      omega (arith, lt) in
    let product : (range.linked_byte_address / g.line_size + suc i) * g.line_size
        ≤ last / g.line_size * g.line_size =
      mul_le _ (last / g.line_size) g.line_size line in
    ground (arith, product, div-add-mod' last g.line_size, pos)

pub row_at-Decoded :
    (access : ResolvedAccess) (g : CacheGeometry) (sets i : ℕ)
    → IsRange (range_of access)
    → cache_set_count g ≡ ok sets
    → is_absolute access.address_basis ≡ true
    → is_known access.operation ≡ true
    → i < line_span (range_of access) g
    → Decoded g (annotate access (row_at (range_of access) g sets i))
unfolding row_at row annotate validate_mapping decode_cache_address range_of
row_at-Decoded access g sets i r counted absolute known lt =
    let size = (cache_set_count-pos g sets counted).1 in
    let bounds = row_address_bounds (range_of access) g i size in
    let within = row_address_within (range_of access) g i size r.positive lt in
    record {
      valid =
          unfold partition row_address in
          ground (arith, absolute, known, r.named, r.positive, r.linked, bounds, within);
      decoded = rw counted (unfold partition in refl);
    }
