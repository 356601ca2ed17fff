-- ===== src/Mapping/LineMapping/Delivery.antt =====
-- What the walk over a range delivers, and what it refuses.
use native.Mathlib.Nat.{div-add-mod'}
use mathlib.Core.List.{append_assoc, append-nil}
use yet_another_reuse_distan.Prelude.{
  ℕ, ◌+◌, ◌-◌, ◌/◌, ◌≤◌, ◌≡◌, refl, sym, ap, ◌∙◌, List, [], ◌∷◌, ◌++◌, some, arith, ok, >>=-eq-ok,
  ◌↔◌,
}
use yet_another_reuse_distan.Mapping.Address.{CacheGeometry, cache_set_count}
use yet_another_reuse_distan.Mapping.Address.Partition.{cache_set_count-pos}
use yet_another_reuse_distan.Mapping.Types.{CacheLineMapping, CacheLineAddressRange}
use yet_another_reuse_distan.Mapping.LineMapping.{
  u64_max, LineSink, validate_range, for_each_cache_line, push_back, map_cache_lines,
}
use yet_another_reuse_distan.Mapping.LineMapping.Rows.{
  IsRange, row_address, line_span, rows, deliver, last_line, loop_rows, le-div,
}

validate_range-IsRange :
    (range : CacheLineAddressRange) → IsRange range → validate_range range ≡ ok tt
unfolding validate_range
validate_range-IsRange range r = ground (arith, r.named, r.positive, r.linked, r.object)

pub validate_range-eq-ok :
    (range : CacheLineAddressRange)
    → range.linked_byte_address ≤ u64_max
    → range.object_byte_offset ≤ u64_max
    → validate_range range ≡ ok tt
    → IsRange range
unfolding validate_range
validate_range-eq-ok range low high valid = record {
  named = ground (arith, valid);
  positive = ground (arith, valid);
  linked = ground (arith, low, valid);
  object = ground (arith, high, valid);
}

-- For a range that the source accepts and a valid geometry, the walk calls the sink on the rows of
-- the range in closed form, one for each line from the first byte's to the last byte's, in order;
-- it stops early only where the sink throws.
pub for_each_cache_line-rows :
    {S : Type 0} (range : CacheLineAddressRange) (g : CacheGeometry) (sink : LineSink S) (s : S)
    (sets : ℕ)
    → IsRange range
    → cache_set_count g ≡ ok sets
    → for_each_cache_line range g (some sink) s ≡ deliver sink (rows range g sets) s
unfolding for_each_cache_line rows line_span row_address last_line
for_each_cache_line-rows range g sink s sets r counted =
    let size = (cache_set_count-pos g sets counted).1 in
    let a = range.linked_byte_address in
    let order =
      le-div (a + range.access_size - 1) (a / g.line_size) g.line_size size
        (omega (arith, div-add-mod' a g.line_size, r.positive)) in
    rw (validate_range-IsRange range r, counted)
      (loop_rows range g sink sets counted r (line_span range g) range.access_size 0 _ s
        (record {
          address = refl;
          offset = omega arith;
          whole = refl;
          busy = r.positive;
          ordinal = refl;
        })
        (omega arith) (omega (arith, order)))

deliver-push_back : (ms acc : List CacheLineMapping) → deliver push_back ms acc ≡ ok (acc ++ ms)
unfolding deliver push_back
deliver-push_back [] acc = ap ok (sym (append-nil acc))
deliver-push_back (m ∷ ms) acc =
    deliver-push_back ms (acc ++ m ∷ []) ∙ ap ok (append_assoc acc (m ∷ []) ms)

rows_returned :
    (range : CacheLineAddressRange) (g : CacheGeometry) (sets : ℕ)
    → IsRange range
    → cache_set_count g ≡ ok sets
    → map_cache_lines range g ≡ ok (rows range g sets)
unfolding map_cache_lines
rows_returned range g sets r counted =
    for_each_cache_line-rows range g push_back [] sets r counted
    ∙ deliver-push_back (rows range g sets) []

-- On a range of 64-bit words `map_cache_lines` succeeds exactly when the range is named, not
-- empty and runs over neither the last address nor the last offset, and the geometry is valid; it
-- then returns the rows of the range in closed form, and nothing else.
pub map_cache_lines_iff :
    (range : CacheLineAddressRange) (g : CacheGeometry) (ms : List CacheLineMapping)
    → range.linked_byte_address ≤ u64_max
    → range.object_byte_offset ≤ u64_max
    → (map_cache_lines range g ≡ ok ms)
      ↔ (IsRange range × ((sets : ℕ) × (cache_set_count g ≡ ok sets) × (ms ≡ rows range g sets)))
unfolding map_cache_lines for_each_cache_line
map_cache_lines_iff range g ms low high = (
  λ h.
      let (u, valid, h') = >>=-eq-ok (validate_range range) _ h in
      let (sets, counted, h'') = >>=-eq-ok (cache_set_count g) _ h' in
      let r = validate_range-eq-ok range low high valid in
      (r, (sets, counted, ground (arith, h, rows_returned range g sets r counted))),
  λ (r, (sets, counted, e)). rows_returned range g sets r counted ∙ ap ok (sym e),
)
