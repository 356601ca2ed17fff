-- ===== src/Mapping/LineMapping/Rows.antt =====
-- The rows of a range in closed form, and that the loop delivers exactly these, in order.
use native.Mathlib.Nat.{div-add-mod', mod-lt}
use text.Mathlib.Text.{◌==◌ as str_eq}
use yet_another_reuse_distan.Prelude.{
  ℕ, zero, suc, ◌+◌, ◌-◌, ◌*◌, ◌/◌, ◌%◌, ◌≤◌, ◌<◌, min, ◌≡◌, refl, ap, ◌∙◌, false, inl, inr, List,
  [], ◌∷◌, arith, ◌==◌, if◌then◌else◌, Result, ok, ◌>>=◌, >>=_cong, lt_or_ge,
}
use yet_another_reuse_distan.Mapping.Address.{
  CacheGeometry, DecodedCacheAddress, cache_set_count, partition, decode_cache_address,
}
use yet_another_reuse_distan.Mapping.Address.Partition.{cache_set_count-pos}
use yet_another_reuse_distan.Mapping.Types.{CacheLineMapping, CacheLineAddressRange}
use yet_another_reuse_distan.Mapping.LineMapping.{
  u64_max, LineSink, row, Cursor, advance, line_loop,
}

-- The address of the `i`-th row: the start of the range, and then the starts of the next lines.
unfoldable pub row_address : CacheLineAddressRange → CacheGeometry → ℕ → ℕ
row_address range g i =
    if i == 0
    then range.linked_byte_address
    else (range.linked_byte_address / g.line_size + i) * g.line_size

unfoldable pub row_at : CacheLineAddressRange → CacheGeometry → ℕ → ℕ → CacheLineMapping
unfolding row_address
row_at range g sets i =
    let address = row_address range g i in
    row range (partition sets g address)
      (range.object_byte_offset + (address - range.linked_byte_address)) i

-- So many rows from the `i`-th on.
unfoldable pub rows_from : CacheLineAddressRange → CacheGeometry → ℕ → ℕ → ℕ → List CacheLineMapping
rows_from range g sets zero i = []
rows_from range g sets (suc n) i = row_at range g sets i ∷ rows_from range g sets n (i + 1)

-- The lines from that of the first byte to that of the last byte.
unfoldable pub line_span : CacheLineAddressRange → CacheGeometry → ℕ
line_span range g =
    (range.linked_byte_address + range.access_size - 1) / g.line_size
    + 1
    - range.linked_byte_address / g.line_size

unfoldable pub rows : CacheLineAddressRange → CacheGeometry → ℕ → List CacheLineMapping
rows range g sets = rows_from range g sets (line_span range g) 0

-- The sink is called on one row after the other, until it throws.
unfoldable pub deliver : {S : Type 0} → LineSink S → List CacheLineMapping → S → Result S
deliver sink [] s = ok s
deliver sink (m ∷ ms) s = sink s m >>= deliver sink ms

-- What the source requires of a range.
pub record IsRange (range : CacheLineAddressRange) : Type 0 where
  pub named : str_eq range.object_id "" ≡ false
  pub positive : 0 < range.access_size
  pub linked : range.linked_byte_address + (range.access_size - 1) ≤ u64_max
  pub object : range.object_byte_offset + (range.access_size - 1) ≤ u64_max

div-le : (x q l : ℕ) → 0 < l → x < (q + 1) * l → x / l ≤ q
div-le x q l p h = elim (lt_or_ge q (x / l)) [
  | inr le ↦ le
  | inl lt ↦
      let whole = div-add-mod' x l in
      let more : (q + 1) * l ≤ x / l * l = grind arith in absurd (omega (arith, whole, more))
]

pub le-div : (x q l : ℕ) → 0 < l → q * l ≤ x → q ≤ x / l
le-div x q l p h = elim (lt_or_ge (x / l) q) [
  | inr le ↦ le
  | inl lt ↦
      let whole = div-add-mod' x l in
      let rest = mod-lt x p in
      let more : (x / l + 1) * l ≤ q * l = grind arith in absurd (omega (arith, whole, rest, more))
]

-- The address of a row lies in its line, from the start of the range on.
pub row_address_bounds :
    (range : CacheLineAddressRange) (g : CacheGeometry) (i : ℕ)
    → 0 < g.line_size
    → ((range.linked_byte_address / g.line_size + i) * g.line_size ≤ row_address range g i)
      × (row_address range g i < (range.linked_byte_address / g.line_size + i + 1) * g.line_size)
      × (range.linked_byte_address ≤ row_address range g i)
unfolding row_address
row_address_bounds range g zero p =
    let a = range.linked_byte_address in omega (arith, div-add-mod' a g.line_size, mod-lt a p)
row_address_bounds range g (suc i) p =
    let a = range.linked_byte_address in
    let more : g.line_size ≤ suc i * g.line_size = grind arith in
    let here : row_address range g (suc i) ≡ (a / g.line_size + suc i) * g.line_size =
      ground arith in
    omega (arith, div-add-mod' a g.line_size, mod-lt a p, more, here)

-- The cursor stands at the `i`-th row.
pub record At (range : CacheLineAddressRange) (g : CacheGeometry) (c : Cursor) (i : ℕ)
    : Type 0 where
  pub address : c.address ≡ row_address range g i
  pub offset : c.offset + range.linked_byte_address ≡ range.object_byte_offset + c.address
  pub whole : c.address + c.remaining ≡ range.linked_byte_address + range.access_size
  pub busy : 0 < c.remaining
  pub ordinal : c.ordinal ≡ i

module _ {S : Type 0} (range : CacheLineAddressRange) (g : CacheGeometry) (sink : LineSink S) where
  loop_done :
      (fuel : ℕ) (c : Cursor) (s : S) → c.remaining ≡ 0 → line_loop fuel range g sink c s ≡ ok s
  unfolding line_loop
  loop_done zero c s e = refl
  loop_done (suc fuel) c s e = ground (arith, e)

  loop_step :
      (fuel : ℕ) (c : Cursor) (s : S) (d : DecodedCacheAddress)
      → 0 < c.remaining
      → decode_cache_address c.address g ≡ ok d
      → line_loop (suc fuel) range g sink c s ≡ (
          sink s (row range d c.offset c.ordinal)
          >>= line_loop fuel range g sink
              (advance c (min c.remaining (g.line_size - d.line_offset))))
  unfolding line_loop
  loop_step fuel c s d p e = ground (arith, e)

  module _ (sets : ℕ) (counted : cache_set_count g ≡ ok sets) (r : IsRange range) where
    size : 0 < g.line_size
    size = (cache_set_count-pos g sets counted).1

    decode_at : (a : ℕ) → decode_cache_address a g ≡ ok (partition sets g a)
    unfolding decode_cache_address
    decode_at a = ground (arith, counted)

    -- The bytes from the address to the end of its line.
    available :
        (c : Cursor) (i : ℕ)
        → At range g c i
        → c.address + (g.line_size - c.address % g.line_size)
          ≡ (range.linked_byte_address / g.line_size + i + 1) * g.line_size
    available c i t =
        let q = range.linked_byte_address / g.line_size + i in
        let bounds = row_address_bounds range g i size in
        let low = le-div c.address q g.line_size size (omega (arith, bounds, t.address)) in
        let high = div-le c.address q g.line_size size (omega (arith, bounds, t.address)) in
        let line : c.address / g.line_size ≡ q = omega (arith, low, high) in
        let whole = div-add-mod' c.address g.line_size in
        let product = ap (λ (x : ℕ). x * g.line_size) line in
        omega (arith, whole, product, mod-lt c.address size)

    row_here :
        (c : Cursor) (i : ℕ)
        → At range g c i
        → row range (partition sets g c.address) c.offset c.ordinal ≡ row_at range g sets i
    unfolding row_at
    row_here c i t =
        let shift : c.offset
            ≡ range.object_byte_offset + (row_address range g i - range.linked_byte_address) =
          omega (arith, t.offset, t.address, row_address_bounds range g i size) in
        rw (t.address, shift, t.ordinal)

    consumed : Cursor → ℕ
    consumed c = min c.remaining (g.line_size - c.address % g.line_size)

    -- A round that does not end the range leads to the next row.
    advance-At :
        (c : Cursor) (i : ℕ)
        → At range g c i
        → g.line_size - c.address % g.line_size < c.remaining
        → At range g (advance c (consumed c)) (i + 1)
    unfolding advance consumed row_address
    advance-At c i t more =
        let rest = g.line_size - c.address % g.line_size in
        let boundary = available c i t in
        let q = range.linked_byte_address / g.line_size + i + 1 in
        let start : row_address range g (i + 1) ≡ q * g.line_size = ground arith in
        let large : q ≤ q * g.line_size = grind (arith, size) in
        let low = row_address_bounds range g i size in
        let next : advance c (consumed c) ≡ (record {
          address = c.address + rest;
          offset = c.offset + rest;
          remaining = c.remaining - rest;
          ordinal = c.ordinal + 1;
        }) =
          ground (
            arith, more, t.whole, t.offset, t.address, t.ordinal, r.linked, r.object, boundary,
            large, low,
          ) in
        rw next (record {
          address = omega (arith, boundary, start);
          offset = omega (arith, t.offset);
          whole = omega (arith, t.whole, more);
          busy = omega (arith, more);
          ordinal = omega (arith, t.ordinal);
        })

    unfoldable pub last_line : ℕ
    last_line = (range.linked_byte_address + range.access_size - 1) / g.line_size

    -- The line of a row is not behind the last one, and it is the last one when the range ends in it.
    row_within :
        (c : Cursor) (i : ℕ)
        → At range g c i
        → (range.linked_byte_address / g.line_size + i ≤ last_line)
          × (c.remaining ≤ g.line_size - c.address % g.line_size
              → last_line ≤ range.linked_byte_address / g.line_size + i)
    unfolding last_line
    row_within c i t =
        let q = range.linked_byte_address / g.line_size + i in
        let last = range.linked_byte_address + range.access_size - 1 in
        let bounds = row_address_bounds range g i size in
        (
          le-div last q g.line_size size (omega (arith, bounds, t.address, t.whole, t.busy)),
          λ ends.
              div-le last q g.line_size size
                (omega (arith, available c i t, t.whole, t.busy, ends)),
        )

    pub loop_rows :
        (k fuel i : ℕ) (c : Cursor) (s : S)
        → At range g c i
        → c.remaining ≤ fuel
        → k + (range.linked_byte_address / g.line_size + i) ≡ last_line + 1
        → line_loop fuel range g sink c s ≡ deliver sink (rows_from range g sets k i) s
    unfolding deliver rows_from consumed partition advance
    loop_rows k zero i c s t enough count = absurd (omega (arith, t.busy))
    loop_rows zero (suc fuel) i c s t enough count = absurd (omega (arith, row_within c i t))
    loop_rows (suc k) (suc fuel) i c s t enough count =
        let rest = g.line_size - c.address % g.line_size in
        let after_row : (s' : S)
            → line_loop fuel range g sink (advance c (consumed c)) s'
              ≡ deliver sink (rows_from range g sets k (i + 1)) s' =
          λ s'. elim (lt_or_ge rest c.remaining) [
            | inl more ↦
                loop_rows k fuel (i + 1) (advance c (consumed c)) s' (advance-At c i t more)
                  (ground (arith, more, enough, mod-lt c.address size)) (omega (arith, count))
            | inr ends ↦
                let last : k ≡ 0 = omega (arith, count, (row_within c i t).1 ends) in
                rw (last, loop_done fuel (advance c (consumed c)) s' (ground (arith, ends))) refl
          ] in
        loop_step fuel c s (partition sets g c.address) t.busy (decode_at c.address)
        ∙ rw (row_here c i t) (>>=_cong (sink s (row_at range g sets i)) _ _ after_row)
