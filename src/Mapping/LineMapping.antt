-- ===== src/Mapping/LineMapping.antt =====
-- backend/src/cache/mapping/line_mapping.cpp: the cache lines that a range of bytes touches.
pub mod Rows
pub mod Delivery
pub mod Invariant
use Prim.Native.String.{String}
use text.Mathlib.Text.{◌==◌ as str_eq}
use yet_another_reuse_distan.Prelude.{
  ℕ, zero, suc, ◌+◌, ◌-◌, ◌%◌, ◌^◌, min, Bool, true, false, ◌||◌, List, [], ◌∷◌, ◌++◌, Option, none,
  some, ltb, ◌==◌, if◌then◌else◌, Result, ok, throw, throw_if, ◌>>=◌, ◌>>◌, invalid_argument,
  overflow_error,
}
use yet_another_reuse_distan.Mapping.Address.{
  CacheGeometry, DecodedCacheAddress, cache_set_count, decode_cache_address,
}
use yet_another_reuse_distan.Mapping.Types.{CacheLineMapping, CacheLineAddressRange, unknown}

abbrev pub u64_max : ℕ
u64_max = 2 ^ 64 - 1

-- A consumer of rows over a state, which may throw.
abbrev pub LineSink : Type 0 → Type 0
LineSink S = S → CacheLineMapping → Result S

-- The row of a range at one address.
unfoldable pub row : CacheLineAddressRange → DecodedCacheAddress → ℕ → ℕ → CacheLineMapping
row range decoded offset ordinal = record {
  object_id = range.object_id;
  object_byte_offset = offset;
  address_basis = range.address_basis;
  decoded = decoded;
  source_object_byte_offset = range.object_byte_offset;
  source_access_size = range.access_size;
  source_linked_byte_address = range.linked_byte_address;
  operation = unknown;
  source_access_ordinal = 0;
  line_span_ordinal = ordinal;
}

-- The variables of the loop.
pub record Cursor : Type 0 where
  pub address : ℕ
  pub offset : ℕ
  pub remaining : ℕ
  pub ordinal : ℕ

-- The end of a round, after `consumed` bytes.
unfoldable pub advance : Cursor → ℕ → Cursor
advance c consumed =
    let remaining = c.remaining - consumed in
    record {
      address = if remaining == 0 then c.address else (c.address + consumed) % 2 ^ 64;
      offset = if remaining == 0 then c.offset else (c.offset + consumed) % 2 ^ 64;
      remaining = remaining;
      ordinal = (c.ordinal + 1) % 2 ^ 64;
    }

unfoldable pub validate_range : CacheLineAddressRange → Result (Unit {0})
validate_range range = do
  throw_if (str_eq range.object_id "" || range.access_size == 0) invalid_argument
  throw_if (ltb (u64_max - range.linked_byte_address) (range.access_size - 1)) overflow_error
  throw_if (ltb (u64_max - range.object_byte_offset) (range.access_size - 1)) overflow_error

module _ {S : Type 0} where
  unfoldable pub line_loop :
      ℕ → CacheLineAddressRange → CacheGeometry → LineSink S → Cursor → S → Result S
  unfolding row advance
  line_loop zero range g sink c s = ok s
  line_loop (suc fuel) range g sink c s = elim (c.remaining == 0) [
    | true ↦ ok s
    | false ↦ do
      decoded ← decode_cache_address c.address g
      s' ← sink s (row range decoded c.offset c.ordinal)
      let consumed = min c.remaining (g.line_size - decoded.line_offset)
      line_loop fuel range g sink (advance c consumed) s'
  ]

  -- An empty `std::function` is `none`. A round consumes at least one byte.
  unfoldable pub for_each_cache_line :
      CacheLineAddressRange → CacheGeometry → Option (LineSink S) → S → Result S
  unfolding line_loop validate_range
  for_each_cache_line range g none s = throw invalid_argument
  for_each_cache_line range g (some sink) s = do
    validate_range range
    _ ← cache_set_count g
    line_loop range.access_size range g sink
        (record {
          address = range.linked_byte_address;
          offset = range.object_byte_offset;
          remaining = range.access_size;
          ordinal = 0;
        })
        s

-- The sink of `map_cache_lines`.
unfoldable pub push_back : LineSink (List CacheLineMapping)
push_back mappings mapping = ok (mappings ++ mapping ∷ [])

unfoldable pub map_cache_lines :
    CacheLineAddressRange → CacheGeometry → Result (List CacheLineMapping)
unfolding push_back for_each_cache_line
map_cache_lines range g = for_each_cache_line range g (some push_back) []
