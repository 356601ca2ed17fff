-- ===== src/Mapping/Address.antt =====
-- backend/src/cache/mapping/address.cpp: the parts of an address under a cache geometry.
pub mod Partition
use yet_another_reuse_distan.Prelude.{
  ℕ, ◌+◌, ◌-◌, ◌*◌, ◌/◌, ◌%◌, ◌^◌, ◌≤◌, ◌<◌, ◌≡◌, refl, Bool, true, not, ◌&&◌, ◌||◌, arith, ltb,
  ◌==◌, Result, ok, throw_if, ◌>>=◌, ◌>>◌, invalid_argument,
}
use yet_another_reuse_distan.Bits.PowerOfTwo.{is_power_of_two}

pub record CacheGeometry : Type 0 where
  pub line_size : ℕ
  pub line_count : ℕ
  pub associativity : ℕ

pub record CacheLineId : Type 0 where
  pub tag : ℕ
  pub set_index : ℕ

-- `CacheLineId::operator==`
unfoldable pub line_id_eq : CacheLineId → CacheLineId → Bool
line_id_eq a b = a.tag == b.tag && a.set_index == b.set_index

pub record DecodedCacheAddress : Type 0 where
  pub address : ℕ
  pub block_number : ℕ
  pub tag : ℕ
  pub set_index : ℕ
  pub line_offset : ℕ

-- The identity of the line that holds a decoded address.
unfoldable pub line_id : DecodedCacheAddress → CacheLineId
line_id d = record { tag = d.tag; set_index = d.set_index }

unfoldable pub validate : CacheGeometry → Result (Unit {0})
validate g = do
  throw_if
      (not (is_power_of_two g.line_size)
        || not (is_power_of_two g.line_count)
        || not (is_power_of_two g.associativity))
      invalid_argument
  throw_if (ltb g.line_count g.associativity || not (g.line_count % g.associativity == 0))
      invalid_argument

unfoldable pub cache_set_count : CacheGeometry → Result ℕ
cache_set_count g = do validate g; ok (g.line_count / g.associativity)

-- The parts of an address in a cache of so many sets.
unfoldable pub partition : ℕ → CacheGeometry → ℕ → DecodedCacheAddress
partition set_count g address =
    let block_number = address / g.line_size in
    record {
      address = address;
      block_number = block_number;
      tag = block_number / set_count;
      set_index = block_number % set_count;
      line_offset = address % g.line_size;
    }

unfoldable pub decode_cache_address : ℕ → CacheGeometry → Result DecodedCacheAddress
decode_cache_address address g = do
  set_count ← cache_set_count g
  ok (partition set_count g address)
