-- ===== src/Tests/Data.antt =====
-- The inputs that the tests share.
use yet_another_reuse_distan.Prelude.{ℕ, List, map, ◌^◌}
use yet_another_reuse_distan.Mapping.Address.{CacheGeometry}
use yet_another_reuse_distan.Mapping.Types.{CacheLineAddressRange, absolute}
use yet_another_reuse_distan.Rd.RecencyIndex.{Platform, Clock}

abbrev pub platform : Platform
platform = record { tree_max_size = 2 ^ 60; pairs_max_size = 2 ^ 59; vector_capacity = λ n. n }

-- Two sets of two ways of 32 bytes.
abbrev pub small_cache : CacheGeometry
small_cache = record { line_size = 32; line_count = 4; associativity = 2 }

abbrev pub clock : Clock
clock = record { start = 0; stop = 0 }

abbrev pub timed : List ℕ → List (Clock × ℕ)
timed = map (λ k. (clock, k))

-- 70 bytes from address 60 on.
abbrev pub buffer : CacheLineAddressRange
buffer = record {
  object_id = "buffer";
  object_byte_offset = 4;
  access_size = 70;
  linked_byte_address = 60;
  address_basis = absolute;
}
