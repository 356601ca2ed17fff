-- ===== src/Tests/Lines.antt =====
-- Bits, addresses and ranges of bytes.
use yet_another_reuse_distan.Prelude.{ℕ, ◌+◌, ◌*◌, ◌/◌, ◌^◌, ◌≡◌, ◌<◌, ◌↔◌, refl, true, ok, arith}
use yet_another_reuse_distan.Tests.Data.{small_cache, buffer}
use yet_another_reuse_distan.Bits.PowerOfTwo.{is_power_of_two, is_power_of_two_iff}
use yet_another_reuse_distan.Mapping.Address.{
  cache_set_count, partition, decode_cache_address, line_id, line_id_eq,
}
use yet_another_reuse_distan.Mapping.Address.Partition.{
  IsPowers, cache_set_count_iff, decode_parts, line_id-block,
}
use yet_another_reuse_distan.Mapping.LineMapping.{map_cache_lines}
use yet_another_reuse_distan.Mapping.LineMapping.Rows.{IsRange, rows}
use yet_another_reuse_distan.Mapping.LineMapping.Delivery.{map_cache_lines_iff}

is_power_of_two_iff_example : (is_power_of_two 64 ≡ true) ↔ ((k : ℕ) × (64 ≡ 2 ^ k))
is_power_of_two_iff_example = is_power_of_two_iff 64

cache_set_count_iff_example :
    (cache_set_count small_cache ≡ ok 2)
    ↔ ((a : ℕ) × (b : ℕ) × (c : ℕ) × IsPowers small_cache a b c × (2 ≡ 2 ^ b))
cache_set_count_iff_example = cache_set_count_iff small_cache 2

two_sets : cache_set_count small_cache ≡ ok 2
two_sets =
    (cache_set_count_iff small_cache 2).1
      (5, 1, 1, record { line_size = refl; line_count = refl; associativity = refl }, refl)

decoded :
    (address : ℕ) → decode_cache_address address small_cache ≡ ok (partition 2 small_cache address)
unfolding decode_cache_address
decoded address = rw two_sets refl

decode_parts_example :
    (n : ℕ) × (cache_set_count small_cache ≡ ok n)
    × ((partition 2 small_cache 77).set_index < n)
    × ((partition 2 small_cache 77).line_offset < 32)
    × ((partition 2 small_cache 77).block_number
        ≡ (partition 2 small_cache 77).tag * n + (partition 2 small_cache 77).set_index)
    × (77
        ≡ ((partition 2 small_cache 77).tag * n + (partition 2 small_cache 77).set_index) * 32
          + (partition 2 small_cache 77).line_offset)
decode_parts_example = decode_parts 77 small_cache (partition 2 small_cache 77) (decoded 77)

line_id-block_example :
    (line_id_eq (line_id (partition 2 small_cache 77)) (line_id (partition 2 small_cache 90))
      ≡ true)
    ↔ (77 / 32 ≡ 90 / 32)
line_id-block_example =
    line_id-block 77 90 small_cache (partition 2 small_cache 77) (partition 2 small_cache 90)
      (decoded 77) (decoded 90)

buffer-IsRange : IsRange buffer
buffer-IsRange = record {
  named = refl;
  positive = omega arith;
  linked = omega arith;
  object = omega arith;
}

map_cache_lines_iff_example :
    (map_cache_lines buffer small_cache ≡ ok (rows buffer small_cache 2)) ↔ (
      IsRange buffer
      × ((sets : ℕ) × (cache_set_count small_cache ≡ ok sets)
          × (rows buffer small_cache 2 ≡ rows buffer small_cache sets)))
map_cache_lines_iff_example =
    map_cache_lines_iff buffer small_cache (rows buffer small_cache 2) (omega arith) (omega arith)
