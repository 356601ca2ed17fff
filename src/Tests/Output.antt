-- ===== src/Tests/Output.antt =====
-- The checks of what is written out, and the measurements.
use yet_another_reuse_distan.Prelude.{
  ℕ, ◌+◌, ◌*◌, ◌-◌, ◌^◌, ◌≤◌, ◌≡◌, ◌↔◌, refl, min, [], ◌∷◌, some, none, arith, ok,
}
use yet_another_reuse_distan.Tests.Data.{platform, clock}
use yet_another_reuse_distan.Tests.Levels.{whole_line, cold_world, budget}
use yet_another_reuse_distan.Tests.Selected.{first_level}
use yet_another_reuse_distan.Bits.PowerOfTwo.{is_power_of_two}
use yet_another_reuse_distan.Mapping.Address.{CacheGeometry, cache_set_count, validate}
use yet_another_reuse_distan.Hierarchy.Types.{CacheLevelSummary, AnalysisCacheLevel}
use yet_another_reuse_distan.Hierarchy.Task.{StreamingHierarchyOptions, accept}
use yet_another_reuse_distan.Config.{make_cache_geometry}
use yet_another_reuse_distan.Output.Events.Guarded.{guarded, accept-guarded}
use yet_another_reuse_distan.Output.Results.{validate_level}
use yet_another_reuse_distan.Output.Results.Levels.{below, above, IsLevel, validate_level_iff}
use yet_another_reuse_distan.Output.Telemetry.{
  AnalysisTelemetryCollector, Readings, make_collector, parse_map, resolve_and_stream,
}
use yet_another_reuse_distan.Output.Telemetry.Intervals.{measure_all, total_time, measure_all-fits}

-- A sink that counts the events.
abbrev counting : StreamingHierarchyOptions ℕ
counting = record {
  event_sink = some (λ n id event. ok (n + 1));
  event_limit = 1;
  statistics_sink = none;
}

accept-guarded_example :
    accept platform (λ n. (clock, clock)) (guarded counting) whole_line (budget, cold_world)
    ≡ accept platform (λ n. (clock, clock)) counting whole_line (budget, cold_world)
accept-guarded_example =
    accept-guarded platform (λ n. (clock, clock)) counting whole_line budget cold_world
      (omega arith) (omega arith) refl

-- Two references at distance 1 and one at distance 2, of three lines, in two ways.
abbrev three_lines : CacheLevelSummary
three_lines = record {
  lookups = 6;
  hits = 2;
  misses = 4;
  cold_misses = 3;
  replacement_misses = 1;
  unique_lines = 3;
  csrd_histogram = (1, 2) ∷ (2, 1) ∷ [];
}

abbrev two_ways : CacheGeometry
two_ways = record { line_size = 32; line_count = 4; associativity = 2 }

three_references : below 2 ((1, 2) ∷ (2, 1) ∷ []) + above 2 ((1, 2) ∷ (2, 1) ∷ []) ≤ 2 ^ 64 - 1
three_references = unfold below above in omega arith

validate_level_iff_example :
    (validate_level three_lines two_ways ≡ ok tt) ↔ IsLevel three_lines two_ways
validate_level_iff_example = validate_level_iff three_lines two_ways three_references

abbrev first : AnalysisCacheLevel
first = record {
  name = "L1_0";
  role = "L1";
  geometry = record { line_size = 32; line_count = 4; associativity = 2 };
}

made : make_cache_geometry first_level ≡ ok first.geometry
unfolding make_cache_geometry cache_set_count validate is_power_of_two
made = refl

-- A clock that stops after a while.
abbrev stopping : Readings
stopping n = min (10 * n) 1000

stopping_forward : (n : ℕ) → stopping n ≤ stopping (n + 1)
stopping_forward n = omega arith

stopping_small : (n : ℕ) → stopping n ≤ 2 ^ 64 - 1
stopping_small n = omega arith

measure_all-fits_example :
    (c : AnalysisTelemetryCollector) × (k : ℕ) × (measure_all stopping
        (make_collector stopping)
        (parse_map ∷ resolve_and_stream ∷ parse_map ∷ [])
      ≡ ok c)
    × (c.readings ≡ k + 1)
    × (total_time c.stages + stopping 0 ≤ stopping k)
measure_all-fits_example =
    measure_all-fits stopping stopping_forward stopping_small
      (parse_map ∷ resolve_and_stream ∷ parse_map ∷ [])
