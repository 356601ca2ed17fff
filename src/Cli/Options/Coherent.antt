-- ===== src/Cli/Options/Coherent.antt =====
-- backend/src/cli/options.cpp: which options an invocation may have.
use yet_another_reuse_distan.Prelude.{◌^◌, ◌<◌, ◌≡◌, Bool, true, false, not, ◌&&◌, ◌||◌, ◌==◌}
use yet_another_reuse_distan.Cli.Options.{
  Options, is_empty, unusable, starts_with_dash, is_legacy, is_ir, is_hierarchy, is_cache_line,
}

infixr 28 ◌⇒◌
abbrev pub ◌⇒◌ : Bool → Bool → Bool
a ⇒ b = not a || b

-- No option of the hierarchy analysis changed a default.
abbrev pub is_plain : Options → Bool
is_plain o =
    is_empty o.telemetry_path
    && is_empty o.events_path
    && o.event_limit == 0
    && o.emission_limits.emitted_source_accesses == 1000000
    && o.emission_limits.emitted_line_references == 10000000

pub record Fits (o : Options) : Type 0 where
  pub event_limit : o.event_limit < 2 ^ 64
  pub single : o.loop_limits.single_loop_iterations < 2 ^ 64
  pub cumulative : o.loop_limits.cumulative_loop_iterations < 2 ^ 64
  pub source_accesses : o.emission_limits.emitted_source_accesses < 2 ^ 64
  pub line_references : o.emission_limits.emitted_line_references < 2 ^ 64

-- What the loop keeps of the options.
pub record Formed (o : Options) : Type 0 where
  pub input : (not (starts_with_dash o.input)) ≡ true
  pub ir_included : (is_ir o.analysis_mode ⇒ o.include_ir) ≡ true
  pub ir_selected : (o.include_ir ⇒ not (is_legacy o.analysis_mode)) ≡ true
  pub explicit : (is_cache_line o.granularity ⇒ o.granularity_explicit) ≡ true
  pub telemetry : (is_empty o.telemetry_path || not (unusable o.telemetry_path)) ≡ true
  pub events : (is_empty o.events_path || not (unusable o.events_path)) ≡ true

-- What the tests after the loop require.
pub record Required (o : Options) : Type 0 where
  pub input : is_empty o.input ≡ false
  pub plain : (not (is_hierarchy o.analysis_mode) ⇒ is_plain o) ≡ true
  pub ir :
      (is_ir o.analysis_mode
        ⇒ is_empty o.elf_path && is_empty o.cache_path && not o.granularity_explicit)
      ≡ true
  pub elf : (is_legacy o.analysis_mode || is_ir o.analysis_mode || not (is_empty o.elf_path)) ≡ true
  pub export : (is_hierarchy o.analysis_mode ⇒ not (unusable o.export_path)) ≡ true
  pub event_limit : (is_empty o.events_path ⇒ o.event_limit == 0) ≡ true
  pub cache :
      (is_empty o.cache_path ⇒ is_empty o.elf_path && not (is_cache_line o.granularity)) ≡ true
  pub granularity :
      (not (is_empty o.elf_path) && o.granularity_explicit ⇒ is_cache_line o.granularity) ≡ true

pub record Coherent (o : Options) : Type 0 where
  pub fits : Fits o
  pub formed : Formed o
  pub required : Required o
