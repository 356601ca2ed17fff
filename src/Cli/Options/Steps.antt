-- ===== src/Cli/Options/Steps.antt =====
-- backend/src/cli/options.cpp: the parts of a command line, read one after another.
use Prim.Native.String.{String}
use yet_another_reuse_distan.Prelude.{
  ℕ, ◌<◌, ◌^◌, ◌≡◌, refl, ◌∙◌, Bool, true, false, not, ◌||◌, List, ◌∷◌, ◌++◌, ◌==◌, arith,
  Bool-cases, inl, inr, ok, ◌>>=◌,
}
use yet_another_reuse_distan.Cli.Options.{
  AnalysisMode, Granularity, Options, is_empty, unusable, is_legacy, is_ir, is_cache_line, Setting,
  ParseState, flag_of, setting_of, unsigned_value, artifact_path, select_analysis, apply_analysis,
  apply_granularity, apply_setting, parse_loop, defaults, set_loop_limits, set_emission_limits,
}
use yet_another_reuse_distan.Cli.Options.Coherent.{Fits, ◌⇒◌}
use yet_another_reuse_distan.Cli.Options.Unsigned.{decimal, unsigned_value-decimal}
use yet_another_reuse_distan.Cli.Options.Arguments.{
  path_option, analysis_options, granularity_options, limit_options, event_options,
}
use yet_another_reuse_distan.Cli.Options.Flags.{parse_loop-valued, parse_loop-path_option}

-- The options read so far, field by field in the order of the command line.
abbrev pub with_input : Options → Options
with_input o = record defaults { input = o.input }

abbrev pub with_analysis : Options → Options
with_analysis o = record (with_input o) {
  analysis_mode = o.analysis_mode;
  include_ir = o.include_ir;
}

abbrev pub with_granularity : Options → Options
with_granularity o = record (with_analysis o) {
  granularity = o.granularity;
  granularity_explicit = o.granularity_explicit;
}

abbrev pub with_paths : Options → String → String → String → Options
with_paths o cache elf export = record (with_granularity o) {
  cache_path = cache;
  elf_path = elf;
  export_path = export;
}

abbrev pub with_limits : Options → Options
with_limits o = record (with_paths o o.cache_path o.elf_path o.export_path) {
  loop_limits = o.loop_limits;
}

abbrev pub with_emission : Options → String → Options
with_emission o telemetry = record (with_limits o) {
  emission_limits = o.emission_limits;
  telemetry_path = telemetry;
}

abbrev pub plain : Options → ParseState
plain o = record { options = o; hierarchy_options = false; event_limit_explicit = false }

abbrev pub tuned : Options → Bool → ParseState
tuned o limited = record { options = o; hierarchy_options = true; event_limit_explicit = limited }

abbrev pub with_events : Options → String → ℕ → Bool → ParseState
with_events o events limit limited =
    tuned (record (with_emission o o.telemetry_path) { events_path = events; event_limit = limit })
      limited

pub is_empty-eq : (text : String) → is_empty text ≡ true → text ≡ ""
is_empty-eq String.[] h = refl
is_empty-eq (String.◌∷◌ c text) h = cc

read_number :
    (n : ℕ)
    → n < 2 ^ 64
    → (put : ℕ → ParseState) → (unsigned_value (decimal n) >>= λ value. ok (put value)) ≡ ok (put n)
read_number n fits put = rw (unsigned_value-decimal n fits)

read_path :
    (path : String)
    → unusable path ≡ false
    → (put : String → ParseState) → (artifact_path path >>= λ value. ok (put value)) ≡ ok (put path)
unfolding artifact_path
read_path path usable put = rw usable

module _ (o : Options) (rest : List String) where
  pub analysis_step :
      (mode : AnalysisMode) (ir : Bool)
      → (is_ir mode ⇒ ir) ≡ true
      → (ir ⇒ not (is_legacy mode)) ≡ true
      → parse_loop (analysis_options mode ir ++ rest) (plain (with_input o))
        ≡ parse_loop rest (plain (record (with_input o) { analysis_mode = mode; include_ir = ir }))
  unfolding apply_setting apply_analysis select_analysis flag_of setting_of
  analysis_step AnalysisMode.legacy true a b = cc
  analysis_step AnalysisMode.legacy false a b = refl
  analysis_step AnalysisMode.ir_instructions false a b = cc
  analysis_step AnalysisMode.ir_instructions true a b =
      parse_loop-valued "--analysis" "ir-instructions" rest Setting.analysis _ _ refl refl
  analysis_step AnalysisMode.mapping false a b =
      parse_loop-valued "--analysis" "mapping" rest Setting.analysis _ _ refl refl
  analysis_step AnalysisMode.mapping true a b =
      parse_loop-valued "--analysis" "mapping" _ Setting.analysis _ _ refl refl
      ∙ parse_loop-valued "--analysis" "ir-instructions" rest Setting.analysis _ _ refl refl
  analysis_step AnalysisMode.hierarchy_rd false a b =
      parse_loop-valued "--analysis" "hierarchy-rd" rest Setting.analysis _ _ refl refl
  analysis_step AnalysisMode.hierarchy_rd true a b =
      parse_loop-valued "--analysis" "hierarchy-rd" _ Setting.analysis _ _ refl refl
      ∙ parse_loop-valued "--analysis" "ir-instructions" rest Setting.analysis _ _ refl refl

  pub granularity_step :
      (explicit : Bool) (g : Granularity)
      → (is_cache_line g ⇒ explicit) ≡ true
      → parse_loop (granularity_options explicit g ++ rest) (plain (with_analysis o))
        ≡ parse_loop rest
            (plain (record (with_analysis o) { granularity = g; granularity_explicit = explicit }))
  unfolding apply_setting apply_granularity flag_of setting_of
  granularity_step false Granularity.cache_line a = cc
  granularity_step false Granularity.element a = refl
  granularity_step true Granularity.element a =
      parse_loop-valued "--granularity" "element" rest Setting.granularity _ _ refl refl
  granularity_step true Granularity.cache_line a =
      parse_loop-valued "--granularity" "cache-line" rest Setting.granularity _ _ refl refl

  pub limits_step :
      Fits o
      → parse_loop
          (limit_options o ++ rest)
          (plain (with_paths o o.cache_path o.elf_path o.export_path))
        ≡ parse_loop rest (plain (with_limits o))
  unfolding apply_setting flag_of setting_of
  limits_step fits =
      parse_loop-valued _ _ _ Setting.max_single _
        (plain (
          set_loop_limits (with_paths o o.cache_path o.elf_path o.export_path)
            o.loop_limits.single_loop_iterations 1000000))
        refl (read_number _ fits.single _)
      ∙ parse_loop-valued _ _ _ Setting.max_cumulative _ _ refl (read_number _ fits.cumulative _)

  pub emission_step :
      Fits o
      → parse_loop
          ("--max-source-accesses"
            ∷ decimal o.emission_limits.emitted_source_accesses
            ∷ "--max-line-references"
            ∷ decimal o.emission_limits.emitted_line_references
            ∷ rest)
          (plain (with_limits o))
        ≡ parse_loop rest (tuned (with_emission o "") false)
  unfolding apply_setting flag_of setting_of
  emission_step fits =
      parse_loop-valued _ _ _ Setting.max_source _
        (tuned
          (set_emission_limits (with_limits o) o.emission_limits.emitted_source_accesses 10000000)
          false)
        refl (read_number _ fits.source_accesses _)
      ∙ parse_loop-valued _ _ _ Setting.max_line _ _ refl (read_number _ fits.line_references _)

  pub telemetry_step :
      (is_empty o.telemetry_path || not (unusable o.telemetry_path)) ≡ true
      → parse_loop
          (path_option "--telemetry" o.telemetry_path ++ rest)
          (tuned (with_emission o "") false)
        ≡ parse_loop rest (tuned (with_emission o o.telemetry_path) false)
  unfolding apply_setting flag_of setting_of
  telemetry_step usable =
      parse_loop-path_option "--telemetry" o.telemetry_path rest Setting.telemetry _
        (λ path. tuned (with_emission o path) false) refl
        (λ given. read_path o.telemetry_path (ground (arith, given, usable)) _) refl

  pub events_step :
      (is_empty o.events_path || not (unusable o.events_path)) ≡ true
      → (is_empty o.events_path ⇒ o.event_limit == 0) ≡ true
      → o.event_limit < 2 ^ 64
      → parse_loop (event_options o ++ rest) (tuned (with_emission o o.telemetry_path) false)
        ≡ parse_loop rest (with_events o o.events_path o.event_limit (not (is_empty o.events_path)))
  unfolding apply_setting flag_of setting_of
  events_step usable unlimited fits = elim (Bool-cases (is_empty o.events_path)) [
    | inl empty ↦
        let none_read : o.events_path ≡ "" = is_empty-eq o.events_path empty in
        let no_limit : o.event_limit ≡ 0 = ground (arith, empty, unlimited) in
        rw (empty, none_read, no_limit)
    | inr given ↦ rw given (
        parse_loop-valued "--export-events" o.events_path
          ("--event-limit" ∷ decimal o.event_limit ∷ rest) Setting.export_events
          (tuned (with_emission o o.telemetry_path) false) (with_events o o.events_path 0 false)
          refl
          (read_path o.events_path (ground (arith, given, usable))
            (λ path. with_events o path 0 false))
        ∙ parse_loop-valued "--event-limit" (decimal o.event_limit) rest Setting.event_limit
            (with_events o o.events_path 0 false) (with_events o o.events_path o.event_limit true)
            refl (read_number o.event_limit fits (λ limit. with_events o o.events_path limit true)))
  ]

pub paths_step :
    (o : Options) (rest : List String)
    → parse_loop
        (path_option "--cache" o.cache_path
          ++ (path_option "--elf" o.elf_path ++ (path_option "--export" o.export_path ++ rest)))
        (plain (with_granularity o))
      ≡ parse_loop rest (plain (with_paths o o.cache_path o.elf_path o.export_path))
unfolding apply_setting flag_of setting_of
paths_step o rest =
    parse_loop-path_option "--cache" o.cache_path
      (path_option "--elf" o.elf_path ++ (path_option "--export" o.export_path ++ rest))
      Setting.cache (plain (with_granularity o)) (λ path. plain (with_paths o path "" "")) refl
      (λ _. refl) refl
    ∙ parse_loop-path_option "--elf" o.elf_path (path_option "--export" o.export_path ++ rest)
        Setting.elf (plain (with_paths o o.cache_path "" ""))
        (λ path. plain (with_paths o o.cache_path path "")) refl (λ _. refl) refl
    ∙ parse_loop-path_option "--export" o.export_path rest Setting.export
        (plain (with_paths o o.cache_path o.elf_path ""))
        (λ path. plain (with_paths o o.cache_path o.elf_path path)) refl (λ _. refl) refl
