-- ===== src/Tests/Arguments.antt =====
-- Arguments of an invocation, read and written.
use Prim.Native.String.{String}
use yet_another_reuse_distan.Prelude.{◌≡◌, refl, [], ◌∷◌, List, ok, arith}
use yet_another_reuse_distan.Cli.Options
use yet_another_reuse_distan.Cli.Options.{Options as CliOptions, parse_options, Invocation}
use yet_another_reuse_distan.Cli.Options.Coherent.{Coherent}
use yet_another_reuse_distan.Cli.Options.Accepted.{parse_options-Coherent}
use yet_another_reuse_distan.Cli.Options.Arguments.{command_line}
use yet_another_reuse_distan.Cli.Options.CommandLine.{parse_options-command_line}

abbrev arguments : List String
arguments =
    "--analysis" ∷ "hierarchy-rd" ∷ "map.json" ∷ "--elf" ∷ "program.elf" ∷ "--cache" ∷ "cache.yaml"
    ∷ "--export" ∷ "out.json" ∷ "--export-events" ∷ "events.json" ∷ "--event-limit" ∷ "007" ∷ []

abbrev chosen : CliOptions
chosen = record Options.defaults {
  analysis_mode = Options.hierarchy_rd;
  input = "map.json";
  cache_path = "cache.yaml";
  elf_path = "program.elf";
  export_path = "out.json";
  events_path = "events.json";
  event_limit = 7;
}

reads_arguments : parse_options arguments ≡ ok (Invocation.run chosen)
unfolding parse_options Options.parse_loop Options.flag_of Options.setting_of Options.other_flag
    Options.apply_setting Options.apply_operand Options.apply_analysis Options.select_analysis
    Options.artifact_path Options.unsigned_value Options.from_chars Options.check_options
    Options.check_memory Options.check_hierarchy
reads_arguments = refl

parse_options-Coherent_example : Coherent chosen
parse_options-Coherent_example = parse_options-Coherent arguments reads_arguments

coherent : Coherent chosen
coherent = record {
  fits = omega arith;
  formed = record {
    input = refl;
    ir_included = refl;
    ir_selected = refl;
    explicit = refl;
    telemetry = refl;
    events = refl;
  };
  required = record {
    input = refl;
    plain = refl;
    ir = refl;
    elf = refl;
    export = refl;
    event_limit = refl;
    cache = refl;
    granularity = refl;
  };
}

parse_options-command_line_example :
    parse_options (command_line chosen) ≡ ok (Invocation.run chosen)
parse_options-command_line_example = parse_options-command_line chosen coherent
