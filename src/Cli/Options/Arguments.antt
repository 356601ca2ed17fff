-- ===== src/Cli/Options/Arguments.antt =====
-- backend/src/cli/options.cpp: a command line that spells given options.
use Prim.Native.String.{String}
use yet_another_reuse_distan.Prelude.{Bool, true, false, List, [], ◌∷◌, ◌++◌, if◌then◌else◌}
use yet_another_reuse_distan.Cli.Options.{
  AnalysisMode, Granularity, Options, is_empty, is_hierarchy,
}
use yet_another_reuse_distan.Cli.Options.Unsigned.{decimal}

-- An option that is left away for an empty text.
abbrev pub path_option : String → String → List String
path_option name path = if is_empty path then [] else name ∷ path ∷ []

abbrev pub analysis_options : AnalysisMode → Bool → List String
analysis_options AnalysisMode.legacy ir = []
analysis_options AnalysisMode.ir_instructions ir = "--analysis" ∷ "ir-instructions" ∷ []
analysis_options AnalysisMode.mapping ir =
    "--analysis" ∷ "mapping" ∷ (if ir then "--analysis" ∷ "ir-instructions" ∷ [] else [])
analysis_options AnalysisMode.hierarchy_rd ir =
    "--analysis" ∷ "hierarchy-rd" ∷ (if ir then "--analysis" ∷ "ir-instructions" ∷ [] else [])

abbrev pub granularity_options : Bool → Granularity → List String
granularity_options false g = []
granularity_options true Granularity.element = "--granularity" ∷ "element" ∷ []
granularity_options true Granularity.cache_line = "--granularity" ∷ "cache-line" ∷ []

abbrev pub limit_options : Options → List String
limit_options o =
    "--max-single-loop-iterations"
    ∷ decimal o.loop_limits.single_loop_iterations
    ∷ "--max-cumulative-loop-iterations"
    ∷ decimal o.loop_limits.cumulative_loop_iterations
    ∷ []

abbrev pub event_options : Options → List String
event_options o =
    if is_empty o.events_path
    then []
    else "--export-events" ∷ o.events_path ∷ "--event-limit" ∷ decimal o.event_limit ∷ []

abbrev pub hierarchy_arguments : Options → List String
hierarchy_arguments o =
    if is_hierarchy o.analysis_mode
    then "--max-source-accesses"
      ∷ decimal o.emission_limits.emitted_source_accesses
      ∷ "--max-line-references"
      ∷ decimal o.emission_limits.emitted_line_references
      ∷ (path_option "--telemetry" o.telemetry_path ++ (event_options o ++ []))
    else []

unfoldable pub command_line : Options → List String
command_line o =
    o.input
    ∷ (analysis_options o.analysis_mode o.include_ir
        ++ (granularity_options o.granularity_explicit o.granularity
            ++ (path_option "--cache" o.cache_path
                ++ (path_option "--elf" o.elf_path
                    ++ (path_option "--export" o.export_path
                        ++ (limit_options o ++ hierarchy_arguments o))))))
