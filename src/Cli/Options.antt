-- ===== src/Cli/Options.antt =====
-- backend/src/cli/options.hpp and options.cpp: the arguments of one invocation. A text is compared
-- as a whole, except where the source reads its characters; messages and the usage text are dropped.
pub mod Unsigned
pub mod Coherent
pub mod Accepted
pub mod Arguments
pub mod Flags
pub mod Steps
pub mod CommandLine
use Prim.Native.Char.{code}
use Prim.Native.String.{String}
use text.Mathlib.Text.{◌==◌}
use yet_another_reuse_distan.Prelude.{
  ℕ, ◌+◌, ◌-◌, ◌*◌, ◌^◌, ◌≡◌, refl, Bool, true, false, not, ◌&&◌, ◌||◌, List, [], ◌∷◌, Option, none,
  some, ltb, leb, if◌then◌else◌, Result, ok, throw, throw_if, ◌>>=◌, ◌>>◌, invalid_argument,
}
use yet_another_reuse_distan.Trace.Budget.{LoopWorkLimits, TraceEmissionLimits}

pub data AnalysisMode : Type 0 where
  legacy mapping hierarchy_rd ir_instructions : AnalysisMode

pub data Granularity : Type 0 where
  element cache_line : Granularity

pub record Options : Type 0 where
  pub analysis_mode : AnalysisMode
  pub include_ir : Bool
  pub input : String
  pub granularity : Granularity
  pub granularity_explicit : Bool
  pub cache_path : String
  pub elf_path : String
  pub export_path : String
  pub telemetry_path : String
  pub events_path : String
  pub event_limit : ℕ
  pub loop_limits : LoopWorkLimits
  pub emission_limits : TraceEmissionLimits

abbrev pub default_loop_limits : LoopWorkLimits
default_loop_limits = record {
  single_loop_iterations = 1000000;
  cumulative_loop_iterations = 1000000;
}

abbrev pub default_emission_limits : TraceEmissionLimits
default_emission_limits = record {
  emitted_source_accesses = 1000000;
  emitted_line_references = 10000000;
}

abbrev pub defaults : Options
defaults = record {
  analysis_mode = legacy;
  include_ir = false;
  input = "";
  granularity = element;
  granularity_explicit = false;
  cache_path = "";
  elf_path = "";
  export_path = "";
  telemetry_path = "";
  events_path = "";
  event_limit = 0;
  loop_limits = default_loop_limits;
  emission_limits = default_emission_limits;
}

-- The characters of a text: its bytes, if it is ASCII.
abbrev pub codes : String → List ℕ
codes String.[] = []
codes (String.◌∷◌ c s) = code c ∷ codes s

abbrev pub is_empty : String → Bool
is_empty String.[] = true
is_empty (String.◌∷◌ c s) = false

abbrev pub is_nil : List ℕ → Bool
is_nil [] = true
is_nil (c ∷ cs) = false

abbrev pub is_digit : ℕ → Bool
is_digit c = leb b'0' c && leb c b'9'

-- `std::from_chars` on decimals: the value of the leading digits, and what follows them.
unfoldable pub from_chars : ℕ → List ℕ → ℕ × List ℕ
from_chars value [] = (value, [])
from_chars value (c ∷ cs) =
    if is_digit c then from_chars (value * 10 + (c - b'0')) cs else (value, c ∷ cs)

-- A value of 2^64 or more is reported out of range.
unfoldable pub unsigned_value : String → Result ℕ
unfolding from_chars
unsigned_value text =
    let parsed = from_chars 0 (codes text) in
    do
      throw_if (is_empty text || leb (2 ^ 64) parsed.0 || not (is_nil parsed.1)) invalid_argument
      ok parsed.0

abbrev pub has_nul : List ℕ → Bool
has_nul [] = false
has_nul (c ∷ cs) = not (ltb 0 c) || has_nul cs

abbrev pub unusable : String → Bool
unusable path = is_empty path || path == "-" || has_nul (codes path)

unfoldable pub artifact_path : String → Result String
artifact_path path = do throw_if (unusable path) invalid_argument; ok path

-- The options that take a value.
pub data Setting : Type 0 where
  analysis telemetry export_events event_limit max_single max_cumulative : Setting
  max_source max_line mode granularity cache elf export : Setting

pub data Flag : Type 0 where
  valued : Setting → Flag
  help unknown operand : Flag

abbrev pub starts_with_dash : String → Bool
starts_with_dash String.[] = false
starts_with_dash (String.◌∷◌ c s) = leb (code c) b'-' && leb b'-' (code c)

-- The tests of the loop, in their order: first those for an option with a value.
unfoldable pub setting_of : String → Option Setting
setting_of argument =
    if argument == "--analysis"
    then some analysis
    else if argument == "--telemetry"
    then some telemetry
    else if argument == "--export-events"
    then some export_events
    else if argument == "--event-limit"
    then some event_limit
    else if argument == "--max-single-loop-iterations"
    then some max_single
    else if argument == "--max-cumulative-loop-iterations"
    then some max_cumulative
    else if argument == "--max-source-accesses"
    then some max_source
    else if argument == "--max-line-references"
    then some max_line
    else if argument == "--mode"
    then some mode
    else if argument == "--granularity"
    then some granularity
    else if argument == "--cache"
    then some cache
    else if argument == "--elf"
    then some elf
    else if argument == "--export"
    then some export
    else none

unfoldable pub other_flag : String → Flag
other_flag argument =
    if argument == "--help" || argument == "-h"
    then help
    else if starts_with_dash argument
    then unknown
    else operand

unfoldable pub flag_of : String → Flag
flag_of argument = elim (setting_of argument) [
  | none ↦ other_flag argument
  | some setting ↦ valued setting
]

-- The variables of the loop.
pub record ParseState : Type 0 where
  pub options : Options
  pub hierarchy_options : Bool
  pub event_limit_explicit : Bool

abbrev pub update : ParseState → Options → ParseState
update s options = record s { options = options }

abbrev pub is_legacy : AnalysisMode → Bool
is_legacy legacy = true
is_legacy _ = false

abbrev pub is_ir : AnalysisMode → Bool
is_ir ir_instructions = true
is_ir _ = false

abbrev pub is_hierarchy : AnalysisMode → Bool
is_hierarchy hierarchy_rd = true
is_hierarchy _ = false

abbrev pub is_mapping : AnalysisMode → Bool
is_mapping mapping = true
is_mapping _ = false

abbrev pub is_cache_line : Granularity → Bool
is_cache_line cache_line = true
is_cache_line element = false

abbrev pub include_ir_instructions : Options → Options
include_ir_instructions o = record o {
  include_ir = true;
  analysis_mode = if is_legacy o.analysis_mode then ir_instructions else o.analysis_mode;
}

-- `mapping` or `hierarchy-rd`, as the flag says.
unfoldable pub select_analysis : Bool → Options → Result Options
select_analysis maps o =
    let same = if maps then is_mapping o.analysis_mode else is_hierarchy o.analysis_mode in
    do
      throw_if (not (is_legacy o.analysis_mode) && not (is_ir o.analysis_mode) && not same)
          invalid_argument
      ok (record o { analysis_mode = if maps then mapping else hierarchy_rd })

unfoldable pub apply_analysis : String → Options → Result Options
unfolding select_analysis
apply_analysis name o =
    if name == "ir-instructions"
    then ok (include_ir_instructions o)
    else if name == "mapping" || name == "hierarchy-rd"
    then select_analysis (name == "mapping") o
    else throw invalid_argument

unfoldable pub apply_granularity : String → Options → Result Options
apply_granularity name o =
    if name == "element"
    then ok (record o { granularity = element; granularity_explicit = true })
    else if name == "cache-line"
    then ok (record o { granularity = cache_line; granularity_explicit = true })
    else throw invalid_argument

abbrev pub set_loop_limits : Options → ℕ → ℕ → Options
set_loop_limits o single cumulative = record o {
  loop_limits = record { single_loop_iterations = single; cumulative_loop_iterations = cumulative };
}

abbrev pub set_emission_limits : Options → ℕ → ℕ → Options
set_emission_limits o accesses references = record o {
  emission_limits = record {
    emitted_source_accesses = accesses;
    emitted_line_references = references;
  };
}

-- What the loop does with an option and its value.
unfoldable pub apply_setting : Setting → String → ParseState → Result ParseState
apply_setting analysis value s = apply_analysis value s.options >>= λ o. ok (update s o)
apply_setting telemetry value s = artifact_path value >>= λ path.
    ok (record s { hierarchy_options = true; options = record s.options { telemetry_path = path } })
apply_setting export_events value s = artifact_path value >>= λ path.
    ok (record s { hierarchy_options = true; options = record s.options { events_path = path } })
apply_setting event_limit value s = unsigned_value value >>= λ limit. ok (record {
  hierarchy_options = true;
  event_limit_explicit = true;
  options = record s.options { event_limit = limit };
})
apply_setting max_single value s = unsigned_value value >>= λ limit.
    ok (update s (set_loop_limits s.options limit s.options.loop_limits.cumulative_loop_iterations))
apply_setting max_cumulative value s = unsigned_value value >>= λ limit.
    ok (update s (set_loop_limits s.options s.options.loop_limits.single_loop_iterations limit))
apply_setting max_source value s = unsigned_value value >>= λ limit. ok (record s {
  hierarchy_options = true;
  options = set_emission_limits s.options limit s.options.emission_limits.emitted_line_references;
})
apply_setting max_line value s = unsigned_value value >>= λ limit. ok (record s {
  hierarchy_options = true;
  options = set_emission_limits s.options s.options.emission_limits.emitted_source_accesses limit;
})
apply_setting mode value s = throw_if (not (value == "unroll")) invalid_argument >> ok s
apply_setting granularity value s = apply_granularity value s.options >>= λ o. ok (update s o)
apply_setting cache value s = ok (update s (record s.options { cache_path = value }))
apply_setting elf value s = ok (update s (record s.options { elf_path = value }))
apply_setting export value s = ok (update s (record s.options { export_path = value }))

-- An argument that is no option.
unfoldable pub apply_operand : String → ParseState → Result ParseState
apply_operand argument s = do
  throw_if (not (is_empty s.options.input)) invalid_argument
  ok (update s (record s.options { input = argument }))

-- The tests for the analyses of memory, once the mode is not `ir-instructions`.
unfoldable pub check_hierarchy : ParseState → Result (Unit {0})
unfolding artifact_path
check_hierarchy s =
    if is_hierarchy s.options.analysis_mode
    then (throw_if (is_empty s.options.export_path) invalid_argument >>= λ _.
        artifact_path s.options.export_path >>= λ _.
        throw_if (s.event_limit_explicit && is_empty s.options.events_path) invalid_argument)
    else ok tt

unfoldable pub check_memory : ParseState → Result Options
check_memory s =
    let o = s.options in
    do
      throw_if (not (is_legacy o.analysis_mode) && is_empty o.elf_path) invalid_argument
      check_hierarchy s
      throw_if (not (is_empty o.elf_path) && is_empty o.cache_path) invalid_argument
      throw_if
          (not (is_empty o.elf_path) && o.granularity_explicit && not (is_cache_line o.granularity))
          invalid_argument
      throw_if (is_cache_line o.granularity && is_empty o.cache_path) invalid_argument
      ok o

unfoldable pub check_ir : ParseState → Result Options
check_ir s =
    let o = s.options in
    do
      throw_if (not (is_empty o.elf_path) || not (is_empty o.cache_path) || o.granularity_explicit)
          invalid_argument
      ok o

-- What follows the loop.
unfoldable pub check_options : ParseState → Result Options
check_options s = do
  throw_if (is_empty s.options.input) invalid_argument
  throw_if (not (is_hierarchy s.options.analysis_mode) && s.hierarchy_options) invalid_argument
  (if is_ir s.options.analysis_mode then check_ir s else check_memory s)

-- `--help` prints the usage and ends the process with success.
pub data Invocation : Type 0 where
  usage : Invocation
  run : Options → Invocation

abbrev pub then_run : Result Options → Result Invocation
then_run checked = checked >>= λ o. ok (run o)

-- The last argument has no value after it.
unfoldable pub parse_loop : List String → ParseState → Result Invocation
parse_loop [] s = then_run (check_options s)
parse_loop (argument ∷ []) s = elim (flag_of argument) [
  | valued setting ↦ throw invalid_argument
  | help ↦ ok usage
  | unknown ↦ throw invalid_argument
  | operand ↦ apply_operand argument s >>= λ s'. then_run (check_options s')
]
parse_loop (argument ∷ value ∷ rest) s = elim (flag_of argument) [
  | valued setting ↦ apply_setting setting value s >>= λ s'. parse_loop rest s'
  | help ↦ ok usage
  | unknown ↦ throw invalid_argument
  | operand ↦ apply_operand argument s >>= λ s'. parse_loop (value ∷ rest) s'
]

abbrev pub start : ParseState
start = record { options = defaults; hierarchy_options = false; event_limit_explicit = false }

-- `argv` after the name of the program.
unfoldable pub parse_options : List String → Result Invocation
unfolding parse_loop
parse_options arguments = parse_loop arguments start
