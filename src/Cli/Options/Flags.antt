-- ===== src/Cli/Options/Flags.antt =====
-- backend/src/cli/options.cpp: rounds of the loop over the arguments.
use Prim.Native.String.{String}
use text.Mathlib.Text.{◌==◌ as str_eq}
use text.Mathlib.TextEquality.{eq_iff}
use yet_another_reuse_distan.Prelude.{
  ◌≡◌, ap, sym, none, refl, true, false, List, [], ◌∷◌, ◌++◌, arith, Bool-cases, inl, inr, ok,
}
use yet_another_reuse_distan.Cli.Options.{
  is_empty, starts_with_dash, Setting, Flag, ParseState, flag_of, setting_of, other_flag,
  apply_setting, apply_operand, parse_loop,
}
use yet_another_reuse_distan.Cli.Options.Arguments.{path_option}

-- An option with a value that is accepted.
pub parse_loop-valued :
    (argument value : String) (rest : List String) (setting : Setting) (s t : ParseState)
    → flag_of argument ≡ Flag.valued setting
    → apply_setting setting value s ≡ ok t
    → parse_loop (argument ∷ value ∷ rest) s ≡ parse_loop rest t
unfolding parse_loop
parse_loop-valued argument value rest setting s t flag applied = ground (arith, flag, applied)

pub parse_loop-operand :
    (argument : String) (rest : List String) (s t : ParseState)
    → flag_of argument ≡ Flag.operand
    → apply_operand argument s ≡ ok t
    → parse_loop (argument ∷ rest) s ≡ parse_loop rest t
unfolding parse_loop
parse_loop-operand argument [] s t flag applied = ground (arith, flag, applied)
parse_loop-operand argument (value ∷ rest) s t flag applied = ground (arith, flag, applied)

-- A path that is left away is empty in the state before.
pub parse_loop-path_option :
    (name path : String) (rest : List String) (setting : Setting) (s : ParseState)
    → (put : String → ParseState) → flag_of name ≡ Flag.valued setting
    → (is_empty path ≡ false → apply_setting setting path s ≡ ok (put path))
    → put "" ≡ s
    → parse_loop (path_option name path ++ rest) s ≡ parse_loop rest (put path)
parse_loop-path_option name String.[] rest setting s put flag applied same =
    ap (parse_loop rest) (sym same)
parse_loop-path_option name (String.◌∷◌ c path) rest setting s put flag applied same =
    parse_loop-valued name (String.◌∷◌ c path) rest setting s (put (String.◌∷◌ c path)) flag
      (applied refl)

dash_ne :
    (argument name : String)
    → starts_with_dash argument ≡ false
    → starts_with_dash name ≡ true
    → str_eq argument name ≡ false
dash_ne argument name plain dashed = elim (Bool-cases (str_eq argument name)) [
  | inl same ↦ let e : argument ≡ name = (eq_iff argument name).0 same in cc (plain, dashed, e)
  | inr differs ↦ differs
]

setting_of-plain :
    (argument : String) → starts_with_dash argument ≡ false → setting_of argument ≡ none
unfolding setting_of
setting_of-plain argument plain = rw (
  ne "--analysis" refl,
  ne "--telemetry" refl,
  ne "--export-events" refl,
  ne "--event-limit" refl,
  ne "--max-single-loop-iterations" refl,
  ne "--max-cumulative-loop-iterations" refl,
  ne "--max-source-accesses" refl,
  ne "--max-line-references" refl,
  ne "--mode" refl,
  ne "--granularity" refl,
  ne "--cache" refl,
  ne "--elf" refl,
  ne "--export" refl,
)
  where
    ne : (name : String) → starts_with_dash name ≡ true → str_eq argument name ≡ false
    ne name dashed = dash_ne argument name plain dashed

pub flag_of-plain :
    (argument : String) → starts_with_dash argument ≡ false → flag_of argument ≡ Flag.operand
unfolding flag_of other_flag
flag_of-plain argument plain = ground (
  arith,
  setting_of-plain argument plain,
  dash_ne argument "--help" plain refl,
  dash_ne argument "-h" plain refl,
)
