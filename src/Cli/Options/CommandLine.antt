-- ===== src/Cli/Options/CommandLine.antt =====
-- backend/src/cli/options.cpp: coherent options can be written as arguments, and are read back.
use yet_another_reuse_distan.Prelude.{
  ◌≡◌, ap, refl, ◌∙◌, false, not, ◌&&◌, [], arith, Bool-cases, inl, inr, ok,
}
use yet_another_reuse_distan.Cli.Options.{
  Options, is_empty, is_hierarchy, ParseState, artifact_path, apply_operand, check_hierarchy,
  check_ir, check_memory, check_options, Invocation, parse_loop, parse_options, start,
}
use yet_another_reuse_distan.Cli.Options.Coherent.{Coherent}
use yet_another_reuse_distan.Cli.Options.Arguments.{hierarchy_arguments, command_line}
use yet_another_reuse_distan.Cli.Options.Flags.{parse_loop-operand, flag_of-plain}
use yet_another_reuse_distan.Cli.Options.Steps.{
  with_input, with_limits, plain, is_empty-eq, analysis_step, granularity_step, paths_step,
  limits_step, emission_step, telemetry_step, events_step,
}

-- The state after the whole command line.
abbrev final : Options → ParseState
final o = record {
  options = o;
  hierarchy_options = is_hierarchy o.analysis_mode;
  event_limit_explicit = is_hierarchy o.analysis_mode && not (is_empty o.events_path);
}

check_options-final : (o : Options) → Coherent o → check_options (final o) ≡ ok o
unfolding check_options check_ir check_memory check_hierarchy artifact_path
check_options-final o c = ground arith

plain-final :
    (o : Options)
    → Coherent o
    → is_hierarchy o.analysis_mode ≡ false
    → plain (with_limits o)
      ≡ record { options = o; hierarchy_options = false; event_limit_explicit = false }
plain-final o c none_used = ground (arith, is_empty-eq o.telemetry_path, is_empty-eq o.events_path)

finish : (o : Options) → Coherent o → parse_loop [] (final o) ≡ ok (Invocation.run o)
unfolding parse_loop
finish o c = rw (check_options-final o c)

hierarchy_step :
    (o : Options)
    → Coherent o
    → parse_loop (hierarchy_arguments o) (plain (with_limits o)) ≡ parse_loop [] (final o)
hierarchy_step o c = elim (Bool-cases (is_hierarchy o.analysis_mode)) [
  | inl selected ↦ rw selected (
      emission_step o _ c.fits
      ∙ telemetry_step o _ c.formed.telemetry
      ∙ events_step o [] c.formed.events c.required.event_limit c.fits.event_limit)
  | inr other ↦ rw other (ap (λ s. parse_loop [] s) (plain-final o c other))
]

-- Coherent options are written as a command line that is read back as the same options.
pub parse_options-command_line :
    (o : Options) → Coherent o → parse_options (command_line o) ≡ ok (Invocation.run o)
unfolding parse_options command_line apply_operand
parse_options-command_line o c =
    parse_loop-operand o.input _ start (plain (with_input o))
      (flag_of-plain o.input (ground (arith, c.formed.input))) refl
    ∙ analysis_step o _ o.analysis_mode o.include_ir c.formed.ir_included c.formed.ir_selected
    ∙ granularity_step o _ o.granularity_explicit o.granularity c.formed.explicit
    ∙ paths_step o _
    ∙ limits_step o _ c.fits
    ∙ hierarchy_step o c
    ∙ finish o c
