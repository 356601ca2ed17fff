-- ===== src/Cli/Options/Accepted.antt =====
-- backend/src/cli/options.cpp: what holds of the options that are accepted.
use Prim.Native.String.{String}
use mathlib.Core.Path.{subst}
use yet_another_reuse_distan.Prelude.{
  ◌⊎◌, inl, inr, Bool-cases, invalid_argument, ◌≡◌, refl, true, false, not, ◌&&◌, List, [], ◌∷◌,
  arith, ◌==◌, ok, throw_if, ◌>>=◌, >>=-eq-ok, throw_if-eq-ok,
}
use yet_another_reuse_distan.Cli.Options.{
  Options, is_empty, unusable, starts_with_dash, is_legacy, is_ir, is_hierarchy, is_cache_line,
  Setting, Flag, ParseState, other_flag, flag_of, unsigned_value, artifact_path, select_analysis,
  apply_analysis, apply_granularity, apply_setting, apply_operand, check_hierarchy, check_ir,
  check_memory, check_options, Invocation, parse_loop, parse_options, start, then_run,
}
use yet_another_reuse_distan.Cli.Options.Coherent.{◌⇒◌, is_plain, Fits, Formed, Required, Coherent}

record LoopInvariant (s : ParseState) : Type 0 where
  fits : Fits s.options
  formed : Formed s.options
  limit : (not s.event_limit_explicit ⇒ s.options.event_limit == 0) ≡ true
  plain : (not s.hierarchy_options ⇒ is_plain s.options) ≡ true

start_lem : LoopInvariant start
start_lem = record {
  fits = omega arith;
  formed = record {
    input = refl;
    ir_included = refl;
    ir_selected = refl;
    explicit = refl;
    telemetry = refl;
    events = refl;
  };
  limit = refl;
  plain = refl;
}

other_flag-operand :
    (argument : String)
    → other_flag argument ≡ Flag.operand
    → (not (starts_with_dash argument)) ≡ true
unfolding other_flag
other_flag-operand argument h = ground arith

flag_of-operand :
    (argument : String) → flag_of argument ≡ Flag.operand → (not (starts_with_dash argument)) ≡ true
unfolding flag_of
flag_of-operand argument h = ground (arith, other_flag-operand argument)

apply_setting-LoopInvariant :
    (setting : Setting) (value : String) (s : ParseState) {t : ParseState}
    → LoopInvariant s
    → apply_setting setting value s ≡ ok t
    → LoopInvariant t
unfolding apply_setting apply_analysis select_analysis apply_granularity artifact_path
    unsigned_value
apply_setting-LoopInvariant Setting.analysis value s v h = ground arith
apply_setting-LoopInvariant Setting.telemetry value s v h = ground arith
apply_setting-LoopInvariant Setting.export_events value s v h = ground arith
apply_setting-LoopInvariant Setting.event_limit value s v h = ground arith
apply_setting-LoopInvariant Setting.max_single value s v h = ground arith
apply_setting-LoopInvariant Setting.max_cumulative value s v h = ground arith
apply_setting-LoopInvariant Setting.max_source value s v h = ground arith
apply_setting-LoopInvariant Setting.max_line value s v h = ground arith
apply_setting-LoopInvariant Setting.mode value s v h = ground arith
apply_setting-LoopInvariant Setting.granularity value s v h = ground arith
apply_setting-LoopInvariant Setting.cache value s v h = ground arith
apply_setting-LoopInvariant Setting.elf value s v h = ground arith
apply_setting-LoopInvariant Setting.export value s v h = ground arith

apply_operand-LoopInvariant :
    (argument : String) (s : ParseState) {t : ParseState}
    → LoopInvariant s
    → (not (starts_with_dash argument)) ≡ true
    → apply_operand argument s ≡ ok t
    → LoopInvariant t
unfolding apply_operand
apply_operand-LoopInvariant argument s v plain h = ground arith

-- What the tests of the hierarchy analysis leave.
check_hierarchy-ok :
    (s : ParseState) {u : Unit {0}}
    → check_hierarchy s ≡ ok u
    → ((is_hierarchy s.options.analysis_mode ⇒ not (unusable s.options.export_path)) ≡ true)
      × ((is_hierarchy s.options.analysis_mode && s.event_limit_explicit
            ⇒ not (is_empty s.options.events_path))
          ≡ true)
unfolding check_hierarchy artifact_path
check_hierarchy-ok s h = ground arith

-- The options that leave the tests of memory analyses, and what the tests say of them.
check_memory-ok :
    (s : ParseState) {o : Options}
    → check_memory s ≡ ok o
    → (s.options ≡ o)
      × ((not (is_legacy s.options.analysis_mode) && is_empty s.options.elf_path) ≡ false)
      × (check_hierarchy s ≡ ok tt)
      × ((not (is_empty s.options.elf_path) && is_empty s.options.cache_path) ≡ false)
      × ((not (is_empty s.options.elf_path)
            && s.options.granularity_explicit
            && not (is_cache_line s.options.granularity))
          ≡ false)
      × ((is_cache_line s.options.granularity && is_empty s.options.cache_path) ≡ false)
unfolding check_memory
check_memory-ok s h = ground arith

check_memory-Required :
    (s : ParseState) {o : Options}
    → LoopInvariant s
    → is_ir s.options.analysis_mode ≡ false
    → (not (is_hierarchy s.options.analysis_mode) && s.hierarchy_options) ≡ false
    → is_empty s.options.input ≡ false
    → check_memory s ≡ ok o
    → (s.options ≡ o) × Required s.options
check_memory-Required s v memory plain given h =
    let (same, elf, hierarchy, cached, granular, lines) = check_memory-ok s h in
    let (export, limit) = check_hierarchy-ok s hierarchy in
    (
      same,
      record {
        input = given;
        plain = ground arith;
        ir = ground arith;
        elf = ground arith;
        export = export;
        event_limit = ground arith;
        cache = ground arith;
        granularity = ground arith;
      },
    )

check_ir-Required :
    (s : ParseState) {o : Options}
    → LoopInvariant s
    → is_ir s.options.analysis_mode ≡ true
    → (not (is_hierarchy s.options.analysis_mode) && s.hierarchy_options) ≡ false
    → is_empty s.options.input ≡ false
    → check_ir s ≡ ok o
    → (s.options ≡ o) × Required s.options
unfolding check_ir
check_ir-Required s v ir plain given h = (
  ground arith,
  record {
    input = given;
    plain = ground arith;
    ir = ground arith;
    elf = ground arith;
    export = ground arith;
    event_limit = ground arith;
    cache = ground arith;
    granularity = ground arith;
  },
)

check_options-Coherent :
    (s : ParseState) {o : Options} → LoopInvariant s → check_options s ≡ ok o → Coherent o
unfolding check_options
check_options-Coherent s {o} v h =
    let (_, given, h1) = >>=-eq-ok (throw_if (is_empty s.options.input) invalid_argument) _ h in
    let (_, plain, h2) =
      >>=-eq-ok
        (throw_if (not (is_hierarchy s.options.analysis_mode) && s.hierarchy_options)
          invalid_argument)
        _ h1 in
    let has_input = throw_if-eq-ok _ _ given in
    let unchanged = throw_if-eq-ok _ _ plain in
    let finished : (s.options ≡ o) × Required s.options =
      elim (Bool-cases (is_ir s.options.analysis_mode)) [
        | inl ir ↦
            let checked : check_ir s ≡ ok o = ground (arith, h2, ir) in
            check_ir-Required s v ir unchanged has_input checked
        | inr memory ↦
            let checked : check_memory s ≡ ok o = ground (arith, h2, memory) in
            check_memory-Required s v memory unchanged has_input checked
      ] in
    subst Coherent finished.0 (record { fits = v.fits; formed = v.formed; required = finished.1 })

then_run-Coherent :
    (s : ParseState) {o : Options}
    → LoopInvariant s
    → then_run (check_options s) ≡ ok (Invocation.run o)
    → Coherent o
then_run-Coherent s v h =
    let (found, checked, same) = >>=-eq-ok (check_options s) _ h in
    check_options-Coherent s v (ground (arith, checked, same))

-- The flags that let the loop go on.
continues :
    (argument : String)
    → ((setting : Setting) × (flag_of argument ≡ Flag.valued setting))
      ⊎ (flag_of argument ≡ Flag.operand)
      ⊎ ((flag_of argument ≡ Flag.help) ⊎ (flag_of argument ≡ Flag.unknown))
continues argument = flag_cases (flag_of argument)
  where
    flag_cases :
        (f : Flag)
        → ((setting : Setting) × (f ≡ Flag.valued setting))
          ⊎ (f ≡ Flag.operand)
          ⊎ ((f ≡ Flag.help) ⊎ (f ≡ Flag.unknown))
    flag_cases (Flag.valued setting) = inl (setting, refl)
    flag_cases Flag.operand = inr (inl refl)
    flag_cases Flag.help = inr (inr (inl refl))
    flag_cases Flag.unknown = inr (inr (inr refl))

parse_loop-Coherent :
    (arguments : List String) (s : ParseState) {o : Options}
    → LoopInvariant s
    → parse_loop arguments s ≡ ok (Invocation.run o)
    → Coherent o
unfolding parse_loop
parse_loop-Coherent [] s v h = then_run-Coherent s v h
parse_loop-Coherent (argument ∷ []) s {o} v h = elim (continues argument) [
  | inl (setting, e) ↦ ground (arith, h, e)
  | inr (inl e) ↦
      let ran : (apply_operand argument s >>= λ t. then_run (check_options t))
          ≡ ok (Invocation.run o) =
        ground (arith, h, e) in
      let (t, applied, checked) = >>=-eq-ok (apply_operand argument s) _ ran in
      then_run-Coherent t
        (apply_operand-LoopInvariant argument s v (flag_of-operand argument e) applied) checked
  | inr (inr (inl e)) ↦ ground (arith, h, e)
  | inr (inr (inr e)) ↦ ground (arith, h, e)
]
parse_loop-Coherent (argument ∷ value ∷ rest) s {o} v h = elim (continues argument) [
  | inl (setting, e) ↦
      let ran : (apply_setting setting value s >>= λ t. parse_loop rest t) ≡ ok (Invocation.run o) =
        ground (arith, h, e) in
      let (t, applied, looped) = >>=-eq-ok (apply_setting setting value s) _ ran in
      parse_loop-Coherent rest t (apply_setting-LoopInvariant setting value s v applied) looped
  | inr (inl e) ↦
      let ran : (apply_operand argument s >>= λ t. parse_loop (value ∷ rest) t)
          ≡ ok (Invocation.run o) =
        ground (arith, h, e) in
      let (t, applied, looped) = >>=-eq-ok (apply_operand argument s) _ ran in
      parse_loop-Coherent (value ∷ rest) t
        (apply_operand-LoopInvariant argument s v (flag_of-operand argument e) applied) looped
  | inr (inr (inl e)) ↦ ground (arith, h, e)
  | inr (inr (inr e)) ↦ ground (arith, h, e)
]

-- Options that are accepted are coherent: an input that is no option, limits of 64 bits, a selected
-- analysis wherever instruction counts are asked for, files to write that can be named, and of each
-- analysis what it needs and nothing that it refuses.
pub parse_options-Coherent :
    (arguments : List String) {o : Options}
    → parse_options arguments ≡ ok (Invocation.run o)
    → Coherent o
unfolding parse_options
parse_options-Coherent arguments h = parse_loop-Coherent arguments start start_lem h
