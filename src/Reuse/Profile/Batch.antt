-- ===== src/Reuse/Profile/Batch.antt =====
-- The profile of names against the batch analysis of one set.
use Prim.Native.String.{String}
use text.Mathlib.Text.{◌==◌ as str_eq}
use text.Mathlib.TextEquality.{eq_iff}
use mathlib.Core.Path.{subst}
use yet_another_reuse_distan.Prelude.{
  ℕ, ◌+◌, ◌^◌, ◌<◌, ◌≡◌, refl, sym, ap, ◌∙◌, inl, inr, Bool, true, false, ◌||◌, List, [], ◌∷◌,
  Option, none, some, if◌then◌else◌, length, replicate, arith, ◌==◌, Option-cases, Bool-cases,
}
use yet_another_reuse_distan.Prelude.Maps.{find, insert, find-insert}
use yet_another_reuse_distan.Batch.Csrd.{
  IndexedLine, BatchCsrdResult, SetLoop, next, record_reuse, analyze_line, analyze_lines,
  analyze_set, empty_set,
}
use yet_another_reuse_distan.Reuse.Profile.{
  ProfileLoop, find_name, set_name, has_name, add_name, profile_name, profile_names,
  calculate_reuse_profile,
}

abbrev is_found : Option ℕ → Bool
is_found none = false
is_found (some v) = true

-- The name of each line is that of its tag.
unfoldable pub names_of : (ℕ → String) → List IndexedLine → List String
names_of name [] = []
names_of name (line ∷ lines) = name line.tag ∷ names_of name lines

length-names_of :
    (name : ℕ → String) (lines : List IndexedLine) → length (names_of name lines) ≡ length lines
unfolding names_of
length-names_of name [] = refl
length-names_of name (line ∷ lines) = ground (arith, length-names_of name lines)

different :
    (a b other : String) → str_eq b other ≡ false → str_eq a other ≡ true → str_eq a b ≡ false
different a b other e h = elim (Bool-cases (str_eq a b)) [
  | inl same ↦
      let b_other : b ≡ other = sym ((eq_iff a b).0 same) ∙ (eq_iff a other).0 h in
      ground (arith, e, (eq_iff b other).1 b_other)
  | inr apart ↦ apart
]

find_name-set_name :
    (a b : String) (position : ℕ) (seen : List (String × ℕ))
    → find_name a (set_name b position seen)
      ≡ (if str_eq a b then some position else find_name a seen)
unfolding find_name set_name
find_name-set_name a b position [] = refl
find_name-set_name a b position ((other, old) ∷ seen) = elim (Bool-cases (str_eq b other)) [
  | inl e ↦
      let same : str_eq a b ≡ str_eq a other = ap (str_eq a) ((eq_iff b other).0 e) in
      ground (arith, e, same)
  | inr e ↦ elim (Bool-cases (str_eq a other)) [
    | inl h ↦ ground (arith, e, h, different a b other e h)
    | inr h ↦ ground (arith, e, h, find_name-set_name a b position seen)
  ]
]

module _ (name : ℕ → String) (apart : (i j : ℕ) → str_eq (name i) (name j) ≡ (i == j)) where
  -- The two loops keep the same.
  record Agrees (position : ℕ) (p : ProfileLoop) (s : SetLoop) : Type 0 where
    positions : p.positions ≡ s.positions
    seen : (k : ℕ) → find_name (name k) p.last_seen ≡ find k s.last_seen
    histogram : p.profile.histogram ≡ s.lines.histogram
    names : (k : ℕ) → has_name (name k) p.profile.cold_misses ≡ is_found (find k s.last_seen)
    misses : length p.profile.cold_misses ≡ s.lines.cold_misses
    few : s.lines.cold_misses < position

  module _ (ways position : ℕ) (line : IndexedLine) (p : ProfileLoop) (s : SetLoop)
      (room : position < 2 ^ 64) (v : Agrees position p s) where
    seen_next :
        (k : ℕ)
        → find_name (name k) (set_name (name line.tag) position p.last_seen)
          ≡ find k (insert line.tag position s.last_seen)
    seen_next k = ground (
      arith,
      find_name-set_name (name k) (name line.tag) position p.last_seen,
      find-insert k line.tag position s.last_seen,
      apart k line.tag,
      v.seen k,
    )

    -- Where the round of each loop has such results, the loops agree after it.
    agrees :
        (p' : ProfileLoop) (s' : SetLoop)
        → p'.positions ≡ s'.positions
        → p'.last_seen ≡ set_name (name line.tag) position p.last_seen
        → s'.last_seen ≡ insert line.tag position s.last_seen
        → p'.profile.histogram ≡ s'.lines.histogram
        → ((k : ℕ)
            → has_name (name k) p'.profile.cold_misses
              ≡ (k == line.tag || has_name (name k) p.profile.cold_misses))
        → length p'.profile.cold_misses ≡ s'.lines.cold_misses
        → s'.lines.cold_misses < position + 1
        → Agrees (position + 1) p' s'
    agrees p' s' same named kept counted added missed few = record {
      positions = same;
      seen = λ k. ap (find_name (name k)) named ∙ seen_next k ∙ sym (ap (find k) kept);
      histogram = counted;
      names = λ k. ground (
        arith,
        added k,
        v.names k,
        find-insert k line.tag position s.last_seen,
        ap (find k) kept,
      );
      misses = missed;
      few = few;
    }

    after_new :
        find line.tag s.last_seen ≡ none
        → Agrees
            (position + 1)
            (profile_name position (name line.tag) p)
            (analyze_line ways position line s)
    unfolding profile_name analyze_line add_name has_name next
    after_new new =
        let absent = v.seen line.tag ∙ new in
        let unnamed = v.names line.tag ∙ ap is_found new in
        agrees (profile_name position (name line.tag) p) (analyze_line ways position line s)
          (ground (arith, absent, new, v.positions)) (ground (arith, absent)) (ground (arith, new))
          (ground (arith, absent, new, v.histogram))
          (λ k. ground (arith, absent, unnamed, apart k line.tag))
          (ground (arith, absent, unnamed, new, v.misses, v.few, room))
          (ground (arith, new, v.few, room))

    after_old :
        (previous : ℕ)
        → find line.tag s.last_seen ≡ some previous
        → Agrees
            (position + 1)
            (profile_name position (name line.tag) p)
            (analyze_line ways position line s)
    unfolding profile_name analyze_line record_reuse
    after_old previous old =
        let found = v.seen line.tag ∙ old in
        let named = v.names line.tag ∙ ap is_found old in
        agrees (profile_name position (name line.tag) p) (analyze_line ways position line s)
          (ground (arith, found, old, v.positions)) (ground (arith, found)) (ground (arith, old))
          (ground (arith, found, old, v.positions, v.histogram))
          (λ k. ground (
            arith,
            found,
            named,
            ap (λ (i : ℕ). has_name (name i) p.profile.cold_misses) {x = k} {y = line.tag},
          ))
          (ground (arith, found, old, v.misses)) (ground (arith, old, v.few))

    profile_name-Agrees :
        Agrees
          (position + 1)
          (profile_name position (name line.tag) p)
          (analyze_line ways position line s)
    profile_name-Agrees = elim (Option-cases (find line.tag s.last_seen)) [
      | inl new ↦ after_new new
      | inr (previous, old) ↦ after_old previous old
    ]

  -- The loops agree after all the lines.
  profile_names-Agrees :
      (ways position : ℕ) (lines : List IndexedLine) (p : ProfileLoop) (s : SetLoop)
      → position + length lines < 2 ^ 64
      → Agrees position p s
      → Agrees
          (position + length lines)
          (profile_names position (names_of name lines) p)
          (analyze_lines ways position lines s)
  unfolding profile_names analyze_lines names_of
  profile_names-Agrees ways position [] p s room v = subst (λ (n : ℕ). Agrees n p s) (omega arith) v
  profile_names-Agrees ways position (line ∷ lines) p s room v =
      let here = profile_name-Agrees ways position line p s (omega (arith, room)) v in
      let p' = profile_name position (name line.tag) p in
      let s' = analyze_line ways position line s in
      subst
        (λ (n : ℕ).
          Agrees n (profile_names (position + 1) (names_of name lines) p')
            (analyze_lines ways (position + 1) lines s'))
        (omega arith)
        (profile_names-Agrees ways (position + 1) lines p' s' (omega (arith, room)) here)

  -- The profile of the names of fewer than 2 ^ 63 lines, where distinct tags have distinct names,
  -- has the histogram that the batch analysis computes for a set of these lines, and as many cold
  -- names as the set has cold misses.
  pub calculate_reuse_profile-analyze_set :
      (lines : List IndexedLine) (ways : ℕ) (result : BatchCsrdResult)
      → length lines < 2 ^ 63
      → ((calculate_reuse_profile (names_of name lines)).histogram
          ≡ (analyze_set lines ways result empty_set).1.histogram)
        × (length (calculate_reuse_profile (names_of name lines)).cold_misses
            ≡ (analyze_set lines ways result empty_set).1.cold_misses)
  unfolding calculate_reuse_profile analyze_set find find_name has_name
  calculate_reuse_profile-analyze_set lines ways result small =
      let v =
        profile_names-Agrees ways 1 lines
          (record {
            positions = replicate (length (names_of name lines) + 1) 0;
            last_seen = [];
            profile = record { histogram = []; cold_misses = [] };
          })
          (record {
            positions = replicate (length lines + 1) 0;
            last_seen = [];
            result = result;
            lines = empty_set;
          })
          (omega (arith, small))
          (record {
            positions = ap (λ (n : ℕ). replicate (n + 1) 0) (length-names_of name lines);
            seen = λ k. refl;
            histogram = refl;
            names = λ k. refl;
            misses = refl;
            few = omega arith;
          }) in
      (v.histogram, v.misses)
