-- ===== src/Tests/Profiles.antt =====
-- The profile of a trace of names.
use Prim.Native.String.{String}
use text.Mathlib.Text.{◌==◌ as str_eq}
use text.Mathlib.TextEquality.{eq_iff}
use yet_another_reuse_distan.Prelude.{
  ℕ, zero, suc, ◌≡◌, refl, sym, ap, ◌∙◌, inl, inr, Bool-cases, [], ◌∷◌, List, length, ◌==◌, arith,
}
use yet_another_reuse_distan.Batch.Csrd.{
  IndexedLine, BatchCsrdResult, analyze_set, empty_set, unseen,
}
use yet_another_reuse_distan.Reuse.Profile.{calculate_reuse_profile}
use yet_another_reuse_distan.Reuse.Profile.{
  profile_names, profile_name, find_name, set_name, add_name, has_name,
}
use yet_another_reuse_distan.Batch.Csrd.{add, add_loop, count_distance, next}
use yet_another_reuse_distan.Rd.Fenwick.{bump, prefix_sum}
use yet_another_reuse_distan.Prelude.Maps.{count_at, find, insert}
use yet_another_reuse_distan.Bits.Lowbit.{lowbit}
use yet_another_reuse_distan.Reuse.Profile.Batch.{names_of, calculate_reuse_profile-analyze_set}

-- A name of so many letters.
unfoldable letters : ℕ → String
letters zero = String.[]
letters (suc n) = String.◌∷◌ "a" (letters n)

unfoldable size : String → ℕ
size String.[] = 0
size (String.◌∷◌ c s) = suc (size s)

size-letters : (n : ℕ) → size (letters n) ≡ n
unfolding size letters
size-letters zero = refl
size-letters (suc n) = ap suc (size-letters n)

letters_apart : (i j : ℕ) → str_eq (letters i) (letters j) ≡ (i == j)
letters_apart i j = elim (Bool-cases (i == j)) [
  | inl same ↦
      let e : i ≡ j = ground (arith, same) in
      rw same ((eq_iff (letters i) (letters j)).1 (ap letters e))
  | inr differ ↦ elim (Bool-cases (str_eq (letters i) (letters j))) [
    | inl same ↦
        let e : i ≡ j =
          sym (size-letters i)
          ∙ ap size ((eq_iff (letters i) (letters j)).0 same)
          ∙ size-letters j in
        ground (arith, differ, e)
    | inr apart ↦ rw differ apart
  ]
]

abbrev three_lines : List IndexedLine
three_lines =
    record { input_index = 0; tag = 2 }
    ∷ record { input_index = 1; tag = 3 }
    ∷ record { input_index = 2; tag = 2 }
    ∷ []

abbrev unseen_lines : BatchCsrdResult
unseen_lines = record {
  accesses = unseen ∷ unseen ∷ unseen ∷ [];
  histogram = [];
  sets = [];
  hits = 0;
  cold_misses = 0;
  replacement_misses = 0;
}

calculate_reuse_profile-analyze_set_example :
    ((calculate_reuse_profile (names_of letters three_lines)).histogram
      ≡ (analyze_set three_lines 2 unseen_lines empty_set).1.histogram)
    × (length (calculate_reuse_profile (names_of letters three_lines)).cold_misses
        ≡ (analyze_set three_lines 2 unseen_lines empty_set).1.cold_misses)
calculate_reuse_profile-analyze_set_example =
    calculate_reuse_profile-analyze_set letters letters_apart three_lines 2 unseen_lines
      (omega arith)

-- One distinct name came between the two uses of the first.
distance_of_three : (calculate_reuse_profile (names_of letters three_lines)).histogram ≡ (1, 1) ∷ []
unfolding calculate_reuse_profile profile_names profile_name find_name set_name add_name has_name
    names_of letters add add_loop bump prefix_sum count_distance next count_at find insert lowbit
distance_of_three = refl
