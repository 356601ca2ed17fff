-- ===== src/Elf/Images/Absent.antt =====
-- backend/src/elf/data_regions.cpp: the sections that have no region.
use yet_another_reuse_distan.Prelude.{
  ℕ, zero, suc, ◌+◌, ◌≡◌, sym, ap, ◌∙◌, inl, inr, List, [], ◌∷◌, none, some, arith, get_elem?,
  Option-cases,
}
use yet_another_reuse_distan.Prelude.Maps.{find, insert, find-insert}
use yet_another_reuse_distan.Elf.Regions.{ElfDataRegion}
use yet_another_reuse_distan.Elf.Images.{index_from}

-- No region is of the section.
abbrev pub NoRegion : List ElfDataRegion → ℕ → Type 0
NoRegion regions k = ¬ (
    (j : ℕ) × (region : ElfDataRegion) × (get_elem? regions j ≡ some region)
    × (region.source_index ≡ k))

NoRegion-cons :
    (first : ElfDataRegion) (regions : List ElfDataRegion) (k : ℕ)
    → (first.source_index ≡ k → ⊥)
    → NoRegion regions k
    → NoRegion (first ∷ regions) k
NoRegion-cons first regions k differ absent (zero, region, at, of) =
    let same : first ≡ region = ground (arith, at) in differ (ap (λ z. z.source_index) same ∙ of)
NoRegion-cons first regions k differ absent (suc j, region, at, of) = absent (j, region, at, of)

pub index_from-NoRegion :
    (index : ℕ) (regions : List ElfDataRegion) (table : List (ℕ × ℕ)) (k : ℕ)
    → find k (index_from index regions table) ≡ none
    → (find k table ≡ none) × NoRegion regions k
unfolding index_from
index_from-NoRegion index [] table k h = (h, λ (j, region, at, of). cc at)
index_from-NoRegion index (first ∷ regions) table k h =
    elim (Option-cases (find first.source_index table)) [
      | inr (known, there) ↦
          let later : find k (index_from (index + 1) regions table) ≡ none =
            ground (arith, there, h) in
          let (t, absent) = index_from-NoRegion (index + 1) regions table k later in
          (
            t,
            NoRegion-cons first regions k
                (λ e.
                  let both_ways : none ≡ some known =
                    sym t ∙ ap (λ (i : ℕ). find i table) (sym e) ∙ there in
                  cc both_ways)
                absent,
          )
      | inl fresh ↦
          let grown = insert first.source_index index table in
          let later : find k (index_from (index + 1) regions grown) ≡ none =
            ground (arith, fresh, h) in
          let (t, absent) = index_from-NoRegion (index + 1) regions grown k later in
          let split = sym (find-insert k first.source_index index table) ∙ t in
          (
            ground (arith, split),
            NoRegion-cons first regions k (λ e. ground (arith, split, e)) absent,
          )
    ]
