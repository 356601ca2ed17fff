-- ===== src/Elf/Images/Located.antt =====
-- backend/src/elf/data_regions.cpp: what the symbols of an image are read of.
use Prim.Native.String.{String}
use mathlib.Core.Path.{subst}
use mathlib.Core.List.{Memᴰ}
use yet_another_reuse_distan.Prelude.{
  ℕ, suc, ◌+◌, ◌≡◌, refl, sym, ap, ◌∙◌, ◌⊎◌, inl, inr, false, ◌||◌, List, [], ◌∷◌, some, arith,
  ◌==◌, get_elem?, Bool-cases, Option-cases, ok, >>=-eq-ok, ok-injective,
}
use yet_another_reuse_distan.Prelude.Maps.{find, insert, find-insert}
use yet_another_reuse_distan.Elf.Regions.{ElfDataRegion}
use yet_another_reuse_distan.Elf.Images.{
  ElfDataSymbol, ElfSymbol, SymbolSection, unreadable, outside, inside, SymbolTable, is_blank,
  is_seen, index_from, index_regions, add_symbol, read_symbol, append_symbol, append_symbols,
  symbol_before, insert_symbol, sort_symbols,
}

-- The symbol is what is read of an object symbol: it has its name, address and size, and its region
-- is the one of the section that the object symbol lies in.
pub record IsReadOf (regions : List ElfDataRegion) (raw : ElfSymbol) (symbol : ElfDataSymbol)
    : Type 0 where
  pub object : raw.symbol_type ≡ 1
  pub named : raw.name ≡ some symbol.name
  pub not_blank : is_blank symbol.name ≡ false
  pub placed : raw.address ≡ some symbol.virtual_address
  pub sized : raw.size ≡ symbol.size
  pub located :
      (region : ElfDataRegion) × (get_elem? regions symbol.region_index ≡ some region)
      × (raw.section ≡ inside region.source_index)

unfoldable pub AllSymbols : (ElfDataSymbol → Type 0) → List ElfDataSymbol → Type 0
AllSymbols P [] = Unit {0}
AllSymbols P (symbol ∷ symbols) = P symbol × AllSymbols P symbols

-- The index of a section is that of a region of this section.
index_from-region :
    (index : ℕ) (regions : List ElfDataRegion) (table : List (ℕ × ℕ)) (k i : ℕ)
    → find k (index_from index regions table) ≡ some i
    → (find k table ≡ some i)
      ⊎ ((j : ℕ) × (region : ElfDataRegion) × (i ≡ index + j)
          × (get_elem? regions j ≡ some region)
          × (region.source_index ≡ k))
unfolding index_from
index_from-region index [] table k i h = inl h
index_from-region index (region ∷ regions) table k i h =
    elim (Option-cases (find region.source_index table)) [
      | inr (known, there) ↦
          let same : find k (index_from (index + 1) regions table) ≡ some i =
            ground (arith, there, h) in
          elim (index_from-region (index + 1) regions table k i same) [
            | inl before ↦ inl before
            | inr (j, other, e, at, of) ↦ inr (suc j, other, omega (arith, e), at, of)
          ]
      | inl fresh ↦
          let grown = insert region.source_index index table in
          let same : find k (index_from (index + 1) regions grown) ≡ some i =
            ground (arith, fresh, h) in
          elim (index_from-region (index + 1) regions grown k i same) [
            | inr (j, other, e, at, of) ↦ inr (suc j, other, omega (arith, e), at, of)
            | inl before ↦
                let found = sym (find-insert k region.source_index index table) ∙ before in
                elim (Bool-cases (k == region.source_index)) [
                  | inl same ↦
                      let e : i ≡ index = ground (arith, same, found) in
                      inr (0, region, omega (arith, e), refl, ground (arith, same))
                  | inr other ↦ inl (ground (arith, other, found))
                ]
          ]
    ]

pub index_regions-region :
    (regions : List ElfDataRegion) (k i : ℕ)
    → find k (index_regions regions) ≡ some i
    → (region : ElfDataRegion) × (get_elem? regions i ≡ some region) × (region.source_index ≡ k)
unfolding index_regions find
index_regions-region regions k i h = elim (index_from-region 0 regions [] k i h) [
  | inl absent ↦ cc absent
  | inr (j, region, e, at, of) ↦
      (region, ap (get_elem? regions) {x = i} {y = j} (omega (arith, e)) ∙ at, of)
]

pub section_cases :
    (s : SymbolSection) → (s ≡ unreadable) ⊎ ((s ≡ outside) ⊎ ((index : ℕ) × (s ≡ inside index)))
section_cases unreadable = inl refl
section_cases outside = inr (inl refl)
section_cases (inside index) = inr (inr (index, refl))

module _ (P : ElfDataSymbol → Type 0) where
  insert-AllSymbols :
      (symbol : ElfDataSymbol) (symbols : List ElfDataSymbol)
      → P symbol
      → AllSymbols P symbols
      → AllSymbols P (insert_symbol symbol symbols)
  unfolding insert_symbol AllSymbols
  insert-AllSymbols symbol [] a v = (a, tt)
  insert-AllSymbols symbol (other ∷ symbols) a (b, v) =
      elim (Bool-cases (symbol_before other symbol)) [
        | inl before ↦ rw before (b, insert-AllSymbols symbol symbols a v)
        | inr after ↦ rw after (a, (b, v))
      ]

  pub sort-AllSymbols :
      (symbols : List ElfDataSymbol) → AllSymbols P symbols → AllSymbols P (sort_symbols symbols)
  unfolding sort_symbols AllSymbols
  sort-AllSymbols [] v = tt
  sort-AllSymbols (symbol ∷ symbols) (a, v) =
      insert-AllSymbols symbol (sort_symbols symbols) a (sort-AllSymbols symbols v)

  module _ (regions : List ElfDataRegion) where
    add_symbol-AllSymbols :
        (raw : ElfSymbol) (name : String) (value section index : ℕ) (table : SymbolTable)
        → ((symbol : ElfDataSymbol) → IsReadOf regions raw symbol → P symbol)
        → raw.symbol_type ≡ 1
        → raw.section ≡ inside section
        → raw.name ≡ some name
        → raw.address ≡ some value
        → find section (index_regions regions) ≡ some index
        → AllSymbols P table.1
        → AllSymbols P (add_symbol name value raw.size section index table).1
    unfolding add_symbol AllSymbols
    add_symbol-AllSymbols raw name value section index (seen, symbols) kept object held named placed
          known v =
        let (region, at, of) = index_regions-region regions section index known in
        elim (Bool-cases (
          is_blank name
          || is_seen (record { name = name; value = value; size = raw.size; section = section })
              seen)) [
                | inl skipped ↦ rw skipped v
                | inr added ↦ rw added (
                  kept
                      (record {
                        name = name;
                        virtual_address = value;
                        size = raw.size;
                        region_index = index;
                      })
                      (record {
                        object = object;
                        named = named;
                        not_blank = ground (arith, added);
                        placed = placed;
                        sized = refl;
                        located = (region, at, held ∙ ap inside (sym of));
                      }),
                  v,
                )
              ]

    append_symbol-AllSymbols :
        (raw : ElfSymbol) (table table' : SymbolTable)
        → ((symbol : ElfDataSymbol) → IsReadOf regions raw symbol → P symbol)
        → AllSymbols P table.1
        → append_symbol (index_regions regions) raw table ≡ ok table'
        → AllSymbols P table'.1
    unfolding append_symbol read_symbol
    append_symbol-AllSymbols raw table table' kept v h =
        let unchanged : table ≡ table' → AllSymbols P table'.1 =
          λ same. subst (λ z. AllSymbols P z.1) same v in
        elim (Bool-cases (raw.symbol_type == 1)) [
          | inr other ↦ unchanged (ground (arith, other, h))
          | inl object ↦ elim (section_cases raw.section) [
            | inl failed ↦ ground (arith, object, failed, h)
            | inr (inl none_held) ↦ unchanged (ground (arith, object, none_held, h))
            | inr (inr (section, held)) ↦
                elim (Option-cases (find section (index_regions regions))) [
                  | inl skipped ↦ unchanged (ground (arith, object, held, skipped, h))
                  | inr (index, known) ↦ elim (Option-cases raw.name) [
                    | inl unnamed ↦ ground (arith, object, held, known, unnamed, h)
                    | inr (name, named) ↦ elim (Option-cases raw.address) [
                      | inl unplaced ↦ ground (arith, object, held, known, named, unplaced, h)
                      | inr (value, placed) ↦
                          let added : add_symbol name value raw.size section index table ≡ table' =
                            ground (arith, object, held, known, named, placed, h) in
                          subst (λ z. AllSymbols P z.1) added
                            (add_symbol-AllSymbols raw name value section index table kept
                              (ground (arith, object)) held named placed known v)
                    ]
                  ]
                ]
          ]
        ]

    pub append_symbols-AllSymbols :
        (raws : List ElfSymbol) (table table' : SymbolTable)
        → ((raw : ElfSymbol) (symbol : ElfDataSymbol)
            → Memᴰ raw raws
            → IsReadOf regions raw symbol
            → P symbol)
        → AllSymbols P table.1
        → append_symbols (index_regions regions) raws table ≡ ok table'
        → AllSymbols P table'.1
    unfolding append_symbols
    append_symbols-AllSymbols [] table table' kept v h =
        subst (λ z. AllSymbols P z.1) (ok-injective h) v
    append_symbols-AllSymbols (raw ∷ raws) table table' kept v h =
        let (between, added, h₁) =
          >>=-eq-ok (append_symbol (index_regions regions) raw table) _ h in
        append_symbols-AllSymbols raws between table' (λ r s m. kept r s (Memᴰ.tail m))
          (append_symbol-AllSymbols raw table between (λ s. kept raw s (Memᴰ.head refl)) v added) h₁
