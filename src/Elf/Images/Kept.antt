-- ===== src/Elf/Images/Kept.antt =====
-- backend/src/elf/data_regions.cpp: the symbols of an object, through the loops and the sort.
use mathlib.Core.Path.{subst}
use mathlib.Core.List.{Memᴰ}
use yet_another_reuse_distan.Prelude.{
  ◌≡◌, inl, inr, List, [], ◌∷◌, arith, ◌==◌, Bool-cases, Option-cases, ok, >>=-eq-ok, ok-injective,
}
use yet_another_reuse_distan.Prelude.Maps.{find}
use yet_another_reuse_distan.Elf.Regions.{ElfDataRegion}
use yet_another_reuse_distan.Elf.Images.{
  ElfDataSymbol, ElfSymbol, SymbolTable, index_regions, add_symbol, read_symbol, append_symbol,
  append_symbols, symbol_before, insert_symbol, sort_symbols,
}
use yet_another_reuse_distan.Elf.Images.Located.{section_cases}
use yet_another_reuse_distan.Elf.Images.Absent.{index_from-NoRegion}
use yet_another_reuse_distan.Elf.Images.Listed.{
  IsPassedOver, IsListed, AllListed, Keyed, Keeps, add_symbol-Listed,
}

append_symbol-Listed :
    (regions : List ElfDataRegion) (raw : ElfSymbol) (table table' : SymbolTable)
    → Keyed regions table
    → append_symbol (index_regions regions) raw table ≡ ok table'
    → Keyed regions table' × Keeps table table' × IsListed regions table'.1 raw
unfolding append_symbol read_symbol index_regions
append_symbol-Listed regions raw table table' v h =
    let After : SymbolTable → Type 0 =
      λ z. Keyed regions z × Keeps table z × IsListed regions z.1 raw in
    let unchanged : IsPassedOver regions raw → table ≡ table' → After table' =
      λ passed same. subst After same (v, (λ s m. m), inl passed) in
    elim (Bool-cases (raw.symbol_type == 1)) [
      | inr other ↦ unchanged (IsPassedOver.no_object other) (ground (arith, other, h))
      | inl object ↦ elim (section_cases raw.section) [
        | inl failed ↦ ground (arith, object, failed, h)
        | inr (inl none_held) ↦
            unchanged (IsPassedOver.no_section none_held) (ground (arith, object, none_held, h))
        | inr (inr (section, held)) ↦ elim (Option-cases (find section (index_regions regions))) [
          | inl skipped ↦
              unchanged
                (IsPassedOver.no_region section held
                  (index_from-NoRegion 0 regions [] section skipped).1)
                (ground (arith, object, held, skipped, h))
          | inr (index, known) ↦ elim (Option-cases raw.name) [
            | inl unnamed ↦ ground (arith, object, held, known, unnamed, h)
            | inr (name, named) ↦ elim (Option-cases raw.address) [
              | inl unplaced ↦ ground (arith, object, held, known, named, unplaced, h)
              | inr (value, placed) ↦
                  let added : add_symbol name value raw.size section index table ≡ table' =
                    ground (arith, object, held, known, named, placed, h) in
                  subst After added (
                    add_symbol-Listed regions raw name value section index (ground (arith, object))
                      held named placed known table v)
            ]
          ]
        ]
      ]
    ]

IsListed-Keeps :
    (regions : List ElfDataRegion) (raw : ElfSymbol) (symbols symbols' : List ElfDataSymbol)
    → ((symbol : ElfDataSymbol) → Memᴰ symbol symbols → Memᴰ symbol symbols')
    → IsListed regions symbols raw
    → IsListed regions symbols' raw
IsListed-Keeps regions raw symbols symbols' keeps (inl passed) = inl passed
IsListed-Keeps regions raw symbols symbols' keeps (inr (symbol, m, read)) =
    inr (symbol, keeps symbol m, read)

pub AllListed-Keeps :
    (regions : List ElfDataRegion) (symbols symbols' : List ElfDataSymbol) (raws : List ElfSymbol)
    → ((symbol : ElfDataSymbol) → Memᴰ symbol symbols → Memᴰ symbol symbols')
    → AllListed regions symbols raws
    → AllListed regions symbols' raws
unfolding AllListed
AllListed-Keeps regions symbols symbols' [] keeps v = tt
AllListed-Keeps regions symbols symbols' (raw ∷ raws) keeps (a, v) = (
  IsListed-Keeps regions raw symbols symbols' keeps a,
  AllListed-Keeps regions symbols symbols' raws keeps v,
)

pub append_symbols-AllListed :
    (regions : List ElfDataRegion) (raws : List ElfSymbol) (table table' : SymbolTable)
    → Keyed regions table
    → append_symbols (index_regions regions) raws table ≡ ok table'
    → Keyed regions table' × Keeps table table' × AllListed regions table'.1 raws
unfolding append_symbols AllListed
append_symbols-AllListed regions [] table table' v h =
    subst (λ z. Keyed regions z × Keeps table z × Unit {0}) (ok-injective h) (v, (λ s m. m), tt)
append_symbols-AllListed regions (raw ∷ raws) table table' v h =
    let (between, added, h₁) = >>=-eq-ok (append_symbol (index_regions regions) raw table) _ h in
    let (v₁, keeps₁, first) = append_symbol-Listed regions raw table between v added in
    let (v₂, keeps₂, rest) = append_symbols-AllListed regions raws between table' v₁ h₁ in
    (
      v₂,
      (λ s m. keeps₂ s (keeps₁ s m)),
      (IsListed-Keeps regions raw between.1 table'.1 keeps₂ first, rest),
    )

-- What is inserted past one stays, and so do the others.
insert_past :
    (new symbol other : ElfDataSymbol) (symbols inserted : List ElfDataSymbol)
    → (Memᴰ symbol (new ∷ symbols) → Memᴰ symbol inserted)
    → Memᴰ symbol (new ∷ other ∷ symbols)
    → Memᴰ symbol (other ∷ inserted)
insert_past new symbol other symbols inserted rest (Memᴰ.head e) = Memᴰ.tail (rest (Memᴰ.head e))
insert_past new symbol other symbols inserted rest (Memᴰ.tail (Memᴰ.head e)) = Memᴰ.head e
insert_past new symbol other symbols inserted rest (Memᴰ.tail (Memᴰ.tail m)) =
    Memᴰ.tail (rest (Memᴰ.tail m))

insert_symbol-Memᴰ :
    (new symbol : ElfDataSymbol) (symbols : List ElfDataSymbol)
    → Memᴰ symbol (new ∷ symbols)
    → Memᴰ symbol (insert_symbol new symbols)
unfolding insert_symbol
insert_symbol-Memᴰ new symbol [] m = m
insert_symbol-Memᴰ new symbol (other ∷ symbols) m =
    let rest = insert_symbol-Memᴰ new symbol symbols in
    elim (Bool-cases (symbol_before other new)) [
      | inr after ↦ rw after m
      | inl before ↦
          rw before (insert_past new symbol other symbols (insert_symbol new symbols) rest m)
    ]

pub sort_symbols-Memᴰ :
    (symbol : ElfDataSymbol) (symbols : List ElfDataSymbol)
    → Memᴰ symbol symbols
    → Memᴰ symbol (sort_symbols symbols)
unfolding sort_symbols
sort_symbols-Memᴰ symbol [] m = m
sort_symbols-Memᴰ symbol (new ∷ symbols) (Memᴰ.head e) =
    insert_symbol-Memᴰ new symbol (sort_symbols symbols) (Memᴰ.head e)
sort_symbols-Memᴰ symbol (new ∷ symbols) (Memᴰ.tail m) =
    insert_symbol-Memᴰ new symbol (sort_symbols symbols)
      (Memᴰ.tail (sort_symbols-Memᴰ symbol symbols m))
