-- ===== src/Elf/Images/Listed.antt =====
-- backend/src/elf/data_regions.cpp: an object symbol, and where it stands among the symbols.
use Prim.Native.String.{String}
use text.Mathlib.TextEquality.{eq_iff}
use mathlib.Core.List.{Memᴰ}
use yet_another_reuse_distan.Prelude.{
  ℕ, ◌≡◌, refl, sym, ap, ◌∙◌, ◌⊎◌, inl, inr, true, false, List, [], ◌∷◌, some, arith, ◌==◌,
  get_elem?, Bool-cases,
}
use yet_another_reuse_distan.Prelude.Maps.{find}
use yet_another_reuse_distan.Elf.Regions.{ElfDataRegion}
use yet_another_reuse_distan.Elf.Images.{
  ElfDataSymbol, ElfSymbol, outside, inside, SymbolKey, SymbolTable, is_blank, is_seen,
  index_regions, add_symbol,
}
use yet_another_reuse_distan.Elf.Images.Located.{IsReadOf, index_regions-region}
use yet_another_reuse_distan.Elf.Images.Absent.{NoRegion}

-- An object symbol has nothing to be read: it is no object, lies in no section or in one that has
-- no region, or has no name.
pub data IsPassedOver (regions : List ElfDataRegion) (raw : ElfSymbol) : Type 0 where
  no_object : (raw.symbol_type == 1) ≡ false → IsPassedOver regions raw
  no_section : raw.section ≡ outside → IsPassedOver regions raw
  no_region :
      (section : ℕ)
      → raw.section ≡ inside section
      → NoRegion regions section
      → IsPassedOver regions raw
  no_name : (name : String) → raw.name ≡ some name → is_blank name ≡ true → IsPassedOver regions raw

-- An object symbol is passed over, or it is read as one of the symbols.
abbrev pub IsListed : List ElfDataRegion → List ElfDataSymbol → ElfSymbol → Type 0
IsListed regions symbols raw =
    IsPassedOver regions raw
    ⊎ ((symbol : ElfDataSymbol) × Memᴰ symbol symbols × IsReadOf regions raw symbol)

unfoldable pub AllListed : List ElfDataRegion → List ElfDataSymbol → List ElfSymbol → Type 0
AllListed regions symbols [] = Unit {0}
AllListed regions symbols (raw ∷ raws) =
    IsListed regions symbols raw × AllListed regions symbols raws

-- The symbol of a key.
pub record HasKey (regions : List ElfDataRegion) (key : SymbolKey) (symbol : ElfDataSymbol)
    : Type 0 where
  pub name : key.name ≡ symbol.name
  pub value : key.value ≡ symbol.virtual_address
  pub size : key.size ≡ symbol.size
  pub section :
      (region : ElfDataRegion) × (get_elem? regions symbol.region_index ≡ some region)
      × (region.source_index ≡ key.section)

-- Each key that was seen has a symbol.
abbrev pub Keyed : List ElfDataRegion → SymbolTable → Type 0
Keyed regions (seen, symbols) =
    (key : SymbolKey)
    → is_seen key seen ≡ true
    → (symbol : ElfDataSymbol) × Memᴰ symbol symbols × HasKey regions key symbol

abbrev pub Keeps : SymbolTable → SymbolTable → Type 0
Keeps table table' = (symbol : ElfDataSymbol) → Memᴰ symbol table.1 → Memᴰ symbol table'.1

is_seen-found :
    (key other : SymbolKey) (seen : List SymbolKey)
    → is_seen key (other ∷ seen) ≡ true
    → (((key.name ≡ other.name)
          × (key.value ≡ other.value)
          × (key.size ≡ other.size)
          × (key.section ≡ other.section))
        ⊎ (is_seen key seen ≡ true))
unfolding is_seen
is_seen-found key other seen h = elim (Bool-cases (is_seen key seen)) [
  | inl there ↦ inr there
  | inr away ↦ inl (
    (eq_iff key.name other.name).0 (ground (arith, away, h)),
    ground (arith, away, h),
    ground (arith, away, h),
    ground (arith, away, h),
  )
]

module _ (regions : List ElfDataRegion) (raw : ElfSymbol) (name : String) (value section index : ℕ)
    (object : raw.symbol_type ≡ 1) (held : raw.section ≡ inside section)
    (named : raw.name ≡ some name) (placed : raw.address ≡ some value)
    (known : find section (index_regions regions) ≡ some index) where
  key_of : SymbolKey
  key_of = record { name = name; value = value; size = raw.size; section = section }

  symbol_of : ElfDataSymbol
  symbol_of = record { name = name; virtual_address = value; size = raw.size; region_index = index }

  symbol_of-IsReadOf : is_blank name ≡ false → IsReadOf regions raw symbol_of
  unfolding symbol_of
  symbol_of-IsReadOf not_blank =
      let (region, at, of) = index_regions-region regions section index known in
      record {
        object = object;
        named = named;
        not_blank = not_blank;
        placed = placed;
        sized = refl;
        located = (region, at, held ∙ ap inside (sym of));
      }

  -- A symbol of the same key is read of the same object symbol.
  HasKey-IsReadOf :
      (symbol : ElfDataSymbol)
      → is_blank name ≡ false
      → HasKey regions key_of symbol
      → IsReadOf regions raw symbol
  unfolding key_of
  HasKey-IsReadOf symbol not_blank h =
      let (region, at, of) = h.section in
      record {
        object = object;
        named = named ∙ ap some h.name;
        not_blank = ap is_blank (sym h.name) ∙ not_blank;
        placed = placed ∙ ap some h.value;
        sized = h.size;
        located = (region, at, held ∙ ap inside (sym of));
      }

  pub add_symbol-Listed :
      (table : SymbolTable)
      → Keyed regions table
      → Keyed regions (add_symbol name value raw.size section index table)
        × Keeps table (add_symbol name value raw.size section index table)
        × IsListed regions (add_symbol name value raw.size section index table).1 raw
  unfolding add_symbol key_of symbol_of
  add_symbol-Listed (seen, symbols) v = elim (Bool-cases (is_blank name)) [
    | inl blank ↦ rw blank (v, (λ s m. m), inl (IsPassedOver.no_name name named blank))
    | inr not_blank ↦ elim (Bool-cases (is_seen key_of seen)) [
      | inl before ↦
          let (symbol, there, keyed) = v key_of before in
          rw (not_blank, before)
            (v, (λ s m. m), inr (symbol, there, HasKey-IsReadOf symbol not_blank keyed))
      | inr fresh ↦
          let (region, at, of) = index_regions-region regions section index known in
          rw (not_blank, fresh)
            (
              (λ key h. elim (is_seen-found key key_of seen h) [
                | inr there ↦ let (symbol, m, keyed) = v key there in (symbol, Memᴰ.tail m, keyed)
                | inl (a, b, c, d) ↦ (
                  symbol_of,
                  Memᴰ.head refl,
                  record { name = a; value = b; size = c; section = (region, at, of ∙ sym d) },
                )
              ]),
              (λ s m. Memᴰ.tail m),
              inr (symbol_of, Memᴰ.head refl, symbol_of-IsReadOf not_blank),
            )
    ]
  ]
