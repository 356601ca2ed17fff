-- ===== src/Elf/Images.antt =====
-- backend/src/elf/data_regions.cpp: the sections and the object symbols of a linked program. The
-- order of two symbols of one address and name is left open there; the later one comes first here.
pub mod Located
pub mod Absent
pub mod Listed
pub mod Kept
pub mod Read
use Prim.Native.String.{String}
use text.Mathlib.Text.{◌==◌ as str_eq}
use yet_another_reuse_distan.Prelude.{
  ℕ, ◌+◌, Bool, true, false, not, ◌&&◌, ◌||◌, List, [], ◌∷◌, Option, none, some, ltb, ◌==◌,
  if◌then◌else◌, Result, ok, throw, ◌>>=◌, invalid_argument, runtime_error,
}
use yet_another_reuse_distan.Prelude.Maps.{find, insert}
use yet_another_reuse_distan.Elf.Regions.{
  ElfDataRegion, ElfDataRegionKind, ElfRegionOrigin, ProgramHeader, has_bit, text_before,
  sort_regions, parse_program_regions,
}

pub data ElfImageType : Type 0 where
  executable_image shared_object : ElfImageType

pub record ElfDataSymbol : Type 0 where
  pub name : String
  pub virtual_address : ℕ
  pub size : ℕ
  pub region_index : ℕ

pub record ElfDataRegions : Type 0 where
  pub address_size : ℕ
  pub little_endian : Bool
  pub image_type : ElfImageType
  pub machine : ℕ
  pub image_relative : Bool
  pub used_program_headers : Bool
  pub regions : List ElfDataRegion
  pub symbols : List ElfDataSymbol

-- A section as the library reads it; a name that cannot be read is `none`.
pub record ElfSection : Type 0 where
  pub flags : ℕ
  pub section_type : ℕ
  pub name : Option String
  pub address : ℕ
  pub offset : ℕ
  pub size : ℕ
  pub alignment : ℕ
  pub index : ℕ

-- The section of a symbol: an error, the end of the sections, or one by its index.
pub data SymbolSection : Type 0 where
  unreadable outside : SymbolSection
  inside : ℕ → SymbolSection

pub record ElfSymbol : Type 0 where
  pub symbol_type : ℕ
  pub section : SymbolSection
  pub name : Option String
  pub address : Option ℕ
  pub size : ℕ

pub record ElfObject : Type 0 where
  pub address_size : ℕ
  pub little_endian : Bool
  pub elf_type : ℕ
  pub machine : ℕ
  pub sections : List ElfSection
  pub symbols : List ElfSymbol
  pub dynamic_symbols : List ElfSymbol
  pub program_headers : Option (List ProgramHeader)
  pub data_size : ℕ

-- `SHT_NOBITS` is 8; the flag of a writable section is the first.
abbrev pub is_nobits : ElfSection → Bool
is_nobits s = s.section_type == 8

unfoldable pub classify_section : ElfSection → ElfDataRegionKind
classify_section s =
    if is_nobits s
    then ElfDataRegionKind.zero_initialized
    else if has_bit 0 s.flags
    then ElfDataRegionKind.initialized
    else ElfDataRegionKind.read_only

-- The flags: allocated (the second), executable (the third), thread-local (the eleventh).
abbrev pub is_skipped : ElfSection → Bool
is_skipped s = not (has_bit 1 s.flags) || has_bit 2 s.flags || s.size == 0 || has_bit 10 s.flags

unfoldable pub read_sections : List ElfSection → Result (List ElfDataRegion)
unfolding classify_section
read_sections [] = ok []
read_sections (s ∷ sections) = elim (is_skipped s) [
  | true ↦ read_sections sections
  | false ↦ elim s.name [
    | none ↦ throw runtime_error
    | some name ↦ do
      rest ← read_sections sections
      ok (
          record {
            name = name;
            kind = classify_section s;
            origin = ElfRegionOrigin.section;
            virtual_address = s.address;
            file_offset = s.offset;
            file_size = if is_nobits s then 0 else s.size;
            memory_size = s.size;
            alignment = s.alignment;
            source_index = s.index;
            readable = true;
            writable = has_bit 0 s.flags;
            executable = false;
          }
          ∷ rest)
  ]
]

unfoldable pub parse_sections : List ElfSection → Result (List ElfDataRegion)
unfolding read_sections sort_regions
parse_sections sections = read_sections sections >>= λ regions. ok (sort_regions regions)

-- `emplace`, which keeps the first index of a section.
unfoldable pub index_from : ℕ → List ElfDataRegion → List (ℕ × ℕ) → List (ℕ × ℕ)
unfolding find insert
index_from index [] table = table
index_from index (region ∷ regions) table =
    index_from (index + 1) regions (elim (find region.source_index table) [
      | none ↦ insert region.source_index index table
      | some known ↦ table
    ])

unfoldable pub index_regions : List ElfDataRegion → List (ℕ × ℕ)
unfolding index_from
index_regions regions = index_from 0 regions []

pub record SymbolKey : Type 0 where
  pub name : String
  pub value : ℕ
  pub size : ℕ
  pub section : ℕ

unfoldable pub is_seen : SymbolKey → List SymbolKey → Bool
is_seen key [] = false
is_seen key (other ∷ seen) =
    str_eq key.name other.name
      && key.value == other.value
      && key.size == other.size
      && key.section == other.section
    || is_seen key seen

-- The keys seen so far, and the symbols.
abbrev pub SymbolTable : Type 0
SymbolTable = List SymbolKey × List ElfDataSymbol

abbrev pub is_blank : String → Bool
is_blank String.[] = true
is_blank (String.◌∷◌ c s) = false

-- A symbol with a name and a value, of a section whose region is known.
unfoldable pub add_symbol : String → ℕ → ℕ → ℕ → ℕ → SymbolTable → SymbolTable
unfolding is_seen
add_symbol name value size section region (seen, symbols) =
    let key : SymbolKey = record { name = name; value = value; size = size; section = section } in
    if is_blank name || is_seen key seen then (seen, symbols) else (
      key ∷ seen,
      record { name = name; virtual_address = value; size = size; region_index = region } ∷ symbols,
    )

unfoldable pub read_symbol : ElfSymbol → ℕ → ℕ → SymbolTable → Result SymbolTable
unfolding add_symbol
read_symbol symbol section region table = elim symbol.name [
  | none ↦ throw runtime_error
  | some name ↦ elim symbol.address [
    | none ↦ throw runtime_error
    | some value ↦ ok (add_symbol name value symbol.size section region table)
  ]
]

-- `STT_OBJECT` is 1.
unfoldable pub append_symbol : List (ℕ × ℕ) → ElfSymbol → SymbolTable → Result SymbolTable
unfolding find read_symbol
append_symbol regions symbol table = elim (symbol.symbol_type == 1) [
  | false ↦ ok table
  | true ↦ elim symbol.section [
    | unreadable ↦ throw runtime_error
    | outside ↦ ok table
    | inside section ↦ elim (find section regions) [
      | none ↦ ok table
      | some region ↦ read_symbol symbol section region table
    ]
  ]
]

unfoldable pub append_symbols : List (ℕ × ℕ) → List ElfSymbol → SymbolTable → Result SymbolTable
unfolding append_symbol
append_symbols regions [] table = ok table
append_symbols regions (symbol ∷ symbols) table = do
  table' ← append_symbol regions symbol table
  append_symbols regions symbols table'

unfoldable pub symbol_before : ElfDataSymbol → ElfDataSymbol → Bool
symbol_before a b =
    ltb a.virtual_address b.virtual_address
    || a.virtual_address == b.virtual_address && text_before a.name b.name

unfoldable pub insert_symbol : ElfDataSymbol → List ElfDataSymbol → List ElfDataSymbol
unfolding symbol_before
insert_symbol symbol [] = symbol ∷ []
insert_symbol symbol (other ∷ symbols) =
    let rest = insert_symbol symbol symbols in
    if symbol_before other symbol then other ∷ rest else symbol ∷ other ∷ symbols

unfoldable pub sort_symbols : List ElfDataSymbol → List ElfDataSymbol
unfolding insert_symbol
sort_symbols [] = []
sort_symbols (symbol ∷ symbols) = insert_symbol symbol (sort_symbols symbols)

unfoldable pub parse_symbols : ElfObject → List ElfDataRegion → Result (List ElfDataSymbol)
unfolding index_regions append_symbols sort_symbols
parse_symbols object regions = do
  table ← append_symbols (index_regions regions) object.symbols ([], [])
  table' ← append_symbols (index_regions regions) object.dynamic_symbols table
  ok (sort_symbols table'.1)

-- `ET_EXEC` is 2 and `ET_DYN` is 3.
unfoldable pub image_type_of : ℕ → Result ElfImageType
image_type_of elf_type =
    if elf_type == 2
    then ok executable_image
    else if elf_type == 3
    then ok shared_object
    else throw invalid_argument

abbrev pub is_shared : ElfImageType → Bool
is_shared shared_object = true
is_shared executable_image = false

-- What a path leads to: nothing, no regular file, no object file, an object of another format, or
-- an object that the library reads.
pub data ElfInput : Type 0 where
  missing irregular invalid foreign : ElfInput
  elf : ElfObject → ElfInput

abbrev pub is_empty_list : List ElfDataRegion → Bool
is_empty_list [] = true
is_empty_list (region ∷ regions) = false

unfoldable pub parse_object : ElfObject → Result ElfDataRegions
unfolding image_type_of parse_sections parse_symbols parse_program_regions
parse_object object = do
  kind ← image_type_of object.elf_type
  sections ← parse_sections object.sections
  regions ←
      (if is_empty_list sections
        then parse_program_regions object.program_headers object.data_size
        else ok sections)
  symbols ← (if is_empty_list sections then ok [] else parse_symbols object sections)
  ok (record {
    address_size = object.address_size;
    little_endian = object.little_endian;
    image_type = kind;
    machine = object.machine;
    image_relative = is_shared kind;
    used_program_headers = is_empty_list sections;
    regions = regions;
    symbols = symbols;
  })

unfoldable pub parse_elf_data_regions : ElfInput → Result ElfDataRegions
unfolding parse_object
parse_elf_data_regions missing = throw runtime_error
parse_elf_data_regions irregular = throw invalid_argument
parse_elf_data_regions invalid = throw invalid_argument
parse_elf_data_regions foreign = throw invalid_argument
parse_elf_data_regions (elf object) = parse_object object
