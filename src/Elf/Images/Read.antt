-- ===== src/Elf/Images/Read.antt =====
-- backend/src/elf/data_regions.cpp: the symbols of an image against those of its object.
use mathlib.Core.List.{Memᴰ}
use yet_another_reuse_distan.Prelude.{◌≡◌, true, ◌⊎◌, List, []}
use yet_another_reuse_distan.Elf.Regions.{ElfDataRegion}
use yet_another_reuse_distan.Elf.Images.{ElfDataSymbol, ElfDataRegions, ElfSymbol, ElfObject}
use yet_another_reuse_distan.Elf.Images.Listed.{AllListed}
use yet_another_reuse_distan.Elf.Images.Located.{IsReadOf, AllSymbols}

-- The symbol is read from one of the two tables of an object.
abbrev pub IsReadFrom : ElfObject → List ElfDataRegion → ElfDataSymbol → Type 0
IsReadFrom object regions symbol =
    (raw : ElfSymbol) × (Memᴰ raw object.symbols ⊎ Memᴰ raw object.dynamic_symbols)
    × IsReadOf regions raw symbol

-- Every symbol of the two tables is passed over, or read as one of the symbols.
abbrev Complete : ElfObject → List ElfDataRegion → List ElfDataSymbol → Type 0
Complete object regions symbols =
    AllListed regions symbols object.symbols × AllListed regions symbols object.dynamic_symbols

-- What is read of an object: the symbols are read from it, and none is lost unless the regions are
-- those of the program headers, with no symbols.
abbrev pub IsImageOf : ElfObject → ElfDataRegions → Type 0
IsImageOf object image =
    AllSymbols (IsReadFrom object image.regions) image.symbols
    × (((image.used_program_headers ≡ true) × (image.symbols ≡ []))
        ⊎ (AllListed image.regions image.symbols object.symbols
            × AllListed image.regions image.symbols object.dynamic_symbols))
