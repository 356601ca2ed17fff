-- ===== src/Tests/Programs.antt =====
-- The regions and the objects of a linked program.
use yet_another_reuse_distan.Prelude.{
  ◌≡◌, refl, true, false, not, ◌&&◌, [], ◌∷◌, List, some, ok, arith, if◌then◌else◌,
}
use yet_another_reuse_distan.Tests.Levels.{value_or}
use yet_another_reuse_distan.Mapping.Types.{absolute, image_relative}
use yet_another_reuse_distan.Trace.Access.{ObjectAddressModel, find_object}
use yet_another_reuse_distan.Trace.Access.Extent.{AllWords}
use yet_another_reuse_distan.Elf.Regions
use yet_another_reuse_distan.Elf.Regions.{ElfDataRegion, ProgramHeader, parse_program_regions}
use yet_another_reuse_distan.Elf.Regions.Coverage.{covers}
use yet_another_reuse_distan.Elf.Regions.Program.{
  in_data, in_thread_local, parse_program_regions-covers,
}
use yet_another_reuse_distan.Elf.Images
use yet_another_reuse_distan.Elf.Images.{
  ElfInput, ElfObject, ElfSection, ElfSymbol, ElfDataRegions, parse_elf_data_regions,
}
use yet_another_reuse_distan.Elf.Addresses.{
  build_elf_object_addresses, add_object, add_objects, AllFound, AllSized,
  build_elf_object_addresses-AllFound,
}

-- A writable segment of 64 bytes, 32 of them in the file, with a thread-local part of 8.
abbrev headers : List ProgramHeader
headers =
    record {
      p_type = 1;
      p_flags = 6;
      p_offset = 100;
      p_vaddr = 1000;
      p_filesz = 32;
      p_memsz = 64;
      p_align = 8;
    }
    ∷ record {
      p_type = 7;
      p_flags = 4;
      p_offset = 108;
      p_vaddr = 1008;
      p_filesz = 8;
      p_memsz = 8;
      p_align = 8;
    }
    ∷ []

regions : List ElfDataRegion
regions = value_or [] (parse_program_regions (some headers) 500)

reads_headers : parse_program_regions (some headers) 500 ≡ ok regions
unfolding regions value_or parse_program_regions Regions.read_headers Regions.header_range
    Regions.checked_add Regions.append_loads Regions.append_load Regions.boundaries_of
    Regions.tls_boundaries Regions.add_boundary Regions.append_boundaries Regions.append_parts
    Regions.overlaps_tls Regions.make_region Regions.sort_regions Regions.insert_region
    Regions.region_before
reads_headers = refl

parse_program_regions-covers_example :
    covers 1012 regions ≡ (in_data 1012 headers && not (in_thread_local 1012 headers))
parse_program_regions-covers_example =
    parse_program_regions-covers headers 500 regions 1012 reads_headers

abbrev data_section : ElfSection
data_section = record {
  flags = 3;
  section_type = 1;
  name = some ".data";
  address = 64;
  offset = 4096;
  size = 256;
  alignment = 8;
  index = 5;
}

abbrev array : ElfSymbol
array = record {
  symbol_type = 1;
  section = Images.inside 5;
  name = some "a";
  address = some 64;
  size = 128;
}

abbrev object : ElfObject
object = record {
  address_size = 8;
  little_endian = true;
  elf_type = 2;
  machine = 62;
  sections = data_section ∷ [];
  symbols = array ∷ [];
  dynamic_symbols = array ∷ [];
  program_headers = some headers;
  data_size = 500;
}

abbrev no_image : ElfDataRegions
no_image = record {
  address_size = 0;
  little_endian = true;
  image_type = Images.executable_image;
  machine = 0;
  image_relative = false;
  used_program_headers = false;
  regions = [];
  symbols = [];
}

image : ElfDataRegions
image = value_or no_image (parse_elf_data_regions (Images.elf object))

abbrev located : ElfDataRegions
located = record no_image {
  symbols =
      record { name = "a"; virtual_address = 64; size = 128; region_index = 0 }
      ∷ record { name = "a"; virtual_address = 64; size = 128; region_index = 0 }
      ∷ [];
}

abbrev addresses : ObjectAddressModel
addresses = record {
  basis = absolute;
  objects = ("global::a", record { base = 64; size = 128 }) ∷ [];
}

builds_addresses : build_elf_object_addresses located ≡ ok addresses
unfolding build_elf_object_addresses add_objects add_object find_object
builds_addresses = refl

build_elf_object_addresses-AllFound_example :
    AllFound addresses.objects located.symbols
    × AllWords addresses.objects
    × (addresses.basis ≡ (if located.image_relative then image_relative else absolute))
unfolding AllSized
build_elf_object_addresses-AllFound_example =
    build_elf_object_addresses-AllFound located addresses (omega arith, (omega arith, tt))
      builds_addresses
