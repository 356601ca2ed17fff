-- ===== src/Elf/Regions.antt =====
-- backend/include/yarda/elf/data_regions.hpp and backend/src/elf/program_regions.cpp: the regions
-- of the loaded segments, without their thread-local parts.
pub mod Boundaries
pub mod Coverage
pub mod Program
use Prim.Native.String.{String, ◌++◌ as append, compare as compare_text}
use Prim.Native.Nat.{Ordering}
use yet_another_reuse_distan.Prelude.{
  ℕ, suc, ◌+◌, ◌-◌, ◌*◌, ◌/◌, ◌%◌, ◌^◌, min, max, Bool, true, false, not, ◌&&◌, ◌||◌, List, [], ◌∷◌,
  ◌++◌, Option, none, some, ltb, leb, ◌==◌, if◌then◌else◌, Result, ok, throw, throw_if, ◌>>=◌, ◌>>◌,
  runtime_error,
}
use yet_another_reuse_distan.Rd.Arithmetic.{u64_max}
use yet_another_reuse_distan.Cli.Options.Unsigned.{decimal}

pub data ElfDataRegionKind : Type 0 where
  read_only initialized zero_initialized : ElfDataRegionKind

pub data ElfRegionOrigin : Type 0 where
  section segment : ElfRegionOrigin

pub record ElfDataRegion : Type 0 where
  pub name : String
  pub kind : ElfDataRegionKind
  pub origin : ElfRegionOrigin
  pub virtual_address : ℕ
  pub file_offset : ℕ
  pub file_size : ℕ
  pub memory_size : ℕ
  pub alignment : ℕ
  pub source_index : ℕ
  pub readable : Bool
  pub writable : Bool
  pub executable : Bool

-- A header of the file, as the library reads it.
pub record ProgramHeader : Type 0 where
  pub p_type : ℕ
  pub p_flags : ℕ
  pub p_offset : ℕ
  pub p_vaddr : ℕ
  pub p_filesz : ℕ
  pub p_memsz : ℕ
  pub p_align : ℕ

pub record HeaderRange : Type 0 where
  pub start : ℕ
  pub file_end : ℕ
  pub memory_end : ℕ
  pub file_offset : ℕ
  pub alignment : ℕ
  pub index : ℕ
  pub flags : ℕ

-- `(flags & (1 << k)) != 0`
abbrev pub has_bit : ℕ → ℕ → Bool
has_bit k flags = flags / 2 ^ k % 2 == 1

unfoldable pub checked_add : ℕ → ℕ → Result ℕ
checked_add left right = do throw_if (ltb (u64_max - left) right) runtime_error; ok (left + right)

unfoldable pub overlaps_tls : ℕ → ℕ → List HeaderRange → Bool
overlaps_tls start end [] = false
overlaps_tls start end (tls ∷ headers) =
    leb tls.start start && leb end tls.memory_end || overlaps_tls start end headers

unfoldable pub part_name : ℕ → ℕ → String
part_name index part =
    append "PT_LOAD[" (append (decimal index) (append "].part[" (append (decimal part) "]")))

-- The flag of a writable segment is the second, and of a readable one the third.
unfoldable pub make_region : HeaderRange → ℕ → ℕ → ℕ → Result ElfDataRegion
unfolding checked_add part_name
make_region load start end part =
    let file_backed = ltb start load.file_end in
    do
      file_offset ← checked_add load.file_offset (start - load.start)
      ok (record {
        name = part_name load.index part;
        kind =
            if file_backed
            then if has_bit 1 load.flags then initialized else read_only
            else zero_initialized;
        origin = segment;
        virtual_address = start;
        file_offset = file_offset;
        file_size = if file_backed then end - start else 0;
        memory_size = end - start;
        alignment = load.alignment;
        source_index = load.index;
        readable = has_bit 2 load.flags;
        writable = has_bit 1 load.flags;
        executable = false;
      })

-- `sort` and `unique`: each boundary is put in its place, once.
unfoldable pub add_boundary : ℕ → List ℕ → List ℕ
add_boundary b [] = b ∷ []
add_boundary b (c ∷ boundaries) =
    if b == c
    then c ∷ boundaries
    else if ltb b c
    then b ∷ c ∷ boundaries
    else c ∷ add_boundary b boundaries

-- The ends of the thread-local headers that meet the segment, inside the segment.
unfoldable pub tls_boundaries : HeaderRange → List HeaderRange → List ℕ → List ℕ
unfolding add_boundary
tls_boundaries load [] boundaries = boundaries
tls_boundaries load (tls ∷ headers) boundaries = tls_boundaries load headers (
    if ltb tls.start load.memory_end && ltb load.start tls.memory_end
    then add_boundary (max load.start tls.start)
        (add_boundary (max load.start (min load.memory_end tls.memory_end)) boundaries)
    else boundaries)

unfoldable pub boundaries_of : HeaderRange → List HeaderRange → List ℕ
unfolding tls_boundaries
boundaries_of load headers =
    tls_boundaries load headers
      (add_boundary load.start (add_boundary load.file_end (add_boundary load.memory_end [])))

-- The loop over the boundaries, from one of them.
unfoldable pub append_parts :
    HeaderRange → List HeaderRange → ℕ → List ℕ → ℕ → Result (List ElfDataRegion)
unfolding overlaps_tls make_region
append_parts load headers start [] part = ok []
append_parts load headers start (end ∷ boundaries) part =
    let skip = leb end start || overlaps_tls start end headers in
    elim skip [
      | true ↦ append_parts load headers end boundaries part
      | false ↦ do
        region ← make_region load start end part
        rest ← append_parts load headers end boundaries (part + 1)
        ok (region ∷ rest)
    ]

unfoldable pub append_boundaries :
    HeaderRange → List HeaderRange → List ℕ → Result (List ElfDataRegion)
unfolding append_parts
append_boundaries load headers [] = ok []
append_boundaries load headers (start ∷ boundaries) = append_parts load headers start boundaries 0

unfoldable pub append_load : HeaderRange → List HeaderRange → Result (List ElfDataRegion)
unfolding boundaries_of append_boundaries
append_load load headers = append_boundaries load headers (boundaries_of load headers)

unfoldable pub append_loads : List HeaderRange → List HeaderRange → Result (List ElfDataRegion)
unfolding append_load
append_loads [] headers = ok []
append_loads (load ∷ loads) headers = do
  regions ← append_load load headers
  rest ← append_loads loads headers
  ok (regions ++ rest)

-- `PT_LOAD` is 1 and `PT_TLS` is 7; the flag of an executable segment is the first.
abbrev pub is_load : ProgramHeader → Bool
is_load header = header.p_type == 1

abbrev pub is_tls : ProgramHeader → Bool
is_tls header = header.p_type == 7

unfoldable pub header_range : ProgramHeader → ℕ → ℕ → Result HeaderRange
unfolding checked_add
header_range header index object_size = do
  file_end ← checked_add header.p_vaddr header.p_filesz
  memory_end ← checked_add header.p_vaddr header.p_memsz
  offset_end ← checked_add header.p_offset header.p_filesz
  throw_if (ltb header.p_memsz header.p_filesz || ltb object_size offset_end) runtime_error
  ok (record {
    start = header.p_vaddr;
    file_end = file_end;
    memory_end = memory_end;
    file_offset = header.p_offset;
    alignment = header.p_align;
    index = index;
    flags = header.p_flags;
  })

-- The loads and the thread-local headers, from an index on.
unfoldable pub read_headers :
    List ProgramHeader → ℕ → ℕ → Result (List HeaderRange × List HeaderRange)
unfolding header_range
read_headers [] index object_size = ok ([], [])
read_headers (header ∷ headers) index object_size = elim (is_load header || is_tls header) [
  | false ↦ read_headers headers (index + 1) object_size
  | true ↦ do
    range ← header_range header index object_size
    (loads, tls) ← read_headers headers (index + 1) object_size
    ok (
      if is_load header && not (header.p_memsz == 0) && not (has_bit 0 header.p_flags)
          then range ∷ loads
          else loads,
      if is_tls header && not (header.p_memsz == 0) then range ∷ tls else tls,
    )
]

abbrev pub text_before : String → String → Bool
text_before a b = elim (compare_text a b) [ Ordering.lt ↦ true | _ ↦ false ]

-- The order by address, source and name.
unfoldable pub region_before : ElfDataRegion → ElfDataRegion → Bool
region_before a b =
    ltb a.virtual_address b.virtual_address
    || a.virtual_address == b.virtual_address
      && (ltb a.source_index b.source_index
          || a.source_index == b.source_index && text_before a.name b.name)

unfoldable pub insert_region : ElfDataRegion → List ElfDataRegion → List ElfDataRegion
unfolding region_before
insert_region region [] = region ∷ []
insert_region region (other ∷ regions) =
    let rest = insert_region region regions in
    if region_before other region then other ∷ rest else region ∷ other ∷ regions

unfoldable pub sort_regions : List ElfDataRegion → List ElfDataRegion
unfolding insert_region
sort_regions [] = []
sort_regions (region ∷ regions) = insert_region region (sort_regions regions)

-- An error of the library is `none`. The headers are of one of the four classes that the library
-- has, so the error for another class is left out.
unfoldable pub parse_program_regions : Option (List ProgramHeader) → ℕ → Result (List ElfDataRegion)
unfolding read_headers append_loads sort_regions
parse_program_regions none object_size = throw runtime_error
parse_program_regions (some headers) object_size = do
  (loads, tls) ← read_headers headers 0 object_size
  regions ← append_loads loads tls
  ok (sort_regions regions)
