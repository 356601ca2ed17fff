-- ===== src/Elf/Regions/Program.antt =====
-- backend/src/elf/program_regions.cpp: the regions of all the headers of a program.
use mathlib.Core.Path.{subst}
use native.Mathlib.Nat.{le_trans}
use yet_another_reuse_distan.Prelude.{
  ℕ, ◌+◌, ◌≤◌, ◌≡◌, refl, sym, ap, ap₂, ◌∙◌, inl, inr, Bool, true, false, not, ◌&&◌, ◌||◌, List, [],
  ◌∷◌, ◌++◌, some, arith, ltb, leb, ◌==◌, if◌then◌else◌, Bool-cases, eq_or_ne, ok, throw_if, ◌>>=◌,
  >>=-eq-ok, ok-injective, runtime_error,
}
use yet_another_reuse_distan.Elf.Regions.{
  ElfDataRegion, ProgramHeader, HeaderRange, has_bit, checked_add, append_load, append_loads,
  is_load, is_tls, header_range, read_headers, region_before, insert_region, sort_regions,
  parse_program_regions,
}
use yet_another_reuse_distan.Elf.Regions.Coverage.{covers, in_tls, AllForward, append_load-covers}

-- The address is in the memory of a header.
abbrev pub in_header : ℕ → ProgramHeader → Bool
in_header a header = leb header.p_vaddr a && ltb a (header.p_vaddr + header.p_memsz)

-- The address is in a loaded segment that is not executable.
unfoldable pub in_data : ℕ → List ProgramHeader → Bool
in_data a [] = false
in_data a (header ∷ headers) =
    is_load header && not (has_bit 0 header.p_flags) && in_header a header || in_data a headers

unfoldable pub in_thread_local : ℕ → List ProgramHeader → Bool
in_thread_local a [] = false
in_thread_local a (header ∷ headers) =
    is_tls header && in_header a header || in_thread_local a headers

in_loads : ℕ → List HeaderRange → Bool
in_loads a [] = false
in_loads a (load ∷ loads) = leb load.start a && ltb a load.memory_end || in_loads a loads

AllFiles : List HeaderRange → Type 0
AllFiles [] = Unit {0}
AllFiles (load ∷ loads) =
    (load.start ≤ load.file_end) × (load.file_end ≤ load.memory_end) × AllFiles loads

checked_add-eq : (left right sum : ℕ) → checked_add left right ≡ ok sum → sum ≡ left + right
unfolding checked_add
checked_add-eq left right sum h = ground (arith, h)

-- The range of a header.
record IsRangeOf (header : ProgramHeader) (range : HeaderRange) : Type 0 where
  start : range.start ≡ header.p_vaddr
  memory_end : range.memory_end ≡ header.p_vaddr + header.p_memsz
  after_start : range.start ≤ range.file_end
  in_memory : range.file_end ≤ range.memory_end

header_range-IsRangeOf :
    (header : ProgramHeader) (index object_size : ℕ) (range : HeaderRange)
    → header_range header index object_size ≡ ok range
    → IsRangeOf header range
unfolding header_range
header_range-IsRangeOf header index object_size range h =
    let (file_end, files, h₁) = >>=-eq-ok (checked_add header.p_vaddr header.p_filesz) _ h in
    let (memory_end, memory, h₂) = >>=-eq-ok (checked_add header.p_vaddr header.p_memsz) _ h₁ in
    let (offset_end, offset, h₃) = >>=-eq-ok (checked_add header.p_offset header.p_filesz) _ h₂ in
    let (_, fits, h₄) =
      >>=-eq-ok
        (throw_if (ltb header.p_memsz header.p_filesz || ltb object_size offset_end) runtime_error)
        _ h₃ in
    let small : header.p_filesz ≤ header.p_memsz = ground (arith, fits) in
    let e = checked_add-eq header.p_vaddr header.p_filesz file_end files in
    let e' = checked_add-eq header.p_vaddr header.p_memsz memory_end memory in
    subst (IsRangeOf header) (ok-injective h₄) (record {
      start = refl;
      memory_end = e';
      after_start = omega (arith, e);
      in_memory = omega (arith, e, e', small);
    })

-- What is read of the headers.
record Reads (headers : List ProgramHeader) (loads tls : List HeaderRange) : Type 0 where
  loaded : (a : ℕ) → in_loads a loads ≡ in_data a headers
  local : (a : ℕ) → in_tls a tls ≡ in_thread_local a headers
  files : AllFiles loads
  forward : AllForward tls

abbrev keeps_load : ProgramHeader → Bool
keeps_load header = is_load header && not (header.p_memsz == 0) && not (has_bit 0 header.p_flags)

abbrev keeps_tls : ProgramHeader → Bool
keeps_tls header = is_tls header && not (header.p_memsz == 0)

in_loads-if :
    (a : ℕ) (keeps : Bool) (range : HeaderRange) (loads : List HeaderRange)
    → in_loads a (if keeps then range ∷ loads else loads)
      ≡ (keeps && (leb range.start a && ltb a range.memory_end) || in_loads a loads)
unfolding in_loads
in_loads-if a true range loads = refl
in_loads-if a false range loads = refl

in_tls-if :
    (a : ℕ) (keeps : Bool) (range : HeaderRange) (tls : List HeaderRange)
    → in_tls a (if keeps then range ∷ tls else tls)
      ≡ (keeps && (leb range.start a && ltb a range.memory_end) || in_tls a tls)
unfolding in_tls
in_tls-if a true range tls = refl
in_tls-if a false range tls = refl

AllFiles-if :
    (keeps : Bool) (range : HeaderRange) (loads : List HeaderRange)
    → range.start ≤ range.file_end
    → range.file_end ≤ range.memory_end
    → AllFiles loads
    → AllFiles (if keeps then range ∷ loads else loads)
unfolding AllFiles
AllFiles-if true range loads low high v = (low, high, v)
AllFiles-if false range loads low high v = v

AllForward-if :
    (keeps : Bool) (range : HeaderRange) (tls : List HeaderRange)
    → range.start ≤ range.memory_end
    → AllForward tls
    → AllForward (if keeps then range ∷ tls else tls)
unfolding AllForward
AllForward-if true range tls forward v = (forward, v)
AllForward-if false range tls forward v = v

held :
    (a : ℕ) (header : ProgramHeader) (range : HeaderRange)
    → IsRangeOf header range
    → (leb range.start a && ltb a range.memory_end) ≡ in_header a header
held a header range r = ap₂ (λ x y. leb x a && ltb a y) r.start r.memory_end

-- A header of no memory holds no address.
empty_load :
    (a : ℕ) (header : ProgramHeader) (others : Bool)
    → (keeps_load header && in_header a header || others)
      ≡ (is_load header && not (has_bit 0 header.p_flags) && in_header a header || others)
empty_load a header others = elim (eq_or_ne header.p_memsz 0) [
  | inl none_held ↦ ground (arith, none_held)
  | inr some_held ↦ ground (arith, some_held)
]

empty_tls :
    (a : ℕ) (header : ProgramHeader) (others : Bool)
    → (keeps_tls header && in_header a header || others)
      ≡ (is_tls header && in_header a header || others)
empty_tls a header others = elim (eq_or_ne header.p_memsz 0) [
  | inl none_held ↦ ground (arith, none_held)
  | inr some_held ↦ ground (arith, some_held)
]

read_headers-Reads :
    (headers : List ProgramHeader) (index object_size : ℕ) (loads tls : List HeaderRange)
    → read_headers headers index object_size ≡ ok (loads, tls)
    → Reads headers loads tls
unfolding read_headers in_loads in_data in_tls in_thread_local AllFiles AllForward
read_headers-Reads [] index object_size loads tls h =
    subst (λ (z : List HeaderRange × List HeaderRange). Reads [] z.0 z.1) (ok-injective h)
      (record { loaded = λ a. refl; local = λ a. refl; files = tt; forward = tt })
read_headers-Reads (header ∷ headers) index object_size loads tls h =
    elim (Bool-cases (is_load header || is_tls header)) [
      | inr other ↦
          let rest : read_headers headers (index + 1) object_size ≡ ok (loads, tls) =
            ground (arith, other, h) in
          let v = read_headers-Reads headers (index + 1) object_size loads tls rest in
          record {
            loaded = λ a. v.loaded a ∙ ground (arith, other);
            local = λ a. v.local a ∙ ground (arith, other);
            files = v.files;
            forward = v.forward;
          }
      | inl kept ↦
          let ran : (header_range header index object_size >>= λ range.
          read_headers headers (index + 1) object_size >>= λ rest. ok (
            if keeps_load header then range ∷ rest.0 else rest.0,
            if keeps_tls header then range ∷ rest.1 else rest.1,
          ))
              ≡ ok (loads, tls) =
            ground (arith, kept, h) in
          let (range, made, h₁) = >>=-eq-ok (header_range header index object_size) _ ran in
          let ((loads', tls'), read, h₂) =
            >>=-eq-ok (read_headers headers (index + 1) object_size) _ h₁ in
          let r = header_range-IsRangeOf header index object_size range made in
          let v = read_headers-Reads headers (index + 1) object_size loads' tls' read in
          subst (λ (z : List HeaderRange × List HeaderRange). Reads (header ∷ headers) z.0 z.1)
            (ok-injective h₂)
            (record {
              loaded = λ a.
                  in_loads-if a (keeps_load header) range loads'
                  ∙ ap₂ (λ x y. keeps_load header && x || y) (held a header range r) (v.loaded a)
                  ∙ empty_load a header (in_data a headers);
              local = λ a.
                  in_tls-if a (keeps_tls header) range tls'
                  ∙ ap₂ (λ x y. keeps_tls header && x || y) (held a header range r) (v.local a)
                  ∙ empty_tls a header (in_thread_local a headers);
              files =
                  AllFiles-if (keeps_load header) range loads' r.after_start r.in_memory v.files;
              forward =
                  AllForward-if (keeps_tls header) range tls' (le_trans r.after_start r.in_memory)
                    v.forward;
            })
    ]

covers-append :
    (a : ℕ) (xs ys : List ElfDataRegion) → covers a (xs ++ ys) ≡ (covers a xs || covers a ys)
unfolding covers
covers-append a [] ys = refl
covers-append a (x ∷ xs) ys = ground (arith, covers-append a xs ys)

covers-insert :
    (a : ℕ) (region : ElfDataRegion) (regions : List ElfDataRegion)
    → covers a (insert_region region regions) ≡ covers a (region ∷ regions)
unfolding covers insert_region
covers-insert a region [] = refl
covers-insert a region (other ∷ regions) = elim (Bool-cases (region_before other region)) [
  | inl before ↦ rw before (ground (arith, covers-insert a region regions))
  | inr after ↦ rw after
]

covers-sort :
    (a : ℕ) (regions : List ElfDataRegion) → covers a (sort_regions regions) ≡ covers a regions
unfolding covers sort_regions
covers-sort a [] = refl
covers-sort a (region ∷ regions) =
    covers-insert a region (sort_regions regions) ∙ ground (arith, covers-sort a regions)

covers_nil : (a : ℕ) → covers a [] ≡ false
unfolding covers
covers_nil a = refl

append_loads-covers :
    (a : ℕ) (loads tls : List HeaderRange) (regions : List ElfDataRegion)
    → AllFiles loads
    → AllForward tls
    → append_loads loads tls ≡ ok regions
    → covers a regions ≡ (in_loads a loads && not (in_tls a tls))
unfolding append_loads AllFiles in_loads
append_loads-covers a [] tls regions files forward h =
    subst (λ z. covers a z ≡ false) (ok-injective h) (covers_nil a)
append_loads-covers a (load ∷ loads) tls regions (low, high, files) forward h =
    let (first, made, h₁) = >>=-eq-ok (append_load load tls) _ h in
    let (rest, more, h₂) = >>=-eq-ok (append_loads loads tls) _ h₁ in
    let here = append_load-covers load tls forward first a low high made in
    let there = append_loads-covers a loads tls rest files forward more in
    subst (λ z. covers a z ≡ (in_loads a (load ∷ loads) && not (in_tls a tls))) (ok-injective h₂)
      (covers-append a first rest ∙ ground (arith, here, there))

-- Where the headers of a program are accepted, an address is one of the parsed regions exactly if
-- it is in the memory of a loaded header that is not executable, and of no thread-local header.
pub parse_program_regions-covers :
    (headers : List ProgramHeader) (object_size : ℕ) (regions : List ElfDataRegion) (a : ℕ)
    → parse_program_regions (some headers) object_size ≡ ok regions
    → covers a regions ≡ (in_data a headers && not (in_thread_local a headers))
unfolding parse_program_regions
parse_program_regions-covers headers object_size regions a h =
    let ((loads, tls), read, h₁) = >>=-eq-ok (read_headers headers 0 object_size) _ h in
    let (found, made, h₂) = >>=-eq-ok (append_loads loads tls) _ h₁ in
    let v = read_headers-Reads headers 0 object_size loads tls read in
    ap (covers a) (sym (ok-injective h₂))
    ∙ covers-sort a found
    ∙ append_loads-covers a loads tls found v.files v.forward made
    ∙ ap₂ (λ x y. x && not y) (v.loaded a) (v.local a)
