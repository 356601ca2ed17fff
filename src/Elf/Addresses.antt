-- ===== src/Elf/Addresses.antt =====
-- backend/src/elf/object_addresses.cpp: the object of each symbol, under its name.
use Prim.Native.String.{String, ◌++◌ as append}
use text.Mathlib.Text.{◌==◌ as str_eq}
use text.Mathlib.TextEquality.{eq_iff}
use text.Mathlib.TextPositions.{eq_refl}
use mathlib.Core.Path.{subst}
use yet_another_reuse_distan.Prelude.{
  ◌≤◌, ◌≡◌, refl, sym, ap, ◌∙◌, inl, inr, Bool, true, false, ◌&&◌, List, [], ◌∷◌, none, some, arith,
  ◌==◌, if◌then◌else◌, Bool-cases, Option-cases, Result, ok, throw, throw_if, ◌>>=◌, >>=-eq-ok,
  ok-injective, invalid_argument,
}
use yet_another_reuse_distan.Mapping.Types.{absolute, image_relative}
use yet_another_reuse_distan.Rd.Arithmetic.{u64_max}
use yet_another_reuse_distan.Trace.Access.{ObjectAddress, ObjectAddressModel, find_object}
use yet_another_reuse_distan.Trace.Access.Extent.{AllWords}
use yet_another_reuse_distan.Elf.Images.{ElfDataSymbol, ElfDataRegions}

abbrev pub object_id_of : ElfDataSymbol → String
object_id_of symbol = append "global::" symbol.name

abbrev pub address_of : ElfDataSymbol → ObjectAddress
address_of symbol = record { base = symbol.virtual_address; size = symbol.size }

-- `emplace`, with the check of an object that is there already.
unfoldable pub add_object :
    ElfDataSymbol → List (String × ObjectAddress) → Result (List (String × ObjectAddress))
unfolding find_object
add_object symbol objects = elim (find_object (object_id_of symbol) objects) [
  | none ↦ ok ((object_id_of symbol, address_of symbol) ∷ objects)
  | some known ↦
      if known.base == symbol.virtual_address && known.size == symbol.size
      then ok objects
      else throw invalid_argument
]

unfoldable pub add_objects :
    List ElfDataSymbol → List (String × ObjectAddress) → Result (List (String × ObjectAddress))
unfolding add_object
add_objects [] objects = ok objects
add_objects (symbol ∷ symbols) objects = do
  objects' ← add_object symbol objects
  add_objects symbols objects'

abbrev pub has_no_symbol : List ElfDataSymbol → Bool
has_no_symbol [] = true
has_no_symbol (symbol ∷ symbols) = false

unfoldable pub build_elf_object_addresses : ElfDataRegions → Result ObjectAddressModel
unfolding add_objects
build_elf_object_addresses image = do
  _ ← throw_if (has_no_symbol image.symbols) invalid_argument
  objects ← add_objects image.symbols []
  ok (record {
    basis = if image.image_relative then image_relative else absolute;
    objects = objects;
  })

-- Each symbol is found under its name, with its own address and size.
unfoldable pub AllFound : List (String × ObjectAddress) → List ElfDataSymbol → Type 0
AllFound objects [] = Unit {0}
AllFound objects (symbol ∷ symbols) =
    (find_object (object_id_of symbol) objects ≡ some (address_of symbol))
    × AllFound objects symbols

unfoldable pub AllSized : List ElfDataSymbol → Type 0
AllSized [] = Unit {0}
AllSized (symbol ∷ symbols) = (symbol.size ≤ u64_max) × AllSized symbols

found_first :
    (id : String) (object : ObjectAddress) (objects : List (String × ObjectAddress))
    → find_object id ((id, object) ∷ objects) ≡ some object
unfolding find_object
found_first id object objects = rw (eq_refl id)

-- An object that was not there hides no other.
found_behind :
    (id fresh_id : String) (fresh : ObjectAddress) (objects : List (String × ObjectAddress))
    (object : ObjectAddress)
    → find_object fresh_id objects ≡ none
    → find_object id objects ≡ some object
    → find_object id ((fresh_id, fresh) ∷ objects) ≡ some object
unfolding find_object
found_behind id fresh_id fresh objects object absent found =
    elim (Bool-cases (str_eq id fresh_id)) [
      | inl same ↦
          let e : id ≡ fresh_id = (eq_iff id fresh_id).0 same in
          let stop : none ≡ some object =
            sym (subst (λ z. find_object z objects ≡ none) (sym e) absent) ∙ found in
          cc stop
      | inr other ↦ rw other found
    ]

-- What is found stays found.
add_object-kept :
    (symbol : ElfDataSymbol) (objects objects' : List (String × ObjectAddress)) (id : String)
    (object : ObjectAddress)
    → find_object id objects ≡ some object
    → add_object symbol objects ≡ ok objects'
    → find_object id objects' ≡ some object
unfolding add_object
add_object-kept symbol objects objects' id object found h =
    elim (Option-cases (find_object (object_id_of symbol) objects)) [
      | inl fresh ↦
          let added : (object_id_of symbol, address_of symbol) ∷ objects ≡ objects' =
            ground (arith, fresh, h) in
          subst (λ z. find_object id z ≡ some object) added
            (found_behind id (object_id_of symbol) (address_of symbol) objects object fresh found)
      | inr (known, there) ↦
          let same : objects ≡ objects' = ground (arith, there, h) in
          subst (λ z. find_object id z ≡ some object) same found
    ]

add_object-found :
    (symbol : ElfDataSymbol) (objects objects' : List (String × ObjectAddress))
    → add_object symbol objects ≡ ok objects'
    → find_object (object_id_of symbol) objects' ≡ some (address_of symbol)
unfolding add_object
add_object-found symbol objects objects' h =
    elim (Option-cases (find_object (object_id_of symbol) objects)) [
      | inl fresh ↦
          let added : (object_id_of symbol, address_of symbol) ∷ objects ≡ objects' =
            ground (arith, fresh, h) in
          subst (λ z. find_object (object_id_of symbol) z ≡ some (address_of symbol)) added
            (found_first (object_id_of symbol) (address_of symbol) objects)
      | inr (known, there) ↦
          let same : objects ≡ objects' = ground (arith, there, h) in
          let equal : known ≡ address_of symbol = ground (arith, there, h) in
          subst (λ z. find_object (object_id_of symbol) z ≡ some (address_of symbol)) same
            (there ∙ ap some equal)
    ]

add_object-AllWords :
    (symbol : ElfDataSymbol) (objects objects' : List (String × ObjectAddress))
    → symbol.size ≤ u64_max
    → AllWords objects
    → add_object symbol objects ≡ ok objects'
    → AllWords objects'
unfolding add_object AllWords
add_object-AllWords symbol objects objects' small w h =
    elim (Option-cases (find_object (object_id_of symbol) objects)) [
      | inl fresh ↦
          let added : (object_id_of symbol, address_of symbol) ∷ objects ≡ objects' =
            ground (arith, fresh, h) in
          subst AllWords added (small, w)
      | inr (known, there) ↦
          let same : objects ≡ objects' = ground (arith, there, h) in subst AllWords same w
    ]

add_objects-kept :
    (symbols : List ElfDataSymbol) (objects objects' : List (String × ObjectAddress)) (id : String)
    (object : ObjectAddress)
    → find_object id objects ≡ some object
    → add_objects symbols objects ≡ ok objects'
    → find_object id objects' ≡ some object
unfolding add_objects
add_objects-kept [] objects objects' id object found h =
    subst (λ z. find_object id z ≡ some object) (ok-injective h) found
add_objects-kept (symbol ∷ symbols) objects objects' id object found h =
    let (between, added, h₁) = >>=-eq-ok (add_object symbol objects) _ h in
    add_objects-kept symbols between objects' id object
      (add_object-kept symbol objects between id object found added) h₁

add_objects-AllFound :
    (symbols : List ElfDataSymbol) (objects objects' : List (String × ObjectAddress))
    → AllSized symbols
    → AllWords objects
    → add_objects symbols objects ≡ ok objects'
    → AllFound objects' symbols × AllWords objects'
unfolding add_objects AllFound AllSized
add_objects-AllFound [] objects objects' sized w h = (tt, subst AllWords (ok-injective h) w)
add_objects-AllFound (symbol ∷ symbols) objects objects' (small, sized) w h =
    let (between, added, h₁) = >>=-eq-ok (add_object symbol objects) _ h in
    let (rest, words) =
      add_objects-AllFound symbols between objects' sized
        (add_object-AllWords symbol objects between small w added) h₁ in
    (
      (
        add_objects-kept symbols between objects' (object_id_of symbol) (address_of symbol)
            (add_object-found symbol objects between added) h₁,
        rest,
      ),
      words,
    )

-- In the address model of an image whose symbols have 64-bit sizes, each symbol is found under its
-- name with its own address and size, the sizes are 64-bit numbers, and the addresses are absolute
-- exactly if the image is not relative.
pub build_elf_object_addresses-AllFound :
    (image : ElfDataRegions) (model : ObjectAddressModel)
    → AllSized image.symbols
    → build_elf_object_addresses image ≡ ok model
    → AllFound model.objects image.symbols
      × AllWords model.objects
      × (model.basis ≡ (if image.image_relative then image_relative else absolute))
unfolding build_elf_object_addresses AllWords
build_elf_object_addresses-AllFound image model sized h =
    let (_, given, h₁) = >>=-eq-ok (throw_if (has_no_symbol image.symbols) invalid_argument) _ h in
    let (objects, added, h₂) = >>=-eq-ok (add_objects image.symbols []) _ h₁ in
    let (found, words) = add_objects-AllFound image.symbols [] objects sized tt added in
    subst
      (λ z.
        AllFound z.objects image.symbols
        × AllWords z.objects
        × (z.basis ≡ (if image.image_relative then image_relative else absolute)))
      (ok-injective h₂) (found, words, refl)
