-- ===== src/Elf/Regions/Coverage.antt =====
-- backend/src/elf/program_regions.cpp: the regions of a segment hold its addresses outside the
-- thread-local headers, and no others.
use yet_another_reuse_distan.Prelude.{
  ℕ, ◌+◌, ◌-◌, ◌≤◌, ◌<◌, ◌≡◌, refl, sym, ap, ap₂, lt_or_ge, ◌∙◌, ◌⊎◌, inl, inr, Bool, true, false,
  not, ◌&&◌, ◌||◌, List, [], ◌∷◌, arith, ltb, leb, Bool-cases, ok, ◌>>=◌, >>=-eq-ok, ok-injective,
}
use mathlib.Core.Path.{subst}
use native.Mathlib.Nat.{le_trans}
use yet_another_reuse_distan.Elf.Regions.{
  ElfDataRegion, HeaderRange, checked_add, overlaps_tls, make_region, append_parts,
  append_boundaries, append_load, boundaries_of,
}
use yet_another_reuse_distan.Elf.Regions.Boundaries.{
  Above, Rising, Has, Within, EachCut, meets, low_cut, high_cut, Bounded, boundaries_of-Bounded,
}

-- The address is one of a region.
unfoldable pub covers : ℕ → List ElfDataRegion → Bool
covers a [] = false
covers a (region ∷ regions) =
    leb region.virtual_address a && ltb a (region.virtual_address + region.memory_size)
    || covers a regions

-- The address is one of a thread-local header.
unfoldable pub in_tls : ℕ → List HeaderRange → Bool
in_tls a [] = false
in_tls a (tls ∷ headers) = leb tls.start a && ltb a tls.memory_end || in_tls a headers

-- A header does not end before it starts.
unfoldable pub AllForward : List HeaderRange → Type 0
AllForward [] = Unit {0}
AllForward (tls ∷ headers) = (tls.start ≤ tls.memory_end) × AllForward headers

last_of : ℕ → List ℕ → ℕ
last_of start [] = start
last_of start (end ∷ boundaries) = last_of end boundaries

-- No number of the list has `p` strictly between it and the next.
Separated : ℕ → ℕ → List ℕ → Type 0
Separated p start [] = Unit {0}
Separated p start (end ∷ boundaries) = ((p ≤ start) ⊎ (end ≤ p)) × Separated p end boundaries

EachSeparated : HeaderRange → ℕ → List ℕ → List HeaderRange → Type 0
EachSeparated load start boundaries [] = Unit {0}
EachSeparated load start boundaries (tls ∷ headers) =
    ((meets load tls ≡ false)
      ⊎ (Separated (low_cut load tls) start boundaries
          × Separated (high_cut load tls) start boundaries))
    × EachSeparated load start boundaries headers

passed :
    (p start : ℕ) (boundaries : List ℕ)
    → p ≤ start
    → Above start boundaries
    → Separated p start boundaries
unfolding Separated Above
passed p start [] h v = tt
passed p start (end ∷ boundaries) h (below, v) = (inl h, passed p end boundaries (omega arith) v)

Has-ge : (p low : ℕ) (boundaries : List ℕ) → Above low boundaries → Has p boundaries → low < p
unfolding Above Has
Has-ge p low [] v h = absurd h
Has-ge p low (b ∷ boundaries) (below, v) (inl e) = omega arith
Has-ge p low (b ∷ boundaries) (below, v) (inr h) = omega (arith, Has-ge p b boundaries v h)

Has-Separated :
    (p start : ℕ) (boundaries : List ℕ)
    → Above start boundaries
    → Has p (start ∷ boundaries)
    → Separated p start boundaries
unfolding Above Has Separated
Has-Separated p start [] v h = tt
Has-Separated p start (end ∷ boundaries) v (inl e) =
    passed p start (end ∷ boundaries) (omega arith) v
Has-Separated p start (end ∷ boundaries) (below, v) (inr h) =
    (inr (at_least h), Has-Separated p end boundaries v h)
  where
    at_least : (p ≡ end) ⊎ Has p boundaries → end ≤ p
    at_least (inl e) = omega arith
    at_least (inr h) = omega (arith, Has-ge p end boundaries v h)

EachCut-EachSeparated :
    (load : HeaderRange) (start : ℕ) (boundaries : List ℕ) (headers : List HeaderRange)
    → Above start boundaries
    → EachCut load (start ∷ boundaries) headers
    → EachSeparated load start boundaries headers
unfolding EachCut EachSeparated
EachCut-EachSeparated load start boundaries [] v each = tt
EachCut-EachSeparated load start boundaries (tls ∷ headers) v (inl apart, each) =
    (inl apart, EachCut-EachSeparated load start boundaries headers v each)
EachCut-EachSeparated load start boundaries (tls ∷ headers) v (inr (low, high), each) = (
  inr (
    Has-Separated (low_cut load tls) start boundaries v low,
    Has-Separated (high_cut load tls) start boundaries v high,
  ),
  EachCut-EachSeparated load start boundaries headers v each,
)

EachSeparated-tail :
    (load : HeaderRange) (start end : ℕ) (boundaries : List ℕ) (headers : List HeaderRange)
    → EachSeparated load start (end ∷ boundaries) headers
    → EachSeparated load end boundaries headers
unfolding EachSeparated Separated
EachSeparated-tail load start end boundaries [] each = tt
EachSeparated-tail load start end boundaries (tls ∷ headers) (inl apart, each) =
    (inl apart, EachSeparated-tail load start end boundaries headers each)
EachSeparated-tail load start end boundaries (tls ∷ headers) (inr ((_, low), (_, high)), each) =
    (inr (low, high), EachSeparated-tail load start end boundaries headers each)

-- Between two boundaries a header holds all addresses or none.
in_tls-overlaps_tls :
    (load : HeaderRange) (start end : ℕ) (boundaries : List ℕ) (headers : List HeaderRange) (a : ℕ)
    → EachSeparated load start (end ∷ boundaries) headers
    → AllForward headers
    → load.start ≤ start
    → end ≤ load.memory_end
    → start ≤ a
    → a < end
    → in_tls a headers ≡ overlaps_tls start end headers
unfolding EachSeparated Separated AllForward in_tls overlaps_tls
in_tls-overlaps_tls load start end boundaries [] a each forward low high x y = refl
in_tls-overlaps_tls load start end boundaries (tls ∷ headers) a (inl apart, each) (f, forward) low
      high x y =
    ground
      (arith, in_tls-overlaps_tls load start end boundaries headers a each forward low high x y)
in_tls-overlaps_tls load start end boundaries (tls ∷ headers) a (inr ((p, _), (q, _)), each)
      (f, forward) low high x y =
    ground
      (arith, in_tls-overlaps_tls load start end boundaries headers a each forward low high x y)

region_bounds :
    (load : HeaderRange) (start end part : ℕ) (region : ElfDataRegion)
    → make_region load start end part ≡ ok region
    → (region.virtual_address ≡ start) × (region.memory_size ≡ end - start)
unfolding make_region
region_bounds load start end part region h =
    let (_, added, h₁) = >>=-eq-ok (checked_add load.file_offset (start - load.start)) _ h in
    let same = ok-injective h₁ in
    (ap (λ z. z.virtual_address) (sym same), ap (λ z. z.memory_size) (sym same))

last_of-ge :
    (start : ℕ) (boundaries : List ℕ) → Above start boundaries → start ≤ last_of start boundaries
unfolding Above last_of
last_of-ge start [] v = omega arith
last_of-ge start (end ∷ boundaries) (below, v) = omega (arith, last_of-ge end boundaries v)

-- A part that is skipped lies in a thread-local header.
skip_part :
    (start end last a : ℕ) (local covered : Bool)
    → (start ≤ a → a < end → local ≡ true)
    → start < end
    → end ≤ last
    → covered ≡ (leb end a && ltb a last && not local)
    → covered ≡ (leb start a && ltb a last && not local)
skip_part start end last a local covered inside below ends rest = elim (lt_or_ge a end) [
  | inr after ↦ ground arith
  | inl before ↦ elim (lt_or_ge a start) [
    | inl outside ↦ ground arith
    | inr within ↦ let held = inside within before in ground arith
  ]
]

take_part :
    (start end last a address size : ℕ) (local covered : Bool)
    → (start ≤ a → a < end → local ≡ false)
    → start < end
    → end ≤ last
    → address ≡ start
    → size ≡ end - start
    → covered ≡ (leb end a && ltb a last && not local)
    → (leb address a && ltb a (address + size) || covered)
      ≡ (leb start a && ltb a last && not local)
take_part start end last a address size local covered inside below ends at long rest =
    elim (lt_or_ge a end) [
      | inr after ↦ ground arith
      | inl before ↦ elim (lt_or_ge a start) [
        | inl outside ↦ ground arith
        | inr within ↦ let free = inside within before in ground arith
      ]
    ]

-- The boundaries of a segment are its ends, and those between.
first_is :
    (load : HeaderRange) (first : ℕ) (boundaries : List ℕ)
    → Above first boundaries
    → load.start ≤ first
    → Has load.start (first ∷ boundaries)
    → first ≡ load.start
unfolding Has
first_is load first boundaries v low (inl e) = sym e
first_is load first boundaries v low (inr h) =
    absurd (omega (arith, Has-ge load.start first boundaries v h, low))

last_is :
    (low high start : ℕ) (boundaries : List ℕ)
    → Above start boundaries
    → Within low high (start ∷ boundaries)
    → Has high (start ∷ boundaries)
    → last_of start boundaries ≡ high
unfolding Has Above Within last_of
last_is low high start [] v w (inl e) = sym e
last_is low high start [] v w (inr h) = absurd h
last_is low high start (end ∷ boundaries) (below, v) (x, y, w) (inl e) =
    absurd (omega (arith, w.1, below, e))
last_is low high start (end ∷ boundaries) (below, v) (x, y, w) (inr h) =
    last_is low high end boundaries v w h

module _ (load : HeaderRange) (headers : List HeaderRange) (forward : AllForward headers) where
  append_parts-covers :
      (start : ℕ) (boundaries : List ℕ) (part : ℕ) (regions : List ElfDataRegion) (a : ℕ)
      → Above start boundaries
      → Within load.start load.memory_end (start ∷ boundaries)
      → EachSeparated load start boundaries headers
      → append_parts load headers start boundaries part ≡ ok regions
      → covers a regions
        ≡ (leb start a && ltb a (last_of start boundaries) && not (in_tls a headers))
  unfolding append_parts Above Within covers last_of
  append_parts-covers start [] part regions a v w each h =
      subst (λ z. covers a z ≡ (leb start a && ltb a start && not (in_tls a headers)))
        (ok-injective h) (ground arith)
  append_parts-covers start (end ∷ boundaries) part regions a (below, v) (low, _, w) each h =
      let further = EachSeparated-tail load start end boundaries headers each in
      let ends = last_of-ge end boundaries v in
      let rising : leb end start ≡ false = ground (arith, below) in
      elim (Bool-cases (overlaps_tls start end headers)) [
        | inl overlapped ↦
            let skipped : append_parts load headers end boundaries part ≡ ok regions =
              ground (arith, rising, overlapped, h) in
            let rest = append_parts-covers end boundaries part regions a v w further skipped in
            skip_part start end (last_of end boundaries) a (in_tls a headers) (covers a regions)
              (λ x y.
                in_tls-overlaps_tls load start end boundaries headers a each forward low (w.1) x y
                ∙ overlapped)
              below ends rest
        | inr free ↦
            let ran : (make_region load start end part >>= λ region.
            append_parts load headers end boundaries (part + 1) >>= λ rest. ok (region ∷ rest))
                ≡ ok regions =
              ground (arith, rising, free, h) in
            let (region, made, h₁) = >>=-eq-ok (make_region load start end part) _ ran in
            let (rest, looped, h₂) =
              >>=-eq-ok (append_parts load headers end boundaries (part + 1)) _ h₁ in
            let (at, size) = region_bounds load start end part region made in
            let others = append_parts-covers end boundaries (part + 1) rest a v w further looped in
            subst
              (λ z.
                covers a z
                ≡ (leb start a && ltb a (last_of end boundaries) && not (in_tls a headers)))
              (ok-injective h₂)
              (take_part start end (last_of end boundaries) a region.virtual_address
                region.memory_size (in_tls a headers) (covers a rest)
                (λ x y.
                  in_tls-overlaps_tls load start end boundaries headers a each forward low (w.1) x y
                  ∙ free)
                below ends at size others)
      ]

  append_boundaries-covers :
      (forward_load : load.start ≤ load.memory_end) (boundaries : List ℕ)
      (regions : List ElfDataRegion) (a : ℕ)
      → Bounded load forward_load headers boundaries
      → append_boundaries load headers boundaries ≡ ok regions
      → covers a regions ≡ (leb load.start a && ltb a load.memory_end && not (in_tls a headers))
  unfolding append_boundaries Rising Within Has
  append_boundaries-covers forward_load [] regions a b h = absurd b.first
  append_boundaries-covers forward_load (first ∷ boundaries) regions a b h =
      let starts = first_is load first boundaries b.rising (b.within.0) b.first in
      let ends = last_is load.start load.memory_end first boundaries b.rising b.within b.last in
      append_parts-covers first boundaries 0 regions a b.rising b.within
        (EachCut-EachSeparated load first boundaries headers b.rising b.cuts) h
      ∙ ap₂ (λ x y. leb x a && ltb a y && not (in_tls a headers)) starts ends

  -- An address is one of the regions of a segment exactly if it is one of the segment and of no
  -- thread-local header; the end of the file part lies in the segment, and no header ends before it
  -- starts.
  pub append_load-covers :
      (regions : List ElfDataRegion) (a : ℕ)
      → load.start ≤ load.file_end
      → load.file_end ≤ load.memory_end
      → append_load load headers ≡ ok regions
      → covers a regions ≡ (leb load.start a && ltb a load.memory_end && not (in_tls a headers))
  unfolding append_load
  append_load-covers regions a low high h =
      append_boundaries-covers (le_trans low high) (boundaries_of load headers) regions a
        (boundaries_of-Bounded load (le_trans low high) headers low high) h
