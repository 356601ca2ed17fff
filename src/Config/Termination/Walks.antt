-- ===== src/Config/Termination/Walks.antt =====
-- The walk of a configuration to its memory has rounds enough, as it refuses a name that it has
-- seen.
use Prim.Native.String.{String}
use text.Mathlib.Text.{◌==◌ as str_eq}
use text.Mathlib.TextEquality.{eq_iff}
use yet_another_reuse_distan.Prelude.{
  ℕ, zero, suc, ◌+◌, ◌≤◌, ◌≡◌, ◌⊎◌, refl, sym, ap, Bool, true, false, inl, inr, List, [], ◌∷◌,
  arith, length, Result, ok, throw, throw_if, ◌>>=◌, invalid_argument, if◌then◌else◌, Bool-cases,
}
use mathlib.Core.Path.{subst}
use yet_another_reuse_distan.Config.{
  HierarchyConfig, CacheConfig, find_cache, find_cache_config, contains_name, walk, validate_walks,
}

-- A result that is not a fault.
abbrev pub Decided {ℓ} : {A : Type ℓ} → Result A → Type ℓ
Decided {A} m = ((a : A) × (m ≡ ok a)) ⊎ (m ≡ throw invalid_argument)

pub >>=-Decided {ℓ} :
    {A B : Type ℓ} (m : Result A) (f : A → Result B)
    → Decided m
    → ((a : A) → m ≡ ok a → Decided (f a))
    → Decided (m >>= f)
>>=-Decided m f (inl (a, e)) next = rw e (next a e)
>>=-Decided m f (inr e) next = inr (rw e refl)

pub throw_if-Decided : (b : Bool) → Decided (throw_if b invalid_argument)
throw_if-Decided true = inr refl
throw_if-Decided false = inl (tt, refl)

pub check-Decided :
    {B : Type 0} (b : Bool) (rest : Unit {0} → Result B)
    → Decided (rest tt)
    → Decided (throw_if b invalid_argument >>= rest)
check-Decided true rest h = inr refl
check-Decided false rest h = h

remove_name : String → List String → List String
remove_name name [] = []
remove_name name (other ∷ names) =
    if str_eq name other then names else other ∷ remove_name name names

contains-remove_name :
    (name other : String) (names : List String)
    → str_eq name other ≡ false
    → contains_name name names ≡ true
    → contains_name name (remove_name other names) ≡ true
unfolding contains_name remove_name
contains-remove_name name other [] ne h = h
contains-remove_name name other (n ∷ names) ne h = ground (
  arith,
  ne,
  h,
  eq_iff name other,
  eq_iff other n,
  eq_iff name n,
  contains-remove_name name other names ne,
)

length-remove_name :
    (name : String) (names : List String)
    → contains_name name names ≡ true
    → suc (length (remove_name name names)) ≡ length names
unfolding contains_name remove_name
length-remove_name name [] h = cc
length-remove_name name (n ∷ names) h = ground (arith, h, length-remove_name name names)

-- Names that differ from one another, each of them among others.
abbrev Fresh : List String → List String → Type 0
Fresh names [] = Unit {0}
Fresh names (v ∷ visited) =
    (contains_name v visited ≡ false) × (contains_name v names ≡ true) × Fresh names visited

Fresh-remove_name :
    (names visited : List String) (v : String)
    → contains_name v visited ≡ false
    → Fresh names visited
    → Fresh (remove_name v names) visited
unfolding contains_name
Fresh-remove_name names [] v ne h = tt
Fresh-remove_name names (w ∷ visited) v ne (new, here, rest) =
    let apart : str_eq w v ≡ false = ground (arith, ne, eq_iff v w, eq_iff w v) in
    (
      new,
      contains-remove_name w v names apart here,
      Fresh-remove_name names visited v (ground (arith, ne)) rest,
    )

-- There are no more such names than others.
length-Fresh : (names visited : List String) → Fresh names visited → length visited ≤ length names
length-Fresh names [] h = omega arith
length-Fresh names (v ∷ visited) (new, here, rest) = omega (
  arith,
  length-remove_name v names here,
  length-Fresh (remove_name v names) visited (Fresh-remove_name names visited v new rest),
)

pub names_of : List CacheConfig → List String
names_of [] = []
names_of (cache ∷ caches) = cache.name ∷ names_of caches

length-names_of : (caches : List CacheConfig) → length (names_of caches) ≡ length caches
unfolding names_of
length-names_of [] = refl
length-names_of (cache ∷ caches) = ap suc (length-names_of caches)

-- A cache that is found is one of the configured.
find_cache-name :
    (caches : List CacheConfig) (name : String) (d : CacheConfig)
    → find_cache caches name ≡ ok d
    → contains_name d.name (names_of caches) ≡ true
unfolding find_cache names_of contains_name
find_cache-name [] name d h = cc
find_cache-name (cache ∷ caches) name d h =
    ground (arith, h, eq_iff d.name cache.name, find_cache-name caches name d)

pub find_cache-Decided :
    (caches : List CacheConfig) (name : String) → Decided (find_cache caches name)
unfolding find_cache
find_cache-Decided [] name = inr refl
find_cache-Decided (cache ∷ caches) name = elim (Bool-cases (str_eq cache.name name)) [
  | inl e ↦ inl (cache, rw e refl)
  | inr e ↦ rw e (find_cache-Decided caches name)
]

-- With a round for each configured name that was not visited and two more, the walk is decided.
pub walk-Decided :
    (fuel : ℕ) (config : HierarchyConfig) (visited : List String) (c : CacheConfig)
    → Fresh (names_of config.caches) visited
    → contains_name c.name (names_of config.caches) ≡ true
    → length config.caches + 2 ≤ fuel + length visited
    → Decided (walk fuel config visited c)
unfolding walk find_cache_config
walk-Decided zero config visited c fresh here enough = absurd (
    omega (
      arith,
      enough,
      length-Fresh (names_of config.caches) visited fresh,
      length-names_of config.caches,
    ))
walk-Decided (suc fuel) config visited c fresh here enough =
    elim (Bool-cases (str_eq c.next config.memory.name)) [
      | inl e ↦ inl (tt, ground (arith, e))
      | inr e ↦ elim (Bool-cases (contains_name c.name visited)) [
        | inl seen ↦ inr (ground (arith, e, seen))
        | inr new ↦
            let next : walk (suc fuel) config visited c
                ≡ (find_cache config.caches c.next >>= λ d. walk fuel config (c.name ∷ visited) d) =
              ground (arith, e, new) in
            subst Decided (sym next) (
              >>=-Decided (find_cache config.caches c.next) _
                (find_cache-Decided config.caches c.next)
                (λ d found.
                  walk-Decided fuel config (c.name ∷ visited) d (new, here, fresh)
                    (find_cache-name config.caches c.next d found) (omega (arith, enough))))
      ]
    ]

-- The caches are among the configured.
abbrev pub Within : List String → List CacheConfig → Type 0
Within names [] = Unit {0}
Within names (c ∷ caches) = (contains_name c.name names ≡ true) × Within names caches

pub validate_walks-Decided :
    (config : HierarchyConfig) (caches : List CacheConfig)
    → Within (names_of config.caches) caches
    → Decided (validate_walks config caches)
unfolding validate_walks
validate_walks-Decided config [] h = inl (tt, refl)
validate_walks-Decided config (c ∷ caches) (here, rest) =
    >>=-Decided (walk (length config.caches + 2) config [] c) _
      (walk-Decided (length config.caches + 2) config [] c tt here (omega arith))
      (λ u e. validate_walks-Decided config caches rest)

pub Within-more :
    (names : List String) (n : String) (caches : List CacheConfig)
    → Within names caches
    → Within (n ∷ names) caches
unfolding contains_name
Within-more names n [] h = tt
Within-more names n (c ∷ caches) (here, rest) =
    (ground (arith, here), Within-more names n caches rest)

pub Within-self : (caches : List CacheConfig) → Within (names_of caches) caches
unfolding names_of contains_name
Within-self [] = tt
Within-self (c ∷ caches) = (
  ground (arith, eq_iff c.name c.name),
  Within-more (names_of caches) c.name caches (Within-self caches),
)
