-- ===== src/Elf/Regions/Boundaries.antt =====
-- backend/src/elf/program_regions.cpp: the boundaries of a segment rise, lie in the segment, and
-- hold the ends of each thread-local header that meets it.
use yet_another_reuse_distan.Prelude.{
  ℕ, ◌≤◌, ◌<◌, ◌≡◌, refl, ◌⊎◌, inl, inr, min, max, Bool, false, ◌&&◌, List, [], ◌∷◌, arith, ltb,
  Bool-cases, if◌then◌else◌,
}
use yet_another_reuse_distan.Elf.Regions.{HeaderRange, add_boundary, tls_boundaries, boundaries_of}

-- The list rises from above a number.
unfoldable pub Above : ℕ → List ℕ → Type 0
Above low [] = Unit {0}
Above low (b ∷ boundaries) = (low < b) × Above b boundaries

unfoldable pub Rising : List ℕ → Type 0
unfolding Above
Rising [] = Unit {0}
Rising (b ∷ boundaries) = Above b boundaries

unfoldable pub Has : ℕ → List ℕ → Type 0
Has p [] = ⊥
Has p (b ∷ boundaries) = (p ≡ b) ⊎ Has p boundaries

unfoldable pub Within : ℕ → ℕ → List ℕ → Type 0
Within low high [] = Unit {0}
Within low high (b ∷ boundaries) = (low ≤ b) × (b ≤ high) × Within low high boundaries

add_boundary-Above :
    (low b : ℕ) (boundaries : List ℕ)
    → low < b
    → Above low boundaries
    → Above low (add_boundary b boundaries)
unfolding add_boundary Above
add_boundary-Above low b [] h v = (h, tt)
add_boundary-Above low b (c ∷ boundaries) h (below, v) =
    ground (arith, add_boundary-Above c b boundaries)

add_boundary-Rising :
    (b : ℕ) (boundaries : List ℕ) → Rising boundaries → Rising (add_boundary b boundaries)
unfolding add_boundary Rising
add_boundary-Rising b [] v = tt
add_boundary-Rising b (c ∷ boundaries) v = ground (arith, add_boundary-Above c b boundaries)

add_boundary-Within :
    (low high b : ℕ) (boundaries : List ℕ)
    → low ≤ b
    → b ≤ high
    → Within low high boundaries
    → Within low high (add_boundary b boundaries)
unfolding add_boundary Within
add_boundary-Within low high b [] l h v = (l, h, tt)
add_boundary-Within low high b (c ∷ boundaries) l h (x, y, v) =
    ground (arith, add_boundary-Within low high b boundaries l h v)

add_boundary-Has_self : (b : ℕ) (boundaries : List ℕ) → Has b (add_boundary b boundaries)
unfolding add_boundary Has
add_boundary-Has_self b [] = inl refl
add_boundary-Has_self b (c ∷ boundaries) = ground (arith, add_boundary-Has_self b boundaries)

add_boundary-Has :
    (p b : ℕ) (boundaries : List ℕ) → Has p boundaries → Has p (add_boundary b boundaries)
unfolding add_boundary Has
add_boundary-Has p b [] v = absurd v
add_boundary-Has p b (c ∷ boundaries) v = ground (arith, add_boundary-Has p b boundaries)

abbrev pub meets : HeaderRange → HeaderRange → Bool
meets load tls = ltb tls.start load.memory_end && ltb load.start tls.memory_end

abbrev pub low_cut : HeaderRange → HeaderRange → ℕ
low_cut load tls = max load.start tls.start

abbrev pub high_cut : HeaderRange → HeaderRange → ℕ
high_cut load tls = max load.start (min load.memory_end tls.memory_end)

-- The ends of a header are among the boundaries, if it meets the segment.
abbrev pub Cut : HeaderRange → List ℕ → HeaderRange → Type 0
Cut load boundaries tls =
    (meets load tls ≡ false)
    ⊎ (Has (low_cut load tls) boundaries × Has (high_cut load tls) boundaries)

unfoldable pub EachCut : HeaderRange → List ℕ → List HeaderRange → Type 0
EachCut load boundaries [] = Unit {0}
EachCut load boundaries (tls ∷ headers) = Cut load boundaries tls × EachCut load boundaries headers

-- The boundaries that a header adds.
abbrev cut : HeaderRange → HeaderRange → List ℕ → List ℕ
cut load tls boundaries =
    if meets load tls
    then add_boundary (low_cut load tls) (add_boundary (high_cut load tls) boundaries)
    else boundaries

module _ (load : HeaderRange) (forward : load.start ≤ load.memory_end) where
  cut-Rising :
      (tls : HeaderRange) (boundaries : List ℕ)
      → Rising boundaries
      → Rising (cut load tls boundaries)
  cut-Rising tls boundaries v = elim (Bool-cases (meets load tls)) [
    | inl yes_meets ↦ rw yes_meets (
        add_boundary-Rising (low_cut load tls) (add_boundary (high_cut load tls) boundaries)
          (add_boundary-Rising (high_cut load tls) boundaries v))
    | inr apart ↦ rw apart v
  ]

  cut-Within :
      (tls : HeaderRange) (boundaries : List ℕ)
      → Within load.start load.memory_end boundaries
      → Within load.start load.memory_end (cut load tls boundaries)
  cut-Within tls boundaries v = elim (Bool-cases (meets load tls)) [
    | inl yes_meets ↦ rw yes_meets (
        add_boundary-Within load.start load.memory_end (low_cut load tls)
          (add_boundary (high_cut load tls) boundaries) (omega arith) (ground (arith, yes_meets))
          (add_boundary-Within load.start load.memory_end (high_cut load tls) boundaries
            (omega arith) (omega arith) v))
    | inr apart ↦ rw apart v
  ]

  cut-Has :
      (tls : HeaderRange) (p : ℕ) (boundaries : List ℕ)
      → Has p boundaries
      → Has p (cut load tls boundaries)
  cut-Has tls p boundaries v = elim (Bool-cases (meets load tls)) [
    | inl yes_meets ↦ rw yes_meets (
        add_boundary-Has p (low_cut load tls) (add_boundary (high_cut load tls) boundaries)
          (add_boundary-Has p (high_cut load tls) boundaries v))
    | inr apart ↦ rw apart v
  ]

  cut-Cut : (tls : HeaderRange) (boundaries : List ℕ) → Cut load (cut load tls boundaries) tls
  cut-Cut tls boundaries = elim (Bool-cases (meets load tls)) [
    | inl yes_meets ↦ rw yes_meets (
        inr (
          add_boundary-Has_self (low_cut load tls) (add_boundary (high_cut load tls) boundaries),
          add_boundary-Has (high_cut load tls) (low_cut load tls)
              (add_boundary (high_cut load tls) boundaries)
              (add_boundary-Has_self (high_cut load tls) boundaries),
        ))
    | inr apart ↦ inl apart
  ]

  tls_boundaries-Rising :
      (headers : List HeaderRange) (boundaries : List ℕ)
      → Rising boundaries
      → Rising (tls_boundaries load headers boundaries)
  unfolding tls_boundaries
  tls_boundaries-Rising [] boundaries v = v
  tls_boundaries-Rising (tls ∷ headers) boundaries v =
      tls_boundaries-Rising headers (cut load tls boundaries) (cut-Rising tls boundaries v)

  tls_boundaries-Within :
      (headers : List HeaderRange) (boundaries : List ℕ)
      → Within load.start load.memory_end boundaries
      → Within load.start load.memory_end (tls_boundaries load headers boundaries)
  unfolding tls_boundaries
  tls_boundaries-Within [] boundaries v = v
  tls_boundaries-Within (tls ∷ headers) boundaries v =
      tls_boundaries-Within headers (cut load tls boundaries) (cut-Within tls boundaries v)

  tls_boundaries-Has :
      (headers : List HeaderRange) (p : ℕ) (boundaries : List ℕ)
      → Has p boundaries
      → Has p (tls_boundaries load headers boundaries)
  unfolding tls_boundaries
  tls_boundaries-Has [] p boundaries v = v
  tls_boundaries-Has (tls ∷ headers) p boundaries v =
      tls_boundaries-Has headers p (cut load tls boundaries) (cut-Has tls p boundaries v)

  kept-Cut :
      (headers : List HeaderRange) (tls : HeaderRange) (boundaries : List ℕ)
      → Cut load boundaries tls
      → Cut load (tls_boundaries load headers boundaries) tls
  kept-Cut headers tls boundaries (inl apart) = inl apart
  kept-Cut headers tls boundaries (inr (low, high)) = inr (
    tls_boundaries-Has headers (low_cut load tls) boundaries low,
    tls_boundaries-Has headers (high_cut load tls) boundaries high,
  )

  tls_boundaries-EachCut :
      (headers : List HeaderRange) (boundaries : List ℕ)
      → EachCut load (tls_boundaries load headers boundaries) headers
  unfolding tls_boundaries EachCut
  tls_boundaries-EachCut [] boundaries = tt
  tls_boundaries-EachCut (tls ∷ headers) boundaries = (
    kept-Cut headers tls (cut load tls boundaries) (cut-Cut tls boundaries),
    tls_boundaries-EachCut headers (cut load tls boundaries),
  )

  pub record Bounded (headers : List HeaderRange) (boundaries : List ℕ) : Type 0 where
    pub rising : Rising boundaries
    pub within : Within load.start load.memory_end boundaries
    pub first : Has load.start boundaries
    pub last : Has load.memory_end boundaries
    pub cuts : EachCut load boundaries headers

  pub boundaries_of-Bounded :
      (headers : List HeaderRange)
      → load.start ≤ load.file_end
      → load.file_end ≤ load.memory_end
      → Bounded headers (boundaries_of load headers)
  unfolding boundaries_of Rising Within Above
  boundaries_of-Bounded headers low high =
      let ends = add_boundary load.memory_end [] in
      let files = add_boundary load.file_end ends in
      let all = add_boundary load.start files in
      record {
        rising = tls_boundaries-Rising headers all (
            add_boundary-Rising load.start files
              (add_boundary-Rising load.file_end ends (add_boundary-Rising load.memory_end [] tt)));
        within = tls_boundaries-Within headers all (
            add_boundary-Within load.start load.memory_end load.start files (omega arith) forward (
              add_boundary-Within load.start load.memory_end load.file_end ends low high (
                add_boundary-Within load.start load.memory_end load.memory_end [] forward
                  (omega arith) tt)));
        first = tls_boundaries-Has headers load.start all (add_boundary-Has_self load.start files);
        last = tls_boundaries-Has headers load.memory_end all (
            add_boundary-Has load.memory_end load.start files (
              add_boundary-Has load.memory_end load.file_end ends
                (add_boundary-Has_self load.memory_end [])));
        cuts = tls_boundaries-EachCut headers all;
      }
