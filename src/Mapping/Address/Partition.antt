-- ===== src/Mapping/Address/Partition.antt =====
-- Which geometries are accepted, and that the parts of an address determine it.
use native.Mathlib.Nat.{pow-suc, div-add-mod', mod-lt, mul-div_cancel, mul-mod_left}
use yet_another_reuse_distan.Prelude.{
  ap₂, ℕ, zero, suc, ◌+◌, ◌-◌, ◌*◌, ◌/◌, ◌%◌, ◌^◌, ◌≤◌, ◌<◌, ◌≡◌, refl, ap, ◌∙◌, sym, ◌↔◌, true,
  arith, ok, >>=-eq-ok, inl, inr, lt_or_ge,
}
use yet_another_reuse_distan.Bits.PowerOfTwo.{is_power_of_two_iff, power_is_positive}
use yet_another_reuse_distan.Mapping.Address.{
  CacheGeometry, DecodedCacheAddress, line_id, line_id_eq, validate, cache_set_count, partition,
  decode_cache_address,
}

-- The geometry is of powers of two, and one set holds `2 ^ c` of its `2 ^ c * 2 ^ b` lines.
pub record IsPowers (g : CacheGeometry) (a b c : ℕ) : Type 0 where
  pub line_size : g.line_size ≡ 2 ^ a
  pub line_count : g.line_count ≡ 2 ^ b * 2 ^ c
  pub associativity : g.associativity ≡ 2 ^ c

pow-add : (c d n : ℕ) → n ≡ c + d → 2 ^ n ≡ 2 ^ d * 2 ^ c
pow-add c zero n e = let same : n ≡ c = omega (arith, e) in rw same (omega arith)
pow-add c (suc d) n e =
    let more : n ≡ suc (c + d) = omega (arith, e) in
    rw more (
      omega (
        arith,
        pow-suc 2 (c + d),
        pow-suc 2 d,
        ap (λ (t : ℕ). t * 2 ^ c) (pow-suc 2 d),
        pow-add c d (c + d) refl,
      ))

pow-lt : (b d c : ℕ) → c ≡ b + suc d → 2 ^ b < 2 ^ c
pow-lt b d c e =
    let double = pow-add b (suc d) c e in
    let pos = power_is_positive b in
    let more : 2 ≤ 2 ^ suc d = omega (arith, pow-suc 2 d, power_is_positive d) in
    let least : 2 * 2 ^ b ≤ 2 ^ suc d * 2 ^ b = grind arith in omega (arith, double, pos, least)

pow-le_exponent : (b c : ℕ) → 2 ^ c ≤ 2 ^ b → c ≤ b
pow-le_exponent b c h = elim (lt_or_ge b c) [
  | inr le ↦ le
  | inl lt ↦ absurd (omega (arith, pow-lt b (c - b - 1) c (omega arith)))
]

-- A geometry of powers of two, in which a set is no larger than the cache, is accepted, and has
-- as many sets as the lines that the sets hold; the test of divisibility refuses none of these.
accepts : (g : CacheGeometry) (a b c : ℕ) → IsPowers g a b c → cache_set_count g ≡ ok (2 ^ b)
unfolding cache_set_count validate
accepts g a b c h =
    let size = (is_power_of_two_iff g.line_size).1 (a, h.line_size) in
    let ways = (is_power_of_two_iff g.associativity).1 (c, h.associativity) in
    let count =
      (is_power_of_two_iff g.line_count).1 (c + b, h.line_count ∙ sym (pow-add c b (c + b) refl)) in
    let pos = power_is_positive c in
    let sets = power_is_positive b in
    let within : g.associativity ≤ g.line_count =
      rw (h.line_count, h.associativity) (grind arith) in
    let divides : g.line_count % g.associativity ≡ 0 =
      rw (h.line_count, h.associativity) (mul-mod_left (2 ^ b) (2 ^ c)) in
    let quotient : g.line_count / g.associativity ≡ 2 ^ b =
      rw (h.line_count, h.associativity) (mul-div_cancel (2 ^ b) pos) in
    ground (arith, size, ways, count, within, divides, quotient)

-- Only these are accepted.
accepted :
    (g : CacheGeometry) (n : ℕ)
    → cache_set_count g ≡ ok n
    → (a : ℕ) × (b : ℕ) × (c : ℕ) × IsPowers g a b c × (n ≡ 2 ^ b)
unfolding cache_set_count validate
accepted g n h =
    let (a, size) = (is_power_of_two_iff g.line_size).0 (ground arith) in
    let (bc, count) = (is_power_of_two_iff g.line_count).0 (ground arith) in
    let (c, ways) = (is_power_of_two_iff g.associativity).0 (ground arith) in
    let within : g.associativity ≤ g.line_count = ground arith in
    let le = pow-le_exponent bc c (omega (arith, count, ways, within)) in
    let split = pow-add c (bc - c) bc (omega (arith, le)) in
    let shape : IsPowers g a (bc - c) c = record {
      line_size = size;
      line_count = count ∙ split;
      associativity = ways;
    } in
    (a, bc - c, c, shape, ground (arith, accepts g a (bc - c) c shape))

-- A geometry is accepted exactly when it is of powers of two and a set is no larger than the
-- cache; the number of sets is then the lines divided by the associativity, a power of two.
pub cache_set_count_iff :
    (g : CacheGeometry) (n : ℕ)
    → (cache_set_count g ≡ ok n) ↔ ((a : ℕ) × (b : ℕ) × (c : ℕ) × IsPowers g a b c × (n ≡ 2 ^ b))
cache_set_count_iff g n =
    (accepted g n, λ (a, b, c, shape, e). accepts g a b c shape ∙ ap ok (sym e))

pub cache_set_count-pos :
    (g : CacheGeometry) (n : ℕ) → cache_set_count g ≡ ok n → (0 < n) × (0 < g.line_size)
cache_set_count-pos g n h =
    let (a, b, c, shape, e) = accepted g n h in
    omega (arith, power_is_positive a, power_is_positive b, shape.line_size, e)

decode-partition :
    (address : ℕ) (g : CacheGeometry) (d : DecodedCacheAddress)
    → decode_cache_address address g ≡ ok d
    → (n : ℕ) × (cache_set_count g ≡ ok n) × (d ≡ partition n g address)
unfolding decode_cache_address
decode-partition address g d h =
    let (n, e, f) = >>=-eq-ok (cache_set_count g) (λ n. ok (partition n g address)) h in
    (n, e, ground (arith, f))

-- The parts of a decoded address lie in their ranges, and the address can be put together from
-- its tag, its set index and its offset.
pub decode_parts :
    (address : ℕ) (g : CacheGeometry) (d : DecodedCacheAddress)
    → decode_cache_address address g ≡ ok d
    → (n : ℕ) × (cache_set_count g ≡ ok n)
      × (d.set_index < n)
      × (d.line_offset < g.line_size)
      × (d.block_number ≡ d.tag * n + d.set_index)
      × (address ≡ (d.tag * n + d.set_index) * g.line_size + d.line_offset)
unfolding partition
decode_parts address g d h =
    let (n, e, f) = decode-partition address g d h in
    let (sets, size) = cache_set_count-pos g n e in
    let block = address / g.line_size in
    let inner : block / n * n + block % n ≡ block = div-add-mod' block n in
    let outer = div-add-mod' address g.line_size in
    (
      n,
      e,
      rw f (mod-lt block sets),
      rw f (mod-lt address size),
      rw f (sym inner),
      rw f (rw inner (sym outer)),
    )

block_of_parts : (n x y : ℕ) → x / n ≡ y / n → x % n ≡ y % n → x ≡ y
block_of_parts n x y p q =
    sym (div-add-mod' x n) ∙ ap₂ (λ (s t : ℕ). s * n + t) p q ∙ div-add-mod' y n

-- Two addresses decoded under one geometry have the same line identity, tag and set index,
-- exactly when they lie in the same block.
pub line_id-block :
    (a b : ℕ) (g : CacheGeometry) (d e : DecodedCacheAddress)
    → decode_cache_address a g ≡ ok d
    → decode_cache_address b g ≡ ok e
    → (line_id_eq (line_id d) (line_id e) ≡ true) ↔ (a / g.line_size ≡ b / g.line_size)
unfolding partition line_id_eq line_id
line_id-block a b g d e p q =
    let (n, m, f) = decode-partition a g d p in
    let (n', m', f') = decode-partition b g e q in
    let same : n' ≡ n = ground (arith, m, m') in
    let x = a / g.line_size in
    let y = b / g.line_size in
    rw (f, f', same)
      (λ h. block_of_parts n x y (ground (arith, h)) (ground (arith, h)), λ h. rw h (ground arith))
