-- ===== src/Rd/Fenwick.antt =====
-- The Fenwick tree inside `RecencyIndex` (backend/src/cache/rd/recency_index.cpp): its two loops,
-- and that they compute and maintain prefix counts.
use yet_another_reuse_distan.Prelude.{
  ℕ, zero, suc, ◌+◌, ◌-◌, ◌%◌, ◌^◌, ◌≤◌, ◌<◌, ◌≡◌, refl, ◌∙◌, ap, inl, inr, Bool, true, false, ◌&&◌,
  List, arith, ltb, leb, if◌then◌else◌, lt_or_ge, eq_or_ne, get_or, set, length, length-set,
  get_or-set_self, get_or-set_ne,
}
use yet_another_reuse_distan.Bits.Lowbit.{lowbit, lowbit_bounds, lowbit-spans_up, lowbit-spans_down}

-- `while (slot > 0) { total += tree_[slot]; slot -= slot & (~slot + 1); }`
unfoldable pub prefix_loop : ℕ → List ℕ → ℕ → ℕ → ℕ
prefix_loop zero tree slot sum = sum
prefix_loop (suc fuel) tree slot sum = elim (ltb 0 slot) [
  | true ↦ prefix_loop fuel tree (slot - lowbit slot) ((sum + get_or tree slot 0) % 2 ^ 64)
  | false ↦ sum
]

-- The slot falls in every round, so as many rounds as the slot says are enough.
unfoldable pub prefix_sum : List ℕ → ℕ → ℕ
unfolding prefix_loop
prefix_sum tree slot = prefix_loop slot tree slot 0

-- `++count` or `--count`, without the assertions of a debug build.
unfoldable pub bump : Bool → ℕ → ℕ
bump true count = (count + 1) % 2 ^ 64
bump false count = (count + 2 ^ 64 - 1) % 2 ^ 64

unfoldable pub update_loop : ℕ → Bool → ℕ → ℕ → List ℕ → List ℕ
unfolding bump
update_loop zero insert capacity slot tree = tree
update_loop (suc fuel) insert capacity slot tree = elim (leb slot capacity) [
  | false ↦ tree
  | true ↦
      let tree' = set tree slot (bump insert (get_or tree slot 0)) in
      let step = lowbit slot in
      elim (ltb (capacity - slot) step) [
        | true ↦ tree'
        | false ↦ update_loop fuel insert capacity (slot + step) tree'
      ]
]

-- The slot rises in every round and starts above zero.
unfoldable pub update : ℕ → List ℕ → ℕ → Bool → List ℕ
unfolding update_loop
update capacity tree slot insert = update_loop capacity insert capacity slot tree

-- Every node holds the count of its span `(i - lowbit i, i]`, where `P i` counts up to `i`.
pub record IsFenwick (capacity : ℕ) (P : ℕ → ℕ) (tree : List ℕ) : Type 0 where
  pub size : length tree ≡ capacity + 1
  pub node : (i : ℕ) → 0 < i → i ≤ capacity → get_or tree i 0 + P (i - lowbit i) ≡ P i

module _ (capacity : ℕ) (P : ℕ → ℕ) (tree : List ℕ) (small : capacity < 2 ^ 64) where
  prefix_loop_lem :
      (fuel slot sum : ℕ)
      → IsFenwick capacity P tree
      → P 0 ≡ 0
      → slot ≤ fuel
      → slot ≤ capacity
      → sum + P slot < 2 ^ 64
      → prefix_loop fuel tree slot sum ≡ sum + P slot
  unfolding prefix_loop
  prefix_loop_lem zero zero sum t z f c b = omega (arith, z)
  prefix_loop_lem zero (suc slot) sum t z f c b = absurd (omega arith)
  prefix_loop_lem (suc fuel) zero sum t z f c b = omega (arith, z)
  prefix_loop_lem (suc fuel) (suc slot) sum t z f c b =
      let s : ℕ = suc slot in
      let low = lowbit_bounds s (omega arith) (omega arith) in
      let node = t.node s (omega arith) c in
      let wrap : (sum + get_or tree s 0) % 2 ^ 64 ≡ sum + get_or tree s 0 = omega (arith, node) in
      let next = s - lowbit s in
      let rest =
        prefix_loop_lem fuel next (sum + get_or tree s 0) t z (omega (arith, low)) (omega arith)
          (omega (arith, node)) in
      ground (arith, wrap, rest, node)

  -- The loop over the nodes returns the prefix count, with no wrap of the sum.
  pub prefix_sum_lem :
      (slot : ℕ)
      → IsFenwick capacity P tree
      → P 0 ≡ 0
      → slot ≤ capacity
      → P slot < 2 ^ 64
      → prefix_sum tree slot ≡ P slot
  unfolding prefix_sum
  prefix_sum_lem slot t z c b =
      prefix_loop_lem slot slot 0 t z (omega arith) c (omega arith) ∙ omega arith

module _ (insert : Bool) (capacity : ℕ) (small : capacity < 2 ^ 64) where
  -- From a slot, the loop passes through exactly the nodes whose span holds the slot.
  update_loop_lem :
      (fuel slot : ℕ) (tree : List ℕ) (i : ℕ)
      → length tree ≡ capacity + 1
      → 0 < slot
      → capacity < slot + fuel
      → 0 < i
      → i ≤ capacity
      → get_or (update_loop fuel insert capacity slot tree) i 0 ≡ (
          if leb slot i && ltb i (slot + lowbit i)
          then bump insert (get_or tree i 0)
          else get_or tree i 0)
  unfolding update_loop
  update_loop_lem zero slot tree i size p f q c = ground arith
  update_loop_lem (suc fuel) slot tree i size p f q c = elim (lt_or_ge capacity slot) [
    | inl over ↦ ground arith
    | inr within ↦
        let v = bump insert (get_or tree slot 0) in
        let low = lowbit_bounds slot p (omega arith) in
        let size' = length-set tree slot v in
        let rest =
          update_loop_lem fuel (slot + lowbit slot) (set tree slot v) i (size' ∙ size) (omega arith)
            (omega (arith, low)) q c in
        elim (eq_or_ne slot i) [
          | inl e ↦
              let written = get_or-set_self tree slot v 0 (omega arith) in
              ground (arith, e, rest, written, low, ap (λ (k : ℕ). get_or (set tree slot v) k 0) e)
          | inr ne ↦
              let kept = get_or-set_ne tree slot i v 0 ne in
              ground (
                arith,
                rest,
                kept,
                lowbit-spans_down i slot p (omega arith),
                λ (h : slot < i). lowbit-spans_up i slot p h (omega arith),
              )
        ]
  ]

  length-update_loop :
      (fuel slot : ℕ) (tree : List ℕ)
      → length (update_loop fuel insert capacity slot tree) ≡ length tree
  unfolding update_loop
  length-update_loop zero slot tree = refl
  length-update_loop (suc fuel) slot tree =
      let v = bump insert (get_or tree slot 0) in
      ground (
        arith,
        length-update_loop fuel (slot + lowbit slot) (set tree slot v),
        length-set tree slot v,
      )

  -- Counting a slot, or no longer counting it, keeps every node at the count of its span.
  pub update-IsFenwick :
      (P Q : ℕ → ℕ) (slot : ℕ) (tree : List ℕ)
      → IsFenwick capacity P tree
      → 0 < slot
      → ((i : ℕ)
          → Q i + (if insert then 0 else if leb slot i then 1 else 0)
            ≡ P i + (if insert then (if leb slot i then 1 else 0) else 0))
      → ((i j : ℕ) → i ≤ j → Q i ≤ Q j)
      → ((i : ℕ) → P i < 2 ^ 64)
      → ((i : ℕ) → Q i < 2 ^ 64)
      → IsFenwick capacity Q (update capacity tree slot insert)
  unfolding update bump
  update-IsFenwick P Q slot tree t p shift mono low high = record {
    size = length-update_loop capacity slot tree ∙ t.size;
    node = λ i q c.
        let at_i = update_loop_lem capacity slot tree i t.size p (omega arith) q c in
        let bounds = lowbit_bounds i q (omega arith) in
        let node = t.node i q c in
        ground (
          arith,
          at_i,
          bounds,
          node,
          shift i,
          shift (i - lowbit i),
          mono (i - lowbit i) i (omega arith),
          low i,
          high i,
        );
  }

pub length-update :
    (capacity : ℕ) (tree : List ℕ) (slot : ℕ) (insert : Bool)
    → capacity < 2 ^ 64
    → length (update capacity tree slot insert) ≡ length tree
unfolding update
length-update capacity tree slot insert small =
    length-update_loop insert capacity small capacity slot tree
