-- ===== src/Rd/RecencyIndex/Rebuild.antt =====
-- The tree that a compaction rebuilds is a Fenwick tree over the packed slots.
use yet_another_reuse_distan.Prelude.{
  ℕ, zero, suc, ◌+◌, ◌-◌, ◌^◌, ◌≤◌, ◌<◌, min, ◌≡◌, refl, ap, ◌∙◌, ◌&&◌, inl, inr, List, arith, ltb,
  leb, if◌then◌else◌, length, set, get_or, replicate, length-set, length-replicate, get_or-set_self,
  get_or-set_ne, get_or-replicate, eq_or_ne,
}
use yet_another_reuse_distan.Bits.Lowbit.{lowbit, lowbit_bounds}
use yet_another_reuse_distan.Rd.Fenwick.{IsFenwick}
use yet_another_reuse_distan.Rd.Slots.{Entries, count_le}
use yet_another_reuse_distan.Rd.Slots.Moves.{relabel, count_le-relabel}
use yet_another_reuse_distan.Rd.RecencyIndex.{rebuild}

-- A node of the tree over packed slots: ones in the slots 1 to `active`, zeros after them.
abbrev packed : ℕ → ℕ → ℕ
packed active i = if ltb (i - lowbit i) active then min i active - (i - lowbit i) else 0

length-rebuild :
    (rounds slot active : ℕ) (tree : List ℕ)
    → length (rebuild rounds slot active tree) ≡ length tree
unfolding rebuild
length-rebuild zero slot active tree = refl
length-rebuild (suc rounds) slot active tree =
    let v = min slot active - (slot - lowbit slot) in
    ground (
      arith,
      length-rebuild rounds (slot + 1) active tree,
      length-rebuild rounds (slot + 1) active (set tree slot v),
      length-set tree slot v,
    )

rebuild_node :
    (rounds slot active : ℕ) (tree : List ℕ) (i : ℕ)
    → i < length tree
    → (slot ≤ i → get_or tree i 0 ≡ 0)
    → get_or (rebuild rounds slot active tree) i 0
      ≡ (if leb slot i && ltb i (slot + rounds) then packed active i else get_or tree i 0)
unfolding rebuild
rebuild_node zero slot active tree i h z = ground arith
rebuild_node (suc rounds) slot active tree i h z =
    let v = min slot active - (slot - lowbit slot) in
    let size = length-set tree slot v in
    let kept = λ (ne : ¬ (slot ≡ i)). get_or-set_ne tree slot i v 0 ne in
    let written = get_or-set_self tree slot v 0 in
    let skip = rebuild_node rounds (slot + 1) active tree i h (λ l. z (omega arith)) in
    let write =
      rebuild_node rounds (slot + 1) active (set tree slot v) i (omega (arith, size))
        (λ l. kept (omega arith) ∙ z (omega arith)) in
    elim (eq_or_ne slot i) [
      | inl e ↦ ground (
        arith,
        e,
        skip,
        write,
        z (omega arith),
        written (omega arith),
        ap lowbit e,
        ap (λ (k : ℕ). get_or (set tree slot v) k 0) e,
      )
      | inr ne ↦ ground (arith, ne, skip, write, kept)
    ]

pub rebuild-IsFenwick :
    (capacity : ℕ) (m : Entries)
    → capacity < 2 ^ 64
    → IsFenwick capacity
        (λ i. count_le i (relabel 1 m))
        (rebuild capacity 1 (length m) (replicate (capacity + 1) 0))
rebuild-IsFenwick capacity m small = record {
  size =
      length-rebuild capacity 1 (length m) (replicate (capacity + 1) 0)
      ∙ length-replicate {A = ℕ} (capacity + 1) 0;
  node = λ i p c.
      let bounds = lowbit_bounds i p (omega arith) in
      let zero_at = get_or-replicate (capacity + 1) i 0 in
      let at_i =
        rebuild_node capacity 1 (length m) (replicate (capacity + 1) 0) i
          (omega (arith, length-replicate {A = ℕ} (capacity + 1) 0)) (λ _. zero_at) in
      ground (arith, at_i, bounds, count_le-relabel i 1 m, count_le-relabel (i - lowbit i) 1 m);
}
