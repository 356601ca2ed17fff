-- ===== src/Rd/RecencyIndex/Refinement.antt =====
-- `RecencyIndex` implements the history of distinct keys: what it stands for, and that compaction
-- and the recording of a key keep it so.
use mathlib.Core.List.{Permᴰ}
use yet_another_reuse_distan.Prelude.{
  ℕ, suc, ◌+◌, ◌-◌, ◌%◌, ◌^◌, ◌≤◌, ◌<◌, max, ◌≡◌, refl, sym, ◌∙◌, true, false, inl, inr, List, [],
  ◌∷◌, ◌++◌, none, some, arith, length, length-append, ok, Option-cases, replicate,
}
use yet_another_reuse_distan.Prelude.Maps.{find}
use yet_another_reuse_distan.Rd.Arithmetic.{
  csrd_checked_add_fits, csrd_checked_add_within_fits, csrd_storage_size_fits,
}
use yet_another_reuse_distan.Rd.Fenwick.{
  IsFenwick, prefix_sum, prefix_sum_lem, update, update-IsFenwick,
}
use yet_another_reuse_distan.Rd.History.{reuse_distance}
use yet_another_reuse_distan.Rd.Slots.{Entries, emplace, assign, count_le, renumber, sort, by_slot}
use yet_another_reuse_distan.Rd.Slots.Perms.{
  Distinct, Distinct-perm, perm_symm, find-perm, assign-perm,
}
use yet_another_reuse_distan.Rd.Slots.Order.{
  Rises, keys, drop_key, Rises-lt, Rises-snoc, Rises-drop_key, find-Rises, count_le-below,
  count_le-le, count_le_mono, count_le-snoc, count_le-drop_key, length-drop_key, drop_key_absent,
}
use yet_another_reuse_distan.Rd.Slots.Moves.{
  snoc-perm, assign-Distinct, assign-moves, after-count_le, after-none, relabel, relabel-Distinct,
  relabel-Rises, length-relabel, compact-perm,
}
use yet_another_reuse_distan.Rd.RecencyIndex.{
  Platform, Clock, RecencyIndex, scratch_bytes, rebuild, compact_storage, compact, record_key,
}
use yet_another_reuse_distan.Rd.RecencyIndex.Rebuild.{rebuild-IsFenwick}

-- The index holds the entries `m`, oldest first.
pub record Represents (p : Platform) (limit : ℕ) (r : RecencyIndex) (m : Entries) : Type 0 where
  pub slots : Permᴰ r.slots m
  pub distinct : Distinct m
  pub rises : Rises 0 m r.next_slot
  pub active : r.active_count ≡ length m
  pub room : r.next_slot ≤ r.capacity + 1
  pub small : r.capacity + 1 < 2 ^ 64
  pub tree : IsFenwick r.capacity (λ i. count_le i m) r.tree
  pub floor : 0 < r.capacity_floor
  pub floor_fits : r.capacity_floor < p.tree_max_size
  pub slot_limit : r.slot_limit ≡ limit
  pub unmeasured : r.measure_statistics ≡ false

pub compacted : RecencyIndex → RecencyIndex
compacted r =
    let capacity = max r.capacity_floor (r.active_count + r.active_count) in
    record r {
      slots = renumber 1 (sort (by_slot r.slots)) r.slots;
      tree = rebuild capacity 1 r.active_count (replicate (capacity + 1) 0);
      capacity = capacity;
      next_slot = r.active_count + 1;
    }

module _ (p : Platform) (limit : ℕ) (sizes : p.tree_max_size < 2 ^ 64) (r : RecencyIndex)
    (m : Entries) (v : Represents p limit r m) where
  -- Compaction succeeds while twice the keys fit, and leaves a free slot.
  pub compact-Represents :
      (c : Clock)
      → length m + length m ≤ limit
      → length m + length m < p.tree_max_size
      → length m ≤ p.pairs_max_size
      → (compact p c r ≡ ok (compacted r))
        × Represents p limit (compacted r) (relabel 1 m)
        × ((compacted r).next_slot ≤ (compacted r).capacity)
  unfolding compact compact_storage compacted scratch_bytes
  compact-Represents c fits small pairs = (
    ground (
      arith,
      v.unmeasured,
      csrd_checked_add_within_fits a a r.slot_limit (omega (arith, v.active, v.slot_limit)),
      csrd_checked_add_fits a 1 (omega (arith, v.active)),
      csrd_checked_add_fits capacity 1 (omega (arith, v.active, v.floor_fits)),
      csrd_storage_size_fits (capacity + 1) p.tree_max_size (omega (arith, v.active, v.floor_fits)),
      csrd_storage_size_fits a p.pairs_max_size (omega (arith, v.active)),
    ),
    record {
      slots = compact-perm 0 r.slots m r.next_slot v.slots v.distinct v.rises;
      distinct = relabel-Distinct 1 m v.distinct;
      rises =
          let e : a + 1 ≡ 1 + length m = omega (arith, v.active) in
          rw e (relabel-Rises 0 1 m (omega arith));
      active = v.active ∙ sym (length-relabel 1 m);
      room = omega (arith, v.floor);
      small = omega (arith, v.active, v.floor_fits);
      tree = rw v.active (rebuild-IsFenwick _ m (omega (arith, v.active, v.floor_fits)));
      floor = v.floor;
      floor_fits = v.floor_fits;
      slot_limit = v.slot_limit;
      unmeasured = v.unmeasured;
    },
    omega (arith, v.floor),
  )
    where
      a : ℕ
      a = r.active_count

      capacity : ℕ
      capacity = max r.capacity_floor (a + a)

  -- Where the key goes: to the end, under the next slot.
  abbrev pub moved : ℕ → Entries
  moved key = drop_key key m ++ (key, r.next_slot) ∷ []

  added : ℕ → RecencyIndex
  added key = record r {
    slots = emplace key r.next_slot r.slots;
    active_count = r.active_count + 1;
    tree = update r.capacity r.tree r.next_slot true;
    next_slot = r.next_slot + 1;
  }

  renewed : ℕ → ℕ → RecencyIndex
  renewed key s = record r {
    slots = assign key r.next_slot r.slots;
    tree = update r.capacity (update r.capacity r.tree s false) r.next_slot true;
    next_slot = r.next_slot + 1;
  }

  find-slots : (key : ℕ) → find key r.slots ≡ find key m
  find-slots key = find-perm key v.slots (Distinct-perm (perm_symm v.slots) v.distinct)

  count_le-small : (i : ℕ) (l : Entries) → length l ≤ length m → count_le i l < 2 ^ 64
  count_le-small i l h =
      omega (arith, count_le-le i l, Rises-lt 0 m r.next_slot v.rises, v.room, v.small)

  -- The tree after the next slot is given to a key that has none.
  insert-IsFenwick :
      (l : Entries) (tree : List ℕ) (key : ℕ)
      → length l ≤ length m
      → IsFenwick r.capacity (λ i. count_le i l) tree
      → IsFenwick r.capacity
          (λ i. count_le i (l ++ (key, r.next_slot) ∷ []))
          (update r.capacity tree r.next_slot true)
  insert-IsFenwick l tree key h t =
      update-IsFenwick true r.capacity (omega (arith, v.small)) (λ i. count_le i l)
        (λ i. count_le i (l ++ (key, r.next_slot) ∷ [])) r.next_slot tree t
        (omega (arith, Rises-lt 0 m r.next_slot v.rises))
        (λ i. ground (arith, count_le-snoc i key r.next_slot l))
        (λ i j le. count_le_mono i j (l ++ (key, r.next_slot) ∷ []) le) (λ i. count_le-small i l h)
        (λ i. omega (
          arith,
          count_le-le i (l ++ (key, r.next_slot) ∷ []),
          length-append l ((key, r.next_slot) ∷ []),
          Rises-lt 0 m r.next_slot v.rises,
          v.room,
          v.small,
        ))

  added-Represents :
      (key : ℕ)
      → find key m ≡ none
      → r.next_slot ≤ r.capacity
      → Represents p limit (added key) (m ++ (key, r.next_slot) ∷ [])
  unfolding added emplace
  added-Represents key new room = record {
    slots = Permᴰ.trans (Permᴰ.cons refl v.slots) (snoc-perm (key, r.next_slot) m);
    distinct = Distinct-perm (snoc-perm (key, r.next_slot) m) (new, v.distinct);
    rises =
        let e : r.next_slot + 1 ≡ suc r.next_slot = omega arith in
        rw e (Rises-snoc 0 key m r.next_slot v.rises);
    active = omega (arith, v.active, length-append m ((key, r.next_slot) ∷ []));
    room = omega arith;
    small = v.small;
    tree = insert-IsFenwick m r.tree key (omega arith) v.tree;
    floor = v.floor;
    floor_fits = v.floor_fits;
    slot_limit = v.slot_limit;
    unmeasured = v.unmeasured;
  }

  renewed-Represents :
      (key s : ℕ)
      → find key m ≡ some s
      → r.next_slot ≤ r.capacity
      → Represents p limit (renewed key s) (drop_key key m ++ (key, r.next_slot) ∷ [])
  unfolding renewed
  renewed-Represents key s old room = record {
    slots = Permᴰ.trans (assign-perm key r.next_slot v.slots) moves;
    distinct = Distinct-perm moves (assign-Distinct key r.next_slot m v.distinct);
    rises =
        let e : r.next_slot + 1 ≡ suc r.next_slot = omega arith in
        rw e (
          Rises-snoc 0 key (drop_key key m) r.next_slot
            (Rises-drop_key 0 key m r.next_slot v.rises));
    active =
        omega (arith, v.active, length-append (drop_key key m) ((key, r.next_slot) ∷ []), shorter);
    room = omega arith;
    small = v.small;
    tree =
        insert-IsFenwick (drop_key key m) (update r.capacity r.tree s false) key
          (omega (arith, shorter)) removed;
    floor = v.floor;
    floor_fits = v.floor_fits;
    slot_limit = v.slot_limit;
    unmeasured = v.unmeasured;
  }
    where
      moves : Permᴰ (assign key r.next_slot m) (drop_key key m ++ (key, r.next_slot) ∷ [])
      moves = assign-moves key r.next_slot m v.distinct old

      shorter : length (drop_key key m) + 1 ≡ length m
      shorter = length-drop_key key m old

      removed :
          IsFenwick r.capacity (λ i. count_le i (drop_key key m)) (update r.capacity r.tree s false)
      removed =
          update-IsFenwick false r.capacity (omega (arith, v.small)) (λ i. count_le i m)
            (λ i. count_le i (drop_key key m)) s r.tree v.tree
            (find-Rises 0 key m r.next_slot v.rises old).0
            (λ i. ground (arith, count_le-drop_key i key m old))
            (λ i j le. count_le_mono i j (drop_key key m) le)
            (λ i. count_le-small i m (omega arith))
            (λ i. count_le-small i (drop_key key m) (omega (arith, shorter)))

  rank_of : (key s : ℕ) → find key m ≡ some s → prefix_sum r.tree s ≡ count_le s m
  rank_of key s old =
      prefix_sum_lem r.capacity (λ i. count_le i m) r.tree (omega (arith, v.small)) s v.tree
        (count_le-below 0 0 m r.next_slot v.rises (omega arith))
        (omega (arith, find-Rises 0 key m r.next_slot v.rises old, v.room))
        (count_le-small s m (omega arith))

  -- A key is recorded with the distance that the history gives it, and moves to its end.
  pub record_key-Represents :
      (key : ℕ)
      → r.next_slot ≤ r.capacity
      → (r' : RecencyIndex) × (record_key r key ≡ ok (r', reuse_distance key (keys m)))
        × Represents p limit r' (drop_key key m ++ (key, r.next_slot) ∷ [])
  unfolding record_key reuse_distance added renewed
  record_key-Represents key room = elim (Option-cases (find key m)) [
    | inl new ↦ (
      added key,
      ground (
        arith,
        find-slots key,
        new,
        after-none key m new,
        csrd_checked_add_fits r.next_slot 1 (omega (arith, v.small)),
        csrd_checked_add_fits r.active_count 1
            (omega (arith, v.active, v.small, v.room, Rises-lt 0 m r.next_slot v.rises)),
      ),
      rw (drop_key_absent key m new) (added-Represents key new room),
    )
    | inr (s, old) ↦ (
      renewed key s,
      (let (newer, found, split) = after-count_le 0 key m r.next_slot v.rises old in
          let rank = rank_of key s old in
          let low : length newer < 2 ^ 64 =
            omega (arith, split, v.room, v.small, Rises-lt 0 m r.next_slot v.rises) in
          let distance : (r.active_count + 2 ^ 64 - prefix_sum r.tree s) % 2 ^ 64 ≡ length newer =
            omega (arith, rank, split, v.active, low) in
          ground (
            arith,
            find-slots key,
            old,
            found,
            distance,
            csrd_checked_add_fits r.next_slot 1 (omega (arith, v.small)),
          )),
      renewed-Represents key s old room,
    )
  ]
