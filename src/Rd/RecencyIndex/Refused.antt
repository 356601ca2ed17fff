-- ===== src/Rd/RecencyIndex/Refused.antt =====
-- backend/src/cache/rd/recency_index.cpp: the observations that the slot limit refuses.
use yet_another_reuse_distan.Prelude.{
  ℕ, ◌+◌, ◌^◌, ◌≤◌, ◌<◌, ◌≡◌, ◌↔◌, ◌⊎◌, sym, ap, ◌∙◌, inl, inr, List, arith, length, ok, throw,
  overflow_error, lt_or_ge, ge→ltb,
}
use yet_another_reuse_distan.Rd.Arithmetic.{csrd_checked_add_within}
use yet_another_reuse_distan.Rd.History.{touch, reuse_distance}
use yet_another_reuse_distan.Rd.Slots.Order.{length-keys}
use yet_another_reuse_distan.Rd.RecencyIndex.{
  Platform, Clock, RecencyIndex, compact, compact_storage, observe,
}
use yet_another_reuse_distan.Rd.RecencyIndex.Refinement.{record_key-Represents}
use yet_another_reuse_distan.Rd.RecencyIndex.Runs.{Holds, Fits, observe-Holds, keys-moved}

-- The containers hold what the limit allows.
pub record Holdable (p : Platform) (limit : ℕ) : Type 0 where
  pub words : p.tree_max_size < 2 ^ 64
  pub tree : limit < p.tree_max_size
  pub pairs : limit ≤ p.pairs_max_size + p.pairs_max_size

-- The observation returns the distance that the history gives its key, and moves the key to its end.
abbrev pub Returns : Platform → ℕ → Clock → RecencyIndex → List ℕ → ℕ → Type 0
Returns p limit c r h key =
    (r' : RecencyIndex) × (observe p c r key ≡ ok (r', reuse_distance key h))
    × Holds p limit r' (touch key h)

module _ (p : Platform) (limit : ℕ) (c : Clock) (r : RecencyIndex) (h : List ℕ) (key : ℕ)
    (f : Holdable p limit) (v : Holds p limit r h) where
  refused :
      r.capacity < r.next_slot
      → limit < length h + length h
      → observe p c r key ≡ throw overflow_error
  unfolding observe compact compact_storage csrd_checked_add_within
  refused full over =
      let (m, e, w) = v in
      let n : length m ≡ length h = sym (length-keys m) ∙ ap length e in
      ground (arith, full, over, n, w.active, w.slot_limit, w.unmeasured)

  has_slot : r.next_slot ≤ r.capacity → Returns p limit c r h key
  unfolding observe
  has_slot free =
      let (m, e, w) = v in
      let (r', done, w') = record_key-Represents p limit f.words r m w key free in
      (
        r',
        rw (ge→ltb r.capacity r.next_slot free) (rw (← e) done),
        (_, keys-moved m key r.next_slot ∙ ap (touch key) e, w'),
      )

  in_limit : length h + length h ≤ limit → Returns p limit c r h key
  in_limit room =
      let fits : Fits p limit (length h) = omega (arith, f.words, f.tree, f.pairs, room) in
      observe-Holds p limit c r h key fits v

  decided :
      ((r.capacity < r.next_slot) × (limit < length h + length h))
      ⊎ ((r.next_slot ≤ r.capacity) ⊎ (length h + length h ≤ limit))
  decided = elim (lt_or_ge r.capacity r.next_slot) [
    | inr free ↦ inr (inl free)
    | inl full ↦ elim (lt_or_ge limit (length h + length h)) [
      | inl over ↦ inl (full, over)
      | inr room ↦ inr (inr room)
    ]
  ]

  returns : (r.next_slot ≤ r.capacity) ⊎ (length h + length h ≤ limit) → Returns p limit c r h key
  returns (inl free) = has_slot free
  returns (inr room) = in_limit room

  -- Where the containers hold what the slot limit allows, an observation of an index that holds a
  -- history is refused with an overflow error exactly if the slots are used up and twice the keys
  -- of the history exceed the limit. It returns exactly otherwise, and then with the distance that
  -- the history gives the key, which moves to its end.
  pub observe_refused_iff :
      ((observe p c r key ≡ throw overflow_error)
        ↔ ((r.capacity < r.next_slot) × (limit < length h + length h)))
      × (Returns p limit c r h key ↔ ((r.next_slot ≤ r.capacity) ⊎ (length h + length h ≤ limit)))
  observe_refused_iff = (
    (
      λ thrown. elim decided [
        | inl both ↦ both
        | inr there ↦
            let (r', ran, w) = returns there in
            let both_ways : throw overflow_error ≡ ok (r', reuse_distance key h) =
              sym thrown ∙ ran in
            cc both_ways
      ],
      λ (full, over). refused full over,
    ),
    (
      λ (r', ran, w). elim decided [
        | inl (full, over) ↦
            let both_ways : throw overflow_error ≡ ok (r', reuse_distance key h) =
              sym (refused full over) ∙ ran in
            cc both_ways
        | inr there ↦ there
      ],
      returns,
    ),
  )
