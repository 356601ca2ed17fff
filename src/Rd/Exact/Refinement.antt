-- ===== src/Rd/Exact/Refinement.antt =====
-- The analyzer reports exactly the specified distances, outcomes and counters.
use yet_another_reuse_distan.Prelude.{
  ℕ, ◌+◌, ◌/◌, ◌%◌, ◌≤◌, ◌<◌, ◌^◌, ◌≡◌, refl, sym, ap, ◌∙◌, false, inl, inr, List, [], ◌∷◌, Option,
  none, some, arith, length, ok, eq_or_ne,
}
use mathlib.Core.Path.{subst, subst₂}
use yet_another_reuse_distan.Prelude.Maps.{find, insert, find-insert}
use yet_another_reuse_distan.Mapping.Address.{CacheGeometry, DecodedCacheAddress, partition}
use yet_another_reuse_distan.Rd.Arithmetic.{u64_max, csrd_checked_add, csrd_checked_add_fits}
use yet_another_reuse_distan.Rd.History.{reuse_distance, touch}
use yet_another_reuse_distan.Rd.History.Window.{
  history, reuse_distance-window, length-history, distinct_count-le,
}
use yet_another_reuse_distan.Rd.RecencyIndex.{Platform, Clock, RecencyIndex}
use yet_another_reuse_distan.Rd.RecencyIndex
use yet_another_reuse_distan.Rd.RecencyIndex.Runs.{Holds, Fits, observe-Holds, make-Holds}
use yet_another_reuse_distan.Rd.Exact.{
  ExactCsrdAnalyzer, ExactCsrdSummary, CsrdObservation, is_inconsistent, set_state, count_access,
  observe,
}
use yet_another_reuse_distan.Rd.Exact.Counters.{Counted, count_access-Tally}
use yet_another_reuse_distan.Rd.Exact.Specification.{
  in_set, distance_at, observation, Tally, length-in_set,
}

-- What is known of the index of one set: none was made, or it holds the history of the set.
abbrev SetHolds : Platform → Option RecencyIndex → List ℕ → Type 0
SetHolds p none l = l ≡ []
SetHolds p (some r) l = Holds p u64_max r (history l)

-- The analyzer has seen a trace of blocks, the newest first.
pub record Tracks (p : Platform) (g : CacheGeometry) (n : ℕ) (past : List ℕ) (a : ExactCsrdAnalyzer)
    : Type 0 where
  pub geometry : a.geometry ≡ g
  pub set_count : a.set_count ≡ n
  pub unmeasured : a.measure_statistics ≡ false
  pub tally : Tally n g.associativity past a.summary
  pub sets : (set : ℕ) → SetHolds p (find set a.sets) (in_set n set past)

-- The containers have room for the indices of a trace of so many accesses.
pub record Room (p : Platform) (accesses : ℕ) : Type 0 where
  pub words : p.tree_max_size < 2 ^ 64
  pub first : 16 < p.tree_max_size
  pub tree : accesses + accesses < p.tree_max_size
  pub pairs : accesses ≤ p.pairs_max_size

set_state-Holds :
    (p : Platform) (g : CacheGeometry) (n : ℕ) (past : List ℕ) (a : ExactCsrdAnalyzer) (set : ℕ)
    → Room p (length past)
    → Tracks p g n past a
    → (r : RecencyIndex) × (set_state p a set ≡ ok r)
      × Holds p u64_max r (history (in_set n set past))
unfolding set_state history
set_state-Holds p g n past a set room t = go (find set a.sets) refl
  where
    go :
        (o : Option RecencyIndex)
        → find set a.sets ≡ o
        → (r : RecencyIndex) × (set_state p a set ≡ ok r)
          × Holds p u64_max r (history (in_set n set past))
    go none e =
        let (r, made, v) =
          make-Holds p 16 u64_max (omega arith) (omega arith) room.first room.words in
        let empty : in_set n set past ≡ [] =
          subst (λ o. SetHolds p o (in_set n set past)) e (t.sets set) in
        (
          r,
          ground (arith, e, made, t.unmeasured),
          subst (λ l. Holds p u64_max r (history l)) (sym empty) v,
        )
    go (some r) e =
        (r, ground (arith, e), subst (λ o. SetHolds p o (in_set n set past)) e (t.sets set))

observe_steps :
    (p : Platform) (c : Clock) (a : ExactCsrdAnalyzer) (d : DecodedCacheAddress) (k : ℕ)
    (r r' : RecencyIndex) (o : Option ℕ) (s : ExactCsrdSummary) (out : CsrdObservation)
    → is_inconsistent a d ≡ false
    → csrd_checked_add a.summary.lookups 1 ≡ ok k
    → set_state p a d.set_index ≡ ok r
    → RecencyIndex.observe p c r d.block_number ≡ ok (r', o)
    → count_access a.geometry.associativity a.summary k o ≡ ok (s, out)
    → observe p c a d ≡ ok (record a { summary = s; sets = insert d.set_index r' a.sets }, out)
unfolding observe
observe_steps p c a d k r r' o s out sane looked ready seen counted =
    ground (arith, sane, looked, ready, seen, counted)

partition-consistent :
    (p : Platform) (g : CacheGeometry) (n : ℕ) (past : List ℕ) (a : ExactCsrdAnalyzer) (address : ℕ)
    → Tracks p g n past a
    → is_inconsistent a (partition n g address) ≡ false
unfolding is_inconsistent partition
partition-consistent p g n past a address t = rw (t.geometry, t.set_count) (ground arith)

-- The sets after the index of one of them has seen a block.
insert-SetHolds :
    (p : Platform) (n : ℕ) (past : List ℕ) (b : ℕ) (r : RecencyIndex)
    (sets : List (ℕ × RecencyIndex))
    → ((set : ℕ) → SetHolds p (find set sets) (in_set n set past))
    → Holds p u64_max r (touch b (history (in_set n (b % n) past)))
    → (set : ℕ) → SetHolds p (find set (insert (b % n) r sets)) (in_set n set (b ∷ past))
unfolding in_set history
insert-SetHolds p n past b r sets old new set = elim (eq_or_ne set (b % n)) [
  | inl e ↦
      let there : find set (insert (b % n) r sets) ≡ some r =
        ground (arith, e, find-insert set (b % n) r sets) in
      let longer : in_set n set (b ∷ past) ≡ b ∷ in_set n (b % n) past =
        ground (arith, e, ap (λ (k : ℕ). in_set n k past) e) in
      subst₂ (SetHolds p) (sym there) (sym longer) new
  | inr ne ↦
      let kept : find set (insert (b % n) r sets) ≡ find set sets =
        ground (arith, ne, find-insert set (b % n) r sets) in
      let same : in_set n set (b ∷ past) ≡ in_set n set past = ground (arith, ne) in
      subst₂ (SetHolds p) (sym kept) (sym same) (old set)
]

-- An access to the cache line of an address, decoded by the geometry of the analyzer: it never
-- throws while there is room, reports the specified distance and outcome, and leaves the analyzer
-- with the longer trace.
pub observe-Tracks :
    (p : Platform) (c : Clock) (g : CacheGeometry) (n : ℕ) (past : List ℕ) (a : ExactCsrdAnalyzer)
    (address : ℕ)
    → Room p (length past)
    → length past + length past < u64_max
    → Tracks p g n past a
    → (a' : ExactCsrdAnalyzer) × (observe p c a (partition n g address)
        ≡ ok (a', observation g.associativity (distance_at n past (address / g.line_size))))
      × Tracks p g n (address / g.line_size ∷ past) a'
observe-Tracks p c g n past a address room double t =
    unfold partition distance_at in
    (
      _,
      observe_steps p c a (partition n g address) (length past + 1) state.0 seen.0
          (distance_at n past b) counted.0 _ (partition-consistent p g n past a address t)
          (csrd_checked_add_fits a.summary.lookups 1 (omega (arith, t.tally.lookups))
            ∙ ap ok (omega (arith, t.tally.lookups)))
          state.1 (seen.1 ∙ ap (λ o. ok (seen.0, o)) (reuse_distance-window b l))
          (ap (λ w. count_access w a.summary (length past + 1) (distance_at n past b))
              (ap (λ h. h.associativity) t.geometry)
            ∙ counted.1),
      record {
        geometry = t.geometry;
        set_count = t.set_count;
        unmeasured = t.unmeasured;
        tally = counted.2;
        sets = insert-SetHolds p n past b seen.0 a.sets t.sets seen.2;
      },
    )
  where
    b : ℕ
    b = address / g.line_size

    l : List ℕ
    l = in_set n (b % n) past

    state : (r : RecencyIndex) × (set_state p a (b % n) ≡ ok r) × Holds p u64_max r (history l)
    state = set_state-Holds p g n past a (b % n) room t

    fits : Fits p u64_max (length (history l))
    fits =
        omega
          (arith, length-history l, distinct_count-le l, length-in_set n (b % n) past, room, double)

    seen :
        (r' : RecencyIndex) × (RecencyIndex.observe p c state.0 b
          ≡ ok (r', reuse_distance b (history l)))
        × Holds p u64_max r' (touch b (history l))
    seen = observe-Holds p u64_max c state.0 (history l) b fits state.2

    counted : Counted n g.associativity past b a.summary (omega (arith, double)) t.tally
    counted = count_access-Tally n g.associativity past b a.summary (omega (arith, double)) t.tally
