-- ===== src/Rd/Slots/Moves.antt =====
-- An observation moves its key to the end of the order, and compaction keeps the order.
use mathlib.Core.List.{Permᴰ}
use yet_another_reuse_distan.Prelude.{
  ℕ, suc, ◌+◌, ◌-◌, ◌<◌, min, ◌≡◌, refl, ap, ◌∙◌, List, [], ◌∷◌, ◌++◌, none, some, arith, length,
  eq_or_ne, inl, inr,
}
use yet_another_reuse_distan.Prelude.Maps.{find}
use yet_another_reuse_distan.Rd.History.{after, remove}
use yet_another_reuse_distan.Rd.Slots.{
  Entries, assign, pair_less, sort_insert, sort, by_slot, renumber, count_le,
}
use yet_another_reuse_distan.Rd.Slots.Perms.{Distinct, assign-perm, sort-perm, by_slot-perm}
use yet_another_reuse_distan.Rd.Slots.Order.{
  Rises, keys, drop_key, find-Rises, count_le-below, length-keys,
}

perm_cast {ℓ} : {A : Type ℓ} {l m l' m' : List A} → l ≡ l' → m ≡ m' → Permᴰ l' m' → Permᴰ l m
perm_cast e f p = rw (e, f) p

pub snoc-perm {ℓ} : {A : Type ℓ} (x : A) (l : List A) → Permᴰ (x ∷ l) (l ++ x ∷ [])
snoc-perm x [] = Permᴰ.cons refl Permᴰ.nil
snoc-perm x (y ∷ l) = Permᴰ.trans (Permᴰ.swap refl refl) (Permᴰ.cons refl (snoc-perm x l))

assign_absent : (k v : ℕ) (m : Entries) → find k m ≡ none → assign k v m ≡ m
unfolding assign find
assign_absent k v [] e = refl
assign_absent k v ((j, s) ∷ m) e = ground (arith, assign_absent k v m)

find-none-assign : (j k v : ℕ) (m : Entries) → find j m ≡ none → find j (assign k v m) ≡ none
unfolding assign find
find-none-assign j k v [] e = refl
find-none-assign j k v ((i, s) ∷ m) e = ground (arith, find-none-assign j k v m)

pub assign-Distinct : (k v : ℕ) (m : Entries) → Distinct m → Distinct (assign k v m)
unfolding assign
assign-Distinct k v [] d = tt
assign-Distinct k v ((j, s) ∷ m) d =
    ground (arith, find-none-assign j k v m d.0, assign-Distinct k v m d.1)

pub assign-moves :
    (k v : ℕ) (m : Entries) {s : ℕ}
    → Distinct m
    → find k m ≡ some s
    → Permᴰ (assign k v m) (drop_key k m ++ (k, v) ∷ [])
unfolding assign find drop_key
assign-moves k v [] d e = cc
assign-moves k v ((j, t) ∷ m) {s} d e = elim (eq_or_ne k j) [
  | inl same ↦
      let gone = assign_absent k v m (ground (arith, d.0, same)) in
      perm_cast {l' = (k, v) ∷ m} {m' = m ++ (k, v) ∷ []} (ground (arith, gone, same))
        (ground (arith, same)) (snoc-perm (k, v) m)
  | inr other ↦
      perm_cast {l' = (j, t) ∷ assign k v m} {m' = (j, t) ∷ (drop_key k m ++ (k, v) ∷ [])}
        (ground (arith, other)) (ground (arith, other))
        (Permᴰ.cons refl (assign-moves k v m {s = s} d.1 (ground (arith, e, other))))
]

-- The keys after `k` are those with a higher slot.
pub after-count_le :
    (b k : ℕ) (m : Entries) (n : ℕ) {s : ℕ}
    → Rises b m n
    → find k m ≡ some s
    → (t : List ℕ) × (after k (keys m) ≡ some t) × (count_le s m + length t ≡ length m)
unfolding find after count_le
after-count_le b k [] n h e = cc
after-count_le b k ((j, t) ∷ m) n {s} h e = elim (eq_or_ne k j) [
  | inl same ↦
      let zero = count_le-below s t m n h.1 (ground (arith, e, same)) in
      (keys m, ground (arith, same), ground (arith, same, e, zero, length-keys m))
  | inr other ↦
      let found : find k m ≡ some s = ground (arith, e, other) in
      let (newer, p, q) = after-count_le t k m n {s = s} h.1 found in
      let range = find-Rises t k m n {s = s} h.1 found in
      (newer, ground (arith, other, p), ground (arith, q, range))
]

pub after-none : (k : ℕ) (m : Entries) → find k m ≡ none → after k (keys m) ≡ none
unfolding find after
after-none k [] e = refl
after-none k ((j, s) ∷ m) e = ground (arith, after-none k m)

pub keys-drop_key : (k : ℕ) (m : Entries) → keys (drop_key k m) ≡ remove k (keys m)
unfolding drop_key remove
keys-drop_key k [] = refl
keys-drop_key k ((j, s) ∷ m) = ground (arith, keys-drop_key k m)

pub remove_absent : (k : ℕ) (m : Entries) → find k m ≡ none → remove k (keys m) ≡ keys m
unfolding remove find
remove_absent k [] e = refl
remove_absent k ((j, s) ∷ m) e = ground (arith, remove_absent k m)

-- Compaction gives the keys the slots from `n` on, in their order.
pub relabel : ℕ → Entries → Entries
relabel n [] = []
relabel n ((k, s) ∷ m) = (k, n) ∷ relabel (n + 1) m

find-none-relabel : (j n : ℕ) (m : Entries) → find j m ≡ none → find j (relabel n m) ≡ none
unfolding find relabel
find-none-relabel j n [] e = refl
find-none-relabel j n ((k, s) ∷ m) e = ground (arith, find-none-relabel j (n + 1) m)

pub relabel-Distinct : (n : ℕ) (m : Entries) → Distinct m → Distinct (relabel n m)
unfolding relabel
relabel-Distinct n [] d = tt
relabel-Distinct n ((k, s) ∷ m) d =
    (find-none-relabel k (n + 1) m d.0, relabel-Distinct (n + 1) m d.1)

pub relabel-Rises : (b n : ℕ) (m : Entries) → b < n → Rises b (relabel n m) (n + length m)
unfolding relabel
relabel-Rises b n [] h = omega arith
relabel-Rises b n ((k, s) ∷ m) h =
    let e : n + suc (length m) ≡ n + 1 + length m = omega arith in
    (h, rw e (relabel-Rises n (n + 1) m (omega arith)))

pub keys-relabel : (n : ℕ) (m : Entries) → keys (relabel n m) ≡ keys m
unfolding relabel
keys-relabel n [] = refl
keys-relabel n ((k, s) ∷ m) = ap (◌∷◌ k) (keys-relabel (n + 1) m)

pub length-relabel : (n : ℕ) (m : Entries) → length (relabel n m) ≡ length m
unfolding relabel
length-relabel n [] = refl
length-relabel n ((k, s) ∷ m) = ap suc (length-relabel (n + 1) m)

pub count_le-relabel :
    (i n : ℕ) (m : Entries) → count_le i (relabel n m) ≡ min (i + 1 - n) (length m)
unfolding count_le relabel
count_le-relabel i n [] = omega arith
count_le-relabel i n ((k, s) ∷ m) = ground (arith, count_le-relabel i (n + 1) m)

-- The order by slot of entries that stand in it already.
sort-Rises : (b : ℕ) (m : Entries) (n : ℕ) → Rises b m n → sort (by_slot m) ≡ by_slot m
unfolding sort by_slot sort_insert pair_less
sort-Rises b [] n h = refl
sort-Rises b ((k, s) ∷ []) n h = refl
sort-Rises b ((k, s) ∷ (j, t) ∷ m) n h = ground (arith, sort-Rises s ((j, t) ∷ m) n h.1, h.1.0)

renumber-perm :
    (n : ℕ) (o : Entries) {l m : Entries} → Permᴰ l m → Permᴰ (renumber n o l) (renumber n o m)
unfolding renumber
renumber-perm n [] p = p
renumber-perm n ((s, k) ∷ o) p = renumber-perm (n + 1) o (assign-perm k n p)

-- Renumbering keys other than the first leaves the first entry.
renumber_skip :
    (n k v : ℕ) (o m : Entries)
    → find k o ≡ none
    → renumber n (by_slot o) ((k, v) ∷ m) ≡ (k, v) ∷ renumber n (by_slot o) m
unfolding renumber by_slot find assign
renumber_skip n k v [] m e = refl
renumber_skip n k v ((j, s) ∷ o) m e =
    let rest : find k o ≡ none = ground (arith, e) in
    let kept : assign j n ((k, v) ∷ m) ≡ (k, v) ∷ assign j n m = ground (arith, e) in
    ap (renumber (n + 1) (by_slot o)) kept ∙ renumber_skip (n + 1) k v o (assign j n m) rest

renumber_lem : (n : ℕ) (m : Entries) → Distinct m → renumber n (by_slot m) m ≡ relabel n m
unfolding renumber by_slot relabel assign
renumber_lem n [] d = refl
renumber_lem n ((k, s) ∷ m) d =
    let first : assign k n ((k, s) ∷ m) ≡ (k, n) ∷ m = ground (arith, assign_absent k n m d.0) in
    ap (renumber (n + 1) (by_slot m)) first
    ∙ renumber_skip (n + 1) k n m m d.0
    ∙ ap (◌∷◌ (k, n)) (renumber_lem (n + 1) m d.1)

-- Whatever order the map keeps, compaction relabels the entries in the order of their slots.
pub compact-perm :
    (b : ℕ) (l m : Entries) (n : ℕ)
    → Permᴰ l m
    → Distinct m
    → Rises b m n
    → Permᴰ (renumber 1 (sort (by_slot l)) l) (relabel 1 m)
compact-perm b l m n p d h =
    rw (sort-perm (by_slot-perm p), sort-Rises b m n h, ← renumber_lem 1 m d)
      (renumber-perm 1 (by_slot m) p)
