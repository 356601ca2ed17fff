-- ===== src/Batch/Replay/Finds.antt =====
-- What is found among the entries of an index after a key has moved to their end.
use yet_another_reuse_distan.Prelude.{
  ℕ, ◌+◌, ◌≤◌, ◌≡◌, refl, ap, ◌∙◌, false, inl, inr, [], ◌∷◌, ◌++◌, none, some, arith, ◌==◌,
  if◌then◌else◌, length, Bool-cases,
}
use yet_another_reuse_distan.Prelude.Maps.{find}
use yet_another_reuse_distan.Rd.Slots.{Entries, count_le}
use yet_another_reuse_distan.Rd.Slots.Perms.{Distinct}
use yet_another_reuse_distan.Rd.Slots.Order.{Rises, Rises-lt, drop_key}

find-snoc_self : (k v : ℕ) (m : Entries) → find k m ≡ none → find k (m ++ (k, v) ∷ []) ≡ some v
unfolding find
find-snoc_self k v [] h = ground arith
find-snoc_self k v ((j, s) ∷ m) h = ground (arith, h, find-snoc_self k v m)

find-snoc_ne : (j k v : ℕ) (m : Entries) → (j == k) ≡ false → find j (m ++ (k, v) ∷ []) ≡ find j m
unfolding find
find-snoc_ne j k v [] h = ground (arith, h)
find-snoc_ne j k v ((i, s) ∷ m) h = ground (arith, find-snoc_ne j k v m h)

find-drop_key_self : (k : ℕ) (m : Entries) → Distinct m → find k (drop_key k m) ≡ none
unfolding find drop_key
find-drop_key_self k [] d = refl
find-drop_key_self k ((j, s) ∷ m) d =
    ground (arith, d.0, find-drop_key_self k m d.1, ap (λ (i : ℕ). find i m) {x = k} {y = j})

find-drop_key_ne : (j k : ℕ) (m : Entries) → (j == k) ≡ false → find j (drop_key k m) ≡ find j m
unfolding find drop_key
find-drop_key_ne j k [] h = refl
find-drop_key_ne j k ((i, s) ∷ m) h = ground (arith, h, find-drop_key_ne j k m h)

pub find-moved :
    (j k v : ℕ) (m : Entries)
    → Distinct m
    → find j (drop_key k m ++ (k, v) ∷ []) ≡ (if j == k then some v else find j m)
find-moved j k v m d = elim (Bool-cases (j == k)) [
  | inl e ↦
      let same : j ≡ k = ground (arith, e) in
      rw e (
        ap (λ (i : ℕ). find i (drop_key k m ++ (k, v) ∷ [])) same
        ∙ find-snoc_self k v (drop_key k m) (find-drop_key_self k m d))
  | inr e ↦ rw e (find-snoc_ne j k v (drop_key k m) e ∙ find-drop_key_ne j k m e)
]

-- All the slots lie below the next one.
pub count_le_all :
    (b : ℕ) (m : Entries) (n i : ℕ) → Rises b m n → n ≤ i + 1 → count_le i m ≡ length m
unfolding count_le
count_le_all b [] n i h le = refl
count_le_all b ((k, s) ∷ m) n i h le =
    ground (arith, le, Rises-lt s m n h.1, count_le_all s m n i h.1 le)
