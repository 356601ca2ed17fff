-- ===== src/Rd/Slots/Perms.antt =====
-- What does not depend on the order in which the slot map keeps its entries.
use mathlib.Core.List.{Permᴰ}
use yet_another_reuse_distan.Prelude.{
  ℕ, suc, ◌≡◌, refl, sym, ap, ◌∙◌, List, [], ◌∷◌, none, arith, length,
}
use yet_another_reuse_distan.Prelude.Maps.{find}
use yet_another_reuse_distan.Rd.Slots.{
  Entries, assign, pair_less, sort_insert, sort, by_slot, count_le,
}

-- No key stands twice.
abbrev pub Distinct : Entries → Type 0
Distinct [] = Unit {0}
Distinct ((k, s) ∷ m) = (find k m ≡ none) × Distinct m

pub length-perm {ℓ} : {A : Type ℓ} {l m : List A} → Permᴰ l m → length l ≡ length m
length-perm Permᴰ.nil = refl
length-perm (Permᴰ.cons e p) = ap suc (length-perm p)
length-perm (Permᴰ.swap e f) = refl
length-perm (Permᴰ.trans p q) = length-perm p ∙ length-perm q

pub perm_symm {ℓ} : {A : Type ℓ} {l m : List A} → Permᴰ l m → Permᴰ m l
perm_symm Permᴰ.nil = Permᴰ.nil
perm_symm (Permᴰ.cons e p) = Permᴰ.cons (sym e) (perm_symm p)
perm_symm (Permᴰ.swap e f) = Permᴰ.swap (sym f) (sym e)
perm_symm (Permᴰ.trans p q) = Permᴰ.trans (perm_symm q) (perm_symm p)

find-none-perm : (k : ℕ) {l m : Entries} → Permᴰ l m → find k l ≡ none → find k m ≡ none
unfolding find
find-none-perm k Permᴰ.nil h = refl
find-none-perm k (Permᴰ.cons {a} {b} e p) h = ground (arith, find-none-perm k p, e)
find-none-perm k (Permᴰ.swap e f) h = ground (arith, e, f)
find-none-perm k (Permᴰ.trans p q) h = find-none-perm k q (find-none-perm k p h)

pub Distinct-perm : {l m : Entries} → Permᴰ l m → Distinct l → Distinct m
unfolding find
Distinct-perm Permᴰ.nil d = tt
Distinct-perm (Permᴰ.cons {a} {b} e p) d =
    (find-none-perm b.0 p (ground (arith, e, d.0)), Distinct-perm p d.1)
Distinct-perm (Permᴰ.swap e f) h = (ground (arith, e, f), (ground (arith, e, f), h.1.1))
Distinct-perm (Permᴰ.trans p q) d = Distinct-perm q (Distinct-perm p d)

pub find-perm : (k : ℕ) {l m : Entries} → Permᴰ l m → Distinct l → find k l ≡ find k m
unfolding find
find-perm k Permᴰ.nil d = refl
find-perm k (Permᴰ.cons {a} {b} e p) d = ground (arith, find-perm k p d.1, e)
find-perm k (Permᴰ.swap e f) d = ground (arith, e, f)
find-perm k (Permᴰ.trans p q) d = find-perm k p d ∙ find-perm k q (Distinct-perm p d)

pub count_le-perm : (i : ℕ) {l m : Entries} → Permᴰ l m → count_le i l ≡ count_le i m
unfolding count_le
count_le-perm i Permᴰ.nil = refl
count_le-perm i (Permᴰ.cons e p) = ground (arith, count_le-perm i p, e)
count_le-perm i (Permᴰ.swap e f) = ground (arith, e, f)
count_le-perm i (Permᴰ.trans p q) = count_le-perm i p ∙ count_le-perm i q

pub assign-perm : (k v : ℕ) {l m : Entries} → Permᴰ l m → Permᴰ (assign k v l) (assign k v m)
unfolding assign
assign-perm k v Permᴰ.nil = Permᴰ.nil
assign-perm k v (Permᴰ.cons e p) = Permᴰ.cons (ground (arith, e)) (assign-perm k v p)
assign-perm k v (Permᴰ.swap e f) = Permᴰ.swap (ground (arith, e)) (ground (arith, f))
assign-perm k v (Permᴰ.trans p q) = Permᴰ.trans (assign-perm k v p) (assign-perm k v q)

pub by_slot-perm : {l m : Entries} → Permᴰ l m → Permᴰ (by_slot l) (by_slot m)
unfolding by_slot
by_slot-perm Permᴰ.nil = Permᴰ.nil
by_slot-perm (Permᴰ.cons e p) = Permᴰ.cons (ground (arith, e)) (by_slot-perm p)
by_slot-perm (Permᴰ.swap e f) = Permᴰ.swap (ground (arith, e)) (ground (arith, f))
by_slot-perm (Permᴰ.trans p q) = Permᴰ.trans (by_slot-perm p) (by_slot-perm q)

sort_insert_comm :
    (x y : ℕ × ℕ) (l : Entries) → sort_insert x (sort_insert y l) ≡ sort_insert y (sort_insert x l)
unfolding sort_insert pair_less
sort_insert_comm x y [] = ground arith
sort_insert_comm x y (z ∷ l) = ground (arith, sort_insert_comm x y l)

pub sort-perm : {l m : Entries} → Permᴰ l m → sort l ≡ sort m
unfolding sort
sort-perm Permᴰ.nil = refl
sort-perm (Permᴰ.cons e p) = ground (arith, sort-perm p, e)
sort-perm (Permᴰ.swap {a} {b} {l} e f) = ground (arith, e, f, sort_insert_comm a b (sort l))
sort-perm (Permᴰ.trans p q) = sort-perm p ∙ sort-perm q

pub perm_refl {ℓ} : {A : Type ℓ} (l : List A) → Permᴰ l l
perm_refl [] = Permᴰ.nil
perm_refl (x ∷ l) = Permᴰ.cons refl (perm_refl l)
