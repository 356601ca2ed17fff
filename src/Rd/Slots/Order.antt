-- ===== src/Rd/Slots/Order.antt =====
-- Entries in the order of their slots, oldest key first, and how observing a key moves it to the end.
use yet_another_reuse_distan.Prelude.{
  ℕ, suc, ◌+◌, ◌≤◌, ◌<◌, ◌≡◌, refl, ap, List, [], ◌∷◌, ◌++◌, map, none, some, arith, leb, ◌==◌,
  if◌then◌else◌, length,
}
use yet_another_reuse_distan.Prelude.Maps.{find}
use yet_another_reuse_distan.Rd.Slots.{Entries, count_le}

-- The slots rise from above `b` to below `n`.
abbrev pub Rises : ℕ → Entries → ℕ → Type 0
Rises b [] n = b < n
Rises b ((k, s) ∷ m) n = (b < s) × Rises s m n

abbrev pub keys : Entries → List ℕ
keys = map (λ e. e.0)

-- The list without the key, for entries and for keys alone.
unfoldable pub drop_key : ℕ → Entries → Entries
drop_key k [] = []
drop_key k ((j, s) ∷ m) = if k == j then m else (j, s) ∷ drop_key k m

pub Rises-lt : (b : ℕ) (m : Entries) (n : ℕ) → Rises b m n → b + length m < n
Rises-lt b [] n h = omega arith
Rises-lt b ((k, s) ∷ m) n h = omega (arith, Rises-lt s m n h.1, h.0)

pub Rises-lower : (a b : ℕ) (m : Entries) (n : ℕ) → a ≤ b → Rises b m n → Rises a m n
Rises-lower a b [] n l h = omega arith
Rises-lower a b ((k, s) ∷ m) n l h = (omega (arith, h.0), h.1)

Rises-raise : (b : ℕ) (m : Entries) (n n' : ℕ) → n ≤ n' → Rises b m n → Rises b m n'
Rises-raise b [] n n' l h = omega arith
Rises-raise b ((k, s) ∷ m) n n' l h = (h.0, Rises-raise s m n n' l h.1)

pub Rises-snoc : (b k : ℕ) (m : Entries) (n : ℕ) → Rises b m n → Rises b (m ++ (k, n) ∷ []) (suc n)
Rises-snoc b k [] n h = (h, omega arith)
Rises-snoc b k ((j, s) ∷ m) n h = (h.0, Rises-snoc s k m n h.1)

pub Rises-drop_key : (b k : ℕ) (m : Entries) (n : ℕ) → Rises b m n → Rises b (drop_key k m) n
unfolding drop_key
Rises-drop_key b k [] n h = h
Rises-drop_key b k ((j, s) ∷ m) n h =
    ground (arith, h.0, Rises-drop_key s k m n h.1, Rises-lower b s m n (omega (arith, h.0)) h.1)

-- A slot that is found lies in the range.
pub find-Rises :
    (b k : ℕ) (m : Entries) (n : ℕ) {s : ℕ} → Rises b m n → find k m ≡ some s → (b < s) × (s < n)
unfolding find
find-Rises b k [] n h e = cc
find-Rises b k ((j, t) ∷ m) n {s} h e =
    ground (arith, h.0, Rises-lt t m n h.1, find-Rises t k m n {s = s} h.1)

pub count_le-below : (i b : ℕ) (m : Entries) (n : ℕ) → Rises b m n → i ≤ b → count_le i m ≡ 0
unfolding count_le
count_le-below i b [] n h l = refl
count_le-below i b ((k, s) ∷ m) n h l =
    ground (arith, h.0, count_le-below i s m n h.1 (omega (arith, h.0)))

pub count_le-le : (i : ℕ) (m : Entries) → count_le i m ≤ length m
unfolding count_le
count_le-le i [] = omega arith
count_le-le i ((k, s) ∷ m) = ground (arith, count_le-le i m)

pub count_le_mono : (i j : ℕ) (m : Entries) → i ≤ j → count_le i m ≤ count_le j m
unfolding count_le
count_le_mono i j [] h = omega arith
count_le_mono i j ((k, s) ∷ m) h = ground (arith, count_le_mono i j m h)

pub count_le-snoc :
    (i k n : ℕ) (m : Entries)
    → count_le i (m ++ (k, n) ∷ []) ≡ count_le i m + (if leb n i then 1 else 0)
unfolding count_le
count_le-snoc i k n [] = ground arith
count_le-snoc i k n ((j, s) ∷ m) = omega (arith, count_le-snoc i k n m)

pub count_le-drop_key :
    (i k : ℕ) (m : Entries) {s : ℕ}
    → find k m ≡ some s
    → count_le i (drop_key k m) + (if leb s i then 1 else 0) ≡ count_le i m
unfolding count_le drop_key find
count_le-drop_key i k [] e = cc
count_le-drop_key i k ((j, t) ∷ m) {s} e = ground (arith, count_le-drop_key i k m {s = s})

pub length-drop_key :
    (k : ℕ) (m : Entries) {s : ℕ} → find k m ≡ some s → length (drop_key k m) + 1 ≡ length m
unfolding drop_key find
length-drop_key k [] e = cc
length-drop_key k ((j, t) ∷ m) {s} e = ground (arith, length-drop_key k m {s = s})

pub length-keys : (m : Entries) → length (keys m) ≡ length m
length-keys [] = refl
length-keys ((k, s) ∷ m) = ap suc (length-keys m)

pub drop_key_absent : (k : ℕ) (m : Entries) → find k m ≡ none → drop_key k m ≡ m
unfolding drop_key find
drop_key_absent k [] e = refl
drop_key_absent k ((j, s) ∷ m) e = ground (arith, drop_key_absent k m)
