-- ===== src/Rd/History/Window.antt =====
-- The history against the raw trace: the distance is the number of distinct keys in the window
-- since the last observation of the key.
use yet_another_reuse_distan.Prelude.{
  ℕ, ◌+◌, ◌≤◌, ◌≡◌, refl, ap, Bool, false, ◌||◌, inl, inr, List, [], ◌∷◌, ◌++◌, Option, none, some,
  arith, ◌==◌, if◌then◌else◌, length, length-append, eq_or_ne, Option-cases,
}
use yet_another_reuse_distan.Rd.History.{after, remove, touch, reuse_distance}

-- The history of a trace, the newest observation first.
unfoldable pub history : List ℕ → List ℕ
history [] = []
history (j ∷ past) = touch j (history past)

-- The observations newer than the last one of `k`.
unfoldable pub window : ℕ → List ℕ → Option (List ℕ)
window k [] = none
window k (j ∷ past) =
    if k == j then some [] else elim (window k past) [ none ↦ none | some newer ↦ some (j ∷ newer) ]

unfoldable pub contains : ℕ → List ℕ → Bool
contains k [] = false
contains k (j ∷ l) = k == j || contains k l

unfoldable pub distinct_count : List ℕ → ℕ
distinct_count [] = 0
distinct_count (j ∷ l) = (if contains j l then 0 else 1) + distinct_count l

contains-append : (k j : ℕ) (l : List ℕ) → contains k (l ++ j ∷ []) ≡ (contains k l || k == j)
unfolding contains
contains-append k j [] = ground arith
contains-append k j (i ∷ l) = ground (arith, contains-append k j l)

contains-remove_ne : (k j : ℕ) (l : List ℕ) → ¬ (k ≡ j) → contains k (remove j l) ≡ contains k l
unfolding contains remove
contains-remove_ne k j [] h = refl
contains-remove_ne k j (i ∷ l) h = ground (arith, h, contains-remove_ne k j l h)

contains-history : (k : ℕ) (l : List ℕ) → contains k (history l) ≡ contains k l
unfolding history contains touch
contains-history k [] = refl
contains-history k (j ∷ l) = elim (eq_or_ne k j) [
  | inl e ↦ ground (arith, e, contains-append k j (remove j (history l)))
  | inr ne ↦ ground (
    arith,
    ne,
    contains-append k j (remove j (history l)),
    contains-remove_ne k j (history l) ne,
    contains-history k l,
  )
]

length-remove :
    (k : ℕ) (l : List ℕ) → length (remove k l) + (if contains k l then 1 else 0) ≡ length l
unfolding contains remove
length-remove k [] = omega arith
length-remove k (j ∷ l) = ground (arith, length-remove k l)

pub length-history : (l : List ℕ) → length (history l) ≡ distinct_count l
unfolding history distinct_count touch
length-history [] = refl
length-history (j ∷ l) = ground (
  arith,
  length-append (remove j (history l)) (j ∷ []),
  length-remove j (history l),
  contains-history j l,
  length-history l,
)

pub distinct_count-le : (l : List ℕ) → distinct_count l ≤ length l
unfolding distinct_count
distinct_count-le [] = omega arith
distinct_count-le (j ∷ l) = ground (arith, distinct_count-le l)

-- No key stands twice in a history.
abbrev Once : List ℕ → Type 0
Once [] = Unit {0}
Once (j ∷ l) = (contains j l ≡ false) × Once l

Once-snoc : (j : ℕ) (l : List ℕ) → contains j l ≡ false → Once l → Once (l ++ j ∷ [])
unfolding contains
Once-snoc j [] h o = (refl, tt)
Once-snoc j (i ∷ l) h o = ground (arith, contains-append i j l, Once-snoc j l (ground arith) o.1)

contains-remove_self : (j : ℕ) (l : List ℕ) → Once l → contains j (remove j l) ≡ false
unfolding contains remove
contains-remove_self j [] o = refl
contains-remove_self j (i ∷ l) o = ground (arith, o.0, contains-remove_self j l o.1)

Once-remove : (j : ℕ) (l : List ℕ) → Once l → Once (remove j l)
unfolding remove
Once-remove j [] o = tt
Once-remove j (i ∷ l) o = elim (eq_or_ne j i) [
  | inl e ↦ ground (arith, e, o.1)
  | inr ne ↦
      ground
        (arith, ne, contains-remove_ne i j l (λ e. ne (ground arith)), Once-remove j l o.1, o.0)
]

Once-history : (l : List ℕ) → Once (history l)
unfolding history touch
Once-history [] = tt
Once-history (j ∷ l) =
    let o = Once-history l in
    Once-snoc j (remove j (history l)) (contains-remove_self j (history l) o)
      (Once-remove j (history l) o)

after-snoc_self : (k : ℕ) (l : List ℕ) → contains k l ≡ false → after k (l ++ k ∷ []) ≡ some []
unfolding after contains
after-snoc_self k [] h = ground arith
after-snoc_self k (i ∷ l) h = ground (arith, after-snoc_self k l (ground arith))

remove_absent : (j : ℕ) (l : List ℕ) → contains j l ≡ false → remove j l ≡ l
unfolding remove contains
remove_absent j [] h = refl
remove_absent j (i ∷ l) h = ground (arith, remove_absent j l)

after-snoc_ne :
    (k j : ℕ) (l : List ℕ)
    → contains j l ≡ false
    → ¬ (k ≡ j)
    → after k (l ++ j ∷ []) ≡ elim (after k l) [ none ↦ none | some newer ↦ some (touch j newer) ]
unfolding after touch contains
after-snoc_ne k j [] h ne = ground arith
after-snoc_ne k j (i ∷ l) h ne =
    ground (arith, ne, remove_absent j l, after-snoc_ne k j l (ground arith) ne)

-- Touching another key leaves what comes after `k`, but for the key that moves to the end.
after-touch_ne :
    (k j : ℕ) (l : List ℕ)
    → Once l
    → ¬ (k ≡ j)
    → after k (touch j l) ≡ elim (after k l) [ none ↦ none | some newer ↦ some (touch j newer) ]
unfolding after touch remove
after-touch_ne k j [] o ne = ground arith
after-touch_ne k j (i ∷ l) o ne = elim (eq_or_ne j i) [
  | inl e ↦
      let absent : contains j l ≡ false = ground (arith, e, o.0) in
      ground (arith, e, ne, after-snoc_ne k j l absent ne)
  | inr other ↦ ground (arith, ne, other, after-touch_ne k j l o.1 ne)
]

after-history :
    (k : ℕ) (l : List ℕ)
    → after k (history l) ≡ elim (window k l) [ none ↦ none | some newer ↦ some (history newer) ]
unfolding history window
after-history k [] = unfold after in refl
after-history k (j ∷ l) = elim (eq_or_ne k j) [
  | inl e ↦
      let fresh = contains-remove_self j (history l) (Once-history l) in
      let last : after j (touch j (history l)) ≡ some [] =
        unfold touch in after-snoc_self j (remove j (history l)) fresh in
      ground (arith, e, last, ap (λ (n : ℕ). after n (touch j (history l))) e)
  | inr ne ↦
      ground (arith, ne, after-touch_ne k j (history l) (Once-history l) ne, after-history k l)
]

-- The number of distinct keys observed since the last observation of `k`.
unfoldable pub distinct_since : ℕ → List ℕ → Option ℕ
distinct_since k past = elim (window k past) [
  | none ↦ none
  | some newer ↦ some (distinct_count newer)
]

pub reuse_distance-window :
    (k : ℕ) (past : List ℕ) → reuse_distance k (history past) ≡ distinct_since k past
unfolding reuse_distance distinct_since
reuse_distance-window k past = elim (Option-cases (window k past)) [
  | inl e ↦ ground (arith, after-history k past, e)
  | inr (newer, e) ↦ ground (arith, after-history k past, e, length-history newer)
]
