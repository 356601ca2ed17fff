-- ===== src/Prelude/Results.antt =====
-- Results of code that may throw. An exception is named by its C++ class; its message is dropped.
use mathlib.Core.Path.{◌≡◌, refl}
use mathlib.Core.Logic.{◌⊎◌, inl, inr}
use mathlib.Core.Bool.{Bool, true, false}

pub data Exception : Type 0 where
  invalid_argument overflow_error logic_error runtime_error : Exception

pub data Result {ℓ} (A : Type ℓ) : Type ℓ where
  throw : Exception → Result A
  ok : A → Result A

abbrev pub ◌>>=◌ {ℓ κ} : {A : Type ℓ} {B : Type κ} → Result A → (A → Result B) → Result B
throw e >>= next = throw e
ok a >>= next = next a

-- `if (bad) throw e;`
abbrev pub throw_if : Bool → Exception → Result (Unit {0})
throw_if false e = ok tt
throw_if true e = throw e

abbrev pub ◌>>◌ {ℓ} : {B : Type ℓ} → Result (Unit {0}) → Result B → Result B
check >> rest = check >>= λ done. rest

infixl 5 ◌>>=◌
infixl 5 ◌>>◌
-- What a successful run of two steps says of each.
pub >>=-eq-ok {ℓ κ} :
    {A : Type ℓ} {B : Type κ} (first : Result A) (second : A → Result B) {out : B}
    → (first >>= second) ≡ ok out
    → (between : A) × (first ≡ ok between) × (second between ≡ ok out)
>>=-eq-ok (throw e) second ran = cc
>>=-eq-ok (ok between) second ran = (between, refl, ran)

pub throw_if-eq-ok : (b : Bool) (e : Exception) {u : Unit {0}} → throw_if b e ≡ ok u → b ≡ false
throw_if-eq-ok true e h = cc
throw_if-eq-ok false e h = refl

pub >>=_cong {ℓ κ} :
    {A : Type ℓ} {B : Type κ} (m : Result A) (f g : A → Result B)
    → ((a : A) → f a ≡ g a)
    → (m >>= f) ≡ (m >>= g)
>>=_cong (ok a) f g h = h a
>>=_cong (throw e) f g h = refl

-- Only what a first step returns is passed on.
pub >>=_cong_ok {ℓ κ} :
    {A : Type ℓ} {B : Type κ} (m : Result A) (f g : A → Result B)
    → ((a : A) → m ≡ ok a → f a ≡ g a)
    → (m >>= f) ≡ (m >>= g)
>>=_cong_ok (ok a) f g h = h a refl
>>=_cong_ok (throw e) f g h = refl

pub Result-cases {ℓ} :
    {A : Type ℓ} (r : Result A) → ((e : Exception) × (r ≡ throw e)) ⊎ ((a : A) × (r ≡ ok a))
Result-cases (throw e) = inl (e, refl)
Result-cases (ok a) = inr (a, refl)

pub ok-injective {ℓ} : {A : Type ℓ} {a b : A} → ok a ≡ ok b → a ≡ b
ok-injective h = cc
