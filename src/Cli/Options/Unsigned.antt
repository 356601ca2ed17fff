-- ===== src/Cli/Options/Unsigned.antt =====
-- backend/src/cli/options.cpp: numbers written as arguments are read back.
use Prim.Native.Char.{Char, code}
use Prim.Native.String.{String}
use yet_another_reuse_distan.Prelude.{
  ℕ, zero, suc, ◌+◌, ◌*◌, ◌/◌, ◌%◌, ◌^◌, ◌<◌, ◌≡◌, refl, ◌∙◌, false, Bool-cases, arith, List, [],
  ◌∷◌, ap, ltb, lt_or_ge, lt→ltb, ge→ltb, inl, inr, if◌then◌else◌, ok,
}
use yet_another_reuse_distan.Cli.Options.{codes, is_empty, from_chars, unsigned_value}

digit : ℕ → Char
digit zero = "0"
digit (suc zero) = "1"
digit (suc (suc zero)) = "2"
digit (suc (suc (suc zero))) = "3"
digit (suc (suc (suc (suc zero)))) = "4"
digit (suc (suc (suc (suc (suc zero))))) = "5"
digit (suc (suc (suc (suc (suc (suc zero)))))) = "6"
digit (suc (suc (suc (suc (suc (suc (suc zero))))))) = "7"
digit (suc (suc (suc (suc (suc (suc (suc (suc zero)))))))) = "8"
digit _ = "9"

code-digit : (d : ℕ) → d < 10 → code (digit d) ≡ b'0' + d
unfolding digit
code-digit zero h = refl
code-digit (suc zero) h = refl
code-digit (suc (suc zero)) h = refl
code-digit (suc (suc (suc zero))) h = refl
code-digit (suc (suc (suc (suc zero)))) h = refl
code-digit (suc (suc (suc (suc (suc zero))))) h = refl
code-digit (suc (suc (suc (suc (suc (suc zero)))))) h = refl
code-digit (suc (suc (suc (suc (suc (suc (suc zero))))))) h = refl
code-digit (suc (suc (suc (suc (suc (suc (suc (suc zero)))))))) h = refl
code-digit (suc (suc (suc (suc (suc (suc (suc (suc (suc zero))))))))) h = refl
code-digit (suc (suc (suc (suc (suc (suc (suc (suc (suc (suc k)))))))))) h = absurd (omega arith)

-- The decimal digits of a number, in front of a text.
print : ℕ → ℕ → String → String
print zero n out = out
print (suc rounds) n out =
    let more = print rounds (n / 10) (String.◌∷◌ (digit (n % 10)) out) in
    if ltb n 10 then String.◌∷◌ (digit (n % 10)) out else more

-- Twenty digits hold every 64-bit number.
pub decimal : ℕ → String
decimal n = print 20 n ""

abbrev ten_to : ℕ → ℕ
ten_to zero = 1
ten_to (suc k) = 10 * ten_to k

from_chars-digit :
    (value d : ℕ) (cs : List ℕ)
    → d < 10
    → from_chars value (code (digit d) ∷ cs) ≡ from_chars (value * 10 + d) cs
unfolding from_chars
from_chars-digit value d cs h = rw (code-digit d h) (ground arith)

last_digit :
    (n : ℕ) (cs : List ℕ) → from_chars (n / 10) (code (digit (n % 10)) ∷ cs) ≡ from_chars n cs
last_digit n cs =
    from_chars-digit (n / 10) (n % 10) cs (omega arith)
    ∙ ap (λ value. from_chars value cs) (omega arith)

print_single :
    (rounds n : ℕ) (out : String)
    → n < 10
    → from_chars 0 (codes (print (suc rounds) n out)) ≡ from_chars n (codes out)
unfolding print
print_single rounds n out small = rw (lt→ltb n 10 small) (
    ap (λ value. from_chars value (code (digit (n % 10)) ∷ codes out)) (omega arith)
    ∙ last_digit n (codes out))

from_chars-print :
    (rounds n : ℕ) (out : String)
    → n < ten_to (suc rounds)
    → from_chars 0 (codes (print (suc rounds) n out)) ≡ from_chars n (codes out)
unfolding print
from_chars-print zero n out h = print_single zero n out (omega arith)
from_chars-print (suc rounds) n out h = elim (lt_or_ge n 10) [
  | inl small ↦ print_single (suc rounds) n out small
  | inr large ↦ rw (ge→ltb n 10 large) (
      from_chars-print rounds (n / 10) (String.◌∷◌ (digit (n % 10)) out) (omega arith)
      ∙ last_digit n (codes out))
]

is_empty-print :
    (rounds n : ℕ) (c : Char) (out : String) → is_empty (print rounds n (String.◌∷◌ c out)) ≡ false
unfolding print
is_empty-print zero n c out = refl
is_empty-print (suc rounds) n c out = elim (Bool-cases (ltb n 10)) [
  | inl small ↦ rw small
  | inr large ↦ rw large (is_empty-print rounds (n / 10) (digit (n % 10)) (String.◌∷◌ c out))
]

is_empty-decimal : (n : ℕ) → is_empty (decimal n) ≡ false
unfolding print decimal
is_empty-decimal n = elim (Bool-cases (ltb n 10)) [
  | inl small ↦ rw small
  | inr large ↦ rw large (is_empty-print 19 (n / 10) (digit (n % 10)) "")
]

from_chars-decimal : (n : ℕ) → n < 2 ^ 64 → from_chars 0 (codes (decimal n)) ≡ (n, [])
unfolding from_chars decimal
from_chars-decimal n h = from_chars-print 19 n "" (omega arith)

-- Every 64-bit number is read back from its decimal digits.
pub unsigned_value-decimal : (n : ℕ) → n < 2 ^ 64 → unsigned_value (decimal n) ≡ ok n
unfolding unsigned_value
unsigned_value-decimal n h = rw (is_empty-decimal n, from_chars-decimal n h) (ground arith)
