-- ===== src/Output/Identity.antt =====
-- backend/src/cache/output/artifact_contract.hpp: the form of a digest.
use yet_another_reuse_distan.Prelude.{
  ℕ, Bool, not, ◌&&◌, ◌||◌, List, [], ◌∷◌, leb, ◌==◌, length, Result, ok, throw_if, ◌>>◌,
  invalid_argument,
}

-- The characters of a text that is walked, as bytes.
abbrev pub Bytes : Type 0
Bytes = List ℕ

unfoldable pub is_hex_digit : ℕ → Bool
is_hex_digit digit = (leb b'0' digit && leb digit b'9') || (leb b'a' digit && leb digit b'f')

unfoldable pub require_hex : Bytes → Result (Unit {0})
unfolding is_hex_digit
require_hex [] = ok tt
require_hex (digit ∷ digits) = do
  throw_if (not (is_hex_digit digit)) invalid_argument
  require_hex digits

unfoldable pub require_sha256 : Bytes → Result (Unit {0})
unfolding require_hex
require_sha256 value = do throw_if (not (length value == 64)) invalid_argument; require_hex value
