-- ===== src/Text/Hex.antt =====
-- `isAsciiHexString` of StringUtils, and the case of the digits.
use tactility_halo.Base.{ℕ, ◌≡◌, refl, [], ◌∷◌, arith}
use tactility_halo.Text.{Str, is_ascii_hex_string, is_invalid_hex, lowercase, tolower}

is_invalid_hex-tolower : (c : ℕ) → is_invalid_hex (tolower c) ≡ is_invalid_hex c
unfolding is_invalid_hex tolower
is_invalid_hex-tolower c = ground arith

-- A text is a hex string exactly if its lower-case form is one.
pub is_ascii_hex_string-lowercase :
    (s : Str) → is_ascii_hex_string (lowercase s) ≡ is_ascii_hex_string s
unfolding is_ascii_hex_string lowercase
is_ascii_hex_string-lowercase [] = refl
is_ascii_hex_string-lowercase (c ∷ s) =
    ground (arith, is_invalid_hex-tolower c, is_ascii_hex_string-lowercase s)
