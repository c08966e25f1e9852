-- ===== src/Validate.antt =====
-- The check of hexadecimal text (src/utils/security.c, include/knishio/utils/security.h).
use knish_io_client_c.Prelude.{
  ℕ, ◌==◌, Bool, true, false, ◌&&◌, ◌||◌, not, Option, none, some, [], ◌∷◌, if◌then◌else◌, Bytes,
  length, leb, ltb, ◌*◌,
}

-- `isxdigit` in the C locale.
abbrev pub is_xdigit : ℕ → Bool
is_xdigit c = (leb b'0' c && leb c b'9') || (leb b'a' c && leb c b'f') || (leb b'A' c && leb c b'F')

unfoldable pub all_chars : (ℕ → Bool) → Bytes → Bool
all_chars p [] = true
all_chars p (c ∷ s) = if p c then all_chars p s else false

-- `KNISHIO_MAX_HEX_LENGTH`
abbrev pub max_hex_length : ℕ
max_hex_length = 256 * 1024

-- `knishio_validate_hex`; an expected length of 0 stands for any.
unfoldable pub validate_hex : Option Bytes → ℕ → Bool
unfolding all_chars
validate_hex none expected = false
validate_hex (some hex) expected =
    let n = length hex in
    if ltb max_hex_length n
    then false
    else if ltb 0 expected && not (n == expected)
    then false
    else all_chars is_xdigit hex
