-- ===== src/Hex.antt =====
-- Hexadecimal text: `sprintf("%02x")`, `strtol` on two characters, and the conversion of
-- byte strings (src/libraries/base64.c, src/crypto/shake256.c).
pub mod Laws
use knish_io_client_c.Prelude.{
  ℕ, ◌+◌, ◌-◌, ◌*◌, ◌/◌, ◌%◌, ◌<◌, ◌≡◌, Bool, true, false, ◌&&◌, ◌||◌, Option, none, some, [], ◌∷◌,
  ◌++◌, ltb, leb, ◌==◌, if◌then◌else◌, ◌>>=◌, ℤ, pos, negsuc, Bytes,
}

-- The value of a hexadecimal digit, of either case.
unfoldable pub hex_digit : ℕ → Option ℕ
hex_digit c =
    if leb b'0' c && leb c b'9'
    then some (c - b'0')
    else if leb b'a' c && leb c b'f'
    then some (c - b'a' + 10)
    else if leb b'A' c && leb c b'F'
    then some (c - b'A' + 10)
    else none

-- `isspace` in the C locale.
unfoldable pub is_space : ℕ → Bool
is_space c = c == b' ' || (leb 9 c && leb c 13)

-- `strtol(s, &end, 16)` on a text of the two characters `c` and `d`: the value, and whether
-- `*end` is the terminating zero. A first blank or sign is skipped; no digit reads as 0.
unfoldable pub strtol_hex2 : ℕ → ℕ → ℤ × Bool
strtol_hex2 c d = elim (hex_digit c) [
  | some v ↦ elim (hex_digit d) [ some w ↦ (pos (v * 16 + w), true) | none ↦ (pos v, false) ]
  | none ↦ elim (hex_digit d) [
    | some w ↦
        if is_space c || c == b'+'
        then (pos w, true)
        else if c == b'-'
        then ((if w == 0 then pos 0 else negsuc (w - 1)), true)
        else (pos 0, false)
    | none ↦ (pos 0, false)
  ]
]

-- One digit of `%02x`.
unfoldable pub hex_char : ℕ → ℕ
hex_char v = if ltb v 10 then b'0' + v else b'a' + (v - 10)

-- `sprintf("%02x")` of a byte.
unfoldable pub print_hex2 : ℕ → Bytes
print_hex2 b = hex_char (b / 16) ∷ hex_char (b % 16) ∷ []

-- The loops that print a byte string, two characters for each byte.
unfoldable pub binary_to_hex : Bytes → Bytes
binary_to_hex [] = []
binary_to_hex (b ∷ bs) = print_hex2 b ++ binary_to_hex bs

-- The test on `*endptr`, and on the range 0 to 255.
unfoldable pub checked_byte : ℤ × Bool → Option ℕ
checked_byte (v, false) = none
checked_byte (negsuc n, true) = none
checked_byte (pos n, true) = if ltb 255 n then none else some n

-- The loop that reads one byte from each two characters.
unfoldable pub hex_pairs : Bytes → Option Bytes
hex_pairs [] = some []
hex_pairs (c ∷ []) = none
hex_pairs (c ∷ d ∷ rest) = do b ← checked_byte (strtol_hex2 c d); bs ← hex_pairs rest; some (b ∷ bs)

abbrev pub IsByte : ℕ → Type 0
IsByte b = b < 256

abbrev pub is_lower_hex_char : ℕ → Bool
is_lower_hex_char c = (leb b'0' c && leb c b'9') || (leb b'a' c && leb c b'f')

abbrev pub IsLowerHex : ℕ → Type 0
IsLowerHex c = is_lower_hex_char c ≡ true
