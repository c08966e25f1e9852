-- ===== src/Base17.antt =====
-- The base-17 form of a molecular hash (`hex_to_base17` of src/molecule.c). Allocation succeeds.
pub mod Division
pub mod Value
use knish_io_client_c.Hex.{strtol_hex2}
use knish_io_client_c.Prelude.{
  ℕ, zero, suc, ◌+◌, ◌-◌, ◌*◌, ◌/◌, ◌%◌, Bool, true, false, ◌&&◌, not, Option, none, some, List, [],
  ◌∷◌, ◌++◌, ltb, ◌==◌, if◌then◌else◌, Bytes, codes, length, get_or, replicate, ℤ, pos, negsuc,
}

abbrev pub base17_chars : Bytes
base17_chars = codes "0123456789abcdefg"

unfoldable pub base17_char : ℕ → ℕ
base17_char v = get_or base17_chars v 0

-- The cast of a `long` to `uint8_t`.
abbrev pub to_byte : ℤ → ℕ
to_byte (pos n) = n % 256
to_byte (negsuc n) = 255 - n % 256

-- The bytes of `num`, most significant first, from the pairs of characters.
unfoldable pub read_num : Bytes → Bytes
read_num [] = []
read_num (c ∷ []) = []
read_num (c ∷ d ∷ rest) = to_byte (strtol_hex2 c d).0 ∷ read_num rest

-- Whether every byte of `num` is 0.
unfoldable pub is_zero : Bytes → Bool
is_zero [] = true
is_zero (b ∷ num) = if b == 0 then is_zero num else false

-- One division of `num` by 17: the quotient, in place, and the last `remainder`.
unfoldable pub divide : ℕ → Bytes → Bytes × ℕ
divide remainder [] = ([], remainder)
divide remainder (b ∷ num) =
    let temp = remainder * 256 + b in
    let rest = divide (temp % 17) num in (temp / 17 % 256 ∷ rest.0, rest.1)

-- `if (result_idx >= 0) result[result_idx--] = …`: `out` is the text behind `result_idx`.
abbrev pub put_left : ℕ → Bytes → Bytes
put_left c out = if ltb (length out) 64 then c ∷ out else out

-- `while (1)`, with fuel for its rounds; `none` if the number is not yet 0 when it is used up.
unfoldable pub divide_loop : ℕ → Bytes → Bytes → Option Bytes
divide_loop zero num out = none
divide_loop (suc fuel) num out =
    let by17 = divide 0 num in
    let rest = divide_loop fuel by17.0 (put_left (base17_char by17.1) out) in
    if is_zero num then some out else rest

-- A number of 32 bytes has at most 63 digits to the base 17.
abbrev pub divide_fuel : ℕ
divide_fuel = 64

-- The zeros on the left.
abbrev pub pad_left : Bytes → Bytes
pad_left out = replicate (64 - length out) b'0' ++ out

-- `hex_to_base17`; the outer `none` is a loop that goes on when the fuel is used up, and the
-- inner one the NULL for a text of another length. The first argument is not NULL.
unfoldable pub hex_to_base17 : Bytes → Option (Option Bytes)
hex_to_base17 hex =
    if not (length hex == 64) then some none else elim (divide_loop divide_fuel (read_num hex) []) [
      | none ↦ none
      | some out ↦ some (some (pad_left out))
    ]
