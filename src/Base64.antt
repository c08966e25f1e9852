-- ===== src/Base64.antt =====
-- Base64 text for one-time signatures (src/libraries/base64.c). Allocation succeeds, but for
-- the request of no bytes, which `knishio_malloc` refuses.
pub mod Groups
pub mod RoundTrip
use knish_io_client_c.Hex.{hex_pairs, binary_to_hex}
use knish_io_client_c.Prelude.{
  ℕ, zero, suc, ◌+◌, ◌-◌, ◌*◌, ◌/◌, ◌%◌, ◌<◌, ◌≡◌, refl, ap, Bool, true, false, ◌&&◌, ◌||◌, Option,
  none, some, List, [], ◌∷◌, ◌++◌, arith, ltb, leb, ◌==◌, if◌then◌else◌, ◌>>=◌, Bytes, codes, All,
  length, get_or, not,
}

abbrev pub base64_chars : Bytes
base64_chars = codes "ABCDEFGHIJKLMNOPQRSTUVWXYZabcdefghijklmnopqrstuvwxyz0123456789+/"

unfoldable pub base64_char : ℕ → ℕ
base64_char v = get_or base64_chars v 0

-- The table of 256 entries: `none` for -1, and the byte of -2 at `=`.
unfoldable pub base64_decode_table : ℕ → Option ℕ
base64_decode_table c =
    if leb b'A' c && leb c b'Z'
    then some (c - b'A')
    else if leb b'a' c && leb c b'z'
    then some (c - b'a' + 26)
    else if leb b'0' c && leb c b'9'
    then some (c - b'0' + 52)
    else if c == b'+'
    then some 62
    else if c == b'/'
    then some 63
    else if c == b'='
    then some 254
    else none

-- `array4` from `array3`: `(a & 0xfc) >> 2` of a byte is `a / 4`, and so on.
abbrev pub sextet0 : ℕ → ℕ
sextet0 a = a / 4

abbrev pub sextet1 : ℕ → ℕ → ℕ
sextet1 a b = a % 4 * 16 + b / 16

abbrev pub sextet2 : ℕ → ℕ → ℕ
sextet2 b c = b % 16 * 4 + c / 64

abbrev pub sextet3 : ℕ → ℕ
sextet3 c = c % 64

-- The bytes of `array3` that are filled, the first `i`.
pub data Pending : Type 0 where
  p0 : Pending
  p1 : ℕ → Pending
  p2 : ℕ → ℕ → Pending

abbrev pub store3 : Pending → ℕ → Pending
store3 p0 x = p1 x
store3 (p1 a) x = p2 a x
store3 (p2 a b) x = p0

-- What one round of the loop appends: four characters when `array3` is full.
abbrev pub emit3 : Pending → ℕ → Bytes
emit3 p0 x = []
emit3 (p1 a) x = []
emit3 (p2 a b) x =
    base64_char (sextet0 a)
    ∷ base64_char (sextet1 a b)
    ∷ base64_char (sextet2 b x)
    ∷ base64_char (sextet3 x)
    ∷ []

-- The code behind the loop: `i + 1` characters and `3 - i` times `=`.
abbrev pub flush3 : Pending → Bytes
flush3 p0 = []
flush3 (p1 a) = base64_char (sextet0 a) ∷ base64_char (sextet1 a 0) ∷ b'=' ∷ b'=' ∷ []
flush3 (p2 a b) =
    base64_char (sextet0 a) ∷ base64_char (sextet1 a b) ∷ base64_char (sextet2 b 0) ∷ b'=' ∷ []

unfoldable pub encode_loop : Bytes → Pending → Bytes → Bytes
encode_loop [] p out = out ++ flush3 p
encode_loop (x ∷ data_rest) p out = encode_loop data_rest (store3 p x) (out ++ emit3 p x)

-- `knishio_base64_encode` of data that is not NULL.
unfoldable pub encode : Bytes → Bytes
encode bytes = encode_loop bytes p0 []

-- The filled part of `array4`, the first `k` values.
pub data Quad : Type 0 where
  q0 : Quad
  q1 : ℕ → Quad
  q2 : ℕ → ℕ → Quad
  q3 : ℕ → ℕ → ℕ → Quad

-- `array3` from `array4`, cut to a byte.
abbrev pub octet0 : ℕ → ℕ → ℕ
octet0 x y = (x * 4 + y / 16 % 4) % 256

abbrev pub octet1 : ℕ → ℕ → ℕ
octet1 y z = (y % 16 * 16 + z / 4 % 16) % 256

abbrev pub octet2 : ℕ → ℕ → ℕ
octet2 z w = (z % 4 * 64 + w) % 256

-- `if (j < output_len) output[j++] = b`
abbrev pub put : ℕ → Bytes → ℕ → Bytes
put output_len out b = if ltb (length out) output_len then out ++ b ∷ [] else out

abbrev pub store4 : Quad → ℕ → Quad
store4 q0 v = q1 v
store4 (q1 x) v = q2 x v
store4 (q2 x y) v = q3 x y v
store4 (q3 x y z) v = q0

abbrev pub emit4 : ℕ → Quad → ℕ → Bytes → Bytes
emit4 n q0 v out = out
emit4 n (q1 x) v out = out
emit4 n (q2 x y) v out = out
emit4 n (q3 x y z) v out = put n (put n (put n out (octet0 x y)) (octet1 y z)) (octet2 z v)

-- The code behind the loop: `k - 1` bytes, the missing values read as 0.
abbrev pub flush4 : ℕ → Quad → Bytes → Bytes
flush4 n q0 out = out
flush4 n (q1 x) out = out
flush4 n (q2 x y) out = put n out (octet0 x y)
flush4 n (q3 x y z) out = put n (put n out (octet0 x y)) (octet1 y z)

-- The loop ends at the end of the text or at the first `=`.
unfoldable pub decode_loop : Bytes → ℕ → Quad → Bytes → Option Bytes
decode_loop [] n q out = some (flush4 n q out)
decode_loop (c ∷ rest) n q out = elim (c == b'=') [
  | true ↦ some (flush4 n q out)
  | false ↦ elim (base64_decode_table c) [
    | none ↦ none
    | some v ↦ decode_loop rest n (store4 q v) (emit4 n q v out)
  ]
]

-- 1 where character `i` is `=`.
abbrev pub pad_at : Bytes → ℕ → ℕ
pad_at text i = if get_or text i 0 == b'=' then 1 else 0

unfoldable pub output_length : Bytes → ℕ
output_length text = let n = length text in n / 4 * 3 - pad_at text (n - 1) - pad_at text (n - 2)

-- `knishio_base64_decode`
unfoldable pub decode : Bytes → Option Bytes
decode text =
    if length text == 0 || not (length text % 4 == 0)
    then none
    else decode_loop text (output_length text) q0 []

-- `knishio_hex_to_base64`. The buffer of `bin_len` bytes is refused when `bin_len` is 0.
unfoldable pub hex_to_base64 : Bytes → Option Bytes
hex_to_base64 hex =
    if not (length hex % 2 == 0)
    then none
    else if length hex / 2 == 0
    then none
    else hex_pairs hex >>= λ bytes. some (encode bytes)

-- `knishio_base64_to_hex`
unfoldable pub base64_to_hex : Bytes → Option Bytes
base64_to_hex text = decode text >>= λ bytes. some (binary_to_hex bytes)
