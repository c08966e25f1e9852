-- ===== src/Hex/Laws.antt =====
-- Printing bytes as hexadecimal text and reading it back (src/libraries/base64.c).
use knish_io_client_c.Hex.{
  hex_digit, hex_char, strtol_hex2, checked_byte, print_hex2, binary_to_hex, hex_pairs, IsByte,
  IsLowerHex,
}
use knish_io_client_c.Prelude.{
  ℕ, ◌+◌, ◌-◌, ◌*◌, ◌/◌, ◌%◌, ◌<◌, ◌≡◌, refl, ap, ◌∙◌, true, some, [], ◌∷◌, arith, leb,
  if◌then◌else◌, ◌>>=◌, pos, Bytes, All, length,
}

hex_digit-hex_char : (v : ℕ) → v < 16 → hex_digit (hex_char v) ≡ some v
unfolding hex_digit hex_char
hex_digit-hex_char v h = ground arith

-- A lower-case digit is the character of its value.
pub hex_digit_lower :
    (c : ℕ) → IsLowerHex c → (v : ℕ) × (hex_digit c ≡ some v) × (v < 16) × (hex_char v ≡ c)
unfolding hex_digit hex_char
hex_digit_lower c h =
    ((if leb c b'9' then c - b'0' else c - b'a' + 10), ground arith, ground arith, ground arith)

hex_char-IsLowerHex : (v : ℕ) → v < 16 → IsLowerHex (hex_char v)
unfolding hex_char
hex_char-IsLowerHex v h = ground arith

pub binary_to_hex-IsLowerHex : (bs : Bytes) → All IsByte bs → All IsLowerHex (binary_to_hex bs)
unfolding binary_to_hex print_hex2
binary_to_hex-IsLowerHex [] h = tt
binary_to_hex-IsLowerHex (b ∷ bs) h = (
  hex_char-IsLowerHex (b / 16) (omega (arith, h.0)),
  (hex_char-IsLowerHex (b % 16) (omega arith), binary_to_hex-IsLowerHex bs h.1),
)

pub length-binary_to_hex : (bs : Bytes) → length (binary_to_hex bs) ≡ 2 * length bs
unfolding binary_to_hex print_hex2
length-binary_to_hex [] = omega arith
length-binary_to_hex (b ∷ bs) = omega (arith, length-binary_to_hex bs)

pub strtol_digits :
    (c d v w : ℕ)
    → hex_digit c ≡ some v
    → hex_digit d ≡ some w
    → strtol_hex2 c d ≡ (pos (v * 16 + w), true)
unfolding strtol_hex2
strtol_digits c d v w hc hd = rw (hc, strtol_hex2) (rw (hd, strtol_hex2))

byte_of_digits :
    (c d v w : ℕ)
    → hex_digit c ≡ some v
    → hex_digit d ≡ some w
    → v < 16
    → w < 16
    → checked_byte (strtol_hex2 c d) ≡ some (v * 16 + w)
unfolding checked_byte
byte_of_digits c d v w hc hd hv hw = rw (strtol_digits c d v w hc hd) (ground arith)

pub hex_pairs-cons :
    (c d b : ℕ) (rest bs : Bytes)
    → checked_byte (strtol_hex2 c d) ≡ some b
    → hex_pairs rest ≡ some bs
    → hex_pairs (c ∷ d ∷ rest) ≡ some (b ∷ bs)
unfolding hex_pairs
hex_pairs-cons c d b rest bs e f = rw (e, ◌>>=◌) (rw (f, ◌>>=◌))

-- Reading back what was printed gives the bytes.
pub hex_pairs-binary_to_hex : (bs : Bytes) → All IsByte bs → hex_pairs (binary_to_hex bs) ≡ some bs
unfolding binary_to_hex print_hex2
hex_pairs-binary_to_hex [] h = unfold hex_pairs in refl
hex_pairs-binary_to_hex (b ∷ bs) h =
    let q : b / 16 < 16 = omega (arith, h.0) in
    let r : b % 16 < 16 = omega arith in
    let e : b / 16 * 16 + b % 16 ≡ b = omega arith in
    hex_pairs-cons _ _ b _ bs
      (byte_of_digits _ _ _ _ (hex_digit-hex_char _ q) (hex_digit-hex_char _ r) q r ∙ ap some e)
      (hex_pairs-binary_to_hex bs h.1)

-- What lower-case hexadecimal text of even length decodes to, and that it prints as before.
pub record Decoded (s : Bytes) : Type 0 where
  pub bytes : Bytes
  pub reads : hex_pairs s ≡ some bytes
  pub prints : binary_to_hex bytes ≡ s
  pub in_range : All IsByte bytes
  pub half : length s ≡ 2 * length bytes

pub hex_pairs_total : (s : Bytes) → All IsLowerHex s → length s % 2 ≡ 0 → Decoded s
unfolding binary_to_hex print_hex2
hex_pairs_total [] h even = record {
  bytes = [];
  reads = unfold hex_pairs in refl;
  prints = refl;
  in_range = tt;
  half = refl;
}
hex_pairs_total (c ∷ []) h even = absurd (omega arith)
hex_pairs_total (c ∷ d ∷ rest) (hc, (hd, hr)) even =
    let (v, dv, v16, cv) = hex_digit_lower c hc in
    let (w, dw, w16, dw') = hex_digit_lower d hd in
    let t = hex_pairs_total rest hr (omega arith) in
    let q : (v * 16 + w) / 16 ≡ v = omega arith in
    let r : (v * 16 + w) % 16 ≡ w = omega arith in
    record {
      bytes = (v * 16 + w) ∷ t.bytes;
      reads = hex_pairs-cons c d _ rest t.bytes (byte_of_digits c d v w dv dw v16 w16) t.reads;
      prints = rw (q, r, cv, dw', t.prints);
      in_range = (omega arith, t.in_range);
      half = omega (arith, t.half);
    }
