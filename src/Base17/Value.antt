-- ===== src/Base17/Value.antt =====
-- The base-17 text of a digest has the digest's value, and can be signed (src/molecule.c).
use knish_io_client_c.Base17.{read_num, pad_left, hex_to_base17, to_byte}
use knish_io_client_c.Base17.Division.{value256, value17, value256-lt, divide_loop-Written}
use knish_io_client_c.Hex.{hex_digit, strtol_hex2, IsByte, IsLowerHex}
use knish_io_client_c.Hex.Laws.{hex_digit_lower, strtol_digits}
use knish_io_client_c.MolecularHash.{hash_is_signable}
use knish_io_client_c.MolecularHash.Enumerate.{hash_is_signable_iff}
use knish_io_client_c.Prelude.{
  ℕ, ◌+◌, ◌*◌, ◌%◌, ◌^◌, ◌<◌, ◌≡◌, refl, ◌∙◌, true, none, some, [], ◌∷◌, ◌==◌, Bytes, length, All,
  arith,
}

pub hex_value : ℕ → ℕ
hex_value c = elim (hex_digit c) [ none ↦ 0 | some v ↦ v ]

hex_value-digit : (c v : ℕ) → hex_digit c ≡ some v → hex_value c ≡ v
unfolding hex_value
hex_value-digit c v h = rw (h, hex_value)

-- The value of hexadecimal text, read behind the value `acc` of what stands before.
abbrev pub value16 : ℕ → Bytes → ℕ
value16 acc [] = acc
value16 acc (c ∷ text) = value16 (acc * 16 + hex_value c) text

record Read (acc : ℕ) (hex : Bytes) : Type 0 where
  value : value256 acc (read_num hex) ≡ value16 acc hex
  in_range : All IsByte (read_num hex)
  half : 2 * length (read_num hex) ≡ length hex

bytes_of_hex : (acc : ℕ) (hex : Bytes) → All IsLowerHex hex → length hex % 2 ≡ 0 → Read acc hex
unfolding read_num
bytes_of_hex acc [] h even = record { value = refl; in_range = tt; half = refl }
bytes_of_hex acc (c ∷ []) h even = absurd (omega arith)
bytes_of_hex acc (c ∷ d ∷ rest) (hc, (hd, h)) even =
    let (v, ev, v16, _) = hex_digit_lower c hc in
    let (w, ew, w16, _) = hex_digit_lower d hd in
    let r = bytes_of_hex ((acc * 16 + v) * 16 + w) rest h (omega arith) in
    let two : to_byte (strtol_hex2 c d).0 ≡ v * 16 + w =
      rw (strtol_digits c d v w ev ew) (omega arith) in
    let e : acc * 256 + (v * 16 + w) ≡ (acc * 16 + v) * 16 + w = omega arith in
    record {
      value = rw (two, e, hex_value-digit c v ev, hex_value-digit d w ew) r.value;
      in_range = (omega (arith, two), r.in_range);
      half = omega (arith, r.half);
    }

-- What the conversion gives for 64 lower-case hexadecimal characters.
pub record Converted (hex : Bytes) : Type 0 where
  pub text : Bytes
  pub converts : hex_to_base17 hex ≡ some (some text)
  pub value : value17 0 text ≡ value16 0 hex
  pub signable : hash_is_signable (some text) ≡ true

-- Every digest of 64 lower-case hexadecimal characters is converted: the loop ends within its
-- 64 rounds, the text has the digest's value to the base 17, and it is a hash that can be signed.
pub hex_to_base17-Converted : (hex : Bytes) → All IsLowerHex hex → length hex ≡ 64 → Converted hex
unfolding hex_to_base17
hex_to_base17-Converted hex h l =
    let r = bytes_of_hex 0 hex h (omega arith) in
    let n : length (read_num hex) ≡ 32 = omega (arith, r.half) in
    let bound : value256 0 (read_num hex) < 17 ^ 63 =
      omega (arith, rw n at (value256-lt 0 1 (read_num hex) (omega arith) r.in_range)) in
    let w = divide_loop-Written (read_num hex) r.in_range bound in
    let t : (length hex == 64) ≡ true = ground arith in
    record {
      text = pad_left w.text;
      converts = rw (t, hex_to_base17) (rw (w.loop, hex_to_base17));
      value = w.value ∙ r.value;
      signable = (hash_is_signable_iff (pad_left w.text)).1 (w.base17, w.full);
    }
