-- ===== src/Tests/Encodings.antt =====
-- The theorems on texts and encodings at concrete inputs.
use knish_io_client_c.Base17.Value.{Converted, hex_to_base17-Converted}
use knish_io_client_c.Base64.{encode, decode, hex_to_base64, base64_to_hex}
use knish_io_client_c.Base64.RoundTrip.{decode-encode, base64_to_hex-hex_to_base64}
use knish_io_client_c.Hex.{binary_to_hex}
use knish_io_client_c.Hex.Laws.{binary_to_hex-IsLowerHex, length-binary_to_hex}
use knish_io_client_c.Isotope.{
  isotope_v, isotope_unknown, isotope_to_string, isotope_from_string,
  isotope_from_string-isotope_to_string,
}
use knish_io_client_c.Tests.Samples.{bytes_255}
use knish_io_client_c.Prelude.{
  ℕ, ◌*◌, ◌≡◌, ◌≢◌, refl, ◌∙◌, ap, some, Bytes, codes, length, replicate, arith, length-replicate,
}

decode-encode_example : decode (encode (codes "Man!")) ≡ some (codes "Man!")
decode-encode_example =
    decode-encode b'M' (codes "an!") (omega arith, (omega arith, (omega arith, (omega arith, tt))))

base64_to_hex-hex_to_base64_example :
    (text : Bytes) × (hex_to_base64 (codes "00ff") ≡ some text)
    × (base64_to_hex text ≡ some (codes "00ff"))
    × (length text ≡ 4)
base64_to_hex-hex_to_base64_example =
    base64_to_hex-hex_to_base64 (codes "00ff") (refl, (refl, (refl, (refl, tt)))) refl (omega arith)

abbrev largest : Bytes
largest = binary_to_hex (replicate 32 255)

hex_to_base17-Converted_example : Converted largest
hex_to_base17-Converted_example =
    hex_to_base17-Converted largest (binary_to_hex-IsLowerHex (replicate 32 255) (bytes_255 32))
      (length-binary_to_hex (replicate 32 255) ∙ ap (λ n. 2 * n) (length-replicate {A = ℕ} 32 255))

isotope_from_string-isotope_to_string_example :
    (isotope_from_string (isotope_to_string isotope_v) ≡ isotope_v)
    × (isotope_v ≢ isotope_unknown
        → isotope_from_string (some (codes "V")) ≡ isotope_v
        → isotope_to_string isotope_v ≡ some (codes "V"))
isotope_from_string-isotope_to_string_example =
    isotope_from_string-isotope_to_string isotope_v (some (codes "V"))
