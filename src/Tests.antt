-- ===== src/Tests.antt =====
-- Runs of the definitions on concrete inputs.
mod Samples
mod Whole
mod Builders
mod Pipeline
mod Requests
mod Dates
mod Wallets
mod Signing
mod Encodings
mod Hashes
mod Keys
mod Molecules
use knish_io_client_c.Base64.{
  encode, encode_loop, decode, decode_loop, output_length, base64_char, base64_decode_table,
}
use knish_io_client_c.Hex.{binary_to_hex, print_hex2, hex_char}
use knish_io_client_c.Shake256.{
  shake256_hash, update, absorb, absorb_byte, absorb_block, final, padded, squeeze, shake_out,
}
use knish_io_client_c.Shake256.Keccak.{keccakf}
use knish_io_client_c.Prelude.{◌≡◌, refl, some, codes, [], ◌∷◌}

base64_sample :
    (encode (codes "Man!") ≡ codes "TWFuIQ==") × (decode (codes "TWFuIQ==") ≡ some (codes "Man!"))
unfolding encode encode_loop decode decode_loop output_length base64_char base64_decode_table
base64_sample = (refl, refl)

-- The test vectors of the SHAKE256 standard for the empty text and for "abc".
shake256_sample :
    (shake256_hash [] 64 ≡ some (codes "46b9dd2b0ba88d13"))
    × (shake256_hash (codes "abc") 64 ≡ some (codes "483366601360a877"))
unfolding shake256_hash update absorb absorb_byte absorb_block final padded squeeze shake_out
    keccakf binary_to_hex print_hex2 hex_char
shake256_sample = (refl, refl)
