-- ===== src/Tests/Keys.antt =====
-- The theorems on one-time keys at concrete inputs.
use knish_io_client_c.Hex.{IsLowerHex}
use knish_io_client_c.Ots.{generate_wallet_key, generate_address, privkey_length}
use knish_io_client_c.Ots.Chains.{
  link, address_of_ends, generate_address-ends, generate_address_total,
}
use knish_io_client_c.Ots.Keys.{
  AddsHex, IsOtsVersion, generate_wallet_key_total, generate_wallet_key_iff,
}
use knish_io_client_c.Prelude.{
  ℕ, ◌<◌, ◌≡◌, ◌≢◌, ◌↔◌, List, concat, refl, Option, none, some, Bytes, codes, length, All, inl,
  inr, arith, replicate, length-replicate, map, iterate,
}

-- A stand-in for the addition of hexadecimal texts.
abbrev first_text : Bytes → Bytes → Option Bytes
first_text a b = some a

first_text-AddsHex : AddsHex first_text
first_text-AddsHex a b h k = (a, refl)

generate_wallet_key_total_example :
    (key : Bytes) × (generate_wallet_key first_text (codes "ab") none (codes "01") 2 ≡ some key)
    × (length key ≡ 8192)
    × All IsLowerHex key
generate_wallet_key_total_example =
    generate_wallet_key_total first_text (codes "ab") none (codes "01") 2 first_text-AddsHex
      (inr refl) (omega arith) (omega arith)

generate_wallet_key_iff_example :
    (generate_wallet_key first_text (codes "ab") none (codes "01") 3 ≢ none)
    ↔ (IsOtsVersion 3 × (0 < length (codes "ab")) × (0 < length (codes "01")))
generate_wallet_key_iff_example =
    generate_wallet_key_iff first_text (codes "ab") none (codes "01") 3 first_text-AddsHex

abbrev sample_key : Bytes
sample_key = replicate 2048 b'a'

key_chars : length sample_key ≡ privkey_length
key_chars = length-replicate {A = ℕ} 2048 b'a'

-- A key of 16 equal segments.
abbrev sample_segment : Bytes
sample_segment = replicate 128 b'a'

abbrev sample_segments : List Bytes
sample_segments = replicate 16 sample_segment

all_128 : All (λ text. length text ≡ 128) sample_segments
all_128 =
    let l : length sample_segment ≡ 128 = refl in
    (l, (l, (l, (l, (l, (l, (l, (l, (l, (l, (l, (l, (l, (l, (l, (l, tt))))))))))))))))

generate_address-ends_example :
    generate_address (concat sample_segments)
    ≡ address_of_ends (map (iterate 16 link) sample_segments)
generate_address-ends_example = generate_address-ends sample_segments all_128 (inl refl)

generate_address_total_example :
    (address : Bytes) × (generate_address sample_key ≡ some address)
    × (length address ≡ 64)
    × All IsLowerHex address
generate_address_total_example = generate_address_total sample_key (inl key_chars)
