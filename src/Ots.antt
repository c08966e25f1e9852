-- ===== src/Ots.antt =====
-- One-time keys and addresses (src/wallet.c), without the kcore backend. Memory suffices.
-- `key_from_hex` is `knishio_wallet_key_from_hex`, an addition of the GMP library.
pub mod Chains
pub mod Keys
pub mod Version
use knish_io_client_c.Hex.{hex_digit}
use knish_io_client_c.Shake256.{init, final, squeeze_hex, shake256_hash}
use knish_io_client_c.Shake256.Stream.{update_all}
use knish_io_client_c.Prelude.{
  ℕ, zero, suc, ◌+◌, ◌-◌, ◌*◌, ◌/◌, ◌==◌, Bool, true, false, ◌&&◌, ◌||◌, not, Option, none, some,
  List, [], ◌∷◌, ◌++◌, if◌then◌else◌, ◌>>=◌, Bytes, codes, length, take, drop, leb, ltb,
}

-- `KNISHIO_PRIVKEY_LENGTH` and `KNISHIO_PRIVKEY_LENGTH_V2`
abbrev pub privkey_length : ℕ
privkey_length = 2048

abbrev pub privkey_length_v2 : ℕ
privkey_length_v2 = 8192

abbrev all_hex : Bytes → Bool
all_hex [] = true
all_hex (c ∷ s) = elim (hex_digit c) [ none ↦ false | some v ↦ all_hex s ]

-- `is_strict_hex`
unfoldable pub is_strict_hex : Bytes → Bool
is_strict_hex [] = false
is_strict_hex (c ∷ s) = all_hex (c ∷ s)

-- A hexadecimal text as it is, any other hashed to the width.
unfoldable pub stage0 : Bytes → ℕ → Option Bytes
stage0 text bits = if is_strict_hex text then some text else shake256_hash text bits

-- `snprintf` of the text that is hashed first.
unfoldable pub stage1 : ℕ → Bytes → Bytes → Bytes
stage1 ots_version indexed_key token =
    if ots_version == 2
    then codes "KnishIO-OTS-v2" ++ (b'|' ∷ (indexed_key ++ b'|' ∷ token))
    else indexed_key ++ token

-- `knishio_generate_wallet_key_with_ots_version`; a token that is NULL counts as empty.
unfoldable pub generate_wallet_key :
    (key_from_hex : Bytes → Bytes → Option Bytes) (secret : Bytes) (token : Option Bytes)
    (position : Bytes) (ots_version : ℕ)
    → Option Bytes
generate_wallet_key key_from_hex secret token position ots_version =
    if not (ots_version == 1) && not (ots_version == 2)
    then none
    else if length secret == 0 || length position == 0
    then none
    else do
      secret_hex ← stage0 secret 1024
      position_hex ← stage0 position 256
      indexed_key ← key_from_hex secret_hex position_hex
      intermediate ←
          shake256_hash (stage1 ots_version indexed_key (elim token [ none ↦ [] | some t ↦ t ]))
            8192
      shake256_hash intermediate (if ots_version == 2 then 32768 else 8192)

-- The loop of `knishio_chunk_string`: `n` chunks from chunk `i`.
unfoldable pub chunk_loop : ℕ → ℕ → Bytes → ℕ → List Bytes
chunk_loop zero i input size = []
chunk_loop (suc n) i input size =
    take size (drop (i * size) input) ∷ chunk_loop n (i + 1) input size

-- `knishio_chunk_string`; an array of no chunks is refused by the allocator.
unfoldable pub chunk_string : Bytes → ℕ → Option (List Bytes)
chunk_string input size =
    if size == 0
    then none
    else (let count = (length input + size - 1) / size in
        if count == 0 then none else some (chunk_loop count 0 input size))

-- One round of a chain: `init`, `update_string`, `final` and `squeeze_hex`.
unfoldable pub hash_text : List Bytes → ℕ → Option Bytes
hash_text pieces bits = update_all init pieces >>= final >>= λ c. squeeze_hex c bits

-- The rounds of `knishio_generate_address` over one fragment.
unfoldable pub address_chain : ℕ → Bytes → Option Bytes
address_chain zero fragment = some fragment
address_chain (suc n) fragment = do next ← hash_text (fragment ∷ []) 512; address_chain n next

-- The fragments that the digest absorbs.
unfoldable pub address_loop : List Bytes → Option (List Bytes)
address_loop [] = some []
address_loop (fragment ∷ rest) = do
  done ← address_chain 16 fragment
  others ← address_loop rest
  some (done ∷ others)

-- `knishio_generate_address`
unfoldable pub generate_address : Bytes → Option Bytes
generate_address private_key =
    let n = length private_key in
    if not (n == privkey_length) && not (n == privkey_length_v2) then none else do
      fragments ← chunk_string private_key 128
      done ← address_loop fragments
      digest ← hash_text done 8192
      hash_text (digest ∷ []) 256
