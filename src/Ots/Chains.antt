-- ===== src/Ots/Chains.antt =====
-- Chains of hashes as iterations of one function, and the address of a key.
use knish_io_client_c.Hex.{binary_to_hex, IsLowerHex}
use knish_io_client_c.Hex.Laws.{binary_to_hex-IsLowerHex, length-binary_to_hex}
use knish_io_client_c.Ots.{
  privkey_length, privkey_length_v2, chunk_loop, chunk_string, hash_text, address_chain,
  address_loop, generate_address,
}
use knish_io_client_c.Shake256.{shake256_hash}
use knish_io_client_c.Shake256.Stream.{
  digest, digest-IsByte, length-digest, shake256_hash-digest, shake256_hash_text,
  squeeze-update_all,
}
use knish_io_client_c.Prelude.{
  ℕ, zero, suc, ◌+◌, ◌*◌, ◌/◌, ◌≡◌, refl, ap, sym, ◌∙◌, ◌++◌, take, drop, length-append,
  append_assoc, take_append_length, drop_append_length, ◌==◌, false, ◌&&◌, not, Option, some, List,
  [], ◌∷◌, ◌>>=◌, Bytes, length, iterate, concat, map, All, arith, append-nil, ◌⊎◌, inl, inr,
}

-- One link of a chain: 512 bits of SHAKE256, as hexadecimal text.
unfoldable pub link : Bytes → Bytes
link text = binary_to_hex (digest text 64)

pub length-link : (text : Bytes) → length (link text) ≡ 128
unfolding link
length-link text = omega (arith, length-binary_to_hex (digest text 64), length-digest text 64)

pub link-IsLowerHex : (text : Bytes) → All IsLowerHex (link text)
unfolding link
link-IsLowerHex text = binary_to_hex-IsLowerHex (digest text 64) (digest-IsByte text 64)

pub shake256_hash-link : (text : Bytes) → shake256_hash text 512 ≡ some (link text)
unfolding link
shake256_hash-link text = shake256_hash-digest text 512 (omega arith)

pub hash_text-concat :
    (pieces : List Bytes) (bits : ℕ) → hash_text pieces bits ≡ shake256_hash (concat pieces) bits
unfolding hash_text
hash_text-concat pieces bits = squeeze-update_all pieces bits

hash_text-link : (text : Bytes) → hash_text (text ∷ []) 512 ≡ some (link text)
hash_text-link text =
    hash_text-concat (text ∷ []) 512
    ∙ ap (λ t. shake256_hash t 512) (append-nil text)
    ∙ shake256_hash-link text

address_chain-iterate : (n : ℕ) (text : Bytes) → address_chain n text ≡ some (iterate n link text)
unfolding address_chain
address_chain-iterate zero text = refl
address_chain-iterate (suc n) text =
    rw (hash_text-link text, ◌>>=◌) (address_chain-iterate n (link text))

address_loop-map :
    (fragments : List Bytes) → address_loop fragments ≡ some (map (iterate 16 link) fragments)
unfolding address_loop
address_loop-map [] = refl
address_loop-map (text ∷ rest) =
    rw (address_chain-iterate 16 text, ◌>>=◌) (rw (address_loop-map rest, ◌>>=◌))

-- The address that the ends of the chains have.
unfoldable pub address_of_ends : List Bytes → Option Bytes
address_of_ends ends = do d ← shake256_hash (concat ends) 8192; shake256_hash d 256

abbrev pub IsKeyLength : ℕ → Type 0
IsKeyLength n = (n ≡ privkey_length) ⊎ (n ≡ privkey_length_v2)

-- A key has 16 or 64 chunks of 128 characters.
pub chunk_string-key :
    (key : Bytes)
    → IsKeyLength (length key)
    → chunk_string key 128 ≡ some (chunk_loop (length key / 128) 0 key 128)
unfolding chunk_string
chunk_string-key key (inl h) = rw h
chunk_string-key key (inr h) = rw h

key_accepted :
    (n : ℕ) → IsKeyLength n → (not (n == privkey_length) && not (n == privkey_length_v2)) ≡ false
key_accepted n (inl h) = rw h
key_accepted n (inr h) = rw h

ends_address :
    (ends : List Bytes)
    → (hash_text ends 8192 >>= λ d. hash_text (d ∷ []) 256) ≡ address_of_ends ends
unfolding address_of_ends
ends_address ends = simp (hash_text-concat, append-nil)

pub generate_address-chunks :
    (key : Bytes)
    → IsKeyLength (length key)
    → generate_address key
      ≡ address_of_ends (map (iterate 16 link) (chunk_loop (length key / 128) 0 key 128))
unfolding generate_address
generate_address-chunks key h =
    let chunks = chunk_loop (length key / 128) 0 key 128 in
    rw (key_accepted (length key) h) (
      rw (chunk_string-key key h, ◌>>=◌)
        (rw (address_loop-map chunks, ◌>>=◌) (ends_address (map (iterate 16 link) chunks))))

-- The chunks of segments that are joined are the segments.
chunk_loop-concat :
    (segments : List Bytes) (before : Bytes) (i : ℕ)
    → length before ≡ i * 128
    → All (λ text. length text ≡ 128) segments
    → chunk_loop (length segments) i (before ++ concat segments) 128 ≡ segments
unfolding chunk_loop
chunk_loop-concat [] before i b h = refl
chunk_loop-concat (x ∷ segments) before i b (l, h) =
    let rest = concat segments in
    let here : take 128 (drop (i * 128) (before ++ (x ++ rest))) ≡ x =
      rw (drop_append_length (i * 128) before (x ++ rest) b) (take_append_length 128 x rest l) in
    let there : chunk_loop (length segments) (i + 1) (before ++ (x ++ rest)) 128 ≡ segments =
      ap (λ t. chunk_loop (length segments) (i + 1) t 128) (sym (append_assoc before x rest))
      ∙ chunk_loop-concat segments (before ++ x) (i + 1) (omega (arith, length-append before x))
          h in
    rw (here, there) refl

length-concat :
    (segments : List Bytes)
    → All (λ text. length text ≡ 128) segments
    → length (concat segments) ≡ length segments * 128
length-concat [] h = omega arith
length-concat (x ∷ segments) (l, h) =
    omega (arith, length-concat segments h, length-append x (concat segments))

-- The address of a key that is 16 or 64 segments of 128 characters is the hash, to 256 bits, of the
-- hash, to 8192 bits, of the ends of its chains: the segments, each hashed 16 times.
pub generate_address-ends :
    (segments : List Bytes)
    → All (λ text. length text ≡ 128) segments
    → (length segments ≡ 16) ⊎ (length segments ≡ 64)
    → generate_address (concat segments) ≡ address_of_ends (map (iterate 16 link) segments)
generate_address-ends segments h n =
    let key = concat segments in
    let size = length-concat segments h in
    let of_key : IsKeyLength (length key) = elim n [
      | inl e ↦ inl (omega (arith, size, e))
      | inr e ↦ inr (omega (arith, size, e))
    ] in
    let count : length key / 128 ≡ length segments = omega (arith, size) in
    generate_address-chunks key of_key
    ∙ ap (λ k. address_of_ends (map (iterate 16 link) (chunk_loop k 0 key 128))) count
    ∙ ap (λ c. address_of_ends (map (iterate 16 link) c)) (chunk_loop-concat segments [] 0 refl h)

-- Every key of 2048 or 8192 characters has an address of 64 lower-case hexadecimal characters.
pub generate_address_total :
    (key : Bytes)
    → IsKeyLength (length key)
    → (address : Bytes) × (generate_address key ≡ some address)
      × (length address ≡ 64)
      × All IsLowerHex address
unfolding address_of_ends
generate_address_total key h =
    let ends = concat (map (iterate 16 link) (chunk_loop (length key / 128) 0 key 128)) in
    let (d, de, dl, dh) = shake256_hash_text ends 8192 (omega arith) in
    let (a, ae, al, ah) = shake256_hash_text d 256 (omega arith) in
    (a, generate_address-chunks key h ∙ rw (address_of_ends, de, ◌>>=◌) ae, al, ah)
