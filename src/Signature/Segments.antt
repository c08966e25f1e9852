-- ===== src/Signature/Segments.antt =====
-- The segments of a key, and what the verifier makes of the signature that joins them.
use native.Mathlib.Nat.{lt-div-mul-add}
use knish_io_client_c.Base64.RoundTrip.{base64_to_hex-hex_to_base64}
use knish_io_client_c.Check.{signature_hex, verify_loop, recovered_address, claims_address}
use knish_io_client_c.Hex.{IsLowerHex}
use knish_io_client_c.Molecule.{Atom}
use knish_io_client_c.MolecularHash.Normalize.{InRange}
use knish_io_client_c.Ots.{chunk_loop, generate_address}
use knish_io_client_c.Ots.Chains.{address_of_ends, IsKeyLength, generate_address-chunks}
use knish_io_client_c.Signature.{distribute, chunk_size, final_signature}
use knish_io_client_c.Signature.Chains.{
  signed_segments, IsSegment, segments_joined, verify_loop-segments,
}
use knish_io_client_c.Prelude.{
  ℕ, zero, suc, ◌+◌, ◌-◌, ◌*◌, ◌/◌, ◌≤◌, ◌<◌, ◌≡◌, refl, ap, ◌∙◌, sym, ◌==◌, Bool, true, false, not,
  ◌&&◌, some, ◌>>=◌, List, [], ◌∷◌, Bytes, length, drop, concat, All, All-take, All-drop,
  length-take, length-drop, arith, inl, inr, Bool-cases, leb, ℤ,
}

-- The segments of a key.
length-chunk_loop : (n i : ℕ) (key : Bytes) (size : ℕ) → length (chunk_loop n i key size) ≡ n
unfolding chunk_loop
length-chunk_loop zero i key size = refl
length-chunk_loop (suc n) i key size = ap suc (length-chunk_loop n (i + 1) key size)

chunk_loop-IsSegment :
    (n i : ℕ) (key : Bytes)
    → All IsLowerHex key
    → (i + n) * 128 ≤ length key
    → All IsSegment (chunk_loop n i key 128)
unfolding chunk_loop
chunk_loop-IsSegment zero i key h l = tt
chunk_loop-IsSegment (suc n) i key h l =
    let tail = drop (i * 128) key in
    (
      (
        omega (arith, length-take 128 tail, length-drop (i * 128) key),
        All-take IsLowerHex 128 tail (All-drop IsLowerHex (i * 128) key h),
      ),
      chunk_loop-IsSegment n (i + 1) key h (omega arith),
    )

-- The final signature decodes to the segments joined.
pub signature_decodes :
    (compressed : Bool) (hex : Bytes)
    → All IsLowerHex hex
    → IsKeyLength (length hex)
    → (text : Bytes) × (final_signature compressed hex ≡ some text)
      × (signature_hex text ≡ some hex)
unfolding final_signature signature_hex
signature_decodes false hex h (inl l) = (hex, refl, rw l refl)
signature_decodes false hex h (inr l) = (hex, refl, rw l refl)
signature_decodes true hex h (inl l) =
    let (text, e, d, n) = base64_to_hex-hex_to_base64 hex h (rw l refl) (omega arith) in
    let k : length text ≡ 1368 = n ∙ rw l refl in (text, e, rw (k, d, l) refl)
signature_decodes true hex h (inr l) =
    let (text, e, d, n) = base64_to_hex-hex_to_base64 hex h (rw l refl) (omega arith) in
    let k : length text ≡ 5464 = n ∙ rw l refl in (text, e, rw (k, d, l) refl)

-- Ceiling division: the places of the atoms cover the signature.
pub chunks_cover : (n count : ℕ) → 0 < count → n ≤ (0 + count) * chunk_size n count
chunks_cover n count h =
    let bound = lt-div-mul-add {a = n + count - 1} {b = count} h in omega (arith, bound)

pub claims_address-distribute :
    (size : ℕ) (signature : Bytes) (atoms : List Atom) (address : Bytes)
    → claims_address (distribute 0 size signature atoms) address ≡ claims_address atoms address
unfolding distribute claims_address
claims_address-distribute size signature [] address = refl
claims_address-distribute size signature (a ∷ atoms) address =
    elim (Bool-cases (leb (length signature) (0 * size))) [
      | inl e ↦ rw (distribute, e) refl
      | inr e ↦ rw (distribute, e) refl
    ]

key_segments :
    (key : Bytes)
    → IsKeyLength (length key)
    → ((0 + length key / 128) * 128 ≡ length key) × (length key / 128 ≤ 64)
key_segments key (inl l) = rw l (refl, omega arith)
key_segments key (inr l) = rw l (refl, omega arith)

abbrev pub segments_of : Bytes → List Bytes
segments_of key = chunk_loop (length key / 128) 0 key 128

module _ (key : Bytes) (ns : List ℤ) (len : IsKeyLength (length key)) (hex : All IsLowerHex key)
    (range : All InRange ns) (full : length ns ≡ 64) where
  key_chunks : All IsSegment (segments_of key) × (length (segments_of key) ≤ length ns)
  key_chunks =
      let (whole, few) = key_segments key len in
      (
        chunk_loop-IsSegment (length key / 128) 0 key hex (omega (arith, whole)),
        omega (arith, length-chunk_loop (length key / 128) 0 key 128, full, few),
      )

  pub signature_joined :
      (length (concat (signed_segments (segments_of key) ns)) ≡ length key)
      × All IsLowerHex (concat (signed_segments (segments_of key) ns))
  signature_joined =
      let (segments, enough) = key_chunks in
      let (size, lower) = segments_joined (segments_of key) ns segments enough in
      let (whole, few) = key_segments key len in
      (omega (arith, size, whole, length-chunk_loop (length key / 128) 0 key 128), lower)

  -- The verifier ends the chains of the signature at those of the key.
  pub segments_verify :
      (verify_loop
          (length (concat (signed_segments (segments_of key) ns)) / 128)
          0
          (concat (signed_segments (segments_of key) ns))
          ns
        >>= recovered_address)
      ≡ generate_address key
  unfolding recovered_address address_of_ends
  segments_verify =
      let (segments, enough) = key_chunks in
      let cs = segments_of key in
      let count : length (concat (signed_segments cs ns)) / 128 ≡ length cs =
        ap (λ n. n / 128) signature_joined.0
        ∙ sym (length-chunk_loop (length key / 128) 0 key 128) in
      let loop = verify_loop-segments [] 0 cs ns ns refl refl segments range enough in
      rw (count, loop) (sym (generate_address-chunks key len))

-- The signer's test of the number of segments passes.
pub segments_counted :
    (key : Bytes)
    → IsKeyLength (length key)
    → (not (length (segments_of key) == 16) && not (length (segments_of key) == 64)) ≡ false
segments_counted key (inl l) =
    let n = length-chunk_loop (length key / 128) 0 key 128 in rw (n, l) refl
segments_counted key (inr l) =
    let n = length-chunk_loop (length key / 128) 0 key 128 in rw (n, l) refl
