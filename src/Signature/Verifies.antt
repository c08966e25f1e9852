-- ===== src/Signature/Verifies.antt =====
-- That a signature of `knishio_molecule_sign` (src/molecule.c) passes `check_ots`
-- (src/libraries/check_molecule.c).
use knish_io_client_c.Check.{
  fragments, signature_hex, verify_loop, recovered_address, claims_address, check_chains, check_ots,
}
use knish_io_client_c.Check.Ends.{check_ots_signable}
use knish_io_client_c.Errors.{success}
use knish_io_client_c.Hex.{IsLowerHex}
use knish_io_client_c.Molecule.{Atom, Molecule, atom_count}
use knish_io_client_c.MolecularHash.{hash_is_signable}
use knish_io_client_c.MolecularHash.Normalize.{InRange}
use knish_io_client_c.MolecularHash.Steps.{signable-StepCounts}
use knish_io_client_c.Ots.{generate_wallet_key, generate_address}
use knish_io_client_c.Ots.Chains.{IsKeyLength, chunk_string-key}
use knish_io_client_c.Ots.Keys.{AddsHex, IsOtsVersion, key_length, generate_wallet_key_total}
use knish_io_client_c.Signature.{
  sign_loop, distribute, chunk_size, final_signature, attach, sign_with_key, sign_hashed,
  signing_ots_version,
}
use knish_io_client_c.Signature.Chains.{signed_segments, sign_loop-segments}
use knish_io_client_c.Signature.Fragments.{Unsigned, fragments-distribute}
use knish_io_client_c.Signature.Rehash.{bare, bare-distribute}
use knish_io_client_c.Signature.Segments.{
  segments_of, segments_verify, signature_joined, signature_decodes, chunks_cover,
  claims_address-distribute, segments_counted,
}
use knish_io_client_c.Prelude.{
  ℕ, ◌*◌, ◌/◌, ◌<◌, ◌≡◌, refl, ap, ◌∙◌, sym, Bool, true, Option, some, ◌>>=◌, List, [], ◌∷◌, Bytes,
  str_eq_refl, length, drop, concat, map, All, arith, inl, inr, ℤ,
}

-- `check_chains` on a signature that decodes and whose chains end at the claimed address.
chains_accepted :
    (atoms : List Atom) (ns : List ℤ) (text hex address : Bytes)
    → fragments atoms ≡ text
    → signature_hex text ≡ some hex
    → (verify_loop (length hex / 128) 0 hex ns >>= recovered_address) ≡ some address
    → claims_address atoms address ≡ true
    → check_chains atoms ns ≡ success
unfolding check_chains
chains_accepted atoms ns text hex address f d v c = rw (check_chains, f, d, v, c) refl

handed_out :
    (m : Molecule) (compressed : Bool) (chunks : List Bytes) (ns : List ℤ) (joined text : Bytes)
    → sign_loop chunks ns ≡ some joined
    → final_signature compressed joined ≡ some text
    → attach m compressed chunks ns ≡ (
      record m {
        atoms = distribute 0 (chunk_size (length text) (atom_count m)) text m.atoms;
        is_signed = true;
      },
      success,
    )
unfolding attach
handed_out m compressed chunks ns joined text s f = rw (attach, s, f) refl

some_atom :
    (atoms : List Atom) (address : Bytes) → claims_address atoms address ≡ true → 0 < length atoms
unfolding claims_address
some_atom [] address h = absurd (cc h)
some_atom (a ∷ atoms) address h = omega arith

module _ (key : Bytes) (ns : List ℤ) (len : IsKeyLength (length key)) (hex : All IsLowerHex key)
    (range : All InRange ns) (full : length ns ≡ 64) where
  attach_verifies :
      (m : Molecule) (address : Bytes) (compressed : Bool)
      → Unsigned m.atoms
      → claims_address m.atoms address ≡ true
      → generate_address key ≡ some address
      → (atoms : List Atom) × (attach m compressed (segments_of key) ns
          ≡ (record m { atoms = atoms; is_signed = true }, success))
        × (map bare atoms ≡ map bare m.atoms)
        × (check_chains atoms ns ≡ success)
  attach_verifies m address compressed unsigned claimed owns =
      let (size, lower) = signature_joined key ns len hex range full in
      let joined = concat (signed_segments (segments_of key) ns) in
      let (text, f, d) = signature_decodes compressed joined lower (rw size len) in
      let place = chunk_size (length text) (atom_count m) in
      let cover = chunks_cover (length text) (atom_count m) (some_atom m.atoms address claimed) in
      let start : 0 * place ≡ 0 = omega arith in
      let whole =
        fragments-distribute 0 place text m.atoms unsigned cover ∙ ap (λ k. drop k text) start in
      (
        distribute 0 place text m.atoms,
        handed_out m compressed (segments_of key) ns joined text
            (sign_loop-segments (segments_of key) ns) f,
        bare-distribute 0 place text m.atoms,
        chains_accepted (distribute 0 place text m.atoms) ns text joined address whole d
            (segments_verify key ns len hex range full ∙ owns)
            (claims_address-distribute place text m.atoms address ∙ claimed),
      )

key_signs :
    (m : Molecule) (compressed : Bool) (hash key : Bytes) (s : hash_is_signable (some hash) ≡ true)
    → IsKeyLength (length key)
    → sign_with_key m compressed (some hash) key
      ≡ some (attach m compressed (segments_of key) (signable-StepCounts hash s).normalized)
unfolding sign_with_key
key_signs m compressed hash key s len =
    let c = signable-StepCounts hash s in
    rw
      (
        sign_with_key,
        chunk_string-key key len,
        segments_counted key len,
        c.enumerates,
        c.normalizes,
      )
      refl

reaches_key :
    (key_from_hex : Bytes → Bytes → Option Bytes) (m : Molecule) (secret : Bytes)
    (compressed : Bool) (hash : Bytes) (first : Atom) (rest : List Atom) (position key : Bytes)
    → m.molecular_hash ≡ some hash
    → hash_is_signable (some hash) ≡ true
    → m.atoms ≡ first ∷ rest
    → first.position ≡ some position
    → generate_wallet_key key_from_hex secret first.token position (signing_ots_version m)
      ≡ some key
    → sign_hashed key_from_hex m secret compressed ≡ sign_with_key m compressed (some hash) key
unfolding sign_hashed
reaches_key key_from_hex m secret compressed hash first rest position key h s atoms p g =
    simp (h, s, atoms, p, g)

version_length : (v : ℕ) → IsOtsVersion v → IsKeyLength (key_length v)
version_length v (inl h) = rw h (inl refl)
version_length v (inr h) = rw h (inr refl)

first_claims :
    (atoms : List Atom) (first : Atom) (rest : List Atom) (address : Bytes)
    → atoms ≡ first ∷ rest
    → first.wallet_address ≡ some address
    → claims_address atoms address ≡ true
unfolding claims_address
first_claims atoms first rest address e c = rw (e, claims_address, c) (str_eq_refl address)

-- From a molecule with a hash on: the signed molecule has that hash and, but for the fragments, the
-- same atoms, and its signature is accepted.
pub sign_hashed-check_ots :
    (key_from_hex : Bytes → Bytes → Option Bytes) (m : Molecule) (secret : Bytes)
    (compressed : Bool) (hash : Bytes) (first : Atom) (rest : List Atom) (position address : Bytes)
    → AddsHex key_from_hex
    → IsOtsVersion (signing_ots_version m)
    → 0 < length secret
    → 0 < length position
    → m.molecular_hash ≡ some hash
    → hash_is_signable (some hash) ≡ true
    → m.atoms ≡ first ∷ rest
    → Unsigned m.atoms
    → first.position ≡ some position
    → (generate_wallet_key key_from_hex secret first.token position (signing_ots_version m)
        >>= generate_address)
      ≡ some address
    → first.wallet_address ≡ some address
    → (signed : Molecule) × (sign_hashed key_from_hex m secret compressed ≡ some (signed, success))
      × (signed.molecular_hash ≡ some hash)
      × (map bare signed.atoms ≡ map bare m.atoms)
      × (check_ots signed ≡ some success)
sign_hashed-check_ots key_from_hex m secret compressed hash first rest position address adds version
      sl pl h s atoms unsigned p owns claims =
    let v = signing_ots_version m in
    let (key, g, size, lower) =
      generate_wallet_key_total key_from_hex secret first.token position v adds version sl pl in
    let len : IsKeyLength (length key) = rw size (version_length v version) in
    let c = signable-StepCounts hash s in
    let own : generate_address key ≡ some address =
      sym (ap (λ k. k >>= generate_address) g) ∙ owns in
    let (done, attached, alike, accepted) =
      attach_verifies key c.normalized len lower c.in_range c.full m address compressed unsigned
        (first_claims m.atoms first rest address atoms claims) own in
    let signed = record m { atoms = done; is_signed = true } in
    (
      signed,
      reaches_key key_from_hex m secret compressed hash first rest position key h s atoms p g
          ∙ key_signs m compressed hash key s len
          ∙ ap some attached,
      h,
      alike,
      check_ots_signable signed hash h s ∙ ap some accepted,
    )
