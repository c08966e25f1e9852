-- ===== src/Signature.antt =====
-- Signing a molecule (`knishio_molecule_sign` of src/molecule.c), without the kcore backend.
-- Memory suffices. The outer `Option` is `none` where a loop has not ended.
pub mod Accepted
pub mod Chains
pub mod Fragments
pub mod Rehash
pub mod Segments
pub mod Verifies
use knish_io_client_c.Base64.{hex_to_base64}
use knish_io_client_c.Errors.{
  ErrorCode, is_success, success, invalid_args, crypto, atoms_missing, signature_malformed, ok, err,
}
use knish_io_client_c.Hex.{binary_to_hex}
use knish_io_client_c.Molecule.{Atom, Molecule, atom_count}
use knish_io_client_c.Molecule.Hash.{Json, sort_atoms, generate_hash}
use knish_io_client_c.MolecularHash.{hash_is_signable, enumerate_hash, normalize_hash}
use knish_io_client_c.MolecularHash.Steps.{sign_steps}
use knish_io_client_c.Ots.{generate_wallet_key, chunk_string}
use knish_io_client_c.Shake256.{shake256_hash, shake256_hash_raw}
use knish_io_client_c.Validate.{validate_hex}
use knish_io_client_c.Prelude.{
  ℕ, zero, suc, ◌+◌, ◌-◌, ◌*◌, ◌/◌, ◌==◌, Bool, true, false, ◌&&◌, not, Option, none, some, List,
  [], ◌∷◌, ◌++◌, if◌then◌else◌, Bytes, length, take, drop, leb, ℤ,
}

-- `KNISHIO_SECRET_LENGTH`
abbrev pub secret_length : ℕ
secret_length = 2048

-- `knishio_generate_bundle_hash` with neither token nor position.
unfoldable pub generate_bundle_hash : Bytes → Option Bytes
generate_bundle_hash secret =
    if validate_hex (some secret) secret_length then shake256_hash secret 256 else none

-- The bundle of the molecule, which has the given one so far, before it is signed; `none` if it
-- cannot be derived.
unfoldable pub derive_bundle :
    Molecule → Bytes → Option Bytes → Bool → Option Bytes → Option Molecule
derive_bundle m secret bundle anonymous (some own) = some m
derive_bundle m secret bundle true none = some m
derive_bundle m secret (some given) false none = some (record m { bundle = some given })
derive_bundle m secret none false none = elim (generate_bundle_hash secret) [
  | none ↦ none
  | some b ↦ some (record m { bundle = some b })
]

-- `signing_ots_version`
unfoldable pub signing_ots_version : Molecule → ℕ
signing_ots_version m = elim m.source_wallet [
  | none ↦ 1
  | some w ↦ if w.ots_version == 0 then 1 else w.ots_version
]

-- The rounds over one chunk: 64 bytes, printed as hexadecimal text.
unfoldable pub sign_chain : ℕ → Bytes → Option Bytes
sign_chain zero chunk = some chunk
sign_chain (suc n) chunk = elim (shake256_hash_raw chunk 64) [
  | none ↦ none
  | some out ↦ sign_chain n (binary_to_hex out)
]

-- The loop over the chunks, while there are values too: the signature fragments.
unfoldable pub sign_loop : List Bytes → List ℤ → Option Bytes
sign_loop [] ns = some []
sign_loop (chunk ∷ chunks) [] = some []
sign_loop (chunk ∷ chunks) (n ∷ ns) = elim (sign_chain (sign_steps n) chunk) [
  | none ↦ none
  | some done ↦ elim (sign_loop chunks ns) [ none ↦ none | some rest ↦ some (done ++ rest) ]
]

-- The loop that hands out the signature: atom `i` gets the characters from `i * size`, and the
-- loop ends at the first atom that would get none.
unfoldable pub distribute : ℕ → ℕ → Bytes → List Atom → List Atom
distribute i size signature [] = []
distribute i size signature (a ∷ atoms) =
    if leb (length signature) (i * size)
    then a ∷ atoms
    else (record a { ots_fragment = some (take size (drop (i * size) signature)) }
        ∷ distribute (i + 1) size signature atoms)

-- Ceiling division.
abbrev pub chunk_size : ℕ → ℕ → ℕ
chunk_size signature_length count = (signature_length + count - 1) / count

-- `if (compressed)`
unfoldable pub final_signature : Bool → Bytes → Option Bytes
final_signature true fragments = hex_to_base64 fragments
final_signature false fragments = some fragments

-- From the chunks of the key and the values on: the molecule with its signature.
unfoldable pub attach : Molecule → Bool → List Bytes → List ℤ → Molecule × ErrorCode
attach m compressed chunks ns = elim (sign_loop chunks ns) [
  | none ↦ (m, crypto)
  | some fragments ↦ elim (final_signature compressed fragments) [
    | none ↦ (m, crypto)
    | some signature ↦ (
      record m {
        atoms = distribute 0 (chunk_size (length signature) (atom_count m)) signature m.atoms;
        is_signed = true;
      },
      success,
    )
  ]
]

-- From the private key on.
unfoldable pub sign_with_key :
    Molecule → Bool → Option Bytes → Bytes → Option (Molecule × ErrorCode)
sign_with_key m compressed hash key = elim (chunk_string key 128) [
  | none ↦ some (m, ErrorCode.memory)
  | some chunks ↦
      if not (length chunks == 16) && not (length chunks == 64)
      then some (m, crypto)
      else elim (enumerate_hash hash) [
        | err e ↦ some (m, e)
        | ok values ↦ elim (normalize_hash values) [
          | none ↦ none
          | some (err e) ↦ some (m, e)
          | some (ok ns) ↦ some (attach m compressed chunks ns)
        ]
      ]
]

-- From the molecular hash on; the first atom is the signing atom.
unfoldable pub sign_hashed :
    (key_from_hex : Bytes → Bytes → Option Bytes)
    → Molecule
    → Bytes
    → Bool
    → Option (Molecule × ErrorCode)
sign_hashed key_from_hex m secret compressed =
    if not (hash_is_signable m.molecular_hash)
    then some (m, signature_malformed)
    else elim m.atoms [
      | [] ↦ some (m, atoms_missing)
      | first ∷ rest ↦ elim first.position [
        | none ↦ some (m, invalid_args)
        | some position ↦
            elim (generate_wallet_key key_from_hex secret first.token position
              (signing_ots_version m)) [
                | none ↦ some (m, crypto)
                | some key ↦ sign_with_key m compressed m.molecular_hash key
              ]
      ]
    ]

module _ (print_unformatted : Json → Bytes) (key_from_hex : Bytes → Bytes → Option Bytes) where
  -- Behind `knishio_molecule_generate_hash`.
  unfoldable pub sign_generated :
      Bytes → Bool → Option (Molecule × ErrorCode) → Option (Molecule × ErrorCode)
  sign_generated secret compressed none = none
  sign_generated secret compressed (some (hashed, e)) =
      if is_success e then sign_hashed key_from_hex hashed secret compressed else some (hashed, e)

  -- Behind the bundle.
  unfoldable pub sign_derived :
      Molecule → Bytes → Bool → Option Molecule → Option (Molecule × ErrorCode)
  sign_derived sorted secret compressed none = some (sorted, crypto)
  sign_derived sorted secret compressed (some ready) =
      sign_generated secret compressed (generate_hash print_unformatted ready)

  -- With the secret of the molecule.
  unfoldable pub sign_with_secret :
      Molecule → Option Bytes → Bool → Bool → Option Bytes → Option (Molecule × ErrorCode)
  sign_with_secret m bundle anonymous compressed none = some (m, invalid_args)
  sign_with_secret m bundle anonymous compressed (some secret) =
      if atom_count m == 0
      then some (m, atoms_missing)
      else (let sorted = record m { atoms = sort_atoms m.atoms } in
          sign_derived sorted secret compressed
            (derive_bundle sorted secret bundle anonymous sorted.bundle))

  -- `knishio_molecule_sign`
  unfoldable pub sign :
      (m : Molecule) (bundle : Option Bytes) (anonymous compressed : Bool)
      → Option (Molecule × ErrorCode)
  sign m bundle anonymous compressed = sign_with_secret m bundle anonymous compressed m.secret
