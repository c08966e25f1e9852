-- ===== src/Check.antt =====
-- The verdict on a molecule (src/libraries/check_molecule.c): `check_molecular_hash`, `check_ots`
-- without the kcore backend, and `knishio_molecule_check`. Memory suffices. The outer `Option` is
-- `none` where a loop has not ended.
pub mod Accepts
pub mod Batches
pub mod Conserves
pub mod Ends
pub mod Lawful
pub mod Rehash
pub mod Rules
pub mod Value
use knish_io_client_c.Base64.{base64_to_hex}
use knish_io_client_c.Check.Rules.{
  check_batch_id, check_continuid, check_isotope_m, check_isotope_t, check_isotope_c,
  check_isotope_u, check_isotope_i, check_isotope_r, check_token_consistency,
}
use knish_io_client_c.Check.Value.{Floats, check_isotope_v}
use knish_io_client_c.Errors.{
  ErrorCode, is_success, success, invalid_state, crypto, atoms_missing, molecular_hash_missing,
  molecular_hash_mismatch, batch_id, meta_missing, transfer_mismatched, signature_malformed,
  signature_mismatch, ok, err,
}
use knish_io_client_c.Molecule.{Atom, Molecule, atom_count}
use knish_io_client_c.Molecule.Hash.{Json, generate_hash}
use knish_io_client_c.MolecularHash.{hash_is_signable, enumerate_hash, normalize_hash}
use knish_io_client_c.MolecularHash.Steps.{verify_steps}
use knish_io_client_c.Ots.{privkey_length, privkey_length_v2}
use knish_io_client_c.Shake256.{shake256_hash}
use knish_io_client_c.Prelude.{
  ℕ, zero, suc, ◌+◌, ◌*◌, ◌/◌, Bool, true, false, not, ◌&&◌, ◌||◌, Option, none, some, List, [],
  ◌∷◌, ◌++◌, Bytes, str_eq, if◌then◌else◌, length, take, drop, get_or, concat, ◌==◌, ℤ, pos, ◌>>=◌,
}

-- The comparison of the recomputed hash with the declared one.
unfoldable pub compare_hash : Bytes → Option (Molecule × ErrorCode) → Option Bool
compare_hash declared none = none
compare_hash declared (some (temp, e)) = some (
    if is_success e
    then elim temp.molecular_hash [ none ↦ false | some hash ↦ str_eq hash declared ]
    else false)

-- The declared hash has the right length, and there is something to hash.
unfoldable pub hash_test : (Json → Bytes) → Molecule → Option Bytes → Option Bool
hash_test print_unformatted m none = some false
hash_test print_unformatted m (some declared) =
    if not (length declared == 64) || atom_count m == 0
    then some false
    else compare_hash declared
        (generate_hash print_unformatted (record m { molecular_hash = none }))

-- `check_molecular_hash`
unfoldable pub check_molecular_hash : (print_unformatted : Json → Bytes) → Molecule → Option Bool
check_molecular_hash print_unformatted m = hash_test print_unformatted m m.molecular_hash

-- The fragments of the atoms; a missing one contributes nothing.
unfoldable pub fragments : List Atom → Bytes
fragments [] = []
fragments (a ∷ atoms) = elim a.ots_fragment [
  | none ↦ fragments atoms
  | some text ↦ text ++ fragments atoms
]

abbrev pub is_key_length : ℕ → Bool
is_key_length n = n == privkey_length || n == privkey_length_v2

-- The signature as hexadecimal text; `none` is a malformed one.
unfoldable pub signature_hex : Bytes → Option Bytes
signature_hex ots = if is_key_length (length ots) then some ots else elim (base64_to_hex ots) [
  | none ↦ none
  | some hex ↦ if is_key_length (length hex) then some hex else none
]

-- The rounds over one segment.
unfoldable pub verify_chain : ℕ → Bytes → Option Bytes
verify_chain zero chunk = some chunk
verify_chain (suc n) chunk = elim (shake256_hash chunk 512) [
  | none ↦ none
  | some next ↦ verify_chain n next
]

-- The loop over `n` segments from segment `i`.
unfoldable pub verify_loop : ℕ → ℕ → Bytes → List ℤ → Option Bytes
verify_loop zero i ots ns = some []
verify_loop (suc n) i ots ns =
    elim (verify_chain (verify_steps (get_or ns i (pos 0))) (take 128 (drop (i * 128) ots))) [
      | none ↦ none
      | some done ↦ elim (verify_loop n (i + 1) ots ns) [
        | none ↦ none
        | some rest ↦ some (done ++ rest)
      ]
    ]

-- The address that the ends of the chains resolve to.
unfoldable pub recovered_address : Bytes → Option Bytes
recovered_address key_fragments =
    shake256_hash key_fragments 8192 >>= λ digest. shake256_hash digest 256

-- Whether the signing atom claims the address.
unfoldable pub claims_address : List Atom → Bytes → Bool
claims_address [] address = false
claims_address (first ∷ rest) address = elim first.wallet_address [
  | none ↦ false
  | some claimed ↦ str_eq address claimed
]

-- From the normalized hash on.
unfoldable pub check_chains : List Atom → List ℤ → ErrorCode
check_chains atoms ns = elim (signature_hex (fragments atoms)) [
  | none ↦ signature_malformed
  | some ots ↦ elim (verify_loop (length ots / 128) 0 ots ns >>= recovered_address) [
    | none ↦ crypto
    | some address ↦ if claims_address atoms address then success else signature_mismatch
  ]
]

-- `check_ots`
unfoldable pub check_ots : Molecule → Option ErrorCode
check_ots m =
    if not (hash_is_signable m.molecular_hash)
    then some signature_malformed
    else elim (enumerate_hash m.molecular_hash) [
      | err e ↦ some e
      | ok values ↦ elim (normalize_hash values) [
        | none ↦ none
        | some (err e) ↦ some e
        | some (ok ns) ↦ some (check_chains m.atoms ns)
      ]
    ]

-- `knishio_molecule_check_ots`
unfoldable pub molecule_check_ots : Molecule → Option ErrorCode
molecule_check_ots m = if atom_count m == 0 then some atoms_missing else check_ots m

-- `knishio_molecule_check` from `check_batch_id` on.
unfoldable pub check_rules : (floats : Floats) → Molecule → Option floats.Double → ErrorCode
check_rules floats m balance =
    if not (check_batch_id m)
    then ErrorCode.batch_id
    else if not (check_continuid m)
    then atoms_missing
    else if not (check_isotope_m m)
    then meta_missing
    else if not (check_isotope_t m)
    then invalid_state
    else if not (check_isotope_c m)
    then invalid_state
    else if not (check_isotope_u m)
    then invalid_state
    else if not (check_isotope_i m)
    then invalid_state
    else if not (check_isotope_r m)
    then invalid_state
    else if not (check_isotope_v floats m balance).0
    then (check_isotope_v floats m balance).1
    else if not (check_token_consistency m)
    then transfer_mismatched
    else success

-- `knishio_molecule_check` on a molecule with atoms: what `check_molecular_hash`, `check_ots` and
-- the rules say, in order.
unfoldable pub first_error : Option Bool → Option ErrorCode → ErrorCode → Option ErrorCode
first_error none ots rules = none
first_error (some false) ots rules = some molecular_hash_mismatch
first_error (some true) none rules = none
first_error (some true) (some e) rules = some (if is_success e then rules else e)

-- `knishio_molecule_check`; the balance is that of `sender_wallet`.
unfoldable pub molecule_check :
    (floats : Floats) (print_unformatted : Json → Bytes) (m : Molecule)
    (balance : Option floats.Double)
    → Option ErrorCode
molecule_check floats print_unformatted m balance =
    if atom_count m == 0 then some atoms_missing else elim m.molecular_hash [
      | none ↦ some molecular_hash_missing
      | some declared ↦
          first_error (check_molecular_hash print_unformatted m) (check_ots m)
            (check_rules floats m balance)
    ]
