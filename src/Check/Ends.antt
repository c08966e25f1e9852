-- ===== src/Check/Ends.antt =====
-- That `knishio_molecule_check` (src/libraries/check_molecule.c) ends: no loop runs out of fuel.
use knish_io_client_c.Check.{
  compare_hash, hash_test, check_molecular_hash, check_chains, check_ots, check_rules, first_error,
  molecule_check,
}
use knish_io_client_c.Check.Value.{Floats}
use knish_io_client_c.Errors.{
  ErrorCode, signature_malformed, molecular_hash_mismatch, molecular_hash_missing, is_success,
  atoms_missing,
}
use knish_io_client_c.Molecule.{Molecule, atom_count}
use knish_io_client_c.Molecule.Hash.{Json}
use knish_io_client_c.Molecule.Hashing.{generate_hash_total}
use knish_io_client_c.MolecularHash.{hash_is_signable}
use knish_io_client_c.MolecularHash.Steps.{signable-StepCounts}
use knish_io_client_c.Prelude.{
  ◌≡◌, refl, ap, sym, ◌∙◌, Bool, true, false, not, ◌||◌, Bool-cases, Option, none, some,
  Option-cases, Bytes, str_eq, if◌then◌else◌, length, ◌==◌, arith, inl, inr,
}

-- `check_ots` with a hash that can be signed: the chains decide.
pub check_ots_signable :
    (m : Molecule) (hash : Bytes)
    → m.molecular_hash ≡ some hash
    → (s : hash_is_signable (some hash) ≡ true)
    → check_ots m ≡ some (check_chains m.atoms (signable-StepCounts hash s).normalized)
unfolding check_ots
check_ots_signable m hash e s =
    let c = signable-StepCounts hash s in simp (e, s, c.enumerates, c.normalizes)

-- Any other hash is refused before a chain is hashed.
pub check_ots_refuses :
    (m : Molecule)
    → hash_is_signable m.molecular_hash ≡ false
    → check_ots m ≡ some signature_malformed
unfolding check_ots
check_ots_refuses m s = rw (check_ots, s) refl

ots_ends : (m : Molecule) → (e : ErrorCode) × (check_ots m ≡ some e)
unfolding hash_is_signable
ots_ends m = elim (Bool-cases (hash_is_signable m.molecular_hash)) [
  | inr s ↦ (signature_malformed, check_ots_refuses m s)
  | inl s ↦ elim (Option-cases m.molecular_hash) [
    | inl e ↦ absurd (let bad : false ≡ true = sym (ap hash_is_signable e) ∙ s in cc)
    | inr (hash, e) ↦
        let t = sym (ap hash_is_signable e) ∙ s in
        (
          check_chains m.atoms (signable-StepCounts hash t).normalized,
          check_ots_signable m hash e t,
        )
  ]
]

hash_test_ends :
    (print_unformatted : Json → Bytes) (m : Molecule) (hash : Option Bytes)
    → (b : Bool) × (hash_test print_unformatted m hash ≡ some b)
unfolding hash_test compare_hash is_success
hash_test_ends print_unformatted m none = (false, refl)
hash_test_ends print_unformatted m (some declared) =
    elim (Bool-cases (not (length declared == 64) || atom_count m == 0)) [
      | inl b ↦ (false, rw b refl)
      | inr b ↦
          let bare = record m { molecular_hash = none } in
          let n : (atom_count m == 0) ≡ false = ground arith in
          let (hex, text, e, c, value, g, s) = generate_hash_total print_unformatted bare n in
          (str_eq text declared, rw (b, g, compare_hash) refl)
    ]

first_error_ends :
    (h : Option Bool) (s : Option ErrorCode) (r : ErrorCode)
    → (b : Bool) × (h ≡ some b)
    → (e : ErrorCode) × (s ≡ some e)
    → (e : ErrorCode) × (first_error h s r ≡ some e)
unfolding first_error
first_error_ends none s r h e = absurd (let bad = h.1 in cc)
first_error_ends (some false) s r h e = (molecular_hash_mismatch, refl)
first_error_ends (some true) none r h e = absurd (let bad = e.1 in cc)
first_error_ends (some true) (some e) r h e' = (if is_success e then r else e, refl)

-- On every molecule the check ends with one error code.
pub molecule_check_ends :
    (floats : Floats) (print_unformatted : Json → Bytes) (m : Molecule)
    (balance : Option floats.Double)
    → (e : ErrorCode) × (molecule_check floats print_unformatted m balance ≡ some e)
unfolding molecule_check check_molecular_hash
molecule_check_ends floats print_unformatted m balance = elim (Bool-cases (atom_count m == 0)) [
  | inl z ↦ (atoms_missing, rw z refl)
  | inr n ↦ elim (Option-cases m.molecular_hash) [
    | inl e ↦ (molecular_hash_missing, simp (n, e))
    | inr (declared, h) ↦
        let (e, eq) =
          first_error_ends (hash_test print_unformatted m (some declared)) (check_ots m)
            (check_rules floats m balance) (hash_test_ends print_unformatted m (some declared))
            (ots_ends m) in
        (e, simp (n, h) eq)
  ]
]
