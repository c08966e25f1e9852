-- ===== src/Check/Rehash.antt =====
-- What `check_molecular_hash` of src/libraries/check_molecule.c says about a molecule.
use knish_io_client_c.Check.{compare_hash, hash_test, check_molecular_hash}
use knish_io_client_c.Errors.{ErrorCode, is_success, is_success_iff, success}
use knish_io_client_c.Molecule.{Molecule, atom_count}
use knish_io_client_c.Molecule.Hash.{Json, generate_hash}
use knish_io_client_c.Prelude.{
  ◌≡◌, refl, ap, ◌∙◌, true, false, Option, none, some, Option-cases, Bytes, str_eq_iff, str_eq_refl,
  length, ◌==◌, arith, ◌↔◌, inl, inr,
}

-- The declared hash has 64 characters and is the one that the atoms hash to.
abbrev pub Hashed : (Json → Bytes) → Molecule → Type 0
Hashed print_unformatted m =
    (declared : Bytes) × (m.molecular_hash ≡ some declared)
    × (length declared ≡ 64)
    × ((temp : Molecule) × (generate_hash print_unformatted (record m { molecular_hash = none })
          ≡ some (temp, success))
        × (temp.molecular_hash ≡ some declared))

compare_sound :
    (declared : Bytes) (out : Option (Molecule × ErrorCode))
    → compare_hash declared out ≡ some true
    → (temp : Molecule) × (out ≡ some (temp, success)) × (temp.molecular_hash ≡ some declared)
unfolding compare_hash
compare_sound declared none h = cc
compare_sound declared (some (temp, e)) h = elim (Option-cases temp.molecular_hash) [
  | inl n ↦ absurd (ground arith)
  | inr (hash, n) ↦
      let r : (e ≡ success) × (hash ≡ declared) =
        ground (arith, is_success_iff e, str_eq_iff hash declared) in
      (temp, ap (λ x. some (temp, x)) r.0, n ∙ ap some r.1)
]

module _ (print_unformatted : Json → Bytes) where
  hash_test_sound :
      (m : Molecule) (hash : Option Bytes)
      → m.molecular_hash ≡ hash
      → hash_test print_unformatted m hash ≡ some true
      → Hashed print_unformatted m
  unfolding hash_test
  hash_test_sound m none e h = cc
  hash_test_sound m (some declared) e h =
      let out = generate_hash print_unformatted (record m { molecular_hash = none }) in
      let r : (length declared ≡ 64) × (compare_hash declared out ≡ some true) = ground arith in
      (declared, e, r.0, compare_sound declared out r.1)

  hash_test_complete :
      (m : Molecule) (declared : Bytes) (temp : Molecule)
      → (atom_count m == 0) ≡ false
      → length declared ≡ 64
      → generate_hash print_unformatted (record m { molecular_hash = none }) ≡ some (temp, success)
      → temp.molecular_hash ≡ some declared
      → hash_test print_unformatted m (some declared) ≡ some true
  unfolding hash_test compare_hash is_success
  hash_test_complete m declared temp n l g t =
      rw (l, n, g, compare_hash, t) (ap some (str_eq_refl declared))

  -- The hash test passes exactly on the molecules whose declared hash has 64 characters and is the
  -- one that hashing the atoms anew gives.
  pub check_molecular_hash_iff :
      (m : Molecule)
      → (atom_count m == 0) ≡ false
      → (check_molecular_hash print_unformatted m ≡ some true) ↔ Hashed print_unformatted m
  unfolding check_molecular_hash
  check_molecular_hash_iff m n = (
    (λ h. hash_test_sound m m.molecular_hash refl h),
    (λ (declared, e, l, (temp, g, t)).
        ap (hash_test print_unformatted m) e ∙ hash_test_complete m declared temp n l g t),
  )
