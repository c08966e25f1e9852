-- ===== src/Molecule/Hashing.antt =====
-- That `knishio_molecule_generate_hash` (src/molecule.c) succeeds, and what it hashes.
use knish_io_client_c.Base17.{hex_to_base17, pad_left}
use knish_io_client_c.Base17.Value.{value16, hex_to_base17-Converted}
use knish_io_client_c.Base17.Division.{value17}
use knish_io_client_c.Errors.{success}
use knish_io_client_c.Molecule.{Atom, Molecule, atom_count}
use knish_io_client_c.Molecule.Hash.{Json, sort_atoms, absorbed_values, hash_hex, generate_hash}
use knish_io_client_c.MolecularHash.{hash_is_signable}
use knish_io_client_c.MolecularHash.Enumerate.{hash_is_signable_iff}
use knish_io_client_c.Shake256.{shake256_hash, init, final, squeeze_hex}
use knish_io_client_c.Shake256.Stream.{update_all, squeeze-update_all, shake256_hash_text}
use knish_io_client_c.Prelude.{
  ◌==◌, ◌≡◌, refl, sym, ◌∙◌, true, false, some, List, Bytes, length, concat, >>=-assoc, arith,
}

module _ (print_unformatted : Json → Bytes) where
  -- The incremental hash is that of the texts joined.
  pub hash_hex-concat :
      (atoms : List Atom)
      → hash_hex print_unformatted atoms
        ≡ shake256_hash (concat (absorbed_values print_unformatted atoms)) 256
  unfolding hash_hex squeeze_hex
  hash_hex-concat atoms =
      let texts = absorbed_values print_unformatted atoms in
      sym (>>=-assoc (update_all init texts) final (λ c. squeeze_hex c 256))
      ∙ squeeze-update_all texts 256

  pad_full : (text : Bytes) → length text ≡ 64 → pad_left text ≡ text
  pad_full text h = rw h refl

  pub generated :
      (m : Molecule) (hex text : Bytes)
      → (atom_count m == 0) ≡ false
      → hash_hex print_unformatted (sort_atoms m.atoms) ≡ some hex
      → hex_to_base17 hex ≡ some (some text)
      → length text ≡ 64
      → generate_hash print_unformatted m ≡ some (record m { molecular_hash = some text }, success)
  unfolding generate_hash
  generated m hex text n h c l = rw (generate_hash, n, h, c, pad_full text l) refl

  -- Every molecule with atoms gets a hash that can be signed: 64 characters with the value, to the
  -- base 17, of the SHAKE256 digest of the joined texts of its atoms in order.
  pub generate_hash_total :
      (m : Molecule)
      → (atom_count m == 0) ≡ false
      → (hex text : Bytes) × (shake256_hash
            (concat (absorbed_values print_unformatted (sort_atoms m.atoms)))
            256
          ≡ some hex)
        × (hex_to_base17 hex ≡ some (some text))
        × (value17 0 text ≡ value16 0 hex)
        × (generate_hash print_unformatted m
            ≡ some (record m { molecular_hash = some text }, success))
        × (hash_is_signable (some text) ≡ true)
  unfolding generate_hash
  generate_hash_total m n =
      let sorted = sort_atoms m.atoms in
      let (hex, e, l, lower) =
        shake256_hash_text (concat (absorbed_values print_unformatted sorted)) 256 (omega arith) in
      let c = hex_to_base17-Converted hex lower (l ∙ omega arith) in
      let full = ((hash_is_signable_iff c.text).0 c.signable).1 in
      (
        hex,
        c.text,
        e,
        c.converts,
        c.value,
        generated m hex c.text n (hash_hex-concat sorted ∙ e) c.converts full,
        c.signable,
      )
