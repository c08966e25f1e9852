-- ===== src/Signature/Accepted.antt =====
-- That what `knishio_molecule_sign` (src/molecule.c) signs, `check_molecular_hash` and `check_ots`
-- (src/libraries/check_molecule.c) accept.
use knish_io_client_c.Check.{check_molecular_hash, check_ots}
use knish_io_client_c.Check.Rehash.{check_molecular_hash_iff}
use knish_io_client_c.Errors.{is_success, success}
use knish_io_client_c.Molecule.{Atom, Molecule, atom_count}
use knish_io_client_c.Molecule.Hash.{Json, sort_atoms, generate_hash}
use knish_io_client_c.Molecule.Hashing.{hash_hex-concat, generated, generate_hash_total}
use knish_io_client_c.MolecularHash.Enumerate.{hash_is_signable_iff}
use knish_io_client_c.Ots.{generate_wallet_key, generate_address}
use knish_io_client_c.Ots.Keys.{AddsHex, IsOtsVersion}
use knish_io_client_c.Signature.{
  derive_bundle, sign_hashed, sign_generated, sign_derived, sign_with_secret, sign,
  signing_ots_version,
}
use knish_io_client_c.Signature.Fragments.{Unsigned}
use knish_io_client_c.Signature.Rehash.{bare, bare-length, hash_hex-bare, sort_atoms-bare}
use knish_io_client_c.Signature.Verifies.{sign_hashed-check_ots}
use knish_io_client_c.Prelude.{
  ◌<◌, ◌==◌, ◌≡◌, refl, ap, ◌∙◌, Bool, true, false, Option, none, some, ◌>>=◌, List, [], ◌∷◌, map,
  Bytes, length, arith,
}

in_order : Molecule → Molecule
in_order m = record m { atoms = sort_atoms m.atoms }

not_empty :
    (atoms : List Atom) (first : Atom) (rest : List Atom)
    → sort_atoms atoms ≡ first ∷ rest
    → (length atoms == 0) ≡ false
unfolding sort_atoms
not_empty [] first rest h = absurd (cc h)
not_empty (a ∷ atoms) first rest h = ground arith

counted :
    (atoms : List Atom) (first : Atom) (rest : List Atom)
    → atoms ≡ first ∷ rest
    → (length atoms == 0) ≡ false
counted [] first rest h = absurd (cc h)
counted (a ∷ atoms) first rest h = ground arith

module _ (print_unformatted : Json → Bytes) (key_from_hex : Bytes → Bytes → Option Bytes) where
  not_refused :
      (m : Molecule) (secret : Bytes) (bundle : Option Bytes) (anonymous compressed : Bool)
      → (atom_count m == 0) ≡ false
      → sign_with_secret print_unformatted key_from_hex m bundle anonymous compressed (some secret)
        ≡ sign_derived print_unformatted key_from_hex
            (in_order m)
            secret
            compressed
            (derive_bundle (in_order m) secret bundle anonymous m.bundle)
  unfolding sign_with_secret in_order
  not_refused m secret bundle anonymous compressed n = rw (sign_with_secret, n) refl

  reaches_hash :
      (m : Molecule) (secret b text : Bytes) (bundle : Option Bytes) (anonymous compressed : Bool)
      → m.secret ≡ some secret
      → m.bundle ≡ some b
      → (atom_count m == 0) ≡ false
      → generate_hash print_unformatted (in_order m)
        ≡ some (record (in_order m) { molecular_hash = some text }, success)
      → sign print_unformatted key_from_hex m bundle anonymous compressed
        ≡ sign_hashed key_from_hex
            (record (in_order m) { molecular_hash = some text })
            secret
            compressed
  unfolding sign sign_with_secret sign_derived sign_generated derive_bundle is_success in_order
  reaches_hash m secret b text bundle anonymous compressed hs hb n g =
      ap (sign_with_secret print_unformatted key_from_hex m bundle anonymous compressed) hs
      ∙ not_refused m secret bundle anonymous compressed n
      ∙ ap
          (λ own.
            sign_derived print_unformatted key_from_hex (in_order m) secret compressed
              (derive_bundle (in_order m) secret bundle anonymous own))
          hb
      ∙ ap (sign_generated print_unformatted key_from_hex secret compressed) g

  -- What is signed is accepted: a molecule with a secret, a bundle and atoms without fragments, the
  -- first of which in order has a position and claims the address of the key derived from it, is
  -- signed, with the signature compressed or not; of the signed molecule check_molecular_hash holds
  -- and check_ots reports success, and its atoms are those of the molecule in order, but for the
  -- fragments. It is assumed that hexadecimal texts can be added, that the
  -- version is 1 or 2, and that the secret and the position are not empty.
  pub sign_accepted :
      (m : Molecule) (secret b : Bytes) (bundle : Option Bytes) (anonymous compressed : Bool)
      (first : Atom) (rest : List Atom) (position address : Bytes)
      → AddsHex key_from_hex
      → IsOtsVersion (signing_ots_version m)
      → 0 < length secret
      → 0 < length position
      → m.secret ≡ some secret
      → m.bundle ≡ some b
      → sort_atoms m.atoms ≡ first ∷ rest
      → Unsigned (sort_atoms m.atoms)
      → first.position ≡ some position
      → (generate_wallet_key key_from_hex secret first.token position (signing_ots_version m)
          >>= generate_address)
        ≡ some address
      → first.wallet_address ≡ some address
      → (signed : Molecule) × (sign print_unformatted key_from_hex m bundle anonymous compressed
          ≡ some (signed, success))
        × (check_molecular_hash print_unformatted signed ≡ some true)
        × (check_ots signed ≡ some success)
        × (map bare signed.atoms ≡ map bare (sort_atoms m.atoms))
  unfolding in_order signing_ots_version
  sign_accepted m secret b bundle anonymous compressed first rest position address adds version sl
        pl hs hb atoms unsigned p owns claims =
      let n = not_empty m.atoms first rest atoms in
      let sorted = in_order m in
      let (hex, text, e, c, value, g, s) =
        generate_hash_total print_unformatted sorted (counted sorted.atoms first rest atoms) in
      let hashed = record sorted { molecular_hash = some text } in
      let (signed, done, h, alike, ots) =
        sign_hashed-check_ots key_from_hex hashed secret compressed text first rest position address
          adds version sl pl refl s atoms unsigned p owns claims in
      let l = ((hash_is_signable_iff text).0 s).1 in
      let bare_signed = record signed { molecular_hash = none } in
      let k : (atom_count signed == 0) ≡ false =
        ap (λ x. x == 0) (bare-length signed.atoms sorted.atoms alike)
        ∙ counted sorted.atoms first rest atoms in
      let again =
        hash_hex-bare print_unformatted (sort_atoms signed.atoms) (sort_atoms sorted.atoms)
          (sort_atoms-bare signed.atoms sorted.atoms alike)
        ∙ hash_hex-concat print_unformatted (sort_atoms sorted.atoms)
        ∙ e in
      let g2 = generated print_unformatted bare_signed hex text k again c l in
      (
        signed,
        reaches_hash m secret b text bundle anonymous compressed hs hb n g ∙ done,
        (check_molecular_hash_iff print_unformatted signed k).1
            (text, h, l, (record bare_signed { molecular_hash = some text }, g2, refl)),
        ots,
        alike,
      )
