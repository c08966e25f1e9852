-- ===== src/Tests/Signing.antt =====
-- The theorems on signing at concrete inputs.
use knish_io_client_c.Check.{check_molecular_hash, check_ots}
use knish_io_client_c.Errors.{success}
use knish_io_client_c.Isotope.{isotope_v}
use knish_io_client_c.Molecule.{Atom, Molecule}
use knish_io_client_c.Molecule.Hash.{sort_atoms, insert_atom}
use knish_io_client_c.Ots.{generate_wallet_key, generate_address}
use knish_io_client_c.Ots.Chains.{generate_address_total}
use knish_io_client_c.Ots.Keys.{AddsHex, generate_wallet_key_total}
use knish_io_client_c.Signature.{sign, signing_ots_version}
use knish_io_client_c.Signature.Accepted.{sign_accepted}
use knish_io_client_c.Signature.Rehash.{bare}
use knish_io_client_c.Tests.Samples.{sample_atom, sample_molecule, print_sample}
use knish_io_client_c.Prelude.{
  none, false, ◌≡◌, refl, ap, ◌∙◌, true, Option, some, ◌>>=◌, [], ◌∷◌, map, Bytes, codes, inl,
  arith, pos,
}

-- A stand-in for the addition of hexadecimal texts.
abbrev pub left_text : Bytes → Bytes → Option Bytes
left_text a b = some a

pub left_text-AddsHex : AddsHex left_text
left_text-AddsHex a b h k = (a, refl)

-- The address of the key that the sample's secret, token and position give.
sample_address :
    (address : Bytes) × ((generate_wallet_key left_text
          (codes "ab")
          (some (codes "USER"))
          (codes "01")
          1
        >>= generate_address)
      ≡ some address)
sample_address =
    let (key, g, size, lower) =
      generate_wallet_key_total left_text (codes "ab") (some (codes "USER")) (codes "01") 1
        left_text-AddsHex (inl refl) (omega arith) (omega arith) in
    let (address, e, _, _) = generate_address_total key (inl size) in
    (address, ap (λ k. k >>= generate_address) g ∙ e)

abbrev owned_atom : Atom
owned_atom = record (sample_atom isotope_v (codes "5") (pos 0)) {
  wallet_address = some sample_address.0;
}

abbrev owned : Molecule
owned = sample_molecule (owned_atom ∷ sample_atom isotope_v (codes "-5") (pos 1) ∷ [])

owned_version : signing_ots_version owned ≡ 1
unfolding signing_ots_version
owned_version = refl

sign_accepted_example :
    (signed : Molecule) × (sign print_sample left_text owned none false true
      ≡ some (signed, success))
    × (check_molecular_hash print_sample signed ≡ some true)
    × (check_ots signed ≡ some success)
    × (map bare signed.atoms ≡ map bare (sort_atoms owned.atoms))
unfolding signing_ots_version sort_atoms insert_atom
sign_accepted_example =
    sign_accepted print_sample left_text owned (codes "ab") (codes "cd") none false true owned_atom
      (sample_atom isotope_v (codes "-5") (pos 1) ∷ []) (codes "01") sample_address.0
      left_text-AddsHex (inl owned_version) (omega arith) (omega arith) refl refl refl
      (refl, (refl, tt)) refl sample_address.1 refl
