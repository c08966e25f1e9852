-- ===== src/Tests/Requests.antt =====
-- The theorem on requests at a concrete input.
use knish_io_client_c.Builders.Conserves.{Ready}
use knish_io_client_c.Builders.Made.{Usable}
use knish_io_client_c.Check.{molecule_check}
use knish_io_client_c.Errors.{success}
use knish_io_client_c.Molecule.{Molecule, create}
use knish_io_client_c.Molecule.Array.{create-IsWellFormed}
use knish_io_client_c.Ots.{generate_wallet_key, generate_address}
use knish_io_client_c.Ots.Chains.{generate_address_total}
use knish_io_client_c.Ots.Keys.{generate_wallet_key_total}
use knish_io_client_c.Pipeline.Answer.{request_accepted}
use knish_io_client_c.Pipeline.Request.{Request, meta_data, build}
use knish_io_client_c.Signature.{sign, signing_ots_version}
use knish_io_client_c.Tests.Builders.{sample_system, plain_wallet}
use knish_io_client_c.Tests.Samples.{sample_hash, print_sample}
use knish_io_client_c.Tests.Signing.{left_text, left_text-AddsHex}
use knish_io_client_c.Tests.Whole.{whole_numbers}
use knish_io_client_c.Wallet.{Wallet}
use knish_io_client_c.Prelude.{
  ◌≡◌, refl, ap, ◌∙◌, true, false, none, some, ◌>>=◌, [], Bytes, codes, length, pos, arith, inl,
}

-- The address of the USER key of a secret.
user_address :
    (address : Bytes) × ((generate_wallet_key left_text
          (codes "ab")
          (some (codes "USER"))
          sample_hash
          1
        >>= generate_address)
      ≡ some address)
    × (length address ≡ 64)
user_address =
    let (key, g, size, lower) =
      generate_wallet_key_total left_text (codes "ab") (some (codes "USER")) sample_hash 1
        left_text-AddsHex (inl refl) (omega arith) (omega arith) in
    let (address, e, l, _) = generate_address_total key (inl size) in
    (address, ap (λ k. k >>= generate_address) g ∙ e, l)

-- Wallets with the token USER; the first has that address.
abbrev next_user : Wallet
next_user = record plain_wallet { token = some (codes "USER"); batch_id = none }

abbrev user : Wallet
user = record next_user { address = some user_address.0 }

next_user-Usable : Usable next_user
next_user-Usable = record {
  position = sample_hash;
  address = sample_hash;
  token = codes "USER";
  has_position = refl;
  has_address = refl;
  has_token = refl;
  lengths = (refl, refl);
}

user-Usable : Usable user
user-Usable = record {
  position = sample_hash;
  address = user_address.0;
  token = codes "USER";
  has_position = refl;
  has_address = refl;
  has_token = refl;
  lengths = (refl, let l = user_address.2 in ground arith);
}

abbrev new_molecule : Molecule
new_molecule =
    create (pos 1) (some (codes "ab")) (some (codes "cd")) (some user) (some next_user) none none

new_molecule-Ready : Ready sample_system new_molecule user next_user
unfolding create
new_molecule-Ready = record {
  ordered =
      create-IsWellFormed (pos 1) (some (codes "ab")) (some (codes "cd")) (some user)
        (some next_user) none none;
  none_yet = refl;
  memory = λ n. refl;
  has_source = refl;
  has_remainder = refl;
  from_source = user-Usable;
  to_remainder = next_user-Usable;
}

abbrev about_me : Request
about_me = meta_data (codes "person") (codes "1") (codes "name", codes "Ann") []

request_accepted_example :
    (m' : Molecule) × (signed : Molecule) × (build sample_system new_molecule about_me
      ≡ (m', success))
    × (sign print_sample left_text m' none false true ≡ some (signed, success))
    × (molecule_check whole_numbers print_sample signed none ≡ some success)
unfolding create signing_ots_version new_molecule-Ready user-Usable
request_accepted_example =
    request_accepted whole_numbers print_sample left_text sample_system new_molecule user next_user
      about_me none (codes "ab") (codes "cd") none false true new_molecule-Ready (refl, refl) refl
      left_text-AddsHex (inl refl) (omega arith) (omega arith) refl refl user_address.1
