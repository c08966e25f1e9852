-- ===== src/Tests/Pipeline.antt =====
-- The theorem on transfers at a concrete input.
use knish_io_client_c.Builders.Conserves.{Ready}
use knish_io_client_c.Builders.Made.{Usable}
use knish_io_client_c.Builders.Transfer.{init_value}
use knish_io_client_c.Check.{molecule_check}
use knish_io_client_c.Errors.{success}
use knish_io_client_c.Molecule.{Molecule, create}
use knish_io_client_c.Molecule.Array.{create-IsWellFormed}
use knish_io_client_c.Ots.{generate_wallet_key, generate_address}
use knish_io_client_c.Ots.Chains.{generate_address_total}
use knish_io_client_c.Ots.Keys.{generate_wallet_key_total}
use knish_io_client_c.Pipeline.{transfer_accepted}
use knish_io_client_c.Signature.{sign, signing_ots_version}
use knish_io_client_c.Tests.Builders.{joined_texts, sample_system, plain_wallet}
use knish_io_client_c.Tests.Samples.{sample_hash, print_sample}
use knish_io_client_c.Tests.Signing.{left_text, left_text-AddsHex}
use knish_io_client_c.Tests.Whole.{whole_numbers, whole_casts, whole_numbers-Exact}
use knish_io_client_c.Wallet.{Wallet}
use knish_io_client_c.Prelude.{
  ◌≡◌, ◌≢◌, str_eq, refl, ap, ◌∙◌, true, false, none, some, ◌>>=◌, Bytes, codes, length, pos, arith,
  inl, inr,
}

-- The address of the key of a secret.
transfer_address :
    (address : Bytes) × ((generate_wallet_key left_text
          (codes "ab")
          (some (codes "TEST"))
          sample_hash
          1
        >>= generate_address)
      ≡ some address)
    × (length address ≡ 64)
transfer_address =
    let (key, g, size, lower) =
      generate_wallet_key_total left_text (codes "ab") (some (codes "TEST")) sample_hash 1
        left_text-AddsHex (inl refl) (omega arith) (omega arith) in
    let (address, e, l, _) = generate_address_total key (inl size) in
    (address, ap (λ k. k >>= generate_address) g ∙ e, l)

-- Wallets without a batch; the first has that address.
abbrev payee : Wallet
payee = record plain_wallet { batch_id = none }

abbrev payer : Wallet
payer = record payee { address = some transfer_address.0 }

payee-Usable : Usable payee
payee-Usable = record {
  position = sample_hash;
  address = sample_hash;
  token = codes "TEST";
  has_position = refl;
  has_address = refl;
  has_token = refl;
  lengths = (refl, refl);
}

payer-Usable : Usable payer
payer-Usable = record {
  position = sample_hash;
  address = transfer_address.0;
  token = codes "TEST";
  has_position = refl;
  has_address = refl;
  has_token = refl;
  lengths = (refl, let l = transfer_address.2 in ground arith);
}

abbrev new_transfer : Molecule
new_transfer =
    create (pos 1) (some (codes "ab")) (some (codes "cd")) (some payer) (some payee) none none

new_transfer-Ready : Ready sample_system new_transfer payer payee
unfolding create
new_transfer-Ready = record {
  ordered =
      create-IsWellFormed (pos 1) (some (codes "ab")) (some (codes "cd")) (some payer) (some payee)
        none none;
  none_yet = refl;
  memory = λ n. refl;
  has_source = refl;
  has_remainder = refl;
  from_source = payer-Usable;
  to_remainder = payee-Usable;
}

-- The token is not USER.
not_user : payer.token ≢ some (codes "USER")
unfolding str_eq
not_user e =
    let same : false ≡ true =
      ap (λ token. elim token [ none ↦ false | some text ↦ str_eq text (codes "USER") ]) e in
    cc

transfer_accepted_example :
    (m' : Molecule) × (signed : Molecule) × (init_value joined_texts whole_numbers whole_casts
        sample_system new_transfer
        (some payee)
        (pos 10)
        (pos 3)
      ≡ (m', success))
    × (sign print_sample left_text m' none false true ≡ some (signed, success))
    × (molecule_check whole_numbers print_sample signed (some (pos 10)) ≡ some success)
unfolding create signing_ots_version new_transfer-Ready payer-Usable
transfer_accepted_example =
    transfer_accepted joined_texts whole_numbers whole_casts (λ z. z) whole_numbers-Exact
      print_sample left_text sample_system new_transfer payer payee payee 10 (pos 3) (some (pos 10))
      (codes "ab") (codes "cd") none false true new_transfer-Ready payee-Usable (omega arith)
      (omega arith) (inr refl) (refl, refl) not_user (refl, refl, refl) left_text-AddsHex (inl refl)
      (omega arith) (omega arith) refl refl transfer_address.1
