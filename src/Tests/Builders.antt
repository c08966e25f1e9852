-- ===== src/Tests/Builders.antt =====
-- The theorems on the builders at concrete inputs.
use knish_io_client_c.Builders.{System}
use knish_io_client_c.Builders.Buffers.{HasBundle, init_buffer-conserves}
use knish_io_client_c.Builders.Burns.{init_burn-conserves}
use knish_io_client_c.Builders.Conserves.{Ready, init_value-conserves}
use knish_io_client_c.Builders.Fusion.{IsFound, IsNew, fusion_error_iff}
use knish_io_client_c.Builders.Issue.{fusion_error}
use knish_io_client_c.Builders.Identity.{init_meta}
use knish_io_client_c.Builders.Made.{Usable}
use knish_io_client_c.Builders.Reachable.{
  Reachable, created, meta_step, value_step, Reachable-IsWellFormed,
}
use knish_io_client_c.Builders.Payments.{all_given}
use knish_io_client_c.Builders.Several.{init_values-conserves}
use knish_io_client_c.Builders.Transfer.{init_value, init_values, init_buffer_common, init_burn}
use knish_io_client_c.Builders.Units.{Cjson}
use knish_io_client_c.Check.Value.{check_isotope_v}
use knish_io_client_c.Errors.{success}
use knish_io_client_c.Molecule.{Molecule, atom_count, create}
use knish_io_client_c.Molecule.Array.{IsWellFormed, create-IsWellFormed}
use knish_io_client_c.Tests.Samples.{sample_hash}
use knish_io_client_c.Tests.Whole.{whole_numbers, whole_casts, whole_numbers-Exact}
use knish_io_client_c.Wallet.{TokenUnit, Wallet}
use knish_io_client_c.Prelude.{
  ◌≤◌, ◌↔◌, All, ◌≡◌, ◌+ℤ◌, refl, true, false, none, some, List, [], ◌∷◌, Bytes, codes, concat, pos,
  arith, inl, inr,
}

-- A stand-in for cJSON, which joins texts.
abbrev pub joined_texts : Cjson
joined_texts = record {
  Value = Bytes;
  create_string = λ text. text;
  create_array = λ texts. concat texts;
  empty_object = codes "{}";
  parse = λ text. some text;
  print_unformatted = λ text. text;
}

abbrev sample_unit : TokenUnit
sample_unit = record {
  id = some (codes "unit");
  name = none;
  metas_json = none;
  token_slug = none;
  batch_id = none;
  created_at = none;
  is_shadow = false;
}

abbrev sample_wallet : List TokenUnit → Wallet
sample_wallet units = record {
  secret = none;
  bundle_hash = some (codes "cd");
  token = some (codes "TEST");
  position = some sample_hash;
  private_key = none;
  address = some sample_hash;
  pubkey = none;
  ots_version = 1;
  token_units = units;
  batch_id = some (codes "batch");
  characters = none;
}

abbrev pub plain_wallet : Wallet
plain_wallet = sample_wallet []

abbrev pub unit_wallet : Wallet
unit_wallet = sample_wallet (sample_unit ∷ [])

sample_wallet-Usable : (units : List TokenUnit) → Usable (sample_wallet units)
sample_wallet-Usable units = record {
  position = sample_hash;
  address = sample_hash;
  token = codes "TEST";
  has_position = refl;
  has_address = refl;
  has_token = refl;
  lengths = (refl, refl);
}

sample_wallet-HasBundle : (units : List TokenUnit) → HasBundle (sample_wallet units)
sample_wallet-HasBundle units = ((λ e. absurd (cc e)), (λ e. absurd (cc e)))

abbrev pub sample_system : System
sample_system = record { now = pos 1; has_memory = λ n. true }

abbrev empty_molecule : Molecule
empty_molecule =
    create (pos 1) (some (codes "ab")) (some (codes "cd")) (some unit_wallet) (some plain_wallet)
      none none

empty_molecule-Ready : Ready sample_system empty_molecule unit_wallet plain_wallet
unfolding create
empty_molecule-Ready = record {
  ordered =
      create-IsWellFormed (pos 1) (some (codes "ab")) (some (codes "cd")) (some unit_wallet)
        (some plain_wallet) none none;
  none_yet = refl;
  memory = λ n. refl;
  has_source = refl;
  has_remainder = refl;
  from_source = sample_wallet-Usable (sample_unit ∷ []);
  to_remainder = sample_wallet-Usable [];
}

init_value-conserves_example :
    (m : Molecule) × (init_value joined_texts whole_numbers whole_casts sample_system empty_molecule
        (some plain_wallet)
        (pos 10)
        (pos 3)
      ≡ (m, success))
    × (atom_count m ≡ 3)
    × ((check_isotope_v whole_numbers m (some (pos 10))).0 ≡ true)
init_value-conserves_example =
    init_value-conserves joined_texts whole_numbers whole_casts (λ z. z) whole_numbers-Exact
      sample_system empty_molecule unit_wallet plain_wallet plain_wallet 10 (pos 3) (some (pos 10))
      empty_molecule-Ready (sample_wallet-Usable []) (omega arith) (omega arith) (inr refl)

init_values-conserves_example :
    (m : Molecule) × (init_values joined_texts whole_numbers whole_casts sample_system
        empty_molecule
        (all_given ((plain_wallet, pos 3) ∷ (unit_wallet, pos 5) ∷ []))
        (pos 10)
      ≡ (m, success))
    × (atom_count m ≡ 4)
    × ((check_isotope_v whole_numbers m none).0 ≡ true)
unfolding ◌+ℤ◌
init_values-conserves_example =
    init_values-conserves joined_texts whole_numbers whole_casts (λ z. z) whole_numbers-Exact
      sample_system empty_molecule unit_wallet plain_wallet (plain_wallet, pos 3)
      ((unit_wallet, pos 5) ∷ []) 10 none empty_molecule-Ready
      (sample_wallet-Usable [], (sample_wallet-Usable (sample_unit ∷ []), tt)) (omega arith)
      (omega arith) (omega arith) (inl refl)

init_buffer-conserves_example :
    (m : Molecule) × (init_buffer_common joined_texts whole_numbers whole_casts sample_system
        empty_molecule
        (some plain_wallet)
        (pos 10)
        (pos 3)
        false
      ≡ (m, success))
    × (atom_count m ≡ 3)
    × ((check_isotope_v whole_numbers m none).0 ≡ true)
init_buffer-conserves_example =
    init_buffer-conserves joined_texts whole_numbers whole_casts (λ z. z) whole_numbers-Exact
      sample_system empty_molecule unit_wallet plain_wallet plain_wallet 10 3 false none
      empty_molecule-Ready (sample_wallet-Usable []) (sample_wallet-HasBundle (sample_unit ∷ []))
      (sample_wallet-HasBundle []) (omega arith) (omega arith)

init_burn-conserves_example :
    (m : Molecule) × (init_burn joined_texts whole_numbers whole_casts sample_system empty_molecule
        (pos 10)
        (pos 3)
      ≡ (m, success))
    × (atom_count m ≡ 3)
    × ((check_isotope_v whole_numbers m (some (pos 10))).0 ≡ true)
init_burn-conserves_example =
    init_burn-conserves joined_texts whole_numbers whole_casts (λ z. z) whole_numbers-Exact
      sample_system empty_molecule unit_wallet plain_wallet 10 (pos 3) (some (pos 10))
      empty_molecule-Ready (omega arith) (omega arith) (inr refl)

-- Meta data, and a transfer of more than the balance, which fails.
abbrev two_steps : Molecule
two_steps =
    (init_value joined_texts whole_numbers whole_casts sample_system
      (init_meta sample_system empty_molecule (some (codes "type")) (some (codes "id"))
        ((codes "key", codes "value") ∷ [])).0
      (some plain_wallet) (pos 2) (pos 3)).0

two_steps-Reachable : Reachable joined_texts whole_numbers whole_casts two_steps
two_steps-Reachable = value_step _ sample_system (some plain_wallet) (pos 2) (pos 3) (
    meta_step _ sample_system (some (codes "type")) (some (codes "id"))
      ((codes "key", codes "value") ∷ [])
      (created (pos 1) (some (codes "ab")) (some (codes "cd")) (some unit_wallet)
        (some plain_wallet) none none))

Reachable-IsWellFormed_example : IsWellFormed two_steps
Reachable-IsWellFormed_example =
    Reachable-IsWellFormed joined_texts whole_numbers whole_casts two_steps two_steps-Reachable

fusion_error_iff_example :
    (fusion_error
        (some unit_wallet)
        (some (codes "unit") ∷ some (codes "unit") ∷ [])
        (some (codes "new"))
      ≡ none)
    ↔ ((2 ≤ 2)
        × All (IsFound unit_wallet.token_units) (some (codes "unit") ∷ some (codes "unit") ∷ [])
        × IsNew unit_wallet.token_units (some (codes "new")))
fusion_error_iff_example =
    fusion_error_iff unit_wallet (some (codes "unit") ∷ some (codes "unit") ∷ [])
      (some (codes "new"))
