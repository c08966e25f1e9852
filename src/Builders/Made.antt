-- ===== src/Builders/Made.antt =====
-- The atoms that the builders of src/molecule.c make, as src/libraries/check_molecule.c reads them.
use knish_io_client_c.Builders.{
  meta_create, has_bad_length, fresh_atom, atom_create, set_wallet_bundle_meta,
}
use knish_io_client_c.Builders.Exact.{Entry, Carries}
use knish_io_client_c.Builders.Transfer.{at_wallet}
use knish_io_client_c.Builders.Units.{
  Cjson, build_token_units_json, attach_token_units_meta, attach_unless_none, attach_json,
  single_meta,
}
use knish_io_client_c.Errors.{Result, ok, err}
use knish_io_client_c.Isotope.{Isotope}
use knish_io_client_c.Molecule.{Meta, Atom}
use knish_io_client_c.Wallet.{TokenUnit, Wallet}
use knish_io_client_c.Prelude.{
  ◌≡◌, refl, ◌∙◌, false, Option, none, some, List, [], ◌∷◌, Bytes, codes, ℤ,
}

-- A wallet from which an atom can be made.
pub record Usable (w : Wallet) : Type 0 where
  pub position : Bytes
  pub address : Bytes
  pub token : Bytes
  pub has_position : w.position ≡ some position
  pub has_address : w.address ≡ some address
  pub has_token : w.token ≡ some token
  pub lengths : (has_bad_length position ≡ false) × (has_bad_length address ≡ false)

-- What is created: an atom with the text and the isotope of an entry, and with a meta type and a
-- meta identifier.
pub record Made (created : Result Atom) (e : Entry) (t i : Option Bytes) : Type 0 where
  pub atom : Atom
  pub made : created ≡ ok atom
  pub carries : Carries atom e
  pub labels : (atom.meta_type ≡ t) × (atom.meta_id ≡ i)

-- To finish an atom changes neither its isotope nor its value.
pub record Finishes (finish : Atom → Atom) (t i : Option Bytes) : Type 0 where
  pub keeps_isotope : (a : Atom) → (finish a).isotope ≡ a.isotope
  pub keeps_value : (a : Atom) → (finish a).value ≡ a.value
  pub sets :
      (a : Atom)
      → a.meta_type ≡ none
      → a.meta_id ≡ none
      → ((finish a).meta_type ≡ t) × ((finish a).meta_id ≡ i)

pub atom_create-fresh :
    (now : ℤ) (w : Wallet) (u : Usable w) (isotope : Isotope) (value : Option Bytes) (token : Bytes)
    (batch_id : Option Bytes)
    → atom_create now w.position w.address isotope (some token) value batch_id
      ≡ ok (fresh_atom now u.position u.address isotope token value batch_id)
unfolding atom_create
atom_create-fresh now w u isotope value token batch_id =
    rw (u.has_position, u.has_address, atom_create, u.lengths.0, u.lengths.1) refl

pub at_wallet-Made :
    (now : ℤ) (w : Wallet) (e : Entry) (token batch_id : Option Bytes) (name : Bytes)
    (finish : Atom → Atom) (t i : Option Bytes)
    → Usable w
    → token ≡ some name
    → Finishes finish t i
    → Made (at_wallet now w e.isotope token e.text batch_id finish) e t i
at_wallet-Made now w e token batch_id name finish t i u h f =
    let a = fresh_atom now u.position u.address e.isotope name (some e.text) batch_id in
    record {
      atom = finish a;
      made = rw (h, atom_create-fresh now w u e.isotope (some e.text) name batch_id) refl;
      carries = (f.keeps_isotope a, f.keeps_value a);
      labels = f.sets a refl refl;
    }

-- `b` has the fields of `a` that the value test reads.
abbrev Alike : Atom → Atom → Type 0
Alike b a =
    (b.isotope ≡ a.isotope)
    × (b.value ≡ a.value)
    × (b.meta_type ≡ a.meta_type)
    × (b.meta_id ≡ a.meta_id)

module _ (cjson : Cjson) where
  single_meta-Alike : (a : Atom) (m : Result Meta) → Alike (single_meta cjson a m) a
  single_meta-Alike a (ok m) = (refl, refl, refl, refl)
  single_meta-Alike a (err e) = (refl, refl, refl, refl)

  attach_json-Alike : (a : Atom) (text : Option Bytes) → Alike (attach_json cjson a text) a
  attach_json-Alike a none = (refl, refl, refl, refl)
  attach_json-Alike a (some text) =
      single_meta-Alike a (meta_create (some (codes "tokenUnits")) (some text))

  attach_unless_none-Alike :
      (a : Atom) (w : Wallet) (units : List TokenUnit)
      → Alike (attach_unless_none cjson a w units) a
  attach_unless_none-Alike a w [] = (refl, refl, refl, refl)
  attach_unless_none-Alike a w (u ∷ units) = attach_json-Alike a (build_token_units_json cjson w)

  attach-Alike : (a : Atom) (w : Wallet) → Alike (attach_token_units_meta cjson a w) a
  unfolding attach_token_units_meta
  attach-Alike a w = attach_unless_none-Alike a w w.token_units

  pub units-Finishes : (w : Wallet) → Finishes (λ a. attach_token_units_meta cjson a w) none none
  units-Finishes w = record {
    keeps_isotope = λ a. (attach-Alike a w).0;
    keeps_value = λ a. (attach-Alike a w).1;
    sets = λ a t i. ((attach-Alike a w).2 ∙ t, (attach-Alike a w).3 ∙ i);
  }

  pub bundle_units-Finishes :
      (w : Wallet)
      → Finishes
          (λ a. attach_token_units_meta cjson (set_wallet_bundle_meta w.bundle_hash a) w)
          (some (codes "walletBundle"))
          w.bundle_hash
  bundle_units-Finishes w = record {
    keeps_isotope = λ a. (attach-Alike (set_wallet_bundle_meta w.bundle_hash a) w).0;
    keeps_value = λ a. (attach-Alike (set_wallet_bundle_meta w.bundle_hash a) w).1;
    sets = λ a t i. (
      (attach-Alike (set_wallet_bundle_meta w.bundle_hash a) w).2,
      (attach-Alike (set_wallet_bundle_meta w.bundle_hash a) w).3,
    );
  }

pub bundle-Finishes :
    (bundle : Option Bytes)
    → Finishes (set_wallet_bundle_meta bundle) (some (codes "walletBundle")) bundle
bundle-Finishes bundle = record {
  keeps_isotope = λ a. refl;
  keeps_value = λ a. refl;
  sets = λ a t i. (refl, refl);
}

pub nothing-Finishes : Finishes (λ a. a) none none
nothing-Finishes = record {
  keeps_isotope = λ a. refl;
  keeps_value = λ a. refl;
  sets = λ a t i. (t, i);
}
