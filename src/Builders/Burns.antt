-- ===== src/Builders/Burns.antt =====
-- That the molecules that `knishio_molecule_init_burn` (src/molecule.c) builds conserve value.
use knish_io_client_c.Builders.Conserves.{
  debit, credit, Ready, source_atom-Fits, credit_atom-Fits, three_amounts, not_short,
}
use knish_io_client_c.Builders.{System, add_all, fresh_atom, atom_create, set_wallet_bundle_meta}
use knish_io_client_c.Builders.Exact.{Exact}
use knish_io_client_c.Builders.Balanced.{Fits, built, Sender, v_conserves}
use knish_io_client_c.Builders.Transfer.{
  Casts, burn_atom, burn_atoms, left_over, init_burn, add_burn, zero_bundle,
}
use knish_io_client_c.Builders.Units.{Cjson}
use knish_io_client_c.Check.Value.{Floats, check_isotope_v}
use knish_io_client_c.Decimal.{print_int}
use knish_io_client_c.Errors.{success}
use knish_io_client_c.Isotope.{isotope_v, isotope_eq}
use knish_io_client_c.Molecule.{Molecule, atom_count}
use knish_io_client_c.Wallet.{Wallet}
use knish_io_client_c.Prelude.{
  ℕ, ◌+◌, ◌≤◌, ◌≡◌, refl, ◌∙◌, true, Option, none, some, [], ◌∷◌, Bytes, codes, ℤ, pos, ◌≤ℤ◌,
  neg_part, int_max, arith,
}

burn_atom-Fits :
    (now : ℤ) (token : Option Bytes) (name : Bytes) (z : ℤ)
    → token ≡ some name
    → Fits (burn_atom now token z) (credit isotope_v z)
unfolding burn_atom atom_create isotope_eq
burn_atom-Fits now token name z h = record {
  meta_type = some (codes "walletBundle");
  meta_id = some zero_bundle;
  is_made = record {
    atom =
        set_wallet_bundle_meta (some zero_bundle)
          (fresh_atom now [] [] isotope_v name (some (print_int z)) none);
    made = rw h refl;
    carries = (refl, refl);
    labels = (refl, refl);
  };
  shape = λ h. absurd (cc h);
}

module _ (cjson : Cjson) (floats : Floats) (casts : Casts floats) (of_long : ℤ → floats.LongDouble)
    (exact : Exact floats casts of_long) where
  init_burn-add_all :
      (system : System) (m : Molecule) (source remainder : Wallet) (n : ℕ) (amount : ℤ)
      → Ready system m source remainder
      → amount ≤ℤ pos n
      → n + neg_part amount ≤ int_max
      → init_burn cjson floats casts system m (casts.of_int (pos n)) amount
        ≡ add_all system m (burn_atoms cjson system.now source remainder (pos n) amount)
  unfolding init_burn add_burn
  init_burn-add_all system m source remainder n amount ready h l =
      let short = not_short cjson floats casts of_long exact n amount h l in
      let whole = exact.cast (pos n) (omega arith, omega arith) in
      simp (init_burn, ready.has_source, ready.has_remainder, add_burn, short, whole)

  -- A burn of at most the balance always builds a molecule of three atoms that passes the value
  -- test, whether or not the balance of the sender is tested too. The molecule has no atoms before,
  -- there is memory, the source and the remainder wallet have a token, a position and an address,
  -- the balance is a whole number that is not negative, and it, plus the size of the amount if that
  -- is negative, is at most INT_MAX.
  pub init_burn-conserves :
      (system : System) (m : Molecule) (source remainder : Wallet) (n : ℕ) (amount : ℤ)
      (sender : Option floats.Double)
      → Ready system m source remainder
      → amount ≤ℤ pos n
      → n + neg_part amount ≤ int_max
      → Sender floats casts of_long exact sender n
      → (m' : Molecule) × (init_burn cjson floats casts system m (casts.of_int (pos n)) amount
          ≡ (m', success))
        × (atom_count m' ≡ 3)
        × ((check_isotope_v floats m' sender).0 ≡ true)
  init_burn-conserves system m source remainder n amount sender ready h l s =
      let left = left_over (pos n) amount in
      let (small, balanced) = three_amounts n amount h l in
      let entries = debit isotope_v n ∷ credit isotope_v amount ∷ credit isotope_v left ∷ [] in
      let (m', done, count, carry, shaped) =
        built system m (burn_atoms cjson system.now source remainder (pos n) amount) entries
          ready.ordered ready.none_yet ready.memory
          (
            source_atom-Fits cjson system.now source none n ready.from_source,
            (
              burn_atom-Fits system.now source.token ready.from_source.token amount
                  ready.from_source.has_token,
              (credit_atom-Fits cjson system.now remainder none left ready.to_remainder, tt),
            ),
          )
          (omega arith) in
      (
        m',
        init_burn-add_all system m source remainder n amount ready h l ∙ done,
        count,
        v_conserves floats casts of_long exact m' (debit isotope_v n)
            (credit isotope_v amount ∷ credit isotope_v left ∷ []) sender n carry
            (refl, (refl, (refl, tt))) small balanced refl (omega arith) s,
      )
