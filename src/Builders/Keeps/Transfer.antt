-- ===== src/Builders/Keeps/Transfer.antt =====
-- That transfers, buffers and burns keep the array of atoms in order (src/molecule.c).
use knish_io_client_c.Builders.Keeps.{Kept, with_wallet, with_wallets}
use knish_io_client_c.Builders.{System, add_all}
use knish_io_client_c.Builders.Adding.{add_all-IsWellFormed}
use knish_io_client_c.Builders.Transfer.{
  Casts, is_short, init_value, init_values, add_values, init_buffer_common, add_buffer, init_burn,
  add_burn, sum_amounts, value_atoms, values_atoms, buffer_atoms, burn_atoms,
}
use knish_io_client_c.Builders.Units.{Cjson}
use knish_io_client_c.Check.Value.{Floats}
use knish_io_client_c.Errors.{balance_insufficient, Result}
use knish_io_client_c.Molecule.{Atom, Molecule}
use knish_io_client_c.Molecule.Array.{IsWellFormed}
use knish_io_client_c.Wallet.{Wallet}
use knish_io_client_c.Prelude.{
  Bool, true, false, Bool-cases, Option, none, some, List, [], ◌∷◌, ℤ, pos, ltb_ℤ, inl, inr,
  if◌then◌else◌,
}

module _ (cjson : Cjson) (floats : Floats) (casts : Casts floats) where
  -- The test on the balance, and then the atoms.
  if_covered :
      (system : System) (m : Molecule) (short : Bool) (created : List (Result Atom))
      → IsWellFormed m
      → Kept (if short then (m, balance_insufficient) else add_all system m created)
  if_covered system m true created w = w
  if_covered system m false created w = add_all-IsWellFormed system m created w

  pub init_value-Kept :
      (system : System) (m : Molecule) (recipient : Option Wallet) (balance : floats.Double)
      (amount : ℤ)
      → IsWellFormed m
      → Kept (init_value cjson floats casts system m recipient balance amount)
  unfolding init_value
  init_value-Kept system m none balance amount w = w
  init_value-Kept system m (some recipient) balance amount w =
      let whole = casts.to_int balance in
      with_wallet m.source_wallet m _ _ w (λ x.
        if_covered system m (is_short cjson floats casts balance amount)
          (value_atoms cjson system.now x recipient m.remainder_wallet whole amount) w)

  add_values-Kept :
      (system : System) (m : Molecule) (source remainder : Wallet)
      (recipients : List (Option Wallet × ℤ)) (balance : floats.Double)
      → IsWellFormed m
      → Kept (add_values cjson floats casts system m source remainder recipients balance)
  unfolding add_values
  add_values-Kept system m source remainder recipients balance w =
      let total = sum_amounts recipients (pos 0) in
      if_covered system m _
        (values_atoms cjson system.now source remainder recipients (casts.to_int balance) total) w

  pub init_values-Kept :
      (system : System) (m : Molecule) (recipients : List (Option Wallet × ℤ))
      (balance : floats.Double)
      → IsWellFormed m
      → Kept (init_values cjson floats casts system m recipients balance)
  unfolding init_values
  init_values-Kept system m [] balance w = w
  init_values-Kept system m (first ∷ rest) balance w =
      with_wallets m.source_wallet m.remainder_wallet m _ _ w
        (λ x y. add_values-Kept system m x y (first ∷ rest) balance w)

  add_buffer-Kept :
      (system : System) (m : Molecule) (deposit : Bool) (source middle remainder : Wallet)
      (balance : floats.Double) (amount : ℤ)
      → IsWellFormed m
      → Kept (add_buffer cjson floats casts system m deposit source middle remainder balance amount)
  unfolding add_buffer
  add_buffer-Kept system m deposit source middle remainder balance amount w =
      elim (Bool-cases (ltb_ℤ amount (pos 0))) [
        | inl t ↦ rw t w
        | inr f ↦ rw f (
            if_covered system m _
              (buffer_atoms cjson system.now deposit source middle remainder (casts.to_int balance)
                amount)
              w)
      ]

  pub init_buffer_common-Kept :
      (system : System) (m : Molecule) (middle : Option Wallet) (balance : floats.Double)
      (amount : ℤ) (deposit : Bool)
      → IsWellFormed m
      → Kept (init_buffer_common cjson floats casts system m middle balance amount deposit)
  unfolding init_buffer_common
  init_buffer_common-Kept system m none balance amount deposit w = w
  init_buffer_common-Kept system m (some middle) balance amount deposit w =
      with_wallets m.source_wallet m.remainder_wallet m _ _ w
        (λ x y. add_buffer-Kept system m deposit x middle y balance amount w)

  add_burn-Kept :
      (system : System) (m : Molecule) (source remainder : Wallet) (balance : floats.Double)
      (amount : ℤ)
      → IsWellFormed m
      → Kept (add_burn cjson floats casts system m source remainder balance amount)
  unfolding add_burn
  add_burn-Kept system m source remainder balance amount w =
      if_covered system m _
        (burn_atoms cjson system.now source remainder (casts.to_int balance) amount) w

  pub init_burn-Kept :
      (system : System) (m : Molecule) (balance : floats.Double) (amount : ℤ)
      → IsWellFormed m
      → Kept (init_burn cjson floats casts system m balance amount)
  unfolding init_burn
  init_burn-Kept system m balance amount w =
      with_wallets m.source_wallet m.remainder_wallet m _ _ w
        (λ x y. add_burn-Kept system m x y balance amount w)
