-- ===== src/Builders/Transfer.antt =====
-- The molecules that move value: transfers, buffers and burns (src/molecule.c). The balance of the
-- source wallet, a `double`, is an argument.
use knish_io_client_c.Builders.{System, atom_create, set_wallet_bundle_meta, add_all}
use knish_io_client_c.Builders.Units.{Cjson, attach_token_units_meta}
use knish_io_client_c.Check.Value.{Floats}
use knish_io_client_c.Decimal.{print_int}
use knish_io_client_c.Errors.{
  ErrorCode, invalid_args, invalid_state, balance_insufficient, Result, ok, err, ◌>>=◌,
}
use knish_io_client_c.Isotope.{Isotope, isotope_v, isotope_b}
use knish_io_client_c.Molecule.{Atom, Molecule}
use knish_io_client_c.Wallet.{Wallet}
use knish_io_client_c.Prelude.{
  Bool, true, false, Option, none, some, List, [], ◌∷◌, ◌++◌, if◌then◌else◌, Bytes, codes, map, ℤ,
  pos, ltb_ℤ, ◌+ℤ◌, ◌-ℤ◌, wrap_int,
}

-- The conversions between `int` and `double`; `to_int` cuts off the fraction. C leaves open what it
-- gives for a number that no `int` can hold.
pub record Casts (floats : Floats) : Type 0 where
  pub of_int : ℤ → floats.Double
  pub to_int : floats.Double → ℤ

-- `snprintf(source_value, sizeof(source_value), "-%d", …)`
abbrev pub print_debit : ℤ → Bytes
print_debit balance = b'-' ∷ print_int balance

-- An atom at the address of a wallet.
abbrev pub at_wallet :
    ℤ → Wallet → Isotope → Option Bytes → Bytes → Option Bytes → (Atom → Atom) → Result Atom
at_wallet now w isotope token value batch_id finish =
    atom_create now w.position w.address isotope token (some value) batch_id
    >>= (λ a. ok (finish a))

-- `KNISHIO_ZERO_BUNDLE`
abbrev pub zero_bundle : Bytes
zero_bundle = codes "0000000000000000000000000000000000000000000000000000000000000000"

-- The atom of the burned amount.
unfoldable pub burn_atom : ℤ → Option Bytes → ℤ → Result Atom
unfolding atom_create print_int
burn_atom now token amount =
    atom_create now (some []) (some []) isotope_v token (some (print_int amount)) none
    >>= (λ a. ok (set_wallet_bundle_meta (some zero_bundle) a))

-- The other atoms of a buffer operation.
unfoldable pub buffer_atom : ℤ → Isotope → Wallet → Option Bytes → Option Bytes → ℤ → Result Atom
unfolding atom_create print_int
buffer_atom now isotope w token bundle amount =
    at_wallet now w isotope token (print_int amount) w.batch_id (set_wallet_bundle_meta bundle)

-- `total += amounts[i]`
abbrev pub sum_amounts : List (Option Wallet × ℤ) → ℤ → ℤ
sum_amounts [] total = total
sum_amounts ((w, amount) ∷ recipients) total = sum_amounts recipients (wrap_int (total +ℤ amount))

-- `(int)balance - amount`
abbrev pub left_over : ℤ → ℤ → ℤ
left_over balance amount = wrap_int (balance -ℤ amount)

module _ (cjson : Cjson) where
  -- The source atom of a transfer takes the whole balance.
  unfoldable pub source_atom : ℤ → Wallet → Option Bytes → ℤ → Result Atom
  unfolding atom_create attach_token_units_meta print_int
  source_atom now w batch_id balance =
      at_wallet now w isotope_v w.token (print_debit balance) batch_id
        (λ a. attach_token_units_meta cjson a w)

  -- The atom of a recipient, or of the remainder.
  unfoldable pub credit_atom : ℤ → Wallet → Option Bytes → ℤ → Result Atom
  unfolding atom_create attach_token_units_meta print_int
  credit_atom now w batch_id amount =
      at_wallet now w isotope_v w.token (print_int amount) batch_id
        (λ a. attach_token_units_meta cjson (set_wallet_bundle_meta w.bundle_hash a) w)

  -- The atom of one entry of `recipient_wallets`.
  abbrev pub recipient_atom : ℤ → Option Wallet × ℤ → Result Atom
  recipient_atom now (none, amount) = err invalid_args
  recipient_atom now (some w, amount) = credit_atom now w w.batch_id amount

  abbrev pub remainder_atoms : ℤ → Option Wallet → ℤ → List (Result Atom)
  remainder_atoms now none amount = []
  remainder_atoms now (some w) amount = credit_atom now w w.batch_id amount ∷ []

  -- The two or three atoms of `knishio_molecule_init_value`.
  abbrev pub value_atoms : ℤ → Wallet → Wallet → Option Wallet → ℤ → ℤ → List (Result Atom)
  value_atoms now source recipient remainder balance amount =
      source_atom now source source.batch_id balance
      ∷ credit_atom now recipient recipient.batch_id amount
      ∷ remainder_atoms now remainder (left_over balance amount)

  -- The atoms of `knishio_molecule_init_values`.
  abbrev pub values_atoms :
      ℤ → Wallet → Wallet → List (Option Wallet × ℤ) → ℤ → ℤ → List (Result Atom)
  values_atoms now source remainder recipients balance total =
      source_atom now source source.batch_id balance
      ∷ (map (recipient_atom now) recipients
          ++ credit_atom now remainder remainder.batch_id (left_over balance total) ∷ [])

  -- The three atoms of `knishio_molecule_init_burn`.
  abbrev pub burn_atoms : ℤ → Wallet → Wallet → ℤ → ℤ → List (Result Atom)
  burn_atoms now source remainder balance amount =
      source_atom now source none balance
      ∷ burn_atom now source.token amount
      ∷ credit_atom now remainder none (left_over balance amount)
      ∷ []

  -- The source atom of a buffer operation.
  unfoldable pub buffer_source_atom : ℤ → Bool → Wallet → ℤ → Result Atom
  unfolding atom_create attach_token_units_meta print_int
  buffer_source_atom now true w balance =
      at_wallet now w isotope_v w.token (print_debit balance) w.batch_id (λ a. a)
  buffer_source_atom now false w balance =
      at_wallet now w isotope_b w.token (print_debit balance) w.batch_id
        (λ a. attach_token_units_meta cjson (set_wallet_bundle_meta w.bundle_hash a) w)

  -- The three atoms of a buffer operation; the flag says whether it is a deposit.
  unfoldable pub buffer_atoms : ℤ → Bool → Wallet → Wallet → Wallet → ℤ → ℤ → List (Result Atom)
  unfolding buffer_source_atom buffer_atom
  buffer_atoms now true source middle remainder balance amount =
      buffer_source_atom now true source balance
      ∷ buffer_atom now isotope_b middle middle.token source.bundle_hash amount
      ∷ buffer_atom now isotope_v remainder remainder.token source.bundle_hash
          (left_over balance amount)
      ∷ []
  buffer_atoms now false source middle remainder balance amount =
      buffer_source_atom now false source balance
      ∷ buffer_atom now isotope_v middle source.token middle.bundle_hash amount
      ∷ buffer_atom now isotope_b remainder remainder.token remainder.bundle_hash
          (left_over balance amount)
      ∷ []

  module _ (floats : Floats) (casts : Casts floats) where
    -- `balance < amount`
    abbrev pub is_short : floats.Double → ℤ → Bool
    is_short balance amount = floats.is_below balance (casts.of_int amount)

    -- `knishio_molecule_init_value`
    unfoldable pub init_value :
        System → Molecule → Option Wallet → floats.Double → ℤ → Molecule × ErrorCode
    unfolding add_all source_atom credit_atom
    init_value system m none balance amount = (m, invalid_args)
    init_value system m (some recipient) balance amount = elim m.source_wallet [
      | none ↦ (m, invalid_state)
      | some source ↦
          if is_short balance amount
          then (m, balance_insufficient)
          else add_all system m (
              value_atoms system.now source recipient m.remainder_wallet (casts.to_int balance)
                amount)
    ]

    -- Behind the tests on NULL.
    unfoldable pub add_values :
        System
        → Molecule
        → Wallet
        → Wallet
        → List (Option Wallet × ℤ)
        → floats.Double
        → Molecule × ErrorCode
    unfolding add_all source_atom credit_atom
    add_values system m source remainder recipients balance =
        let total = sum_amounts recipients (pos 0) in
        if is_short balance total
        then (m, balance_insufficient)
        else add_all system m
            (values_atoms system.now source remainder recipients (casts.to_int balance) total)

    -- `knishio_molecule_init_values`
    unfoldable pub init_values :
        System → Molecule → List (Option Wallet × ℤ) → floats.Double → Molecule × ErrorCode
    unfolding add_values
    init_values system m [] balance = (m, invalid_args)
    init_values system m (first ∷ rest) balance = elim m.source_wallet [
      | none ↦ (m, invalid_state)
      | some source ↦ elim m.remainder_wallet [
        | none ↦ (m, invalid_state)
        | some remainder ↦ add_values system m source remainder (first ∷ rest) balance
      ]
    ]

    -- Behind the tests on NULL.
    unfoldable pub add_buffer :
        System
        → Molecule
        → Bool
        → Wallet
        → Wallet
        → Wallet
        → floats.Double
        → ℤ
        → Molecule × ErrorCode
    unfolding add_all buffer_atoms
    add_buffer system m deposit source middle remainder balance amount =
        if ltb_ℤ amount (pos 0)
        then (m, invalid_args)
        else if is_short balance amount
        then (m, balance_insufficient)
        else add_all system m
            (buffer_atoms system.now deposit source middle remainder (casts.to_int balance) amount)

    -- `init_buffer_common`
    unfoldable pub init_buffer_common :
        System → Molecule → Option Wallet → floats.Double → ℤ → Bool → Molecule × ErrorCode
    unfolding add_buffer
    init_buffer_common system m none balance amount deposit = (m, invalid_args)
    init_buffer_common system m (some middle) balance amount deposit = elim m.source_wallet [
      | none ↦ (m, invalid_state)
      | some source ↦ elim m.remainder_wallet [
        | none ↦ (m, invalid_state)
        | some remainder ↦ add_buffer system m deposit source middle remainder balance amount
      ]
    ]

    -- `knishio_molecule_init_deposit_buffer`
    abbrev pub init_deposit_buffer :
        System → Molecule → Option Wallet → floats.Double → ℤ → Molecule × ErrorCode
    init_deposit_buffer system m w balance amount =
        init_buffer_common system m w balance amount true

    -- `knishio_molecule_init_withdraw_buffer`
    abbrev pub init_withdraw_buffer :
        System → Molecule → Option Wallet → floats.Double → ℤ → Molecule × ErrorCode
    init_withdraw_buffer system m w balance amount =
        init_buffer_common system m w balance amount false

    -- Behind the tests on NULL.
    unfoldable pub add_burn :
        System → Molecule → Wallet → Wallet → floats.Double → ℤ → Molecule × ErrorCode
    unfolding add_all source_atom credit_atom burn_atom
    add_burn system m source remainder balance amount =
        if is_short balance amount
        then (m, balance_insufficient)
        else add_all system m (burn_atoms system.now source remainder (casts.to_int balance) amount)

    -- `knishio_molecule_init_burn`
    unfoldable pub init_burn : System → Molecule → floats.Double → ℤ → Molecule × ErrorCode
    unfolding add_burn
    init_burn system m balance amount = elim m.source_wallet [
      | none ↦ (m, invalid_state)
      | some source ↦ elim m.remainder_wallet [
        | none ↦ (m, invalid_state)
        | some remainder ↦ add_burn system m source remainder balance amount
      ]
    ]
