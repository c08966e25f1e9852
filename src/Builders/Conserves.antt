-- ===== src/Builders/Conserves.antt =====
-- That the molecules that `knishio_molecule_init_value`, `knishio_molecule_init_values` and
-- `knishio_molecule_init_burn` (src/molecule.c) build conserve value, as check_isotope_v of
-- src/libraries/check_molecule.c tests it.
use knish_io_client_c.Builders.{System, add_all}
use knish_io_client_c.Builders.Adding.{HasMemory}
use knish_io_client_c.Builders.Exact.{
  printed, debited, magnitude, limit, Exact, Entry, magnitudes, magnitude-debit,
}
use knish_io_client_c.Builders.Made.{Usable, at_wallet-Made, units-Finishes, bundle_units-Finishes}
use knish_io_client_c.Builders.Balanced.{Fits, built, Sender, v_conserves}
use knish_io_client_c.Builders.Transfer.{
  Casts, print_debit, source_atom, credit_atom, left_over, value_atoms, is_short, init_value,
}
use knish_io_client_c.Builders.Units.{Cjson}
use knish_io_client_c.Check.Value.{Floats, check_isotope_v}
use knish_io_client_c.Decimal.{print_int}
use knish_io_client_c.Errors.{success}
use knish_io_client_c.Isotope.{Isotope, isotope_v, isotope_eq}
use knish_io_client_c.Molecule.{Molecule, atom_count}
use knish_io_client_c.Molecule.Array.{IsWellFormed}
use knish_io_client_c.Wallet.{Wallet}
use knish_io_client_c.Prelude.{
  ℕ, ◌+◌, ◌≤◌, ◌≡◌, refl, ◌∙◌, true, false, Option, none, some, [], ◌∷◌, Bytes, codes, ℤ, pos, ◌+ℤ◌,
  ◌-ℤ◌, ◌≤ℤ◌, sum_ℤ, neg_part, int_max, wrap_int-IsInt, arith, +ℤ_parts, -ℤ_parts, eq_of_parts,
}

-- The entry of a whole balance that is debited, and of an amount that is credited.
abbrev pub debit : Isotope → ℕ → Entry
debit isotope n = record {
  isotope = isotope;
  text = print_debit (pos n);
  amount = pos 0 -ℤ pos n;
  denotes = debited n;
}

abbrev pub credit : Isotope → ℤ → Entry
credit isotope z = record { isotope = isotope; text = print_int z; amount = z; denotes = printed z }

-- A molecule without atoms, in which everything is there to build.
pub record Ready (system : System) (m : Molecule) (source remainder : Wallet) : Type 0 where
  pub ordered : IsWellFormed m
  pub none_yet : m.atoms ≡ []
  pub memory : HasMemory system
  pub has_source : m.source_wallet ≡ some source
  pub has_remainder : m.remainder_wallet ≡ some remainder
  pub from_source : Usable source
  pub to_remainder : Usable remainder

module _ (cjson : Cjson) where
  pub source_atom-Fits :
      (now : ℤ) (w : Wallet) (batch_id : Option Bytes) (n : ℕ)
      → Usable w
      → Fits (source_atom cjson now w batch_id (pos n)) (debit isotope_v n)
  unfolding source_atom isotope_eq
  source_atom-Fits now w batch_id n u = record {
    meta_type = none;
    meta_id = none;
    is_made =
        at_wallet-Made now w (debit isotope_v n) w.token batch_id u.token _ none none u u.has_token
          (units-Finishes cjson w);
    shape = λ h. absurd (cc h);
  }

  pub credit_atom-Fits :
      (now : ℤ) (w : Wallet) (batch_id : Option Bytes) (z : ℤ)
      → Usable w
      → Fits (credit_atom cjson now w batch_id z) (credit isotope_v z)
  unfolding credit_atom isotope_eq
  credit_atom-Fits now w batch_id z u = record {
    meta_type = some (codes "walletBundle");
    meta_id = w.bundle_hash;
    is_made =
        at_wallet-Made now w (credit isotope_v z) w.token batch_id u.token _ _ _ u u.has_token
          (bundle_units-Finishes cjson w);
    shape = λ h. absurd (cc h);
  }

pub magnitude-ℤ : (x y : ℤ) → magnitude (x -ℤ y) ≤ magnitude x + magnitude y
unfolding ◌-ℤ◌
magnitude-ℤ x y = ground arith

-- A debit of the whole, an amount, and what is left.
pub sum_of_three : (n : ℕ) (z : ℤ) → sum_ℤ ((pos 0 -ℤ pos n) ∷ z ∷ (pos n -ℤ z) ∷ []) ≡ pos 0
sum_of_three n z =
    let left = pos n -ℤ z in
    eq_of_parts _ _ (
      omega (
        arith,
        +ℤ_parts (pos 0 -ℤ pos n) (z +ℤ (left +ℤ pos 0)),
        +ℤ_parts z (left +ℤ pos 0),
        +ℤ_parts left (pos 0),
        -ℤ_parts (pos n) z,
        -ℤ_parts (pos 0) (pos n),
      ))

pub small_three :
    (n : ℕ) (z : ℤ)
    → n + n + (magnitude z + magnitude z) ≤ limit
    → magnitudes ((pos 0 -ℤ pos n) ∷ z ∷ (pos n -ℤ z) ∷ []) ≤ limit
small_three n z l = omega (arith, magnitude-debit n, magnitude-ℤ (pos n) z)

-- The balance and what is left of it fit into an `int`.
pub small_amounts :
    (n : ℕ) (z : ℤ)
    → z ≤ℤ pos n
    → n + neg_part z ≤ int_max
    → n + n + (magnitude z + magnitude z) ≤ limit
small_amounts n z h l = omega arith

pub left_over-difference :
    (n : ℕ) (z : ℤ) → z ≤ℤ pos n → n + neg_part z ≤ int_max → left_over (pos n) z ≡ pos n -ℤ z
unfolding ◌-ℤ◌
left_over-difference n z h l = wrap_int-IsInt (pos n -ℤ z) (ground arith)

-- The three amounts.
pub three_amounts :
    (n : ℕ) (z : ℤ)
    → z ≤ℤ pos n
    → n + neg_part z ≤ int_max
    → (magnitudes ((pos 0 -ℤ pos n) ∷ z ∷ left_over (pos n) z ∷ []) ≤ limit)
      × (sum_ℤ ((pos 0 -ℤ pos n) ∷ z ∷ left_over (pos n) z ∷ []) ≡ pos 0)
three_amounts n z h l =
    rw (left_over-difference n z h l) (small_three n z (small_amounts n z h l), sum_of_three n z)

module _ (cjson : Cjson) (floats : Floats) (casts : Casts floats) (of_long : ℤ → floats.LongDouble)
    (exact : Exact floats casts of_long) where
  pub not_short :
      (n : ℕ) (z : ℤ)
      → z ≤ℤ pos n
      → n + neg_part z ≤ int_max
      → is_short cjson floats casts (casts.of_int (pos n)) z ≡ false
  not_short n z h l =
      let small = small_amounts n z h l in
      exact.compare (pos n) z (omega (arith, small)) (omega (arith, small)) ∙ ground arith

  pub init_value-add_all :
      (system : System) (m : Molecule) (source recipient remainder : Wallet) (n : ℕ) (amount : ℤ)
      → Ready system m source remainder
      → amount ≤ℤ pos n
      → n + neg_part amount ≤ int_max
      → init_value cjson floats casts system m (some recipient) (casts.of_int (pos n)) amount
        ≡ add_all system m
            (value_atoms cjson system.now source recipient (some remainder) (pos n) amount)
  unfolding init_value
  init_value-add_all system m source recipient remainder n amount ready h l =
      let short = not_short n amount h l in
      let whole = exact.cast (pos n) (omega arith, omega arith) in
      simp (init_value, ready.has_source, ready.has_remainder, short, whole)

  -- A transfer of at most the balance, with a remainder wallet, always builds a molecule of three
  -- atoms that passes the value test, whether or not the balance of the sender is tested too. The
  -- molecule has no atoms before, there is memory, the three wallets have a token, a position and
  -- an address, the balance is a whole number that is not negative, and it, plus the size of the
  -- amount if that is negative, is at most INT_MAX.
  pub init_value-conserves :
      (system : System) (m : Molecule) (source recipient remainder : Wallet) (n : ℕ) (amount : ℤ)
      (sender : Option floats.Double)
      → Ready system m source remainder
      → Usable recipient
      → amount ≤ℤ pos n
      → n + neg_part amount ≤ int_max
      → Sender floats casts of_long exact sender n
      → (m' : Molecule) × (init_value cjson floats casts system m
            (some recipient)
            (casts.of_int (pos n))
            amount
          ≡ (m', success))
        × (atom_count m' ≡ 3)
        × ((check_isotope_v floats m' sender).0 ≡ true)
  init_value-conserves system m source recipient remainder n amount sender ready usable h l s =
      let left = left_over (pos n) amount in
      let (small, balanced) = three_amounts n amount h l in
      let entries = debit isotope_v n ∷ credit isotope_v amount ∷ credit isotope_v left ∷ [] in
      let (m', done, count, carry, shaped) =
        built system m
          (value_atoms cjson system.now source recipient (some remainder) (pos n) amount) entries
          ready.ordered ready.none_yet ready.memory
          (
            source_atom-Fits cjson system.now source source.batch_id n ready.from_source,
            (
              credit_atom-Fits cjson system.now recipient recipient.batch_id amount usable,
              (
                credit_atom-Fits cjson system.now remainder remainder.batch_id left
                    ready.to_remainder,
                tt,
              ),
            ),
          )
          (omega arith) in
      (
        m',
        init_value-add_all system m source recipient remainder n amount ready h l ∙ done,
        count,
        v_conserves floats casts of_long exact m' (debit isotope_v n)
            (credit isotope_v amount ∷ credit isotope_v left ∷ []) sender n carry
            (refl, (refl, (refl, tt))) small balanced refl (omega arith) s,
      )
