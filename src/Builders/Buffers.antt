-- ===== src/Builders/Buffers.antt =====
-- That the molecules that `knishio_molecule_init_deposit_buffer` and
-- `knishio_molecule_init_withdraw_buffer` (src/molecule.c) build conserve value.
use knish_io_client_c.Builders.{System, add_all}
use knish_io_client_c.Builders.Balanced.{is_cross_isotope, Fits, FitAll, built}
use knish_io_client_c.Builders.Conserves.{debit, credit, Ready, three_amounts, not_short}
use knish_io_client_c.Builders.Exact.{Exact, Entry, CarryAll}
use knish_io_client_c.Builders.Long.{Cross, Cross-conserves}
use knish_io_client_c.Builders.Made.{
  Usable, at_wallet-Made, bundle_units-Finishes, bundle-Finishes, nothing-Finishes,
}
use knish_io_client_c.Builders.Transfer.{
  left_over, Casts, buffer_source_atom, buffer_atom, buffer_atoms, init_buffer_common, add_buffer,
}
use knish_io_client_c.Builders.Units.{Cjson}
use knish_io_client_c.Check.Value.{Floats, is_cross, has_cross_isotope, check_isotope_v}
use knish_io_client_c.Errors.{success}
use knish_io_client_c.Isotope.{Isotope, isotope_v, isotope_b, isotope_eq}
use knish_io_client_c.Molecule.{Atom, Molecule, atom_count}
use knish_io_client_c.Wallet.{Wallet}
use knish_io_client_c.Prelude.{
  int_max, ℕ, ◌≤◌, ◌≡◌, ◌≢◌, refl, ap, ◌∙◌, Bool, true, false, Option, none, some, List, [], ◌∷◌,
  Bytes, codes, ℤ, pos, ltb_ℤ, All, arith, inl, inr, if◌then◌else◌,
}

-- The wallet has a bundle hash to refer to.
abbrev pub HasBundle : Wallet → Type 0
HasBundle w = (w.bundle_hash ≢ none) × (w.bundle_hash ≢ some [])

module _ (cjson : Cjson) where
  buffer_debit-Fits :
      (now : ℤ) (w : Wallet) (n : ℕ)
      → Usable w
      → HasBundle w
      → Fits (buffer_source_atom cjson now false w (pos n)) (debit isotope_b n)
  unfolding buffer_source_atom
  buffer_debit-Fits now w n u b = record {
    meta_type = some (codes "walletBundle");
    meta_id = w.bundle_hash;
    is_made =
        at_wallet-Made now w (debit isotope_b n) w.token w.batch_id u.token _ _ _ u u.has_token
          (bundle_units-Finishes cjson w);
    shape = λ h. (refl, b.0, b.1);
  }

  value_debit-Fits :
      (now : ℤ) (w : Wallet) (n : ℕ)
      → Usable w
      → Fits (buffer_source_atom cjson now true w (pos n)) (debit isotope_v n)
  unfolding buffer_source_atom isotope_eq
  value_debit-Fits now w n u = record {
    meta_type = none;
    meta_id = none;
    is_made =
        at_wallet-Made now w (debit isotope_v n) w.token w.batch_id u.token _ _ _ u u.has_token
          nothing-Finishes;
    shape = λ h. absurd (cc h);
  }

buffer_atom-Fits :
    (now : ℤ) (isotope : Isotope) (w : Wallet) (token bundle : Option Bytes) (name : Bytes) (z : ℤ)
    → Usable w
    → token ≡ some name
    → (is_cross_isotope isotope ≡ true → (bundle ≢ none) × (bundle ≢ some []))
    → Fits (buffer_atom now isotope w token bundle z) (credit isotope z)
unfolding buffer_atom
buffer_atom-Fits now isotope w token bundle name z u h b = record {
  meta_type = some (codes "walletBundle");
  meta_id = bundle;
  is_made =
      at_wallet-Made now w (credit isotope z) token w.batch_id name _ _ _ u h
        (bundle-Finishes bundle);
  shape = λ c. (refl, (b c).0, (b c).1);
}

-- Whether a B or F atom is among the entries.
abbrev pub any_cross : List Entry → Bool
any_cross [] = false
any_cross (e ∷ entries) = if is_cross_isotope e.isotope then true else any_cross entries

pub has_cross-entries :
    (atoms : List Atom) (entries : List Entry)
    → CarryAll atoms entries
    → has_cross_isotope atoms ≡ any_cross entries
unfolding has_cross_isotope
has_cross-entries [] [] h = refl
has_cross-entries [] (e ∷ entries) h = absurd h
has_cross-entries (a ∷ atoms) [] h = absurd h
has_cross-entries (a ∷ atoms) (e ∷ entries) ((i, t), h) =
    let own : is_cross a ≡ is_cross_isotope e.isotope = ap is_cross_isotope i in
    let rest = has_cross-entries atoms entries h in rw (own, rest) refl

-- The isotopes of the outer atoms and of the middle atom.
abbrev outer : Bool → Isotope
outer true = isotope_v
outer false = isotope_b

abbrev middle_isotope : Bool → Isotope
middle_isotope true = isotope_b
middle_isotope false = isotope_v

abbrev buffer_entries : Bool → ℕ → ℤ → List Entry
buffer_entries deposit n amount =
    debit (outer deposit) n
    ∷ credit (middle_isotope deposit) amount
    ∷ credit (outer deposit) (left_over (pos n) amount)
    ∷ []

buffer_crosses :
    (deposit : Bool) (n : ℕ) (amount : ℤ)
    → (any_cross (buffer_entries deposit n amount) ≡ true)
      × All Cross (buffer_entries deposit n amount)
unfolding isotope_eq
buffer_crosses true n amount = (refl, (inl refl, (inr (inl refl), (inl refl, tt))))
buffer_crosses false n amount = (refl, (inr (inl refl), (inl refl, (inr (inl refl), tt))))

module _ (cjson : Cjson) (floats : Floats) (casts : Casts floats) (of_long : ℤ → floats.LongDouble)
    (exact : Exact floats casts of_long) where
  init_buffer-add_all :
      (system : System) (m : Molecule) (source middle remainder : Wallet) (n k : ℕ) (deposit : Bool)
      → Ready system m source remainder
      → k ≤ n
      → n ≤ int_max
      → init_buffer_common cjson floats casts system m
          (some middle)
          (casts.of_int (pos n))
          (pos k)
          deposit
        ≡ add_all system m
            (buffer_atoms cjson system.now deposit source middle remainder (pos n) (pos k))
  unfolding init_buffer_common add_buffer
  init_buffer-add_all system m source middle remainder n k deposit ready h l =
      let short =
        not_short cjson floats casts of_long exact n (pos k) (omega arith) (omega arith) in
      let whole = exact.cast (pos n) (omega arith, omega arith) in
      let sign : ltb_ℤ (pos k) (pos 0) ≡ false = ground arith in
      simp
        (init_buffer_common, ready.has_source, ready.has_remainder, add_buffer, sign, short, whole)

  buffer_fits :
      (now : ℤ) (source middle remainder : Wallet) (n : ℕ) (amount : ℤ) (deposit : Bool)
      → Usable source
      → Usable middle
      → Usable remainder
      → HasBundle source
      → HasBundle remainder
      → FitAll
          (buffer_atoms cjson now deposit source middle remainder (pos n) amount)
          (buffer_entries deposit n amount)
  unfolding buffer_atoms isotope_eq
  buffer_fits now source middle remainder n amount true s w r b c = (
    value_debit-Fits cjson now source n s,
    (
      buffer_atom-Fits now isotope_b middle middle.token source.bundle_hash w.token amount w
          w.has_token (λ h. b),
      (
        buffer_atom-Fits now isotope_v remainder remainder.token source.bundle_hash r.token
            (left_over (pos n) amount) r r.has_token (λ h. b),
        tt,
      ),
    ),
  )
  buffer_fits now source middle remainder n amount false s w r b c = (
    buffer_debit-Fits cjson now source n s b,
    (
      buffer_atom-Fits now isotope_v middle source.token middle.bundle_hash s.token amount w
          s.has_token (λ h. absurd (cc h)),
      (
        buffer_atom-Fits now isotope_b remainder remainder.token remainder.bundle_hash r.token
            (left_over (pos n) amount) r r.has_token (λ h. c),
        tt,
      ),
    ),
  )

  -- A deposit into a buffer or a withdrawal, of an amount from zero to the balance, always builds a
  -- molecule of three atoms that passes the value test across isotopes. The molecule has no atoms
  -- before, there is memory, the three wallets have a token, a position and an address, the source
  -- and the remainder wallet have a bundle hash, the balance is a whole number from 0 to INT_MAX.
  pub init_buffer-conserves :
      (system : System) (m : Molecule) (source middle remainder : Wallet) (n k : ℕ) (deposit : Bool)
      (sender : Option floats.Double)
      → Ready system m source remainder
      → Usable middle
      → HasBundle source
      → HasBundle remainder
      → k ≤ n
      → n ≤ int_max
      → (m' : Molecule) × (init_buffer_common cjson floats casts system m
            (some middle)
            (casts.of_int (pos n))
            (pos k)
            deposit
          ≡ (m', success))
        × (atom_count m' ≡ 3)
        × ((check_isotope_v floats m' sender).0 ≡ true)
  init_buffer-conserves system m source middle remainder n k deposit sender ready usable b c h l =
      let entries = buffer_entries deposit n (pos k) in
      let three = three_amounts n (pos k) (omega arith) (omega arith) in
      let (m', done, count, carry, shaped) =
        built system m
          (buffer_atoms cjson system.now deposit source middle remainder (pos n) (pos k)) entries
          ready.ordered ready.none_yet ready.memory
          (buffer_fits system.now source middle remainder n (pos k) deposit ready.from_source usable
            ready.to_remainder b c)
          (omega arith) in
      let (crosses, all_cross) = buffer_crosses deposit n (pos k) in
      (
        m',
        init_buffer-add_all system m source middle remainder n k deposit ready h l ∙ done,
        count,
        Cross-conserves floats casts of_long exact m' entries sender
            (has_cross-entries m'.atoms entries carry ∙ crosses) carry all_cross shaped three.0
            three.1,
      )
