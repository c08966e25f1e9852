-- ===== src/Builders/Several.antt =====
-- That the molecules that `knishio_molecule_init_values` (src/molecule.c) builds conserve value.
use knish_io_client_c.Builders.Conserves.{
  debit, Ready, source_atom-Fits, credit_atom-Fits, not_short,
}
use knish_io_client_c.Builders.{System, add_all}
use knish_io_client_c.Builders.Exact.{Exact, amounts}
use knish_io_client_c.Builders.Made.{Usable}
use knish_io_client_c.Builders.Balanced.{FitAll, built, Sender, v_conserves}
use knish_io_client_c.Builders.Payments.{
  all_given, payments, AllUsable, then_left, then_left-AllV, length-then_left, paid, sum_of_all,
  magnitudes-all,
}
use knish_io_client_c.Builders.Transfer.{
  Casts, left_over, credit_atom, values_atoms, recipient_atom, init_values, add_values,
}
use knish_io_client_c.Builders.Units.{Cjson}
use knish_io_client_c.Check.Value.{Floats, check_isotope_v}
use knish_io_client_c.Errors.{success}
use knish_io_client_c.Isotope.{isotope_v}
use knish_io_client_c.Molecule.{Molecule, atom_count}
use knish_io_client_c.Wallet.{Wallet}
use knish_io_client_c.Prelude.{
  ℕ, ◌+◌, ◌≤◌, ◌≡◌, refl, ap, ◌∙◌, true, Option, List, [], ◌∷◌, ◌++◌, map, length, ℤ, pos, ◌+ℤ◌,
  ◌-ℤ◌, ◌≤ℤ◌, sum_ℤ, arith, int_max, negatives,
}

module _ (cjson : Cjson) where
  recipients_fit :
      (now : ℤ) (recipients : List (Wallet × ℤ)) (remainder : Wallet) (left : ℤ)
      → AllUsable recipients
      → Usable remainder
      → FitAll
          (map (recipient_atom cjson now) (all_given recipients)
            ++ credit_atom cjson now remainder remainder.batch_id left ∷ [])
          (then_left recipients left)
  recipients_fit now [] remainder left us u =
      (credit_atom-Fits cjson now remainder remainder.batch_id left u, tt)
  recipients_fit now ((w, z) ∷ recipients) remainder left (v, us) u = (
    credit_atom-Fits cjson now w w.batch_id z v,
    recipients_fit now recipients remainder left us u,
  )

  module _ (floats : Floats) (casts : Casts floats) (of_long : ℤ → floats.LongDouble)
      (exact : Exact floats casts of_long) where
    init_values-add_all :
        (system : System) (m : Molecule) (source remainder : Wallet) (first : Wallet × ℤ)
        (rest : List (Wallet × ℤ)) (n : ℕ)
        → Ready system m source remainder
        → sum_ℤ (payments (first ∷ rest)) ≤ℤ pos n
        → n + negatives (payments (first ∷ rest)) ≤ int_max
        → init_values cjson floats casts system m (all_given (first ∷ rest)) (casts.of_int (pos n))
          ≡ add_all system m (
              values_atoms cjson system.now source remainder
                (all_given (first ∷ rest))
                (pos n)
                (sum_ℤ (payments (first ∷ rest))))
    unfolding init_values add_values
    init_values-add_all system m source remainder first rest n ready h l =
        let total = sum_ℤ (payments (first ∷ rest)) in
        let p = paid (first ∷ rest) n h l in
        let short = not_short cjson floats casts of_long exact n total h p.room in
        let whole = exact.cast (pos n) (omega arith, omega arith) in
        simp (init_values, ready.has_source, ready.has_remainder, add_values, p.total, short, whole)

    -- A transfer to at least one recipient and at most 254, of at most the balance in all, always
    -- builds a molecule with an atom for the source, one for each recipient and one for the
    -- remainder, that passes the value test, whether or not the balance of the sender is tested
    -- too. The molecule has no atoms before, there is memory, all the wallets have a token, a
    -- position and an address, the balance is a whole number that is not negative, and it, plus the
    -- sizes of the negative amounts, is at most INT_MAX.
    pub init_values-conserves :
        (system : System) (m : Molecule) (source remainder : Wallet) (first : Wallet × ℤ)
        (rest : List (Wallet × ℤ)) (n : ℕ) (sender : Option floats.Double)
        → Ready system m source remainder
        → AllUsable (first ∷ rest)
        → length (first ∷ rest) ≤ 254
        → sum_ℤ (payments (first ∷ rest)) ≤ℤ pos n
        → n + negatives (payments (first ∷ rest)) ≤ int_max
        → Sender floats casts of_long exact sender n
        → (m' : Molecule) × (init_values cjson floats casts system m
              (all_given (first ∷ rest))
              (casts.of_int (pos n))
            ≡ (m', success))
          × (atom_count m' ≡ length (first ∷ rest) + 2)
          × ((check_isotope_v floats m' sender).0 ≡ true)
    init_values-conserves system m source remainder first rest n sender ready us few h l s =
        let recipients = first ∷ rest in
        let left = left_over (pos n) (sum_ℤ (payments recipients)) in
        let p = paid recipients n h l in
        let entries = then_left recipients left in
        let (m', done, count, carry, shaped) =
          built system m
            (values_atoms cjson system.now source remainder (all_given recipients) (pos n)
              (sum_ℤ (payments recipients)))
            (debit isotope_v n ∷ entries) ready.ordered ready.none_yet ready.memory
            (
              source_atom-Fits cjson system.now source source.batch_id n ready.from_source,
              recipients_fit system.now recipients remainder left us ready.to_remainder,
            )
            (omega (arith, length-then_left recipients left)) in
        (
          m',
          init_values-add_all system m source remainder first rest n ready h l ∙ done,
          count ∙ omega (arith, length-then_left recipients left),
          v_conserves floats casts of_long exact m' (debit isotope_v n) entries sender n carry
              (refl, then_left-AllV recipients left) (magnitudes-all recipients n p)
              (ap (λ x. (pos 0 -ℤ pos n) +ℤ sum_ℤ (amounts (then_left recipients x))) p.left
                ∙ sum_of_all recipients n)
              refl (omega arith) s,
        )
