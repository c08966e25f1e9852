-- ===== src/Check/Value.antt =====
-- Conservation of value in a molecule (`check_isotope_v` and `check_cross_isotope_conservation` of
-- src/libraries/check_molecule.c). The floating-point numbers of C, `atof` and `strtold` are a
-- parameter.
use knish_io_client_c.Errors.{ErrorCode, transfer_unbalanced, meta_missing}
use knish_io_client_c.Isotope.{isotope_v, isotope_b, isotope_f, isotope_eq}
use knish_io_client_c.Molecule.{Atom, Molecule}
use knish_io_client_c.Check.Rules.{is_text}
use knish_io_client_c.Prelude.{
  ℕ, ◌+◌, Bool, true, false, not, ◌&&◌, ◌||◌, Option, none, some, List, [], ◌∷◌, Bytes, codes,
  if◌then◌else◌, length, ltb, ◌==◌,
}

-- What `strtold` says: the number, how many characters it read, and whether `errno` is ERANGE.
pub record Strtold (A : Type 0) : Type 0 where
  pub number : A
  pub consumed : ℕ
  pub out_of_range : Bool

-- `double` and `long double`: the constants and operations that the tests use. `is_below` is `<`.
pub record Floats : Type 1 where
  pub Double : Type 0
  pub double_zero : Double
  pub hundredth : Double
  pub plus : Double → Double → Double
  pub minus : Double → Double → Double
  pub fabs : Double → Double
  pub is_below : Double → Double → Bool
  pub atof : Bytes → Double
  pub LongDouble : Type 0
  pub long_zero : LongDouble
  pub billionth : LongDouble
  pub plus_long : LongDouble → LongDouble → LongDouble
  pub fabsl : LongDouble → LongDouble
  pub is_below_long : LongDouble → LongDouble → Bool
  pub strtold : Bytes → Strtold LongDouble

-- B and F: the atoms of the buffer family.
abbrev pub is_cross : Atom → Bool
is_cross a = isotope_eq a.isotope isotope_b || isotope_eq a.isotope isotope_f

-- The gate of `check_isotope_v`, and `saw_cross_isotope` behind the loop.
unfoldable pub has_cross_isotope : List Atom → Bool
has_cross_isotope [] = false
has_cross_isotope (a ∷ atoms) =
    let rest = has_cross_isotope atoms in if is_cross a then true else rest

abbrev pub is_empty : Bytes → Bool
is_empty [] = true
is_empty (c ∷ text) = false

-- The meta type and the meta identifier of a B or F atom.
unfoldable pub has_bundle_shape : Atom → Bool
has_bundle_shape a =
    is_text a.meta_type (codes "walletBundle")
    && elim a.meta_id [ none ↦ false | some id ↦ not (is_empty id) ]

module _ (floats : Floats) where
  -- The value of an atom, which is an F atom or not: `none` fails the test, `some none` is an atom
  -- without a value.
  unfoldable pub parse_value : Bool → Option Bytes → Option (Option floats.LongDouble)
  parse_value is_f none = some none
  parse_value is_f (some []) = some none
  parse_value is_f (some (c ∷ rest)) =
      let text = c ∷ rest in
      let parsed = floats.strtold text in
      if parsed.consumed == 0 || ltb parsed.consumed (length text) || parsed.out_of_range
      then none
      else if is_f && floats.is_below_long parsed.number floats.long_zero
      then none
      else some (some parsed.number)

  -- The loop: the sum, or the code that is in `*why` when it returns false.
  unfoldable pub cross_loop : List Atom → floats.LongDouble → Option floats.LongDouble × ErrorCode
  cross_loop [] sum = (some sum, transfer_unbalanced)
  cross_loop (a ∷ atoms) sum =
      if is_cross a && not (has_bundle_shape a)
      then (none, meta_missing)
      else if not (is_cross a) && not (isotope_eq a.isotope isotope_v)
      then cross_loop atoms sum
      else elim (parse_value (isotope_eq a.isotope isotope_f) a.value) [
        | none ↦ (none, transfer_unbalanced)
        | some none ↦ cross_loop atoms sum
        | some (some number) ↦ cross_loop atoms (floats.plus_long sum number)
      ]

  -- Behind the loop: the flag is `saw_cross_isotope`.
  abbrev pub cross_verdict : Bool → Option floats.LongDouble × ErrorCode → Bool × ErrorCode
  cross_verdict saw (none, why) = (false, why)
  cross_verdict saw (some sum, why) =
      (if saw then floats.is_below_long (floats.fabsl sum) floats.billionth else true, why)

  -- `check_cross_isotope_conservation`: the verdict, and `*why`.
  unfoldable pub check_cross_isotope_conservation : List Atom → Bool × ErrorCode
  check_cross_isotope_conservation atoms =
      cross_verdict (has_cross_isotope atoms) (cross_loop atoms floats.long_zero)

  -- The loop that counts the V atoms and adds up their values.
  unfoldable pub total_loop : List Atom → ℕ → floats.Double → ℕ × floats.Double
  total_loop [] count total = (count, total)
  total_loop (a ∷ atoms) count total =
      if isotope_eq a.isotope isotope_v
      then elim a.value [
        | none ↦ total_loop atoms (count + 1) total
        | some text ↦ total_loop atoms (count + 1) (floats.plus total (floats.atof text))
      ]
      else total_loop atoms count total

  -- The first value and the balance of the sender.
  unfoldable pub sender_rule : floats.Double → floats.Double → Bytes → Bool
  sender_rule balance total text =
      let remainder = floats.plus balance (floats.atof text) in
      if floats.is_below remainder floats.double_zero
      then false
      else not (floats.is_below floats.hundredth (floats.fabs (floats.minus remainder total)))

  -- The test on the sender's wallet, of which the balance is given.
  unfoldable pub check_sender : Option floats.Double → ℕ → floats.Double → List Atom → Bool
  check_sender none count total atoms = true
  check_sender (some balance) count total [] = true
  check_sender (some balance) count total (first ∷ rest) =
      if ltb 0 count && isotope_eq first.isotope isotope_v
      then elim first.value [ none ↦ true | some text ↦ sender_rule balance total text ]
      else true

  -- `check_isotope_v`: the verdict, and `*why`; the balance is that of `sender_wallet`.
  unfoldable pub check_isotope_v : Molecule → Option floats.Double → Bool × ErrorCode
  check_isotope_v m balance =
      if has_cross_isotope m.atoms
      then check_cross_isotope_conservation m.atoms
      else (let counted = total_loop m.atoms 0 floats.double_zero in
          if not (floats.is_below (floats.fabs counted.1) floats.hundredth)
          then (false, transfer_unbalanced)
          else (check_sender balance counted.0 counted.1 m.atoms, transfer_unbalanced))
