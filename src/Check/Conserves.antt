-- ===== src/Check/Conserves.antt =====
-- What `check_cross_isotope_conservation` of src/libraries/check_molecule.c says about the atoms.
use knish_io_client_c.Errors.{ErrorCode, transfer_unbalanced, meta_missing}
use knish_io_client_c.Isotope.{isotope_v, isotope_f, isotope_eq}
use knish_io_client_c.Molecule.{Atom, Molecule}
use knish_io_client_c.Check.Lawful.{is_text_iff}
use knish_io_client_c.Check.Value.{
  Floats, is_cross, has_cross_isotope, has_bundle_shape, parse_value, cross_loop, cross_verdict,
  check_cross_isotope_conservation, check_isotope_v,
}
use knish_io_client_c.Prelude.{
  ◌+◌, ◌≤◌, ◌≡◌, ◌≢◌, refl, ap, sym, ◌∙◌, Bool, true, false, ◌||◌, Option, none, some, Option-cases,
  List, [], ◌∷◌, Bytes, codes, if◌then◌else◌, length, All, arith, ◌↔◌, ◌⊎◌, inl, inr,
}

-- The meta data of a B or F atom.
abbrev pub BundleShape : Atom → Type 0
BundleShape a =
    (a.meta_type ≡ some (codes "walletBundle")) × (a.meta_id ≢ none) × (a.meta_id ≢ some [])

has_bundle_shape_iff : (a : Atom) → (has_bundle_shape a ≡ true) ↔ BundleShape a
unfolding has_bundle_shape
has_bundle_shape_iff a = ground (arith, is_text_iff a.meta_type (codes "walletBundle"))

-- V, B and F: the atoms whose values add up.
abbrev pub takes_part : Atom → Bool
takes_part a = is_cross a || isotope_eq a.isotope isotope_v

abbrev pub is_f : Atom → Bool
is_f a = isotope_eq a.isotope isotope_f

module _ (floats : Floats) where
  -- A value that is missing or empty, or that is a number to its last character: in range, and for
  -- an F atom not negative.
  abbrev pub Valued : Bool → Option Bytes → Type 0
  Valued f none = Unit
  Valued f (some []) = Unit
  Valued f (some (c ∷ rest)) =
      (1 + length rest ≤ (floats.strtold (c ∷ rest)).consumed)
      × ((floats.strtold (c ∷ rest)).out_of_range ≡ false)
      × (f ≡ true
          → floats.is_below_long (floats.strtold (c ∷ rest)).number floats.long_zero ≡ false)

  abbrev pub number_of : Option Bytes → Option floats.LongDouble
  number_of none = none
  number_of (some []) = none
  number_of (some (c ∷ rest)) = some (floats.strtold (c ∷ rest)).number

  abbrev plus_value : floats.LongDouble → Option floats.LongDouble → floats.LongDouble
  plus_value sum none = sum
  plus_value sum (some number) = floats.plus_long sum number

  -- The sum of the values from the left.
  abbrev pub total_from : floats.LongDouble → List Atom → floats.LongDouble
  total_from sum [] = sum
  total_from sum (a ∷ atoms) =
      total_from (if takes_part a then plus_value sum (number_of a.value) else sum) atoms

  parse_value-Valued :
      (f : Bool) (v : Option Bytes)
      → (Valued f v × (parse_value floats f v ≡ some (number_of v)))
        ⊎ (¬ Valued f v × (parse_value floats f v ≡ none))
  unfolding parse_value
  parse_value-Valued f none = inl (tt, refl)
  parse_value-Valued f (some []) = inl (tt, refl)
  parse_value-Valued f (some (c ∷ rest)) = ground arith

  -- Each B and F atom has the shape, and each value that adds up is well formed.
  abbrev pub Conserving : List Atom → Type 0
  Conserving atoms =
      All (λ a. is_cross a ≡ true → BundleShape a) atoms
      × All (λ a. takes_part a ≡ true → Valued (is_f a) a.value) atoms

  cross_loop_iff :
      (atoms : List Atom) (sum total : floats.LongDouble)
      → ((cross_loop floats atoms sum).0 ≡ some total)
        ↔ (Conserving atoms × (total_from sum atoms ≡ total))
  unfolding cross_loop
  cross_loop_iff [] sum total = ground arith
  cross_loop_iff (a ∷ atoms) sum total =
      let shape = has_bundle_shape_iff a in
      let same = cross_loop_iff atoms sum total in
      let added = cross_loop_iff atoms (plus_value sum (number_of a.value)) total in
      let value = parse_value-Valued (is_f a) a.value in
      elim (Option-cases (number_of a.value)) [
        | inl n ↦ ground arith
        | inr (number, n) ↦ ground arith
      ]

  cross_why :
      (atoms : List Atom) (sum : floats.LongDouble)
      → (cross_loop floats atoms sum).1 ≡ meta_missing
      → ¬ All (λ a. is_cross a ≡ true → BundleShape a) atoms
  unfolding cross_loop
  cross_why [] sum = ground arith
  cross_why (a ∷ atoms) sum =
      let shape = has_bundle_shape_iff a in
      let same = cross_why atoms sum in
      let added = cross_why atoms (plus_value sum (number_of a.value)) in
      let value = parse_value-Valued (is_f a) a.value in
      elim (Option-cases (number_of a.value)) [
        | inl n ↦ ground arith
        | inr (number, n) ↦ ground arith
      ]

  pub cross_why_cases :
      (atoms : List Atom) (sum : floats.LongDouble)
      → ((cross_loop floats atoms sum).1 ≡ transfer_unbalanced)
        ⊎ ((cross_loop floats atoms sum).1 ≡ meta_missing)
  unfolding cross_loop
  cross_why_cases [] sum = inl refl
  cross_why_cases (a ∷ atoms) sum =
      let same = cross_why_cases atoms sum in
      let added = cross_why_cases atoms (plus_value sum (number_of a.value)) in
      let value = parse_value-Valued (is_f a) a.value in
      elim (Option-cases (number_of a.value)) [
        | inl n ↦ ground arith
        | inr (number, n) ↦ ground arith
      ]

  verdict_iff :
      (outcome : Option floats.LongDouble × ErrorCode) (P : Type 0) (total : floats.LongDouble)
      → ((x : floats.LongDouble) → (outcome.0 ≡ some x) ↔ (P × (total ≡ x)))
      → ((cross_verdict floats true outcome).0 ≡ true)
        ↔ (P × (floats.is_below_long (floats.fabsl total) floats.billionth ≡ true))
  verdict_iff (none, why) P total h =
      ((λ e. absurd (cc e)), (λ (p, q). absurd (let no = (h total).1 (p, refl) in cc)))
  verdict_iff (some sum, why) P total h =
      let (p, t) = (h sum).0 refl in
      (
        (λ e. (p, ap (λ x. floats.is_below_long (floats.fabsl x) floats.billionth) t ∙ e)),
        (λ (q, e). ap (λ x. floats.is_below_long (floats.fabsl x) floats.billionth) (sym t) ∙ e),
      )

  verdict_why :
      (saw : Bool) (outcome : Option floats.LongDouble × ErrorCode)
      → (cross_verdict floats saw outcome).1 ≡ outcome.1
  verdict_why saw (none, why) = refl
  verdict_why saw (some sum, why) = refl

  pub conservation_why :
      (atoms : List Atom)
      → (check_cross_isotope_conservation floats atoms).1
        ≡ (cross_loop floats atoms floats.long_zero).1
  unfolding check_cross_isotope_conservation
  conservation_why atoms =
      verdict_why (has_cross_isotope atoms) (cross_loop floats atoms floats.long_zero)

  conservation_iff :
      (atoms : List Atom)
      → has_cross_isotope atoms ≡ true
      → ((check_cross_isotope_conservation floats atoms).0 ≡ true) ↔ (
          Conserving atoms
          × (floats.is_below_long
                (floats.fabsl (total_from floats.long_zero atoms))
                floats.billionth
              ≡ true))
  unfolding check_cross_isotope_conservation
  conservation_iff atoms h = rw h (
      verdict_iff (cross_loop floats atoms floats.long_zero) (Conserving atoms)
        (total_from floats.long_zero atoms) (cross_loop_iff atoms floats.long_zero))

  -- A molecule with a B or F atom passes the value test exactly where each B and F atom refers to a
  -- wallet bundle, each value of a V, B or F atom that is not empty is a number in range to its last
  -- character, of an F atom not negative, and the sum of these numbers is within a billionth of
  -- zero. The code META_MISSING is reported only if a B or F atom does not refer to a wallet bundle.
  pub check_isotope_v-cross :
      (m : Molecule) (balance : Option floats.Double)
      → has_cross_isotope m.atoms ≡ true
      → (((check_isotope_v floats m balance).0 ≡ true) ↔ (
          Conserving m.atoms
          × (floats.is_below_long
                (floats.fabsl (total_from floats.long_zero m.atoms))
                floats.billionth
              ≡ true)))
        × ((check_isotope_v floats m balance).1 ≡ meta_missing
            → ¬ All (λ a. is_cross a ≡ true → BundleShape a) m.atoms)
  unfolding check_isotope_v
  check_isotope_v-cross m balance h = rw h (
    conservation_iff m.atoms h,
    (λ w. cross_why m.atoms floats.long_zero (sym (conservation_why m.atoms) ∙ w)),
  )
