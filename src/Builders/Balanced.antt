-- ===== src/Builders/Balanced.antt =====
-- Atoms that the builders of src/molecule.c make with amounts that add up to zero pass the value
-- test of src/libraries/check_molecule.c.
use knish_io_client_c.Builders.{System, add_all}
use knish_io_client_c.Builders.Adding.{numbered_from, HasMemory, add_all-Extended}
use knish_io_client_c.Builders.Exact.{
  debited, limit, Exact, Entry, CarryAll, amounts, magnitudes, AllV, sum_none, magnitude-debit,
  total_loop-sum,
}
use knish_io_client_c.Builders.Made.{Made}
use knish_io_client_c.Builders.Transfer.{Casts, print_debit}
use knish_io_client_c.Check.Conserves.{BundleShape}
use knish_io_client_c.Check.Value.{
  Floats, is_cross, has_cross_isotope, total_loop, sender_rule, check_sender, check_isotope_v,
}
use knish_io_client_c.Errors.{success, Result, ok}
use knish_io_client_c.Isotope.{Isotope, isotope_v, isotope_b, isotope_f, isotope_eq}
use knish_io_client_c.Molecule.{Atom, Molecule, atom_count, max_atoms, set_index}
use knish_io_client_c.Molecule.Array.{IsWellFormed}
use knish_io_client_c.Prelude.{
  ℕ, suc, ◌+◌, ◌≤◌, ◌≡◌, ◌≢◌, refl, ap, sym, ◌∙◌, Bool, true, false, ◌&&◌, ◌||◌, Bool-cases, Option,
  none, some, List, [], ◌∷◌, ◌++◌, Bytes, codes, ltb, length, ℤ, pos, ◌+ℤ◌, ◌-ℤ◌, sum_ℤ, map, All,
  arith, +ℤ_parts, -ℤ_parts, eq_of_parts, ◌⊎◌, inl, inr,
}

-- B and F.
abbrev pub is_cross_isotope : Isotope → Bool
is_cross_isotope i = isotope_eq i isotope_b || isotope_eq i isotope_f

-- What is created for an entry; B and F atoms refer to a wallet bundle.
pub record Fits (created : Result Atom) (e : Entry) : Type 0 where
  pub meta_type : Option Bytes
  pub meta_id : Option Bytes
  pub is_made : Made created e meta_type meta_id
  pub shape :
      is_cross_isotope e.isotope ≡ true
      → (meta_type ≡ some (codes "walletBundle")) × (meta_id ≢ none) × (meta_id ≢ some [])

abbrev pub FitAll : List (Result Atom) → List Entry → Type 0
FitAll [] [] = Unit
FitAll [] (e ∷ entries) = ⊥
FitAll (c ∷ created) [] = ⊥
FitAll (c ∷ created) (e ∷ entries) = Fits c e × FitAll created entries

abbrev Shaped : Atom → Type 0
Shaped a = is_cross a ≡ true → BundleShape a

Fits-shape :
    (c : Result Atom) (e : Entry) (f : Fits c e) (n : ℕ) → Shaped (set_index f.is_made.atom n)
Fits-shape c e f n h =
    let a = f.is_made.atom in
    let same : is_cross_isotope e.isotope ≡ true =
      ap is_cross_isotope (sym f.is_made.carries.0) ∙ h in
    let (t, i, j) = f.shape same in
    (
      f.is_made.labels.0 ∙ t,
      (λ x. i (sym f.is_made.labels.1 ∙ x)),
      (λ x. j (sym f.is_made.labels.1 ∙ x)),
    )

-- The atoms of entries that fit, with their indexes.
FitAll-atoms :
    (created : List (Result Atom)) (entries : List Entry) (n : ℕ)
    → FitAll created entries
    → (atoms : List Atom) × (created ≡ map ok atoms)
      × (length atoms ≡ length entries)
      × CarryAll (numbered_from n atoms) entries
      × All Shaped (numbered_from n atoms)
FitAll-atoms [] [] n h = ([], refl, refl, tt, tt)
FitAll-atoms [] (e ∷ entries) n h = absurd h
FitAll-atoms (c ∷ created) [] n h = absurd h
FitAll-atoms (c ∷ created) (e ∷ entries) n (f, h) =
    let (atoms, same, count, carry, shaped) = FitAll-atoms created entries (suc n) h in
    let a = f.is_made.atom in
    (
      a ∷ atoms,
      ap (λ x. x ∷ created) f.is_made.made ∙ ap (λ l. ok a ∷ l) same,
      ap suc count,
      (f.is_made.carries, carry),
      (Fits-shape c e f n, shaped),
    )

length-numbered_from : (n : ℕ) (atoms : List Atom) → length (numbered_from n atoms) ≡ length atoms
length-numbered_from n [] = refl
length-numbered_from n (a ∷ atoms) = ap suc (length-numbered_from (suc n) atoms)

-- The atoms are added to an empty molecule.
pub built :
    (system : System) (m : Molecule) (created : List (Result Atom)) (entries : List Entry)
    → IsWellFormed m
    → m.atoms ≡ []
    → HasMemory system
    → FitAll created entries
    → length entries ≤ max_atoms
    → (m' : Molecule) × (add_all system m created ≡ (m', success))
      × (atom_count m' ≡ length entries)
      × CarryAll m'.atoms entries
      × All Shaped m'.atoms
built system m created entries w none_yet memory fit l =
    let (atoms, same, count, carry, shaped) = FitAll-atoms created entries 0 fit in
    let start : atom_count m ≡ 0 = ap length none_yet in
    let (m', done, ext) = add_all-Extended system m atoms w memory (omega (arith, start, count)) in
    let at : m'.atoms ≡ numbered_from 0 atoms =
      ext.at_end ∙ ap (λ l. l ++ numbered_from (length l) atoms) none_yet in
    (
      m',
      ap (add_all system m) same ∙ done,
      ap length at ∙ length-numbered_from 0 atoms ∙ count,
      rw at carry,
      rw at shaped,
    )

no_cross :
    (atoms : List Atom) (entries : List Entry)
    → CarryAll atoms entries
    → AllV entries
    → has_cross_isotope atoms ≡ false
unfolding has_cross_isotope isotope_eq
no_cross [] [] h v = refl
no_cross [] (e ∷ entries) h v = absurd h
no_cross (a ∷ atoms) [] h v = absurd h
no_cross (a ∷ atoms) (e ∷ entries) ((i, t), h) (v, vs) =
    let k : a.isotope ≡ isotope_v = i ∙ v in rw k (no_cross atoms entries h vs)

module _ (floats : Floats) (casts : Casts floats) (of_long : ℤ → floats.LongDouble)
    (exact : Exact floats casts of_long) where
  -- No sender is given, or one with this balance.
  abbrev pub Sender : Option floats.Double → ℕ → Type 0
  Sender sender n = (sender ≡ none) ⊎ (sender ≡ some (casts.of_int (pos n)))

  sender_rule-debit :
      (n : ℕ)
      → n + n ≤ limit
      → sender_rule floats (casts.of_int (pos n)) floats.double_zero (print_debit (pos n)) ≡ true
  unfolding sender_rule
  sender_rule-debit n l =
      let gone : pos n +ℤ (pos 0 -ℤ pos n) ≡ pos 0 =
        eq_of_parts _ _
          (omega (arith, +ℤ_parts (pos n) (pos 0 -ℤ pos n), -ℤ_parts (pos 0) (pos n))) in
      let left : floats.plus (casts.of_int (pos n)) (floats.atof (print_debit (pos n)))
          ≡ floats.double_zero =
        exact.sums (pos n) (pos 0 -ℤ pos n) (print_debit (pos n)) (debited n)
          (omega (arith, magnitude-debit n))
        ∙ ap casts.of_int gone
        ∙ sym exact.zero_double in
      let never : floats.is_below floats.double_zero floats.double_zero ≡ false =
        ap (λ x. floats.is_below x x) exact.zero_double
        ∙ exact.compare (pos 0) (pos 0) (omega arith) (omega arith) in
      rw (left, never, exact.no_difference, exact.zero_is_not_large) refl

  check_sender-debit :
      (sender : Option floats.Double) (n count : ℕ) (total : floats.Double) (atoms : List Atom)
      (e : Entry) (entries : List Entry)
      → Sender sender n
      → n + n ≤ limit
      → e.text ≡ print_debit (pos n)
      → CarryAll atoms (e ∷ entries)
      → total ≡ floats.double_zero
      → check_sender floats sender count total atoms ≡ true
  unfolding check_sender
  check_sender-debit sender n count total [] e entries s l d h z = absurd h
  check_sender-debit sender n count total (a ∷ atoms) e entries (inl s) l d h z = rw s refl
  check_sender-debit sender n count total (a ∷ atoms) e entries (inr s) l d ((i, t), h) z =
      let rule = sender_rule-debit n l in
      elim (Bool-cases (ltb 0 count && isotope_eq a.isotope isotope_v)) [
        | inl c ↦ rw (s, check_sender, c, t, d, z) rule
        | inr c ↦ rw (s, check_sender, c) refl
      ]

  -- V atoms with amounts that add up to zero, the first of which debits the balance of the sender.
  pub v_conserves :
      (m : Molecule) (e : Entry) (entries : List Entry) (sender : Option floats.Double) (n : ℕ)
      → CarryAll m.atoms (e ∷ entries)
      → AllV (e ∷ entries)
      → magnitudes (amounts (e ∷ entries)) ≤ limit
      → sum_ℤ (amounts (e ∷ entries)) ≡ pos 0
      → e.text ≡ print_debit (pos n)
      → n + n ≤ limit
      → Sender sender n
      → (check_isotope_v floats m sender).0 ≡ true
  unfolding check_isotope_v
  v_conserves m e entries sender n h v l balanced debit small s =
      let total : (total_loop floats m.atoms 0 floats.double_zero).1 ≡ floats.double_zero =
        ap (λ x. (total_loop floats m.atoms 0 x).1) exact.zero_double
        ∙ total_loop-sum floats casts of_long exact m.atoms (e ∷ entries) 0 (pos 0) h v
            (omega arith)
        ∙ ap (λ z. casts.of_int (pos 0 +ℤ z)) balanced
        ∙ ap casts.of_int (sum_none (pos 0))
        ∙ sym exact.zero_double in
      let sent =
        check_sender-debit sender n (total_loop floats m.atoms 0 floats.double_zero).0
          floats.double_zero m.atoms e entries s small debit h refl in
      rw (no_cross m.atoms (e ∷ entries) h v) (simp (total, exact.zero_is_small) sent)
