-- ===== src/Check/Lawful.antt =====
-- What the tests of src/libraries/check_molecule.c on the fields of the atoms say about a molecule.
use knish_io_client_c.Isotope.{
  Isotope, isotope_c, isotope_m, isotope_u, isotope_i, isotope_t, isotope_eq, isotope_eq_iff,
  isotope_from_string,
}
use knish_io_client_c.Errors.{ok}
use knish_io_client_c.Molecule.{Atom, Molecule, filter_loop, filter_atoms_by_isotope}
use knish_io_client_c.Check.Rules.{
  is_text, all_atoms, is_inhabited, check_continuid, m_rule, t_rule, u_rule, i_rule,
  check_isotope_m, check_isotope_t, check_isotope_c, check_isotope_u, check_isotope_i,
}
use knish_io_client_c.Prelude.{
  ◌≤◌, ◌≡◌, ◌≢◌, refl, Bool, true, Option, none, some, List, [], ◌∷◌, Bytes, codes, str_eq,
  str_eq_iff, length, ℤ, pos, is_zero_ℤ, All, arith, ◌↔◌, ◌⊎◌,
}

pub is_text_iff :
    (field : Option Bytes) (text : Bytes) → (is_text field text ≡ true) ↔ (field ≡ some text)
is_text_iff none text = ground arith
is_text_iff (some field) text = ground (arith, str_eq_iff field text)

pub is_zero_ℤ_iff : (z : ℤ) → (is_zero_ℤ z ≡ true) ↔ (z ≡ pos 0)
is_zero_ℤ_iff z = ground arith

-- Each atom of one isotope obeys a rule.
abbrev pub Each : Isotope → (Atom → Type 0) → List Atom → Type 0
Each i P atoms = All (λ a. a.isotope ≡ i → P a) atoms

module _ (i : Isotope) (rule : Atom → Bool) (P : Atom → Type 0)
    (law : (a : Atom) → (rule a ≡ true) ↔ P a) where
  filter_rule : (atoms : List Atom) → (all_atoms rule (filter_loop i atoms) ≡ true) ↔ Each i P atoms
  unfolding filter_loop
  filter_rule [] = ground arith
  filter_rule (a ∷ atoms) = ground (arith, filter_rule atoms, law a, isotope_eq_iff a.isotope i)

abbrev IsToken : Bytes → Atom → Type 0
IsToken text a = a.token ≡ some text

-- The rules of the isotopes.
abbrev pub MRule : Atom → Type 0
MRule a = (1 ≤ length a.meta) × IsToken (codes "USER") a

abbrev pub TRule : Atom → Type 0
TRule a = IsToken (codes "USER") a × (a.index ≡ pos 0)

abbrev pub URule : Atom → Type 0
URule a = (IsToken (codes "AUTH") a ⊎ IsToken (codes "USER") a) × (a.index ≡ pos 0)

abbrev pub IRule : Atom → Type 0
IRule a = IsToken (codes "USER") a × (a.index ≢ pos 0)

m_rule_iff : (a : Atom) → (m_rule a ≡ true) ↔ MRule a
unfolding m_rule
m_rule_iff a = ground (arith, is_text_iff a.token (codes "USER"))

t_rule_iff : (a : Atom) → (t_rule a ≡ true) ↔ TRule a
unfolding t_rule
t_rule_iff a = ground (arith, is_text_iff a.token (codes "USER"), is_zero_ℤ_iff a.index)

u_rule_iff : (a : Atom) → (u_rule a ≡ true) ↔ URule a
unfolding u_rule
u_rule_iff a = ground (
  arith,
  is_text_iff a.token (codes "AUTH"),
  is_text_iff a.token (codes "USER"),
  is_zero_ℤ_iff a.index,
)

i_rule_iff : (a : Atom) → (i_rule a ≡ true) ↔ IRule a
unfolding i_rule
i_rule_iff a = ground (arith, is_text_iff a.token (codes "USER"), is_zero_ℤ_iff a.index)

-- The tests on the isotopes hold exactly where each atom of that isotope obeys its rule.
pub isotope_rules_iff :
    (m : Molecule)
    → ((check_isotope_m m ≡ true) ↔ Each isotope_m MRule m.atoms)
      × ((check_isotope_t m ≡ true) ↔ Each isotope_t TRule m.atoms)
      × ((check_isotope_c m ≡ true) ↔ Each isotope_c TRule m.atoms)
      × ((check_isotope_u m ≡ true) ↔ Each isotope_u URule m.atoms)
      × ((check_isotope_i m ≡ true) ↔ Each isotope_i IRule m.atoms)
unfolding check_isotope_m check_isotope_t check_isotope_c check_isotope_u check_isotope_i
    filter_atoms_by_isotope isotope_from_string str_eq isotope_eq
isotope_rules_iff m = (
  filter_rule isotope_m m_rule MRule m_rule_iff m.atoms,
  filter_rule isotope_t t_rule TRule t_rule_iff m.atoms,
  filter_rule isotope_c t_rule TRule t_rule_iff m.atoms,
  filter_rule isotope_u u_rule URule u_rule_iff m.atoms,
  filter_rule isotope_i i_rule IRule i_rule_iff m.atoms,
)

-- Some atom of the isotope.
abbrev pub Has : Isotope → List Atom → Type 0
Has i [] = ⊥
Has i (a ∷ atoms) = (a.isotope ≡ i) ⊎ Has i atoms

inhabited_iff :
    (i : Isotope) (atoms : List Atom) → (is_inhabited (filter_loop i atoms) ≡ true) ↔ Has i atoms
unfolding filter_loop
inhabited_iff i [] = ground arith
inhabited_iff i (a ∷ atoms) = ground (arith, inhabited_iff i atoms, isotope_eq_iff a.isotope i)

-- A molecule that a USER wallet signs has a ContinuID atom.
abbrev pub ContinuId : List Atom → Type 0
ContinuId [] = Unit
ContinuId (first ∷ rest) = first.token ≡ some (codes "USER") → Has isotope_i (first ∷ rest)

filter_i :
    (m : Molecule) → filter_atoms_by_isotope m (codes "I") ≡ ok (filter_loop isotope_i m.atoms)
unfolding filter_atoms_by_isotope isotope_from_string str_eq isotope_eq
filter_i m = refl

continuid_atoms :
    (m : Molecule) (atoms : List Atom)
    → (check_continuid (record m { atoms = atoms }) ≡ true) ↔ ContinuId atoms
unfolding check_continuid
continuid_atoms m [] = ground arith
continuid_atoms m (first ∷ rest) =
    rw (filter_i (record m { atoms = first ∷ rest })) (
      ground
        (arith, is_text_iff first.token (codes "USER"), inhabited_iff isotope_i (first ∷ rest)))

-- The ContinuID test passes exactly on the molecules whose first atom has another token than USER,
-- or that have an I atom.
pub check_continuid_iff : (m : Molecule) → (check_continuid m ≡ true) ↔ ContinuId m.atoms
check_continuid_iff m = continuid_atoms m m.atoms
