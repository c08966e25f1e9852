-- ===== src/Check/Rules.antt =====
-- The tests of src/libraries/check_molecule.c that look at the fields of the atoms: the batch, the
-- ContinuID atom, the rule of each isotope and the tokens of the V atoms. Memory suffices, and the
-- diagnostic output is left out.
use knish_io_client_c.Errors.{Result, ok, err}
use knish_io_client_c.Isotope.{isotope_v, isotope_eq}
use knish_io_client_c.Molecule.{Atom, Molecule, filter_atoms_by_isotope}
use knish_io_client_c.Prelude.{
  ◌-◌, Bool, true, false, not, ◌||◌, Option, none, some, List, [], ◌∷◌, Bytes, codes, str_eq,
  if◌then◌else◌, length, get_elem?, leb, is_zero_ℤ,
}

-- `field && strcmp(field, text) == 0`
abbrev pub is_text : Option Bytes → Bytes → Bool
is_text none text = false
is_text (some field) text = str_eq field text

-- A loop over atoms that returns false at the first one that breaks the rule.
abbrev pub all_atoms : (Atom → Bool) → List Atom → Bool
all_atoms rule [] = true
all_atoms rule (a ∷ atoms) = let rest = all_atoms rule atoms in if rule a then rest else false

-- The filter by isotope, a failure of which fails the test, and the loop behind it.
abbrev pub on_filtered : Result (List Atom) → (List Atom → Bool) → Bool
on_filtered (err e) test = false
on_filtered (ok atoms) test = test atoms

abbrev pub has_batch : Atom → Bool
has_batch a = elim a.batch_id [ none ↦ false | some id ↦ true ]

-- The test on the V atoms of a molecule whose signing atom has the batch `id`.
unfoldable pub batch_rule : Bytes → List Atom → Bool
batch_rule id atoms = elim (get_elem? atoms (length atoms - 1)) [
  | none ↦ false
  | some remainder ↦ elim remainder.batch_id [
    | none ↦ false
    | some other ↦ if str_eq id other then all_atoms has_batch atoms else false
  ]
]

-- The test for the batch of the signing atom.
unfoldable pub batch_test : Molecule → Option Bytes → Bool
batch_test m none = true
batch_test m (some id) = on_filtered (filter_atoms_by_isotope m (codes "V")) (batch_rule id)

-- `check_batch_id`
unfoldable pub check_batch_id : Molecule → Bool
check_batch_id m = elim m.atoms [
  | [] ↦ false
  | first ∷ rest ↦ if isotope_eq first.isotope isotope_v then batch_test m first.batch_id else true
]

-- `i_count < 1` fails the test.
abbrev pub is_inhabited : List Atom → Bool
is_inhabited [] = false
is_inhabited (a ∷ atoms) = true

-- `check_continuid`
unfoldable pub check_continuid : Molecule → Bool
check_continuid m = elim m.atoms [
  | [] ↦ true
  | first ∷ rest ↦
      if is_text first.token (codes "USER")
      then on_filtered (filter_atoms_by_isotope m (codes "I")) is_inhabited
      else true
]

-- The loop body of `check_isotope_m`.
unfoldable pub m_rule : Atom → Bool
m_rule a = if leb 1 (length a.meta) then is_text a.token (codes "USER") else false

-- The loop body of `check_isotope_t`, and of `check_isotope_c`.
unfoldable pub t_rule : Atom → Bool
t_rule a = if is_text a.token (codes "USER") then is_zero_ℤ a.index else false

-- The loop body of `check_isotope_u`.
unfoldable pub u_rule : Atom → Bool
u_rule a =
    if is_text a.token (codes "AUTH") || is_text a.token (codes "USER")
    then is_zero_ℤ a.index
    else false

-- The loop body of `check_isotope_i`.
unfoldable pub i_rule : Atom → Bool
i_rule a = if is_text a.token (codes "USER") then not (is_zero_ℤ a.index) else false

-- The loop body of `check_isotope_r`: atoms without meta data pass too.
unfoldable pub r_rule : Atom → Bool
r_rule a = true

-- `check_isotope_m`
unfoldable pub check_isotope_m : Molecule → Bool
check_isotope_m m = on_filtered (filter_atoms_by_isotope m (codes "M")) (all_atoms m_rule)

-- `check_isotope_t`
unfoldable pub check_isotope_t : Molecule → Bool
check_isotope_t m = on_filtered (filter_atoms_by_isotope m (codes "T")) (all_atoms t_rule)

-- `check_isotope_c`
unfoldable pub check_isotope_c : Molecule → Bool
check_isotope_c m = on_filtered (filter_atoms_by_isotope m (codes "C")) (all_atoms t_rule)

-- `check_isotope_u`
unfoldable pub check_isotope_u : Molecule → Bool
check_isotope_u m = on_filtered (filter_atoms_by_isotope m (codes "U")) (all_atoms u_rule)

-- `check_isotope_i`
unfoldable pub check_isotope_i : Molecule → Bool
check_isotope_i m = on_filtered (filter_atoms_by_isotope m (codes "I")) (all_atoms i_rule)

-- `check_isotope_r`
unfoldable pub check_isotope_r : Molecule → Bool
check_isotope_r m = on_filtered (filter_atoms_by_isotope m (codes "R")) (all_atoms r_rule)

-- The loop body of `check_token_consistency`.
unfoldable pub token_rule : Bytes → Atom → Bool
token_rule first_token a =
    if isotope_eq a.isotope isotope_v
    then elim a.token [ none ↦ true | some token ↦ str_eq token first_token ]
    else true

-- `check_token_consistency`; the loop starts at atom 1.
unfoldable pub check_token_consistency : Molecule → Bool
check_token_consistency m = elim m.atoms [
  | [] ↦ true
  | first ∷ rest ↦ elim first.token [ none ↦ true | some token ↦ all_atoms (token_rule token) rest ]
]
