-- ===== src/Check/Batches.antt =====
-- What the tests of src/libraries/check_molecule.c on batches and tokens say about a molecule.
use knish_io_client_c.Check.Lawful.{Each}
use knish_io_client_c.Isotope.{Isotope, isotope_v, isotope_eq, isotope_eq_iff, isotope_from_string}
use knish_io_client_c.Errors.{ok}
use knish_io_client_c.Molecule.{Atom, Molecule, filter_loop, filter_atoms_by_isotope}
use knish_io_client_c.Check.Rules.{
  all_atoms, has_batch, batch_rule, check_batch_id, batch_test, token_rule, check_token_consistency,
}
use knish_io_client_c.Prelude.{
  ◌>>=◌, suc, ◌-◌, ◌≡◌, refl, ◌∙◌, true, Bool-cases, Option, none, some, Option-cases, List, [],
  ◌∷◌, Bytes, codes, str_eq, str_eq_iff, if◌then◌else◌, length, get_elem?, arith, ◌↔◌, ◌⊎◌, inl,
  inr,
}

abbrev last : List Atom → Option Atom
last [] = none
last (a ∷ atoms) = elim (last atoms) [ none ↦ some a | some b ↦ some b ]

-- The last atom of an isotope.
abbrev pub last_of : Isotope → List Atom → Option Atom
last_of i [] = none
last_of i (a ∷ atoms) = elim (last_of i atoms) [
  | none ↦ if isotope_eq a.isotope i then some a else none
  | some b ↦ some b
]

last_entry : (atoms : List Atom) → get_elem? atoms (length atoms - 1) ≡ last atoms
last_entry [] = refl
last_entry (a ∷ []) = refl
last_entry (a ∷ b ∷ atoms) =
    let e : length (a ∷ b ∷ atoms) - 1 ≡ suc (length (b ∷ atoms) - 1) = omega arith in
    let h = last_entry (b ∷ atoms) in rw e (h ∙ ground arith)

filter_last : (i : Isotope) (atoms : List Atom) → last (filter_loop i atoms) ≡ last_of i atoms
unfolding filter_loop
filter_last i [] = refl
filter_last i (a ∷ atoms) = ground (arith, filter_last i atoms)

-- Each V atom has a batch, and the last V atom has the batch `id`.
abbrev pub Batch : Bytes → List Atom → Type 0
Batch id atoms =
    Each isotope_v (λ a. has_batch a ≡ true) atoms
    × ((last_of isotope_v atoms >>= λ a. a.batch_id) ≡ some id)

abbrev pub InBatch : Option Bytes → List Atom → Type 0
InBatch none atoms = Unit
InBatch (some id) atoms = Batch id atoms

-- Where the signing atom is a V atom with a batch, that is the batch of the V atoms.
abbrev pub BatchRule : List Atom → Type 0
BatchRule [] = ⊥
BatchRule (first ∷ rest) = first.isotope ≡ isotope_v → InBatch first.batch_id (first ∷ rest)

-- Where the signing atom has a token, the later V atoms have that token or none.
abbrev pub TokenRule : List Atom → Type 0
TokenRule [] = Unit
TokenRule (first ∷ rest) = elim first.token [
  | none ↦ Unit
  | some token ↦ Each isotope_v (λ a. (a.token ≡ none) ⊎ (a.token ≡ some token)) rest
]

token_rule_iff :
    (token : Bytes) (a : Atom)
    → (token_rule token a ≡ true)
      ↔ (a.isotope ≡ isotope_v → (a.token ≡ none) ⊎ (a.token ≡ some token))
unfolding token_rule
token_rule_iff token a = elim (Option-cases a.token) [
  | inl e ↦ rw e (ground arith)
  | inr (t, e) ↦ rw e (ground (arith, str_eq_iff t token, isotope_eq_iff a.isotope isotope_v))
]

token_loop_iff :
    (token : Bytes) (atoms : List Atom)
    → (all_atoms (token_rule token) atoms ≡ true)
      ↔ Each isotope_v (λ a. (a.token ≡ none) ⊎ (a.token ≡ some token)) atoms
token_loop_iff token [] = ground arith
token_loop_iff token (a ∷ atoms) =
    ground (arith, token_rule_iff token a, token_loop_iff token atoms)

token_atoms :
    (m : Molecule) (atoms : List Atom)
    → (check_token_consistency (record m { atoms = atoms }) ≡ true) ↔ TokenRule atoms
unfolding check_token_consistency
token_atoms m [] = ground arith
token_atoms m (first ∷ rest) = elim (Option-cases first.token) [
  | inl e ↦ rw e (ground arith)
  | inr (t, e) ↦ rw e (ground (arith, token_loop_iff t rest))
]

-- The token test passes exactly where the later V atoms have the signing atom's token, if it has
-- one, or no token.
pub check_token_consistency_iff :
    (m : Molecule) → (check_token_consistency m ≡ true) ↔ TokenRule m.atoms
check_token_consistency_iff m = token_atoms m m.atoms

all_batches :
    (atoms : List Atom)
    → (all_atoms has_batch (filter_loop isotope_v atoms) ≡ true)
      ↔ Each isotope_v (λ a. has_batch a ≡ true) atoms
unfolding filter_loop
all_batches [] = ground arith
all_batches (a ∷ atoms) = ground (arith, all_batches atoms, isotope_eq_iff a.isotope isotope_v)

batch_rule_iff :
    (id : Bytes) (atoms : List Atom)
    → (batch_rule id (filter_loop isotope_v atoms) ≡ true) ↔ Batch id atoms
unfolding batch_rule
batch_rule_iff id atoms =
    let e = last_entry (filter_loop isotope_v atoms) ∙ filter_last isotope_v atoms in
    elim (Option-cases (last_of isotope_v atoms)) [
      | inl n ↦ rw (batch_rule, e, n, ◌>>=◌) (ground arith)
      | inr (a, n) ↦ elim (Option-cases a.batch_id) [
        | inl k ↦ rw (batch_rule, e, n, ◌>>=◌, k) (ground arith)
        | inr (other, k) ↦
            rw (batch_rule, e, n, ◌>>=◌, k) (ground (arith, str_eq_iff id other, all_batches atoms))
      ]
    ]

filter_v :
    (m : Molecule) → filter_atoms_by_isotope m (codes "V") ≡ ok (filter_loop isotope_v m.atoms)
unfolding filter_atoms_by_isotope isotope_from_string str_eq isotope_eq
filter_v m = refl

batch_test_iff : (m : Molecule) (id : Option Bytes) → (batch_test m id ≡ true) ↔ InBatch id m.atoms
unfolding batch_test
batch_test_iff m none = ground arith
batch_test_iff m (some id) = rw (filter_v m) (batch_rule_iff id m.atoms)

batch_atoms :
    (m : Molecule) (atoms : List Atom)
    → (check_batch_id (record m { atoms = atoms }) ≡ true) ↔ BatchRule atoms
unfolding check_batch_id
batch_atoms m [] = ground arith
batch_atoms m (first ∷ rest) =
    let test = batch_test_iff (record m { atoms = first ∷ rest }) first.batch_id in
    elim (Bool-cases (isotope_eq first.isotope isotope_v)) [
      | inl e ↦
          rw e ((λ h v. test.0 h), (λ h. test.1 (h ((isotope_eq_iff first.isotope isotope_v).0 e))))
      | inr e ↦ rw e (
        (λ h v. absurd (let bad = (isotope_eq_iff first.isotope isotope_v).1 v in cc)),
        (λ h. refl),
      )
    ]

-- The batch test passes exactly on the molecules with an atom where, if the signing atom is a V
-- atom with a batch, each V atom has a batch and the last V atom has that one.
pub check_batch_id_iff : (m : Molecule) → (check_batch_id m ≡ true) ↔ BatchRule m.atoms
check_batch_id_iff m = batch_atoms m m.atoms
