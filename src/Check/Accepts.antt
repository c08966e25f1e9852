-- ===== src/Check/Accepts.antt =====
-- The verdict of `knishio_molecule_check` (src/libraries/check_molecule.c) as a whole.
use knish_io_client_c.Check.{
  check_molecular_hash, check_ots, check_rules, first_error, molecule_check,
}
use knish_io_client_c.Check.Batches.{
  BatchRule, check_batch_id_iff, TokenRule, check_token_consistency_iff,
}
use knish_io_client_c.Check.Conserves.{cross_why_cases, conservation_why}
use knish_io_client_c.Check.Lawful.{
  Each, MRule, TRule, URule, IRule, isotope_rules_iff, ContinuId, check_continuid_iff,
}
use knish_io_client_c.Check.Rehash.{Hashed, check_molecular_hash_iff}
use knish_io_client_c.Check.Rules.{
  all_atoms, r_rule, check_batch_id, check_continuid, check_isotope_m, check_isotope_t,
  check_isotope_c, check_isotope_u, check_isotope_i, check_isotope_r, check_token_consistency,
}
use knish_io_client_c.Check.Value.{Floats, has_cross_isotope, check_isotope_v}
use knish_io_client_c.Errors.{ErrorCode, is_success, is_success_iff, success}
use knish_io_client_c.Isotope.{
  isotope_c, isotope_m, isotope_u, isotope_i, isotope_t, isotope_r, isotope_from_string, isotope_eq,
}
use knish_io_client_c.Molecule.{Atom, Molecule, atom_count, filter_loop, filter_atoms_by_isotope}
use knish_io_client_c.Molecule.Hash.{Json}
use knish_io_client_c.Prelude.{
  ◌≡◌, ◌≢◌, refl, ap, sym, ◌∙◌, Bool, true, false, Bool-cases, Option, none, some, Option-cases,
  List, [], ◌∷◌, Bytes, str_eq, length, ◌==◌, arith, ◌↔◌, inl, inr,
}

-- The rules on the fields of the atoms.
pub record Lawful (m : Molecule) : Type 0 where
  pub batch : BatchRule m.atoms
  pub continuid : ContinuId m.atoms
  pub m_atoms : Each isotope_m MRule m.atoms
  pub t_atoms : Each isotope_t TRule m.atoms
  pub c_atoms : Each isotope_c TRule m.atoms
  pub u_atoms : Each isotope_u URule m.atoms
  pub i_atoms : Each isotope_i IRule m.atoms
  pub tokens : TokenRule m.atoms

all_r : (atoms : List Atom) → all_atoms r_rule atoms ≡ true
unfolding r_rule
all_r [] = refl
all_r (a ∷ atoms) = all_r atoms

check_isotope_r-true : (m : Molecule) → check_isotope_r m ≡ true
unfolding check_isotope_r filter_atoms_by_isotope isotope_from_string str_eq isotope_eq
check_isotope_r-true m = all_r (filter_loop isotope_r m.atoms)

module _ (floats : Floats) where
  why_not_success :
      (m : Molecule) (balance : Option floats.Double)
      → (check_isotope_v floats m balance).1 ≢ success
  unfolding check_isotope_v
  why_not_success m balance = elim (Bool-cases (has_cross_isotope m.atoms)) [
    | inl h ↦
        rw (h, conservation_why floats m.atoms)
          (λ e. elim (cross_why_cases floats m.atoms floats.long_zero) [
            | inl u ↦ absurd (let bad = sym u ∙ e in cc)
            | inr u ↦ absurd (let bad = sym u ∙ e in cc)
          ])
    | inr h ↦ rw h (ground arith)
  ]

  all_tests :
      (m : Molecule) (balance : Option floats.Double)
      → (check_rules floats m balance ≡ success) ↔ (
          (check_batch_id m ≡ true)
          × (check_continuid m ≡ true)
          × (check_isotope_m m ≡ true)
          × (check_isotope_t m ≡ true)
          × (check_isotope_c m ≡ true)
          × (check_isotope_u m ≡ true)
          × (check_isotope_i m ≡ true)
          × ((check_isotope_v floats m balance).0 ≡ true)
          × (check_token_consistency m ≡ true))
  unfolding check_rules
  all_tests m balance =
      let r = check_isotope_r-true m in let why = why_not_success m balance in ground arith

  -- The rules that follow the signature pass exactly on the molecules that obey each of them and
  -- conserve value.
  pub check_rules_iff :
      (m : Molecule) (balance : Option floats.Double)
      → (check_rules floats m balance ≡ success)
        ↔ (Lawful m × ((check_isotope_v floats m balance).0 ≡ true))
  check_rules_iff m balance =
      let tests = all_tests m balance in
      let (rm, rt, rc, ru, ri) = isotope_rules_iff m in
      let b = check_batch_id_iff m in
      let u = check_continuid_iff m in
      let k = check_token_consistency_iff m in
      (
        (λ e.
            let (tb, tu, tm, tt', tc, tU, ti, tv, tk) = tests.0 e in
            (
              record {
                batch = b.0 tb;
                continuid = u.0 tu;
                m_atoms = rm.0 tm;
                t_atoms = rt.0 tt';
                c_atoms = rc.0 tc;
                u_atoms = ru.0 tU;
                i_atoms = ri.0 ti;
                tokens = k.0 tk;
              },
              tv,
            )),
        (λ (l, tv). tests.1 (
          b.1 l.batch,
          u.1 l.continuid,
          rm.1 l.m_atoms,
          rt.1 l.t_atoms,
          rc.1 l.c_atoms,
          ru.1 l.u_atoms,
          ri.1 l.i_atoms,
          tv,
          k.1 l.tokens,
        )),
      )

first_error_iff :
    (h : Option Bool) (s : Option ErrorCode) (r : ErrorCode)
    → (first_error h s r ≡ some success) ↔ ((h ≡ some true) × (s ≡ some success) × (r ≡ success))
unfolding first_error
first_error_iff none s r = ((λ h. absurd (cc h)), (λ h. absurd (let bad = h.0 in cc bad)))
first_error_iff (some false) s r = ((λ h. absurd (cc h)), (λ h. absurd (let bad = h.0 in cc bad)))
first_error_iff (some true) none r = ((λ h. absurd (cc h)), (λ h. absurd (let bad = h.1 in cc bad)))
first_error_iff (some true) (some e) r = elim (Bool-cases (is_success e)) [
  | inl t ↦ rw t ((λ h. (refl, ap some ((is_success_iff e).0 t), cc)), (λ h. ap some h.2))
  | inr f ↦
      rw f
        ((λ h. absurd (let good : is_success e ≡ true = (is_success_iff e).1 cc in cc)), (λ h. h.1))
]

-- What a molecule that the check accepts is.
pub record Accepted (floats : Floats) (print_unformatted : Json → Bytes) (m : Molecule)
    (balance : Option floats.Double) : Type 0 where
  pub hashed : Hashed print_unformatted m
  pub signed : check_ots m ≡ some success
  pub lawful : Lawful m
  pub conserves : (check_isotope_v floats m balance).0 ≡ true

nonempty : (m : Molecule) (atoms : List Atom) → BatchRule atoms → (length atoms == 0) ≡ false
nonempty m [] h = absurd h
nonempty m (a ∷ atoms) h = ground arith

first_error_tests :
    (floats : Floats) (print_unformatted : Json → Bytes) (m : Molecule)
    (balance : Option floats.Double)
    → (atom_count m == 0) ≡ false
    → (first_error
          (check_molecular_hash print_unformatted m)
          (check_ots m)
          (check_rules floats m balance)
        ≡ some success)
      ↔ Accepted floats print_unformatted m balance
first_error_tests floats print_unformatted m balance n =
    let first =
      first_error_iff (check_molecular_hash print_unformatted m) (check_ots m)
        (check_rules floats m balance) in
    let hash = check_molecular_hash_iff print_unformatted m n in
    let rules = check_rules_iff floats m balance in
    (
      (λ h.
          let (t, s, r) = first.0 h in
          record {
            hashed = hash.0 t;
            signed = s;
            lawful = (rules.0 r).0;
            conserves = (rules.0 r).1;
          }),
      (λ a. first.1 (hash.1 a.hashed, a.signed, rules.1 (a.lawful, a.conserves))),
    )

-- The check accepts exactly the molecules whose declared hash is the one that their atoms hash to,
-- whose signature passes `check_ots`, and which obey the rules of batches, of ContinuID, of each
-- isotope, of tokens (where the first atom has a token, a later V atom has that one or none) and of
-- value.
pub molecule_check_iff :
    (floats : Floats) (print_unformatted : Json → Bytes) (m : Molecule)
    (balance : Option floats.Double)
    → (molecule_check floats print_unformatted m balance ≡ some success)
      ↔ Accepted floats print_unformatted m balance
unfolding molecule_check
molecule_check_iff floats print_unformatted m balance = elim (Bool-cases (atom_count m == 0)) [
  | inl z ↦
      rw z ((λ h. absurd (cc h)), (λ a. absurd (let bad = nonempty m m.atoms a.lawful.batch in cc)))
  | inr n ↦ elim (Option-cases m.molecular_hash) [
    | inl e ↦
        rw (molecule_check, n, e)
          ((λ h. absurd (cc h)), (λ a. absurd (let (d, eq, l, t) = a.hashed in cc)))
    | inr (declared, e) ↦ simp (n, e) (first_error_tests floats print_unformatted m balance n)
  ]
]
