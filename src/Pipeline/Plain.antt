-- ===== src/Pipeline/Plain.antt =====
-- Atoms that only move one token: the rules that src/libraries/check_molecule.c has for them, and
-- that signing does not touch what the rules read.
use knish_io_client_c.Builders.Exact.{Entry, CarryAll}
use knish_io_client_c.Check.Accepts.{Lawful}
use knish_io_client_c.Check.Batches.{BatchRule, TokenRule}
use knish_io_client_c.Check.Lawful.{Each, MRule, TRule, URule, IRule, ContinuId}
use knish_io_client_c.Isotope.{
  Isotope, isotope_v, isotope_m, isotope_t, isotope_c, isotope_u, isotope_i,
}
use knish_io_client_c.Molecule.{Atom, Molecule}
use knish_io_client_c.Signature.{signing_ots_version}
use knish_io_client_c.Signature.Rehash.{bare}
use knish_io_client_c.Prelude.{
  ◌≡◌, ◌≢◌, refl, ap, sym, ◌∙◌, none, some, List, [], ◌∷◌, Bytes, codes, map, length, ◌==◌, false,
  All, arith, ◌⊎◌, inr,
}

-- A V atom of the token, without a batch.
abbrev pub PlainAtom : Bytes → Atom → Type 0
PlainAtom token a = (a.isotope ≡ isotope_v) × (a.token ≡ some token) × (a.batch_id ≡ none)

abbrev pub AllPlain : Bytes → List Atom → Type 0
AllPlain token atoms = All (PlainAtom token) atoms

AllPlain-Each :
    (token : Bytes) (i : Isotope) (P : Atom → Type 0) (atoms : List Atom)
    → isotope_v ≢ i
    → AllPlain token atoms
    → Each i P atoms
AllPlain-Each token i P [] n h = tt
AllPlain-Each token i P (a ∷ atoms) n (p, h) =
    ((λ e. absurd (n (sym p.0 ∙ e))), AllPlain-Each token i P atoms n h)

AllPlain-tokens :
    (token : Bytes) (atoms : List Atom)
    → AllPlain token atoms
    → Each isotope_v (λ a. (a.token ≡ none) ⊎ (a.token ≡ some token)) atoms
AllPlain-tokens token [] h = tt
AllPlain-tokens token (a ∷ atoms) (p, h) = ((λ e. inr p.1), AllPlain-tokens token atoms h)

AllPlain-TokenRule : (token : Bytes) (atoms : List Atom) → AllPlain token atoms → TokenRule atoms
AllPlain-TokenRule token [] h = tt
AllPlain-TokenRule token (first ∷ rest) ((v, t, b), h) = rw t (AllPlain-tokens token rest h)

AllPlain-BatchRule :
    (token : Bytes) (atoms : List Atom) (first : Atom) (rest : List Atom)
    → atoms ≡ first ∷ rest
    → AllPlain token atoms
    → BatchRule atoms
AllPlain-BatchRule token [] first rest e h = absurd (cc e)
AllPlain-BatchRule token (a ∷ atoms) first rest e ((v, t, b), h) = λ i. rw b tt

AllPlain-ContinuId :
    (token : Bytes) (atoms : List Atom)
    → token ≢ codes "USER"
    → AllPlain token atoms
    → ContinuId atoms
AllPlain-ContinuId token [] n h = tt
AllPlain-ContinuId token (first ∷ rest) n ((v, t, b), h) =
    λ e. absurd (n (let same = sym t ∙ e in cc))

-- Signing changes only the fragments.
pub AllPlain-bare :
    (token : Bytes) (xs ys : List Atom)
    → map bare xs ≡ map bare ys
    → AllPlain token ys
    → AllPlain token xs
AllPlain-bare token [] ys e h = tt
AllPlain-bare token (x ∷ xs) [] e h = absurd (cc e)
AllPlain-bare token (x ∷ xs) (y ∷ ys) e (p, h) =
    let head : bare x ≡ bare y = cc e in
    let tail : map bare xs ≡ map bare ys = cc e in
    (
      (
        ap (λ a. a.isotope) head ∙ p.0,
        ap (λ a. a.token) head ∙ p.1,
        ap (λ a. a.batch_id) head ∙ p.2,
      ),
      AllPlain-bare token xs ys tail h,
    )

pub CarryAll-bare :
    (xs ys : List Atom) (entries : List Entry)
    → map bare xs ≡ map bare ys
    → CarryAll ys entries
    → CarryAll xs entries
CarryAll-bare [] [] entries e h = h
CarryAll-bare [] (y ∷ ys) entries e h = absurd (cc e)
CarryAll-bare (x ∷ xs) [] entries e h = absurd (cc e)
CarryAll-bare (x ∷ xs) (y ∷ ys) [] e h = absurd h
CarryAll-bare (x ∷ xs) (y ∷ ys) (k ∷ entries) e ((i, t), h) =
    let head : bare x ≡ bare y = cc e in
    let tail : map bare xs ≡ map bare ys = cc e in
    ((ap (λ a. a.isotope) head ∙ i, ap (λ a. a.value) head ∙ t), CarryAll-bare xs ys entries tail h)

-- AllPlain atoms of a token other than USER obey the rules.
pub AllPlain-Lawful :
    (token : Bytes) (m : Molecule) (first : Atom) (rest : List Atom)
    → m.atoms ≡ first ∷ rest
    → token ≢ codes "USER"
    → AllPlain token m.atoms
    → Lawful m
AllPlain-Lawful token m first rest e n h = record {
  batch = AllPlain-BatchRule token m.atoms first rest e h;
  continuid = AllPlain-ContinuId token m.atoms n h;
  m_atoms = AllPlain-Each token isotope_m MRule m.atoms (λ x. cc) h;
  t_atoms = AllPlain-Each token isotope_t TRule m.atoms (λ x. cc) h;
  c_atoms = AllPlain-Each token isotope_c TRule m.atoms (λ x. cc) h;
  u_atoms = AllPlain-Each token isotope_u URule m.atoms (λ x. cc) h;
  i_atoms = AllPlain-Each token isotope_i IRule m.atoms (λ x. cc) h;
  tokens = AllPlain-TokenRule token m.atoms h;
}

pub CarryAll-first :
    (atoms : List Atom) (e : Entry) (entries : List Entry)
    → CarryAll atoms (e ∷ entries)
    → (first : Atom) × (rest : List Atom) × (atoms ≡ first ∷ rest) × ((length atoms == 0) ≡ false)
CarryAll-first [] e entries h = absurd h
CarryAll-first (a ∷ atoms) e entries h = (a, atoms, refl, ground arith)

-- The version depends on the source wallet only.
pub same_version :
    (x y : Molecule)
    → x.source_wallet ≡ y.source_wallet
    → signing_ots_version x ≡ signing_ots_version y
unfolding signing_ots_version
same_version x y e = rw (signing_ots_version, e) refl
