-- ===== src/Pipeline/Identity.antt =====
-- Molecules of M, I, U and C atoms: the rules that src/libraries/check_molecule.c has for them, and that
-- signing does not touch what the rules read.
use knish_io_client_c.Check.Accepts.{Lawful}
use knish_io_client_c.Check.Batches.{BatchRule, TokenRule}
use knish_io_client_c.Check.Lawful.{Each, MRule, TRule, URule, IRule, Has, ContinuId}
use knish_io_client_c.Check.Value.{
  Floats, is_cross, has_cross_isotope, total_loop, check_sender, check_isotope_v,
}
use knish_io_client_c.Isotope.{
  Isotope, isotope_v, isotope_m, isotope_t, isotope_c, isotope_u, isotope_i, isotope_eq,
}
use knish_io_client_c.Molecule.{Atom, Molecule}
use knish_io_client_c.Signature.Rehash.{bare}
use knish_io_client_c.Prelude.{
  ℕ, ◌≡◌, ◌≢◌, refl, sym, ◌∙◌, true, false, Option, none, some, List, [], ◌∷◌, map, All, Bytes, ◌⊎◌,
  inl, inr,
}

-- An M, I, U or C atom that obeys its rule.
abbrev pub IdentityAtom : Atom → Type 0
IdentityAtom a =
    ((a.isotope ≡ isotope_m) × MRule a)
    ⊎ ((a.isotope ≡ isotope_i) × IRule a)
    ⊎ ((a.isotope ≡ isotope_u) × URule a)
    ⊎ ((a.isotope ≡ isotope_c) × TRule a)

-- A predicate that does not read the fragments.
module _ (P : Atom → Type 0) (keeps : (a : Atom) → P a → P (bare a))
    (gives : (a : Atom) → P (bare a) → P a) where
  All-map-bare : (xs : List Atom) → All P xs → All P (map bare xs)
  All-map-bare [] h = tt
  All-map-bare (x ∷ xs) (p, h) = (keeps x p, All-map-bare xs h)

  All-of-bare : (xs : List Atom) → All P (map bare xs) → All P xs
  All-of-bare [] h = tt
  All-of-bare (x ∷ xs) (p, h) = (gives x p, All-of-bare xs h)

  pub All-bare : (xs ys : List Atom) → map bare xs ≡ map bare ys → All P ys → All P xs
  All-bare xs ys e h = All-of-bare xs (rw e (All-map-bare ys h))

pub Identity-bare :
    (xs ys : List Atom) → map bare xs ≡ map bare ys → All IdentityAtom ys → All IdentityAtom xs
Identity-bare = All-bare IdentityAtom (λ a p. p) (λ a p. p)

Has-map-bare : (i : Isotope) (xs : List Atom) → Has i xs → Has i (map bare xs)
Has-map-bare i [] h = h
Has-map-bare i (x ∷ xs) (inl e) = inl e
Has-map-bare i (x ∷ xs) (inr h) = inr (Has-map-bare i xs h)

Has-of-bare : (i : Isotope) (xs : List Atom) → Has i (map bare xs) → Has i xs
Has-of-bare i [] h = h
Has-of-bare i (x ∷ xs) (inl e) = inl e
Has-of-bare i (x ∷ xs) (inr h) = inr (Has-of-bare i xs h)

pub Has-bare : (i : Isotope) (xs ys : List Atom) → map bare xs ≡ map bare ys → Has i ys → Has i xs
Has-bare i xs ys e h = Has-of-bare i xs (rw e (Has-map-bare i ys h))

Identity-Each :
    (i : Isotope) (P : Atom → Type 0) (atoms : List Atom)
    → ((a : Atom) → IdentityAtom a → a.isotope ≡ i → P a)
    → All IdentityAtom atoms
    → Each i P atoms
Identity-Each i P [] pick h = tt
Identity-Each i P (a ∷ atoms) pick (p, h) = (pick a p, Identity-Each i P atoms pick h)

Identity-m : (a : Atom) → IdentityAtom a → a.isotope ≡ isotope_m → MRule a
Identity-m a (inl (e, r)) x = r
Identity-m a (inr (inl (e, r))) x = absurd (let bad = sym e ∙ x in cc)
Identity-m a (inr (inr (inl (e, r)))) x = absurd (let bad = sym e ∙ x in cc)
Identity-m a (inr (inr (inr (e, r)))) x = absurd (let bad = sym e ∙ x in cc)

Identity-i : (a : Atom) → IdentityAtom a → a.isotope ≡ isotope_i → IRule a
Identity-i a (inl (e, r)) x = absurd (let bad = sym e ∙ x in cc)
Identity-i a (inr (inl (e, r))) x = r
Identity-i a (inr (inr (inl (e, r)))) x = absurd (let bad = sym e ∙ x in cc)
Identity-i a (inr (inr (inr (e, r)))) x = absurd (let bad = sym e ∙ x in cc)

Identity-u : (a : Atom) → IdentityAtom a → a.isotope ≡ isotope_u → URule a
Identity-u a (inl (e, r)) x = absurd (let bad = sym e ∙ x in cc)
Identity-u a (inr (inl (e, r))) x = absurd (let bad = sym e ∙ x in cc)
Identity-u a (inr (inr (inl (e, r)))) x = r
Identity-u a (inr (inr (inr (e, r)))) x = absurd (let bad = sym e ∙ x in cc)

Identity-c : (a : Atom) → IdentityAtom a → a.isotope ≡ isotope_c → TRule a
Identity-c a (inl (e, r)) x = absurd (let bad = sym e ∙ x in cc)
Identity-c a (inr (inl (e, r))) x = absurd (let bad = sym e ∙ x in cc)
Identity-c a (inr (inr (inl (e, r)))) x = absurd (let bad = sym e ∙ x in cc)
Identity-c a (inr (inr (inr (e, r)))) x = r

Identity-no_v : (a : Atom) → IdentityAtom a → a.isotope ≢ isotope_v
Identity-no_v a (inl (e, r)) x = let bad = sym e ∙ x in cc
Identity-no_v a (inr (inl (e, r))) x = let bad = sym e ∙ x in cc
Identity-no_v a (inr (inr (inl (e, r)))) x = let bad = sym e ∙ x in cc
Identity-no_v a (inr (inr (inr (e, r)))) x = let bad = sym e ∙ x in cc

Identity-no_t : (a : Atom) → IdentityAtom a → a.isotope ≢ isotope_t
Identity-no_t a (inl (e, r)) x = let bad = sym e ∙ x in cc
Identity-no_t a (inr (inl (e, r))) x = let bad = sym e ∙ x in cc
Identity-no_t a (inr (inr (inl (e, r)))) x = let bad = sym e ∙ x in cc
Identity-no_t a (inr (inr (inr (e, r)))) x = let bad = sym e ∙ x in cc

Identity-BatchRule :
    (atoms : List Atom) → Has isotope_i atoms → All IdentityAtom atoms → BatchRule atoms
Identity-BatchRule [] n h = absurd n
Identity-BatchRule (a ∷ atoms) n (p, h) = λ x. absurd (Identity-no_v a p x)

Identity-ContinuId : (atoms : List Atom) → Has isotope_i atoms → ContinuId atoms
Identity-ContinuId [] n = tt
Identity-ContinuId (a ∷ atoms) n = λ x. n

Identity-tokens :
    (token : Option Bytes) (atoms : List Atom)
    → All IdentityAtom atoms
    → elim token as (λ x. Type 0) [
      | none ↦ Unit {0}
      | some t ↦ Each isotope_v (λ b. (b.token ≡ none) ⊎ (b.token ≡ some t)) atoms
    ]
Identity-tokens none atoms h = tt
Identity-tokens (some t) atoms h =
    Identity-Each isotope_v (λ b. (b.token ≡ none) ⊎ (b.token ≡ some t)) atoms
      (λ a p x. absurd (Identity-no_v a p x)) h

Identity-TokenRule : (atoms : List Atom) → All IdentityAtom atoms → TokenRule atoms
Identity-TokenRule [] h = tt
Identity-TokenRule (a ∷ atoms) (p, h) = Identity-tokens a.token atoms h

-- A molecule of such atoms with an I atom obeys the rules.
pub Identity-Lawful : (m : Molecule) → Has isotope_i m.atoms → All IdentityAtom m.atoms → Lawful m
Identity-Lawful m n h = record {
  batch = Identity-BatchRule m.atoms n h;
  continuid = Identity-ContinuId m.atoms n;
  m_atoms = Identity-Each isotope_m MRule m.atoms Identity-m h;
  t_atoms = Identity-Each isotope_t TRule m.atoms (λ a p x. absurd (Identity-no_t a p x)) h;
  c_atoms = Identity-Each isotope_c TRule m.atoms Identity-c h;
  u_atoms = Identity-Each isotope_u URule m.atoms Identity-u h;
  i_atoms = Identity-Each isotope_i IRule m.atoms Identity-i h;
  tokens = Identity-TokenRule m.atoms h;
}

Identity-isotope :
    (a : Atom) → IdentityAtom a → (isotope_eq a.isotope isotope_v ≡ false) × (is_cross a ≡ false)
unfolding isotope_eq
Identity-isotope a (inl (e, r)) = rw e (refl, refl)
Identity-isotope a (inr (inl (e, r))) = rw e (refl, refl)
Identity-isotope a (inr (inr (inl (e, r)))) = rw e (refl, refl)
Identity-isotope a (inr (inr (inr (e, r)))) = rw e (refl, refl)

Identity-no_cross : (atoms : List Atom) → All IdentityAtom atoms → has_cross_isotope atoms ≡ false
unfolding has_cross_isotope
Identity-no_cross [] h = refl
Identity-no_cross (a ∷ atoms) (p, h) = rw (Identity-isotope a p).1 (Identity-no_cross atoms h)

module _ (floats : Floats) where
  Identity-total :
      (atoms : List Atom) (count : ℕ) (total : floats.Double)
      → All IdentityAtom atoms
      → total_loop floats atoms count total ≡ (count, total)
  unfolding total_loop
  Identity-total [] count total h = refl
  Identity-total (a ∷ atoms) count total (p, h) =
      rw (Identity-isotope a p).0 (Identity-total atoms count total h)

  Identity-check_sender :
      (balance : Option floats.Double) (total : floats.Double) (atoms : List Atom)
      → check_sender floats balance 0 total atoms ≡ true
  unfolding check_sender
  Identity-check_sender none total atoms = refl
  Identity-check_sender (some balance) total [] = refl
  Identity-check_sender (some balance) total (a ∷ atoms) = refl

  -- Atoms without value pass the value test, since zero is below a hundredth.
  pub Identity-check_isotope_v :
      (m : Molecule) (balance : Option floats.Double)
      → floats.is_below (floats.fabs floats.double_zero) floats.hundredth ≡ true
      → All IdentityAtom m.atoms
      → (check_isotope_v floats m balance).0 ≡ true
  unfolding check_isotope_v
  Identity-check_isotope_v m balance z h =
      rw
        (
          Identity-no_cross m.atoms h,
          Identity-total m.atoms 0 floats.double_zero h,
          z,
          Identity-check_sender balance floats.double_zero m.atoms,
        )
        refl
