-- ===== src/Builders/Adding.antt =====
-- What it does to a molecule to create and add atoms (the builders of src/molecule.c).
use knish_io_client_c.Builders.{System, and_then, add_created, add_all}
use knish_io_client_c.Errors.{ErrorCode, is_success, success, Result, ok, err}
use knish_io_client_c.Molecule.{Atom, Molecule, atom_count, max_atoms, set_index, add_atom}
use knish_io_client_c.Molecule.Array.{
  IsWellFormed, appended, Added, accepted, at_limit, no_memory, add_atom-Added,
}
use knish_io_client_c.Prelude.{
  ℕ, suc, ◌+◌, ◌≤◌, ◌≡◌, refl, ap, sym, ◌∙◌, Bool, true, Bool-cases, List, [], ◌∷◌, ◌++◌,
  append_assoc, append-nil, length-append, map, length, arith, inl, inr,
}

Added-IsWellFormed :
    (enough : Bool) (m : Molecule) (a : Atom) (r : Molecule × ErrorCode)
    → IsWellFormed m
    → Added enough m a r
    → IsWellFormed r.0
Added-IsWellFormed enough m a r w (accepted capacity h k e w') = w'
Added-IsWellFormed enough m a r w (at_limit h e) = rw e w
Added-IsWellFormed enough m a r w (no_memory h k l e) = rw e w

pub add_created-IsWellFormed :
    (system : System) (m : Molecule) (created : Result Atom)
    → IsWellFormed m
    → IsWellFormed (add_created system m created).0
unfolding add_created
add_created-IsWellFormed system m (err e) w = w
add_created-IsWellFormed system m (ok a) w =
    let enough = system.has_memory (atom_count m) in
    Added-IsWellFormed enough m a (add_atom enough m a) w (add_atom-Added enough m a w)

pub and_then-IsWellFormed :
    (r : Molecule × ErrorCode) (next : Molecule → Molecule × ErrorCode)
    → IsWellFormed r.0
    → ((m : Molecule) → IsWellFormed m → IsWellFormed (next m).0)
    → IsWellFormed (and_then r next).0
and_then-IsWellFormed r next w keeps = elim (Bool-cases (is_success r.1)) [
  | inl t ↦ rw t (keeps r.0 w)
  | inr f ↦ rw f w
]

pub add_all-IsWellFormed :
    (system : System) (m : Molecule) (created : List (Result Atom))
    → IsWellFormed m
    → IsWellFormed (add_all system m created).0
unfolding add_all
add_all-IsWellFormed system m [] w = w
add_all-IsWellFormed system m (c ∷ created) w =
    and_then-IsWellFormed (add_created system m c) (λ added. add_all system added created)
      (add_created-IsWellFormed system m c w)
      (λ added w'. add_all-IsWellFormed system added created w')

-- The atoms with the indexes `n`, `n + 1`, …
abbrev pub numbered_from : ℕ → List Atom → List Atom
numbered_from n [] = []
numbered_from n (a ∷ atoms) = set_index a n ∷ numbered_from (suc n) atoms

-- The molecule with the new atoms at the end.
pub record Extended (m : Molecule) (atoms : List Atom) (m' : Molecule) : Type 0 where
  pub at_end : m'.atoms ≡ m.atoms ++ numbered_from (atom_count m) atoms
  pub wallets : (m'.source_wallet ≡ m.source_wallet) × (m'.remainder_wallet ≡ m.remainder_wallet)
  pub owner : (m'.secret ≡ m.secret) × (m'.bundle ≡ m.bundle)
  pub still : IsWellFormed m'

-- Memory for every growth of the array.
abbrev pub HasMemory : System → Type 0
HasMemory system = (n : ℕ) → system.has_memory n ≡ true

settled :
    (r : Molecule × ErrorCode) (m : Molecule) → r ≡ (m, success) → IsWellFormed r.0 → IsWellFormed m
settled r m e w = let same : m ≡ r.0 = sym (ap (λ x. x.0) e) in rw same w

pub one_added :
    (system : System) (m : Molecule) (a : Atom)
    → IsWellFormed m
    → HasMemory system
    → suc (atom_count m) ≤ max_atoms
    → (m' : Molecule) × (add_created system m (ok a) ≡ (m', success)) × Extended m (a ∷ []) m'
unfolding add_created
one_added system m a w enough room =
    elim (add_atom-Added (system.has_memory (atom_count m)) m a w) [
      | accepted capacity h k e w' ↦ (
        appended m a capacity,
        e,
        record {
          at_end = refl;
          wallets = (refl, refl);
          owner = (refl, refl);
          still = settled (add_atom (system.has_memory (atom_count m)) m a) _ e w';
        },
      )
      | at_limit h e ↦ absurd (omega arith)
      | no_memory h k l e ↦ absurd (let t = enough (atom_count m) in cc)
    ]

pub Extended-append :
    (m m₁ m₂ : Molecule) (a : Atom) (atoms : List Atom)
    → Extended m (a ∷ []) m₁
    → Extended m₁ atoms m₂
    → Extended m (a ∷ atoms) m₂
Extended-append m m₁ m₂ a atoms one more =
    let first = set_index a (atom_count m) in
    let count : atom_count m₁ ≡ suc (atom_count m) =
      ap length one.at_end ∙ length-append m.atoms (first ∷ []) ∙ omega arith in
    record {
      at_end =
          more.at_end
          ∙ ap (λ n. m₁.atoms ++ numbered_from n atoms) count
          ∙ ap (λ l. l ++ numbered_from (suc (atom_count m)) atoms) one.at_end
          ∙ append_assoc m.atoms (first ∷ []) (numbered_from (suc (atom_count m)) atoms);
      wallets = (more.wallets.0 ∙ one.wallets.0, more.wallets.1 ∙ one.wallets.1);
      owner = (more.owner.0 ∙ one.owner.0, more.owner.1 ∙ one.owner.1);
      still = more.still;
    }

Extended-nil : (m : Molecule) → IsWellFormed m → Extended m [] m
Extended-nil m w = record {
  at_end = sym (append-nil m.atoms);
  wallets = (refl, refl);
  owner = (refl, refl);
  still = w;
}

-- With memory and room, atoms that can be created are added in order.
pub add_all-Extended :
    (system : System) (m : Molecule) (atoms : List Atom)
    → IsWellFormed m
    → HasMemory system
    → atom_count m + length atoms ≤ max_atoms
    → (m' : Molecule) × (add_all system m (map ok atoms) ≡ (m', success)) × Extended m atoms m'
unfolding add_all is_success
add_all-Extended system m [] w enough room = (m, refl, Extended-nil m w)
add_all-Extended system m (a ∷ atoms) w enough room =
    let (m₁, e₁, one) = one_added system m a w enough (omega arith) in
    let count : atom_count m₁ ≡ suc (atom_count m) =
      ap length one.at_end
      ∙ length-append m.atoms (set_index a (atom_count m) ∷ [])
      ∙ omega arith in
    let (m₂, e₂, more) = add_all-Extended system m₁ atoms one.still enough (omega arith) in
    (
      m₂,
      ap (λ r. and_then r (λ added. add_all system added (map ok atoms))) e₁ ∙ e₂,
      Extended-append m m₁ m₂ a atoms one more,
    )
