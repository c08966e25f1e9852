-- ===== src/Molecule/Array.antt =====
-- The array of atoms stays within its capacity, and each atom's index is its place in it.
use knish_io_client_c.Errors.{ErrorCode, success, invalid_args, memory}
use knish_io_client_c.Molecule.{
  Atom, Molecule, atom_count, max_atoms, create, resize_atoms_array, set_index, append_atom,
  add_atom,
}
use native.Mathlib.Decide.{dec_lt}
use knish_io_client_c.Wallet.{Wallet}
use knish_io_client_c.Prelude.{
  ℕ, suc, ◌+◌, ◌*◌, ◌<◌, ◌≤◌, ◌≡◌, refl, ap, ◌∙◌, Bool, true, false, Option, none, List, [], ◌∷◌,
  ◌++◌, ltb, leb, if◌then◌else◌, length, length-append, ℤ, pos, arith, Bytes,
}

-- The indexes are `n`, `n + 1`, …
abbrev pub Numbered : ℕ → List Atom → Type 0
Numbered n [] = Unit
Numbered n (a ∷ atoms) = (a.index ≡ pos n) × Numbered (suc n) atoms

pub record IsWellFormed (m : Molecule) : Type 0 where
  pub within : atom_count m ≤ m.atom_capacity
  pub some_room : 0 < m.atom_capacity
  pub limited : m.atom_capacity ≤ max_atoms
  pub numbered : Numbered 0 m.atoms

-- A new molecule is well-formed.
pub create-IsWellFormed :
    (now : ℤ) (secret bundle : Option Bytes) (source remainder : Option Wallet)
    (cell_slug version : Option Bytes)
    → IsWellFormed (create now secret bundle source remainder cell_slug version)
unfolding create
create-IsWellFormed now secret bundle source remainder cell_slug version = record {
  within = omega arith;
  some_room = omega arith;
  limited = omega arith;
  numbered = tt;
}

Numbered-append :
    (n : ℕ) (atoms : List Atom) (a : Atom)
    → Numbered n atoms
    → a.index ≡ pos (n + length atoms)
    → Numbered n (atoms ++ a ∷ [])
Numbered-append n [] a h e = (e ∙ ap pos (omega arith), tt)
Numbered-append n (x ∷ atoms) a h e =
    (h.0, Numbered-append (suc n) atoms a h.1 (e ∙ ap pos (omega arith)))

-- The capacity is doubled, up to the limit of 256.
abbrev grown : Molecule → Molecule
grown m = record m {
  atom_capacity = if ltb max_atoms (m.atom_capacity * 2) then max_atoms else m.atom_capacity * 2;
}

resize_at_limit :
    (enough : Bool) (m : Molecule)
    → m.atom_capacity ≡ max_atoms
    → resize_atoms_array enough m ≡ (m, invalid_args)
unfolding resize_atoms_array
resize_at_limit enough m h = rw h

resize_below_limit :
    (enough : Bool) (m : Molecule)
    → 0 < m.atom_capacity
    → m.atom_capacity < max_atoms
    → resize_atoms_array enough m ≡ (if enough then (grown m, success) else (m, memory))
unfolding resize_atoms_array
resize_below_limit true m p h =
    let t : leb (grown m).atom_capacity m.atom_capacity ≡ false = ground arith in rw t
resize_below_limit false m p h =
    let t : leb (grown m).atom_capacity m.atom_capacity ≡ false = ground arith in rw t

-- The molecule with the new atom at the end.
abbrev pub appended : Molecule → Atom → ℕ → Molecule
appended m a capacity = record m {
  molecular_hash = none;
  is_signed = false;
  is_verified = false;
  atoms = m.atoms ++ set_index a (atom_count m) ∷ [];
  atom_capacity = capacity;
}

appended-IsWellFormed :
    (m : Molecule) (a : Atom) (capacity : ℕ)
    → IsWellFormed m
    → atom_count m < capacity
    → capacity ≤ max_atoms
    → IsWellFormed (appended m a capacity)
appended-IsWellFormed m a capacity w h l = record {
  within = omega (arith, length-append m.atoms (set_index a (atom_count m) ∷ []));
  some_room = omega arith;
  limited = l;
  numbered =
      Numbered-append 0 m.atoms (set_index a (atom_count m)) w.numbered (ap pos (omega arith));
}

append_atom-appended :
    (m : Molecule) (a : Atom)
    → atom_count m < max_atoms
    → append_atom m a ≡ (appended m a m.atom_capacity, success)
unfolding append_atom
append_atom-appended m a h = let t : leb max_atoms (atom_count m) ≡ false = ground arith in rw t

-- What adding an atom does.
pub data Added (enough : Bool) (m : Molecule) (a : Atom) (r : Molecule × ErrorCode) : Type 0 where
  accepted :
      (capacity : ℕ)
      → atom_count m < max_atoms
      → m.atom_capacity ≤ capacity
      → r ≡ (appended m a capacity, success)
      → IsWellFormed r.0
      → Added enough m a r
  at_limit : atom_count m ≡ max_atoms → r ≡ (m, invalid_args) → Added enough m a r
  no_memory :
      atom_count m ≡ m.atom_capacity
      → atom_count m < max_atoms
      → enough ≡ false
      → r ≡ (m, memory)
      → Added enough m a r

accept :
    (enough : Bool) (m : Molecule) (a : Atom) (capacity : ℕ) (r : Molecule × ErrorCode)
    → IsWellFormed m
    → atom_count m < capacity
    → m.atom_capacity ≤ capacity
    → capacity ≤ max_atoms
    → r ≡ (appended m a capacity, success)
    → Added enough m a r
accept enough m a capacity r w h k l e =
    accepted capacity (omega arith) k e (rw e (appended-IsWellFormed m a capacity w h l))

add_when_full :
    (enough : Bool) (m : Molecule) (a : Atom)
    → IsWellFormed m
    → atom_count m ≡ m.atom_capacity
    → atom_count m < max_atoms
    → Added enough m a (add_atom enough m a)
unfolding add_atom
add_when_full true m a w full h =
    let t : leb m.atom_capacity (atom_count m) ≡ true = ground arith in
    let r = resize_below_limit true m w.some_room (omega arith) in
    accept true m a (grown m).atom_capacity _ w (ground arith) (ground arith) (ground arith)
      (rw (t, r) (append_atom-appended (grown m) a h))
add_when_full false m a w full h =
    let t : leb m.atom_capacity (atom_count m) ≡ true = ground arith in
    let r = resize_below_limit false m w.some_room (omega arith) in
    no_memory full h refl (rw (t, r))

-- Adding an atom to a well-formed molecule has one of three outcomes. Below 256 atoms it stands
-- at the end with its place as its index, in a well-formed molecule that has lost its hash and
-- its signature; with 256 atoms, or where no memory is left to grow, the molecule is unchanged.
pub add_atom-Added :
    (enough : Bool) (m : Molecule) (a : Atom)
    → IsWellFormed m
    → Added enough m a (add_atom enough m a)
unfolding add_atom
add_atom-Added enough m a w = elim (dec_lt (atom_count m) m.atom_capacity) [
  | yes room ↦
      let t : leb m.atom_capacity (atom_count m) ≡ false = ground arith in
      accept enough m a m.atom_capacity _ w room (omega arith) w.limited
        (rw t (append_atom-appended m a (omega (arith, w.limited))))
  | no full ↦ elim (dec_lt (atom_count m) max_atoms) [
    | yes h ↦ add_when_full enough m a w (omega (arith, w.within)) h
    | no h ↦
        let t : leb m.atom_capacity (atom_count m) ≡ true = ground arith in
        let r = resize_at_limit enough m (omega (arith, w.within, w.limited)) in
        at_limit (omega (arith, w.within, w.limited)) (rw (t, r))
  ]
]
