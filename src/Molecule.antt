-- ===== src/Molecule.antt =====
-- Atoms and molecules (include/knishio/atom.h, include/knishio/molecule.h) and the array of atoms
-- of a molecule (src/molecule.c). No entry of the array is NULL, and no atom stands in it twice.
pub mod Array
pub mod Hash
pub mod Hashing
use knish_io_client_c.Errors.{ErrorCode, success, invalid_args, memory, Result, ok, err}
use knish_io_client_c.Isotope.{Isotope, isotope_unknown, isotope_from_string, isotope_eq}
use knish_io_client_c.Wallet.{Wallet}
use knish_io_client_c.Prelude.{
  ℕ, zero, suc, ◌+◌, ◌-◌, ◌*◌, ◌/◌, ◌<◌, ◌≤◌, ◌≡◌, refl, Bool, true, false, not, ◌&&◌, ◌||◌, Option,
  none, some, List, [], ◌∷◌, ◌++◌, ltb, leb, ◌==◌, if◌then◌else◌, Bytes, length, get_elem?, ℤ, pos,
}

-- `knishio_meta_t`
pub record Meta : Type 0 where
  pub key : Option Bytes
  pub value : Option Bytes

-- `knishio_atom_t`; `none` is NULL, also as an entry of the array of metas. The times are in seconds and in milliseconds.
pub record Atom : Type 0 where
  pub position : Option Bytes
  pub wallet_address : Option Bytes
  pub isotope : Isotope
  pub token : Option Bytes
  pub value : Option Bytes
  pub batch_id : Option Bytes
  pub meta_type : Option Bytes
  pub meta_id : Option Bytes
  pub meta : List (Option Meta)
  pub ots_fragment : Option Bytes
  pub index : ℤ
  pub version : Option Bytes
  pub created_at : ℤ
  pub is_validated : Bool
  pub created_at_ms : ℤ

-- `knishio_molecule_status_t`
pub data Status : Type 0 where
  status_unknown status_pending status_accepted status_rejected status_failed : Status

-- `knishio_molecule_t`; `atom_count` is the length of `atoms`.
pub record Molecule : Type 0 where
  pub secret : Option Bytes
  pub bundle : Option Bytes
  pub molecular_hash : Option Bytes
  pub cell_slug : Option Bytes
  pub cell_slug_origin : Option Bytes
  pub version : Option Bytes
  pub created_at : ℤ
  pub status : Status
  pub source_wallet : Option Wallet
  pub remainder_wallet : Option Wallet
  pub atoms : List Atom
  pub atom_capacity : ℕ
  pub is_signed : Bool
  pub is_verified : Bool

abbrev pub atom_count : Molecule → ℕ
atom_count m = length m.atoms

-- `KNISHIO_MAX_ATOMS_PER_MOLECULE`
abbrev pub max_atoms : ℕ
max_atoms = 256

-- `knishio_molecule_create`, with memory for every field; `now` is what the clock, or the fixed
-- timestamp of the environment, says.
unfoldable pub create :
    (now : ℤ) (secret bundle : Option Bytes) (source remainder : Option Wallet)
    (cell_slug version : Option Bytes)
    → Molecule
create now secret bundle source remainder cell_slug version = record {
  secret = secret;
  bundle = bundle;
  molecular_hash = none;
  cell_slug = cell_slug;
  cell_slug_origin = cell_slug;
  version = version;
  created_at = now;
  status = status_unknown;
  source_wallet = source;
  remainder_wallet = remainder;
  atoms = [];
  atom_capacity = 8;
  is_signed = false;
  is_verified = false;
}

-- `resize_atoms_array`; the flag says whether `realloc` finds memory.
unfoldable pub resize_atoms_array : Bool → Molecule → Molecule × ErrorCode
resize_atoms_array enough m =
    let doubled = m.atom_capacity * 2 in
    let new_capacity = if ltb max_atoms doubled then max_atoms else doubled in
    if leb new_capacity m.atom_capacity
    then (m, invalid_args)
    else if not enough
    then (m, memory)
    else (record m { atom_capacity = new_capacity }, success)

-- `knishio_atom_set_index` with an index that is not negative.
abbrev pub set_index : Atom → ℕ → Atom
set_index a n = record a { index = pos n }

-- `knishio_molecule_add_atom` behind the resize.
unfoldable pub append_atom : Molecule → Atom → Molecule × ErrorCode
append_atom m a = if leb max_atoms (atom_count m) then (m, invalid_args) else (
  record m {
    molecular_hash = none;
    is_signed = false;
    is_verified = false;
    atoms = m.atoms ++ set_index a (atom_count m) ∷ [];
  },
  success,
)

-- `if (error != KNISHIO_SUCCESS) return error;` behind the resize.
abbrev pub then_append : Molecule × ErrorCode → Atom → Molecule × ErrorCode
then_append (m, success) a = append_atom m a
then_append (m, error) a = (m, error)

-- `knishio_molecule_add_atom`; the flag says whether `realloc` finds memory.
unfoldable pub add_atom : Bool → Molecule → Atom → Molecule × ErrorCode
add_atom enough m a =
    if leb m.atom_capacity (atom_count m)
    then then_append (resize_atoms_array enough m) a
    else append_atom m a

-- `knishio_molecule_get_atom`
abbrev pub get_atom : Molecule → ℕ → Option Atom
get_atom m i = get_elem? m.atoms i

-- The loop that fills the filtered array.
unfoldable pub filter_loop : Isotope → List Atom → List Atom
filter_loop target [] = []
filter_loop target (a ∷ atoms) =
    let rest = filter_loop target atoms in if isotope_eq a.isotope target then a ∷ rest else rest

-- `knishio_molecule_filter_atoms_by_isotope`
unfoldable pub filter_atoms_by_isotope : Molecule → Bytes → Result (List Atom)
unfolding filter_loop isotope_from_string
filter_atoms_by_isotope m name =
    let target = isotope_from_string (some name) in
    if isotope_eq target isotope_unknown then err invalid_args else ok (filter_loop target m.atoms)

-- `knishio_molecule_generate_next_index`
abbrev pub generate_next_index : Molecule → ℕ
generate_next_index m = atom_count m
