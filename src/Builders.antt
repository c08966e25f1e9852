-- ===== src/Builders.antt =====
-- Atoms made from scratch and added to a molecule (`knishio_atom_create` of src/atom.c,
-- `knishio_meta_create` of src/meta.c and the helpers that the `knishio_molecule_init_…` functions
-- of src/molecule.c share). There is memory for each atom, meta and text that is made; only the
-- array of atoms may fail to grow.
pub mod Units
pub mod Identity
pub mod Transfer
pub mod Issue
pub mod Adding
pub mod Keeps
pub mod Reachable
pub mod Exact
pub mod Long
pub mod Made
pub mod Balanced
pub mod Conserves
pub mod Burns
pub mod Buffers
pub mod Payments
pub mod Several
pub mod Fusion
use knish_io_client_c.Errors.{
  ErrorCode, is_success, success, invalid_args, invalid_state, Result, ok, err, ◌>>=◌,
}
use knish_io_client_c.Isotope.{Isotope, isotope_i}
use knish_io_client_c.Molecule.{Meta, Atom, Molecule, atom_count, add_atom}
use knish_io_client_c.Wallet.{Wallet}
use knish_io_client_c.Prelude.{
  ℕ, Bool, true, false, not, ◌&&◌, ◌||◌, Option, none, some, List, [], ◌∷◌, ◌++◌, ltb, ◌==◌,
  if◌then◌else◌, Bytes, codes, length, map, ℤ, pos, negsuc,
}

-- What the functions get from outside: what the clock, or the fixed timestamp of the environment,
-- says; and whether `realloc` finds memory when the molecule has so many atoms.
pub record System : Type 0 where
  pub now : ℤ
  pub has_memory : ℕ → Bool

-- `KNISHIO_MAX_META_KEY_LENGTH`, `KNISHIO_MAX_META_VALUE_LENGTH`
abbrev pub max_key_length : ℕ
max_key_length = 256

abbrev pub max_value_length : ℕ
max_value_length = 4096

-- `knishio_meta_create`
unfoldable pub meta_create : Option Bytes → Option Bytes → Result Meta
meta_create none value = err invalid_args
meta_create (some key) none = err invalid_args
meta_create (some key) (some value) =
    if ltb max_key_length (length key) || ltb max_value_length (length value)
    then err invalid_args
    else ok (record { key = some key; value = some value })

-- The entry of the array of metas: `atom->meta[i] = NULL` after a failure.
abbrev pub meta_or_null : Result Meta → Option Meta
meta_or_null (ok m) = some m
meta_or_null (err e) = none

-- The loop that fills the array of metas from keys and values.
unfoldable pub metas_of : List (Bytes × Option Bytes) → List (Option Meta)
metas_of [] = []
metas_of ((key, value) ∷ pairs) = meta_or_null (meta_create (some key) value) ∷ metas_of pairs

-- The pair, if the condition of the source holds of the value: it is not NULL.
abbrev pub pair_if_given : Bytes → Option Bytes → List (Bytes × Option Bytes)
pair_if_given key none = []
pair_if_given key (some value) = (key, some value) ∷ []

-- The pair, if the value is neither NULL nor empty.
abbrev pub pair_if_filled : Bytes → Option Bytes → List (Bytes × Option Bytes)
pair_if_filled key none = []
pair_if_filled key (some []) = []
pair_if_filled key (some (c ∷ rest)) = (key, some (c ∷ rest)) ∷ []

-- `(strlen(text) != 0 && strlen(text) != 64)`
abbrev pub has_bad_length : Bytes → Bool
has_bad_length text = not (length text == 0) && not (length text == 64)

-- The atom that passes the checks of `knishio_atom_create`.
abbrev pub fresh_atom : ℤ → Bytes → Bytes → Isotope → Bytes → Option Bytes → Option Bytes → Atom
fresh_atom now position address isotope token value batch_id = record {
  position = some position;
  wallet_address = some address;
  isotope = isotope;
  token = some token;
  value = value;
  batch_id = batch_id;
  meta_type = none;
  meta_id = none;
  meta = [];
  ots_fragment = none;
  index = negsuc 0;
  version = none;
  created_at = now;
  is_validated = false;
  created_at_ms = pos 0;
}

-- `knishio_atom_create`
unfoldable pub atom_create :
    (now : ℤ) (position address : Option Bytes) (isotope : Isotope)
    (token value batch_id : Option Bytes)
    → Result Atom
atom_create now none address isotope token value batch_id = err invalid_args
atom_create now (some position) none isotope token value batch_id = err invalid_args
atom_create now (some position) (some address) isotope none value batch_id = err invalid_args
atom_create now (some position) (some address) isotope (some token) value batch_id =
    if has_bad_length position || has_bad_length address
    then err invalid_args
    else ok (fresh_atom now position address isotope token value batch_id)

-- `set_wallet_bundle_meta`, and the lines of other functions that do the same.
abbrev pub set_wallet_bundle_meta : Option Bytes → Atom → Atom
set_wallet_bundle_meta bundle a = record a {
  meta_type = some (codes "walletBundle");
  meta_id = bundle;
}

-- `if (result != KNISHIO_SUCCESS) return result;`
abbrev pub and_then :
    Molecule × ErrorCode → (Molecule → Molecule × ErrorCode) → Molecule × ErrorCode
and_then r next = if is_success r.1 then next r.0 else r

-- What was created is added to the molecule.
unfoldable pub add_created : System → Molecule → Result Atom → Molecule × ErrorCode
add_created system m (err e) = (m, e)
add_created system m (ok a) = add_atom (system.has_memory (atom_count m)) m a

-- One atom after the other is created and added, until the first error.
unfoldable pub add_all : System → Molecule → List (Result Atom) → Molecule × ErrorCode
unfolding add_created
add_all system m [] = (m, success)
add_all system m (created ∷ rest) =
    and_then (add_created system m created) (λ added. add_all system added rest)

-- `append_wallet_meta`
unfoldable pub append_wallet_meta : Wallet → List (Bytes × Option Bytes)
append_wallet_meta w =
    (codes "walletTokenSlug", w.token)
    ∷ (codes "walletBundleHash", w.bundle_hash)
    ∷ (codes "walletAddress", w.address)
    ∷ (codes "walletPosition", w.position)
    ∷ (pair_if_filled (codes "walletBatchId") w.batch_id
        ++ (pair_if_filled (codes "walletPubkey") w.pubkey
            ++ pair_if_filled (codes "walletCharacters") w.characters))

abbrev pub position_of : Option Wallet → Option Bytes
position_of none = none
position_of (some w) = w.position

-- The metas of the ContinuID atom.
unfoldable pub continuid_metas : Option Wallet → Wallet → List (Option Meta)
unfolding metas_of meta_create
continuid_metas source w = metas_of (
    pair_if_given (codes "previousPosition") (position_of source)
    ++ (pair_if_given (codes "pubkey") w.pubkey ++ pair_if_given (codes "characters") w.characters))

-- The ContinuID atom of a remainder wallet.
unfoldable pub continuid_atom : ℤ → Option Wallet → Wallet → Result Atom
unfolding atom_create continuid_metas
continuid_atom now source w =
    atom_create now w.position w.address isotope_i w.token none none >>= (λ a.
      ok (record (set_wallet_bundle_meta w.bundle_hash a) { meta = continuid_metas source w }))

-- `add_continuid_atom`
unfoldable pub add_continuid_atom : System → Molecule → Molecule × ErrorCode
unfolding add_created continuid_atom
add_continuid_atom system m = elim m.remainder_wallet [
  | none ↦ (m, invalid_state)
  | some w ↦ add_created system m (continuid_atom system.now m.source_wallet w)
]
