-- ===== src/Builders/Identity.antt =====
-- The molecules of one atom and a ContinuID atom: meta data, authorization, the creation of tokens
-- and of wallets (src/molecule.c).
use knish_io_client_c.Builders.{
  System, meta_create, metas_of, pair_if_given, atom_create, and_then, add_created,
  append_wallet_meta, add_continuid_atom,
}
use knish_io_client_c.Errors.{ErrorCode, invalid_args, invalid_state, Result, ok, ◌>>=◌}
use knish_io_client_c.Isotope.{Isotope, isotope_m, isotope_u, isotope_c}
use knish_io_client_c.Molecule.{Meta, Atom, Molecule}
use knish_io_client_c.Wallet.{Wallet}
use knish_io_client_c.Prelude.{
  Bool, Option, none, some, List, [], ◌∷◌, ◌++◌, if◌then◌else◌, Bytes, codes, map, take, ℤ,
}

-- An atom of the source wallet with metas.
abbrev wallet_atom :
    ℤ → Wallet → Isotope → Option Bytes → Option Bytes → List (Option Meta) → Result Atom
wallet_atom now w isotope value batch_id metas =
    atom_create now w.position w.address isotope w.token value batch_id
    >>= (λ a. ok (record a { meta = metas }))

-- The same, with a meta type and a meta identifier.
abbrev labelled : Bytes → Option Bytes → Result Atom → Result Atom
labelled meta_type meta_id created =
    created >>= (λ a. ok (record a { meta_type = some meta_type; meta_id = meta_id }))

-- The atom is added, then the ContinuID atom.
abbrev pub add_with_continuid : System → Molecule → Result Atom → Molecule × ErrorCode
add_with_continuid system m created =
    and_then (add_created system m created) (add_continuid_atom system)

abbrev given_values : List (Bytes × Bytes) → List (Bytes × Option Bytes)
given_values pairs = map (λ (key, value). (key, some value)) pairs

-- The M atom.
unfoldable pub meta_atom : ℤ → Wallet → Bytes → Bytes → List (Bytes × Bytes) → Result Atom
unfolding atom_create metas_of meta_create
meta_atom now w meta_type meta_id pairs =
    labelled meta_type (some meta_id)
      (wallet_atom now w isotope_m none none (metas_of (given_values pairs)))

-- `knishio_molecule_init_meta`. No key and no value is NULL: the source leaves the entry of such a
-- pair uninitialised.
unfoldable pub init_meta :
    System → Molecule → Option Bytes → Option Bytes → List (Bytes × Bytes) → Molecule × ErrorCode
unfolding add_created add_continuid_atom meta_atom
init_meta system m none meta_id pairs = (m, invalid_args)
init_meta system m (some meta_type) none pairs = (m, invalid_args)
init_meta system m (some meta_type) (some meta_id) pairs = elim m.source_wallet [
  | none ↦ (m, invalid_state)
  | some w ↦ add_with_continuid system m (meta_atom system.now w meta_type meta_id pairs)
]

-- The metas of the U atom.
abbrev pub authorization_pairs : Wallet → Bool → List (Bytes × Option Bytes)
authorization_pairs w encrypt =
    (codes "encrypt", some (if encrypt then codes "true" else codes "false"))
    ∷ (pair_if_given (codes "pubkey") w.pubkey
        ++ (pair_if_given (codes "walletPubkey") w.pubkey
            ++ pair_if_given (codes "characters") w.characters))

-- The U atom.
unfoldable pub authorization_atom : ℤ → Wallet → Bool → Result Atom
unfolding atom_create metas_of meta_create
authorization_atom now w encrypt =
    wallet_atom now w isotope_u none none (metas_of (authorization_pairs w encrypt))

-- `knishio_molecule_init_authorization`
unfoldable pub init_authorization : System → Molecule → Bool → Molecule × ErrorCode
unfolding add_created add_continuid_atom authorization_atom
init_authorization system m encrypt = elim m.source_wallet [
  | none ↦ (m, invalid_state)
  | some w ↦ add_with_continuid system m (authorization_atom system.now w encrypt)
]

-- The pairs without NULL.
unfoldable pub given_pairs : List (Option Bytes × Option Bytes) → List (Bytes × Option Bytes)
given_pairs [] = []
given_pairs ((none, value) ∷ pairs) = given_pairs pairs
given_pairs ((some key, none) ∷ pairs) = given_pairs pairs
given_pairs ((some key, some value) ∷ pairs) = (key, some value) ∷ given_pairs pairs

-- The first 16 pairs of the caller, and the keys of the wallet.
abbrev pub with_wallet_meta : List (Option Bytes × Option Bytes) → Wallet → List (Option Meta)
with_wallet_meta pairs w = metas_of (take 16 (given_pairs pairs) ++ append_wallet_meta w)

-- The C atom of a new token.
unfoldable pub token_atom :
    ℤ → Wallet → Wallet → Bytes → List (Option Bytes × Option Bytes) → Result Atom
unfolding atom_create metas_of meta_create given_pairs append_wallet_meta
token_atom now w recipient amount pairs = labelled (codes "token") recipient.token (
    wallet_atom now w isotope_c (some amount) recipient.batch_id (with_wallet_meta pairs recipient))

-- `knishio_molecule_init_token_creation`
unfoldable pub init_token_creation :
    System
    → Molecule
    → Option Wallet
    → Option Bytes
    → List (Option Bytes × Option Bytes)
    → Molecule × ErrorCode
unfolding add_created add_continuid_atom token_atom
init_token_creation system m none amount pairs = (m, invalid_args)
init_token_creation system m (some recipient) none pairs = (m, invalid_args)
init_token_creation system m (some recipient) (some amount) pairs = elim m.source_wallet [
  | none ↦ (m, invalid_state)
  | some w ↦ add_with_continuid system m (token_atom system.now w recipient amount pairs)
]

-- The C atom of a new wallet.
unfoldable pub wallet_creation_atom :
    ℤ → Wallet → Wallet → List (Option Bytes × Option Bytes) → Result Atom
unfolding atom_create metas_of meta_create given_pairs append_wallet_meta
wallet_creation_atom now w created pairs =
    labelled (codes "wallet") created.address
      (wallet_atom now w isotope_c none created.batch_id (with_wallet_meta pairs created))

-- `knishio_molecule_init_wallet_creation`
unfoldable pub init_wallet_creation :
    System → Molecule → Option Wallet → List (Option Bytes × Option Bytes) → Molecule × ErrorCode
unfolding add_created add_continuid_atom wallet_creation_atom
init_wallet_creation system m none pairs = (m, invalid_args)
init_wallet_creation system m (some created) pairs = elim m.source_wallet [
  | none ↦ (m, invalid_state)
  | some w ↦ add_with_continuid system m (wallet_creation_atom system.now w created pairs)
]

-- `knishio_molecule_init_shadow_wallet_claim`
unfoldable pub init_shadow_wallet_claim : System → Molecule → Option Wallet → Molecule × ErrorCode
unfolding init_wallet_creation
init_shadow_wallet_claim system m created =
    init_wallet_creation system m created
      ((some (codes "shadowWalletClaim"), some (codes "1")) ∷ [])
