-- ===== src/Builders/Keeps.antt =====
-- That each `knishio_molecule_init_…` function of src/molecule.c keeps the array of atoms in order,
-- whether it succeeds or fails.
pub mod Issue
pub mod Transfer
use knish_io_client_c.Builders.{System, add_continuid_atom, continuid_atom, add_created, add_all}
use knish_io_client_c.Builders.Adding.{
  add_created-IsWellFormed, and_then-IsWellFormed, add_all-IsWellFormed,
}
use knish_io_client_c.Builders.Identity.{
  add_with_continuid, init_meta, init_authorization, init_token_creation, init_wallet_creation,
  init_shadow_wallet_claim, meta_atom, authorization_atom, token_atom, wallet_creation_atom,
}
use knish_io_client_c.Builders.Issue.{
  init_replenish, add_replenish, fuse, init_fuse_token, fusion_error, find_all, add_fusion,
  fusion_atoms, restates, fresh_batches, bears_batch, replenish_atom,
}
use knish_io_client_c.Builders.Transfer.{
  Casts, is_short, init_value, init_values, add_values, init_buffer_common, add_buffer, init_burn,
  add_burn, value_atoms, values_atoms, buffer_atoms, burn_atoms,
}
use knish_io_client_c.Builders.Units.{Cjson, text_or_empty}
use knish_io_client_c.Check.Value.{Floats}
use knish_io_client_c.Errors.{ErrorCode, balance_insufficient, Result}
use knish_io_client_c.Molecule.{Atom, Molecule}
use knish_io_client_c.Molecule.Array.{IsWellFormed}
use knish_io_client_c.Wallet.{TokenUnit, Wallet}
use knish_io_client_c.Prelude.{
  ℕ, Bool, true, false, not, ◌&&◌, Bool-cases, Option, none, some, Option-cases, List, [], ◌∷◌,
  Bytes, ℤ, pos, length, ltb_ℤ, ◌-ℤ◌, ◌==◌, inl, inr, if◌then◌else◌,
}

abbrev pub Kept : Molecule × ErrorCode → Type 0
Kept r = IsWellFormed r.0

-- The tests on NULL return the molecule as it is.
pub with_wallet :
    (w : Option Wallet) (m : Molecule) (e : ErrorCode) (next : Wallet → Molecule × ErrorCode)
    → IsWellFormed m
    → ((x : Wallet) → Kept (next x))
    → Kept (elim w [ none ↦ (m, e) | some x ↦ next x ])
with_wallet none m e next w keeps = w
with_wallet (some x) m e next w keeps = keeps x

pub continuid-Kept :
    (system : System) (m : Molecule) → IsWellFormed m → Kept (add_continuid_atom system m)
unfolding add_continuid_atom
continuid-Kept system m w =
    with_wallet m.remainder_wallet m _ _ w
      (λ x. add_created-IsWellFormed system m (continuid_atom system.now m.source_wallet x) w)

pub continuid_added :
    (system : System) (m : Molecule) (created : Result Atom)
    → IsWellFormed m
    → Kept (add_with_continuid system m created)
continuid_added system m created w =
    and_then-IsWellFormed (add_created system m created) (add_continuid_atom system)
      (add_created-IsWellFormed system m created w) (continuid-Kept system)

pub init_meta-Kept :
    (system : System) (m : Molecule) (t i : Option Bytes) (pairs : List (Bytes × Bytes))
    → IsWellFormed m
    → Kept (init_meta system m t i pairs)
unfolding init_meta
init_meta-Kept system m none i pairs w = w
init_meta-Kept system m (some t) none pairs w = w
init_meta-Kept system m (some t) (some i) pairs w =
    with_wallet m.source_wallet m _ _ w
      (λ x. continuid_added system m (meta_atom system.now x t i pairs) w)

pub init_authorization-Kept :
    (system : System) (m : Molecule) (encrypt : Bool)
    → IsWellFormed m
    → Kept (init_authorization system m encrypt)
unfolding init_authorization
init_authorization-Kept system m encrypt w =
    with_wallet m.source_wallet m _ _ w
      (λ x. continuid_added system m (authorization_atom system.now x encrypt) w)

pub init_token_creation-Kept :
    (system : System) (m : Molecule) (recipient : Option Wallet) (amount : Option Bytes)
    (pairs : List (Option Bytes × Option Bytes))
    → IsWellFormed m
    → Kept (init_token_creation system m recipient amount pairs)
unfolding init_token_creation
init_token_creation-Kept system m none amount pairs w = w
init_token_creation-Kept system m (some recipient) none pairs w = w
init_token_creation-Kept system m (some recipient) (some amount) pairs w =
    with_wallet m.source_wallet m _ _ w
      (λ x. continuid_added system m (token_atom system.now x recipient amount pairs) w)

pub init_wallet_creation-Kept :
    (system : System) (m : Molecule) (created : Option Wallet)
    (pairs : List (Option Bytes × Option Bytes))
    → IsWellFormed m
    → Kept (init_wallet_creation system m created pairs)
unfolding init_wallet_creation
init_wallet_creation-Kept system m none pairs w = w
init_wallet_creation-Kept system m (some created) pairs w =
    with_wallet m.source_wallet m _ _ w
      (λ x. continuid_added system m (wallet_creation_atom system.now x created pairs) w)

pub init_shadow_wallet_claim-Kept :
    (system : System) (m : Molecule) (created : Option Wallet)
    → IsWellFormed m
    → Kept (init_shadow_wallet_claim system m created)
unfolding init_shadow_wallet_claim
init_shadow_wallet_claim-Kept system m created w = init_wallet_creation-Kept system m created _ w

-- Two tests on NULL.
pub with_wallets :
    (s r : Option Wallet) (m : Molecule) (e : ErrorCode)
    (next : Wallet → Wallet → Molecule × ErrorCode)
    → IsWellFormed m
    → ((x y : Wallet) → Kept (next x y))
    → Kept (elim s [ none ↦ (m, e) | some x ↦ elim r [ none ↦ (m, e) | some y ↦ next x y ] ])
with_wallets s r m e next w keeps = with_wallet s m e _ w (λ x. with_wallet r m e _ w (keeps x))
