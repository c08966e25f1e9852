-- ===== src/Builders/Reachable.antt =====
-- The molecules that a program can reach with the functions of src/molecule.c that create a
-- molecule and add atoms to it.
use knish_io_client_c.Builders.{System}
use knish_io_client_c.Builders.Identity.{
  init_meta, init_authorization, init_token_creation, init_wallet_creation,
  init_shadow_wallet_claim,
}
use knish_io_client_c.Builders.Issue.{init_replenish, init_fuse_token}
use knish_io_client_c.Builders.Keeps.{
  init_meta-Kept, init_authorization-Kept, init_token_creation-Kept, init_wallet_creation-Kept,
  init_shadow_wallet_claim-Kept,
}
use knish_io_client_c.Builders.Keeps.Issue.{init_replenish-Kept, init_fuse_token-Kept}
use knish_io_client_c.Builders.Keeps.Transfer.{
  init_value-Kept, init_values-Kept, init_buffer_common-Kept, init_burn-Kept,
}
use knish_io_client_c.Builders.Adding.{add_created-IsWellFormed}
use knish_io_client_c.Builders.{add_created}
use knish_io_client_c.Builders.Transfer.{
  Casts, init_value, init_values, init_buffer_common, init_burn,
}
use knish_io_client_c.Builders.Units.{Cjson}
use knish_io_client_c.Check.Value.{Floats}
use knish_io_client_c.Errors.{ok}
use knish_io_client_c.Molecule.{Atom, Molecule, create}
use knish_io_client_c.Molecule.Array.{IsWellFormed, create-IsWellFormed}
use knish_io_client_c.Wallet.{TokenUnit, Wallet}
use knish_io_client_c.Prelude.{Bool, Option, List, Bytes, ℤ}

-- A molecule is created; each step is one call, which succeeds or fails.
pub data Reachable (cjson : Cjson) (floats : Floats) (casts : Casts floats)
    : Molecule → Type 0 where
  created :
      (now : ℤ) (secret bundle : Option Bytes) (source remainder : Option Wallet)
      (cell_slug version : Option Bytes)
      → Reachable cjson floats casts (create now secret bundle source remainder cell_slug version)
  add_step :
      (m : Molecule) (system : System) (a : Atom)
      → Reachable cjson floats casts m
      → Reachable cjson floats casts (add_created system m (ok a)).0
  meta_step :
      (m : Molecule) (system : System) (meta_type meta_id : Option Bytes)
      (pairs : List (Bytes × Bytes))
      → Reachable cjson floats casts m
      → Reachable cjson floats casts (init_meta system m meta_type meta_id pairs).0
  authorization_step :
      (m : Molecule) (system : System) (encrypt : Bool)
      → Reachable cjson floats casts m
      → Reachable cjson floats casts (init_authorization system m encrypt).0
  token_step :
      (m : Molecule) (system : System) (recipient : Option Wallet) (amount : Option Bytes)
      (pairs : List (Option Bytes × Option Bytes))
      → Reachable cjson floats casts m
      → Reachable cjson floats casts (init_token_creation system m recipient amount pairs).0
  wallet_step :
      (m : Molecule) (system : System) (w : Option Wallet)
      (pairs : List (Option Bytes × Option Bytes))
      → Reachable cjson floats casts m
      → Reachable cjson floats casts (init_wallet_creation system m w pairs).0
  claim_step :
      (m : Molecule) (system : System) (w : Option Wallet)
      → Reachable cjson floats casts m
      → Reachable cjson floats casts (init_shadow_wallet_claim system m w).0
  value_step :
      (m : Molecule) (system : System) (recipient : Option Wallet) (balance : floats.Double)
      (amount : ℤ)
      → Reachable cjson floats casts m
      → Reachable cjson floats casts
          (init_value cjson floats casts system m recipient balance amount).0
  values_step :
      (m : Molecule) (system : System) (recipients : List (Option Wallet × ℤ))
      (balance : floats.Double)
      → Reachable cjson floats casts m
      → Reachable cjson floats casts (init_values cjson floats casts system m recipients balance).0
  buffer_step :
      (m : Molecule) (system : System) (middle : Option Wallet) (balance : floats.Double)
      (amount : ℤ) (deposit : Bool)
      → Reachable cjson floats casts m
      → Reachable cjson floats casts
          (init_buffer_common cjson floats casts system m middle balance amount deposit).0
  burn_step :
      (m : Molecule) (system : System) (balance : floats.Double) (amount : ℤ)
      → Reachable cjson floats casts m
      → Reachable cjson floats casts (init_burn cjson floats casts system m balance amount).0
  replenish_step :
      (m : Molecule) (system : System) (credited : Option Wallet) (amount : ℤ)
      (units : List TokenUnit)
      → Reachable cjson floats casts m
      → Reachable cjson floats casts (init_replenish cjson system m credited amount units).0
  fuse_step :
      (m : Molecule) (system : System) (recipient : Option Wallet) (balance : ℤ)
      (ids : List (Option Bytes)) (new_id : Option Bytes) (random : Option Bytes × Option Bytes)
      → Reachable cjson floats casts m
      → Reachable cjson floats casts
          (init_fuse_token cjson system m recipient balance ids new_id random).0

-- Every molecule that is created and then changed by calls that add atoms, of any kind, in any
-- order and whether they succeed or fail, is well-formed: at most 256 atoms, within the capacity of
-- the array, and each atom's index is its place.
pub Reachable-IsWellFormed :
    (cjson : Cjson) (floats : Floats) (casts : Casts floats) (m : Molecule)
    → Reachable cjson floats casts m
    → IsWellFormed m
Reachable-IsWellFormed cjson floats casts m
      (created now secret bundle source remainder cell_slug version) =
    create-IsWellFormed now secret bundle source remainder cell_slug version
Reachable-IsWellFormed cjson floats casts m (add_step m' system a r) =
    add_created-IsWellFormed system m' (ok a) (Reachable-IsWellFormed cjson floats casts m' r)
Reachable-IsWellFormed cjson floats casts m (meta_step m' system t i pairs r) =
    init_meta-Kept system m' t i pairs (Reachable-IsWellFormed cjson floats casts m' r)
Reachable-IsWellFormed cjson floats casts m (authorization_step m' system encrypt r) =
    init_authorization-Kept system m' encrypt (Reachable-IsWellFormed cjson floats casts m' r)
Reachable-IsWellFormed cjson floats casts m (token_step m' system w amount pairs r) =
    init_token_creation-Kept system m' w amount pairs
      (Reachable-IsWellFormed cjson floats casts m' r)
Reachable-IsWellFormed cjson floats casts m (wallet_step m' system w pairs r) =
    init_wallet_creation-Kept system m' w pairs (Reachable-IsWellFormed cjson floats casts m' r)
Reachable-IsWellFormed cjson floats casts m (claim_step m' system w r) =
    init_shadow_wallet_claim-Kept system m' w (Reachable-IsWellFormed cjson floats casts m' r)
Reachable-IsWellFormed cjson floats casts m (value_step m' system w balance amount r) =
    init_value-Kept cjson floats casts system m' w balance amount
      (Reachable-IsWellFormed cjson floats casts m' r)
Reachable-IsWellFormed cjson floats casts m (values_step m' system recipients balance r) =
    init_values-Kept cjson floats casts system m' recipients balance
      (Reachable-IsWellFormed cjson floats casts m' r)
Reachable-IsWellFormed cjson floats casts m (buffer_step m' system w balance amount deposit r) =
    init_buffer_common-Kept cjson floats casts system m' w balance amount deposit
      (Reachable-IsWellFormed cjson floats casts m' r)
Reachable-IsWellFormed cjson floats casts m (burn_step m' system balance amount r) =
    init_burn-Kept cjson floats casts system m' balance amount
      (Reachable-IsWellFormed cjson floats casts m' r)
Reachable-IsWellFormed cjson floats casts m (replenish_step m' system w amount units r) =
    init_replenish-Kept cjson system m' w amount units
      (Reachable-IsWellFormed cjson floats casts m' r)
Reachable-IsWellFormed cjson floats casts m (fuse_step m' system w balance ids new_id random r) =
    init_fuse_token-Kept cjson system m' w balance ids new_id random
      (Reachable-IsWellFormed cjson floats casts m' r)
