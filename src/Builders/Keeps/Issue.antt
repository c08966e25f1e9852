-- ===== src/Builders/Keeps/Issue.antt =====
-- That replenishing and fusing keep the array of atoms in order (src/molecule.c).
use knish_io_client_c.Builders.Keeps.{Kept, with_wallets, continuid_added}
use knish_io_client_c.Builders.{System}
use knish_io_client_c.Builders.Adding.{add_all-IsWellFormed}
use knish_io_client_c.Builders.Issue.{
  init_replenish, add_replenish, fuse, init_fuse_token, fusion_error, find_all, add_fusion,
  fusion_atoms, restates, replenish_atom,
}
use knish_io_client_c.Builders.Units.{Cjson}
use knish_io_client_c.Molecule.{Molecule}
use knish_io_client_c.Molecule.Array.{IsWellFormed}
use knish_io_client_c.Wallet.{TokenUnit, Wallet}
use knish_io_client_c.Prelude.{
  ℕ, not, ◌&&◌, Bool-cases, Option, none, some, Option-cases, List, Bytes, ℤ, pos, length, ltb_ℤ,
  ◌==◌, inl, inr,
}

module _ (cjson : Cjson) where
  add_replenish-Kept :
      (system : System) (m : Molecule) (source credited : Wallet) (amount : ℤ)
      (units : List TokenUnit)
      → IsWellFormed m
      → Kept (add_replenish cjson system m source credited amount units)
  unfolding add_replenish
  add_replenish-Kept system m source credited amount units w =
      let added =
        continuid_added system m (replenish_atom cjson system.now source credited amount units) w in
      elim (Bool-cases (not (length units == 0) && not (restates (length units) amount))) [
        | inl t ↦ rw t w
        | inr f ↦ elim (Bool-cases (length units == 0 && not (ltb_ℤ (pos 0) amount))) [
          | inl t ↦ rw (f, t) w
          | inr g ↦ rw (f, g) added
        ]
      ]

  pub init_replenish-Kept :
      (system : System) (m : Molecule) (credited : Option Wallet) (amount : ℤ)
      (units : List TokenUnit)
      → IsWellFormed m
      → Kept (init_replenish cjson system m credited amount units)
  unfolding init_replenish
  init_replenish-Kept system m none amount units w = w
  init_replenish-Kept system m (some credited) amount units w = elim (Option-cases credited.token) [
    | inl e ↦ rw (init_replenish, e) w
    | inr (token, e) ↦
        rw (init_replenish, e)
          (with_wallets m.source_wallet m.remainder_wallet m _ _ w
            (λ x y. add_replenish-Kept system m x credited amount units w))
  ]

  add_fusion-Kept :
      (system : System) (m : Molecule) (source remainder recipient : Wallet) (balance : ℤ)
      (places : List ℕ) (new_id : Bytes) (batches : Option (Option Bytes × Option Bytes))
      → IsWellFormed m
      → Kept (add_fusion cjson system m source remainder recipient balance places new_id batches)
  unfolding add_fusion
  add_fusion-Kept system m source remainder recipient balance places new_id none w = w
  add_fusion-Kept system m source remainder recipient balance places new_id (some (burn, fusion))
        w =
      add_all-IsWellFormed system m
        (fusion_atoms cjson system.now source remainder recipient balance places new_id burn fusion)
        w

  fuse-Kept :
      (system : System) (m : Molecule) (source remainder recipient : Wallet) (balance : ℤ)
      (ids : List (Option Bytes)) (new_id : Option Bytes) (random : Option Bytes × Option Bytes)
      → IsWellFormed m
      → Kept (fuse cjson system m source remainder recipient balance ids new_id random)
  unfolding fuse
  fuse-Kept system m source remainder recipient balance ids new_id random w =
      elim (Option-cases (fusion_error (some source) ids new_id)) [
        | inr (text, e) ↦ rw (fuse, e) w
        | inl e ↦ elim (Bool-cases (ltb_ℤ balance (pos (length ids)))) [
          | inl t ↦ rw (fuse, e, t) w
          | inr t ↦ elim (Option-cases (find_all source ids)) [
            | inl f ↦ rw (fuse, e, t, f) w
            | inr (places, f) ↦
                rw (fuse, e, t, f)
                  (add_fusion-Kept system m source remainder recipient balance places _ _ w)
          ]
        ]
      ]

  pub init_fuse_token-Kept :
      (system : System) (m : Molecule) (recipient : Option Wallet) (balance : ℤ)
      (ids : List (Option Bytes)) (new_id : Option Bytes) (random : Option Bytes × Option Bytes)
      → IsWellFormed m
      → Kept (init_fuse_token cjson system m recipient balance ids new_id random)
  unfolding init_fuse_token
  init_fuse_token-Kept system m none balance ids new_id random w = w
  init_fuse_token-Kept system m (some recipient) balance ids new_id random w =
      elim (Option-cases recipient.bundle_hash) [
        | inl e ↦ rw (init_fuse_token, e) w
        | inr (bundle, e) ↦
            rw (init_fuse_token, e)
              (with_wallets m.source_wallet m.remainder_wallet m _ _ w
                (λ x y. fuse-Kept system m x y recipient balance ids new_id random w))
      ]
