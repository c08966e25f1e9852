-- ===== src/Wallet.antt =====
-- Wallets and their token units (include/knishio/wallet.h). The fields that nothing in this
-- library reads are left out: the ML-KEM keys, the sequence, the trade rates, the molecules, and
-- the numbers of type `double` (a balance is an argument where it is read).
pub mod Split
use knish_io_client_c.Prelude.{ℕ, Bool, Option, List, Bytes}

-- `knishio_token_unit_t` without `amount`.
pub record TokenUnit : Type 0 where
  pub id : Option Bytes
  pub name : Option Bytes
  pub metas_json : Option Bytes
  pub token_slug : Option Bytes
  pub batch_id : Option Bytes
  pub created_at : Option Bytes
  pub is_shadow : Bool

-- `knishio_wallet_t`
pub record Wallet : Type 0 where
  pub secret : Option Bytes
  pub bundle_hash : Option Bytes
  pub token : Option Bytes
  pub position : Option Bytes
  pub private_key : Option Bytes
  pub address : Option Bytes
  pub pubkey : Option Bytes
  pub ots_version : ℕ
  pub token_units : List TokenUnit
  pub batch_id : Option Bytes
  pub characters : Option Bytes
