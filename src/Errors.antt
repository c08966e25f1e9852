-- ===== src/Errors.antt =====
-- The error codes of include/knishio/error/context.h, and results that carry one.
use knish_io_client_c.Prelude.{◌≡◌, refl, ◌↔◌, Bool, true, false, arith}

-- `knishio_error_t`
pub data ErrorCode : Type 0 where
  success invalid_args memory null_pointer not_implemented invalid_state auth : ErrorCode
  unauthenticated authorization_rejected wallet_credential network invalid_response : ErrorCode
  timeout http_init http_request crypto signature_malformed signature_mismatch : ErrorCode
  molecular_hash_mismatch molecular_hash_missing decryption_key balance_insufficient : ErrorCode
  negative_amount transfer_balance transfer_malformed transfer_mismatched : ErrorCode
  transfer_remainder transfer_to_self transfer_unbalanced atom_index atoms_missing : ErrorCode
  batch_id stackable_unit_amount stackable_unit_decimals meta_missing policy_invalid : ErrorCode
  wrong_token_type wallet_shadow code policy_engine_not_initialized policy_not_found : ErrorCode
  rule_invalid condition_invalid callback_invalid policy_evaluation_failed access_denied : ErrorCode
  json_parse invalid_json wallet_mismatch : ErrorCode

-- `error == KNISHIO_SUCCESS`
unfoldable pub is_success : ErrorCode → Bool
is_success success = true
is_success _ = false

pub is_success_iff : (e : ErrorCode) → (is_success e ≡ true) ↔ (e ≡ success)
unfolding is_success
is_success_iff e = ground arith

-- `KNISHIO_SUCCESS` with the output of a function, or its error code.
pub data Result {ℓ} (A : Type ℓ) : Type ℓ where
  ok : A → Result A
  err : ErrorCode → Result A

infixl 5 ◌>>=◌
abbrev pub ◌>>=◌ {ℓ κ} :
    {S : Type ℓ} {T : Type κ} (first : Result S) (next : S → Result T) → Result T
err failure >>= next = err failure
ok out >>= next = next out

-- A chain that succeeds succeeded at its first call.
pub >>=-ok {ℓ κ} :
    {S : Type ℓ} {T : Type κ} (first : Result S) (next : S → Result T) {last : T}
    → (first >>= next) ≡ ok last
    → (out : S) × (first ≡ ok out) × (next out ≡ ok last)
>>=-ok (err failure) next e = cc
>>=-ok (ok out) next e = (out, refl, e)
