-- ===== src/Wallet/Split.antt =====
-- The split of token units between wallets (src/wallet.c). The wallets are different ones, and the
-- source and the remainder wallet are not NULL; a copy of a unit is equal to it.
pub mod Parts
use knish_io_client_c.Wallet.{TokenUnit, Wallet}
use knish_io_client_c.Prelude.{
  ℕ, Bool, true, false, not, ◌&&◌, ◌||◌, Option, none, some, List, [], ◌∷◌, Bytes, str_eq, length,
  ◌==◌, if◌then◌else◌,
}

-- An entry of the array of identifiers.
abbrev pub is_id : Bytes → Option Bytes → Bool
is_id id none = false
is_id id (some text) = str_eq id text

-- The loop of `tu_id_in_units`.
unfoldable pub id_loop : Bytes → List (Option Bytes) → Bool
id_loop id [] = false
id_loop id (text ∷ ids) = is_id id text || id_loop id ids

-- `tu_id_in_units`
unfoldable pub tu_id_in_units : Option Bytes → List (Option Bytes) → Bool
unfolding id_loop
tu_id_in_units none ids = false
tu_id_in_units (some id) ids = id_loop id ids

-- The loops that part the units by a test: the sent and the kept.
unfoldable pub part : (TokenUnit → Bool) → List TokenUnit → List TokenUnit × List TokenUnit
part is_sent [] = ([], [])
part is_sent (u ∷ units) =
    let (sent, kept) = part is_sent units in
    if is_sent u then (u ∷ sent, kept) else (sent, u ∷ kept)

abbrev pub with_units : Wallet → List TokenUnit → Wallet
with_units w units = record w { token_units = units }

abbrev pub recipient_with : Option Wallet → List TokenUnit → Option Wallet
recipient_with none units = none
recipient_with (some w) units = some (with_units w units)

-- The wallets of a split.
pub record Wallets : Type 0 where
  pub source : Wallet
  pub remainder : Wallet
  pub recipient : Option Wallet

-- `knishio_wallet_split_units`; the flag says whether there is memory for the copies. An array of
-- identifiers that is NULL is empty.
unfoldable pub split_units : Bool → Wallets → List (Option Bytes) → Bool × Wallets
unfolding part tu_id_in_units
split_units enough ws [] = (true, ws)
split_units enough ws (id ∷ ids) =
    let (sent, kept) = part (λ u. tu_id_in_units u.id (id ∷ ids)) ws.source.token_units in
    if not enough && not (length ws.source.token_units == 0) then (false, ws) else (
      true,
      record {
        source = with_units ws.source sent;
        remainder = with_units ws.remainder kept;
        recipient = recipient_with ws.recipient sent;
      },
    )

-- A recipient with its list of identifiers.
pub record Share : Type 0 where
  pub ids : List (Option Bytes)
  pub wallet : Option Wallet

-- Whether a list is not empty.
unfoldable pub any_sent : List Share → Bool
any_sent [] = false
any_sent (s ∷ shares) = not (length s.ids == 0) || any_sent shares

-- Whether the identifier is in one of the lists.
unfoldable pub in_any : Option Bytes → List Share → Bool
unfolding tu_id_in_units
in_any id [] = false
in_any id (s ∷ shares) = tu_id_in_units id s.ids || in_any id shares

abbrev pub share_with : Share → Wallet → List TokenUnit → Share
share_with s w units = record s {
  wallet = some (with_units w (part (λ u. tu_id_in_units u.id s.ids) units).0);
}

-- The first step: each recipient gets the units of its list, until one is NULL.
unfoldable pub give : List Share → List TokenUnit → Bool × List Share
unfolding part tu_id_in_units
give [] units = (true, [])
give (s ∷ shares) units = elim s.wallet [
  | none ↦ (false, s ∷ shares)
  | some w ↦ let (done, rest) = give shares units in (done, share_with s w units ∷ rest)
]

-- `knishio_wallet_split_units_multi`, with memory for the copies: whether it succeeds, the source,
-- the remainder and the recipients.
unfoldable pub split_units_multi :
    Wallet → Wallet → List Share → Bool × Wallet × Wallet × List Share
unfolding any_sent give in_any part
split_units_multi source remainder shares =
    if not (any_sent shares)
    then (true, source, remainder, shares)
    else (let (given, after) = give shares source.token_units in
        let (sent, kept) = part (λ u. in_any u.id shares) source.token_units in
        if given
        then (true, with_units source sent, with_units remainder kept, after)
        else (false, source, remainder, after))
