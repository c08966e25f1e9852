-- ===== src/Tests/Wallets.antt =====
-- The theorems on the split of token units at concrete inputs.
use knish_io_client_c.Ots.Version.{Detected, detect_ots_version, detect_ots_version-Detected}
use knish_io_client_c.Tests.Builders.{plain_wallet, unit_wallet}
use knish_io_client_c.Tests.Signing.{left_text}
use knish_io_client_c.Wallet.Split.{
  Wallets, split_units, recipient_with, Share, any_sent, split_units_multi,
}
use knish_io_client_c.Wallet.Split.Parts.{
  Shared, InList, InSome, Given, split_units-Shared, split_units_multi-Shared,
}
use knish_io_client_c.Prelude.{
  ◌≡◌, ◌⊎◌, refl, true, false, none, some, List, [], ◌∷◌, codes, arith, inr,
}

abbrev sample_wallets : Wallets
sample_wallets = record {
  source = unit_wallet;
  remainder = plain_wallet;
  recipient = some plain_wallet;
}

split_units-Shared_example :
    ((split_units true sample_wallets (some (codes "unit") ∷ none ∷ [])).0 ≡ true)
    × Shared
        (InList (some (codes "unit") ∷ none ∷ []))
        (split_units true sample_wallets (some (codes "unit") ∷ none ∷ [])).1.source.token_units
        (split_units true sample_wallets (some (codes "unit") ∷ none ∷ [])).1.remainder.token_units
        unit_wallet.token_units
    × ((split_units true sample_wallets (some (codes "unit") ∷ none ∷ [])).1.recipient
        ≡ recipient_with
            (some plain_wallet)
            (split_units true sample_wallets
              (some (codes "unit") ∷ none ∷ [])).1.source.token_units)
    × (((split_units false sample_wallets (some (codes "unit") ∷ none ∷ [])).0 ≡ true)
        ⊎ ((split_units false sample_wallets (some (codes "unit") ∷ none ∷ [])).1 ≡ sample_wallets))
split_units-Shared_example = split_units-Shared sample_wallets (some (codes "unit")) (none ∷ [])

abbrev two_shares : List Share
two_shares =
    record { ids = []; wallet = some plain_wallet }
    ∷ record { ids = some (codes "unit") ∷ []; wallet = some unit_wallet }
    ∷ []

two_shares_sent : any_sent two_shares ≡ true
unfolding any_sent
two_shares_sent = refl

split_units_multi-Shared_example :
    ((split_units_multi unit_wallet plain_wallet two_shares).0 ≡ true)
    × Shared
        (InSome two_shares)
        (split_units_multi unit_wallet plain_wallet two_shares).1.token_units
        (split_units_multi unit_wallet plain_wallet two_shares).2.token_units
        unit_wallet.token_units
    × Given two_shares
        (split_units_multi unit_wallet plain_wallet two_shares).3
        unit_wallet.token_units
split_units_multi-Shared_example =
    split_units_multi-Shared unit_wallet plain_wallet two_shares two_shares_sent
      ((λ e. absurd (cc e)), ((λ e. absurd (cc e)), tt))

detect_ots_version-Detected_example :
    Detected left_text (codes "ab") (codes "TEST") (codes "01") (codes "0F") 2 (
      detect_ots_version left_text
        (some (codes "ab"))
        (some (codes "TEST"))
        (some (codes "01"))
        (some (codes "0F"))
        2)
detect_ots_version-Detected_example =
    detect_ots_version-Detected left_text (codes "ab") (codes "01") (codes "0F")
      (some (codes "TEST")) 2 (omega arith) (omega arith) (omega arith) (inr refl)
