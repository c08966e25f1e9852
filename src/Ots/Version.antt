-- ===== src/Ots/Version.antt =====
-- The version of the one-time signatures of a wallet (src/wallet.c): the test of a version, how it is
-- set, and how it is found from an address.
use knish_io_client_c.Ots.{generate_wallet_key, generate_address}
use knish_io_client_c.Ots.Keys.{IsOtsVersion}
use knish_io_client_c.Wallet.{Wallet}
use knish_io_client_c.Prelude.{
  ℕ, ◌+◌, ◌<◌, ◌≡◌, refl, Bool, true, false, not, ◌&&◌, ◌||◌, Bool-cases, Option, none, some,
  Option-cases, ◌>>=◌, [], Bytes, str_eq, str_eq_iff, length, map, leb, ◌==◌, if◌then◌else◌, arith,
  ◌↔◌, inl, inr,
}

-- `knishio_check_ots_version`; a version is not negative.
unfoldable pub check_ots_version : ℕ → Bool
check_ots_version v = v == 1 || v == 2

abbrev keyed : Wallet → Bool
keyed w = elim w.private_key [ none ↦ false | some key ↦ true ]

-- `knishio_wallet_set_ots_version`: whether it succeeds, and the wallet.
unfoldable pub set_ots_version : Wallet → ℕ → Bool × Wallet
unfolding check_ots_version
set_ots_version w v =
    let current = if w.ots_version == 0 then 1 else w.ots_version in
    if not (check_ots_version v)
    then (false, w)
    else if keyed w && not (v == current)
    then (false, w)
    else (true, record w { ots_version = v })

-- `tolower`
abbrev pub tolower : ℕ → ℕ
tolower c = if leb b'A' c && leb c b'Z' then c + 32 else c

module _ (key_from_hex : Bytes → Bytes → Option Bytes) where
  abbrev pub derived : Bytes → Bytes → Bytes → ℕ → Option Bytes
  derived secret token position v =
      generate_wallet_key key_from_hex secret (some token) position v >>= generate_address

  -- The comparison with the address in lower case.
  abbrev same_address : Bytes → Option Bytes → Bool
  same_address address none = false
  same_address address (some text) = str_eq text (map tolower address)

  -- `derives_address`
  unfoldable pub derives_address : Bytes → Bytes → Bytes → Bytes → ℕ → Bool
  derives_address secret token position address v =
      same_address address (derived secret token position v)

  -- The loop over the two versions.
  unfoldable pub try_versions : Bytes → Bytes → Bytes → Bytes → ℕ → ℕ
  unfolding derives_address
  try_versions secret token position address preferred =
      let other = if preferred == 1 then 2 else 1 in
      if derives_address secret token position address preferred
      then preferred
      else if derives_address secret token position address other
      then other
      else 0

  -- `token != NULL ? token : ""`
  abbrev pub token_text : Option Bytes → Bytes
  token_text none = []
  token_text (some token) = token

  -- `knishio_detect_ots_version`
  unfoldable pub detect_ots_version :
      Option Bytes → Option Bytes → Option Bytes → Option Bytes → ℕ → ℕ
  unfolding check_ots_version try_versions
  detect_ots_version none token position address preferred = 0
  detect_ots_version (some secret) token none address preferred = 0
  detect_ots_version (some secret) token (some position) none preferred = 0
  detect_ots_version (some secret) token (some position) (some address) preferred =
      if (length secret == 0 || length position == 0 || length address == 0)
        || not (check_ots_version preferred)
      then 0
      else try_versions secret (token_text token) position address preferred

  -- The key of the version has the address, in lower case.
  abbrev pub Derives : Bytes → Bytes → Bytes → Bytes → ℕ → Type 0
  Derives secret token position address v =
      derived secret token position v ≡ some (map tolower address)

  derives_address-Derives :
      (secret token position address : Bytes) (v : ℕ)
      → (derives_address secret token position address v ≡ true)
        ↔ Derives secret token position address v
  unfolding derives_address
  derives_address-Derives secret token position address v =
      elim (Option-cases (derived secret token position v)) [
        | inl e ↦ rw e ((λ h. absurd (cc h)), (λ h. absurd (cc h)))
        | inr (text, e) ↦ rw e (ground (arith, str_eq_iff text (map tolower address)))
      ]

  -- What is detected: a version whose key has the address, the preferred one if its key has, or none.
  pub data Detected (secret token position address : Bytes) (preferred v : ℕ) : Type 0 where
    found :
        IsOtsVersion v
        → Derives secret token position address v
        → (Derives secret token position address preferred → v ≡ preferred)
        → Detected secret token position address preferred v
    missing :
        v ≡ 0
        → ¬ Derives secret token position address 1
        → ¬ Derives secret token position address 2
        → Detected secret token position address preferred v

  other_version :
      (preferred : ℕ) → IsOtsVersion preferred → IsOtsVersion (if preferred == 1 then 2 else 1)
  other_version preferred (inl e) = rw e (inr refl)
  other_version preferred (inr e) = rw e (inl refl)

  neither :
      (secret token position address : Bytes) (preferred : ℕ)
      → IsOtsVersion preferred
      → ¬ Derives secret token position address preferred
      → ¬ Derives secret token position address (if preferred == 1 then 2 else 1)
      → Detected secret token position address preferred 0
  neither secret token position address preferred (inl e) n m =
      missing refl (λ d. n (rw e d)) (λ d. m (rw e d))
  neither secret token position address preferred (inr e) n m =
      missing refl (λ d. m (rw e d)) (λ d. n (rw e d))

  try_versions-Detected :
      (secret token position address : Bytes) (preferred : ℕ)
      → IsOtsVersion preferred
      → Detected secret token position address preferred
          (try_versions secret token position address preferred)
  unfolding try_versions
  try_versions-Detected secret token position address preferred version =
      let other : ℕ = if preferred == 1 then 2 else 1 in
      let first = derives_address-Derives secret token position address preferred in
      let second = derives_address-Derives secret token position address other in
      elim (Bool-cases (derives_address secret token position address preferred)) [
        | inl t ↦ rw t (found version (first.0 t) (λ d. refl))
        | inr f ↦ elim (Bool-cases (derives_address secret token position address other)) [
          | inl t ↦
              rw (f, t)
                (found (other_version preferred version) (second.0 t)
                  (λ d. absurd (let bad = first.1 d in cc)))
          | inr g ↦
              rw (f, g)
                (neither secret token position address preferred version
                  (λ d. absurd (let bad = first.1 d in cc))
                  (λ d. absurd (let bad = second.1 d in cc)))
        ]
      ]

  -- A version is detected from an address, of a secret, a position and an address that are not empty
  -- and a preferred version that is 1 or 2: it is 1 or 2 and its key has the address, in lower case,
  -- and it is the preferred one if that one's key has; or it is 0, and neither version's key has.
  pub detect_ots_version-Detected :
      (secret position address : Bytes) (token : Option Bytes) (preferred : ℕ)
      → 0 < length secret
      → 0 < length position
      → 0 < length address
      → IsOtsVersion preferred
      → Detected secret
          (token_text token)
          position
          address
          preferred
          (detect_ots_version (some secret) token (some position) (some address) preferred)
  unfolding detect_ots_version check_ots_version
  detect_ots_version-Detected secret position address token preferred s p a version =
      let t : ((length secret == 0 || length position == 0 || length address == 0)
            || not (check_ots_version preferred))
          ≡ false =
        ground arith in
      rw (detect_ots_version, t)
        (try_versions-Detected secret (token_text token) position address preferred version)
