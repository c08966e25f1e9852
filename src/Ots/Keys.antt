-- ===== src/Ots/Keys.antt =====
-- The private keys that are derived: when there is one, and its shape.
use knish_io_client_c.Hex.{IsLowerHex}
use knish_io_client_c.Hex.Laws.{hex_digit_lower}
use knish_io_client_c.Ots.{is_strict_hex, all_hex, stage0, stage1, generate_wallet_key}
use knish_io_client_c.Shake256.Stream.{shake256_hash_text}
use knish_io_client_c.Prelude.{
  ℕ, ◌+◌, ◌*◌, ◌/◌, ◌<◌, ◌≡◌, ◌≢◌, refl, sym, ◌∙◌, ◌↔◌, ◌==◌, true, false, ◌&&◌, ◌||◌, not, Option,
  none, some, [], ◌∷◌, if◌then◌else◌, ◌>>=◌, Bytes, length, All, arith, ◌⊎◌, inl, inr, Bool-cases,
}

all_hex-lower : (s : Bytes) → All IsLowerHex s → all_hex s ≡ true
all_hex-lower [] h = refl
all_hex-lower (c ∷ s) h =
    let (v, e, _, _) = hex_digit_lower c h.0 in rw (e, all_hex) (all_hex-lower s h.1)

strict_lower : (s : Bytes) → 0 < length s → All IsLowerHex s → is_strict_hex s ≡ true
unfolding is_strict_hex
strict_lower [] l h = absurd (omega arith)
strict_lower (c ∷ s) l h = all_hex-lower (c ∷ s) h

stage0_strict :
    (text : Bytes) (bits : ℕ)
    → 0 < bits
    → (hex : Bytes) × (stage0 text bits ≡ some hex) × (is_strict_hex hex ≡ true)
unfolding stage0
stage0_strict text bits h = elim (Bool-cases (is_strict_hex text)) [
  | inl e ↦ (text, rw e, e)
  | inr e ↦
      let (hex, f, l, lower) = shake256_hash_text text bits h in
      (hex, rw e f, strict_lower hex (omega arith) lower)
]

-- What the derivation relies on: hexadecimal texts can be added.
abbrev pub AddsHex : (Bytes → Bytes → Option Bytes) → Type 0
AddsHex key_from_hex =
    (a b : Bytes)
    → is_strict_hex a ≡ true
    → is_strict_hex b ≡ true
    → (k : Bytes) × (key_from_hex a b ≡ some k)

abbrev pub IsOtsVersion : ℕ → Type 0
IsOtsVersion v = (v ≡ 1) ⊎ (v ≡ 2)

-- The number of characters of a private key.
abbrev pub key_length : ℕ → ℕ
key_length v = if v == 2 then 8192 else 2048

key_bits :
    (v : ℕ)
    → IsOtsVersion v
    → (0 < (if v == 2 then 32768 else 8192))
      × (2 * (((if v == 2 then 32768 else 8192) + 7) / 8) ≡ key_length v)
key_bits v (inl h) = rw h (omega arith, refl)
key_bits v (inr h) = rw h (omega arith, refl)

version_accepted : (v : ℕ) → IsOtsVersion v → (not (v == 1) && not (v == 2)) ≡ false
version_accepted v (inl h) = rw h
version_accepted v (inr h) = rw h

-- Each version 1 or 2, with a secret and a position that are not empty, gives a private key:
-- 2048 or 8192 lower-case hexadecimal characters. The addition of hexadecimal texts succeeds.
pub generate_wallet_key_total :
    (key_from_hex : Bytes → Bytes → Option Bytes) (secret : Bytes) (token : Option Bytes)
    (position : Bytes) (v : ℕ)
    → AddsHex key_from_hex
    → IsOtsVersion v
    → 0 < length secret
    → 0 < length position
    → (key : Bytes) × (generate_wallet_key key_from_hex secret token position v ≡ some key)
      × (length key ≡ key_length v)
      × All IsLowerHex key
unfolding generate_wallet_key
generate_wallet_key_total key_from_hex secret token position v adds hv hs hp =
    let (s, es, ss) = stage0_strict secret 1024 (omega arith) in
    let (p, ep, sp) = stage0_strict position 256 (omega arith) in
    let (k, ek) = adds s p ss sp in
    let text = stage1 v k (elim token [ none ↦ [] | some t ↦ t ]) in
    let (i, ei, _, _) = shake256_hash_text text 8192 (omega arith) in
    let bits = key_bits v hv in
    let (key, e, l, lower) = shake256_hash_text i (if v == 2 then 32768 else 8192) bits.0 in
    let empty_none : (length secret == 0 || length position == 0) ≡ false = ground arith in
    (
      key,
      rw (version_accepted v hv, empty_none)
          (rw (es, ◌>>=◌) (rw (ep, ◌>>=◌) (rw (ek, ◌>>=◌) (rw (ei, ◌>>=◌) e)))),
      l ∙ bits.1,
      lower,
    )

refused :
    (key_from_hex : Bytes → Bytes → Option Bytes) (secret : Bytes) (token : Option Bytes)
    (position : Bytes) (v : ℕ)
    → generate_wallet_key key_from_hex secret token position v ≢ none
    → IsOtsVersion v × (0 < length secret) × (0 < length position)
unfolding generate_wallet_key
refused key_from_hex secret token position v h =
    let no_version = not (v == 1) && not (v == 2) in
    let no_text = length secret == 0 || length position == 0 in
    elim (Bool-cases no_version) [
      | inl t ↦ absurd (h (rw t refl))
      | inr f ↦ elim (Bool-cases no_text) [
        | inl t ↦ absurd (h (rw (f, t) refl))
        | inr g ↦ ground arith
      ]
    ]

-- Where hexadecimal texts can be added, there is a key exactly for the versions 1 and 2 and a secret
-- and a position that are not empty.
pub generate_wallet_key_iff :
    (key_from_hex : Bytes → Bytes → Option Bytes) (secret : Bytes) (token : Option Bytes)
    (position : Bytes) (v : ℕ)
    → AddsHex key_from_hex
    → (generate_wallet_key key_from_hex secret token position v ≢ none)
      ↔ (IsOtsVersion v × (0 < length secret) × (0 < length position))
generate_wallet_key_iff key_from_hex secret token position v adds = (
  refused key_from_hex secret token position v,
  (λ (version, s, p) e.
      let (key, found, size, lower) =
        generate_wallet_key_total key_from_hex secret token position v adds version s p in
      let bad : some key ≡ none = sym found ∙ e in cc),
)
