-- ===== src/Base64/Groups.antt =====
-- The encoder's output as groups of four characters, with no loop state.
use knish_io_client_c.Base64.{
  base64_char, sextet1, sextet2, sextet3, p0, p1, p2, emit3, flush3, encode_loop, encode, pad_at,
  output_length, base64_decode_table,
}
use knish_io_client_c.Hex.{IsByte}
use knish_io_client_c.Prelude.{
  ℕ, suc, ◌+◌, ◌-◌, ◌*◌, ◌/◌, ◌%◌, ◌<◌, ◌≤◌, ◌≡◌, refl, ◌∙◌, Bool, true, false, [], ◌∷◌, ◌++◌,
  arith, ◌==◌, if◌then◌else◌, Bytes, length, append-nil, append_assoc, all_below, all_below_sound,
  not, none, some, ◌&&◌, All,
}

unfoldable pub groups : Bytes → Bytes
groups [] = []
groups (a ∷ []) = flush3 (p1 a)
groups (a ∷ b ∷ []) = flush3 (p2 a b)
groups (a ∷ b ∷ c ∷ rest) = emit3 (p2 a b) c ++ groups rest

encode_loop-groups : (bytes out : Bytes) → encode_loop bytes p0 out ≡ out ++ groups bytes
unfolding encode_loop groups
encode_loop-groups [] out = refl
encode_loop-groups (a ∷ []) out = simp append-nil
encode_loop-groups (a ∷ b ∷ []) out = simp append-nil
encode_loop-groups (a ∷ b ∷ c ∷ rest) out = simp (encode_loop-groups rest, append-nil, append_assoc)

pub encode-groups : (bytes : Bytes) → encode bytes ≡ groups bytes
unfolding encode
encode-groups bytes = encode_loop-groups bytes []

pub length-groups : (bytes : Bytes) → length (groups bytes) ≡ 4 * ((length bytes + 2) / 3)
unfolding groups
length-groups [] = omega arith
length-groups (a ∷ []) = omega arith
length-groups (a ∷ b ∷ []) = omega arith
length-groups (a ∷ b ∷ c ∷ rest) = omega (arith, length-groups rest)

is_value : ℕ → Bool
is_value v = elim (base64_decode_table (base64_char v)) [
  | none ↦ false
  | some w ↦ w == v && not (base64_char v == b'=')
]

is_value_table : all_below 64 is_value ≡ true
unfolding all_below is_value base64_decode_table base64_char
is_value_table = refl

-- Decoding a character of the alphabet gives its value, and none of them is `=`.
pub base64_char_table :
    (v : ℕ)
    → v < 64
    → (base64_decode_table (base64_char v) ≡ some v) × ((base64_char v == b'=') ≡ false)
base64_char_table v h =
    let hit : (v : ℕ) → v < 64 → is_value v ≡ true =
      λ v h. all_below_sound 64 is_value v is_value_table h in
    (unfold is_value in ground (arith, hit v h), unfold is_value in ground (arith, hit v h))

pads : ℕ → ℕ
pads n = if n % 3 == 0 then 0 else 3 - n % 3

pads_step : (n : ℕ) → pads (suc n) ≡ pads (suc (suc (suc (suc n))))
unfolding pads
pads_step n = ground arith

pad_at-groups :
    (x : ℕ) (bytes : Bytes)
    → All IsByte (x ∷ bytes)
    → let t = groups (x ∷ bytes) in
      pad_at t (length t - 1) + pad_at t (length t - 2) ≡ pads (length (x ∷ bytes))
unfolding groups pads
pad_at-groups a [] h = ground (arith, base64_char_table (sextet1 a 0))
pad_at-groups a (b ∷ []) h = ground (arith, base64_char_table (sextet2 b 0) (omega arith))
pad_at-groups a (b ∷ c ∷ []) h = ground (
  arith,
  base64_char_table (sextet2 b c) (omega (arith, h.1.1.0)),
  base64_char_table (sextet3 c) (omega arith),
)
pad_at-groups a (b ∷ c ∷ x ∷ rest) h =
    let n = length (groups (x ∷ rest)) in
    let long : 4 ≤ n = omega (arith, length-groups (x ∷ rest)) in
    let last : suc (suc (suc (suc n))) - 1 ≡ suc (suc (suc (suc (n - 1)))) = omega arith in
    let next : suc (suc (suc (suc n))) - 2 ≡ suc (suc (suc (suc (n - 2)))) = omega arith in
    rw (last, next) (pad_at-groups x rest h.1.1.1 ∙ pads_step (length rest))

-- The decoder's buffer has the size of the data.
pub output_length-groups :
    (x : ℕ) (bytes : Bytes)
    → All IsByte (x ∷ bytes)
    → output_length (groups (x ∷ bytes)) ≡ length (x ∷ bytes)
unfolding output_length pads
output_length-groups x bytes h = ground (arith, pad_at-groups x bytes h, length-groups (x ∷ bytes))
