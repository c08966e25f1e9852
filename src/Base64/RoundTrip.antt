-- ===== src/Base64/RoundTrip.antt =====
-- Decoding what was encoded, over bytes and over hexadecimal text.
use knish_io_client_c.Base64.{
  base64_char, sextet0, sextet1, sextet2, sextet3, q0, octet0, octet1, octet2, put, encode,
  decode_loop, decode, hex_to_base64, base64_to_hex, Quad, store4, emit4, flush4,
}
use knish_io_client_c.Base64.Groups.{
  groups, encode-groups, length-groups, base64_char_table, output_length-groups,
}
use knish_io_client_c.Hex.{IsByte, IsLowerHex, hex_pairs, binary_to_hex}
use knish_io_client_c.Hex.Laws.{hex_pairs_total}
use knish_io_client_c.Prelude.{
  ℕ, ◌+◌, ◌*◌, ◌/◌, ◌%◌, ◌<◌, ◌≡◌, refl, ap, ◌∙◌, true, false, some, [], ◌∷◌, ◌++◌, arith, ◌==◌,
  Bytes, length, append-nil, append_assoc, All, ◌>>=◌, length-append,
}

put_fits : (n : ℕ) (out : Bytes) (b : ℕ) → length out < n → put n out b ≡ out ++ b ∷ []
put_fits n out b h = ground arith

put2_fits :
    (n : ℕ) (out : Bytes) (a b : ℕ) → length out + 1 < n → put n (put n out a) b ≡ out ++ a ∷ b ∷ []
put2_fits n out a b h = rw (put_fits n out a (omega arith)) (
    put_fits n (out ++ a ∷ []) b (omega (arith, length-append out (a ∷ [])))
    ∙ append_assoc out (a ∷ []) (b ∷ []))

put3_fits :
    (n : ℕ) (out : Bytes) (a b c : ℕ)
    → length out + 2 < n
    → put n (put n (put n out a) b) c ≡ out ++ a ∷ b ∷ c ∷ []
put3_fits n out a b c h = rw (put2_fits n out a b (omega arith)) (
    put_fits n (out ++ a ∷ b ∷ []) c (omega (arith, length-append out (a ∷ b ∷ [])))
    ∙ append_assoc out (a ∷ b ∷ []) (c ∷ []))

decode_step :
    (v n : ℕ) (rest : Bytes) (q : Quad) (out : Bytes)
    → v < 64
    → decode_loop (base64_char v ∷ rest) n q out ≡ decode_loop rest n (store4 q v) (emit4 n q v out)
unfolding decode_loop
decode_step v n rest q out h =
    let t = base64_char_table v h in rw (t.1, decode_loop) (rw (t.0, decode_loop))

decode_loop_pad :
    (rest : Bytes) (n : ℕ) (q : Quad) (out : Bytes)
    → decode_loop (b'=' ∷ rest) n q out ≡ some (flush4 n q out)
unfolding decode_loop
decode_loop_pad rest n q out = refl

octets :
    (a b c : ℕ)
    → a < 256
    → b < 256
    → c < 256
    → (octet0 (sextet0 a) (sextet1 a b) ≡ a)
      × (octet1 (sextet1 a b) (sextet2 b c) ≡ b)
      × (octet2 (sextet2 b c) (sextet3 c) ≡ c)
octets a b c ha hb hc = (omega arith, omega arith, omega arith)

decode_loop-groups :
    (bytes : Bytes) (n : ℕ) (out : Bytes)
    → All IsByte bytes
    → length out + length bytes ≡ n
    → decode_loop (groups bytes) n q0 out ≡ some (out ++ bytes)
unfolding groups
decode_loop-groups [] n out h e = rw append-nil (unfold decode_loop in refl)
decode_loop-groups (a ∷ []) n out h e =
    decode_step (sextet0 a) n _ q0 out (omega (arith, h.0))
    ∙ decode_step (sextet1 a 0) n _ _ _ (omega (arith, h.0))
    ∙ decode_loop_pad _ n _ _
    ∙ rw ((octets a 0 0 h.0 (omega arith) (omega arith)).0)
        (ap some (put_fits n out a (omega arith)))
decode_loop-groups (a ∷ b ∷ []) n out h e =
    let o = octets a b 0 h.0 h.1.0 (omega arith) in
    decode_step (sextet0 a) n _ q0 out (omega (arith, h.0))
    ∙ decode_step (sextet1 a b) n _ _ _ (omega (arith, h.0, h.1.0))
    ∙ decode_step (sextet2 b 0) n _ _ _ (omega arith)
    ∙ decode_loop_pad _ n _ _
    ∙ rw (o.0, o.1) (ap some (put2_fits n out a b (omega arith)))
decode_loop-groups (a ∷ b ∷ c ∷ rest) n out h e =
    let o = octets a b c h.0 h.1.0 h.1.1.0 in
    decode_step (sextet0 a) n _ q0 out (omega (arith, h.0))
    ∙ decode_step (sextet1 a b) n _ _ _ (omega (arith, h.0, h.1.0))
    ∙ decode_step (sextet2 b c) n _ _ _ (omega (arith, h.1.1.0))
    ∙ decode_step (sextet3 c) n _ _ _ (omega arith)
    ∙ rw (o.0, o.1, o.2)
        (rw (put3_fits n out a b c (omega arith)) (
          decode_loop-groups rest n (out ++ a ∷ b ∷ c ∷ []) h.1.1.1
            (omega (arith, length-append out (a ∷ b ∷ c ∷ [])))
          ∙ ap some (append_assoc out (a ∷ b ∷ c ∷ []) rest)))

-- Decoding undoes encoding, for every non-empty byte string.
pub decode-encode :
    (x : ℕ) (bytes : Bytes)
    → All IsByte (x ∷ bytes)
    → decode (encode (x ∷ bytes)) ≡ some (x ∷ bytes)
unfolding decode
decode-encode x bytes h =
    let fits = length-groups (x ∷ bytes) in
    let some_text : (length (groups (x ∷ bytes)) == 0) ≡ false = ground arith in
    let whole : (length (groups (x ∷ bytes)) % 4 == 0) ≡ true = ground arith in
    rw (encode-groups (x ∷ bytes)) (
      rw (some_text, whole, output_length-groups x bytes h)
        (decode_loop-groups (x ∷ bytes) (length (x ∷ bytes)) [] h (omega arith)))

-- The encoded text has four characters for each started group of three bytes.
pub length-encode : (bytes : Bytes) → length (encode bytes) ≡ 4 * ((length bytes + 2) / 3)
length-encode bytes = rw (encode-groups bytes) (length-groups bytes)

-- The compressed form of a signature: hexadecimal text of even length, in lower case and not
-- empty, is encoded, and the result decodes to the same text.
pub base64_to_hex-hex_to_base64 :
    (hex : Bytes)
    → All IsLowerHex hex
    → length hex % 2 ≡ 0
    → 0 < length hex
    → (text : Bytes) × (hex_to_base64 hex ≡ some text)
      × (base64_to_hex text ≡ some hex)
      × (length text ≡ 4 * ((length hex / 2 + 2) / 3))
unfolding hex_to_base64 base64_to_hex
base64_to_hex-hex_to_base64 hex h even long =
    let d = hex_pairs_total hex h even in go d.bytes d.reads d.prints d.in_range d.half
  where
    go :
        (bytes : Bytes)
        → hex_pairs hex ≡ some bytes
        → binary_to_hex bytes ≡ hex
        → All IsByte bytes
        → length hex ≡ 2 * length bytes
        → (text : Bytes) × (hex_to_base64 hex ≡ some text)
          × (base64_to_hex text ≡ some hex)
          × (length text ≡ 4 * ((length hex / 2 + 2) / 3))
    go [] r q b l = absurd (omega arith)
    go (x ∷ bytes) r q b l =
        let some_hex : (length hex / 2 == 0) ≡ false = ground arith in
        let whole : (length hex % 2 == 0) ≡ true = ground arith in
        (
          encode (x ∷ bytes),
          rw (whole, some_hex) (rw (r, ◌>>=◌)),
          rw (decode-encode x bytes b, ◌>>=◌) (ap some q),
          omega (arith, length-encode (x ∷ bytes)),
        )
