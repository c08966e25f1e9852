-- ===== src/Shake256/Stream.antt =====
-- The sponge as a function of its whole input, whatever the pieces (src/crypto/shake256.c).
use knish_io_client_c.Hex.{binary_to_hex, IsByte, IsLowerHex}
use knish_io_client_c.Hex.Laws.{binary_to_hex-IsLowerHex, length-binary_to_hex}
use knish_io_client_c.Shake256.Keccak.{Words, keccakf}
use knish_io_client_c.Shake256.{
  Context, rate, init, absorb_byte, absorb, update, set_final_bit, absorb_block, padded, final,
  shake_out, squeeze, squeeze_hex, shake256_hash, shake256_hash_raw,
}
use knish_io_client_c.Prelude.{
  ℕ, zero, suc, ◌+◌, ◌-◌, ◌*◌, ◌/◌, ◌<◌, ◌≡◌, refl, ap, ◌∙◌, sym, true, false, Option, some, List,
  [], ◌∷◌, ◌++◌, ◌==◌, ◌>>=◌, Bytes, length, arith, All, length-append, length-set,
  length-replicate, replicate, Bool-cases, Option-cases, ==_iff, inl, inr, concat,
}

absorb-append : (s : Words × Bytes) (a b : Bytes) → absorb s (a ++ b) ≡ absorb (absorb s a) b
unfolding absorb
absorb-append s [] b = refl
absorb-append s (x ∷ a) b = absorb-append (absorb_byte s x) a b

-- Absorbing two pieces one after the other is absorbing the two joined, in every context, also
-- where both are refused.
update-append : (c : Context) (a b : Bytes) → (update c a >>= λ d. update d b) ≡ update c (a ++ b)
unfolding update
update-append c a b = ground (arith, absorb-append (c.state, c.buffer) a b)

absorb_byte_room :
    (s : Words × Bytes) (b : ℕ) → length s.1 < rate → length (absorb_byte s b).1 < rate
unfolding absorb_byte
absorb_byte_room (st, buffer) b h = ground (arith, length-append buffer (b ∷ []))

absorb_room :
    (s : Words × Bytes) (bytes : Bytes) → length s.1 < rate → length (absorb s bytes).1 < rate
unfolding absorb
absorb_room s [] h = h
absorb_room s (b ∷ bytes) h = absorb_room (absorb_byte s b) bytes (absorb_byte_room s b h)

-- The buffer of 136 bytes never overflows: an accepted update leaves room for the padding byte.
pub update_room :
    (c d : Context) (bytes : Bytes)
    → length c.buffer < rate
    → update c bytes ≡ some d
    → length d.buffer < rate
unfolding update
update_room c d bytes h e = ground (arith, absorb_room (c.state, c.buffer) bytes h)

length-set_final_bit : (buffer : Bytes) → length (set_final_bit buffer) ≡ length buffer
length-set_final_bit buffer = length-set buffer (rate - 1) _

-- The padded block fills the rate, whatever was left in the buffer.
length-padded : (buffer : Bytes) → length buffer < rate → length (padded buffer) ≡ rate
unfolding padded
length-padded buffer h =
    let marked = length-append buffer (0x1f ∷ []) in
    let n = length (buffer ++ 0x1f ∷ []) in
    let pad : length (replicate {A = ℕ} (rate - n) 0) ≡ rate - n = length-replicate (rate - n) 0 in
    elim (Bool-cases (n == rate)) [
      | inl e ↦ rw e (length-set_final_bit (buffer ++ 0x1f ∷ []) ∙ (==_iff n rate).0 e)
      | inr e ↦ rw e (
          length-set_final_bit (buffer ++ 0x1f ∷ [] ++ replicate (rate - n) 0)
          ∙ length-append (buffer ++ 0x1f ∷ []) (replicate (rate - n) 0)
          ∙ omega (arith, pad))
    ]

length-shake_out : (n : ℕ) (st : Words) (j : ℕ) → length (shake_out n st j).0 ≡ n
unfolding shake_out
length-shake_out zero st j = refl
length-shake_out (suc n) st j = ap suc (length-shake_out n _ _)

shake_out-IsByte : (n : ℕ) (st : Words) (j : ℕ) → All IsByte (shake_out n st j).0
unfolding shake_out
shake_out-IsByte zero st j = tt
shake_out-IsByte (suc n) st j = (omega arith, shake_out-IsByte n _ _)

-- Squeezing twice gives the bytes of one longer squeeze.
shake_out-append :
    (m n : ℕ) (st : Words) (j : ℕ)
    → let first = shake_out m st j in
      shake_out (m + n) st j ≡ (
        first.0 ++ (shake_out n first.1 first.2).0,
        (shake_out n first.1 first.2).1,
        (shake_out n first.1 first.2).2,
      )
unfolding shake_out
shake_out-append zero n st j = let e : zero + n ≡ n = omega arith in rw e
shake_out-append (suc m) n st j =
    let e : suc m + n ≡ suc (m + n) = omega arith in rw e (rw (shake_out-append m n))

-- The bytes that the sponge gives for a whole input: its definition with no context.
unfoldable pub digest : Bytes → ℕ → Bytes
unfolding absorb
digest input n =
    let s = absorb (init.state, []) input in
    (shake_out n (keccakf (absorb_block s.0 0 (padded s.1))) 0).0

pub length-digest : (input : Bytes) (n : ℕ) → length (digest input n) ≡ n
unfolding digest
length-digest input n = length-shake_out n _ _

pub digest-IsByte : (input : Bytes) (n : ℕ) → All IsByte (digest input n)
unfolding digest
digest-IsByte input n = shake_out-IsByte n _ _

pub shake256_hash-digest :
    (input : Bytes) (bits : ℕ)
    → 0 < bits
    → shake256_hash input bits ≡ some (binary_to_hex (digest input ((bits + 7) / 8)))
unfolding shake256_hash update final squeeze digest
shake256_hash-digest input bits h = let e : (bits == 0) ≡ false = ground arith in rw e

pub shake256_hash_raw-digest :
    (input : Bytes) (n : ℕ) → 0 < n → shake256_hash_raw input n ≡ some (digest input n)
unfolding shake256_hash_raw update final squeeze digest
shake256_hash_raw-digest input n h = let e : (n == 0) ≡ false = ground arith in rw e

-- A sequence of calls of `knishio_shake256_update`.
unfoldable pub update_all : Context → List Bytes → Option Context
update_all c [] = some c
update_all c (piece ∷ pieces) = do d ← update c piece; update_all d pieces

update-nil : (c : Context) → c.initialized ≡ true → c.finalized ≡ false → update c [] ≡ some c
unfolding update absorb
update-nil c i f = rw (i, f)

update-keeps :
    (c d : Context) (piece : Bytes)
    → update c piece ≡ some d
    → (d.initialized ≡ true) × (d.finalized ≡ false)
unfolding update
update-keeps c d piece e = ground arith

update_all-concat :
    (pieces : List Bytes) (c : Context)
    → c.initialized ≡ true
    → c.finalized ≡ false
    → update_all c pieces ≡ update c (concat pieces)
unfolding update_all
update_all-concat [] c i f = sym (update-nil c i f)
update_all-concat (piece ∷ pieces) c i f = elim (Option-cases (update c piece)) [
  | inl e ↦ rw (← update-append c piece (concat pieces)) (rw (e, ◌>>=◌))
  | inr (d, e) ↦
      let k = update-keeps c d piece e in
      rw (← update-append c piece (concat pieces))
        (rw (e, ◌>>=◌) (update_all-concat pieces d k.0 k.1))
]

squeeze-update :
    (input : Bytes) (bits : ℕ)
    → (update init input >>= final >>= λ c. squeeze_hex c bits) ≡ shake256_hash input bits
unfolding update final squeeze squeeze_hex shake256_hash
squeeze-update input bits = elim (Bool-cases (bits == 0)) [ inl e ↦ rw e | inr e ↦ rw e ]

-- Hashing in pieces, as an incremental hash does it, is hashing the pieces joined: a context
-- that is initialised, updated with each piece, finalised and squeezed gives what
-- `knishio_shake256_hash` gives for the joined text, at every width.
pub squeeze-update_all :
    (pieces : List Bytes) (bits : ℕ)
    → (update_all init pieces >>= final >>= λ c. squeeze_hex c bits)
      ≡ shake256_hash (concat pieces) bits
squeeze-update_all pieces bits =
    rw (update_all-concat pieces init refl refl) (squeeze-update (concat pieces) bits)

-- Every digest in hexadecimal text: its length, and lower-case digits only.
pub shake256_hash_text :
    (input : Bytes) (bits : ℕ)
    → 0 < bits
    → (hex : Bytes) × (shake256_hash input bits ≡ some hex)
      × (length hex ≡ 2 * ((bits + 7) / 8))
      × All IsLowerHex hex
shake256_hash_text input bits h =
    let n = (bits + 7) / 8 in
    (
      binary_to_hex (digest input n),
      shake256_hash-digest input bits h,
      length-binary_to_hex (digest input n) ∙ ap (λ k. 2 * k) (length-digest input n),
      binary_to_hex-IsLowerHex (digest input n) (digest-IsByte input n),
    )
