-- ===== src/Shake256.antt =====
-- The SHAKE256 sponge of src/crypto/shake256.c. A context pointer is never NULL here.
pub mod Keccak
pub mod Stream
use Prim.Native.Nat.{bit_or, bit_xor}
use knish_io_client_c.Hex.{binary_to_hex}
use knish_io_client_c.Shake256.Keccak.{Words, keccakf}
use knish_io_client_c.Prelude.{
  ℕ, zero, suc, ◌+◌, ◌-◌, ◌*◌, ◌/◌, ◌%◌, ◌^◌, ◌≡◌, refl, Bool, true, false, not, ◌&&◌, ◌||◌, Option,
  none, some, List, [], ◌∷◌, ◌++◌, ltb, leb, ◌==◌, if◌then◌else◌, ◌>>=◌, Bytes, length, get_or, set,
  replicate,
}

-- `buffer` holds the first `buffer_len` bytes of the array: the others are written before they
-- are read.
pub record Context : Type 0 where
  pub state : Words
  pub buffer : Bytes
  pub squeeze_offset : ℕ
  pub initialized : Bool
  pub finalized : Bool

-- 1088 bits.
abbrev pub rate : ℕ
rate = 136

-- `knishio_shake256_init`
abbrev pub init : Context
init = record {
  state = replicate 25 0;
  buffer = [];
  squeeze_offset = 0;
  initialized = true;
  finalized = false;
}

-- `state[k / 8] ^= buffer[k] << (8 * (k % 8))`, for each byte of a block from index `k`.
unfoldable pub absorb_block : Words → ℕ → Bytes → Words
absorb_block st k [] = st
absorb_block st k (b ∷ block) =
    absorb_block (set st (k / 8) (bit_xor (get_or st (k / 8) 0) (b * 2 ^ (8 * (k % 8)) % 2 ^ 64)))
      (k + 1) block

-- One byte of `sha3_update`.
unfoldable pub absorb_byte : Words × Bytes → ℕ → Words × Bytes
absorb_byte (st, buffer) b =
    let full = buffer ++ b ∷ [] in
    if leb rate (length full) then (keccakf (absorb_block st 0 full), []) else (st, full)

unfoldable pub absorb : Words × Bytes → Bytes → Words × Bytes
absorb s [] = s
absorb s (b ∷ bytes) = absorb (absorb_byte s b) bytes

-- `knishio_shake256_update`
unfoldable pub update : Context → Bytes → Option Context
update c bytes =
    if not c.initialized || c.finalized
    then none
    else (let s = absorb (c.state, c.buffer) bytes in some (record c { state = s.0; buffer = s.1 }))

-- `buffer[rate - 1] |= 0x80`
abbrev pub set_final_bit : Bytes → Bytes
set_final_bit buffer = set buffer (rate - 1) (bit_or (get_or buffer (rate - 1) 0) 0x80)

-- The block that `sha3_final` absorbs.
unfoldable pub padded : Bytes → Bytes
padded buffer =
    let marked = buffer ++ 0x1f ∷ [] in
    if length marked == rate
    then set_final_bit marked
    else set_final_bit (marked ++ replicate (rate - length marked) 0)

-- `knishio_shake256_final`
unfoldable pub final : Context → Option Context
final c =
    if not c.initialized || c.finalized
    then none
    else some (record c {
      state = keccakf (absorb_block c.state 0 (padded c.buffer));
      buffer = padded c.buffer;
      squeeze_offset = 0;
      finalized = true;
    })

-- The loop of `shake_out`: the bytes, and the state and offset behind them.
unfoldable pub shake_out : ℕ → Words → ℕ → Bytes × Words × ℕ
shake_out zero st j = ([], st, j)
shake_out (suc n) st j =
    let wrap = leb rate j in
    let st' = if wrap then keccakf st else st in
    let j' = if wrap then 0 else j in
    let rest = shake_out n st' (j' + 1) in
    (get_or st' (j' / 8) 0 / 2 ^ (8 * (j' % 8)) % 256 ∷ rest.0, rest.1, rest.2)

-- `knishio_shake256_squeeze`
unfoldable pub squeeze : Context → ℕ → Option (Bytes × Context)
squeeze c n =
    if not c.initialized || not c.finalized
    then none
    else (let out = shake_out n c.state c.squeeze_offset in
        some (out.0, record c { state = out.1; squeeze_offset = out.2 }))

-- `knishio_shake256_squeeze_hex`; the width is in bits.
unfoldable pub squeeze_hex : Context → ℕ → Option Bytes
squeeze_hex c output_bits =
    if output_bits == 0
    then none
    else squeeze c ((output_bits + 7) / 8) >>= λ out. some (binary_to_hex out.0)

-- `knishio_shake256_hash_raw`; the width is in bytes.
unfoldable pub shake256_hash_raw : Bytes → ℕ → Option Bytes
shake256_hash_raw input output_len =
    if output_len == 0
    then none
    else do absorbed ← update init input; c ← final absorbed; out ← squeeze c output_len; some out.0

-- `knishio_shake256_hash`, by `knishio_shake256_hash_binary`
unfoldable pub shake256_hash : Bytes → ℕ → Option Bytes
shake256_hash input output_bits = if output_bits == 0 then none else do
  absorbed ← update init input
  c ← final absorbed
  out ← squeeze c ((output_bits + 7) / 8)
  some (binary_to_hex out.0)
