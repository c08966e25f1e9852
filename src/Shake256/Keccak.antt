-- ===== src/Shake256/Keccak.antt =====
-- The permutation Keccak-f[1600] of src/crypto/shake256.c, on 25 words of 64 bits.
use Prim.Native.Nat.{bit_and, bit_or, bit_xor}
use knish_io_client_c.Prelude.{
  ℕ, zero, suc, ◌+◌, ◌-◌, ◌*◌, ◌/◌, ◌%◌, ◌^◌, List, [], ◌∷◌, get_or, set, replicate,
}

abbrev pub Words : Type 0
Words = List ℕ

abbrev pub keccakf_rndc : Words
keccakf_rndc =
    0x0000000000000001 ∷ 0x0000000000008082 ∷ 0x800000000000808a ∷ 0x8000000080008000
    ∷ 0x000000000000808b ∷ 0x0000000080000001 ∷ 0x8000000080008081 ∷ 0x8000000000008009
    ∷ 0x000000000000008a ∷ 0x0000000000000088 ∷ 0x0000000080008009 ∷ 0x000000008000000a
    ∷ 0x000000008000808b ∷ 0x800000000000008b ∷ 0x8000000000008089 ∷ 0x8000000000008003
    ∷ 0x8000000000008002 ∷ 0x8000000000000080 ∷ 0x000000000000800a ∷ 0x800000008000000a
    ∷ 0x8000000080008081 ∷ 0x8000000000008080 ∷ 0x0000000080000001 ∷ 0x8000000080008008 ∷ []

abbrev pub keccakf_rotc : Words
keccakf_rotc =
    1 ∷ 3 ∷ 6 ∷ 10 ∷ 15 ∷ 21 ∷ 28 ∷ 36 ∷ 45 ∷ 55 ∷ 2 ∷ 14 ∷ 27 ∷ 41 ∷ 56 ∷ 8 ∷ 25 ∷ 43 ∷ 62 ∷ 18
    ∷ 39 ∷ 61 ∷ 20 ∷ 44 ∷ []

abbrev pub keccakf_piln : Words
keccakf_piln =
    10 ∷ 7 ∷ 11 ∷ 17 ∷ 18 ∷ 3 ∷ 5 ∷ 16 ∷ 8 ∷ 21 ∷ 24 ∷ 4 ∷ 15 ∷ 23 ∷ 19 ∷ 13 ∷ 12 ∷ 2 ∷ 20 ∷ 14 ∷ 22
    ∷ 9 ∷ 6 ∷ 1 ∷ []

-- `for (i = from; i < from + n; i++) s = body(i, s)`
for_range {ℓ} : {State : Type ℓ} (rounds from : ℕ) (round : ℕ → State → State) → State → State
for_range zero from round state = state
for_range (suc left) from round state = for_range left (from + 1) round (round from state)

abbrev at : Words → ℕ → ℕ
at st i = get_or st i 0

-- `~x` of a word.
abbrev complement : ℕ → ℕ
complement x = 2 ^ 64 - 1 - x

-- `ROTLEFT(a, b)`
abbrev rotate_left : ℕ → ℕ → ℕ
rotate_left a b = bit_or (a * 2 ^ b % 2 ^ 64) (a / 2 ^ (64 - b))

column : Words → ℕ → ℕ
column st i =
    bit_xor
      (bit_xor (bit_xor (bit_xor (at st i) (at st (i + 5))) (at st (i + 10))) (at st (i + 15)))
      (at st (i + 20))

theta : Words → Words
unfolding for_range column
theta st =
    let bc = for_range 5 0 (λ i bc. set bc i (column st i)) (replicate 5 0) in
    for_range 5 0
      (λ i st.
        let t = bit_xor (at bc ((i + 4) % 5)) (rotate_left (at bc ((i + 1) % 5)) 1) in
        for_range 5 0 (λ k st. set st (k * 5 + i) (bit_xor (at st (k * 5 + i)) t)) st)
      st

-- The variable `t` and the state.
abbrev RhoPi : Type 0
RhoPi = ℕ × Words

rho_pi : Words → Words
unfolding for_range
rho_pi st =
    let last : RhoPi =
      for_range {State = RhoPi} 24 0
        (λ i s.
          let j = at keccakf_piln i in (at s.1 j, set s.1 j (rotate_left s.0 (at keccakf_rotc i))))
        (at st 1, st) in
    last.1

chi : Words → Words
unfolding for_range
chi st =
    for_range 5 0
      (λ k st.
        let bc = for_range 5 0 (λ i bc. set bc i (at st (k * 5 + i))) (replicate 5 0) in
        for_range 5 0
          (λ i st. set st (k * 5 + i) (
            bit_xor (at st (k * 5 + i))
              (bit_and (complement (at bc ((i + 1) % 5))) (at bc ((i + 2) % 5)))))
          st)
      st

iota : ℕ → Words → Words
iota r st = set st 0 (bit_xor (at st 0) (at keccakf_rndc r))

-- `sha3_keccakf`
unfoldable pub keccakf : Words → Words
unfolding for_range theta rho_pi chi iota
keccakf st = for_range 24 0 (λ r st. iota r (chi (rho_pi (theta st)))) st
