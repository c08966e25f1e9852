-- ===== src/MolecularHash.antt =====
-- From a molecular hash to the step counts of a one-time signature (src/molecule.c): the test on
-- the declared hash, `enumerate` and `normalize`. Allocation succeeds.
pub mod Enumerate
pub mod Normalize
pub mod Steps
use knish_io_client_c.Errors.{ErrorCode, invalid_args, Result, ok, err, ◌>>=◌}
use knish_io_client_c.Prelude.{
  ℕ, zero, suc, ◌+◌, ◌-◌, ◌≤◌, ◌<◌, ◌≡◌, refl, Bool, true, false, not, ◌&&◌, ◌||◌, Option, none,
  some, List, [], ◌∷◌, ◌++◌, ltb, leb, ◌==◌, if◌then◌else◌, Bytes, length, ℤ, pos, negsuc, pos_part,
  neg_part, sub_ℕ, ◌+ℤ◌, ltb_ℤ, is_zero_ℤ, sum_int,
}

-- `KNISHIO_MOLECULAR_HASH_LENGTH`
abbrev pub molecular_hash_length : ℕ
molecular_hash_length = 64

abbrev pub is_base17_char : ℕ → Bool
is_base17_char c = (leb b'0' c && leb c b'9') || (leb b'a' c && leb c b'g')

-- The loop over the characters; `n` is `length`.
unfoldable pub signable_loop : Bytes → ℕ → Bool
signable_loop [] n = n == molecular_hash_length
signable_loop (c ∷ rest) n =
    if n == molecular_hash_length || not (is_base17_char c)
    then false
    else signable_loop rest (n + 1)

-- `knishio_molecule_hash_is_signable`; `none` is NULL.
unfoldable pub hash_is_signable : Option Bytes → Bool
unfolding signable_loop
hash_is_signable none = false
hash_is_signable (some h) = signable_loop h 0

-- The value of one character: 0 to 9 are -8 to 1, a to f are 2 to 7, g is 8.
unfoldable pub enumerate_char : ℕ → Option ℤ
enumerate_char c =
    if leb b'0' c && leb c b'9'
    then some (sub_ℕ (c - b'0') 8)
    else if leb b'a' c && leb c b'f'
    then some (pos (c - b'a' + 2))
    else if c == b'g'
    then some (pos 8)
    else none

-- The loop over the characters.
unfoldable pub enumerate_loop : Bytes → Result (List ℤ)
enumerate_loop [] = ok []
enumerate_loop (c ∷ rest) = elim (enumerate_char c) [
  | none ↦ err invalid_args
  | some v ↦ enumerate_loop rest >>= λ vs. ok (v ∷ vs)
]

-- `knishio_molecule_enumerate_hash`
unfoldable pub enumerate_hash : Option Bytes → Result (List ℤ)
enumerate_hash none = err invalid_args
enumerate_hash (some h) =
    if not (length h == molecular_hash_length) then err invalid_args else enumerate_loop h

-- `condition`: `negative` is `total_condition`.
unfoldable pub may_step : Bool → ℤ → Bool
may_step true x = ltb_ℤ x (pos 8)
may_step false x = ltb_ℤ (negsuc 7) x

-- The `++` or `--` of an element and of `total`.
unfoldable pub step : Bool → ℤ → ℤ
step true x = x +ℤ pos 1
step false x = x +ℤ negsuc 0

-- One round of the inner loop, which has ended once `total` is 0.
unfoldable pub adjust : Bool → ℤ → ℤ → ℤ × ℤ
adjust negative x total =
    if not (is_zero_ℤ total) && may_step negative x
    then (step negative x, step negative total)
    else (x, total)

-- The inner loop: the new elements and the new `total`.
unfoldable pub pass : Bool → List ℤ → ℤ → List ℤ × ℤ
pass negative [] total = ([], total)
pass negative (x ∷ xs) total =
    let one = adjust negative x total in
    let rest = pass negative xs one.1 in (one.0 ∷ rest.0, rest.1)

-- `while (total != 0)`, with fuel for its rounds.
unfoldable pub normalize_loop : ℕ → Bool → List ℤ → ℤ → Option (List ℤ)
normalize_loop zero negative xs total = none
normalize_loop (suc fuel) negative xs total =
    let next = pass negative xs total in
    let rest = normalize_loop fuel negative next.0 next.1 in
    if is_zero_ℤ total then some xs else rest

-- Each round brings `total` nearer to 0 by at least 1.
abbrev pub normalize_fuel : ℤ → ℕ
normalize_fuel total = suc (pos_part total + neg_part total)

-- `knishio_molecule_normalize_hash`; `none` is a loop that goes on when the fuel is used up. Only the
-- first sum can overflow: the loop moves `total` and the elements towards 0, 8 or -8.
unfoldable pub normalize_hash : List ℤ → Option (Result (List ℤ))
unfolding sum_int
normalize_hash [] = some (err invalid_args)
normalize_hash (x ∷ xs) =
    let total = sum_int (x ∷ xs) (pos 0) in
    elim (normalize_loop (normalize_fuel total) (ltb_ℤ total (pos 0)) (x ∷ xs) total) [
      | none ↦ none
      | some ys ↦ some (ok ys)
    ]
