-- ===== src/Decimal.antt =====
-- `snprintf` with `%lld` and `%zu`.
use knish_io_client_c.Prelude.{
  ℕ, zero, suc, ◌+◌, ◌/◌, ◌%◌, [], ◌∷◌, ltb, if◌then◌else◌, Bytes, ℤ, pos, negsuc,
}

-- The digits of `n` in front of `out`.
unfoldable pub digits_loop : ℕ → ℕ → Bytes → Bytes
digits_loop zero n out = out
digits_loop (suc fuel) n out =
    let digit = b'0' + n % 10 in
    let rest = digits_loop fuel (n / 10) (digit ∷ out) in if ltb n 10 then digit ∷ out else rest

-- A number of 64 bits has at most 20 digits.
unfoldable pub print_nat : ℕ → Bytes
unfolding digits_loop
print_nat n = digits_loop 20 n []

unfoldable pub print_int : ℤ → Bytes
unfolding print_nat
print_int (pos n) = print_nat n
print_int (negsuc n) = b'-' ∷ print_nat (suc n)
