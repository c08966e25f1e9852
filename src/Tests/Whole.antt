-- ===== src/Tests/Whole.antt =====
-- Whole numbers in the place of floating-point ones: they meet the laws that the theorems on the
-- builders assume.
use knish_io_client_c.Builders.Exact.{
  Denotes, printed, debited, magnitude, limit, Exact, magnitude-debit,
}
use knish_io_client_c.Builders.Transfer.{Casts}
use knish_io_client_c.Check.Value.{Strtold, Floats}
use knish_io_client_c.Decimal.{digits_loop, print_nat, print_int}
use knish_io_client_c.Prelude.{
  ℕ, zero, suc, ◌+◌, ◌-◌, ◌*◌, ◌/◌, ◌%◌, ◌<◌, ◌≤◌, ◌≡◌, refl, ap, ◌∙◌, false, Bool-cases, [], ◌∷◌,
  Bytes, ltb, ◌==◌, length, ℤ, pos, negsuc, sub_ℕ, ◌+ℤ◌, ◌-ℤ◌, ltb_ℤ, arith, inl, inr,
  if◌then◌else◌,
}

-- The value of the digits behind `n`.
abbrev digits_value : ℕ → Bytes → ℕ
digits_value n [] = n
digits_value n (c ∷ rest) = digits_value (n * 10 + (c - b'0')) rest

abbrev whole_value : Bytes → ℤ
whole_value [] = pos 0
whole_value (c ∷ rest) =
    if c == b'-' then sub_ℕ 0 (digits_value 0 rest) else pos (digits_value 0 (c ∷ rest))

abbrev powers_of_ten : ℕ → ℕ
powers_of_ten zero = 1
powers_of_ten (suc k) = 10 * powers_of_ten k

-- The digits of `n`, read behind nothing, are `n`.
digits_value-digits_loop :
    (fuel n : ℕ) (out : Bytes)
    → n < powers_of_ten fuel
    → digits_value 0 (digits_loop fuel n out) ≡ digits_value n out
unfolding digits_loop
digits_value-digits_loop zero n out h = ap (λ k. digits_value k out) (omega arith)
digits_value-digits_loop (suc fuel) n out h = elim (Bool-cases (ltb n 10)) [
  | inl t ↦ rw t (ap (λ k. digits_value k out) (ground arith))
  | inr f ↦ rw f (
      digits_value-digits_loop fuel (n / 10) ((b'0' + n % 10) ∷ out) (omega arith)
      ∙ ap (λ k. digits_value k out) (omega arith))
]

abbrev StartsWithDigit : Bytes → Type 0
StartsWithDigit [] = ⊥
StartsWithDigit (c ∷ rest) = 48 ≤ c

digits_loop-StartsWithDigit :
    (fuel n c : ℕ) (out : Bytes) → 48 ≤ c → StartsWithDigit (digits_loop fuel n (c ∷ out))
unfolding digits_loop
digits_loop-StartsWithDigit zero n c out h = h
digits_loop-StartsWithDigit (suc fuel) n c out h = elim (Bool-cases (ltb n 10)) [
  | inl t ↦ rw t (omega arith)
  | inr f ↦ rw f (digits_loop-StartsWithDigit fuel (n / 10) (b'0' + n % 10) (c ∷ out) (omega arith))
]

print_nat-StartsWithDigit : (n : ℕ) → StartsWithDigit (print_nat n)
unfolding print_nat digits_loop
print_nat-StartsWithDigit n = elim (Bool-cases (ltb n 10)) [
  | inl t ↦ rw t (omega arith)
  | inr f ↦ rw f (digits_loop-StartsWithDigit 19 (n / 10) (b'0' + n % 10) [] (omega arith))
]

whole_value-digits :
    (text : Bytes) → StartsWithDigit text → whole_value text ≡ pos (digits_value 0 text)
whole_value-digits [] h = absurd h
whole_value-digits (c ∷ rest) h = let t : (c == b'-') ≡ false = ground arith in rw t refl

digits_value-print_nat : (n : ℕ) → n ≤ limit → digits_value 0 (print_nat n) ≡ n
unfolding print_nat
digits_value-print_nat n l = digits_value-digits_loop 20 n [] (omega arith)

whole_value-Denotes :
    (text : Bytes) (y : ℤ) → Denotes text y → magnitude y ≤ limit → whole_value text ≡ y
unfolding print_int ◌-ℤ◌
whole_value-Denotes text y (printed (pos n)) l =
    whole_value-digits (print_nat n) (print_nat-StartsWithDigit n)
    ∙ ap pos (digits_value-print_nat n (omega arith))
whole_value-Denotes text y (printed (negsuc n)) l =
    ap (sub_ℕ 0) (digits_value-print_nat (suc n) (omega arith)) ∙ ground arith
whole_value-Denotes text y (debited n) l =
    ap (sub_ℕ 0) (digits_value-print_nat n (omega (arith, magnitude-debit n))) ∙ ground arith

abbrev whole_strtold : Bytes → Strtold ℤ
whole_strtold text = record {
  number = whole_value text;
  consumed = length text;
  out_of_range = false;
}

-- The least positive number stands for a hundredth and for a billionth.
abbrev pub whole_numbers : Floats
whole_numbers = record {
  Double = ℤ;
  double_zero = pos 0;
  hundredth = pos 1;
  plus = λ x y. x +ℤ y;
  minus = λ x y. x -ℤ y;
  fabs = λ x. pos (magnitude x);
  is_below = ltb_ℤ;
  atof = whole_value;
  LongDouble = ℤ;
  long_zero = pos 0;
  billionth = pos 1;
  plus_long = λ x y. x +ℤ y;
  fabsl = λ x. pos (magnitude x);
  is_below_long = ltb_ℤ;
  strtold = whole_strtold;
}

abbrev pub whole_casts : Casts whole_numbers
whole_casts = record { of_int = λ z. z; to_int = λ x. x }

pub whole_numbers-Exact : Exact whole_numbers whole_casts (λ z. z)
unfolding ◌-ℤ◌ print_int
whole_numbers-Exact = record {
  zero_double = refl;
  cast = λ z l. refl;
  compare = λ x y l k. refl;
  sums = λ x y text d l. ap (λ z. x +ℤ z) (whole_value-Denotes text y d (omega arith));
  no_difference = refl;
  zero_is_small = refl;
  zero_is_not_large = refl;
  zero_long = refl;
  long_sums = λ x y text d l. ap (λ z. x +ℤ z) (whole_value-Denotes text y d (omega arith));
  reads_all = λ y text d. refl;
  in_range = λ y text d l. refl;
  not_negative = λ n l.
      ap (λ z. ltb_ℤ z (pos 0))
        (whole_value-Denotes (print_int (pos n)) (pos n) (printed (pos n)) (omega arith))
      ∙ ground arith;
  long_zero_is_small = refl;
}
