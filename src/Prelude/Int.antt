-- ===== src/Prelude/Int.antt =====
-- Integers, and C's `int` of 32 bits: what does not fit is cut down to 32 bits.
use Prim.Native.Nat.{ℕ, zero, suc, ◌+◌, ◌-◌, ◌%◌, ◌≤◌}
use mathlib.Core.Path.{◌≡◌, ◌∙◌}
use mathlib.Core.Bool.{Bool, true, false}
use mathlib.Core.List.{List, [], ◌∷◌}
use native.Mathlib.Omega.{arith}
use knish_io_client_c.Prelude.Tests.{leb, ltb, if◌then◌else◌}

-- `negsuc n` is -(n + 1).
pub data ℤ : Type 0 where
  pos : ℕ → ℤ
  negsuc : ℕ → ℤ

abbrev pub pos_part : ℤ → ℕ
pos_part (pos n) = n
pos_part (negsuc n) = 0

abbrev pub neg_part : ℤ → ℕ
neg_part (pos n) = 0
neg_part (negsuc n) = suc n

-- a - b, as an integer.
abbrev pub sub_ℕ : ℕ → ℕ → ℤ
sub_ℕ a b = if leb b a then pos (a - b) else negsuc (b - a - 1)

infixl 65 ◌+ℤ◌ ◌-ℤ◌
infix 50 ◌≤ℤ◌
unfoldable pub ◌+ℤ◌ : ℤ → ℤ → ℤ
a +ℤ b = sub_ℕ (pos_part a + pos_part b) (neg_part a + neg_part b)

unfoldable pub ◌-ℤ◌ : ℤ → ℤ → ℤ
a -ℤ b = sub_ℕ (pos_part a + neg_part b) (neg_part a + pos_part b)

abbrev pub ◌≤ℤ◌ : ℤ → ℤ → Type 0
a ≤ℤ b = pos_part a + neg_part b ≤ pos_part b + neg_part a

-- `a < b` of two ints.
abbrev pub ltb_ℤ : ℤ → ℤ → Bool
ltb_ℤ a b = ltb (pos_part a + neg_part b) (pos_part b + neg_part a)

-- `a == 0`.
abbrev pub is_zero_ℤ : ℤ → Bool
is_zero_ℤ (pos zero) = true
is_zero_ℤ (pos (suc n)) = false
is_zero_ℤ (negsuc n) = false

pub +ℤ_parts :
    (a b : ℤ)
    → pos_part (a +ℤ b) + neg_part a + neg_part b ≡ neg_part (a +ℤ b) + pos_part a + pos_part b
unfolding ◌+ℤ◌
+ℤ_parts a b = ground arith

pub -ℤ_parts :
    (a b : ℤ)
    → pos_part (a -ℤ b) + neg_part a + pos_part b ≡ neg_part (a -ℤ b) + pos_part a + neg_part b
unfolding ◌-ℤ◌
-ℤ_parts a b = ground arith

pub eq_of_parts : (a b : ℤ) → pos_part a + neg_part b ≡ pos_part b + neg_part a → a ≡ b
eq_of_parts a b h = ground arith

pub ruleset int_laws = (arith, +ℤ_parts, -ℤ_parts, eq_of_parts)

-- The sum of a list of ints.
abbrev pub sum_ℤ : List ℤ → ℤ
sum_ℤ [] = pos 0
sum_ℤ (x ∷ xs) = x +ℤ sum_ℤ xs

-- `INT_MAX`
abbrev pub int_max : ℕ
int_max = 2147483647

-- The integer below 2^32 that is the 32 bits, read as an `int`.
abbrev signed : ℕ → ℤ
signed r = if leb r int_max then pos r else negsuc (4294967295 - r)

-- The 32 bits of an integer, as an `int`. C leaves open what an overflow of `int` does; this is what
-- the machine does.
unfoldable pub wrap_int : ℤ → ℤ
wrap_int (pos n) = signed (n % 4294967296)
wrap_int (negsuc n) = signed (4294967295 - n % 4294967296)

-- It fits.
abbrev pub IsInt : ℤ → Type 0
IsInt z = (pos_part z ≤ int_max) × (neg_part z ≤ int_max)

pub wrap_int-IsInt : (z : ℤ) → IsInt z → wrap_int z ≡ z
unfolding wrap_int
wrap_int-IsInt (pos n) h = ground arith
wrap_int-IsInt (negsuc n) h = ground arith

-- `total += x` for each `x`
unfoldable pub sum_int : List ℤ → ℤ → ℤ
unfolding wrap_int
sum_int [] total = total
sum_int (x ∷ xs) total = sum_int xs (wrap_int (total +ℤ x))

-- The sums of the positive and of the negative parts.
abbrev pub positives : List ℤ → ℕ
positives [] = 0
positives (x ∷ xs) = pos_part x + positives xs

abbrev pub negatives : List ℤ → ℕ
negatives [] = 0
negatives (x ∷ xs) = neg_part x + negatives xs

pub sum_parts :
    (xs : List ℤ) → pos_part (sum_ℤ xs) + negatives xs ≡ neg_part (sum_ℤ xs) + positives xs
sum_parts [] = ground arith
sum_parts (x ∷ xs) = omega (arith, sum_parts xs, +ℤ_parts x (sum_ℤ xs))

-- No part of a sum is larger than the parts together.
pub +ℤ_small :
    (x y : ℤ)
    → (pos_part (x +ℤ y) ≤ pos_part x + pos_part y) × (neg_part (x +ℤ y) ≤ neg_part x + neg_part y)
unfolding ◌+ℤ◌
+ℤ_small x y = ground arith

-- Where no partial sum overflows, the total is the sum.
pub sum_int-sum :
    (xs : List ℤ) (total : ℤ)
    → pos_part total + positives xs ≤ int_max
    → neg_part total + negatives xs ≤ int_max
    → sum_int xs total ≡ total +ℤ sum_ℤ xs
unfolding sum_int
sum_int-sum [] total p n = eq_of_parts _ _ (omega (arith, +ℤ_parts total (pos 0)))
sum_int-sum (x ∷ xs) total p n =
    let small = +ℤ_small total x in
    let fits : wrap_int (total +ℤ x) ≡ total +ℤ x =
      wrap_int-IsInt (total +ℤ x) (omega (arith, small), omega (arith, small)) in
    let rest = sum_int-sum xs (total +ℤ x) (omega (arith, small)) (omega (arith, small)) in
    let first : sum_int xs (wrap_int (total +ℤ x)) ≡ (total +ℤ x) +ℤ sum_ℤ xs = rw fits rest in
    first
    ∙ eq_of_parts _ _ (
        omega (
          arith,
          +ℤ_parts (total +ℤ x) (sum_ℤ xs),
          +ℤ_parts total x,
          +ℤ_parts total (x +ℤ sum_ℤ xs),
          +ℤ_parts x (sum_ℤ xs),
        ))
