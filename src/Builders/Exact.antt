-- ===== src/Builders/Exact.antt =====
-- The arithmetic on values that the builders of src/molecule.c write and src/libraries/
-- check_molecule.c reads: whole numbers, where floating point is exact.
use knish_io_client_c.Builders.Transfer.{Casts, print_debit}
use knish_io_client_c.Check.Value.{Floats, total_loop}
use knish_io_client_c.Decimal.{print_int}
use knish_io_client_c.Isotope.{Isotope, isotope_v, isotope_eq}
use knish_io_client_c.Molecule.{Atom}
use knish_io_client_c.Prelude.{
  ℕ, ◌+◌, ◌≤◌, ◌≡◌, ap, sym, ◌∙◌, true, false, some, List, [], ◌∷◌, Bytes, length, ℤ, pos, pos_part,
  neg_part, IsInt, ◌+ℤ◌, ◌-ℤ◌, ltb_ℤ, sum_ℤ, map, arith, +ℤ_parts, eq_of_parts,
}

-- The texts that `snprintf` makes of amounts, and the numbers that they denote.
pub data Denotes : Bytes → ℤ → Type 0 where
  printed : (z : ℤ) → Denotes (print_int z) z
  debited : (n : ℕ) → Denotes (print_debit (pos n)) (pos 0 -ℤ pos n)

abbrev pub magnitude : ℤ → ℕ
magnitude z = pos_part z + neg_part z

-- Every whole number up to 2^53 is a `double`.
abbrev pub limit : ℕ
limit = 9007199254740992

-- What IEEE 754 and the C library say of numbers that stay whole and below 2^53; a cast to `int`
-- keeps those that an `int` can hold.
pub record Exact (floats : Floats) (casts : Casts floats) (of_long : ℤ → floats.LongDouble)
    : Type 0 where
  pub zero_double : floats.double_zero ≡ casts.of_int (pos 0)
  pub cast : (z : ℤ) → IsInt z → casts.to_int (casts.of_int z) ≡ z
  pub compare :
      (x y : ℤ)
      → magnitude x ≤ limit
      → magnitude y ≤ limit
      → floats.is_below (casts.of_int x) (casts.of_int y) ≡ ltb_ℤ x y
  pub sums :
      (x y : ℤ) (text : Bytes)
      → Denotes text y
      → magnitude x + magnitude y ≤ limit
      → floats.plus (casts.of_int x) (floats.atof text) ≡ casts.of_int (x +ℤ y)
  pub no_difference : floats.minus floats.double_zero floats.double_zero ≡ floats.double_zero
  pub zero_is_small : floats.is_below (floats.fabs floats.double_zero) floats.hundredth ≡ true
  pub zero_is_not_large : floats.is_below floats.hundredth (floats.fabs floats.double_zero) ≡ false
  pub zero_long : floats.long_zero ≡ of_long (pos 0)
  pub long_sums :
      (x y : ℤ) (text : Bytes)
      → Denotes text y
      → magnitude x + magnitude y ≤ limit
      → floats.plus_long (of_long x) (floats.strtold text).number ≡ of_long (x +ℤ y)
  pub reads_all :
      (y : ℤ) (text : Bytes) → Denotes text y → (floats.strtold text).consumed ≡ length text
  pub in_range :
      (y : ℤ) (text : Bytes)
      → Denotes text y
      → magnitude y ≤ limit
      → (floats.strtold text).out_of_range ≡ false
  pub not_negative :
      (n : ℕ)
      → n ≤ limit
      → floats.is_below_long (floats.strtold (print_int (pos n))).number floats.long_zero ≡ false
  pub long_zero_is_small :
      floats.is_below_long (floats.fabsl floats.long_zero) floats.billionth ≡ true

-- An atom of an isotope with the text of an amount.
pub record Entry : Type 0 where
  pub isotope : Isotope
  pub text : Bytes
  pub amount : ℤ
  pub denotes : Denotes text amount

abbrev pub Carries : Atom → Entry → Type 0
Carries a e = (a.isotope ≡ e.isotope) × (a.value ≡ some e.text)

abbrev pub CarryAll : List Atom → List Entry → Type 0
CarryAll [] [] = Unit
CarryAll [] (e ∷ entries) = ⊥
CarryAll (a ∷ atoms) [] = ⊥
CarryAll (a ∷ atoms) (e ∷ entries) = Carries a e × CarryAll atoms entries

abbrev pub amounts : List Entry → List ℤ
amounts entries = map (λ e. e.amount) entries

abbrev pub magnitudes : List ℤ → ℕ
magnitudes [] = 0
magnitudes (z ∷ zs) = magnitude z + magnitudes zs

abbrev pub AllV : List Entry → Type 0
AllV [] = Unit
AllV (e ∷ entries) = (e.isotope ≡ isotope_v) × AllV entries

pub magnitude-+ℤ : (x y : ℤ) → magnitude (x +ℤ y) ≤ magnitude x + magnitude y
unfolding ◌+ℤ◌
magnitude-+ℤ x y = ground arith

pub magnitude-debit : (n : ℕ) → magnitude (pos 0 -ℤ pos n) ≡ n
unfolding ◌-ℤ◌
magnitude-debit n = ground arith

pub sum_step : (x y z : ℤ) → (x +ℤ y) +ℤ z ≡ x +ℤ (y +ℤ z)
sum_step x y z =
    eq_of_parts _ _
      (omega (arith, +ℤ_parts (x +ℤ y) z, +ℤ_parts x y, +ℤ_parts x (y +ℤ z), +ℤ_parts y z))

pub sum_none : (x : ℤ) → x +ℤ pos 0 ≡ x
sum_none x = eq_of_parts _ _ (omega (arith, +ℤ_parts x (pos 0)))

module _ (floats : Floats) (casts : Casts floats) (of_long : ℤ → floats.LongDouble)
    (exact : Exact floats casts of_long) where
  -- The total of the V atoms is the sum of their amounts.
  pub total_loop-sum :
      (atoms : List Atom) (entries : List Entry) (count : ℕ) (x : ℤ)
      → CarryAll atoms entries
      → AllV entries
      → magnitude x + magnitudes (amounts entries) ≤ limit
      → (total_loop floats atoms count (casts.of_int x)).1
        ≡ casts.of_int (x +ℤ sum_ℤ (amounts entries))
  unfolding total_loop isotope_eq
  total_loop-sum [] [] count x h v l = ap casts.of_int (sym (sum_none x))
  total_loop-sum [] (e ∷ entries) count x h v l = absurd h
  total_loop-sum (a ∷ atoms) [] count x h v l = absurd h
  total_loop-sum (a ∷ atoms) (e ∷ entries) count x ((i, t), h) (v, vs) l =
      let is_v : a.isotope ≡ isotope_v = i ∙ v in
      let add = exact.sums x e.amount e.text e.denotes (omega arith) in
      let bound = magnitude-+ℤ x e.amount in
      rw (is_v, t, add)
        (total_loop-sum atoms entries (count + 1) (x +ℤ e.amount) h vs (omega (arith, bound))
          ∙ ap casts.of_int (sum_step x e.amount (sum_ℤ (amounts entries))))
