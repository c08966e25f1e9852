-- ===== src/Builders/Long.antt =====
-- The sum of `check_cross_isotope_conservation` (src/libraries/check_molecule.c) over atoms with
-- the amounts that the builders write.
use knish_io_client_c.Builders.Exact.{
  Denotes, printed, debited, magnitude, limit, Exact, Entry, Carries, CarryAll, amounts, magnitudes,
  magnitude-+ℤ, sum_step, sum_none,
}
use knish_io_client_c.Builders.Transfer.{Casts}
use knish_io_client_c.Check.Conserves.{
  takes_part, total_from, Valued, BundleShape, number_of, is_f, check_isotope_v-cross,
}
use knish_io_client_c.Check.Value.{Floats, is_cross, has_cross_isotope, check_isotope_v}
use knish_io_client_c.Decimal.{digits_loop, print_nat, print_int}
use knish_io_client_c.Isotope.{isotope_v, isotope_b, isotope_f, isotope_eq}
use knish_io_client_c.Molecule.{Atom, Molecule}
use knish_io_client_c.Prelude.{
  ℕ, zero, suc, ◌+◌, ◌≤◌, ◌/◌, ◌%◌, ◌≡◌, refl, ap, sym, ◌∙◌, Bool, true, false, Bool-cases, Option,
  some, List, [], ◌∷◌, Bytes, ltb, length, ℤ, pos, negsuc, ◌+ℤ◌, sum_ℤ, All, arith, ◌⊎◌, inl, inr,
}

abbrev NotEmpty : Bytes → Type 0
NotEmpty text = (c : ℕ) × (rest : Bytes) × (text ≡ c ∷ rest)

digits_loop-NotEmpty : (fuel n c : ℕ) (out : Bytes) → NotEmpty (digits_loop fuel n (c ∷ out))
unfolding digits_loop
digits_loop-NotEmpty zero n c out = (c, out, refl)
digits_loop-NotEmpty (suc fuel) n c out = elim (Bool-cases (ltb n 10)) [
  | inl t ↦ (b'0' + n % 10, c ∷ out, rw t refl)
  | inr f ↦ rw f (digits_loop-NotEmpty fuel (n / 10) (b'0' + n % 10) (c ∷ out))
]

pub print_nat-NotEmpty : (n : ℕ) → NotEmpty (print_nat n)
unfolding print_nat digits_loop
print_nat-NotEmpty n = elim (Bool-cases (ltb n 10)) [
  | inl t ↦ (b'0' + n % 10, [], rw t refl)
  | inr f ↦ rw f (digits_loop-NotEmpty 19 (n / 10) (b'0' + n % 10) [])
]

Denotes-NotEmpty : (text : Bytes) (z : ℤ) → Denotes text z → NotEmpty text
unfolding print_int
Denotes-NotEmpty text z (printed (pos n)) = print_nat-NotEmpty n
Denotes-NotEmpty text z (printed (negsuc n)) = (b'-', print_nat (suc n), refl)
Denotes-NotEmpty text z (debited n) = (b'-', print_int (pos n), refl)

-- A V, B or F entry; of an F entry the amount is not negative.
abbrev pub Cross : Entry → Type 0
Cross e =
    (e.isotope ≡ isotope_v)
    ⊎ (e.isotope ≡ isotope_b)
    ⊎ ((e.isotope ≡ isotope_f) × ((n : ℕ) × (n ≤ limit) × (e.text ≡ print_int (pos n))))

Cross-takes_part : (a : Atom) (e : Entry) → Carries a e → Cross e → takes_part a ≡ true
unfolding isotope_eq
Cross-takes_part a e (i, t) (inl v) = let k : a.isotope ≡ isotope_v = i ∙ v in rw k refl
Cross-takes_part a e (i, t) (inr (inl v)) = let k : a.isotope ≡ isotope_b = i ∙ v in rw k refl
Cross-takes_part a e (i, t) (inr (inr (v, w))) = let k : a.isotope ≡ isotope_f = i ∙ v in rw k refl

module _ (floats : Floats) (casts : Casts floats) (of_long : ℤ → floats.LongDouble)
    (exact : Exact floats casts of_long) where
  number_of-text :
      (text : Bytes)
      → NotEmpty text
      → number_of floats (some text) ≡ some (floats.strtold text).number
  number_of-text text (c, rest, e) = rw e refl

  Valued-text :
      (f : Bool) (text : Bytes)
      → NotEmpty text
      → (floats.strtold text).consumed ≡ length text
      → (floats.strtold text).out_of_range ≡ false
      → (f ≡ true → floats.is_below_long (floats.strtold text).number floats.long_zero ≡ false)
      → Valued floats f (some text)
  Valued-text f [] (c, rest, e) reads range sign = absurd (cc e)
  Valued-text f (c ∷ rest) h reads range sign = (omega (arith, reads), range, sign)

  Cross-sign :
      (a : Atom) (e : Entry)
      → Carries a e
      → Cross e
      → is_f a ≡ true
      → floats.is_below_long (floats.strtold e.text).number floats.long_zero ≡ false
  unfolding isotope_eq
  Cross-sign a e (i, t) (inl v) f = absurd (let k : a.isotope ≡ isotope_v = i ∙ v in cc)
  Cross-sign a e (i, t) (inr (inl v)) f = absurd (let k : a.isotope ≡ isotope_b = i ∙ v in cc)
  Cross-sign a e (i, t) (inr (inr (v, (n, l, p)))) f = rw p (exact.not_negative n l)

  Cross-Valued :
      (a : Atom) (e : Entry)
      → Carries a e
      → Cross e
      → magnitude e.amount ≤ limit
      → Valued floats (is_f a) a.value
  Cross-Valued a e (i, t) v l = rw t (
      Valued-text (is_f a) e.text (Denotes-NotEmpty e.text e.amount e.denotes)
        (exact.reads_all e.amount e.text e.denotes) (exact.in_range e.amount e.text e.denotes l)
        (Cross-sign a e (i, t) v))

  -- The sum of the values is the sum of the amounts.
  pub total_from-sum :
      (atoms : List Atom) (entries : List Entry) (x : ℤ)
      → CarryAll atoms entries
      → All Cross entries
      → magnitude x + magnitudes (amounts entries) ≤ limit
      → total_from floats (of_long x) atoms ≡ of_long (x +ℤ sum_ℤ (amounts entries))
  total_from-sum [] [] x h v l = ap of_long (sym (sum_none x))
  total_from-sum [] (e ∷ entries) x h v l = absurd h
  total_from-sum (a ∷ atoms) [] x h v l = absurd h
  total_from-sum (a ∷ atoms) (e ∷ entries) x ((i, t), h) (v, vs) l =
      let part = Cross-takes_part a e (i, t) v in
      let number = number_of-text e.text (Denotes-NotEmpty e.text e.amount e.denotes) in
      let add = exact.long_sums x e.amount e.text e.denotes (omega arith) in
      let bound = magnitude-+ℤ x e.amount in
      rw (part, t, number, add)
        (total_from-sum atoms entries (x +ℤ e.amount) h vs (omega (arith, bound))
          ∙ ap of_long (sum_step x e.amount (sum_ℤ (amounts entries))))

  CarryAll-Valued :
      (atoms : List Atom) (entries : List Entry)
      → CarryAll atoms entries
      → All Cross entries
      → magnitudes (amounts entries) ≤ limit
      → All (λ a. takes_part a ≡ true → Valued floats (is_f a) a.value) atoms
  CarryAll-Valued [] [] h v l = tt
  CarryAll-Valued [] (e ∷ entries) h v l = absurd h
  CarryAll-Valued (a ∷ atoms) [] h v l = absurd h
  CarryAll-Valued (a ∷ atoms) (e ∷ entries) (c, h) (v, vs) l =
      ((λ t. Cross-Valued a e c v (omega arith)), CarryAll-Valued atoms entries h vs (omega arith))

  -- Atoms with amounts that add up to zero pass the value test across isotopes.
  pub Cross-conserves :
      (m : Molecule) (entries : List Entry) (balance : Option floats.Double)
      → has_cross_isotope m.atoms ≡ true
      → CarryAll m.atoms entries
      → All Cross entries
      → All (λ a. is_cross a ≡ true → BundleShape a) m.atoms
      → magnitudes (amounts entries) ≤ limit
      → sum_ℤ (amounts entries) ≡ pos 0
      → (check_isotope_v floats m balance).0 ≡ true
  Cross-conserves m entries balance cross h v shape l balanced =
      let start : total_from floats floats.long_zero m.atoms ≡ floats.long_zero =
        ap (λ x. total_from floats x m.atoms) exact.zero_long
        ∙ total_from-sum m.atoms entries (pos 0) h v (omega arith)
        ∙ ap (λ z. of_long (pos 0 +ℤ z)) balanced
        ∙ ap of_long (sum_none (pos 0))
        ∙ sym exact.zero_long in
      ((check_isotope_v-cross floats m balance cross).0).1 (
        (shape, CarryAll-Valued m.atoms entries h v l),
        ap (λ x. floats.is_below_long (floats.fabsl x) floats.billionth) start
            ∙ exact.long_zero_is_small,
      )
