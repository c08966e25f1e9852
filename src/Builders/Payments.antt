-- ===== src/Builders/Payments.antt =====
-- The amounts of a transfer to several recipients (`knishio_molecule_init_values` of src/molecule.c).
use knish_io_client_c.Builders.Conserves.{credit, magnitude-ℤ, left_over-difference}
use knish_io_client_c.Builders.Exact.{
  magnitude, limit, Entry, amounts, magnitudes, AllV, magnitude-debit, magnitude-+ℤ, sum_step,
}
use knish_io_client_c.Builders.Made.{Usable}
use knish_io_client_c.Builders.Transfer.{left_over, sum_amounts}
use knish_io_client_c.Isotope.{isotope_v}
use knish_io_client_c.Wallet.{Wallet}
use knish_io_client_c.Prelude.{
  ℕ, ◌+◌, ◌≤◌, ◌≡◌, refl, ap, sym, ◌∙◌, Option, some, List, [], ◌∷◌, ◌++◌, suc, length, ℤ, pos,
  ◌+ℤ◌, ◌-ℤ◌, ◌≤ℤ◌, sum_ℤ, arith, +ℤ_parts, -ℤ_parts, eq_of_parts, int_max, wrap_int, neg_part,
  positives, negatives, sum_int, sum_int-sum, sum_parts, +ℤ_small,
}

-- The recipients, none of which is NULL.
abbrev pub all_given : List (Wallet × ℤ) → List (Option Wallet × ℤ)
all_given [] = []
all_given ((w, z) ∷ recipients) = (some w, z) ∷ all_given recipients

abbrev pub credits : List (Wallet × ℤ) → List Entry
credits [] = []
credits ((w, z) ∷ recipients) = credit isotope_v z ∷ credits recipients

abbrev pub payments : List (Wallet × ℤ) → List ℤ
payments [] = []
payments ((w, z) ∷ recipients) = z ∷ payments recipients

abbrev pub AllUsable : List (Wallet × ℤ) → Type 0
AllUsable [] = Unit
AllUsable ((w, z) ∷ recipients) = Usable w × AllUsable recipients

-- The remainder is the last entry.
abbrev pub then_left : List (Wallet × ℤ) → ℤ → List Entry
then_left recipients left = credits recipients ++ credit isotope_v left ∷ []

pub then_left-AllV : (recipients : List (Wallet × ℤ)) (left : ℤ) → AllV (then_left recipients left)
then_left-AllV [] left = (refl, tt)
then_left-AllV ((w, z) ∷ recipients) left = (refl, then_left-AllV recipients left)

sum-then_left :
    (recipients : List (Wallet × ℤ)) (left : ℤ)
    → sum_ℤ (amounts (then_left recipients left)) ≡ sum_ℤ (payments recipients) +ℤ left
sum-then_left [] left =
    eq_of_parts _ _ (omega (arith, +ℤ_parts left (pos 0), +ℤ_parts (pos 0) left))
sum-then_left ((w, z) ∷ recipients) left =
    ap (λ x. z +ℤ x) (sum-then_left recipients left)
    ∙ sym (sum_step z (sum_ℤ (payments recipients)) left)

magnitudes-then_left :
    (recipients : List (Wallet × ℤ)) (left : ℤ)
    → magnitudes (amounts (then_left recipients left))
      ≡ magnitudes (payments recipients) + magnitude left
magnitudes-then_left [] left = omega arith
magnitudes-then_left ((w, z) ∷ recipients) left =
    omega (arith, magnitudes-then_left recipients left)

pub length-then_left :
    (recipients : List (Wallet × ℤ)) (left : ℤ)
    → length (then_left recipients left) ≡ suc (length recipients)
length-then_left [] left = refl
length-then_left ((w, z) ∷ recipients) left = ap suc (length-then_left recipients left)

magnitude-sum : (zs : List ℤ) → magnitude (sum_ℤ zs) ≤ magnitudes zs
magnitude-sum [] = omega arith
magnitude-sum (z ∷ zs) = omega (arith, magnitude-+ℤ z (sum_ℤ zs), magnitude-sum zs)

sum_amounts-sum_int :
    (recipients : List (Wallet × ℤ)) (x : ℤ)
    → sum_amounts (all_given recipients) x ≡ sum_int (payments recipients) x
unfolding sum_int
sum_amounts-sum_int [] x = refl
sum_amounts-sum_int ((w, z) ∷ recipients) x = sum_amounts-sum_int recipients (wrap_int (x +ℤ z))

magnitudes-parts : (zs : List ℤ) → magnitudes zs ≡ positives zs + negatives zs
magnitudes-parts [] = refl
magnitudes-parts (z ∷ zs) = omega (arith, magnitudes-parts zs)

neg_part-sum : (zs : List ℤ) → neg_part (sum_ℤ zs) ≤ negatives zs
neg_part-sum [] = omega arith
neg_part-sum (z ∷ zs) = omega (arith, neg_part-sum zs, +ℤ_small z (sum_ℤ zs))

-- What is paid fits into an `int`, and so does what is left.
pub record Paid (recipients : List (Wallet × ℤ)) (n : ℕ) : Type 0 where
  pub total : sum_amounts (all_given recipients) (pos 0) ≡ sum_ℤ (payments recipients)
  pub room : n + neg_part (sum_ℤ (payments recipients)) ≤ int_max
  pub left : left_over (pos n) (sum_ℤ (payments recipients)) ≡ pos n -ℤ sum_ℤ (payments recipients)
  pub small : n + n + (magnitudes (payments recipients) + magnitudes (payments recipients)) ≤ limit

pub paid :
    (recipients : List (Wallet × ℤ)) (n : ℕ)
    → sum_ℤ (payments recipients) ≤ℤ pos n
    → n + negatives (payments recipients) ≤ int_max
    → Paid recipients n
paid recipients n h l =
    let zs = payments recipients in
    let parts = sum_parts zs in
    let low = neg_part-sum zs in
    record {
      total =
          sum_amounts-sum_int recipients (pos 0)
          ∙ sum_int-sum zs (pos 0) (omega (arith, parts)) (omega arith)
          ∙ eq_of_parts _ _ (omega (arith, +ℤ_parts (pos 0) (sum_ℤ zs)));
      room = omega (arith, low);
      left = left_over-difference n (sum_ℤ zs) h (omega (arith, low));
      small = omega (arith, parts, magnitudes-parts zs);
    }

-- The whole is debited, the total is paid, and the rest is left.
pub sum_of_all :
    (recipients : List (Wallet × ℤ)) (n : ℕ)
    → (pos 0 -ℤ pos n)
        +ℤ sum_ℤ (amounts (then_left recipients (pos n -ℤ sum_ℤ (payments recipients))))
      ≡ pos 0
sum_of_all recipients n =
    let total = sum_ℤ (payments recipients) in
    let left = pos n -ℤ total in
    ap (λ x. (pos 0 -ℤ pos n) +ℤ x) (sum-then_left recipients left)
    ∙ eq_of_parts _ _ (
        omega (
          arith,
          +ℤ_parts (pos 0 -ℤ pos n) (total +ℤ left),
          +ℤ_parts total left,
          -ℤ_parts (pos n) total,
          -ℤ_parts (pos 0) (pos n),
        ))

pub magnitudes-all :
    (recipients : List (Wallet × ℤ)) (n : ℕ)
    → Paid recipients n
    → magnitude (pos 0 -ℤ pos n)
        + magnitudes
            (amounts (then_left recipients (left_over (pos n) (sum_ℤ (payments recipients)))))
      ≤ limit
magnitudes-all recipients n p =
    let zs = payments recipients in
    omega (
      arith,
      p.small,
      magnitude-debit n,
      magnitudes-then_left recipients (left_over (pos n) (sum_ℤ zs)),
      ap magnitude p.left,
      magnitude-ℤ (pos n) (sum_ℤ zs),
      magnitude-sum zs,
    )
