-- ===== src/MolecularHash/Normalize.antt =====
-- `normalize` ends for every array, with the sum 0 (src/molecule.c).
use knish_io_client_c.Errors.{ok}
use knish_io_client_c.MolecularHash.{
  may_step, step, adjust, pass, normalize_loop, normalize_fuel, normalize_hash,
}
use knish_io_client_c.Prelude.{
  ℕ, zero, suc, ◌+◌, ◌≤◌, ◌<◌, ◌≡◌, ◌≢◌, ◌⊎◌, inl, inr, refl, ap, ◌∙◌, sym, Bool, true, false, some,
  List, [], ◌∷◌, arith, length, ℤ, pos, negsuc, pos_part, neg_part, All, ◌+ℤ◌, ltb_ℤ, is_zero_ℤ,
  sum_ℤ, +ℤ_parts, eq_of_parts, positives, negatives, int_max, sum_int, sum_int-sum,
}

-- How far `total` is from 0 on the side where the loop began, and on the other side.
abbrev far : Bool → ℤ → ℕ
far true t = neg_part t
far false t = pos_part t

abbrev past : Bool → ℤ → ℕ
past true t = pos_part t
past false t = neg_part t

-- An element that the loop no longer moves.
abbrev IsStuck : Bool → ℤ → Type 0
IsStuck true x = 8 ≤ pos_part x
IsStuck false x = 8 ≤ neg_part x

-- From -8 to 8.
abbrev pub InRange : ℤ → Type 0
InRange x = (pos_part x ≤ 8) × (neg_part x ≤ 8)

-- What was added to the elements was added to `total`.
abbrev Balanced : ℤ → ℤ → ℤ → ℤ → Type 0
Balanced x total x' total' =
    pos_part x' + neg_part x + pos_part total + neg_part total'
    ≡ neg_part x' + pos_part x + neg_part total + pos_part total'

record Adjusted (negative : Bool) (x total x' total' : ℤ) : Type 0 where
  balanced : Balanced x total x' total'
  not_past : past negative total' ≡ 0
  no_further : far negative total' ≤ far negative total
  nearer :
      (far negative total' < far negative total) ⊎ ((far negative total ≡ 0) ⊎ IsStuck negative x)
  in_range : InRange x → InRange x'

adjust-Adjusted :
    (negative : Bool) (x total : ℤ)
    → past negative total ≡ 0
    → Adjusted negative x total (adjust negative x total).0 (adjust negative x total).1
unfolding adjust may_step step ◌+ℤ◌
adjust-Adjusted true (pos n) (negsuc t) h = ground arith
adjust-Adjusted true (negsuc n) (negsuc t) h = ground arith
adjust-Adjusted false (pos n) (pos t) h = ground arith
adjust-Adjusted false (negsuc n) (pos t) h = ground arith
adjust-Adjusted _ x total h = ground arith

-- The same of a whole round.
record Passed (negative : Bool) (xs : List ℤ) (total : ℤ) (ys : List ℤ) (total' : ℤ) : Type 0 where
  balanced : Balanced (sum_ℤ xs) total (sum_ℤ ys) total'
  not_past : past negative total' ≡ 0
  no_further : far negative total' ≤ far negative total
  nearer :
      (far negative total' < far negative total)
      ⊎ ((far negative total ≡ 0) ⊎ All (IsStuck negative) xs)
  in_range : All InRange xs → All InRange ys
  same_length : length ys ≡ length xs

nearer_trans :
    (negative : Bool) (x : ℤ) (xs : List ℤ) (a b c : ℕ)
    → b ≤ a
    → c ≤ b
    → (b < a) ⊎ ((a ≡ 0) ⊎ IsStuck negative x)
    → (c < b) ⊎ ((b ≡ 0) ⊎ All (IsStuck negative) xs)
    → (c < a) ⊎ ((a ≡ 0) ⊎ All (IsStuck negative) (x ∷ xs))
nearer_trans negative x xs a b c p q (inl h) k = inl (omega arith)
nearer_trans negative x xs a b c p q (inr (inl h)) k = inr (inl h)
nearer_trans negative x xs a b c p q (inr (inr h)) (inl k) = inl (omega arith)
nearer_trans negative x xs zero b c p q (inr (inr h)) (inr (inl k)) = inr (inl refl)
nearer_trans negative x xs (suc a) b c p q (inr (inr h)) (inr (inl k)) = inl (omega arith)
nearer_trans negative x xs a b c p q (inr (inr h)) (inr (inr k)) = inr (inr (h, k))

pass-Passed :
    (negative : Bool) (xs : List ℤ) (total : ℤ)
    → past negative total ≡ 0
    → Passed negative xs total (pass negative xs total).0 (pass negative xs total).1
unfolding pass
pass-Passed negative [] total h = record {
  balanced = omega arith;
  not_past = h;
  no_further = omega arith;
  nearer = inr (inr tt);
  in_range = λ r. tt;
  same_length = refl;
}
pass-Passed negative (x ∷ xs) total h =
    let a = adjust-Adjusted negative x total h in
    let one = adjust negative x total in
    let p = pass-Passed negative xs one.1 a.not_past in
    record {
      balanced = omega (
        arith,
        a.balanced,
        p.balanced,
        +ℤ_parts x (sum_ℤ xs),
        +ℤ_parts one.0 (sum_ℤ (pass negative xs one.1).0),
      );
      not_past = p.not_past;
      no_further = omega (arith, a.no_further, p.no_further);
      nearer = nearer_trans negative x xs _ _ _ a.no_further p.no_further a.nearer p.nearer;
      in_range = λ r. (a.in_range r.0, p.in_range r.1);
      same_length = ap suc p.same_length;
    }

-- Where no element can move, the sum is already on the other side of 0.
stuck-past :
    (negative : Bool) (xs : List ℤ) → All (IsStuck negative) xs → far negative (sum_ℤ xs) ≡ 0
unfolding ◌+ℤ◌
stuck-past true [] h = refl
stuck-past false [] h = refl
stuck-past true (x ∷ xs) h = ground (arith, stuck-past true xs h.1)
stuck-past false (x ∷ xs) h = ground (arith, stuck-past false xs h.1)

far_zero : (negative : Bool) (t : ℤ) → past negative t ≡ 0 → far negative t ≡ 0 → t ≡ pos 0
far_zero true t p q = eq_of_parts t (pos 0) (omega arith)
far_zero false t p q = eq_of_parts t (pos 0) (omega arith)

pub record Normalized (xs ys : List ℤ) : Type 0 where
  pub sum_zero : sum_ℤ ys ≡ pos 0
  pub same_length : length ys ≡ length xs
  pub in_range : All InRange xs → All InRange ys

is_zero_iff : (t : ℤ) → (is_zero_ℤ t ≡ true) ⊎ ((is_zero_ℤ t ≡ false) × (t ≢ pos 0))
is_zero_iff (pos zero) = inl refl
is_zero_iff (pos (suc n)) = inr (refl, ground arith)
is_zero_iff (negsuc n) = inr (refl, ground arith)

zero_of_is_zero : (t : ℤ) → is_zero_ℤ t ≡ true → t ≡ pos 0
zero_of_is_zero t h = ground arith

round_nearer :
    (negative : Bool) (xs : List ℤ) (total : ℤ) {d : ℕ}
    → past negative total ≡ 0
    → sum_ℤ xs ≡ total
    → total ≢ pos 0
    → d ≤ far negative total
    → (d < far negative total) ⊎ ((far negative total ≡ 0) ⊎ All (IsStuck negative) xs)
    → d < far negative total
round_nearer negative xs total h e ne le (inl lt) = lt
round_nearer negative xs total h e ne le (inr (inl z)) = absurd (ne (far_zero negative total h z))
round_nearer negative xs total h e ne le (inr (inr s)) =
    absurd (ne (far_zero negative total h (ap (far negative) (sym e) ∙ stuck-past negative xs s)))

start_far : (total : ℤ) → far (ltb_ℤ total (pos 0)) total < normalize_fuel total
start_far total = ground arith

start_past : (total : ℤ) → past (ltb_ℤ total (pos 0)) total ≡ 0
start_past total = ground arith

normalize_loop-Normalized :
    (fuel : ℕ) (negative : Bool) (xs : List ℤ) (total : ℤ)
    → far negative total < fuel
    → past negative total ≡ 0
    → sum_ℤ xs ≡ total
    → (ys : List ℤ) × (normalize_loop fuel negative xs total ≡ some ys) × Normalized xs ys
unfolding normalize_loop
normalize_loop-Normalized zero negative xs total f h e = absurd (omega arith)
normalize_loop-Normalized (suc fuel) negative xs total f h e = elim (is_zero_iff total) [
  | inl z ↦ (
    xs,
    rw z,
    record { sum_zero = e ∙ zero_of_is_zero total z; same_length = refl; in_range = λ r. r },
  )
  | inr (nz, ne) ↦
      let p = pass-Passed negative xs total h in
      let next = pass negative xs total in
      let sum_next : sum_ℤ next.0 ≡ next.1 =
        eq_of_parts _ _ (omega (arith, p.balanced, ap pos_part e, ap neg_part e)) in
      let (ys, eq, n) =
        normalize_loop-Normalized fuel negative next.0 next.1
          (omega (arith, round_nearer negative xs total h e ne p.no_further p.nearer)) p.not_past
          sum_next in
      (
        ys,
        rw nz eq,
        record {
          sum_zero = n.sum_zero;
          same_length = n.same_length ∙ p.same_length;
          in_range = λ r. n.in_range (p.in_range r);
        },
      )
]

-- The loop of `normalize_hash` ends within its fuel, for every array that is not empty and in which
-- neither the positive nor the negative elements add up to more than INT_MAX: the result has the sum
-- 0 and the same length, and stays from -8 to 8 if the array did.
pub normalize_hash_total :
    (xs : List ℤ)
    → xs ≢ []
    → positives xs ≤ int_max
    → negatives xs ≤ int_max
    → (ys : List ℤ) × (normalize_hash xs ≡ some (ok ys)) × Normalized xs ys
unfolding normalize_hash
normalize_hash_total [] h p n = absurd (h refl)
normalize_hash_total (x ∷ xs) h p n =
    let total = sum_int (x ∷ xs) (pos 0) in
    let sum : sum_ℤ (x ∷ xs) ≡ total = sym (
      sum_int-sum (x ∷ xs) (pos 0) (omega arith) (omega arith)
      ∙ eq_of_parts _ _ (omega (arith, +ℤ_parts (pos 0) (sum_ℤ (x ∷ xs))))) in
    let (ys, e, done) =
      normalize_loop-Normalized (normalize_fuel total) (ltb_ℤ total (pos 0)) (x ∷ xs) total
        (start_far total) (start_past total) sum in
    (ys, rw (e, normalize_hash), done)
