-- ===== src/MolecularHash/Steps.antt =====
-- How often each chain of a one-time signature is hashed, by the signer and by the verifier.
use knish_io_client_c.Errors.{ok}
use knish_io_client_c.MolecularHash.{
  molecular_hash_length, hash_is_signable, enumerate_hash, normalize_hash,
}
use knish_io_client_c.MolecularHash.Enumerate.{enumerate_signable}
use knish_io_client_c.MolecularHash.Normalize.{InRange, normalize_hash_total}
use knish_io_client_c.Prelude.{
  ℕ, ◌+◌, ◌*◌, ◌≤◌, ◌≡◌, refl, ap, ◌∙◌, true, some, List, [], ◌∷◌, arith, length, map, ℤ, pos,
  pos_part, neg_part, All, Bytes, sum_ℤ, ◌+ℤ◌, ◌-ℤ◌, +ℤ_parts, eq_of_parts, positives, negatives,
}

-- `for (iter = 0; iter < 8 - normalized[i]; iter++)`: the rounds of the signer.
unfoldable pub sign_steps : ℤ → ℕ
sign_steps n = pos_part (pos 8 -ℤ n)

-- `for (iter = 0; iter < 8 + normalized[i]; iter++)`: the rounds of the verifier.
unfoldable pub verify_steps : ℤ → ℕ
verify_steps n = pos_part (pos 8 +ℤ n)

abbrev pub sum : List ℕ → ℕ
sum [] = 0
sum (x ∷ xs) = x + sum xs

pub steps_add : (n : ℤ) → InRange n → sign_steps n + verify_steps n ≡ 16
unfolding sign_steps verify_steps ◌+ℤ◌ ◌-ℤ◌
steps_add n h = ground arith

all_meet : (ns : List ℤ) → All InRange ns → All (λ n. sign_steps n + verify_steps n ≡ 16) ns
all_meet [] h = tt
all_meet (n ∷ ns) h = (steps_add n h.0, all_meet ns h.1)

steps_parts :
    (n : ℤ)
    → InRange n
    → (sign_steps n + pos_part n ≡ 8 + neg_part n) × (verify_steps n + neg_part n ≡ 8 + pos_part n)
unfolding sign_steps verify_steps ◌+ℤ◌ ◌-ℤ◌
steps_parts n h = ground arith

sum_steps :
    (ns : List ℤ)
    → All InRange ns
    → (sum (map sign_steps ns) + pos_part (sum_ℤ ns) ≡ 8 * length ns + neg_part (sum_ℤ ns))
      × (sum (map verify_steps ns) + neg_part (sum_ℤ ns) ≡ 8 * length ns + pos_part (sum_ℤ ns))
sum_steps [] h = (refl, refl)
sum_steps (n ∷ ns) h =
    let s = steps_parts n h.0 in
    let r = sum_steps ns h.1 in
    (omega (arith, s.0, r.0, +ℤ_parts n (sum_ℤ ns)), omega (arith, s.1, r.1, +ℤ_parts n (sum_ℤ ns)))

parts_InRange :
    (ns : List ℤ) → All InRange ns → (positives ns ≤ 8 * length ns) × (negatives ns ≤ 8 * length ns)
parts_InRange [] h = (omega arith, omega arith)
parts_InRange (n ∷ ns) h =
    let r = parts_InRange ns h.1 in let (p, q) = h.0 in (omega (arith, r), omega (arith, r))

-- The step counts of a hash.
pub record StepCounts (h : Bytes) : Type 0 where
  pub enumerated : List ℤ
  pub normalized : List ℤ
  pub enumerates : enumerate_hash (some h) ≡ ok enumerated
  pub normalizes : normalize_hash enumerated ≡ some (ok normalized)
  pub full : length normalized ≡ molecular_hash_length
  pub in_range : All InRange normalized
  pub meet : All (λ n. sign_steps n + verify_steps n ≡ 16) normalized
  pub signer_total : sum (map sign_steps normalized) ≡ 512
  pub verifier_total : sum (map verify_steps normalized) ≡ 512

-- Every hash that can be signed is enumerated and normalized to 64 values from -8 to 8. For each of
-- them the rounds of the signer and of the verifier on its chain are 16 together, and over all 64
-- values the signer's rounds add up to 512, and the verifier's to 512.
pub signable-StepCounts : (h : Bytes) → hash_is_signable (some h) ≡ true → StepCounts h
signable-StepCounts h s =
    let e = enumerate_signable h s in
    let small = parts_InRange e.values e.in_range in
    let (ys, eq, n) =
      normalize_hash_total e.values (λ z. absurd (omega (arith, e.full, ap length z)))
        (omega (arith, small, e.full)) (omega (arith, small, e.full)) in
    let r = n.in_range e.in_range in
    let l : length ys ≡ 64 = n.same_length ∙ e.full in
    let t = sum_steps ys r in
    let p = ap pos_part n.sum_zero in
    let q = ap neg_part n.sum_zero in
    record {
      enumerated = e.values;
      normalized = ys;
      enumerates = e.enumerates;
      normalizes = eq;
      full = l;
      in_range = r;
      meet = all_meet ys r;
      signer_total = omega (arith, t.0, p, q, l);
      verifier_total = omega (arith, t.1, p, q, l);
    }

-- `AtMost ns ms`: on no chain does the signer hash more often for `ns` than for `ms`.
abbrev pub AtMost : List ℤ → List ℤ → Type 0
AtMost [] [] = Unit
AtMost [] (m ∷ ms) = ⊥
AtMost (n ∷ ns) [] = ⊥
AtMost (n ∷ ns) (m ∷ ms) = (sign_steps n ≤ sign_steps m) × AtMost ns ms

steps_sum_le : (ns ms : List ℤ) → AtMost ns ms → sum (map sign_steps ns) ≤ sum (map sign_steps ms)
steps_sum_le [] [] h = omega arith
steps_sum_le [] (m ∷ ms) h = absurd h
steps_sum_le (n ∷ ns) [] h = absurd h
steps_sum_le (n ∷ ns) (m ∷ ms) h = omega (arith, h.0, steps_sum_le ns ms h.1)

steps_all_same :
    (ns ms : List ℤ)
    → AtMost ns ms
    → sum (map sign_steps ms) ≤ sum (map sign_steps ns)
    → map sign_steps ns ≡ map sign_steps ms
steps_all_same [] [] h e = refl
steps_all_same [] (m ∷ ms) h e = absurd h
steps_all_same (n ∷ ns) [] h e = absurd h
steps_all_same (n ∷ ns) (m ∷ ms) h e =
    let tails = steps_sum_le ns ms h.1 in
    let heads : sign_steps n ≡ sign_steps m = omega (arith, h.0) in
    let rest = steps_all_same ns ms h.1 (omega (arith, h.0)) in cc

steps_injective :
    (ns ms : List ℤ)
    → All InRange ns
    → All InRange ms
    → map sign_steps ns ≡ map sign_steps ms
    → ns ≡ ms
steps_injective [] [] h k e = refl
steps_injective [] (m ∷ ms) h k e = absurd (cc e)
steps_injective (n ∷ ns) [] h k e = absurd (cc e)
steps_injective (n ∷ ns) (m ∷ ms) h k e =
    let head : sign_steps n ≡ sign_steps m = cc e in
    let tail : map sign_steps ns ≡ map sign_steps ms = cc e in
    let a = steps_parts n h.0 in
    let b = steps_parts m k.0 in
    let same : n ≡ m = eq_of_parts n m (omega (arith, a.0, b.0)) in
    let rest = steps_injective ns ms h.1 k.1 tail in cc

-- Of two hashes that can be signed, let the signer, on none of the chains of the 64 values, hash more
-- often for `g` than for `h`: then the two have the same normalized values. This is about all 64 chains,
-- which version 2 signs, and not about the first 16 alone, which version 1 signs.
pub signable_no_domination :
    (g h : Bytes) (gs : hash_is_signable (some g) ≡ true) (hs : hash_is_signable (some h) ≡ true)
    → AtMost (signable-StepCounts g gs).normalized (signable-StepCounts h hs).normalized
    → (signable-StepCounts g gs).normalized ≡ (signable-StepCounts h hs).normalized
signable_no_domination g h gs hs d =
    let a = signable-StepCounts g gs in
    let b = signable-StepCounts h hs in
    steps_injective a.normalized b.normalized a.in_range b.in_range
      (steps_all_same a.normalized b.normalized d (omega (arith, a.signer_total, b.signer_total)))
