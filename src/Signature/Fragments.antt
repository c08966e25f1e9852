-- ===== src/Signature/Fragments.antt =====
-- How a signature is handed out to the atoms (src/molecule.c) and put together again
-- (src/libraries/check_molecule.c).
use knish_io_client_c.Check.{fragments}
use knish_io_client_c.Molecule.{Atom}
use knish_io_client_c.Signature.{distribute}
use knish_io_client_c.Prelude.{
  ℕ, zero, suc, ◌+◌, ◌*◌, ◌≤◌, ◌≡◌, refl, ap, ◌∙◌, sym, Bool-cases, none, List, [], ◌∷◌, Bytes,
  length, drop, drop_all, take-append-drop, leb, leb→le, All, arith, inl, inr,
}

-- No atom carries a fragment.
abbrev pub Unsigned : List Atom → Type 0
Unsigned atoms = All (λ a. a.ots_fragment ≡ none) atoms

fragments_none : (atoms : List Atom) → Unsigned atoms → fragments atoms ≡ []
unfolding fragments
fragments_none [] h = refl
fragments_none (a ∷ atoms) h = rw (h.0) (fragments_none atoms h.1)

drop_nothing : (n : ℕ) → drop {A = ℕ} n [] ≡ []
drop_nothing zero = refl
drop_nothing (suc n) = refl

drop-drop : (m n : ℕ) (xs : Bytes) → drop m (drop n xs) ≡ drop (n + m) xs
drop-drop m zero xs = ap (λ k. drop k xs) (let e : m ≡ 0 + m = omega arith in e)
drop-drop m (suc n) [] = drop_nothing m ∙ sym (drop_nothing (suc n + m))
drop-drop m (suc n) (x ∷ xs) =
    let e : suc n + m ≡ suc (n + m) = omega arith in rw e (drop-drop m n xs)

next_place : (i size : ℕ) → i * size + size ≡ (i + 1) * size
next_place i size = omega arith

pub fragments-distribute :
    (i size : ℕ) (signature : Bytes) (atoms : List Atom)
    → Unsigned atoms
    → length signature ≤ (i + length atoms) * size
    → fragments (distribute i size signature atoms) ≡ drop (i * size) signature
unfolding fragments distribute
fragments-distribute i size signature [] h l =
    sym (drop_all (i * size) signature (let e : i + 0 ≡ i = omega arith in rw⁻¹ e l))
fragments-distribute i size signature (a ∷ atoms) h l =
    elim (Bool-cases (leb (length signature) (i * size))) [
      | inl e ↦
          rw (distribute, e)
            (fragments_none (a ∷ atoms) h
              ∙ sym (drop_all (i * size) signature (leb→le (length signature) (i * size) e)))
      | inr e ↦
          let k : i + suc (length atoms) ≡ i + 1 + length atoms = omega arith in
          let rest = fragments-distribute (i + 1) size signature atoms h.1 (rw⁻¹ k l) in
          let tail = drop (i * size) signature in
          rw
            (
              distribute,
              e,
              rest,
              sym (next_place i size),
              sym (drop-drop size (i * size) signature),
            )
            (take-append-drop size tail)
    ]
