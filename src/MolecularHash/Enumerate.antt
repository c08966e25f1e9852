-- ===== src/MolecularHash/Enumerate.antt =====
-- `enumerate` accepts exactly the hashes that can be signed (src/molecule.c).
use knish_io_client_c.Errors.{ok, ◌>>=◌, >>=-ok}
use knish_io_client_c.MolecularHash.{
  molecular_hash_length, is_base17_char, signable_loop, hash_is_signable, enumerate_char,
  enumerate_loop, enumerate_hash,
}
use knish_io_client_c.MolecularHash.Normalize.{InRange}
use knish_io_client_c.Prelude.{
  ℕ, suc, ◌+◌, ◌-◌, ◌≡◌, ◌↔◌, inl, inr, refl, ap, ◌∙◌, true, Option, none, some, List, [], ◌∷◌,
  arith, leb, ◌==◌, if◌then◌else◌, length, ℤ, pos, sub_ℕ, All, Bytes, Option-cases,
}

abbrev pub IsBase17 : ℕ → Type 0
IsBase17 c = is_base17_char c ≡ true

enumerate_char_value : (c : ℕ) → IsBase17 c → (v : ℤ) × (enumerate_char c ≡ some v) × InRange v
unfolding enumerate_char
enumerate_char_value c h = (
  (if leb c b'9' then sub_ℕ (c - b'0') 8 else if leb c b'f' then pos (c - b'a' + 2) else pos 8),
  ground arith,
  ground arith,
)

enumerate_char-IsBase17 : (c : ℕ) {v : ℤ} → enumerate_char c ≡ some v → IsBase17 c
unfolding enumerate_char
enumerate_char-IsBase17 c e = ground arith

-- Different characters have different values.
enumerate_char_injective :
    (c d : ℕ) {v : ℤ} → enumerate_char c ≡ some v → enumerate_char d ≡ some v → c ≡ d
unfolding enumerate_char
enumerate_char_injective c d e f = ground arith

enumerate_loop_values :
    (h : Bytes)
    → All IsBase17 h
    → (vs : List ℤ) × (enumerate_loop h ≡ ok vs) × (length vs ≡ length h) × All InRange vs
unfolding enumerate_loop
enumerate_loop_values [] a = ([], refl, refl, tt)
enumerate_loop_values (c ∷ rest) (a, b) =
    let (v, e, r) = enumerate_char_value c a in
    let (vs, es, l, rs) = enumerate_loop_values rest b in
    (v ∷ vs, rw (e, enumerate_loop) (rw (es, ◌>>=◌)), ap suc l, (r, rs))

enumerate_loop-cons :
    (c : ℕ) (rest : Bytes) {ws : List ℤ}
    → enumerate_loop (c ∷ rest) ≡ ok ws
    → (v : ℤ) × (vs : List ℤ) × (enumerate_char c ≡ some v)
      × (enumerate_loop rest ≡ ok vs)
      × (ws ≡ v ∷ vs)
unfolding enumerate_loop
enumerate_loop-cons c rest e = elim (Option-cases (enumerate_char c)) [
  | inl n ↦ let bad = rw (n, enumerate_loop) at e in absurd (cc bad)
  | inr (v, ev) ↦
      let bound = rw (ev, enumerate_loop) at e in
      let (vs, er, w) = >>=-ok (enumerate_loop rest) (λ vs. ok (v ∷ vs)) bound in
      (v, vs, ev, er, cc w)
]

enumerate_loop-IsBase17 : (h : Bytes) {vs : List ℤ} → enumerate_loop h ≡ ok vs → All IsBase17 h
enumerate_loop-IsBase17 [] e = tt
enumerate_loop-IsBase17 (c ∷ rest) e =
    let (v, vs, ec, er, w) = enumerate_loop-cons c rest e in
    (enumerate_char-IsBase17 c ec, enumerate_loop-IsBase17 rest er)

signable_loop-true :
    (h : Bytes) (n : ℕ)
    → All IsBase17 h
    → length h + n ≡ molecular_hash_length
    → signable_loop h n ≡ true
unfolding signable_loop
signable_loop-true [] n a e = ground arith
signable_loop-true (c ∷ rest) n a e = ground (arith, signable_loop-true rest (n + 1) a.1)

signable_loop_only :
    (h : Bytes) (n : ℕ)
    → signable_loop h n ≡ true
    → All IsBase17 h × (length h + n ≡ molecular_hash_length)
unfolding signable_loop
signable_loop_only [] n e = (tt, ground arith)
signable_loop_only (c ∷ rest) n e =
    let t : signable_loop rest (n + 1) ≡ true = ground arith in
    let ih = signable_loop_only rest (n + 1) t in ((ground arith, ih.0), omega (arith, ih.1))

-- What a signable hash is: 64 characters from 0 to 9 and a to g.
pub hash_is_signable_iff :
    (h : Bytes)
    → (hash_is_signable (some h) ≡ true) ↔ (All IsBase17 h × (length h ≡ molecular_hash_length))
unfolding hash_is_signable
hash_is_signable_iff h = (
  λ e. let (a, l) = signable_loop_only h 0 e in (a, omega (arith, l)),
  λ p. signable_loop-true h 0 p.0 (omega (arith, p.1)),
)

pub record Enumerated (h : Bytes) : Type 0 where
  pub values : List ℤ
  pub enumerates : enumerate_hash (some h) ≡ ok values
  pub full : length values ≡ molecular_hash_length
  pub in_range : All InRange values

pub enumerate_signable : (h : Bytes) → hash_is_signable (some h) ≡ true → Enumerated h
unfolding enumerate_hash
enumerate_signable h s =
    let (a, l) = (hash_is_signable_iff h).0 s in
    let (vs, e, lv, r) = enumerate_loop_values h a in
    let t : (length h == molecular_hash_length) ≡ true = ground arith in
    record { values = vs; enumerates = rw t e; full = lv ∙ l; in_range = r }

accepted :
    (h : Bytes) {vs : List ℤ}
    → enumerate_hash (some h) ≡ ok vs
    → All IsBase17 h × (length h ≡ molecular_hash_length)
unfolding enumerate_hash
accepted h {vs} e =
    let q : enumerate_loop h ≡ ok vs = ground arith in (enumerate_loop-IsBase17 h q, ground arith)

-- `enumerate` succeeds exactly on the hashes that the signer and the verifier accept.
pub enumerate_hash-hash_is_signable :
    (h : Option Bytes) → (hash_is_signable h ≡ true) ↔ ((vs : List ℤ) × (enumerate_hash h ≡ ok vs))
enumerate_hash-hash_is_signable none =
    (λ e. absurd (unfold hash_is_signable in cc), λ r. absurd (unfold enumerate_hash in cc r.1))
enumerate_hash-hash_is_signable (some h) = (
  λ e. let r = enumerate_signable h e in (r.values, r.enumerates),
  λ r. (hash_is_signable_iff h).1 (accepted h r.1),
)

enumerate_loop_injective :
    (g h : Bytes) {vs : List ℤ} → enumerate_loop g ≡ ok vs → enumerate_loop h ≡ ok vs → g ≡ h
enumerate_loop_injective [] [] e f = refl
enumerate_loop_injective [] (d ∷ h) e f =
    let (v, vs, ec, er, w) = enumerate_loop-cons d h f in absurd (unfold enumerate_loop in cc)
enumerate_loop_injective (c ∷ g) [] e f =
    let (v, vs, ec, er, w) = enumerate_loop-cons c g e in absurd (unfold enumerate_loop in cc)
enumerate_loop_injective (c ∷ g) (d ∷ h) e f =
    let (v, vs, ec, er, w) = enumerate_loop-cons c g e in
    let (v', vs', ec', er', w') = enumerate_loop-cons d h f in
    let same_tail : vs' ≡ vs = cc in
    let same_head : v' ≡ v = cc in
    cc (
      enumerate_char_injective c d ec (ec' ∙ ap some same_head),
      enumerate_loop_injective g h er (er' ∙ ap ok same_tail),
    )

-- Two hashes with the same enumerated values are the same hash.
pub enumerate_hash_injective :
    (g h : Bytes) (vs : List ℤ)
    → enumerate_hash (some g) ≡ ok vs
    → enumerate_hash (some h) ≡ ok vs
    → g ≡ h
unfolding enumerate_hash
enumerate_hash_injective g h vs e f =
    enumerate_loop_injective g h {vs = vs} (ground arith) (ground arith)
