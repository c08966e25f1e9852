-- ===== src/Builders/Fusion.antt =====
-- Which fusions of token units `knishio_molecule_fusion_error` (src/molecule.c) lets through.
use knish_io_client_c.Builders.Issue.{
  has_id, find_loop, find_token_unit, find_all, fusion_error, new_unit_error,
}
use knish_io_client_c.Wallet.{TokenUnit, Wallet}
use knish_io_client_c.Prelude.{
  ◌≤◌, ◌≡◌, ◌≢◌, true, Bool-cases, Option, none, some, Option-cases, List, [], ◌∷◌, Bytes,
  str_eq_iff, ltb, length, All, arith, ◌↔◌, ◌⊎◌, inl, inr,
}

-- Some unit has the identifier.
abbrev pub Borne : List TokenUnit → Bytes → Type 0
Borne [] id = ⊥
Borne (u ∷ units) id = (u.id ≡ some id) ⊎ Borne units id

has_id_iff : (u : TokenUnit) (id : Bytes) → (has_id u id ≡ true) ↔ (u.id ≡ some id)
has_id_iff u id = elim (Option-cases u.id) [
  | inl e ↦ rw e (ground arith)
  | inr (own, e) ↦ rw e (ground (arith, str_eq_iff own id))
]

find_loop-Borne :
    (units : List TokenUnit) (id : Bytes) → (find_loop units id ≢ none) ↔ Borne units id
unfolding find_loop
find_loop-Borne [] id = ground arith
find_loop-Borne (u ∷ units) id =
    let here = has_id_iff u id in
    let there = find_loop-Borne units id in
    elim (Bool-cases (has_id u id)) [
      | inl t ↦ rw t (ground arith)
      | inr f ↦ elim (Option-cases (find_loop units id)) [
        | inl e ↦ rw (f, e) (ground arith)
        | inr (i, e) ↦ rw (f, e) (ground arith)
      ]
    ]

-- An identifier that is not NULL and that some unit has.
abbrev pub IsFound : List TokenUnit → Option Bytes → Type 0
IsFound units none = ⊥
IsFound units (some id) = Borne units id

find_token_unit-IsFound :
    (w : Wallet) (id : Option Bytes) → (find_token_unit w id ≢ none) ↔ IsFound w.token_units id
unfolding find_token_unit
find_token_unit-IsFound w none = ground arith
find_token_unit-IsFound w (some id) = find_loop-Borne w.token_units id

find_all-IsFound :
    (w : Wallet) (ids : List (Option Bytes))
    → (find_all w ids ≢ none) ↔ All (IsFound w.token_units) ids
unfolding find_all
find_all-IsFound w [] = ground arith
find_all-IsFound w (id ∷ ids) =
    let here = find_token_unit-IsFound w id in
    let there = find_all-IsFound w ids in
    elim (Option-cases (find_token_unit w id)) [
      | inl e ↦ rw (find_all, e) (ground arith)
      | inr (i, e) ↦ elim (Option-cases (find_all w ids)) [
        | inl f ↦ rw (find_all, e, f) (ground arith)
        | inr (rest, f) ↦ rw (find_all, e, f) (ground arith)
      ]
    ]

-- An identifier that is neither NULL nor empty, and that no unit has.
abbrev pub IsNew : List TokenUnit → Option Bytes → Type 0
IsNew units none = ⊥
IsNew units (some []) = ⊥
IsNew units (some (c ∷ rest)) = ¬ Borne units (c ∷ rest)

new_unit_error-IsNew :
    (w : Wallet) (id : Option Bytes) → (new_unit_error w id ≡ none) ↔ IsNew w.token_units id
new_unit_error-IsNew w none = ((λ e. cc), (λ n. absurd n))
new_unit_error-IsNew w (some []) = ((λ e. cc), (λ n. absurd n))
new_unit_error-IsNew w (some (c ∷ rest)) =
    let there = find_token_unit-IsFound w (some (c ∷ rest)) in
    elim (Option-cases (find_token_unit w (some (c ∷ rest)))) [
      | inl e ↦ rw (new_unit_error, e) (ground arith)
      | inr (i, e) ↦ rw (new_unit_error, e) ((λ h. cc), (λ n. absurd (n (there.0 (λ z. cc)))))
    ]

-- A fusion in a wallet is let through exactly where it lists at least two identifiers, which may be
-- the same, each of a unit of the wallet, and gives the new unit an identifier that is not empty
-- and that no unit of the wallet has.
pub fusion_error_iff :
    (w : Wallet) (ids : List (Option Bytes)) (new_id : Option Bytes)
    → (fusion_error (some w) ids new_id ≡ none)
      ↔ ((2 ≤ length ids) × All (IsFound w.token_units) ids × IsNew w.token_units new_id)
unfolding fusion_error
fusion_error_iff w ids new_id =
    let all = find_all-IsFound w ids in
    let fresh = new_unit_error-IsNew w new_id in
    elim (Bool-cases (ltb (length ids) 2)) [
      | inl t ↦ rw t ((λ e. cc), (λ h. absurd (let k = h.0 in ground arith)))
      | inr t ↦ elim (Option-cases (find_all w ids)) [
        | inl e ↦ rw (t, e) ((λ h. cc), (λ h. absurd (all.1 h.1 e)))
        | inr (places, e) ↦
            rw (t, e) ((λ h. (ground arith, all.0 (λ z. cc), fresh.0 h)), (λ h. fresh.1 h.2))
      ]
    ]
