-- ===== src/Wallet/Split/Parts.antt =====
-- No unit is lost or doubled by the split of token units (src/wallet.c).
use knish_io_client_c.Wallet.{TokenUnit, Wallet}
use knish_io_client_c.Wallet.Split.{
  is_id, id_loop, tu_id_in_units, part, with_units, recipient_with, Wallets, split_units, Share,
  any_sent, in_any, give, split_units_multi,
}
use knish_io_client_c.Prelude.{
  ◌≡◌, ◌≢◌, refl, Bool, true, false, Bool-cases, Option, none, some, Option-cases, List, [], ◌∷◌,
  Bytes, str_eq_iff, length, ◌==◌, All, arith, ◌↔◌, ◌⊎◌, inl, inr,
}

-- Each unit is in one of two lists, in the same order.
pub data Parted : List TokenUnit → List TokenUnit → List TokenUnit → Type 0 where
  nothing : Parted [] [] []
  to_first :
      (u : TokenUnit) (xs ys units : List TokenUnit)
      → Parted xs ys units
      → Parted (u ∷ xs) ys (u ∷ units)
  to_second :
      (u : TokenUnit) (xs ys units : List TokenUnit)
      → Parted xs ys units
      → Parted xs (u ∷ ys) (u ∷ units)

-- The list holds the identifier.
abbrev pub Listed : Option Bytes → List (Option Bytes) → Type 0
Listed id [] = ⊥
Listed id (text ∷ ids) = ((id ≡ text) × (id ≢ none)) ⊎ Listed id ids

is_id_iff : (id : Bytes) (text : Option Bytes) → (is_id id text ≡ true) ↔ (some id ≡ text)
is_id_iff id none = ((λ e. absurd (cc e)), (λ e. absurd (cc e)))
is_id_iff id (some text) = ground (arith, str_eq_iff id text)

id_loop_iff :
    (id : Bytes) (ids : List (Option Bytes)) → (id_loop id ids ≡ true) ↔ Listed (some id) ids
unfolding id_loop
id_loop_iff id [] = ground arith
id_loop_iff id (text ∷ ids) =
    let here = is_id_iff id text in
    let there = id_loop_iff id ids in
    let given : some id ≢ none = λ e. cc in
    elim (Bool-cases (is_id id text)) [
      | inl t ↦ rw t ((λ e. inl (here.0 t, given)), (λ l. refl))
      | inr f ↦ rw f (
        (λ e. inr (there.0 e)),
        (λ l. elim l [ inl (e, g) ↦ absurd (let bad = here.1 e in cc) | inr k ↦ there.1 k ]),
      )
    ]

none-Listed : (ids : List (Option Bytes)) → ¬ Listed none ids
none-Listed [] l = l
none-Listed (text ∷ ids) (inl (e, g)) = g refl
none-Listed (text ∷ ids) (inr l) = none-Listed ids l

pub tu_id_in_units_iff :
    (id : Option Bytes) (ids : List (Option Bytes)) → (tu_id_in_units id ids ≡ true) ↔ Listed id ids
unfolding tu_id_in_units
tu_id_in_units_iff none ids = ((λ e. absurd (cc e)), (λ l. absurd (none-Listed ids l)))
tu_id_in_units_iff (some id) ids = id_loop_iff id ids

part-Parted :
    (test : TokenUnit → Bool) (units : List TokenUnit)
    → Parted (part test units).0 (part test units).1 units
unfolding part
part-Parted test [] = nothing
part-Parted test (u ∷ units) =
    let rest = part-Parted test units in
    elim (Bool-cases (test u)) [
      | inl t ↦ rw (part, t) (to_first u _ _ units rest)
      | inr f ↦ rw (part, f) (to_second u _ _ units rest)
    ]

part-All :
    (test : TokenUnit → Bool) (P : TokenUnit → Type 0) (units : List TokenUnit)
    → ((u : TokenUnit) → (test u ≡ true) ↔ P u)
    → All P (part test units).0 × All (λ u. ¬ P u) (part test units).1
unfolding part
part-All test P [] law = (tt, tt)
part-All test P (u ∷ units) law =
    let (yes', no') = part-All test P units law in
    elim (Bool-cases (test u)) [
      | inl t ↦ rw (part, t) (((law u).0 t, yes'), no')
      | inr f ↦ rw (part, f) (yes', ((λ p. absurd (let bad = (law u).1 p in cc)), no'))
    ]

-- `xs` are the units of the list, in order, and `ys` are the others.
abbrev pub Shared : (TokenUnit → Type 0) → List TokenUnit → List TokenUnit → List TokenUnit → Type 0
Shared P xs ys units = Parted xs ys units × All P xs × All (λ u. ¬ P u) ys

part-Shared :
    (test : TokenUnit → Bool) (P : TokenUnit → Type 0) (units : List TokenUnit)
    → ((u : TokenUnit) → (test u ≡ true) ↔ P u)
    → Shared P (part test units).0 (part test units).1 units
part-Shared test P units law =
    let (yes', no') = part-All test P units law in (part-Parted test units, yes', no')

abbrev pub InList : List (Option Bytes) → TokenUnit → Type 0
InList ids u = Listed u.id ids

-- With memory and a list of identifiers that is not empty, the split succeeds: the source keeps the
-- units of the list and the remainder gets the others, each unit once and in order, and the
-- recipient, if there is one, gets the units that the source keeps. Without memory, a split that
-- fails changes no wallet.
pub split_units-Shared :
    (ws : Wallets) (id : Option Bytes) (ids : List (Option Bytes))
    → ((split_units true ws (id ∷ ids)).0 ≡ true)
      × Shared
          (InList (id ∷ ids))
          (split_units true ws (id ∷ ids)).1.source.token_units
          (split_units true ws (id ∷ ids)).1.remainder.token_units
          ws.source.token_units
      × ((split_units true ws (id ∷ ids)).1.recipient
          ≡ recipient_with ws.recipient (split_units true ws (id ∷ ids)).1.source.token_units)
      × (((split_units false ws (id ∷ ids)).0 ≡ true) ⊎ ((split_units false ws (id ∷ ids)).1 ≡ ws))
unfolding split_units
split_units-Shared ws id ids = (
  refl,
  part-Shared (λ u. tu_id_in_units u.id (id ∷ ids)) (InList (id ∷ ids)) ws.source.token_units
      (λ u. tu_id_in_units_iff u.id (id ∷ ids)),
  refl,
  elim (Bool-cases (length ws.source.token_units == 0)) [
    | inl t ↦ inl (rw t refl)
    | inr f ↦ inr (rw f refl)
  ],
)

-- In the list of some recipient.
abbrev pub InSome : List Share → TokenUnit → Type 0
InSome [] u = ⊥
InSome (s ∷ shares) u = InList s.ids u ⊎ InSome shares u

in_any_iff : (shares : List Share) (u : TokenUnit) → (in_any u.id shares ≡ true) ↔ InSome shares u
unfolding in_any
in_any_iff [] u = ground arith
in_any_iff (s ∷ shares) u =
    let here = tu_id_in_units_iff u.id s.ids in
    let there = in_any_iff shares u in
    elim (Bool-cases (tu_id_in_units u.id s.ids)) [
      | inl t ↦ rw t ((λ e. inl (here.0 t)), (λ l. refl))
      | inr f ↦ rw f (
        (λ e. inr (there.0 e)),
        (λ l. elim l [ inl k ↦ absurd (let bad = here.1 k in cc) | inr k ↦ there.1 k ]),
      )
    ]

-- Each recipient holds the units of its list.
abbrev pub Given : List Share → List Share → List TokenUnit → Type 0
Given [] [] units = Unit
Given [] (t ∷ after) units = ⊥
Given (s ∷ shares) [] units = ⊥
Given (s ∷ shares) (t ∷ after) units =
    ((w : Wallet) × (others : List TokenUnit) × (t.wallet ≡ some w)
      × Shared (InList s.ids) w.token_units others units)
    × Given shares after units

give-Given :
    (shares : List Share) (units : List TokenUnit)
    → All (λ s. s.wallet ≢ none) shares
    → ((give shares units).0 ≡ true) × Given shares (give shares units).1 units
unfolding give
give-Given [] units h = (refl, tt)
give-Given (s ∷ shares) units (g, h) =
    let (done, rest) = give-Given shares units h in
    elim (Option-cases s.wallet) [
      | inl e ↦ absurd (g e)
      | inr (w, e) ↦
          let parts =
            part-Shared (λ u. tu_id_in_units u.id s.ids) (InList s.ids) units
              (λ u. tu_id_in_units_iff u.id s.ids) in
          rw (give, e) (done, ((with_units w _, _, refl, parts), rest))
    ]

-- Where some recipient has a list that is not empty and none is NULL, the split between several
-- recipients succeeds: the source keeps the units that are in some list and the remainder gets the
-- others, each unit once and in order; and each recipient gets the units of its own list, in order.
pub split_units_multi-Shared :
    (source remainder : Wallet) (shares : List Share)
    → any_sent shares ≡ true
    → All (λ s. s.wallet ≢ none) shares
    → ((split_units_multi source remainder shares).0 ≡ true)
      × Shared
          (InSome shares)
          (split_units_multi source remainder shares).1.token_units
          (split_units_multi source remainder shares).2.token_units
          source.token_units
      × Given shares (split_units_multi source remainder shares).3 source.token_units
unfolding split_units_multi
split_units_multi-Shared source remainder shares some_sent present =
    let (done, given) = give-Given shares source.token_units present in
    let parts =
      part-Shared (λ u. in_any u.id shares) (InSome shares) source.token_units
        (in_any_iff shares) in
    rw (some_sent, done) (refl, parts, given)
