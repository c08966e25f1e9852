-- ===== src/Pipeline/Atoms.antt =====
-- The three atoms of a transfer (`knishio_molecule_init_value` of src/molecule.c).
use knish_io_client_c.Builders.{meta_create, fresh_atom, set_wallet_bundle_meta}
use knish_io_client_c.Builders.Adding.{numbered_from}
use knish_io_client_c.Builders.Conserves.{debit, credit}
use knish_io_client_c.Builders.Exact.{CarryAll}
use knish_io_client_c.Builders.Made.{Usable, atom_create-fresh}
use knish_io_client_c.Builders.Transfer.{
  left_over, print_debit, source_atom, credit_atom, value_atoms,
}
use knish_io_client_c.Builders.Units.{
  Cjson, build_token_units_json, attach_token_units_meta, attach_unless_none, attach_json,
  single_meta,
}
use knish_io_client_c.Decimal.{print_int}
use knish_io_client_c.Errors.{Result, ok, err}
use knish_io_client_c.Isotope.{isotope_v}
use knish_io_client_c.Molecule.{Meta, Atom}
use knish_io_client_c.Molecule.Hash.{sort_atoms, insert_atom}
use knish_io_client_c.Pipeline.Plain.{AllPlain}
use knish_io_client_c.Signature.Fragments.{Unsigned}
use knish_io_client_c.Wallet.{TokenUnit, Wallet}
use knish_io_client_c.Prelude.{
  ℕ, ◌≡◌, refl, ap, ◌∙◌, Option, none, some, List, [], ◌∷◌, map, Bytes, codes, ℤ, pos,
}

-- An atom up to its metas.
abbrev core : Atom → Atom
core a = record a { meta = [] }

module _ (cjson : Cjson) where
  single_meta-core : (a : Atom) (m : Result Meta) → core (single_meta cjson a m) ≡ core a
  single_meta-core a (ok m) = refl
  single_meta-core a (err e) = refl

  attach_json-core : (a : Atom) (text : Option Bytes) → core (attach_json cjson a text) ≡ core a
  attach_json-core a none = refl
  attach_json-core a (some text) =
      single_meta-core a (meta_create (some (codes "tokenUnits")) (some text))

  attach_units-core :
      (a : Atom) (w : Wallet) (units : List TokenUnit)
      → core (attach_unless_none cjson a w units) ≡ core a
  attach_units-core a w [] = refl
  attach_units-core a w (u ∷ units) = attach_json-core a (build_token_units_json cjson w)

  pub attach-core : (a : Atom) (w : Wallet) → core (attach_token_units_meta cjson a w) ≡ core a
  unfolding attach_token_units_meta
  attach-core a w = attach_units-core a w w.token_units

  -- The atoms of a transfer.
  abbrev pub sent : ℤ → (w : Wallet) → Usable w → ℕ → Atom
  sent now w u n =
      attach_token_units_meta cjson
        (fresh_atom now u.position u.address isotope_v u.token (some (print_debit (pos n)))
          w.batch_id)
        w

  abbrev pub received : ℤ → (w : Wallet) → Usable w → ℤ → Atom
  received now w u z =
      attach_token_units_meta cjson
        (set_wallet_bundle_meta w.bundle_hash
          (fresh_atom now u.position u.address isotope_v u.token (some (print_int z)) w.batch_id))
        w

  source_atom-sent :
      (now : ℤ) (w : Wallet) (u : Usable w) (n : ℕ)
      → source_atom cjson now w w.batch_id (pos n) ≡ ok (sent now w u n)
  unfolding source_atom
  source_atom-sent now w u n =
      rw
        (
          u.has_token,
          atom_create-fresh now w u isotope_v (some (print_debit (pos n))) u.token w.batch_id,
        )
        refl

  credit_atom-received :
      (now : ℤ) (w : Wallet) (u : Usable w) (z : ℤ)
      → credit_atom cjson now w w.batch_id z ≡ ok (received now w u z)
  unfolding credit_atom
  credit_atom-received now w u z =
      rw (u.has_token, atom_create-fresh now w u isotope_v (some (print_int z)) u.token w.batch_id)
        refl

  -- Three atoms with the indexes 0, 1 and 2.
  abbrev pub transfer : ℤ → (s r k : Wallet) → Usable s → Usable r → Usable k → ℕ → ℤ → List Atom
  transfer now s r k us ur uk n amount =
      sent now s us n ∷ received now r ur amount ∷ received now k uk (left_over (pos n) amount) ∷ []

  pub value_atoms-transfer :
      (now : ℤ) (s r k : Wallet) (us : Usable s) (ur : Usable r) (uk : Usable k) (n : ℕ)
      (amount : ℤ)
      → value_atoms cjson now s r (some k) (pos n) amount
        ≡ map ok (transfer now s r k us ur uk n amount)
  value_atoms-transfer now s r k us ur uk n amount =
      rw
        (
          source_atom-sent now s us n,
          credit_atom-received now r ur amount,
          credit_atom-received now k uk (left_over (pos n) amount),
        )
        refl

  pub sort_atoms-transfer :
      (x y z : Atom)
      → sort_atoms (numbered_from 0 (x ∷ y ∷ z ∷ [])) ≡ numbered_from 0 (x ∷ y ∷ z ∷ [])
  unfolding sort_atoms insert_atom
  sort_atoms-transfer x y z = refl

  pub transfer-carries :
      (now : ℤ) (s r k : Wallet) (us : Usable s) (ur : Usable r) (uk : Usable k) (n : ℕ)
      (amount : ℤ)
      → CarryAll (numbered_from 0 (transfer now s r k us ur uk n amount)) (
          debit isotope_v n
          ∷ credit isotope_v amount
          ∷ credit isotope_v (left_over (pos n) amount)
          ∷ [])
  transfer-carries now s r k us ur uk n amount = (
    (ap (λ a. a.isotope) (attach-core _ s), ap (λ a. a.value) (attach-core _ s)),
    (
      (ap (λ a. a.isotope) (attach-core _ r), ap (λ a. a.value) (attach-core _ r)),
      ((ap (λ a. a.isotope) (attach-core _ k), ap (λ a. a.value) (attach-core _ k)), tt),
    ),
  )

  -- The three atoms move one token, without a batch.
  pub transfer-AllPlain :
      (now : ℤ) (s r k : Wallet) (us : Usable s) (ur : Usable r) (uk : Usable k) (n : ℕ)
      (amount : ℤ)
      → ur.token ≡ us.token
      → uk.token ≡ us.token
      → (s.batch_id ≡ none) × (r.batch_id ≡ none) × (k.batch_id ≡ none)
      → AllPlain us.token (numbered_from 0 (transfer now s r k us ur uk n amount))
  transfer-AllPlain now s r k us ur uk n amount tr tk (bs, br, bk) = (
    (
      ap (λ a. a.isotope) (attach-core _ s),
      ap (λ a. a.token) (attach-core _ s),
      ap (λ a. a.batch_id) (attach-core _ s) ∙ bs,
    ),
    (
      (
        ap (λ a. a.isotope) (attach-core _ r),
        ap (λ a. a.token) (attach-core _ r) ∙ ap some tr,
        ap (λ a. a.batch_id) (attach-core _ r) ∙ br,
      ),
      (
        (
          ap (λ a. a.isotope) (attach-core _ k),
          ap (λ a. a.token) (attach-core _ k) ∙ ap some tk,
          ap (λ a. a.batch_id) (attach-core _ k) ∙ bk,
        ),
        tt,
      ),
    ),
  )

  pub transfer-Unsigned :
      (now : ℤ) (s r k : Wallet) (us : Usable s) (ur : Usable r) (uk : Usable k) (n : ℕ)
      (amount : ℤ)
      → Unsigned (numbered_from 0 (transfer now s r k us ur uk n amount))
  transfer-Unsigned now s r k us ur uk n amount = (
    ap (λ a. a.ots_fragment) (attach-core _ s),
    (ap (λ a. a.ots_fragment) (attach-core _ r), (ap (λ a. a.ots_fragment) (attach-core _ k), tt)),
  )
