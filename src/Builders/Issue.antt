-- ===== src/Builders/Issue.antt =====
-- The molecules that replenish a token and that fuse token units (src/molecule.c).
use knish_io_client_c.Builders.{
  System, atom_create, set_wallet_bundle_meta, and_then, add_created, add_all, add_continuid_atom,
}
use knish_io_client_c.Builders.Units.{
  Cjson, text_or_empty, token_units_to_json, set_atom_meta_pairs,
}
use knish_io_client_c.Builders.Transfer.{print_debit, left_over, zero_bundle}
use knish_io_client_c.Decimal.{print_nat, print_int}
use knish_io_client_c.Errors.{
  ErrorCode, invalid_args, invalid_state, negative_amount, crypto, transfer_balance,
  balance_insufficient, stackable_unit_amount, Result, ok, ◌>>=◌,
}
use knish_io_client_c.Isotope.{Isotope, isotope_v, isotope_c, isotope_f}
use knish_io_client_c.Molecule.{Atom, Molecule}
use knish_io_client_c.Wallet.{TokenUnit, Wallet}
use knish_io_client_c.Prelude.{
  ℕ, suc, ◌-◌, Bool, true, false, not, ◌&&◌, ◌||◌, Option, none, some, List, [], ◌∷◌, ◌++◌, ltb,
  ◌==◌, if◌then◌else◌, Bytes, codes, str_eq, length, take, get_elem?, ℤ, pos, negsuc, ltb_ℤ,
}

-- The conditions on the amount and the number of units.
abbrev pub restates : ℕ → ℤ → Bool
restates count (pos n) = n == 0 || n == count
restates count (negsuc n) = false

abbrev label_token : Option Bytes → Result Atom → Result Atom
label_token token created =
    created >>= (λ a. ok (record a { meta_type = some (codes "token"); meta_id = token }))

-- The result of a search, one entry further.
abbrev pub next_found : Option ℕ → Option ℕ
next_found none = none
next_found (some i) = some (suc i)

abbrev pub has_id : TokenUnit → Bytes → Bool
has_id u id = elim u.id [ none ↦ false | some own ↦ str_eq own id ]

-- The loop of `find_token_unit`: the place of the first unit with that identifier.
unfoldable pub find_loop : List TokenUnit → Bytes → Option ℕ
find_loop [] id = none
find_loop (u ∷ units) id =
    let rest = find_loop units id in if has_id u id then some 0 else next_found rest

-- `find_token_unit`; the pointer to a unit is its place in the array.
unfoldable pub find_token_unit : Wallet → Option Bytes → Option ℕ
unfolding find_loop
find_token_unit w none = none
find_token_unit w (some id) = find_loop w.token_units id

-- The places of the fused units, in the caller's order; `none` if one is not found.
unfoldable pub find_all : Wallet → List (Option Bytes) → Option (List ℕ)
unfolding find_token_unit
find_all w [] = some []
find_all w (id ∷ ids) = elim (find_token_unit w id) [
  | none ↦ none
  | some i ↦ elim (find_all w ids) [ none ↦ none | some rest ↦ some (i ∷ rest) ]
]

-- The tests of `knishio_molecule_fusion_error` on the identifier of the new unit.
abbrev pub new_unit_error : Wallet → Option Bytes → Option Bytes
new_unit_error w none = some (codes "Token fusion requires a new token unit id")
new_unit_error w (some []) = some (codes "Token fusion requires a new token unit id")
new_unit_error w (some (c ∷ rest)) = elim (find_token_unit w (some (c ∷ rest))) [
  | none ↦ none
  | some i ↦ some (codes "Token fusion unit id already exists in the source wallet")
]

abbrev pub not_found : Bytes
not_found = codes "Token fusion unit not found in the source wallet"

-- `knishio_molecule_fusion_error`
unfoldable pub fusion_error : Option Wallet → List (Option Bytes) → Option Bytes → Option Bytes
unfolding find_all find_token_unit
fusion_error source ids new_id =
    if ltb (length ids) 2
    then some (codes "Token fusion requires at least two token units")
    else elim source [
      | none ↦ some not_found
      | some w ↦ elim (find_all w ids) [
        | none ↦ some not_found
        | some places ↦ new_unit_error w new_id
      ]
    ]

-- `fused[j] == &source->token_units[i]` for some j.
unfoldable pub is_fused : List ℕ → ℕ → Bool
is_fused [] i = false
is_fused (j ∷ places) i = j == i || is_fused places i

-- The loop that parts the units, the first of which is at `i`: the sent and the kept.
unfoldable pub part_units : List ℕ → ℕ → List TokenUnit → List TokenUnit × List TokenUnit
unfolding is_fused
part_units places i [] = ([], [])
part_units places i (u ∷ units) =
    let (sent, kept) = part_units places (suc i) units in
    if is_fused places i then (u ∷ sent, kept) else (sent, u ∷ kept)

-- The units at the places.
unfoldable pub units_at : List TokenUnit → List ℕ → List TokenUnit
units_at units [] = []
units_at units (i ∷ places) = elim (get_elem? units i) [
  | none ↦ units_at units places
  | some u ↦ u ∷ units_at units places
]

-- `source->batch_id && source->batch_id[0]`
abbrev pub bears_batch : Option Bytes → Bool
bears_batch none = false
bears_batch (some []) = false
bears_batch (some (c ∷ rest)) = true

-- The fresh batch identifiers of a fusion: none at all without a batch; `none` is a failure of
-- `knishio_generate_position`.
abbrev pub fresh_batches : Bool → Option Bytes → Option Bytes → Option (Option Bytes × Option Bytes)
fresh_batches false burn fusion = some (none, none)
fresh_batches true none fusion = none
fresh_batches true (some burn) none = none
fresh_batches true (some burn) (some fusion) = some (some burn, some fusion)

abbrev pub maybe_bundle : Option Bytes → Atom → Atom
maybe_bundle none a = a
maybe_bundle (some bundle) a = set_wallet_bundle_meta (some bundle) a

-- The atom of `add_bundle_atom`.
unfoldable pub bundle_atom :
    (now : ℤ) (isotope : Isotope) (position address token : Option Bytes) (value : Bytes)
    (batch_id meta_id units_json : Option Bytes)
    → Result Atom
unfolding atom_create set_atom_meta_pairs
bundle_atom now isotope position address token value batch_id meta_id units_json =
    atom_create now position address isotope token (some value) batch_id
    >>= (λ a. set_atom_meta_pairs ((codes "tokenUnits", units_json) ∷ []) (maybe_bundle meta_id a))

module _ (cjson : Cjson) where
  abbrev units_json : List TokenUnit → Option Bytes
  units_json [] = none
  units_json (u ∷ units) = some (token_units_to_json cjson (u ∷ units))

  -- The C atom of `knishio_molecule_init_replenish`.
  unfoldable pub replenish_atom : ℤ → Wallet → Wallet → ℤ → List TokenUnit → Result Atom
  unfolding atom_create token_units_to_json set_atom_meta_pairs print_nat print_int
  replenish_atom now source credited amount units =
      let value = if length units == 0 then print_int amount else print_nat (length units) in
      label_token credited.token (
        atom_create now source.position source.address isotope_c source.token (some value)
          credited.batch_id)
      >>= set_atom_meta_pairs (
          (codes "action", some (codes "add"))
          ∷ (codes "address", credited.address)
          ∷ (codes "position", credited.position)
          ∷ (codes "pubkey", credited.pubkey)
          ∷ (codes "batchId", credited.batch_id)
          ∷ (codes "tokenUnits", units_json units)
          ∷ [])

  -- Behind the tests on NULL.
  unfoldable pub add_replenish :
      System → Molecule → Wallet → Wallet → ℤ → List TokenUnit → Molecule × ErrorCode
  unfolding add_created add_continuid_atom replenish_atom
  add_replenish system m source credited amount units =
      if not (length units == 0) && not (restates (length units) amount)
      then (m, stackable_unit_amount)
      else if length units == 0 && not (ltb_ℤ (pos 0) amount)
      then (m, negative_amount)
      else and_then (add_created system m (replenish_atom system.now source credited amount units))
          (add_continuid_atom system)

  -- `knishio_molecule_init_replenish`; the array of units is not NULL.
  unfoldable pub init_replenish :
      System → Molecule → Option Wallet → ℤ → List TokenUnit → Molecule × ErrorCode
  unfolding add_replenish
  init_replenish system m none amount units = (m, invalid_args)
  init_replenish system m (some credited) amount units = elim credited.token [
    | none ↦ (m, invalid_args)
    | some token ↦ elim m.source_wallet [
      | none ↦ (m, invalid_state)
      | some source ↦ elim m.remainder_wallet [
        | none ↦ (m, invalid_state)
        | some remainder ↦ add_replenish system m source credited amount units
      ]
    ]
  ]

  -- The JSON text of the new unit, which is made of the fused units.
  unfoldable pub fused_json : Bytes → List TokenUnit → Bytes
  unfolding token_units_to_json
  fused_json new_id fused = token_units_to_json cjson (
      record {
        id = some new_id;
        name = some new_id;
        metas_json = some (
            b'{' ∷ b'"' ∷ codes "fusedTokenUnits"
            ++ b'"' ∷ b':' ∷ token_units_to_json cjson fused
            ++ b'}' ∷ []);
        token_slug = none;
        batch_id = none;
        created_at = none;
        is_shadow = false;
      }
      ∷ [])

  -- The four atoms of a fusion.
  unfoldable pub fusion_atoms :
      (now : ℤ) (source remainder recipient : Wallet) (balance : ℤ) (places : List ℕ)
      (new_id : Bytes) (burn_batch fusion_batch : Option Bytes)
      → List (Result Atom)
  unfolding bundle_atom part_units units_at token_units_to_json fused_json print_nat print_int
  fusion_atoms now source remainder recipient balance places new_id burn_batch fusion_batch =
      let (sent, kept) = part_units places 0 source.token_units in
      let fused = units_at source.token_units places in
      let count = length places in
      bundle_atom now isotope_v source.position source.address source.token (print_debit balance)
        source.batch_id none (some (token_units_to_json cjson sent))
      ∷ bundle_atom now isotope_v (some []) (some []) source.token (print_nat (count - 1))
          burn_batch (some zero_bundle) (some (token_units_to_json cjson (take (count - 1) fused)))
      ∷ bundle_atom now isotope_f (some (text_or_empty recipient.position))
          (some (text_or_empty recipient.address)) source.token (codes "1") fusion_batch
          recipient.bundle_hash (some (fused_json new_id fused))
      ∷ bundle_atom now isotope_v remainder.position remainder.address source.token
          (print_int (left_over balance (pos count))) source.batch_id remainder.bundle_hash
          (units_json kept)
      ∷ []

  -- Behind the tests on the identifiers.
  unfoldable pub add_fusion :
      System
      → Molecule
      → Wallet
      → Wallet
      → Wallet
      → ℤ
      → List ℕ
      → Bytes
      → Option (Option Bytes × Option Bytes)
      → Molecule × ErrorCode
  unfolding add_all fusion_atoms
  add_fusion system m source remainder recipient balance places new_id none = (m, crypto)
  add_fusion system m source remainder recipient balance places new_id (some (burn, fusion)) =
      add_all system m
        (fusion_atoms system.now source remainder recipient balance places new_id burn fusion)

  -- Behind the tests on NULL; `random` is what two calls of `knishio_generate_position` give.
  unfoldable pub fuse :
      System
      → Molecule
      → Wallet
      → Wallet
      → Wallet
      → ℤ
      → List (Option Bytes)
      → Option Bytes
      → Option Bytes × Option Bytes
      → Molecule × ErrorCode
  unfolding fusion_error find_all add_fusion
  fuse system m source remainder recipient balance ids new_id random =
      elim (fusion_error (some source) ids new_id) [
        | some text ↦ (m, transfer_balance)
        | none ↦
            if ltb_ℤ balance (pos (length ids))
            then (m, balance_insufficient)
            else elim (find_all source ids) [
              | none ↦ (m, transfer_balance)
              | some places ↦
                  add_fusion system m source remainder recipient balance places
                    (text_or_empty new_id)
                    (fresh_batches (bears_batch source.batch_id) random.0 random.1)
            ]
      ]

  -- `knishio_molecule_init_fuse_token`; the balance is `(int)source->balance`.
  unfoldable pub init_fuse_token :
      System
      → Molecule
      → Option Wallet
      → ℤ
      → List (Option Bytes)
      → Option Bytes
      → Option Bytes × Option Bytes
      → Molecule × ErrorCode
  unfolding fuse
  init_fuse_token system m none balance ids new_id random = (m, invalid_args)
  init_fuse_token system m (some recipient) balance ids new_id random = elim recipient.bundle_hash [
    | none ↦ (m, invalid_args)
    | some bundle ↦ elim m.source_wallet [
      | none ↦ (m, invalid_state)
      | some source ↦ elim m.remainder_wallet [
        | none ↦ (m, invalid_state)
        | some remainder ↦ fuse system m source remainder recipient balance ids new_id random
      ]
    ]
  ]
