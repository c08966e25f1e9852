-- ===== src/Molecule/Hash.antt =====
-- The molecular hash: `knishio_molecule_generate_hash` of src/molecule.c, with the Version4 view
-- of src/atom.c. `print_unformatted` is `cJSON_PrintUnformatted`, of the cJSON library. Memory
-- suffices. The outer `Option` is `none` where a loop of the conversion to base 17 has not ended.
use knish_io_client_c.Base17.{hex_to_base17, pad_left}
use knish_io_client_c.Decimal.{print_nat, print_int}
use knish_io_client_c.Errors.{ErrorCode, success, crypto, atoms_missing}
use knish_io_client_c.Hex.{binary_to_hex}
use knish_io_client_c.Isotope.{isotope_to_string}
use knish_io_client_c.Molecule.{Meta, Atom, Molecule, atom_count}
use knish_io_client_c.Shake256.{init, final, squeeze}
use knish_io_client_c.Shake256.Stream.{update_all}
use knish_io_client_c.Prelude.{
  ℕ, zero, suc, ◌*◌, ◌==◌, Bool, true, false, Option, none, some, List, [], ◌∷◌, ◌++◌,
  if◌then◌else◌, ◌>>=◌, Bytes, codes, length, ℤ, pos, negsuc, ltb_ℤ, map, concat,
}

-- `knishio_atom_created_at_ms`: the milliseconds if they are given, else the seconds.
unfoldable pub created_at_text : Atom → Bytes
created_at_text a = elim (ltb_ℤ (pos 0) a.created_at_ms) [
  | true ↦ print_int a.created_at_ms
  | false ↦ elim a.created_at [
    | pos n ↦ print_int (pos (n * 1000))
    | negsuc n ↦ elim (suc n * 1000) [ zero ↦ print_int (pos 0) | suc k ↦ print_int (negsuc k) ]
  ]
]

-- `qsort` with `compare_atoms_by_index`. C promises no order among atoms of one index: this
-- sort keeps theirs.
unfoldable pub insert_atom : Atom → List Atom → List Atom
insert_atom a [] = a ∷ []
insert_atom a (b ∷ atoms) = if ltb_ℤ b.index a.index then b ∷ insert_atom a atoms else a ∷ b ∷ atoms

unfoldable pub sort_atoms : List Atom → List Atom
sort_atoms [] = []
sort_atoms (a ∷ atoms) = insert_atom a (sort_atoms atoms)

abbrev pub given : Option Bytes → List Bytes
given none = []
given (some text) = text ∷ []

-- A pair is hashed where both parts are there.
abbrev pub meta_values : List (Option Meta) → List Bytes
meta_values [] = []
meta_values (none ∷ meta) = meta_values meta
meta_values (some m ∷ meta) = elim m.key [
  | none ↦ meta_values meta
  | some k ↦ elim m.value [ none ↦ meta_values meta | some v ↦ k ∷ v ∷ meta_values meta ]
]

-- The texts with which `update_sponge_with_atom` updates the context, in order.
unfoldable pub hashable_values : Bytes → Atom → List Bytes
hashable_values count a =
    count
    ∷ (given a.position
        ++ (given a.wallet_address
            ++ (given (isotope_to_string a.isotope)
                ++ (given a.token
                    ++ (given a.value
                        ++ (given a.batch_id
                            ++ (given a.meta_type
                                ++ (given a.meta_id
                                    ++ (meta_values a.meta ++ created_at_text a ∷ [])))))))))

-- The JSON values of the view: its objects have one key.
mutual
  pub data Json : Type 0 where
    json_null : Json
    json_string : Bytes → Json
    json_number : ℕ → Json
    json_object : Bytes → Json → Json
    json_array : Items → Json

  pub data Items : Type 0 where
    nil : Items
    cons : Json → Items → Items

abbrev pub string_or_null : Option Bytes → Json
string_or_null none = json_null
string_or_null (some text) = json_string text

-- `add_view_field`, at the front of the fields that follow.
abbrev field : Bytes → Json → Items → Items
field key value rest = cons (json_object key value) rest

abbrev meta_items : List (Option Meta) → Items
meta_items [] = nil
meta_items (none ∷ meta) = meta_items meta
meta_items (some m ∷ meta) =
    cons
      (json_array (
        field (codes "key") (string_or_null m.key)
          (field (codes "value") (string_or_null m.value) nil)))
      (meta_items meta)

abbrev index_json : ℤ → Json
index_json (pos n) = json_number n
index_json (negsuc n) = json_null

unfoldable pub atom_version4_view : Atom → Json
atom_version4_view a = json_array (
    field (codes "batchId") (string_or_null a.batch_id) (
      field (codes "createdAt") (json_string (created_at_text a)) (
        field (codes "index") (index_json a.index) (
          field (codes "isotope") (string_or_null (isotope_to_string a.isotope)) (
            field (codes "meta") (json_array (meta_items a.meta)) (
              field (codes "metaId") (string_or_null a.meta_id) (
                field (codes "metaType") (string_or_null a.meta_type) (
                  field (codes "position") (string_or_null a.position) (
                    field (codes "token") (string_or_null a.token) (
                      field (codes "value") (string_or_null a.value) (
                        field (codes "version") (string_or_null a.version) (
                          field (codes "walletAddress") (string_or_null a.wallet_address)
                            nil))))))))))))

abbrev pub view_items : List Atom → Items
view_items [] = nil
view_items (a ∷ atoms) = cons (atom_version4_view a) (view_items atoms)

-- Whether every atom carries a version.
unfoldable pub every_atom_versioned : List Atom → Bool
every_atom_versioned [] = true
every_atom_versioned (a ∷ atoms) = elim a.version [
  | none ↦ false
  | some text ↦ every_atom_versioned atoms
]

module _ (print_unformatted : Json → Bytes) where
  -- The texts that the sponge absorbs, for atoms in order.
  unfoldable pub absorbed_values : List Atom → List Bytes
  unfolding hashable_values
  absorbed_values atoms =
      if every_atom_versioned atoms
      then print_unformatted (json_array (view_items (sort_atoms atoms))) ∷ []
      else concat (map (hashable_values (print_nat (length atoms))) atoms)

  -- From the texts to 64 hexadecimal characters.
  unfoldable pub hash_hex : List Atom → Option Bytes
  hash_hex atoms = do
    absorbed ← update_all init (absorbed_values atoms)
    c ← final absorbed
    out ← squeeze c 32
    some (binary_to_hex out.0)

  -- `knishio_molecule_generate_hash`
  unfoldable pub generate_hash : Molecule → Option (Molecule × ErrorCode)
  generate_hash m = elim (atom_count m == 0) [
    | true ↦ some (m, atoms_missing)
    | false ↦ elim (hash_hex (sort_atoms m.atoms)) [
      | none ↦ some (m, crypto)
      | some hex ↦ elim (hex_to_base17 hex) [
        | none ↦ none
        | some none ↦ some (m, crypto)
        | some (some text) ↦ some (record m { molecular_hash = some (pad_left text) }, success)
      ]
    ]
  ]
