-- ===== src/Builders/Units.antt =====
-- Token units as JSON texts (src/molecule.c, with src/json/builder.c and src/json/parser.c). The
-- values of the cJSON library are a parameter.
use knish_io_client_c.Builders.{meta_create}
use knish_io_client_c.Errors.{memory, Result, ok, err}
use knish_io_client_c.Molecule.{Meta, Atom}
use knish_io_client_c.Wallet.{TokenUnit, Wallet}
use knish_io_client_c.Prelude.{Option, none, some, List, [], ◌∷◌, Bytes, codes, map}

-- What is used of cJSON: strings, arrays, the empty object, `cJSON_Parse` and
-- `cJSON_PrintUnformatted`.
pub record Cjson : Type 1 where
  pub Value : Type 0
  pub create_string : Bytes → Value
  pub create_array : List Value → Value
  pub empty_object : Value
  pub parse : Bytes → Option Value
  pub print_unformatted : Value → Bytes

-- `u->id ? u->id : ""`
abbrev pub text_or_empty : Option Bytes → Bytes
text_or_empty none = []
text_or_empty (some text) = text

module _ (cjson : Cjson) where
  -- `knishio_json_parse(metas_src, NULL)`, and again with "{}" if it fails; `metas_src` is "{}"
  -- where the unit has no metas.
  unfoldable pub parse_metas : Option Bytes → Option cjson.Value
  parse_metas none = cjson.parse (codes "{}")
  parse_metas (some []) = cjson.parse (codes "{}")
  parse_metas (some (c ∷ rest)) = elim (cjson.parse (c ∷ rest)) [
    | none ↦ cjson.parse (codes "{}")
    | some metas ↦ some metas
  ]

  -- `knishio_json_array_add` behind the items that the array has: the value is printed and read
  -- again.
  unfoldable pub json_array_add : Option cjson.Value → List cjson.Value
  json_array_add none = []
  json_array_add (some value) = elim (cjson.parse (cjson.print_unformatted value)) [
    | none ↦ []
    | some item ↦ item ∷ []
  ]

  -- The inner array of `build_token_units_json`.
  unfoldable pub unit_items : TokenUnit → cjson.Value
  unfolding parse_metas json_array_add
  unit_items u = cjson.create_array (
      cjson.create_string (text_or_empty u.id)
      ∷ cjson.create_string (text_or_empty u.name)
      ∷ json_array_add (parse_metas u.metas_json))

  -- `build_token_units_json`: the array is printed, read and printed again.
  unfoldable pub build_token_units_json : Wallet → Option Bytes
  unfolding unit_items
  build_token_units_json w =
      elim (cjson.parse
        (cjson.print_unformatted (cjson.create_array (map unit_items w.token_units)))) [
          | none ↦ none
          | some array ↦ some (cjson.print_unformatted array)
        ]

  -- The array of one meta: it is dropped again where the meta is refused.
  abbrev pub single_meta : Atom → Result Meta → Atom
  single_meta a (ok m) = record a { meta = some m ∷ [] }
  single_meta a (err e) = record a { meta = [] }

  abbrev pub attach_json : Atom → Option Bytes → Atom
  attach_json a none = a
  attach_json a (some text) = single_meta a (meta_create (some (codes "tokenUnits")) (some text))

  abbrev pub attach_unless_none : Atom → Wallet → List TokenUnit → Atom
  attach_unless_none a w [] = a
  attach_unless_none a w (u ∷ units) = attach_json a (build_token_units_json w)

  -- `attach_token_units_meta`
  unfoldable pub attach_token_units_meta : Atom → Wallet → Atom
  unfolding build_token_units_json meta_create
  attach_token_units_meta a w = attach_unless_none a w w.token_units

  -- `(u->metas_json && u->metas_json[0]) ? cJSON_Parse(u->metas_json) : NULL`
  abbrev parse_filled : Option Bytes → Option cjson.Value
  parse_filled none = none
  parse_filled (some []) = none
  parse_filled (some (c ∷ rest)) = cjson.parse (c ∷ rest)

  abbrev value_or_empty : Option cjson.Value → cjson.Value
  value_or_empty none = cjson.empty_object
  value_or_empty (some value) = value

  -- `token_unit_triple`
  unfoldable pub token_unit_triple : TokenUnit → cjson.Value
  token_unit_triple u = cjson.create_array (
      cjson.create_string (text_or_empty u.id)
      ∷ cjson.create_string (text_or_empty u.name)
      ∷ value_or_empty (parse_filled u.metas_json)
      ∷ [])

  -- `token_units_to_json`
  unfoldable pub token_units_to_json : List TokenUnit → Bytes
  unfolding token_unit_triple
  token_units_to_json units =
      cjson.print_unformatted (cjson.create_array (map token_unit_triple units))

-- A pair that is refused ends `set_atom_meta_pairs`.
abbrev and_meta : Result Meta → Result (List Meta) → Result (List Meta)
and_meta (err e) rest = err memory
and_meta (ok m) (err e) = err e
and_meta (ok m) (ok metas) = ok (m ∷ metas)

-- The loop of `set_atom_meta_pairs`.
unfoldable pub meta_pairs : List (Bytes × Option Bytes) → Result (List Meta)
unfolding meta_create
meta_pairs [] = ok []
meta_pairs ((key, none) ∷ pairs) = meta_pairs pairs
meta_pairs ((key, some []) ∷ pairs) = meta_pairs pairs
meta_pairs ((key, some (c ∷ rest)) ∷ pairs) =
    and_meta (meta_create (some key) (some (c ∷ rest))) (meta_pairs pairs)

-- `set_atom_meta_pairs`
unfoldable pub set_atom_meta_pairs : List (Bytes × Option Bytes) → Atom → Result Atom
unfolding meta_pairs
set_atom_meta_pairs pairs a = elim (meta_pairs pairs) [
  | err e ↦ err e
  | ok metas ↦ ok (record a { meta = map some metas })
]
