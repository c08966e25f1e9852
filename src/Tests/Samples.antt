-- ===== src/Tests/Samples.antt =====
-- Inputs that the tests share.
use knish_io_client_c.Check.Value.{Strtold, Floats}
use knish_io_client_c.Hex.{IsByte}
use knish_io_client_c.Isotope.{Isotope, isotope_v, isotope_b, isotope_i}
use knish_io_client_c.Molecule.{Atom, Molecule, status_unknown}
use knish_io_client_c.Molecule.Hash.{Json, json_string}
use knish_io_client_c.Prelude.{
  ℕ, zero, suc, ◌+◌, ◌-◌, ◌*◌, false, ◌&&◌, none, some, List, [], ◌∷◌, Bytes, codes, leb, ◌==◌,
  if◌then◌else◌, ℤ, pos, pos_part, neg_part, ◌+ℤ◌, ◌-ℤ◌, sub_ℕ, ltb_ℤ, All, replicate, arith,
}

-- A hash with each character of the alphabet.
abbrev pub sample_hash : Bytes
sample_hash = codes "0123456789abcdefg0123456789abcdefg0123456789abcdefg0123456789abc"

-- An atom of an isotope with a value, and a molecule of some atoms.
abbrev pub sample_atom : Isotope → Bytes → ℤ → Atom
sample_atom isotope value index = record {
  position = some (codes "01");
  wallet_address = some (codes "ab");
  isotope = isotope;
  token = some (codes "USER");
  value = some value;
  batch_id = none;
  meta_type = some (codes "walletBundle");
  meta_id = some (codes "0");
  meta = [];
  ots_fragment = none;
  index = index;
  version = none;
  created_at = pos 1;
  is_validated = false;
  created_at_ms = pos 0;
}

abbrev pub sample_molecule : List Atom → Molecule
sample_molecule atoms = record {
  secret = some (codes "ab");
  bundle = some (codes "cd");
  molecular_hash = some sample_hash;
  cell_slug = none;
  cell_slug_origin = none;
  version = none;
  created_at = pos 0;
  status = status_unknown;
  source_wallet = none;
  remainder_wallet = none;
  atoms = atoms;
  atom_capacity = 8;
  is_signed = false;
  is_verified = false;
}

-- A transfer into a buffer, with its ContinuID atom.
abbrev pub buffered : Molecule
buffered = sample_molecule (
    sample_atom isotope_v (codes "-5") (pos 0)
    ∷ sample_atom isotope_b (codes "5") (pos 1)
    ∷ sample_atom isotope_i [] (pos 2)
    ∷ [])

-- A stand-in for the printer of cJSON, which shows strings only.
abbrev pub print_sample : Json → Bytes
print_sample (json_string text) = text
print_sample _ = codes "null"

-- Decimal numbers without a fraction, in billionths.
abbrev sample_digits : ℕ → ℕ → Bytes → ℕ × ℕ
sample_digits value count [] = (value, count)
sample_digits value count (c ∷ rest) =
    let more = sample_digits (value * 10 + (c - b'0')) (count + 1) rest in
    if leb b'0' c && leb c b'9' then more else (value, count)

abbrev read_number : Bytes → Strtold ℤ
read_number [] = record { number = pos 0; consumed = 0; out_of_range = false }
read_number (c ∷ rest) =
    let plain = sample_digits 0 0 (c ∷ rest) in
    let signed = sample_digits 0 0 rest in
    if c == b'-'
    then record {
      number = sub_ℕ 0 (signed.0 * 1000000000);
      consumed = signed.1 + 1;
      out_of_range = false;
    }
    else record { number = pos (plain.0 * 1000000000); consumed = plain.1; out_of_range = false }

abbrev absolute : ℤ → ℤ
absolute x = pos (pos_part x + neg_part x)

-- Fixed-point numbers in the place of floating-point ones.
abbrev pub fixed_point : Floats
fixed_point = record {
  Double = ℤ;
  double_zero = pos 0;
  hundredth = pos 10000000;
  plus = λ x y. x +ℤ y;
  minus = λ x y. x -ℤ y;
  fabs = absolute;
  is_below = ltb_ℤ;
  atof = λ text. (read_number text).number;
  LongDouble = ℤ;
  long_zero = pos 0;
  billionth = pos 1;
  plus_long = λ x y. x +ℤ y;
  fabsl = absolute;
  is_below_long = ltb_ℤ;
  strtold = read_number;
}

pub bytes_255 : (n : ℕ) → All IsByte (replicate n 255)
bytes_255 zero = tt
bytes_255 (suc n) = (omega arith, bytes_255 n)
