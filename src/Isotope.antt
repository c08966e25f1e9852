-- ===== src/Isotope.antt =====
-- Isotopes and their one-letter names (include/knishio/atom.h, src/atom.c).
use knish_io_client_c.Prelude.{
  Bytes, codes, str_eq, str_eq_iff, Option, none, some, ◌≡◌, refl, sym, ◌≢◌, ◌↔◌, Bool, true, false,
  if◌then◌else◌, arith,
}

-- `knishio_isotope_t`
pub data Isotope : Type 0 where
  isotope_unknown isotope_v isotope_c isotope_m isotope_u isotope_i isotope_r : Isotope
  isotope_t isotope_l isotope_s isotope_f isotope_b : Isotope

-- `knishio_isotope_to_string`: the table, whose first entry is NULL.
unfoldable pub isotope_to_string : Isotope → Option Bytes
isotope_to_string isotope_unknown = none
isotope_to_string isotope_v = some (codes "V")
isotope_to_string isotope_c = some (codes "C")
isotope_to_string isotope_m = some (codes "M")
isotope_to_string isotope_u = some (codes "U")
isotope_to_string isotope_i = some (codes "I")
isotope_to_string isotope_r = some (codes "R")
isotope_to_string isotope_t = some (codes "T")
isotope_to_string isotope_l = some (codes "L")
isotope_to_string isotope_s = some (codes "S")
isotope_to_string isotope_f = some (codes "F")
isotope_to_string isotope_b = some (codes "B")

-- `knishio_isotope_from_string`: the search through the table from index 1.
unfoldable pub isotope_from_string : Option Bytes → Isotope
isotope_from_string none = isotope_unknown
isotope_from_string (some text) =
    if str_eq text (codes "V")
    then isotope_v
    else if str_eq text (codes "C")
    then isotope_c
    else if str_eq text (codes "M")
    then isotope_m
    else if str_eq text (codes "U")
    then isotope_u
    else if str_eq text (codes "I")
    then isotope_i
    else if str_eq text (codes "R")
    then isotope_r
    else if str_eq text (codes "T")
    then isotope_t
    else if str_eq text (codes "L")
    then isotope_l
    else if str_eq text (codes "S")
    then isotope_s
    else if str_eq text (codes "F")
    then isotope_f
    else if str_eq text (codes "B")
    then isotope_b
    else isotope_unknown

-- `a == b` of two isotopes, by their place in the enumeration.
unfoldable pub isotope_eq : Isotope → Isotope → Bool
isotope_eq isotope_unknown isotope_unknown = true
isotope_eq isotope_v isotope_v = true
isotope_eq isotope_c isotope_c = true
isotope_eq isotope_m isotope_m = true
isotope_eq isotope_u isotope_u = true
isotope_eq isotope_i isotope_i = true
isotope_eq isotope_r isotope_r = true
isotope_eq isotope_t isotope_t = true
isotope_eq isotope_l isotope_l = true
isotope_eq isotope_s isotope_s = true
isotope_eq isotope_f isotope_f = true
isotope_eq isotope_b isotope_b = true
isotope_eq _ _ = false

pub isotope_eq_iff : (a b : Isotope) → (isotope_eq a b ≡ true) ↔ (a ≡ b)
unfolding isotope_eq
isotope_eq_iff a b = ground arith

round_trip : (i : Isotope) → isotope_from_string (isotope_to_string i) ≡ i
unfolding isotope_from_string isotope_to_string str_eq
round_trip isotope_unknown = refl
round_trip _ = refl

name_of :
    (text : Option Bytes) (i : Isotope)
    → i ≢ isotope_unknown
    → isotope_from_string text ≡ i
    → isotope_to_string i ≡ text
unfolding isotope_from_string isotope_to_string
name_of none i known e = absurd (known (sym e))
name_of (some text) i known e = ground (
  arith,
  str_eq_iff text (codes "V"),
  str_eq_iff text (codes "C"),
  str_eq_iff text (codes "M"),
  str_eq_iff text (codes "U"),
  str_eq_iff text (codes "I"),
  str_eq_iff text (codes "R"),
  str_eq_iff text (codes "T"),
  str_eq_iff text (codes "L"),
  str_eq_iff text (codes "S"),
  str_eq_iff text (codes "F"),
  str_eq_iff text (codes "B"),
)

-- A name is read back to its isotope, the missing name of `isotope_unknown` too; and a text that
-- is read as a known isotope is the name of that isotope.
pub isotope_from_string-isotope_to_string :
    (i : Isotope) (text : Option Bytes)
    → (isotope_from_string (isotope_to_string i) ≡ i)
      × (i ≢ isotope_unknown → isotope_from_string text ≡ i → isotope_to_string i ≡ text)
isotope_from_string-isotope_to_string i text = (round_trip i, λ known e. name_of text i known e)
