-- ===== src/Dates.antt =====
-- The reader of served dates (src/libraries/served_molecule.c): RFC 3339 texts and the days of the
-- Gregorian calendar.
pub mod Days
pub mod Moments
pub mod Written
use knish_io_client_c.Prelude.{
  ℕ, zero, suc, ◌+◌, ◌-◌, ◌*◌, ◌/◌, ◌%◌, Bool, true, false, not, ◌&&◌, ◌||◌, Option, none, some,
  List, [], ◌∷◌, Bytes, length, get_or, take, drop, ltb, leb, ◌==◌, if◌then◌else◌, ℤ, pos, negsuc,
  pos_part, sub_ℕ, ◌+ℤ◌, ◌-ℤ◌, ◌>>=◌,
}

-- `n * z`
abbrev pub scale : ℕ → ℤ → ℤ
scale n (pos k) = pos (n * k)
scale n (negsuc k) = sub_ℕ 0 (n * suc k)

-- `(y >= 0 ? y : y - 399) / 400`; the division of C cuts off towards zero.
abbrev pub era_of : ℤ → ℤ
era_of (pos y) = pos (y / 400)
era_of (negsuc k) = sub_ℕ 0 ((suc k + 399) / 400)

-- `days_from_civil`
unfoldable pub days_from_civil : ℤ → ℕ → ℕ → ℤ
days_from_civil y m d =
    let y' = y -ℤ pos (if leb m 2 then 1 else 0) in
    let era = era_of y' in
    let yoe = pos_part (y' -ℤ scale 400 era) in
    let doy = (153 * (if ltb 2 m then m - 3 else m + 9) + 2) / 5 + d - 1 in
    let doe = yoe * 365 + yoe / 4 - yoe / 100 + doy in scale 146097 era +ℤ pos doe -ℤ pos 719468

abbrev pub is_decimal : ℕ → Bool
is_decimal c = not (ltb c b'0') && not (ltb b'9' c)

-- The loop of `read_digits`.
unfoldable pub read_loop : Bytes → ℕ → ℕ → Option ℕ
read_loop s zero v = some v
read_loop [] (suc n) v = none
read_loop (c ∷ s) (suc n) v = if is_decimal c then read_loop s n (v * 10 + (c - b'0')) else none

-- `read_digits`; the terminating zero is no digit.
unfoldable pub read_digits : Bytes → ℕ → Option ℕ
unfolding read_loop
read_digits s n = read_loop s n 0

-- `(year % 4 == 0 && year % 100 != 0) || year % 400 == 0`
abbrev pub is_leap : ℕ → Bool
is_leap year = year % 4 == 0 && not (year % 100 == 0) || year % 400 == 0

abbrev pub month_days : List ℕ
month_days = 31 ∷ 29 ∷ 31 ∷ 30 ∷ 31 ∷ 30 ∷ 31 ∷ 31 ∷ 30 ∷ 31 ∷ 30 ∷ 31 ∷ []

-- The tests on the fields of the date.
unfoldable pub is_date : ℕ → ℕ → ℕ → Bool
is_date year month day =
    not (ltb month 1 || ltb 12 month || ltb day 1 || ltb (get_or month_days (month - 1) 0) day)
    && not (month == 2 && day == 29 && not (is_leap year))

abbrev char_at : Bytes → ℕ → ℕ
char_at s i = get_or s i 0

-- The length, and the marks between the fields.
unfoldable pub has_marks : Bytes → Bool
has_marks s =
    not (ltb (length s) 20)
    && (char_at s 4 == b'-'
        && (char_at s 7 == b'-'
            && (char_at s 10 == b'T' && (char_at s 13 == b':' && char_at s 16 == b':'))))

-- The digits of a fraction, of which the first three count: the number of all digits, the value and
-- what follows.
unfoldable pub fraction_loop : Bytes → ℕ → ℕ → ℕ × ℕ × Bytes
fraction_loop [] digits v = (digits, v, [])
fraction_loop (c ∷ s) digits v =
    let more = fraction_loop s (suc digits) (if ltb digits 3 then v * 10 + (c - b'0') else v) in
    if is_decimal c then more else (digits, v, c ∷ s)

-- `for (size_t digits = pos - start; digits < 3; digits++) fraction_ms *= 10`
abbrev pub padded_to_three : ℕ → ℕ → ℕ
padded_to_three zero v = v * 1000
padded_to_three (suc zero) v = v * 100
padded_to_three (suc (suc zero)) v = v * 10
padded_to_three (suc (suc (suc n))) v = v

-- Where a fraction has digits, its milliseconds, and what follows.
abbrev pub whole_fraction : ℕ × ℕ × Bytes → Option (ℕ × Bytes)
whole_fraction (zero, v, rest) = none
whole_fraction (suc n, v, rest) = some (padded_to_three (suc n) v, rest)

-- The text behind the seconds: the milliseconds of its fraction, and what follows.
unfoldable pub read_fraction : Bytes → Option (ℕ × Bytes)
unfolding fraction_loop
read_fraction [] = some (0, [])
read_fraction (c ∷ s) =
    let fraction = whole_fraction (fraction_loop s 0 0) in
    if c == b'.' then fraction else some (0, c ∷ s)

-- The seconds of an offset with hours and minutes.
unfoldable pub offset_seconds : Bool → Option ℕ → Option ℕ → Option ℤ
offset_seconds west none minute = none
offset_seconds west (some hour) none = none
offset_seconds west (some hour) (some minute) =
    if ltb 23 hour || ltb 59 minute
    then none
    else if west
    then some (sub_ℕ 0 (hour * 3600 + minute * 60))
    else some (pos (hour * 3600 + minute * 60))

-- The text behind the fraction.
unfoldable pub read_offset : Bytes → Option ℤ
unfolding offset_seconds read_digits
read_offset s =
    let sign = char_at s 0 in
    if length s == 1 && sign == b'Z'
    then some (pos 0)
    else if length s == 6 && ((sign == b'+' || sign == b'-') && char_at s 3 == b':')
    then offset_seconds (sign == b'-') (read_digits (drop 1 s) 2) (read_digits (drop 4 s) 2)
    else none

-- The fields of a date and a time.
pub record Fields : Type 0 where
  pub year : ℕ
  pub month : ℕ
  pub day : ℕ
  pub hour : ℕ
  pub minute : ℕ
  pub second : ℕ

-- The six calls of `read_digits`.
unfoldable pub read_fields : Bytes → Option Fields
unfolding read_digits
read_fields s = do
  year ← read_digits s 4
  month ← read_digits (drop 5 s) 2
  day ← read_digits (drop 8 s) 2
  hour ← read_digits (drop 11 s) 2
  minute ← read_digits (drop 14 s) 2
  second ← read_digits (drop 17 s) 2
  some (record {
    year = year;
    month = month;
    day = day;
    hour = hour;
    minute = minute;
    second = second;
  })

-- The tests on the ranges.
unfoldable pub is_moment : Fields → Bool
unfolding is_date
is_moment f =
    is_date f.year f.month f.day && not (ltb 23 f.hour || ltb 59 f.minute || ltb 59 f.second)

-- Seconds since the epoch, with the offset applied.
unfoldable pub epoch_seconds : Fields → ℤ → ℤ
unfolding days_from_civil
epoch_seconds f offset =
    scale 86400 (days_from_civil (pos f.year) f.month f.day)
    +ℤ pos (f.hour * 3600 + f.minute * 60 + f.second)
    -ℤ offset

-- Behind the tests on the shape.
unfoldable pub to_ms : Option Fields → Option (ℕ × Bytes) → Option ℤ
unfolding is_moment epoch_seconds read_offset
to_ms none fraction = none
to_ms (some f) none = none
to_ms (some f) (some (ms, rest)) = elim (read_offset rest) [
  | none ↦ none
  | some offset ↦ if is_moment f then some (scale 1000 (epoch_seconds f offset) +ℤ pos ms) else none
]

-- `rfc3339_to_ms`; `none` is false.
unfoldable pub rfc3339_to_ms : Bytes → Option ℤ
unfolding has_marks read_fields read_fraction to_ms
rfc3339_to_ms s = if has_marks s then to_ms (read_fields s) (read_fraction (drop 19 s)) else none

-- `knishio_cjson_millis`
unfoldable pub cjson_millis : Bytes → Option ℕ
unfolding read_digits
cjson_millis text =
    if length text == 0 || ltb 18 (length text) then none else read_digits text (length text)

-- `created_at_kind_t`, with the milliseconds.
pub data CreatedAt : Type 0 where
  created_at_absent : CreatedAt
  created_at_ms : ℤ → CreatedAt
  created_at_invalid : CreatedAt

-- Milliseconds that are not negative.
abbrev pub unless_negative : Option ℤ → CreatedAt
unless_negative none = created_at_invalid
unless_negative (some (pos ms)) = created_at_ms (pos ms)
unless_negative (some (negsuc n)) = created_at_invalid

-- `normalize_created_at` of a string.
unfoldable pub normalize_text : Bytes → CreatedAt
unfolding cjson_millis rfc3339_to_ms
normalize_text text = if length text == 0 then created_at_absent else elim (cjson_millis text) [
  | some ms ↦ created_at_ms (pos ms)
  | none ↦ unless_negative (rfc3339_to_ms text)
]
