-- ===== src/Dates/Written.antt =====
-- The texts of moments, as RFC 3339 writes them, and what `rfc3339_to_ms`
-- (src/libraries/served_molecule.c) makes of them.
use knish_io_client_c.Dates.{
  scale, is_decimal, read_loop, read_digits, has_marks, fraction_loop, whole_fraction,
  read_fraction, offset_seconds, read_offset, Fields, read_fields, is_moment, epoch_seconds, to_ms,
  rfc3339_to_ms, is_date, month_days,
}
use knish_io_client_c.Dates.Moments.{offset_of, moment_ms, epoch_ms}
use knish_io_client_c.Prelude.{
  ℕ, zero, suc, ◌+◌, ◌-◌, ◌*◌, ◌/◌, ◌%◌, ◌<◌, ◌≤◌, ◌≡◌, refl, ap, ◌∙◌, Bool, true, false, ◌||◌,
  some, List, [], ◌∷◌, Bytes, drop, ltb, if◌then◌else◌, ℤ, pos, ◌+ℤ◌, All, get_or, arith,
}

abbrev tens : ℕ → ℕ
tens n = b'0' + n / 10

abbrev ones : ℕ → ℕ
ones n = b'0' + n % 10

-- "2026-01-31T23:59:59" with a suffix.
abbrev pub written : Fields → Bytes → Bytes
written f suffix =
    tens (f.year / 100)
    ∷ ones (f.year / 100)
    ∷ tens (f.year % 100)
    ∷ ones (f.year % 100)
    ∷ b'-'
    ∷ tens f.month
    ∷ ones f.month
    ∷ b'-'
    ∷ tens f.day
    ∷ ones f.day
    ∷ b'T'
    ∷ tens f.hour
    ∷ ones f.hour
    ∷ b':'
    ∷ tens f.minute
    ∷ ones f.minute
    ∷ b':'
    ∷ tens f.second
    ∷ ones f.second
    ∷ suffix

digit :
    (n v : ℕ) (s : Bytes) (k : ℕ)
    → n < 10
    → read_loop ((b'0' + n) ∷ s) (suc k) v ≡ read_loop s k (v * 10 + n)
unfolding read_loop
digit n v s k h =
    let t : is_decimal (b'0' + n) ≡ true = ground arith in
    let e : b'0' + n - b'0' ≡ n = omega arith in rw (t, e) refl

read_two : (n : ℕ) (s : Bytes) → n < 100 → read_digits (tens n ∷ ones n ∷ s) 2 ≡ some n
unfolding read_digits read_loop
read_two n s h =
    digit (n / 10) 0 (ones n ∷ s) 1 (omega arith)
    ∙ digit (n % 10) (0 * 10 + n / 10) s 0 (omega arith)
    ∙ ap some (omega arith)

read_four :
    (n : ℕ) (s : Bytes)
    → n < 10000
    → read_digits (tens (n / 100) ∷ ones (n / 100) ∷ tens (n % 100) ∷ ones (n % 100) ∷ s) 4 ≡ some n
unfolding read_digits read_loop
read_four n s h =
    let a = n / 100 in
    let b = n % 100 in
    digit (a / 10) 0 (ones a ∷ tens b ∷ ones b ∷ s) 3 (omega arith)
    ∙ digit (a % 10) (0 * 10 + a / 10) (tens b ∷ ones b ∷ s) 2 (omega arith)
    ∙ digit (b / 10) ((0 * 10 + a / 10) * 10 + a % 10) (ones b ∷ s) 1 (omega arith)
    ∙ digit (b % 10) (((0 * 10 + a / 10) * 10 + a % 10) * 10 + b / 10) s 0 (omega arith)
    ∙ ap some (omega arith)

get_or-bound : (b : ℕ) (xs : List ℕ) (i : ℕ) → All (λ x. x ≤ b) xs → get_or xs i 0 ≤ b
get_or-bound b [] i h = omega arith
get_or-bound b (x ∷ xs) zero h = h.0
get_or-bound b (x ∷ xs) (suc i) h = get_or-bound b xs i h.1

abbrev longest_month : All (λ x. x ≤ 31) month_days
longest_month = omega arith

moment_bounds :
    (f : Fields)
    → is_moment f ≡ true
    → (f.month < 100) × (f.day < 100) × (f.hour < 100) × (f.minute < 100) × (f.second < 100)
unfolding is_moment is_date
moment_bounds f h =
    let bound = get_or-bound 31 month_days (f.month - 1) longest_month in ground arith

read_fields-written :
    (f : Fields) (suffix : Bytes)
    → f.year < 10000
    → is_moment f ≡ true
    → read_fields (written f suffix) ≡ some f
unfolding read_fields
read_fields-written f suffix y h =
    let (mo, da, ho, mi, se) = moment_bounds f h in
    rw
      (
        read_four f.year _ y,
        read_two f.month _ mo,
        read_two f.day _ da,
        read_two f.hour _ ho,
        read_two f.minute _ mi,
        read_two f.second _ se,
      )
      refl

-- "Z"
abbrev pub zulu : Bytes
zulu = b'Z' ∷ []

-- ".123+01:30"
abbrev pub with_offset : ℕ → Bool → ℕ → ℕ → Bytes
with_offset ms west hour minute =
    b'.'
    ∷ (b'0' + ms / 100)
    ∷ (b'0' + ms / 10 % 10)
    ∷ ones ms
    ∷ (if west then b'-' else b'+')
    ∷ tens hour
    ∷ ones hour
    ∷ b':'
    ∷ tens minute
    ∷ ones minute
    ∷ []

fraction_digit :
    (n : ℕ) (s : Bytes) (digits v : ℕ)
    → n < 10
    → digits < 3
    → fraction_loop ((b'0' + n) ∷ s) digits v ≡ fraction_loop s (suc digits) (v * 10 + n)
unfolding fraction_loop
fraction_digit n s digits v h l =
    let t : is_decimal (b'0' + n) ≡ true = ground arith in
    let u : ltb digits 3 ≡ true = ground arith in
    let e : b'0' + n - b'0' ≡ n = omega arith in rw (t, u, e) refl

-- The sign is no digit.
stop :
    (west : Bool) (s : Bytes) (digits v : ℕ)
    → fraction_loop ((if west then b'-' else b'+') ∷ s) digits v
      ≡ (digits, v, (if west then b'-' else b'+') ∷ s)
unfolding fraction_loop
stop true s digits v = refl
stop false s digits v = refl

read_fraction-offset :
    (ms : ℕ) (west : Bool) (hour minute : ℕ)
    → ms < 1000
    → read_fraction (with_offset ms west hour minute)
      ≡ some (ms, drop 4 (with_offset ms west hour minute))
unfolding read_fraction fraction_loop
read_fraction-offset ms west hour minute h =
    let rest = drop 4 (with_offset ms west hour minute) in
    let value : ((0 * 10 + ms / 100) * 10 + ms / 10 % 10) * 10 + ms % 10 ≡ ms = omega arith in
    ap whole_fraction (
      fraction_digit (ms / 100) ((b'0' + ms / 10 % 10) ∷ ones ms ∷ rest) 0 0 (omega arith)
        (omega arith)
      ∙ fraction_digit (ms / 10 % 10) (ones ms ∷ rest) 1 (0 * 10 + ms / 100) (omega arith)
          (omega arith)
      ∙ fraction_digit (ms % 10) rest 2 ((0 * 10 + ms / 100) * 10 + ms / 10 % 10) (omega arith)
          (omega arith)
      ∙ stop west (drop 5 (with_offset ms west hour minute)) 3 _)
    ∙ ap (λ n. some (n, rest)) value

read_offset-offset :
    (ms : ℕ) (west : Bool) (hour minute : ℕ)
    → hour ≤ 23
    → minute ≤ 59
    → read_offset (drop 4 (with_offset ms west hour minute)) ≡ some (offset_of west hour minute)
unfolding read_offset offset_seconds
read_offset-offset ms true hour minute h m =
    let t : (ltb 23 hour || ltb 59 minute) ≡ false = ground arith in
    rw
      (
        read_two hour (b':' ∷ tens minute ∷ ones minute ∷ []) (omega arith),
        read_two minute [] (omega arith),
        offset_seconds,
        t,
      )
      refl
read_offset-offset ms false hour minute h m =
    let t : (ltb 23 hour || ltb 59 minute) ≡ false = ground arith in
    rw
      (
        read_two hour (b':' ∷ tens minute ∷ ones minute ∷ []) (omega arith),
        read_two minute [] (omega arith),
        offset_seconds,
        t,
      )
      refl

-- Behind the marks.
written_to_ms :
    (f : Fields) (suffix rest : Bytes) (ms : ℕ) (offset : ℤ)
    → f.year < 10000
    → is_moment f ≡ true
    → has_marks (written f suffix) ≡ true
    → read_fraction suffix ≡ some (ms, rest)
    → read_offset rest ≡ some offset
    → rfc3339_to_ms (written f suffix) ≡ some (scale 1000 (epoch_seconds f offset) +ℤ pos ms)
unfolding rfc3339_to_ms to_ms
written_to_ms f suffix rest ms offset y h marks fraction behind =
    rw (rfc3339_to_ms, marks, read_fields-written f suffix y h, fraction, to_ms, behind, h) refl

-- A moment from year 0 to 9999, written with "Z" or with milliseconds and an offset of hours and
-- minutes, east or west, is read back: as the milliseconds of the days that days_from_civil counts
-- and of the time of day, less the offset to the east or plus the one to the west.
pub rfc3339_to_ms-written :
    (f : Fields) (ms : ℕ) (west : Bool) (hour minute : ℕ)
    → f.year < 10000
    → is_moment f ≡ true
    → ms < 1000
    → hour ≤ 23
    → minute ≤ 59
    → (rfc3339_to_ms (written f zulu) ≡ some (moment_ms f 0 false 0 0))
      × (rfc3339_to_ms (written f (with_offset ms west hour minute))
          ≡ some (moment_ms f ms west hour minute))
unfolding has_marks read_fraction read_offset
rfc3339_to_ms-written f ms west hour minute y h l k n = (
  written_to_ms f zulu zulu 0 (pos 0) y h refl refl refl ∙ ap some (epoch_ms f 0 false 0 0),
  written_to_ms f (with_offset ms west hour minute) (drop 4 (with_offset ms west hour minute)) ms
        (offset_of west hour minute) y h refl (read_fraction-offset ms west hour minute l)
        (read_offset-offset ms west hour minute k n)
      ∙ ap some (epoch_ms f ms west hour minute),
)
