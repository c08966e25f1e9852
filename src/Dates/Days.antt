-- ===== src/Dates/Days.antt =====
-- The count of days of `days_from_civil` (src/libraries/served_molecule.c): it grows by one from each
-- day of the calendar to the next.
use native.Mathlib.Decide.{dec_lt}
use knish_io_client_c.Dates.{days_from_civil, is_leap, month_days, is_date}
use knish_io_client_c.Prelude.{
  ℕ, zero, suc, ◌+◌, ◌-◌, ◌*◌, ◌/◌, ◌%◌, ◌<◌, ◌≤◌, ◌≡◌, refl, ap, sym, ◌∙◌, true, not, ◌&&◌, get_or,
  ltb, leb, ◌==◌, if◌then◌else◌, ℤ, pos, ◌+ℤ◌, ◌-ℤ◌, arith, Bool-cases, inl, inr, +ℤ_parts,
  -ℤ_parts, eq_of_parts,
}

-- The length of a month of the calendar.
abbrev pub days_of_month : ℕ → ℕ → ℕ
days_of_month y m = if m == 2 && not (is_leap y) then 28 else get_or month_days (m - 1) 0

-- The days of the years before the March of year `z`.
abbrev days_of_years : ℕ → ℕ
days_of_years z = 365 * z + z / 4 + z / 400 - z / 100

era_days :
    (z : ℕ)
    → z / 400 * 146097
        + ((z - 400 * (z / 400)) * 365 + (z - 400 * (z / 400)) / 4 - (z - 400 * (z / 400)) / 100)
      ≡ days_of_years z
era_days z = omega arith

quarter : (z : ℕ) → suc z / 4 ≡ z / 4 + (if suc z % 4 == 0 then 1 else 0)
quarter z = ground arith

century : (z : ℕ) → suc z / 100 ≡ z / 100 + (if suc z % 100 == 0 then 1 else 0)
century z = ground arith

fourth_century : (z : ℕ) → suc z / 400 ≡ z / 400 + (if suc z % 400 == 0 then 1 else 0)
fourth_century z = ground arith

leaps :
    (y : ℕ)
    → (if y % 4 == 0 then 1 else 0) + (if y % 400 == 0 then 1 else 0)
      ≡ (if y % 100 == 0 then 1 else 0) + (if is_leap y then 1 else 0)
leaps y = ground arith

next_year :
    (z : ℕ) → days_of_years (suc z) ≡ days_of_years z + 365 + (if is_leap (suc z) then 1 else 0)
next_year z = omega (arith, quarter z, century z, fourth_century z, leaps (suc z))

-- The days of a date since the March of year 0, the months counted from March.
abbrev day_of_year : ℕ → ℕ → ℕ
day_of_year m d = (153 * (if ltb 2 m then m - 3 else m + 9) + 2) / 5 + d - 1

abbrev count : ℕ → ℕ → ℕ → ℕ
count y m d = days_of_years (if leb m 2 then y - 1 else y) + day_of_year m d

shifted : (y k : ℕ) → k ≤ y → pos y -ℤ pos k ≡ pos (y - k)
unfolding ◌-ℤ◌
shifted y k h = ground arith

added : (x y : ℕ) → pos x +ℤ pos y ≡ pos (x + y)
unfolding ◌+ℤ◌
added x y = ground arith

whole_eras : (z : ℕ) → 400 * (z / 400) ≤ z
whole_eras z = omega arith

century_year : (r : ℕ) → r / 100 ≤ r * 365 + r / 4
century_year r = omega arith

regroup : (e a b c d : ℕ) → c ≤ a + b → 146097 * e + (a + b - c + d) ≡ e * 146097 + (a + b - c) + d
regroup e a b c d h = omega arith

-- The closed form of `days_from_civil`.
days_from_civil-count :
    (k m d : ℕ) → days_from_civil (pos (suc k)) m d ≡ pos (count (suc k) m d) -ℤ pos 719468
unfolding days_from_civil
days_from_civil-count k m d =
    let z = if leb m 2 then suc k - 1 else suc k in
    let year : pos (suc k) -ℤ pos (if leb m 2 then 1 else 0) ≡ pos z =
      shifted (suc k) (if leb m 2 then 1 else 0) (ground arith) ∙ ap pos (ground arith) in
    let within = shifted z (400 * (z / 400)) (whole_eras z) in
    let r = z - 400 * (z / 400) in
    rw (year, within, added)
      (ap (λ n. pos n -ℤ pos 719468)
        (regroup (z / 400) (r * 365) (r / 4) (r / 100) (day_of_year m d) (century_year r)
          ∙ ap (λ n. n + day_of_year m d) (era_days z)))

-- What holds of each number below a bound.
abbrev AllBelow : ℕ → (ℕ → Type 0) → Type 0
AllBelow zero P = Unit
AllBelow (suc n) P = P n × AllBelow n P

below : (n : ℕ) (P : ℕ → Type 0) → AllBelow n P → (m : ℕ) → m < n → P m
below zero P h m l = absurd (omega arith)
below (suc n) P (p, h) m l = elim (dec_lt m n) [
  | yes k ↦ below n P h m k
  | no k ↦ let e : m ≡ n = omega arith in rw e p
]

-- From the last day of each month but December to the first of the next.
NextMonth : ℕ → ℕ → Type 0
NextMonth k i = count (suc k) (i + 2) 1 ≡ count (suc k) (i + 1) (days_of_month (suc k) (i + 1)) + 1

next_month : (k m : ℕ) → m < 11 → NextMonth k m
unfolding NextMonth
next_month k m h =
    let leap = next_year k in
    below 11 (NextMonth k)
      (
        omega arith,
        (
          omega arith,
          (
            omega arith,
            (
              omega arith,
              (
                omega arith,
                (
                  omega arith,
                  (
                    omega arith,
                    (omega arith, (omega arith, (ground (arith, leap), (omega arith, tt)))),
                  ),
                ),
              ),
            ),
          ),
        ),
      )
      m h

-- The next day of the calendar.
abbrev pub next_date : ℕ → ℕ → ℕ → ℕ × ℕ × ℕ
next_date y m d =
    if ltb d (days_of_month y m)
    then (y, m, suc d)
    else if ltb m 12
    then (y, suc m, 1)
    else (suc y, 1, 1)

abbrev pub days_at : ℕ × ℕ × ℕ → ℤ
days_at (y, m, d) = days_from_civil (pos y) m d

is_date-days :
    (y m d : ℕ) → is_date y m d ≡ true → (1 ≤ m) × (m ≤ 12) × (1 ≤ d) × (d ≤ days_of_month y m)
unfolding is_date
is_date-days y m d h = ground arith

one_more :
    (k m d y m' d' : ℕ)
    → count (suc y) m' d' ≡ count (suc k) m d + 1
    → days_from_civil (pos (suc y)) m' d' ≡ days_from_civil (pos (suc k)) m d +ℤ pos 1
one_more k m d y m' d' h =
    days_from_civil-count y m' d'
    ∙ ap (λ n. pos n -ℤ pos 719468) h
    ∙ eq_of_parts _ _ (
        omega (
          arith,
          -ℤ_parts (pos (count (suc k) m d + 1)) (pos 719468),
          -ℤ_parts (pos (count (suc k) m d)) (pos 719468),
          +ℤ_parts (pos (count (suc k) m d) -ℤ pos 719468) (pos 1),
        ))
    ∙ ap (λ x. x +ℤ pos 1) (sym (days_from_civil-count k m d))

month_step :
    (k m d : ℕ)
    → 1 ≤ m
    → d ≡ days_of_month (suc k) m
    → NextMonth k (m - 1)
    → count (suc k) (suc m) 1 ≡ count (suc k) m d + 1
unfolding NextMonth
month_step k m d h e n =
    let p : m - 1 + 2 ≡ suc m = omega arith in
    let q : m - 1 + 1 ≡ m = omega arith in
    rw e (
      ap (λ i. count (suc k) i 1) (sym p)
      ∙ n
      ∙ ap (λ i. count (suc k) i (days_of_month (suc k) i) + 1) q)

year_step :
    (k m d : ℕ)
    → m ≡ 12
    → d ≡ days_of_month (suc k) m
    → count (suc (suc k)) 1 1 ≡ count (suc k) m d + 1
year_step k m d v e = let f : d ≡ 31 = e ∙ ap (days_of_month (suc k)) v in rw (v, f) (omega arith)

next_is_one_more :
    (k m d : ℕ)
    → is_date (suc k) m d ≡ true
    → days_at (next_date (suc k) m d) ≡ days_from_civil (pos (suc k)) m d +ℤ pos 1
next_is_one_more k m d h =
    let (a, b, c, l) = is_date-days (suc k) m d h in
    elim (Bool-cases (ltb d (days_of_month (suc k) m))) [
      | inl t ↦ rw t (one_more k m d k m (suc d) (omega arith))
      | inr t ↦
          let e : d ≡ days_of_month (suc k) m = ground arith in
          elim (Bool-cases (ltb m 12)) [
            | inl u ↦
                let n : NextMonth k (m - 1) = next_month k (m - 1) (ground arith) in
                rw (t, u) (one_more k m d k (suc m) 1 (month_step k m d a e n))
            | inr u ↦
                let v : m ≡ 12 = ground arith in
                rw (t, u) (one_more k m d (suc k) 1 1 (year_step k m d v e))
          ]
    ]

-- `days_from_civil` counts days: 1970-01-01 is day 0, and from each date of the calendar from the
-- year 1 on, leap days included, to the next date the count grows by one.
pub days_from_civil-next :
    (k m d : ℕ)
    → is_date (suc k) m d ≡ true
    → (days_from_civil (pos 1970) 1 1 ≡ pos 0)
      × (days_at (next_date (suc k) m d) ≡ days_from_civil (pos (suc k)) m d +ℤ pos 1)
unfolding days_from_civil ◌+ℤ◌ ◌-ℤ◌
days_from_civil-next k m d h = (refl, next_is_one_more k m d h)
