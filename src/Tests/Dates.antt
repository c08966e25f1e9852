-- ===== src/Tests/Dates.antt =====
-- The theorems on dates at concrete inputs.
use knish_io_client_c.Dates.{
  days_from_civil, is_date, Fields, is_moment, epoch_seconds, rfc3339_to_ms, normalize_text,
  created_at_ms, created_at_invalid, has_marks, read_fields, read_digits, read_loop, read_fraction,
  fraction_loop, to_ms, read_offset, offset_seconds, cjson_millis,
}
use knish_io_client_c.Dates.Days.{days_at, next_date, days_from_civil-next}
use knish_io_client_c.Dates.Moments.{moment_ms}
use knish_io_client_c.Dates.Written.{written, zulu, with_offset, rfc3339_to_ms-written}
use knish_io_client_c.Prelude.{◌≡◌, refl, true, false, some, codes, pos, ◌+ℤ◌, ◌-ℤ◌, arith}

leap_day : is_date 2024 2 29 ≡ true
unfolding is_date
leap_day = refl

days_from_civil-next_example :
    (days_from_civil (pos 1970) 1 1 ≡ pos 0)
    × (days_at (next_date 2024 2 29) ≡ days_from_civil (pos 2024) 2 29 +ℤ pos 1)
days_from_civil-next_example = days_from_civil-next 2023 2 29 leap_day

abbrev sample_moment : Fields
sample_moment = record { year = 2024; month = 2; day = 29; hour = 23; minute = 5; second = 59 }

sample_moment_valid : is_moment sample_moment ≡ true
unfolding is_moment is_date
sample_moment_valid = refl

rfc3339_to_ms-written_example :
    (rfc3339_to_ms (written sample_moment zulu) ≡ some (moment_ms sample_moment 0 false 0 0))
    × (rfc3339_to_ms (written sample_moment (with_offset 7 true 1 30))
        ≡ some (moment_ms sample_moment 7 true 1 30))
rfc3339_to_ms-written_example =
    rfc3339_to_ms-written sample_moment 7 true 1 30 (omega arith) sample_moment_valid (omega arith)
      (omega arith) (omega arith)

-- Digits are milliseconds; a date is read; 2023 has no 29th of February.
normalize_text_sample :
    (normalize_text (codes "1709251559000") ≡ created_at_ms (pos 1709251559000))
    × (normalize_text (codes "2024-03-01T01:05:59.5+01:00") ≡ created_at_ms (pos 1709251559500))
    × (normalize_text (codes "2023-02-29T00:00:00Z") ≡ created_at_invalid)
unfolding normalize_text cjson_millis rfc3339_to_ms has_marks read_fields read_digits read_loop
    read_fraction fraction_loop to_ms read_offset offset_seconds is_moment is_date epoch_seconds
    days_from_civil ◌+ℤ◌ ◌-ℤ◌
normalize_text_sample = (refl, refl, refl)
