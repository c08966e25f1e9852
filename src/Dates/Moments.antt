-- ===== src/Dates/Moments.antt =====
-- The milliseconds of a moment, written out, and those that src/libraries/served_molecule.c computes.
use knish_io_client_c.Dates.{scale, days_from_civil, Fields, epoch_seconds}
use knish_io_client_c.Prelude.{
  ℕ, ◌+◌, ◌*◌, ◌≡◌, Bool, true, false, negsuc, if◌then◌else◌, ℤ, pos, sub_ℕ, ◌+ℤ◌, ◌-ℤ◌, pos_part,
  neg_part, +ℤ_parts, -ℤ_parts, eq_of_parts, arith,
}

-- The seconds of an offset.
abbrev pub offset_of : Bool → ℕ → ℕ → ℤ
offset_of west hour minute =
    if west then sub_ℕ 0 (hour * 3600 + minute * 60) else pos (hour * 3600 + minute * 60)

-- What is written: the milliseconds of the days and of the time of day, less the offset, that is,
-- plus the offset where it is to the west.
abbrev pub local_ms : Fields → ℕ → ℤ
local_ms f ms =
    scale 86400000 (days_from_civil (pos f.year) f.month f.day)
    +ℤ pos (f.hour * 3600000 + f.minute * 60000 + f.second * 1000 + ms)

abbrev pub moment_ms : Fields → ℕ → Bool → ℕ → ℕ → ℤ
moment_ms f ms true hour minute = local_ms f ms +ℤ pos (hour * 3600000 + minute * 60000)
moment_ms f ms false hour minute = local_ms f ms -ℤ pos (hour * 3600000 + minute * 60000)

scale_1000 :
    (z : ℤ)
    → (pos_part (scale 1000 z) ≡ 1000 * pos_part z) × (neg_part (scale 1000 z) ≡ 1000 * neg_part z)
scale_1000 (pos n) = ground arith
scale_1000 (negsuc n) = ground arith

scale_day :
    (z : ℤ)
    → (pos_part (scale 86400 z) ≡ 86400 * pos_part z)
      × (neg_part (scale 86400 z) ≡ 86400 * neg_part z)
      × (pos_part (scale 86400000 z) ≡ 86400000 * pos_part z)
      × (neg_part (scale 86400000 z) ≡ 86400000 * neg_part z)
scale_day (pos n) = ground arith
scale_day (negsuc n) = ground arith

offset_parts :
    (hour minute : ℕ)
    → (pos_part (sub_ℕ 0 (hour * 3600 + minute * 60)) ≡ 0)
      × (neg_part (sub_ℕ 0 (hour * 3600 + minute * 60)) ≡ hour * 3600 + minute * 60)
offset_parts hour minute = ground arith

pub epoch_ms :
    (f : Fields) (ms : ℕ) (west : Bool) (hour minute : ℕ)
    → scale 1000 (epoch_seconds f (offset_of west hour minute)) +ℤ pos ms
      ≡ moment_ms f ms west hour minute
unfolding epoch_seconds
epoch_ms f ms true hour minute =
    let days = days_from_civil (pos f.year) f.month f.day in
    let local = scale 86400 days +ℤ pos (f.hour * 3600 + f.minute * 60 + f.second) in
    let offset = sub_ℕ 0 (hour * 3600 + minute * 60) in
    eq_of_parts _ _ (
      omega (
        arith,
        +ℤ_parts (scale 1000 (local -ℤ offset)) (pos ms),
        scale_1000 (local -ℤ offset),
        -ℤ_parts local offset,
        offset_parts hour minute,
        +ℤ_parts (scale 86400 days) (pos (f.hour * 3600 + f.minute * 60 + f.second)),
        scale_day days,
        +ℤ_parts (local_ms f ms) (pos (hour * 3600000 + minute * 60000)),
        +ℤ_parts (scale 86400000 days)
            (pos (f.hour * 3600000 + f.minute * 60000 + f.second * 1000 + ms)),
      ))
epoch_ms f ms false hour minute =
    let days = days_from_civil (pos f.year) f.month f.day in
    let local = scale 86400 days +ℤ pos (f.hour * 3600 + f.minute * 60 + f.second) in
    let offset = pos (hour * 3600 + minute * 60) in
    eq_of_parts _ _ (
      omega (
        arith,
        +ℤ_parts (scale 1000 (local -ℤ offset)) (pos ms),
        scale_1000 (local -ℤ offset),
        -ℤ_parts local offset,
        +ℤ_parts (scale 86400 days) (pos (f.hour * 3600 + f.minute * 60 + f.second)),
        scale_day days,
        -ℤ_parts (local_ms f ms) (pos (hour * 3600000 + minute * 60000)),
        +ℤ_parts (scale 86400000 days)
            (pos (f.hour * 3600000 + f.minute * 60000 + f.second * 1000 + ms)),
      ))
