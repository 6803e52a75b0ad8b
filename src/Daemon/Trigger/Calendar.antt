-- ===== src/Daemon/Trigger/Calendar.antt =====
-- The calendar of crates/evo-daemon/src/trigger.rs: days from 1970-01-01 and civil dates, by the
-- years that begin in March.
use evowork.Prelude.{
  ℕ, ◌+◌, ◌-◌, ◌*◌, ◌/◌, ◌%◌, Bool, ◌&&◌, ◌||◌, not, Option, none, some, ltb, leb, ◌==◌,
  if◌then◌else◌,
}
use evowork.Prelude.Int.{ℤ, pos, ◌+ℤ◌, ◌-ℤ◌, ◌*ℤ◌, leb_ℤ, as_u32, as_i32, trunc_div, rem_abs}
pub mod Years
pub mod Dates
pub mod Valid
pub mod Found
pub mod Months
pub mod Order

pub record Civil : Type 0 where
  pub year : ℤ
  pub month : ℕ
  pub day : ℕ

abbrev pub civil : ℤ → ℕ → ℕ → Civil
civil y m d = record { year = y; month = m; day = d }

unfoldable pub is_leap : ℤ → Bool
is_leap year = (rem_abs year 4 == 0) && (not (rem_abs year 100 == 0) || (rem_abs year 400 == 0))

unfoldable pub days_in_month : ℤ → ℕ → Option ℕ
days_in_month year month =
    if (month == 1)
      || (month == 3)
      || (month == 5)
      || (month == 7)
      || (month == 8)
      || (month == 10)
      || (month == 12)
    then some 31
    else if (month == 4) || (month == 6) || (month == 9) || (month == 11)
    then some 30
    else if month == 2
    then some (if is_leap year then 29 else 28)
    else none

-- The year of an era that a day of it falls in.
unfoldable pub year_of_era : ℕ → ℕ
year_of_era doe = (doe - doe / 1460 + doe / 36524 - doe / 146096) / 365

-- The days of an era before one of its years.
unfoldable pub before_year : ℕ → ℕ
before_year yoe = 365 * yoe + yoe / 4 - yoe / 100

-- The date in the era that a day of it is, with the number of the era.
unfoldable pub date_in_era : ℤ → ℕ → Civil
date_in_era era doe =
    let yoe = year_of_era doe in
    let y = pos yoe +ℤ as_i32 era *ℤ 400 in
    let doy = doe - before_year yoe in
    let mp = (5 * doy + 2) / 153 in
    let d = doy - (153 * mp + 2) / 5 + 1 in
    let m = if ltb mp 10 then mp + 3 else mp - 9 in civil (if leb m 2 then y +ℤ pos 1 else y) m d

-- The quotient of both conversions: what is below 0 moves `back` before `/` rounds towards 0.
unfoldable pub floor_div : ℤ → ℕ → ℕ → ℤ
floor_div z back d = trunc_div (if leb_ℤ (pos 0) z then z else z -ℤ pos back) d

unfoldable pub civil_from_unix_days : ℤ → Civil
civil_from_unix_days unix_days =
    let z = unix_days +ℤ pos 719468 in
    let era = floor_div z 146096 146097 in date_in_era era (as_u32 (z -ℤ era *ℤ 146097))

-- The day of the year that begins in March; `u32` keeps the order of the source, `+ d` before `-
-- 1`.
unfoldable pub day_of_year : ℕ → ℕ → ℕ
day_of_year m d = (153 * (if ltb 2 m then m - 3 else m + 9) + 2) / 5 + d - 1

unfoldable pub unix_days_from_civil : ℤ → ℕ → ℕ → ℤ
unix_days_from_civil year m d =
    let y = year -ℤ pos (if leb m 2 then 1 else 0) in
    let era = floor_div y 399 400 in
    let yoe = as_u32 (y -ℤ era *ℤ 400) in
    let doe = before_year yoe + day_of_year m d in era *ℤ 146097 +ℤ pos doe -ℤ pos 719468
