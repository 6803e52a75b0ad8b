-- ===== src/Daemon/Trigger/Calendar/Found.antt =====
-- The dates that `civil_from_unix_days` gives are dates of the calendar.
use evowork.Prelude.{
  ℕ, ◌+◌, ◌-◌, ◌*◌, ◌/◌, ◌≤◌, ◌<◌, ◌≡◌, ◌≢◌, sym, subst, ◌⊎◌, inl, inr, arith, ltb, ◌==◌, ◌&&◌, not,
  true, some, Bool-cases, if◌then◌else◌,
}
use evowork.Prelude.Int.{ℤ, pos, ◌+ℤ◌, ◌*ℤ◌, as_i32, int_laws, parts_of_eq}
use evowork.Daemon.Trigger.Calendar.{
  is_leap, days_in_month, year_of_era, before_year, date_in_era, floor_div, civil_from_unix_days,
}
use evowork.Daemon.Trigger.Calendar.Years.{year_of_era_lem, next_year, year_length_lem}
use evowork.Daemon.Trigger.Calendar.Dates.{civil_in_era, era_fits, date_in_era-march_year, IsDay}
use evowork.Daemon.Trigger.Calendar.Valid.{IsDate, most_days, february, common_year}

-- The month and the day of a day of the year.
month_in_year :
    (doy : ℕ)
    → doy < 366
    → let mp = (5 * doy + 2) / 153 in
      let m = if ltb mp 10 then mp + 3 else mp - 9 in
      let d = doy - (153 * mp + 2) / 5 + 1 in
      (1 ≤ m)
      × (m ≤ 12)
      × (1 ≤ d)
      × (d ≤ most_days m)
      × ((m ≢ 2) ⊎ (d ≤ 28) ⊎ ((m ≡ 2) × (doy ≡ 365)))
unfolding most_days
month_in_year doy h = ground arith

-- How long a month is.
unfoldable pub month_days : ℤ → ℕ → ℕ
month_days year m = if (m == 2) && not (is_leap year) then 28 else most_days m

pub days_in_month_found :
    (year : ℤ) (m : ℕ) → 1 ≤ m → m ≤ 12 → days_in_month year m ≡ some (month_days year m)
unfolding days_in_month month_days most_days
days_in_month_found year m a b = ground arith

month_days-ge :
    (year : ℤ) (m d : ℕ)
    → d ≤ most_days m
    → (m ≢ 2) ⊎ (d ≤ 28) ⊎ (is_leap year ≡ true)
    → d ≤ month_days year m
unfolding month_days most_days
month_days-ge year m d h k = ground arith

-- The day of the year of a day of an era.
date_in_era_month :
    (era : ℤ) (doe : ℕ)
    → let doy = doe - before_year (year_of_era doe) in
      let c = date_in_era era doe in
      doy < 366
      → (1 ≤ c.month)
        × (c.month ≤ 12)
        × (1 ≤ c.day)
        × (c.day ≤ most_days c.month)
        × ((c.month ≢ 2) ⊎ (c.day ≤ 28) ⊎ ((c.month ≡ 2) × (doy ≡ 365)))
unfolding date_in_era
date_in_era_month era doe h = month_in_year (doe - before_year (year_of_era doe)) h

-- A day of an era has a date of the calendar.
date_in_era-IsDate :
    (era : ℤ) (doe : ℕ)
    → as_i32 era ≡ era
    → doe < 146097
    → let c = date_in_era era doe in IsDate c.year c.month c.day
date_in_era-IsDate era doe fits h =
    let c = date_in_era era doe in
    let yoe = year_of_era doe in
    let found = year_of_era_lem doe h in
    let in_year = date_in_era_month era doe (omega (arith, found)) in
    let y_eq = date_in_era-march_year era doe fits in
    let whole = year_length_lem yoe found.2 in
    let later = next_year doe h in
    let leap : c.month ≡ 2 → doe - before_year yoe ≡ 365 → is_leap c.year ≡ true = λ two last.
      elim (Bool-cases (is_leap c.year)) [
        | inl l ↦ l
        | inr l ↦
            let common =
              common_year c.year era yoe (february c.year _ c.month y_eq two) found.2 l in
            absurd (omega (arith, common, last, whole, later))
      ] in
    record {
      month_from = in_year.0;
      month_to = in_year.1;
      day_from = in_year.2;
      days = month_days c.year c.month;
      days_eq = days_in_month_found c.year c.month in_year.0 in_year.1;
      day_to = month_days-ge c.year c.month c.day in_year.3 (elim in_year.4 [
        | inl other ↦ inl other
        | inr (inl short) ↦ inr (inl short)
        | inr (inr (two, last)) ↦ inr (inr (leap two last))
      ]);
    }

-- Every day within 2^40 of the epoch has a date of the calendar.
pub civil-IsDate :
    (unix_days : ℤ)
    → IsDay unix_days
    → let c = civil_from_unix_days unix_days in IsDate c.year c.month c.day
civil-IsDate unix_days h =
    let (doe, lt, z_eq, c_eq) = civil_in_era unix_days in
    let era = floor_div (unix_days +ℤ pos 719468) 146096 146097 in
    let parts = parts_of_eq _ (era *ℤ 146097 +ℤ pos doe) z_eq in
    subst (λ c. IsDate c.year c.month c.day) (sym c_eq)
      (date_in_era-IsDate era doe (era_fits era (omega (int_laws, parts)) (omega (int_laws, parts)))
        lt)

month_days-ge_28 : (year : ℤ) (m : ℕ) → 28 ≤ month_days year m
unfolding month_days most_days
month_days-ge_28 year m = ground arith

-- Every day up to the length of a month is a date.
pub month-IsDate :
    (year : ℤ) (m d : ℕ) → 1 ≤ m → m ≤ 12 → 1 ≤ d → d ≤ month_days year m → IsDate year m d
month-IsDate year m d a b from to = record {
  month_from = a;
  month_to = b;
  day_from = from;
  days = month_days year m;
  days_eq = days_in_month_found year m a b;
  day_to = to;
}

pub first-IsDate : (year : ℤ) (m : ℕ) → 1 ≤ m → m ≤ 12 → IsDate year m 1
first-IsDate year m a b =
    month-IsDate year m 1 a b (omega arith) (omega (arith, month_days-ge_28 year m))
