-- ===== src/Daemon/Trigger/Calendar/Dates.antt =====
-- The day number of the date of a day is that day: the two conversions of the calendar agree.
use evowork.Prelude.{
  ℕ, ◌+◌, ◌-◌, ◌^◌, ◌≤◌, ◌<◌, ◌≡◌, refl, sym, ap, subst, ◌∙◌, inl, inr, arith, leb, Bool-cases,
  if◌then◌else◌,
}
use evowork.Prelude.Int.{
  ℤ, pos, pos_part, neg_part, ◌+ℤ◌, ◌-ℤ◌, ◌*ℤ◌, as_u32, as_i32, as_u32_fits, as_i32_fits, int_laws,
  eq_of_parts, parts_of_eq, neg_part_zero, neg_part-le, pos_part-le,
}
use evowork.Daemon.Trigger.Calendar.{
  year_of_era, before_year, floor_div, date_in_era, civil_from_unix_days, day_of_year,
  unix_days_from_civil,
}
use evowork.Daemon.Trigger.Calendar.Years.{year_of_era_lem, days_floor, years_floor}

-- The year that the day number of a date is reckoned in: it begins in March.
abbrev pub march_year : ℤ → ℕ → ℤ
march_year year m = year -ℤ pos (if leb m 2 then 1 else 0)

-- The day number that `unix_days_from_civil` gives to a year of an era.
pub unix_days_in_era :
    (year era : ℤ) (yoe m d : ℕ)
    → march_year year m ≡ pos yoe +ℤ era *ℤ 400
    → yoe < 400
    → unix_days_from_civil year m d
      ≡ era *ℤ 146097 +ℤ pos (before_year yoe + day_of_year m d) -ℤ pos 719468
unfolding unix_days_from_civil
unix_days_in_era year era yoe m d e h =
    let y = march_year year m in
    let e_parts = parts_of_eq y (pos yoe +ℤ era *ℤ 400) e in
    let era-eq : floor_div y 399 400 ≡ era = omega (int_laws, e_parts, years_floor y) in
    let yoe-eq : as_u32 (y -ℤ era *ℤ 400) ≡ yoe =
      subst (λ z. as_u32 z ≡ yoe) (sym (omega (int_laws, e_parts)))
        (as_u32_fits (pos yoe) refl (omega arith)) in
    rw (era-eq, yoe-eq)

-- January and February fall in the year that begins in March before.
march_year-back : (y : ℤ) (m : ℕ) → march_year (if leb m 2 then y +ℤ pos 1 else y) m ≡ y
march_year-back y m = elim (Bool-cases (leb m 2)) [
  | inl e ↦ rw e (omega int_laws)
  | inr e ↦ rw e (omega int_laws)
]

-- The year that begins in March, and the day in it, of a date in an era.
pub date_in_era-march_year :
    (era : ℤ) (doe : ℕ)
    → as_i32 era ≡ era
    → let c = date_in_era era doe in march_year c.year c.month ≡ pos (year_of_era doe) +ℤ era *ℤ 400
unfolding date_in_era
date_in_era-march_year era doe e =
    march_year-back _ _ ∙ ap (λ i. pos (year_of_era doe) +ℤ i *ℤ 400) e

date_in_era-day_of_year :
    (era : ℤ) (doe : ℕ)
    → doe - before_year (year_of_era doe) ≤ 365
    → let c = date_in_era era doe in day_of_year c.month c.day ≡ doe - before_year (year_of_era doe)
unfolding date_in_era day_of_year
date_in_era-day_of_year era doe e = ground arith

-- The day number of the date that a day of an era is.
pub unix_days-date_in_era :
    (era : ℤ) (doe : ℕ)
    → as_i32 era ≡ era
    → doe < 146097
    → let c = date_in_era era doe in
      unix_days_from_civil c.year c.month c.day ≡ era *ℤ 146097 +ℤ pos doe -ℤ pos 719468
unix_days-date_in_era era doe e h =
    let c = date_in_era era doe in
    let bounds = year_of_era_lem doe h in
    unix_days_in_era c.year era (year_of_era doe) c.month c.day (date_in_era-march_year era doe e)
      bounds.2
    ∙ ap (λ n. era *ℤ 146097 +ℤ pos n -ℤ pos 719468)
        (omega (arith, bounds, date_in_era-day_of_year era doe (omega (arith, bounds))))

-- A day is 719468 less than `doe` days after the start of era `era`.
pub civil_in_era :
    (unix_days : ℤ)
    → let z = unix_days +ℤ pos 719468 in
      let era = floor_div z 146096 146097 in
      (doe : ℕ) × (doe < 146097)
      × (z ≡ era *ℤ 146097 +ℤ pos doe)
      × (civil_from_unix_days unix_days ≡ date_in_era era doe)
unfolding civil_from_unix_days
civil_in_era unix_days =
    let z = unix_days +ℤ pos 719468 in
    let era = floor_div z 146096 146097 in
    let floor = days_floor z in
    let doe = z -ℤ era *ℤ 146097 in
    let none_below = neg_part_zero doe (omega (int_laws, floor)) in
    (
      pos_part doe,
      omega (int_laws, floor),
      eq_of_parts _ _ (omega (int_laws, none_below)),
      ap (date_in_era era) (as_u32_fits doe none_below (omega (int_laws, floor, none_below))),
    )

-- The days for which the casts to `i32` and `u32` keep the value: more than any `i64` of
-- milliseconds reaches.
abbrev pub IsDay : ℤ → Type 0
IsDay z = (neg_part z ≤ 2 ^ 40) × (pos_part z ≤ 2 ^ 40)

-- The eras of such days are few.
pub era_fits :
    (era : ℤ)
    → neg_part era ≤ pos_part era + 2 ^ 30
    → pos_part era ≤ neg_part era + 2 ^ 30
    → as_i32 era ≡ era
era_fits era h k =
    let below = neg_part-le era (2 ^ 30) h in
    let above = pos_part-le era (2 ^ 30) k in as_i32_fits era (omega arith) (omega arith)

pub unix_days-civil :
    (unix_days : ℤ)
    → IsDay unix_days
    → let c = civil_from_unix_days unix_days in
      unix_days_from_civil c.year c.month c.day ≡ unix_days
unix_days-civil unix_days h =
    let (doe, lt, z_eq, c_eq) = civil_in_era unix_days in
    let era = floor_div (unix_days +ℤ pos 719468) 146096 146097 in
    let parts = parts_of_eq _ (era *ℤ 146097 +ℤ pos doe) z_eq in
    subst (λ c. unix_days_from_civil c.year c.month c.day ≡ unix_days) (sym c_eq)
      (unix_days-date_in_era era doe
          (era_fits era (omega (int_laws, parts)) (omega (int_laws, parts))) lt
        ∙ eq_of_parts _ _ (omega (int_laws, parts)))
