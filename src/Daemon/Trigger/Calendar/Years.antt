-- ===== src/Daemon/Trigger/Calendar/Years.antt =====
-- The years of an era: 400 of them, each of 365 or 366 days, fill its 146097 days.
use evowork.Prelude.{ℕ, suc, ◌+◌, ◌-◌, ◌≤◌, ◌<◌, ◌≡◌, ◌⊎◌, arith, ◌==◌, if◌then◌else◌}
use evowork.Prelude.Int.{
  ℤ, pos, negsuc, pos_part, ◌+ℤ◌, ◌-ℤ◌, ◌*ℤ◌, ◌≤ℤ◌, ◌<ℤ◌, trunc_div, int_laws, eq_of_parts,
  neg_part_zero,
}
use evowork.Daemon.Trigger.Calendar.{year_of_era, before_year, floor_div}

-- A year has at least 365 days, the last one of a century that is no era's end included.
pub before_year-suc : (yoe : ℕ) → before_year yoe + 365 ≤ before_year (suc yoe)
unfolding before_year
before_year-suc yoe = ground arith

-- `year_of_era` is the year that the day falls in.
pub year_of_era_lem :
    (doe : ℕ)
    → doe < 146097
    → (before_year (year_of_era doe) ≤ doe)
      × (doe ≤ before_year (year_of_era doe) + 365)
      × (year_of_era doe < 400)
unfolding before_year year_of_era
year_of_era_lem doe h = ground arith

pub next_year :
    (doe : ℕ) → doe < 146097 → (doe < before_year (suc (year_of_era doe))) ⊎ (year_of_era doe ≡ 399)
unfolding before_year year_of_era
next_year doe h = ground arith

-- The days of a year of an era; the last one is a leap year.
unfoldable pub year_length : ℕ → ℕ
year_length yoe = if yoe == 399 then 366 else before_year (suc yoe) - before_year yoe

before_year_mono : (i j : ℕ) → i ≤ j → before_year i ≤ before_year j
unfolding before_year
before_year_mono i j h = ground arith

pub year_length_lem :
    (yoe : ℕ)
    → yoe < 400
    → (before_year yoe + year_length yoe ≤ 146097)
      × (year_length yoe ≤ 366)
      × (((yoe ≡ 399) × (year_length yoe ≡ 366))
          ⊎ ((yoe < 399) × (before_year yoe + year_length yoe ≡ before_year (suc yoe))))
unfolding before_year year_length
year_length_lem yoe h = ground arith

-- A day is in no other year.
pub year_of_era_unique :
    (yoe doy : ℕ) → yoe < 400 → doy < year_length yoe → year_of_era (before_year yoe + doy) ≡ yoe
unfolding year_of_era before_year
year_of_era_unique yoe doy h k =
    let doe = before_year yoe + doy in
    let y = year_of_era doe in
    let length = year_length_lem yoe h in
    let found = year_of_era_lem doe (omega (arith, length)) in
    let next = next_year doe (omega (arith, length)) in
    omega (arith, length, found, next, before_year_mono (suc y) yoe, before_year_mono (suc yoe) y)

-- The quotient that the source computes by a test on the sign is the floor.
pub days_floor :
    (z : ℤ)
    → (floor_div z 146096 146097 *ℤ 146097 ≤ℤ z)
      × (z <ℤ floor_div z 146096 146097 *ℤ 146097 +ℤ pos 146097)
unfolding floor_div trunc_div ◌-ℤ◌ ◌*ℤ◌ ◌+ℤ◌
days_floor (pos n) = ground arith
days_floor (negsuc n) = ground arith

pub years_floor :
    (z : ℤ) → (floor_div z 399 400 *ℤ 400 ≤ℤ z) × (z <ℤ floor_div z 399 400 *ℤ 400 +ℤ pos 400)
unfolding floor_div trunc_div ◌-ℤ◌ ◌*ℤ◌ ◌+ℤ◌
years_floor (pos n) = ground arith
years_floor (negsuc n) = ground arith

-- A year is one of an era.
pub year_in_era : (y : ℤ) → (era : ℤ) × (yoe : ℕ) × (yoe < 400) × (y ≡ pos yoe +ℤ era *ℤ 400)
year_in_era y =
    let era = floor_div y 399 400 in
    let floor = years_floor y in
    let none_below = neg_part_zero (y -ℤ era *ℤ 400) (omega (int_laws, floor)) in
    (
      era,
      pos_part (y -ℤ era *ℤ 400),
      omega (int_laws, floor, none_below),
      eq_of_parts _ _ (omega (int_laws, none_below)),
    )
