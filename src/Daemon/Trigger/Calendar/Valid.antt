-- ===== src/Daemon/Trigger/Calendar/Valid.antt =====
-- The dates of the calendar, and the day that each of them is.
use evowork.Prelude.{
  ℕ, suc, ◌+◌, ◌-◌, ◌*◌, ◌/◌, ◌≤◌, ◌<◌, ◌≡◌, refl, sym, ap, subst, ◌∙◌, ◌⊎◌, inl, inr, arith, ltb,
  leb, ◌==◌, ◌||◌, ◌≢◌, Bool, true, false, some, if◌then◌else◌,
}
use evowork.Prelude.Int.{
  ℤ, pos, negsuc, pos_part, neg_part, ◌+ℤ◌, ◌-ℤ◌, ◌*ℤ◌, as_u32, as_i32, rem_abs, as_u32_fits,
  int_laws, eq_of_parts, parts_of_eq,
}
use evowork.Daemon.Trigger.Calendar.{
  civil, is_leap, days_in_month, year_of_era, before_year, date_in_era, floor_div,
  civil_from_unix_days, day_of_year, unix_days_from_civil,
}
use evowork.Daemon.Trigger.Calendar.Years.{
  year_of_era_unique, year_length, year_length_lem, year_in_era, days_floor,
}
use evowork.Daemon.Trigger.Calendar.Dates.{march_year, unix_days_in_era, era_fits, IsDay}

-- A month, and a day of it.
pub record IsDate (year : ℤ) (m d : ℕ) : Type 0 where
  pub month_from : 1 ≤ m
  pub month_to : m ≤ 12
  pub day_from : 1 ≤ d
  pub days : ℕ
  pub days_eq : days_in_month year m ≡ some days
  pub day_to : d ≤ days

year_parts :
    (year era : ℤ) (yoe : ℕ)
    → year ≡ pos yoe +ℤ era *ℤ 400 +ℤ pos 1
    → pos_part year + neg_part era * 400 ≡ suc yoe + pos_part era * 400 + neg_part year
year_parts year era yoe e = let parts = parts_of_eq year _ e in omega (int_laws, parts)

-- The number of the year in its era says whether it is a leap year.
pub leap_year :
    (year era : ℤ) (yoe : ℕ)
    → year ≡ pos yoe +ℤ era *ℤ 400 +ℤ pos 1
    → yoe < 400
    → is_leap year ≡ true
    → year_length yoe ≡ 366
unfolding is_leap rem_abs year_length before_year
leap_year (pos n) era yoe e h l = let parts = year_parts (pos n) era yoe e in ground arith
leap_year (negsuc n) era yoe e h l = let parts = year_parts (negsuc n) era yoe e in ground arith

pub common_year :
    (year era : ℤ) (yoe : ℕ)
    → year ≡ pos yoe +ℤ era *ℤ 400 +ℤ pos 1
    → yoe < 400
    → is_leap year ≡ false
    → year_length yoe ≡ 365
unfolding is_leap rem_abs year_length before_year
common_year (pos n) era yoe e h l = let parts = year_parts (pos n) era yoe e in ground arith
common_year (negsuc n) era yoe e h l = let parts = year_parts (negsuc n) era yoe e in ground arith

-- The longest that a month can be.
unfoldable pub most_days : ℕ → ℕ
most_days m =
    if m == 2 then 29 else if (m == 4) || (m == 6) || (m == 9) || (m == 11) then 30 else 31

pub days_in_month-le :
    (year : ℤ) (m days : ℕ)
    → days_in_month year m ≡ some days
    → (days ≤ most_days m) × ((m ≢ 2) ⊎ (days ≤ 28) ⊎ (is_leap year ≡ true))
unfolding days_in_month most_days
days_in_month-le year m days e = ground arith

-- The month and the day are found again from the day of the year.
month_of_year :
    (m d : ℕ)
    → 1 ≤ m
    → m ≤ 12
    → 1 ≤ d
    → d ≤ most_days m
    → let mp = (5 * day_of_year m d + 2) / 153 in
      ((if ltb mp 10 then mp + 3 else mp - 9) ≡ m) × (day_of_year m d - (153 * mp + 2) / 5 + 1 ≡ d)
unfolding day_of_year most_days
month_of_year m d a b c e = ground arith

pub day_of_year-lt :
    (m d : ℕ)
    → 1 ≤ m
    → m ≤ 12
    → 1 ≤ d
    → d ≤ most_days m
    → (day_of_year m d < 366) × ((day_of_year m d < 365) ⊎ ((m ≡ 2) × (d ≡ 29)))
unfolding day_of_year most_days
day_of_year-lt m d a b c e = ground arith

year_length-ge : (yoe : ℕ) → 365 ≤ year_length yoe
unfolding year_length before_year
year_length-ge yoe = ground arith

-- February belongs to the year that begins in March before.
pub february : (year y : ℤ) (m : ℕ) → march_year year m ≡ y → m ≡ 2 → year ≡ y +ℤ pos 1
february year y m e two =
    let e_two = sym (ap (march_year year) two) ∙ e in
    let parts = parts_of_eq (year -ℤ pos 1) _ e_two in eq_of_parts _ _ (omega (int_laws, parts))

-- January and February of a leap year end a year that has 366 days.
pub leap_year_length :
    (year era : ℤ) (yoe m : ℕ)
    → march_year year m ≡ pos yoe +ℤ era *ℤ 400
    → yoe < 400
    → is_leap year ≡ true
    → (m ≡ 2)
    → year_length yoe ≡ 366
leap_year_length year era yoe m e h l two = leap_year year era yoe (february year _ m e two) h l

-- A date falls in its year.
pub day_in_year :
    (year era : ℤ) (yoe m d : ℕ)
    → IsDate year m d
    → march_year year m ≡ pos yoe +ℤ era *ℤ 400
    → yoe < 400
    → day_of_year m d < year_length yoe
day_in_year year era yoe m d v y_eq h =
    let longest = days_in_month-le year m v.days v.days_eq in
    let before =
      day_of_year-lt m d v.month_from v.month_to v.day_from (omega (arith, longest, v.day_to)) in
    elim before.1 [
      | inl early ↦ omega (arith, early, year_length-ge yoe)
      | inr (two, last) ↦ elim longest.1 [
        | inl other ↦ absurd (other two)
        | inr (inl short) ↦ absurd (omega (arith, short, last, v.day_to))
        | inr (inr l) ↦ omega (arith, before, leap_year_length year era yoe m y_eq h l two)
      ]
    ]

-- The day number of a date is that of its era and of the day in it.
civil_of_era :
    (unix_days era : ℤ) (doe : ℕ)
    → unix_days ≡ era *ℤ 146097 +ℤ pos doe -ℤ pos 719468
    → doe < 146097
    → civil_from_unix_days unix_days ≡ date_in_era era doe
unfolding civil_from_unix_days
civil_of_era unix_days era doe e h =
    let z = unix_days +ℤ pos 719468 in
    let e_parts = parts_of_eq unix_days _ e in
    let era-eq : floor_div z 146096 146097 ≡ era =
      eq_of_parts _ _ (omega (int_laws, e_parts, days_floor z)) in
    let doe-eq : as_u32 (z -ℤ era *ℤ 146097) ≡ doe =
      subst (λ n. as_u32 n ≡ doe)
        (sym (eq_of_parts (z -ℤ era *ℤ 146097) (pos doe) (omega (int_laws, e_parts))))
        (as_u32_fits (pos doe) refl (omega arith)) in
    rw (era-eq, doe-eq)

year_of_march :
    (b : Bool) (year y : ℤ)
    → year -ℤ pos (if b then 1 else 0) ≡ y
    → (if b then y +ℤ pos 1 else y) ≡ year
year_of_march true year y e =
    let parts = parts_of_eq (year -ℤ pos 1) y e in eq_of_parts _ _ (omega (int_laws, parts))
year_of_march false year y e =
    let parts = parts_of_eq (year -ℤ pos 0) y e in eq_of_parts _ _ (omega (int_laws, parts))

-- What a day of an era is, once its year, its month and its day are known.
date_in_era_at :
    (era : ℤ) (yoe doy m d : ℕ)
    → as_i32 era ≡ era
    → year_of_era (before_year yoe + doy) ≡ yoe
    → let mp = (5 * doy + 2) / 153 in
      ((if ltb mp 10 then mp + 3 else mp - 9) ≡ m) × (doy - (153 * mp + 2) / 5 + 1 ≡ d)
      → let y = pos yoe +ℤ era *ℤ 400 in
        date_in_era era (before_year yoe + doy) ≡ civil (if leb m 2 then y +ℤ pos 1 else y) m d
unfolding date_in_era
date_in_era_at era yoe doy m d fits y_eq month =
    let rest : before_year yoe + doy - before_year yoe ≡ doy = omega arith in
    rw (fits, y_eq, rest, month.0, month.1)

pub civil-unix_days :
    (year : ℤ) (m d : ℕ)
    → IsDate year m d
    → IsDay (unix_days_from_civil year m d)
    → civil_from_unix_days (unix_days_from_civil year m d) ≡ civil year m d
civil-unix_days year m d valid bound =
    let (era, yoe, yoe-lt, y_eq) = year_in_era (march_year year m) in
    let doy = day_of_year m d in
    let inside = day_in_year year era yoe m d valid y_eq yoe-lt in
    let length = year_length_lem yoe yoe-lt in
    let number = unix_days_in_era year era yoe m d y_eq yoe-lt in
    let number_parts = parts_of_eq (unix_days_from_civil year m d) _ number in
    let found = civil_of_era _ era (before_year yoe + doy) number (omega (arith, inside, length)) in
    let year-found = year_of_era_unique yoe doy yoe-lt inside in
    let longest = days_in_month-le year m valid.days valid.days_eq in
    let month-found =
      month_of_year m d valid.month_from valid.month_to valid.day_from
        (omega (arith, longest, valid.day_to)) in
    found
    ∙ date_in_era_at era yoe doy m d
        (era_fits era (omega (int_laws, inside, length, number_parts))
          (omega (int_laws, inside, length, number_parts)))
        year-found month-found
    ∙ ap (λ y. civil y m d) (year_of_march (leb m 2) year (pos yoe +ℤ era *ℤ 400) y_eq)
