-- ===== src/Daemon/Trigger/Calendar/Months.antt =====
-- A month and the next one.
use evowork.Prelude.{
  ℕ, suc, ◌+◌, ◌≤◌, ◌<◌, ◌≡◌, ◌≢◌, refl, sym, ap, subst, ◌∙◌, ◌⊎◌, inl, inr, arith, leb, ◌==◌,
  ==→eq, Bool-cases, if◌then◌else◌,
}
use evowork.Prelude.Int.{ℤ, pos, ◌+ℤ◌, ◌-ℤ◌, ◌*ℤ◌, ◌≤ℤ◌, ◌<ℤ◌, int_laws, eq_of_parts, parts_of_eq}
use evowork.Daemon.Trigger.Calendar.{before_year, day_of_year, unix_days_from_civil}
use evowork.Daemon.Trigger.Calendar.Years.{year_length_lem, year_in_era}
use evowork.Daemon.Trigger.Calendar.Dates.{march_year, unix_days_in_era}
use evowork.Daemon.Trigger.Calendar.Valid.{IsDate, most_days, days_in_month-le, day_in_year}
use evowork.Daemon.Trigger.Calendar.Found.{month_days, month-IsDate}

-- A number for each month, in their order.
abbrev pub month_number : ℤ → ℕ → ℤ
month_number year m = year *ℤ 12 +ℤ pos m

abbrev pub next_month : ℕ → ℕ
next_month m = if m + 1 == 13 then 1 else m + 1

abbrev pub year_after : ℤ → ℕ → ℤ
year_after year m = if m + 1 == 13 then year +ℤ pos 1 else year

pub month_number-next :
    (year : ℤ) (m : ℕ)
    → month_number (year_after year m) (next_month m) ≡ month_number year m +ℤ pos 1
month_number-next year m = elim (Bool-cases (m + 1 == 13)) [
  | inl e ↦ rw e (eq_of_parts _ _ (omega (int_laws, ==→eq (m + 1) 13 e)))
  | inr e ↦ rw e (eq_of_parts _ _ (omega int_laws))
]

-- From one month to the next, but from February to March, the year that begins in March goes on.
abbrev january : ℕ → ℕ
january m = if leb m 2 then 1 else 0

january_or_february : (m : ℕ) → 1 ≤ m → m ≢ 2 → january (m + 1) ≡ january m
january_or_february m a c = ground arith

same_year :
    (year : ℤ) (m : ℕ)
    → 1 ≤ m
    → m ≤ 12
    → m ≢ 2
    → march_year (year_after year m) (next_month m) ≡ march_year year m
same_year year m a b c = elim (Bool-cases (m + 1 == 13)) [
  | inl e ↦
      let twelve : m ≡ 12 = omega (arith, ==→eq (m + 1) 13 e) in
      rw e (
        eq_of_parts (march_year (year +ℤ pos 1) 1) (march_year year 12) (omega int_laws)
        ∙ ap (march_year year) (sym twelve))
  | inr e ↦ rw e (ap (λ n. year -ℤ pos n) (january_or_february m a c))
]

later_day :
    (m d : ℕ)
    → 1 ≤ m
    → m ≤ 12
    → m ≢ 2
    → d ≤ most_days m
    → (day_of_year m d < day_of_year (next_month m) 1)
      × (day_of_year (next_month m) 1 ≤ day_of_year m 1 + 31)
unfolding day_of_year most_days
later_day m d a b c h = ground arith

march_days :
    (day_of_year 3 1 ≡ 0)
    × (day_of_year 2 1 ≡ 337)
    × (before_year 0 ≡ 0)
    × (before_year 399 ≡ 145731)
unfolding day_of_year before_year
march_days = (refl, refl, refl, refl)

-- March begins the next year, in this era or in the next.
march :
    (year era : ℤ) (yoe d : ℕ)
    → IsDate year 2 d
    → march_year year 2 ≡ pos yoe +ℤ era *ℤ 400
    → yoe < 400
    → (unix_days_from_civil year 2 d <ℤ unix_days_from_civil year 3 1)
      × (unix_days_from_civil year 3 1 ≤ℤ unix_days_from_civil year 2 1 +ℤ pos 31)
march year era yoe d v y_eq lt =
    let here : (e : ℕ) → _ = λ e. parts_of_eq _ _ (unix_days_in_era year era yoe 2 e y_eq lt) in
    let whole = year_length_lem yoe lt in
    let inside = day_in_year year era yoe 2 d v y_eq lt in
    let y_parts = parts_of_eq (march_year year 2) _ y_eq in
    elim whole.2 [
      | inl (last, length) ↦
          let there = parts_of_eq _ _ (
            unix_days_in_era year (era +ℤ pos 1) 0 3 1
              (eq_of_parts _ _ (omega (int_laws, y_parts, last))) (omega arith)) in
          omega (
            int_laws,
            here d,
            here 1,
            there,
            whole,
            last,
            length,
            inside,
            march_days,
            ap before_year last,
          )
      | inr (before, length) ↦
          let there = parts_of_eq _ _ (
            unix_days_in_era year era (suc yoe) 3 1 (eq_of_parts _ _ (omega (int_laws, y_parts)))
              (omega arith)) in
          omega (int_laws, here d, here 1, there, march_days, whole, length, inside)
    ]

-- The days of a month come before the first of the next, which is at most 31 after its own first.
abbrev ComesNext : ℤ → ℕ → ℕ → Type 0
ComesNext year m d =
    let first = unix_days_from_civil (year_after year m) (next_month m) 1 in
    (unix_days_from_civil year m d <ℤ first) × (first ≤ℤ unix_days_from_civil year m 1 +ℤ pos 31)

pub next_month_days : (year : ℤ) (m d : ℕ) → IsDate year m d → ComesNext year m d
next_month_days year m d v =
    let is_february : (m ≡ 2) ⊎ (m ≢ 2) = omega arith in
    elim is_february [
      | inl two ↦
          subst (λ m. IsDate year m d → ComesNext year m d) (sym two)
            (λ v.
              let (era, yoe, lt, y_eq) = year_in_era (march_year year 2) in
              march year era yoe d v y_eq lt)
            v
      | inr other ↦
          let (era, yoe, lt, y_eq) = year_in_era (march_year year m) in
          let here : (e : ℕ) → _ =
            λ e. parts_of_eq _ _ (unix_days_in_era year era yoe m e y_eq lt) in
          let there = parts_of_eq _ _ (
            unix_days_in_era (year_after year m) era yoe (next_month m) 1
              (same_year year m v.month_from v.month_to other ∙ y_eq) lt) in
          let longest = days_in_month-le year m v.days v.days_eq in
          omega (
            int_laws,
            here d,
            here 1,
            there,
            later_day m d v.month_from v.month_to other (omega (arith, longest, v.day_to)),
          )
    ]

pub next_month_in : (m : ℕ) → 1 ≤ m → m ≤ 12 → (1 ≤ next_month m) × (next_month m ≤ 12)
next_month_in m a b = ground arith

-- No month of 30 days or less follows another, so one of two months has any day that is asked for.
long_month :
    (year : ℤ) (m day : ℕ)
    → 1 ≤ m
    → m ≤ 12
    → day ≤ 31
    → (day ≤ month_days year m) ⊎ (day ≤ month_days (year_after year m) (next_month m))
unfolding month_days most_days
long_month year m day a b h = ground arith

pub either_month :
    (year : ℤ) (m day : ℕ)
    → 1 ≤ m
    → m ≤ 12
    → 1 ≤ day
    → day ≤ 31
    → IsDate year m day ⊎ IsDate (year_after year m) (next_month m) day
either_month year m day a b from to = elim (long_month year m day a b to) [
  | inl le ↦ inl (month-IsDate year m day a b from le)
  | inr le ↦
      let (c, e) = next_month_in m a b in
      inr (month-IsDate (year_after year m) (next_month m) day c e from le)
]
