-- ===== src/Daemon/Trigger/Schedule/Ahead.antt =====
-- The loop of `next_monthly` in crates/evo-daemon/src/trigger.rs has a month ahead that it can end
-- at.
use evowork.Prelude.{ℕ, ◌*◌, ◌^◌, ◌≤◌, ◌<◌, ◌≡◌, inl, inr, arith, some}
use evowork.Prelude.Int.{
  ℤ, pos, pos_part, neg_part, ◌+ℤ◌, ◌≤ℤ◌, int_laws, eq_of_parts, parts_of_eq, neg_part-le,
  pos_part-le,
}
use evowork.Daemon.Trigger.Calendar.{civil_from_unix_days, unix_days_from_civil}
use evowork.Daemon.Trigger.Calendar.Dates.{unix_days-civil, IsDay}
use evowork.Daemon.Trigger.Calendar.Valid.{IsDate}
use evowork.Daemon.Trigger.Calendar.Found.{civil-IsDate}
use evowork.Daemon.Trigger.Calendar.Months.{
  month_number, next_month, year_after, month_number-next, next_month_days, next_month_in,
  either_month,
}
use evowork.Daemon.Trigger.Calendar.Order.{same_month_days, later_month, first_days}
use evowork.Daemon.Trigger.Schedule.{ms_per_day, month_loop}
use evowork.Daemon.Trigger.Schedule.Clock.{IsTime, local_time}
use evowork.Daemon.Trigger.Schedule.Days.{local_day, day_lem, local_time_bounds}
use evowork.Daemon.Trigger.Schedule.Loop.{value, IsFirstDate, month_loop_lem}

-- The date of a day.
abbrev pub month_of : ℤ → ℕ
month_of day = (civil_from_unix_days day).month

abbrev pub year_of : ℤ → ℤ
year_of day = (civil_from_unix_days day).year

-- The days of the times that do not overflow are few.
pub local_day_bounds :
    (ms : ℕ) (tz : ℤ)
    → IsTime ms
    → neg_part tz ≤ 840
    → pos_part tz ≤ 840
    → (neg_part (local_day ms tz) ≤ 2 ^ 36) × (pos_part (local_day ms tz) ≤ 2 ^ 36)
local_day_bounds ms tz h a b =
    let bounds = local_time_bounds ms tz h a b in
    let day = day_lem ms tz in
    (
      neg_part-le (local_day ms tz) (2 ^ 36) (omega (arith, bounds, day)),
      pos_part-le (local_day ms tz) (2 ^ 36) (omega (arith, bounds, day)),
    )

-- Two or three months ahead there is a month that has the day.
has_day_ahead :
    (today : ℤ) (day : ℕ)
    → IsDay today
    → 1 ≤ day
    → day ≤ 31
    → (k : ℕ) × (z : ℤ) × (n : ℕ) × IsDate z n day
      × (1 ≤ k)
      × (k ≤ 3)
      × (month_number z n ≡ month_number (year_of today) (month_of today) +ℤ pos k)
has_day_ahead today day h from to =
    let c = civil_from_unix_days today in
    let v = civil-IsDate today h in
    let (a, b) = next_month_in c.month v.month_from v.month_to in
    let one = parts_of_eq _ _ (month_number-next c.year c.month) in
    let y = year_after c.year c.month in
    let m = next_month c.month in
    let two = parts_of_eq _ _ (month_number-next y m) in
    elim (either_month y m day a b from to) [
      | inl w ↦ (1, y, m, w, omega arith, omega arith, eq_of_parts _ _ (omega (int_laws, one)))
      | inr w ↦ (
        2,
        year_after y m,
        next_month m,
        w,
        omega arith,
        omega arith,
        eq_of_parts _ _ (omega (int_laws, one, two)),
      )
    ]

-- The month of a day begins at most 30 days before it.
month_begins :
    (today : ℤ)
    → IsDay today
    → let first = unix_days_from_civil (year_of today) (month_of today) 1 in
      (first ≤ℤ today) × (today ≤ℤ first +ℤ pos 30)
month_begins today h =
    let c = civil_from_unix_days today in
    let v = civil-IsDate today h in
    let now = parts_of_eq _ _ (unix_days-civil today h) in
    let days = parts_of_eq _ _ (same_month_days c.year c.month 1 c.day (omega arith) v.day_from) in
    let next = next_month_days c.year c.month c.day v in omega (int_laws, now, days, next)

-- The loop of `next_monthly` finds the first date that is not before the time.
pub monthly_found :
    (from_ms day target : ℕ) (tz : ℤ)
    → IsTime from_ms
    → neg_part tz ≤ 840
    → pos_part tz ≤ 840
    → 1 ≤ day
    → day ≤ 31
    → target < ms_per_day
    → let today = local_day from_ms tz in
      let local = local_time from_ms tz in
      (found : ℤ) × (month_loop 28 (year_of today) (month_of today) day target local ≡ some found)
      × (found ≤ℤ local +ℤ pos (1000 * ms_per_day))
      × IsFirstDate day target local (year_of today) (month_of today) found
monthly_found from_ms day target tz h a b from to below =
    let today = local_day from_ms tz in
    let local = local_time from_ms tz in
    let (low, high) = local_day_bounds from_ms tz h a b in
    let c = civil_from_unix_days today in
    let is_day : IsDay today = (omega (arith, low), omega (arith, high)) in
    let v = civil-IsDate today is_day in
    let (k, z, n, w, k_from, k_to, number) = has_day_ahead today day is_day from to in
    let begins = month_begins today is_day in
    let days = parts_of_eq _ _ (same_month_days z n 1 day (omega arith) from) in
    let months =
      first_days k c.year z c.month n (v.month_from, v.month_to) (w.month_from, w.month_to)
        number in
    let number_parts = parts_of_eq _ _ number in
    let now = parts_of_eq _ _ (unix_days-civil today is_day) in
    let later =
      later_month c.year z c.month n c.day day v w (omega (int_laws, number_parts, k_from)) in
    let day_parts = day_lem from_ms tz in
    let due : local ≤ℤ value z n day target = omega (int_laws, now, later, day_parts) in
    let (found, run, first) =
      month_loop_lem today low high day target from below 28 local c.year c.month k z n
        (omega arith) to (v.month_from, v.month_to)
        (record { from = omega (int_laws, begins); to = omega (int_laws, begins) }) w due number
        (omega (arith, k_to)) in
    let bound = first.least z n w (omega (int_laws, number_parts)) due in
    (found, run, omega (int_laws, bound, days, months, begins, day_parts, k_to), first)
