-- ===== src/Daemon/Trigger/Schedule/Monthly.antt =====
-- `next_monthly` of crates/evo-daemon/src/trigger.rs against the calendar.
use evowork.Prelude.{ℕ, ◌^◌, ◌≤◌, ◌≡◌, refl, sym, ap, subst, ◌∙◌, ◌⊎◌, inl, inr, arith, some}
use evowork.Prelude.Int.{
  ℤ, pos, pos_part, neg_part, ◌+ℤ◌, ◌*ℤ◌, ◌≤ℤ◌, ◌<ℤ◌, int_laws, eq_of_parts, parts_of_eq,
  neg_part-le, pos_part-le,
}
use evowork.Daemon.Trigger.Calendar.{civil_from_unix_days, unix_days_from_civil}
use evowork.Daemon.Trigger.Calendar.Dates.{unix_days-civil, IsDay}
use evowork.Daemon.Trigger.Calendar.Valid.{IsDate, civil-unix_days}
use evowork.Daemon.Trigger.Calendar.Found.{civil-IsDate}
use evowork.Daemon.Trigger.Calendar.Months.{month_number}
use evowork.Daemon.Trigger.Calendar.Order.{later_month}
use evowork.Daemon.Trigger.Schedule.{
  ms_per_day, target_time, utc_from_local, month_loop, next_monthly,
}
use evowork.Daemon.Trigger.Schedule.Clock.{days_unique, IsTime, IsClock, local_time, local_ms_lem}
use evowork.Daemon.Trigger.Schedule.Days.{
  local_day, time_of_day, target_time-lt, day_lem, day_start_lem, ahead, day_order, le-local_time,
}
use evowork.Daemon.Trigger.Schedule.Daily.{IsFirst}
use evowork.Daemon.Trigger.Schedule.Loop.{IsFirstDate}
use evowork.Daemon.Trigger.Schedule.Ahead.{month_of, year_of, local_day_bounds, monthly_found}

next_monthly_value :
    (from_ms day hour minute : ℕ) (tz found : ℤ)
    → IsTime from_ms
    → IsClock hour minute tz
    → let today = local_day from_ms tz in
      month_loop 28
          (year_of today)
          (month_of today)
          day
          (target_time hour minute)
          (local_time from_ms tz)
        ≡ some found
      → next_monthly from_ms day hour minute tz ≡ utc_from_local found tz
unfolding next_monthly
next_monthly_value from_ms day hour minute tz found h c run =
    let today = local_day from_ms tz in
    let start =
      (days_unique (today *ℤ ms_per_day) today 0 (eq_of_parts _ _ (omega int_laws))
        (omega arith)).0 in
    rw
      (
        next_monthly,
        local_ms_lem from_ms tz h c.tz_from c.tz_to,
        day_start_lem from_ms tz h c.tz_from c.tz_to,
        start,
        run,
      )
      refl

months_in_order :
    (a b : ℤ)
    → IsDay a
    → IsDay b
    → a ≤ℤ b
    → month_number (year_of a) (month_of a) ≤ℤ month_number (year_of b) (month_of b)
months_in_order a b h k le =
    let v = civil_from_unix_days a in
    let w = civil_from_unix_days b in
    let which : (month_number v.year v.month ≤ℤ month_number w.year w.month)
        ⊎ (month_number w.year w.month <ℤ month_number v.year v.month) =
      omega arith in
    elim which [
      | inl done ↦ done
      | inr before ↦
          let a_days = parts_of_eq _ _ (unix_days-civil a h) in
          let b_days = parts_of_eq _ _ (unix_days-civil b k) in
          let earlier =
            later_month w.year v.year w.month v.month w.day v.day (civil-IsDate b k)
              (civil-IsDate a h) before in
          absurd (omega (arith, a_days, b_days, earlier))
    ]

-- No later time of that kind falls on a day before the date that the loop found.
no_earlier_day :
    (from_ms t day target : ℕ) (tz found : ℤ)
    → IsTime from_ms
    → neg_part tz ≤ 840
    → pos_part tz ≤ 840
    → let today = local_day from_ms tz in
      (first : IsFirstDate day target
        (local_time from_ms tz)
        (year_of today)
        (month_of today)
        found)
      → let q = unix_days_from_civil first.found_year first.found_month day in
        q ≤ℤ today +ℤ pos 10000
        → from_ms ≤ t
        → time_of_day t tz ≡ target
        → (civil_from_unix_days (local_day t tz)).day ≡ day
        → q ≤ℤ local_day t tz
no_earlier_day from_ms t day target tz found h a b first bound le e on =
    let today = local_day from_ms tz in
    let then_day = local_day t tz in
    let q = unix_days_from_civil first.found_year first.found_month day in
    let which : (q ≤ℤ then_day) ⊎ (then_day <ℤ q) = omega arith in
    elim which [
      | inl done ↦ done
      | inr before ↦
          let (low, high) = local_day_bounds from_ms tz h a b in
          let order = day_order from_ms t tz le in
          let today_is : IsDay today = (omega (arith, low), omega (arith, high)) in
          let then_is : IsDay then_day = (
            neg_part-le then_day (2 ^ 40) (omega (int_laws, low, order)),
            pos_part-le then_day (2 ^ 40) (omega (int_laws, bound, before, high)),
          ) in
          let now = civil_from_unix_days today in
          let c = civil_from_unix_days then_day in
          let v = civil-IsDate then_day then_is in
          let on_day = subst (IsDate c.year c.month) on v in
          let days_eq = unix_days-civil then_day then_is in
          let same =
            parts_of_eq _ _ (ap (unix_days_from_civil c.year c.month) (sym on) ∙ days_eq) in
          let months : month_number now.year now.month ≤ℤ month_number c.year c.month =
            months_in_order today then_day today_is then_is (omega (arith, order)) in
          let found_at = parts_of_eq found _ first.at in
          let later = first.least c.year c.month on_day months (
            omega (
              int_laws,
              same,
              order,
              day_lem t tz,
              day_lem from_ms tz,
              le-local_time from_ms t tz le,
              e,
            )) in
          omega (int_laws, later, found_at, same)
    ]

-- `next_monthly` is the first time from `from_ms` on at which the local clock shows the hour and
-- the minute on that day of a month, whatever months are too short for it: for a valid clock, a day
-- from 1 to 31 and `from_ms` below 2^62. The loop never runs out of months.
pub next_monthly-IsFirst :
    (from_ms day hour minute : ℕ) (tz : ℤ)
    → IsTime from_ms
    → 1 ≤ day
    → day ≤ 31
    → IsClock hour minute tz
    → IsFirst
        (λ t.
          (time_of_day t tz ≡ target_time hour minute)
          × ((civil_from_unix_days (local_day t tz)).day ≡ day))
        from_ms
        (next_monthly from_ms day hour minute tz)
next_monthly-IsFirst from_ms day hour minute tz h from to c =
    let target = target_time hour minute in
    let below = target_time-lt hour minute c.hour_to c.minute_to in
    let today = local_day from_ms tz in
    let local = local_time from_ms tz in
    let (low, high) = local_day_bounds from_ms tz h c.tz_from c.tz_to in
    let (found, run, bound, first) =
      monthly_found from_ms day target tz h c.tz_from c.tz_to from to below in
    let q = unix_days_from_civil first.found_year first.found_month day in
    let at = parts_of_eq found _ first.at in
    let day_parts = day_lem from_ms tz in
    let next =
      ahead from_ms tz q target h c.tz_from c.tz_to below
        (omega (int_laws, at, first.from, day_parts)) (omega (int_laws, at, bound, day_parts))
        (omega (int_laws, at, first.from, day_parts)) in
    let q_day : IsDay q = (
      neg_part-le q (2 ^ 40) (omega (int_laws, at, first.from, day_parts, low)),
      pos_part-le q (2 ^ 40) (omega (int_laws, at, bound, day_parts, high)),
    ) in
    subst
      (IsFirst
        (λ t. (time_of_day t tz ≡ target) × ((civil_from_unix_days (local_day t tz)).day ≡ day))
        from_ms)
      (sym (
        next_monthly_value from_ms day hour minute tz found h c run
        ∙ ap (λ z. utc_from_local z tz) first.at))
      (record {
        from = next.0;
        within = next.4;
        holds = (
          next.2,
          ap (λ d. (civil_from_unix_days d).day) next.1
              ∙ ap (λ c. c.day)
                  (civil-unix_days first.found_year first.found_month day first.date q_day),
        );
        least = λ t le (e, on). next.3 t e (
            no_earlier_day from_ms t day target tz found h c.tz_from c.tz_to first
              (omega (int_laws, at, bound, day_parts)) le e on);
      })
