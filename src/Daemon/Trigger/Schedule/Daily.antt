-- ===== src/Daemon/Trigger/Schedule/Daily.antt =====
-- `next_daily` and `next_weekly` of crates/evo-daemon/src/trigger.rs against the clock.
use evowork.Prelude.{
  ℕ, ◌+◌, ◌*◌, ◌-◌, ◌%◌, ◌^◌, ◌≤◌, ◌<◌, ◌≡◌, ◌≢◌, sym, ap, subst, ◌∙◌, ◌⊎◌, inl, inr, arith, ltb,
  leb, ◌==◌, ◌&&◌, Bool-cases, if◌then◌else◌,
}
use evowork.Prelude.Int.{
  ℤ, pos, pos_part, ◌+ℤ◌, ◌-ℤ◌, ◌*ℤ◌, ◌≤ℤ◌, int_laws, eq_of_parts, parts_of_eq, neg_part_zero,
}
use evowork.Daemon.Trigger.Schedule.{
  ms_per_day, target_time, utc_from_local, next_daily, next_weekly, weekday_of,
}
use evowork.Daemon.Trigger.Schedule.Clock.{days_unique, weeks_lem, IsTime, IsClock, local_ms_lem}
use evowork.Daemon.Trigger.Schedule.Days.{
  local_day, time_of_day, target_time-lt, day_lem, day_start_lem, day_sum, ahead, day_order,
}

-- `next` is the first time from `from_ms` on at which `P` holds, at most 10,001 days ahead.
pub record IsFirst (P : ℕ → Type 0) (from_ms next : ℕ) : Type 0 where
  pub from : from_ms ≤ next
  pub holds : P next
  pub least : (t : ℕ) → from_ms ≤ t → P t → next ≤ t
  pub within : next ≤ from_ms + 10001 * ms_per_day

-- The days to wait for a daily time.
abbrev daily_wait : ℕ → ℕ → ℕ
daily_wait tod target = if leb tod target then 0 else 1

daily_wait_lem :
    (tod target : ℕ)
    → ((daily_wait tod target ≡ 0) × (tod ≤ target))
      ⊎ ((daily_wait tod target ≡ 1) × (target < tod))
daily_wait_lem tod target = ground arith

-- The next daily time is today's or tomorrow's.
next_daily_value :
    (from_ms hour minute : ℕ) (tz : ℤ)
    → IsTime from_ms
    → IsClock hour minute tz
    → let target = target_time hour minute in
      next_daily from_ms hour minute tz
      ≡ utc_from_local
          ((local_day from_ms tz +ℤ pos (daily_wait (time_of_day from_ms tz) target)) *ℤ ms_per_day
            +ℤ pos target)
          tz
unfolding next_daily
next_daily_value from_ms hour minute tz h c =
    let target = target_time-lt hour minute c.hour_to c.minute_to in
    let day = day_lem from_ms tz in
    rw (local_ms_lem from_ms tz h c.tz_from c.tz_to, day_start_lem from_ms tz h c.tz_from c.tz_to)
      (elim (Bool-cases (leb (time_of_day from_ms tz) (target_time hour minute))) [
        | inl e ↦ rw e (
            ap (λ z. utc_from_local z tz)
              (day_sum from_ms tz _ _ h c.tz_from c.tz_to (omega (int_laws, day))
                (omega (int_laws, day)) (eq_of_parts _ _ (omega int_laws))))
        | inr e ↦ rw e (
            ap (λ z. utc_from_local z tz)
              (day_sum from_ms tz _ _ h c.tz_from c.tz_to (omega (int_laws, day))
                (omega (int_laws, day)) (eq_of_parts _ _ (omega int_laws))))
      ])

-- `next_daily` is the first time from `from_ms` on at which the local clock shows the hour and the
-- minute, for a valid clock and `from_ms` below 2^62.
pub next_daily-IsFirst :
    (from_ms hour minute : ℕ) (tz : ℤ)
    → IsTime from_ms
    → IsClock hour minute tz
    → IsFirst
        (λ t. time_of_day t tz ≡ target_time hour minute)
        from_ms
        (next_daily from_ms hour minute tz)
next_daily-IsFirst from_ms hour minute tz h c =
    let day = local_day from_ms tz in
    let target = target_time hour minute in
    let wait = daily_wait (time_of_day from_ms tz) target in
    let wait_by = daily_wait_lem (time_of_day from_ms tz) target in
    let next =
      ahead from_ms tz (day +ℤ pos wait) target h c.tz_from c.tz_to
        (target_time-lt hour minute c.hour_to c.minute_to) (omega int_laws)
        (omega (int_laws, wait_by)) (omega (int_laws, wait_by)) in
    subst (IsFirst (λ t. time_of_day t tz ≡ target) from_ms)
      (sym (next_daily_value from_ms hour minute tz h c))
      (record {
        from = next.0;
        within = next.4;
        holds = next.2;
        least = λ t le e. next.3 t e (omega (int_laws, wait_by, e, day_order from_ms t tz le));
      })

-- The days to wait for a weekly time, with the byte that the subtraction is done in.
abbrev weekly_wait : ℕ → ℕ → ℕ → ℕ → ℕ
weekly_wait tod target weekday wd =
    let delta = (weekday + 7 - wd) % 2 ^ 8 % 7 in
    if (delta == 0) && ltb target tod then 7 else delta

weekly_wait_lem :
    (tod target weekday wd k : ℕ)
    → weekday ≤ 6
    → wd < 7
    → let wait = weekly_wait tod target weekday wd in
      (wait ≤ 7)
      × ((tod ≤ target) ⊎ (1 ≤ wait))
      × ((wd + wait) % 7 ≡ weekday)
      × (((wd + k) % 7 ≢ weekday) ⊎ (wait ≤ k) ⊎ ((k ≡ 0) × (target < tod)))
weekly_wait_lem tod target weekday wd k a b = ground arith

weekday_of-add : (d : ℤ) (n : ℕ) → weekday_of (d +ℤ pos n) ≡ (weekday_of d + n) % 7
unfolding weekday_of
weekday_of-add d n =
    let (now_eq, now_lt) = weeks_lem (d +ℤ pos 3) in
    let (then_eq, then_lt) = weeks_lem (d +ℤ pos n +ℤ pos 3) in
    let now = parts_of_eq (d +ℤ pos 3) _ now_eq in
    let then_ = parts_of_eq (d +ℤ pos n +ℤ pos 3) _ then_eq in omega (int_laws, now, then_)

weekday_of-lt : (d : ℤ) → weekday_of d < 7
unfolding weekday_of
weekday_of-lt d = (weeks_lem (d +ℤ pos 3)).1

day_after : (d e : ℤ) → d ≤ℤ e → (k : ℕ) × (e ≡ d +ℤ pos k)
day_after d e h =
    let none_below = neg_part_zero (e -ℤ d) (omega int_laws) in
    (pos_part (e -ℤ d), eq_of_parts _ _ (omega (int_laws, none_below)))

next_weekly_value :
    (from_ms weekday hour minute : ℕ) (tz : ℤ)
    → IsTime from_ms
    → weekday ≤ 6
    → IsClock hour minute tz
    → let target = target_time hour minute in
      let day = local_day from_ms tz in
      next_weekly from_ms weekday hour minute tz
      ≡ utc_from_local
          ((day +ℤ pos (weekly_wait (time_of_day from_ms tz) target weekday (weekday_of day)))
              *ℤ ms_per_day
            +ℤ pos target)
          tz
unfolding next_weekly
next_weekly_value from_ms weekday hour minute tz h w c =
    let target = target_time-lt hour minute c.hour_to c.minute_to in
    let today = local_day from_ms tz in
    let day = day_lem from_ms tz in
    let start =
      (days_unique (today *ℤ ms_per_day) today 0 (eq_of_parts _ _ (omega int_laws))
        (omega arith)).0 in
    let wait =
      weekly_wait_lem (time_of_day from_ms tz) (target_time hour minute) weekday (weekday_of today)
        0 w (weekday_of-lt today) in
    rw
      (
        local_ms_lem from_ms tz h c.tz_from c.tz_to,
        day_start_lem from_ms tz h c.tz_from c.tz_to,
        start,
      )
      (ap (λ z. utc_from_local z tz)
        (day_sum from_ms tz _ _ h c.tz_from c.tz_to (omega (int_laws, day, wait))
          (omega (int_laws, day, wait)) (eq_of_parts _ _ (omega int_laws))))

-- `next_weekly` is the first time from `from_ms` on at which the local clock shows the hour and the
-- minute on that day of the week, for a valid clock and weekday and `from_ms` below 2^62.
pub next_weekly-IsFirst :
    (from_ms weekday hour minute : ℕ) (tz : ℤ)
    → IsTime from_ms
    → weekday ≤ 6
    → IsClock hour minute tz
    → IsFirst
        (λ t.
          (time_of_day t tz ≡ target_time hour minute) × (weekday_of (local_day t tz) ≡ weekday))
        from_ms
        (next_weekly from_ms weekday hour minute tz)
next_weekly-IsFirst from_ms weekday hour minute tz h w c =
    let day = local_day from_ms tz in
    let target = target_time hour minute in
    let tod = time_of_day from_ms tz in
    let wait = weekly_wait tod target weekday (weekday_of day) in
    let wait_by =
      λ (k : ℕ). weekly_wait_lem tod target weekday (weekday_of day) k w (weekday_of-lt day) in
    let next =
      ahead from_ms tz (day +ℤ pos wait) target h c.tz_from c.tz_to
        (target_time-lt hour minute c.hour_to c.minute_to) (omega int_laws)
        (omega (int_laws, wait_by 0)) (omega (int_laws, wait_by 0)) in
    subst
      (IsFirst (λ t. (time_of_day t tz ≡ target) × (weekday_of (local_day t tz) ≡ weekday)) from_ms)
      (sym (next_weekly_value from_ms weekday hour minute tz h w c))
      (record {
        from = next.0;
        within = next.4;
        holds = (next.2, ap weekday_of next.1 ∙ weekday_of-add day wait ∙ (wait_by 0).2);
        least = λ t le (e, on).
            let order = day_order from_ms t tz le in
            let (k, k_eq) = day_after day (local_day t tz) (omega (arith, order)) in
            let on_day = sym (weekday_of-add day k) ∙ ap weekday_of (sym k_eq) ∙ on in
            let k_parts = parts_of_eq (local_day t tz) _ k_eq in
            next.3 t e (omega (int_laws, wait_by k, on_day, order, e, k_parts));
      })
