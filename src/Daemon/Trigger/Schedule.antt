-- ===== src/Daemon/Trigger/Schedule.antt =====
-- When a trigger of crates/evo-daemon/src/trigger.rs fires next. Times are `u64` milliseconds, cast
-- to `i64` as the source does.
use evowork.Prelude.{
  ℕ, zero, suc, ◌+◌, ◌-◌, ◌*◌, ◌%◌, ◌^◌, String, Bool, ◌&&◌, ◌||◌, Option, none, some, ltb, leb,
  ◌==◌, if◌then◌else◌, unwrap_or, is_some_and,
}
use evowork.Prelude.Int.{
  ℤ, pos, negsuc, pos_part, ◌+ℤ◌, ◌-ℤ◌, ◌*ℤ◌, leb_ℤ, ltb_ℤ, as_i64, as_u64, wrap_i64, div_euclid,
  rem_euclid,
}
use evowork.Prelude.Results.{Result}
use evowork.Prelude.Words.{saturating_add}
use evowork.Protocol.Rpc.{TriggerSpec}
use evowork.Daemon.Trigger.Calendar.{days_in_month, civil_from_unix_days, unix_days_from_civil}
pub mod Clock
pub mod Days
pub mod Daily
pub mod Loop
pub mod Ahead
pub mod Monthly
pub mod Validity

abbrev pub ms_per_minute : ℕ
ms_per_minute = 60000

abbrev pub ms_per_hour : ℕ
ms_per_hour = 3600000

abbrev pub ms_per_day : ℕ
ms_per_day = 86400000

unfoldable pub validate_clock : ℕ → ℕ → ℤ → Result {0, 0} Unit String
validate_clock hour minute tz_offset_minutes =
    if ltb 23 hour
    then Result.err "hour must be 0..=23"
    else if ltb 59 minute
    then Result.err "minute must be 0..=59"
    else if leb_ℤ (negsuc (14 * 60 - 1)) tz_offset_minutes
        && leb_ℤ tz_offset_minutes (pos (14 * 60))
    then Result.ok tt
    else Result.err "tz_offset_minutes must be within ±14 hours"

unfoldable pub validate_spec : TriggerSpec → Result {0, 0} Unit String
validate_spec (TriggerSpec.once at_ms) = Result.ok tt
validate_spec (TriggerSpec.interval every_ms) =
    if every_ms == 0 then Result.err "interval.every_ms must be > 0" else Result.ok tt
validate_spec (TriggerSpec.daily hour minute tz) = validate_clock hour minute tz
validate_spec (TriggerSpec.weekly weekday hour minute tz) =
    if ltb 6 weekday
    then Result.err "weekly.weekday must be 0..=6 (0=Monday)"
    else validate_clock hour minute tz
validate_spec (TriggerSpec.monthly day hour minute tz) =
    if (day == 0) || ltb 31 day
    then Result.err "monthly.day must be 1..=31"
    else validate_clock hour minute tz
validate_spec TriggerSpec.webhook = Result.ok tt

unfoldable pub local_ms : ℕ → ℤ → ℤ
local_ms utc_ms tz = wrap_i64 (as_i64 utc_ms +ℤ tz *ℤ ms_per_minute)

-- `.max(0)` on an `i64`.
abbrev pub max_0 : ℤ → ℤ
max_0 z = if ltb_ℤ z (pos 0) then pos 0 else z

unfoldable pub utc_from_local : ℤ → ℤ → ℕ
utc_from_local local tz = as_u64 (max_0 (wrap_i64 (local -ℤ tz *ℤ ms_per_minute)))

-- `hour` and `minute` are bytes, so this is far from overflow.
abbrev pub target_time : ℕ → ℕ → ℕ
target_time hour minute = hour * ms_per_hour + minute * ms_per_minute

unfoldable pub next_daily : ℕ → ℕ → ℕ → ℤ → ℕ
next_daily from_ms hour minute tz =
    let local = local_ms from_ms tz in
    let tod = rem_euclid local ms_per_day in
    let day_start = wrap_i64 (local -ℤ pos tod) in
    let target_tod = target_time hour minute in
    let local_next =
      if leb tod target_tod
      then wrap_i64 (day_start +ℤ pos target_tod)
      else wrap_i64 (day_start +ℤ pos ms_per_day +ℤ pos target_tod) in
    utc_from_local local_next tz

-- The day of the week that a local day number falls on; 1970-01-01 was a Thursday, 3.
unfoldable pub weekday_of : ℤ → ℕ
weekday_of days_since_epoch = rem_euclid (days_since_epoch +ℤ pos 3) 7

unfoldable pub next_weekly : ℕ → ℕ → ℕ → ℕ → ℤ → ℕ
next_weekly from_ms weekday hour minute tz =
    let local = local_ms from_ms tz in
    let tod = rem_euclid local ms_per_day in
    let day_start = wrap_i64 (local -ℤ pos tod) in
    let wd = weekday_of (div_euclid day_start ms_per_day) in
    let target_tod = target_time hour minute in
    let delta = (weekday + 7 - wd) % 2 ^ 8 % 7 in
    let delta_days = if (delta == 0) && ltb target_tod tod then 7 else delta in
    utc_from_local (wrap_i64 (day_start +ℤ pos (delta_days * ms_per_day) +ℤ pos target_tod)) tz

-- A month's candidate: the local time on that day of the month, unless the month is too short.
unfoldable pub candidate : ℤ → ℕ → ℕ → ℕ → Option ℤ
candidate year month day target_tod =
    if is_some_and (days_in_month year month) (leb day)
    then some (wrap_i64 (unix_days_from_civil year month day *ℤ ms_per_day +ℤ pos target_tod))
    else none

-- The `for` loop of `next_monthly`, with `left` rounds to go.
unfoldable pub month_loop : ℕ → ℤ → ℕ → ℕ → ℕ → ℤ → Option ℤ
month_loop zero year month day target_tod local = none
month_loop (suc left) year month day target_tod local =
    let wraps = month + 1 == 13 in
    let rest =
      month_loop left (if wraps then year +ℤ pos 1 else year) (if wraps then 1 else month + 1) day
        target_tod local in
    elim (candidate year month day target_tod) [
      | none ↦ rest
      | some found ↦ if leb_ℤ local found then some found else rest
    ]

unfoldable pub next_monthly : ℕ → ℕ → ℕ → ℕ → ℤ → ℕ
next_monthly from_ms day hour minute tz =
    let local = local_ms from_ms tz in
    let tod = rem_euclid local ms_per_day in
    let day_start = wrap_i64 (local -ℤ pos tod) in
    let today = civil_from_unix_days (div_euclid day_start ms_per_day) in
    elim (month_loop 28 today.year today.month day (target_time hour minute) local) [
      | none ↦ from_ms
      | some found ↦ utc_from_local found tz
    ]

unfoldable pub next_fire_ms : TriggerSpec → ℕ → Option ℕ
next_fire_ms TriggerSpec.webhook from_ms = none
next_fire_ms (TriggerSpec.once at_ms) from_ms = some at_ms
next_fire_ms (TriggerSpec.interval every_ms) from_ms = some (saturating_add from_ms every_ms)
next_fire_ms (TriggerSpec.daily hour minute tz) from_ms = some (next_daily from_ms hour minute tz)
next_fire_ms (TriggerSpec.weekly weekday hour minute tz) from_ms =
    some (next_weekly from_ms weekday hour minute tz)
next_fire_ms (TriggerSpec.monthly day hour minute tz) from_ms =
    some (next_monthly from_ms day hour minute tz)
