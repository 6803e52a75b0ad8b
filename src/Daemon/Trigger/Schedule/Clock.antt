-- ===== src/Daemon/Trigger/Schedule/Clock.antt =====
-- The times of day of the schedule of crates/evo-daemon/src/trigger.rs: what a day, a local time
-- and a time of day have to do with each other.
use evowork.Prelude.{ℕ, ◌^◌, ◌≤◌, ◌<◌, ◌≡◌, arith}
use evowork.Prelude.Int.{
  ℤ, pos, negsuc, pos_part, neg_part, ◌+ℤ◌, ◌-ℤ◌, ◌*ℤ◌, ◌≤ℤ◌, div_euclid, rem_euclid, as_i64_small,
  wrap_i64_near, as_u64_fits, int_laws, eq_of_parts, parts_of_eq, neg_part_zero,
}
use evowork.Daemon.Trigger.Schedule.{ms_per_minute, ms_per_day, local_ms, utc_from_local, max_0}

-- A number of days and the rest.
pub days_lem :
    (z : ℤ)
    → (z ≡ div_euclid z ms_per_day *ℤ ms_per_day +ℤ pos (rem_euclid z ms_per_day))
      × (rem_euclid z ms_per_day < ms_per_day)
unfolding div_euclid rem_euclid ◌*ℤ◌ ◌+ℤ◌
days_lem (pos n) = ground arith
days_lem (negsuc n) = ground arith

pub days_unique :
    (z q : ℤ) (r : ℕ)
    → z ≡ q *ℤ ms_per_day +ℤ pos r
    → r < ms_per_day
    → (div_euclid z ms_per_day ≡ q) × (rem_euclid z ms_per_day ≡ r)
days_unique z q r e h =
    let (z_eq, lt) = days_lem z in
    let given = parts_of_eq z _ e in
    let found = parts_of_eq z _ z_eq in
    (eq_of_parts _ _ (omega (int_laws, given, found, lt)), omega (int_laws, given, found, lt))

pub weeks_lem : (z : ℤ) → (z ≡ div_euclid z 7 *ℤ 7 +ℤ pos (rem_euclid z 7)) × (rem_euclid z 7 < 7)
unfolding div_euclid rem_euclid ◌*ℤ◌ ◌+ℤ◌
weeks_lem (pos n) = ground arith
weeks_lem (negsuc n) = ground arith

-- A time for which nothing of the schedule overflows an `i64`, some 146 million years.
abbrev pub IsTime : ℕ → Type 0
IsTime ms = ms < 2 ^ 62

-- What `validate_clock` accepts.
pub record IsClock (hour minute : ℕ) (tz : ℤ) : Type 0 where
  pub hour_to : hour ≤ 23
  pub minute_to : minute ≤ 59
  pub tz_from : neg_part tz ≤ 840
  pub tz_to : pos_part tz ≤ 840

-- The time on the clock at an offset from UTC.
unfoldable pub local_time : ℕ → ℤ → ℤ
local_time ms tz = pos ms +ℤ tz *ℤ ms_per_minute

pub local_ms_lem :
    (ms : ℕ) (tz : ℤ)
    → IsTime ms
    → neg_part tz ≤ 840
    → pos_part tz ≤ 840
    → local_ms ms tz ≡ local_time ms tz
unfolding local_ms local_time
local_ms_lem ms tz h a b =
    let t = pos ms +ℤ tz *ℤ ms_per_minute in
    rw (as_i64_small ms (omega arith)) (wrap_i64_near t (omega int_laws) (omega int_laws))

max_0-nonneg : (z : ℤ) → neg_part z ≤ pos_part z → max_0 z ≡ z
max_0-nonneg (pos n) h = ground arith
max_0-nonneg (negsuc n) h = absurd (omega arith)

-- A local time that is no earlier than the epoch in UTC is read back.
pub utc_from_local_lem :
    (ms : ℕ) (local tz : ℤ)
    → IsTime ms
    → neg_part tz ≤ 840
    → pos_part tz ≤ 840
    → local_time ms tz ≤ℤ local
    → local ≤ℤ local_time ms tz +ℤ pos (2 ^ 60)
    → local_time (utc_from_local local tz) tz ≡ local
unfolding utc_from_local local_time
utc_from_local_lem ms local tz h a b from to =
    let utc = local -ℤ tz *ℤ ms_per_minute in
    let none_below = neg_part_zero utc (omega int_laws) in
    let fits = wrap_i64_near utc (omega int_laws) (omega int_laws) in
    let back = as_u64_fits utc none_below (omega (int_laws, none_below)) in
    rw (fits, max_0-nonneg utc (omega (arith, none_below)), back) (eq_of_parts _ _ (omega int_laws))
