-- ===== src/Daemon/Trigger/Schedule/Days.antt =====
-- Days and times of day of the schedule of crates/evo-daemon/src/trigger.rs, and the times some
-- days ahead.
use evowork.Prelude.{ℕ, ◌+◌, ◌*◌, ◌^◌, ◌≤◌, ◌<◌, ◌≡◌, ◌∙◌, ◌⊎◌, arith}
use evowork.Prelude.Int.{
  ℤ, pos, pos_part, neg_part, ◌+ℤ◌, ◌-ℤ◌, ◌*ℤ◌, ◌≤ℤ◌, ◌<ℤ◌, wrap_i64, div_euclid, rem_euclid,
  wrap_i64_near, int_laws, eq_of_parts, parts_of_eq,
}
use evowork.Daemon.Trigger.Schedule.{ms_per_day, target_time, utc_from_local}
use evowork.Daemon.Trigger.Schedule.Clock.{
  days_lem, days_unique, IsTime, local_time, utc_from_local_lem,
}

-- The day that a time falls on at an offset, and the time of that day.
abbrev pub local_day : ℕ → ℤ → ℤ
local_day ms tz = div_euclid (local_time ms tz) ms_per_day

abbrev pub time_of_day : ℕ → ℤ → ℕ
time_of_day ms tz = rem_euclid (local_time ms tz) ms_per_day

pub target_time-lt :
    (hour minute : ℕ) → hour ≤ 23 → minute ≤ 59 → target_time hour minute < ms_per_day
target_time-lt hour minute h k = omega arith

-- `utc_from_local` of a time on a later day, or of a later time today.
found_time :
    (from_ms : ℕ) (tz q : ℤ) (r : ℕ)
    → IsTime from_ms
    → neg_part tz ≤ 840
    → pos_part tz ≤ 840
    → r < ms_per_day
    → local_time from_ms tz ≤ℤ q *ℤ ms_per_day +ℤ pos r
    → q *ℤ ms_per_day +ℤ pos r ≤ℤ local_time from_ms tz +ℤ pos (2 ^ 60)
    → let next = utc_from_local (q *ℤ ms_per_day +ℤ pos r) tz in
      (local_time next tz ≡ q *ℤ ms_per_day +ℤ pos r)
      × (local_day next tz ≡ q)
      × (time_of_day next tz ≡ r)
found_time from_ms tz q r h a b lt from to =
    let back = utc_from_local_lem from_ms (q *ℤ ms_per_day +ℤ pos r) tz h a b from to in
    let found = days_unique _ q r back lt in (back, found.0, found.1)

-- Local times are in the order of the times.
local_time-le : (s t : ℕ) (tz : ℤ) → (local_time s tz ≤ℤ local_time t tz) → s ≤ t
unfolding local_time
local_time-le s t tz h = omega int_laws

local_time-near :
    (s t : ℕ) (tz : ℤ) (n : ℕ) → local_time t tz ≤ℤ local_time s tz +ℤ pos n → t ≤ s + n
unfolding local_time
local_time-near s t tz n h = omega int_laws

pub le-local_time : (s t : ℕ) (tz : ℤ) → s ≤ t → local_time s tz ≤ℤ local_time t tz
unfolding local_time
le-local_time s t tz h = omega int_laws

-- A local time is the start of its day and the time of day.
pub day_lem :
    (ms : ℕ) (tz : ℤ)
    → (pos_part (local_time ms tz) + neg_part (local_day ms tz) * ms_per_day
        ≡ pos_part (local_day ms tz) * ms_per_day + time_of_day ms tz + neg_part (local_time ms tz))
      × (time_of_day ms tz < ms_per_day)
day_lem ms tz =
    let (z_eq, lt) = days_lem (local_time ms tz) in
    let parts = parts_of_eq (local_time ms tz) _ z_eq in (omega (int_laws, parts), lt)

-- The local times within 2 ^ 62 ms of the epoch are far from the bounds of an `i64`.
pub local_time_bounds :
    (ms : ℕ) (tz : ℤ)
    → IsTime ms
    → neg_part tz ≤ 840
    → pos_part tz ≤ 840
    → (neg_part (local_time ms tz) ≤ pos_part (local_time ms tz) + 2 ^ 26)
      × (pos_part (local_time ms tz) ≤ neg_part (local_time ms tz) + 2 ^ 62 + 2 ^ 26)
unfolding local_time
local_time_bounds ms tz h a b = omega int_laws

-- The start of the local day, as all three schedules compute it.
pub day_start_lem :
    (ms : ℕ) (tz : ℤ)
    → IsTime ms
    → neg_part tz ≤ 840
    → pos_part tz ≤ 840
    → wrap_i64 (local_time ms tz -ℤ pos (time_of_day ms tz)) ≡ local_day ms tz *ℤ ms_per_day
day_start_lem ms tz h a b =
    let bounds = local_time_bounds ms tz h a b in
    let day = day_lem ms tz in
    wrap_i64_near _ (omega (int_laws, bounds, day)) (omega (int_laws, bounds, day))
    ∙ eq_of_parts _ _ (omega (int_laws, day))

-- A sum of the source that lies within some days of the time does not overflow.
pub day_sum :
    (ms : ℕ) (tz z w : ℤ)
    → IsTime ms
    → neg_part tz ≤ 840
    → pos_part tz ≤ 840
    → local_time ms tz ≤ℤ z +ℤ pos ms_per_day
    → z ≤ℤ local_time ms tz +ℤ pos (2 ^ 60)
    → z ≡ w
    → wrap_i64 z ≡ w
day_sum ms tz z w h a b from to e =
    let bounds = local_time_bounds ms tz h a b in
    wrap_i64_near z (omega (int_laws, bounds)) (omega (int_laws, bounds)) ∙ e

-- What `utc_from_local` makes of a time some days ahead, none of it in the past.
pub ahead :
    (from_ms : ℕ) (tz q : ℤ) (r : ℕ)
    → IsTime from_ms
    → neg_part tz ≤ 840
    → pos_part tz ≤ 840
    → r < ms_per_day
    → local_day from_ms tz ≤ℤ q
    → q ≤ℤ local_day from_ms tz +ℤ pos 10000
    → time_of_day from_ms tz ≤ r ⊎ local_day from_ms tz <ℤ q
    → let next = utc_from_local (q *ℤ ms_per_day +ℤ pos r) tz in
      (from_ms ≤ next)
      × (local_day next tz ≡ q)
      × (time_of_day next tz ≡ r)
      × ((t : ℕ) → time_of_day t tz ≡ r → q ≤ℤ local_day t tz → next ≤ t)
      × (next ≤ from_ms + 10001 * ms_per_day)
ahead from_ms tz q r h a b lt from to later =
    let day = day_lem from_ms tz in
    let next = utc_from_local (q *ℤ ms_per_day +ℤ pos r) tz in
    let goal = q *ℤ ms_per_day +ℤ pos r in
    let not_past : local_time from_ms tz ≤ℤ goal = omega (int_laws, day) in
    let found = found_time from_ms tz q r h a b lt not_past (omega (int_laws, day)) in
    let at = parts_of_eq (local_time next tz) goal found.0 in
    (
      local_time-le from_ms next tz (omega (arith, at, not_past)),
      found.1,
      found.2,
      λ t e le. local_time-le next t tz (omega (int_laws, at, day_lem t tz)),
      local_time-near from_ms next tz (10001 * ms_per_day) (omega (int_laws, at, day)),
    )

-- A later time falls on no earlier day, and on the same day it is no earlier.
pub day_order :
    (s t : ℕ) (tz : ℤ)
    → s ≤ t
    → (local_day s tz <ℤ local_day t tz)
      ⊎ ((local_day t tz ≤ℤ local_day s tz)
          × (local_day s tz ≤ℤ local_day t tz)
          × (time_of_day s tz ≤ time_of_day t tz))
day_order s t tz h = omega (arith, le-local_time s t tz h, day_lem s tz, day_lem t tz)
