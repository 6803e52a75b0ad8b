-- ===== src/Daemon/Trigger/Schedule/Validity.antt =====
-- What `validate_spec` of crates/evo-daemon/src/trigger.rs lets through, and what it is worth for
-- `next_fire_ms`.
use evowork.Prelude.{ℕ, ◌+◌, ◌*◌, ◌≤◌, ◌<◌, ◌≡◌, ap, subst, ◌↔◌, arith, some, unwrap_or}
use evowork.Prelude.Int.{ℤ, pos, negsuc}
use evowork.Prelude.Results.{Result}
use evowork.Prelude.Words.{saturating_add}
use evowork.Protocol.Rpc.{TriggerSpec}
use evowork.Daemon.Trigger.Schedule.{ms_per_day, validate_clock, validate_spec, next_fire_ms}
use evowork.Daemon.Trigger.Schedule.Clock.{IsClock, IsTime}
use evowork.Daemon.Trigger.Schedule.Daily.{IsFirst, next_daily-IsFirst, next_weekly-IsFirst}
use evowork.Daemon.Trigger.Schedule.Monthly.{next_monthly-IsFirst}

-- The specs that make sense.
unfoldable pub IsSpec : TriggerSpec → Type 0
IsSpec (TriggerSpec.once at_ms) = Unit
IsSpec (TriggerSpec.interval every_ms) = 1 ≤ every_ms
IsSpec (TriggerSpec.daily hour minute tz) = IsClock hour minute tz
IsSpec (TriggerSpec.weekly weekday hour minute tz) = (weekday ≤ 6) × IsClock hour minute tz
IsSpec (TriggerSpec.monthly day hour minute tz) = (1 ≤ day) × (day ≤ 31) × IsClock hour minute tz
IsSpec TriggerSpec.webhook = Unit

clock_lem :
    (hour minute : ℕ) (tz : ℤ)
    → (validate_clock hour minute tz ≡ Result.ok tt) ↔ IsClock hour minute tz
unfolding validate_clock
clock_lem hour minute (pos n) = ground arith
clock_lem hour minute (negsuc n) = ground arith

-- `validate_spec` accepts exactly the specs whose interval is not 0, whose weekday is at most 6,
-- whose day is from 1 to 31, and whose clock has an hour to 23, a minute to 59 and at most 14 hours
-- of offset.
pub validate_spec_lem : (spec : TriggerSpec) → (validate_spec spec ≡ Result.ok tt) ↔ IsSpec spec
unfolding validate_spec IsSpec
validate_spec_lem (TriggerSpec.once at_ms) = ground arith
validate_spec_lem (TriggerSpec.interval every_ms) = ground arith
validate_spec_lem (TriggerSpec.daily hour minute tz) = clock_lem hour minute tz
validate_spec_lem (TriggerSpec.weekly weekday hour minute tz) =
    let clock = clock_lem hour minute tz in ground arith
validate_spec_lem (TriggerSpec.monthly day hour minute tz) =
    let clock = clock_lem hour minute tz in ground arith
validate_spec_lem TriggerSpec.webhook = ground arith

-- `next` is no earlier than `from_ms` and not far ahead, or is the time that was given.
unfoldable pub IsLater : TriggerSpec → ℕ → ℕ → Type 0
IsLater (TriggerSpec.once at_ms) from_ms next = at_ms ≡ next
IsLater (TriggerSpec.interval every_ms) from_ms next =
    (from_ms < next) × (next ≤ from_ms + every_ms)
IsLater _ from_ms next = (from_ms ≤ next) × (next ≤ from_ms + 10001 * ms_per_day)

interval_later :
    (from_ms every_ms next : ℕ)
    → 1 ≤ every_ms
    → IsTime from_ms
    → saturating_add from_ms every_ms ≡ next
    → (from_ms < next) × (next ≤ from_ms + every_ms)
unfolding saturating_add
interval_later from_ms every_ms next v h e = ground arith

-- A number that an `Option` holds.
some_number : (a b : ℕ) → some a ≡ some b → a ≡ b
some_number a b e = ap (λ o. unwrap_or o 0) e

near :
    {P : ℕ → Type 0} (from_ms found next : ℕ)
    → found ≡ next
    → IsFirst P from_ms found
    → (from_ms ≤ next) × (next ≤ from_ms + 10001 * ms_per_day)
near from_ms found next e first =
    subst (λ n. (from_ms ≤ n) × (n ≤ from_ms + 10001 * ms_per_day)) e (first.from, first.within)

-- A spec that `validate_spec` accepts is not due before the time that `next_fire_ms` is asked
-- about, nor more than 10,001 days after it, and an interval is due later than that and no later
-- than the interval; a one-time spec is due at its time, past or not.
pub next_fire_ms-from :
    (spec : TriggerSpec) (from_ms next : ℕ)
    → validate_spec spec ≡ Result.ok tt
    → IsTime from_ms
    → next_fire_ms spec from_ms ≡ some next
    → IsLater spec from_ms next
unfolding next_fire_ms IsSpec IsLater
next_fire_ms-from spec from_ms next valid h e = go spec ((validate_spec_lem spec).0 valid) e
  where
    go :
        (spec : TriggerSpec)
        → IsSpec spec
        → next_fire_ms spec from_ms ≡ some next
        → IsLater spec from_ms next
    go (TriggerSpec.once at_ms) v e = some_number at_ms next e
    go (TriggerSpec.interval every_ms) v e =
        interval_later from_ms every_ms next v h (some_number _ next e)
    go (TriggerSpec.daily hour minute tz) v e =
        near from_ms _ next (some_number _ next e) (next_daily-IsFirst from_ms hour minute tz h v)
    go (TriggerSpec.weekly weekday hour minute tz) (w, v) e =
        near from_ms _ next (some_number _ next e)
          (next_weekly-IsFirst from_ms weekday hour minute tz h w v)
    go (TriggerSpec.monthly day hour minute tz) (a, b, v) e =
        near from_ms _ next (some_number _ next e)
          (next_monthly-IsFirst from_ms day hour minute tz h a b v)
    go TriggerSpec.webhook v e = ground arith
