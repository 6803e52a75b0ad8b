-- ===== src/Daemon/TriggerExamples.antt =====
-- The theorems on the calendar, the schedule and the trigger table at concrete times and triggers.
use evowork.Prelude.{
  ℕ, ◌^◌, ◌↔◌, ◌≡◌, refl, String, true, false, none, some, [], ◌∷◌, arith, inl, Option,
}
use evowork.Prelude.Int.{pos, as_u32, ◌-ℤ◌, ◌+ℤ◌, ◌*ℤ◌, trunc_div, as_i32, rem_abs, as_u64, as_i64}
use evowork.Prelude.Results.{Result}
use evowork.Protocol.Rpc.{TriggerSpec, TriggerCreateParams}
use evowork.Daemon.Error.{DaemonError}
use evowork.Daemon.Samples.{env, fresh}
use evowork.Daemon.Trigger.Calendar.{
  civil, civil_from_unix_days, date_in_era, floor_div, year_of_era, before_year, days_in_month,
  is_leap,
}
use evowork.Daemon.Trigger.Calendar.Valid.{IsDate}
use evowork.Daemon.Trigger.Schedule.{
  target_time, next_daily, next_weekly, next_monthly, weekday_of, validate_spec,
}
use evowork.Daemon.Trigger.Schedule.Clock.{IsClock}
use evowork.Daemon.Trigger.Schedule.Days.{local_day, time_of_day}
use evowork.Daemon.Trigger.Schedule.Daily.{IsFirst, next_daily-IsFirst, next_weekly-IsFirst}
use evowork.Daemon.Trigger.Schedule.Monthly.{next_monthly-IsFirst}
use evowork.Daemon.Trigger.Schedule.Validity.{validate_spec_lem, IsSpec}
use evowork.Daemon.Trigger.Store.{
  SpecJson, TriggerRecord, Table, row_of, insert, insert_row, get, query_one, record_from_mapped,
  record_of, is_due,
}
use evowork.Daemon.Trigger.Store.Laws.{get-insert}
use evowork.Daemon.Scheduler.{Host, AppState, fired_at, fire_record, claim}
use evowork.Daemon.Scheduler.Records.{is_webhook}
use evowork.Daemon.Scheduler.Guards.{
  IsRefused, fire_record-IsRefused, dryrun-claim, would_fire, is_held, is_due-fired_at,
  interval_wraps,
}
use evowork.Daemon.Scheduler.Hooks.{StoresHooked, update_trigger-StoresHooked}
use evowork.Daemon.Scheduler.Requests.{trigger_dryrun, update_trigger}
use evowork.Prelude.{◌&&◌, ◌||◌, not}

-- 2024-02-29.
leap_day : civil_from_unix_days (pos 19782) ≡ civil (pos 2024) 2 29
unfolding civil_from_unix_days date_in_era as_u32 ◌-ℤ◌ ◌+ℤ◌ ◌*ℤ◌ floor_div trunc_div before_year
    year_of_era as_i32
leap_day = refl

leap_month : days_in_month (pos 2024) 2 ≡ some 29
unfolding days_in_month is_leap rem_abs
leap_month = refl

abbrev leap_date : IsDate (pos 2024) 2 29
leap_date = record {
  month_from = omega arith;
  month_to = omega arith;
  day_from = omega arith;
  days = 29;
  days_eq = leap_month;
  day_to = omega arith;
}

-- Half past nine in Shanghai.
abbrev clock : IsClock 9 30 (pos 480)
clock = record {
  hour_to = omega arith;
  minute_to = omega arith;
  tz_from = omega arith;
  tz_to = omega arith;
}

abbrev now : ℕ
now = 1788000000000

next_daily-IsFirst_example :
    IsFirst (λ t. time_of_day t (pos 480) ≡ target_time 9 30) now (next_daily now 9 30 (pos 480))
next_daily-IsFirst_example = next_daily-IsFirst now 9 30 (pos 480) (omega arith) clock

next_weekly-IsFirst_example :
    IsFirst
      (λ t. (time_of_day t (pos 480) ≡ target_time 9 30) × (weekday_of (local_day t (pos 480)) ≡ 4))
      now
      (next_weekly now 4 9 30 (pos 480))
next_weekly-IsFirst_example =
    next_weekly-IsFirst now 4 9 30 (pos 480) (omega arith) (omega arith) clock

-- The 31st of a month.
next_monthly-IsFirst_example :
    IsFirst
      (λ t.
        (time_of_day t (pos 480) ≡ target_time 9 30)
        × ((civil_from_unix_days (local_day t (pos 480))).day ≡ 31))
      now
      (next_monthly now 31 9 30 (pos 480))
next_monthly-IsFirst_example =
    next_monthly-IsFirst now 31 9 30 (pos 480) (omega arith) (omega arith) (omega arith) clock

abbrev weekly : TriggerSpec
weekly = TriggerSpec.weekly 4 9 30 (pos 480)

validate_spec_lem_example : (validate_spec weekly ≡ Result.ok tt) ↔ IsSpec weekly
validate_spec_lem_example = validate_spec_lem weekly

every_minute : validate_spec (TriggerSpec.interval 60000) ≡ Result.ok tt
unfolding validate_spec
every_minute = refl

-- serde_json writes only web hooks here.
abbrev hook_text : TriggerSpec → Option String
hook_text TriggerSpec.webhook = some "webhook"
hook_text _ = none

abbrev json : SpecJson
json = record { to_string = hook_text; from_str = λ text. some TriggerSpec.webhook }

abbrev hook : TriggerRecord
hook = record {
  id = "t-1";
  name = "deploy";
  intent = "check the deploy";
  spec = TriggerSpec.webhook;
  paused = true;
  hook_secret = some "s";
  next_fire_ms = none;
  last_run_id = none;
  last_fired_ms = none;
  created_ms = 5;
}

abbrev table : Table
table = row_of hook "webhook" ∷ []

read_back :
    (spec : TriggerSpec) (text : String)
    → hook_text spec ≡ some text
    → some TriggerSpec.webhook ≡ some spec
read_back (TriggerSpec.once a) text h = absurd (cc)
read_back (TriggerSpec.interval a) text h = absurd (cc)
read_back (TriggerSpec.daily a b c) text h = absurd (cc)
read_back (TriggerSpec.weekly a b c d) text h = absurd (cc)
read_back (TriggerSpec.monthly a b c d) text h = absurd (cc)
read_back TriggerSpec.webhook text h = refl

inserted : insert json hook [] ≡ Result.ok table
unfolding insert insert_row
inserted = refl

get-insert_example : get json "t-1" table ≡ Result.ok (some hook)
get-insert_example =
    get-insert json hook [] table read_back
      (record { next_fire = tt; last_fired = tt; created = omega arith }) inserted

abbrev host : Host ℕ
host = record { unix_ms = λ w. w; random_hook_secret = λ w. (some "s", w) }

abbrev state : AppState ℕ
state = record { runtime = fresh; triggers = table; next_run = 1; next_trigger = 1 }

found : get json "t-1" state.triggers ≡ Result.ok (some hook)
unfolding get query_one record_from_mapped record_of as_u64 as_i64
found = refl

fire_record-IsRefused_example :
    IsRefused state (DaemonError.trigger_paused "t-1") (fire_record env host json "t-1" 7 state)
fire_record-IsRefused_example =
    fire_record-IsRefused env host json state "t-1" 7 hook found (inl refl)

read_row : record_from_mapped json (row_of hook "webhook") ≡ Result.ok hook
unfolding record_from_mapped record_of as_u64 as_i64
read_row = refl

dryrun-claim_example :
    would_fire (trigger_dryrun env host json (record { trigger_id = "t-1" }) state) ≡ (
      (is_due (env.now_ms state.runtime.world).0 (row_of hook "webhook") || is_webhook hook.spec)
      && not (is_held (claim env host json "t-1" "r-9" state)))
dryrun-claim_example =
    dryrun-claim env host json state "t-1" "r-9" (row_of hook "webhook") [] hook false refl read_row
      refl tt (omega arith)

abbrev endless : TriggerRecord
endless = record hook { spec = TriggerSpec.interval (2 ^ 63); paused = false }

abbrev minutely : TriggerRecord
minutely = record hook { spec = TriggerSpec.interval 60000; paused = false }

is_due-fired_at_example : is_due now (row_of (fired_at now minutely) "interval") ≡ false
is_due-fired_at_example =
    is_due-fired_at minutely now now "interval" every_minute (omega arith) (omega arith)
      (omega arith)

interval_wraps_example : is_due now (row_of (fired_at now endless) "interval") ≡ true
interval_wraps_example =
    interval_wraps endless (2 ^ 63) now "interval" refl refl (omega arith) (omega arith)

abbrev revision : TriggerCreateParams
revision = record {
  name = "deploy";
  intent = "check";
  spec = TriggerSpec.webhook;
  paused = some false;
  trigger_id = some "t-1";
}

update_trigger-StoresHooked_example :
    StoresHooked env host json "t-1" (update_trigger env host json "t-1" revision 7 state)
update_trigger-StoresHooked_example =
    update_trigger-StoresHooked env host json "t-1" revision 7 state hook read_back found refl
