-- ===== src/Daemon/Scheduler/Guards.antt =====
-- When the scheduler of crates/evo-daemon/src/http.rs leaves a trigger alone, and that it does not
-- fire one twice.
use evowork.Prelude.{
  ℕ, ◌+◌, ◌*◌, ◌^◌, ◌≤◌, ◌<◌, ◌≡◌, refl, sym, String, Bool, true, false, not, ◌&&◌, ◌||◌, ◌∷◌, ◌∙◌,
  Option, Option-cases, is_some_and, leb, none, some, Bool-cases, if◌then◌else◌, ◌⊎◌, inl, inr,
  arith,
}
use evowork.Prelude.Int.{ℤ, pos, negsuc, as_i64, as_i64_small, as_i64_wraps, leb_ℤ, ◌<ℤ◌, as_u64}
use evowork.Prelude.Results.{Result}
use evowork.Prelude.Words.{saturating_add}
use evowork.Protocol.Base.{RunId}
use evowork.Protocol.Rpc.{TriggerSpec, TriggerDryrunResult}
use evowork.Daemon.Action.{Outcome, and_then, pure}
use evowork.Daemon.Error.{DaemonError}
use evowork.Daemon.Machine.{Env}
use evowork.Daemon.Trigger.Schedule.{ms_per_day, next_fire_ms, validate_spec}
use evowork.Daemon.Trigger.Schedule.Clock.{IsTime}
use evowork.Daemon.Trigger.Schedule.Validity.{next_fire_ms-from, IsLater}
use evowork.Daemon.Trigger.Store.{
  SpecJson, TriggerRecord, TriggerStoreError, Table, MappedRow, get, is_due, row_of, has_id,
  record_from_mapped, map_option,
}
use evowork.Daemon.Trigger.Store.Lookups.{IsRecordOf, mapped-IsRecordOf, get-first}
use evowork.Runlog.Store.{filter}
use evowork.Daemon.Scheduler.Records.{is_webhook}
use evowork.Daemon.Scheduler.{
  Host, AppState, next_after, fired_at, reads, writes, write_result, now_ms, alloc_run_id, active,
  claim, fire_record,
}
use evowork.Daemon.Scheduler.Requests.{trigger_dryrun}

and_false : (b : Bool) → (b && false) ≡ false
and_false b = ground arith

and_not : (b c : Bool) → c ≡ false → (b && not c) ≡ b
and_not b c h = ground arith

-- A refused call: it fails with the error, and neither the runtime with its log nor the triggers
-- have changed.
pub data IsRefused {World A : Type 0} (s : AppState World) (e : DaemonError)
    : Outcome (AppState World) A → Type 0 where
  refuses : (n : ℕ) → IsRefused s e (Outcome.err e (record s { next_run = n }))

-- A trigger that is paused is not fired, nor one whose last run is active, which counts so when it
-- cannot be replayed: the call fails with that error, no run is started and nothing is written.
pub fire_record-IsRefused :
    (env : Env) (host : Host env.World) (json : SpecJson) (s : AppState env.World)
    (trigger_id : String) (now : ℕ) (rec : TriggerRecord)
    → get json trigger_id s.triggers ≡ Result.ok (some rec)
    → (rec.paused ≡ true) ⊎ (active env host json s.runtime.log rec.last_run_id ≡ some true)
    → IsRefused s
        (if rec.paused
          then DaemonError.trigger_paused trigger_id
          else DaemonError.trigger_busy trigger_id)
        (fire_record env host json trigger_id now s)
unfolding fire_record claim reads alloc_run_id and_then
fire_record-IsRefused env host json s trigger_id now rec found held = elim (Bool-cases rec.paused) [
  | inl paused ↦ rw (found, paused) (refuses _)
  | inr running ↦ elim held [
    | inl paused ↦ absurd (ground arith)
    | inr occupied ↦ rw (found, running, occupied) (refuses _)
  ]
]

-- What keeps a trigger from being fired.
abbrev pub is_held : {S A : Type 0} → Outcome S A → Bool
is_held (Outcome.err (DaemonError.trigger_paused id) s) = true
is_held (Outcome.err (DaemonError.trigger_busy id) s) = true
is_held _ = false

abbrev pub would_fire : {S : Type 0} → Outcome S TriggerDryrunResult → Bool
would_fire (Outcome.ok result s) = result.would_fire_now
would_fire _ = false

write_is_not_held :
    (env : Env) (host : Host env.World) (json : SpecJson) (s : AppState env.World)
    (rec : TriggerRecord) (updated : Result Table TriggerStoreError)
    → is_held (and_then (λ _. pure rec) (write_result env host json s updated)) ≡ false
unfolding and_then
write_is_not_held env host json s rec (Result.ok table) = refl
write_is_not_held env host json s rec (Result.err e) = refl

-- The time in a row is one that an `i64` holds as it is.
abbrev pub IsKept : Option ℤ → Type 0
IsKept none = Unit
IsKept (some (pos n)) = n < 2 ^ 63
IsKept (some (negsuc n)) = ⊥

as_u64_small : (n : ℕ) → n < 2 ^ 64 → as_u64 (pos n) ≡ n
unfolding as_u64
as_u64_small n h = ground arith

leb-leb_ℤ :
    (at : Option ℤ) (now : ℕ)
    → IsKept at
    → now < 2 ^ 63
    → is_some_and (map_option as_u64 at) (λ t. leb t now)
      ≡ is_some_and at (λ t. leb_ℤ t (as_i64 now))
leb-leb_ℤ none now h k = refl
leb-leb_ℤ (some (pos n)) now h k =
    rw (as_u64_small n (omega arith), as_i64_small now k) (ground arith)
leb-leb_ℤ (some (negsuc n)) now h k = absurd h

-- The test of `trigger.dryrun` is the query of the scheduler, for a trigger that is not paused.
fires_at-is_due :
    (row : MappedRow) (rec : TriggerRecord) (now : ℕ)
    → IsRecordOf rec row
    → IsKept row.next_fire_ms
    → now < 2 ^ 63
    → rec.paused ≡ false
    → (is_some_and rec.next_fire_ms (λ t. leb t now) || is_webhook rec.spec)
      ≡ (is_due now row || is_webhook rec.spec)
fires_at-is_due row rec now of h k free =
    rw (of.next_fire, sym of.paused, free, leb-leb_ℤ row.next_fire_ms now h k) refl

-- `trigger.dryrun` says that a trigger would fire exactly when the due query of the scheduler takes
-- its row, or it is a web hook, and the claim that `fire_record` begins with is not refused because
-- it is paused or its last run is active: for a trigger whose row is in the store and whose last run
-- can be judged, and for times that fit an `i64`.
pub dryrun-claim :
    (env : Env) (host : Host env.World) (json : SpecJson) (s : AppState env.World)
    (trigger_id : String) (run_id : RunId) (row : MappedRow) (rows : Table) (rec : TriggerRecord)
    (occupied : Bool)
    → filter (has_id trigger_id) s.triggers ≡ row ∷ rows
    → record_from_mapped json row ≡ Result.ok rec
    → active env host json s.runtime.log rec.last_run_id ≡ some occupied
    → IsKept row.next_fire_ms
    → (env.now_ms s.runtime.world).0 < 2 ^ 63
    → would_fire (trigger_dryrun env host json (record { trigger_id = trigger_id }) s) ≡ (
        (is_due (env.now_ms s.runtime.world).0 row || is_webhook rec.spec)
        && not (is_held (claim env host json trigger_id run_id s)))
unfolding trigger_dryrun claim reads writes and_then now_ms
dryrun-claim env host json s trigger_id run_id row rows rec occupied first read judged kept soon =
    let found = get-first json trigger_id s.triggers rows row rec first read in
    let now = (env.now_ms s.runtime.world).0 in
    let of = mapped-IsRecordOf json row rec read in
    elim (Bool-cases rec.paused) [
      | inl paused ↦ rw (found, judged, paused) (sym (and_false _))
      | inr free ↦ elim (Bool-cases occupied) [
        | inl busy ↦ rw (found, free, judged, busy) (sym (and_false _))
        | inr idle ↦
            rw (found, free, judged, idle)
              (fires_at-is_due row rec now of kept soon free
                ∙ sym (
                    and_not _ _
                      (write_is_not_held env host json s (record rec { paused = false }) _)))
      ]
    ]

a_ms_on : (now : ℕ) → IsTime (now + 1) → IsTime (saturating_add now 1)
unfolding saturating_add
a_ms_on now h = ground arith

none-some : {n : ℕ} → none ≡ some n → ⊥
none-some h = cc

far : (now every_ms : ℕ) → 2 ^ 63 ≤ every_ms → 2 ^ 63 ≤ saturating_add now every_ms
unfolding saturating_add
far now every_ms h = ground arith

negative-leb : (a : ℤ) (n : ℕ) → a <ℤ pos 0 → leb_ℤ a (pos n) ≡ true
negative-leb (pos m) n h = absurd (omega arith)
negative-leb (negsuc m) n h = ground arith

-- An interval that is short enough for its next time to fit an `i64`.
abbrev pub IsShort : TriggerSpec → Type 0
IsShort (TriggerSpec.interval every_ms) = every_ms < 2 ^ 62
IsShort _ = Unit

ahead_of :
    (now next : ℕ)
    → (saturating_add now 1 ≤ next) × (next ≤ saturating_add now 1 + 10001 * ms_per_day)
    → IsTime (now + 1)
    → (now < next) × (next < 2 ^ 63)
unfolding saturating_add
ahead_of now next h k = ground arith

next_after-later :
    (spec : TriggerSpec) (now next : ℕ)
    → validate_spec spec ≡ Result.ok tt
    → IsShort spec
    → IsTime (now + 1)
    → next_after spec now ≡ some next
    → (now < next) × (next < 2 ^ 63)
unfolding next_after IsLater
next_after-later (TriggerSpec.once at_ms) now next valid b h e = absurd (none-some e)
next_after-later (TriggerSpec.interval every_ms) now next valid b h e =
    let later = next_fire_ms-from (TriggerSpec.interval every_ms) now next valid (omega arith) e in
    omega (arith, later)
next_after-later (TriggerSpec.daily hour minute tz) now next valid b h e =
    ahead_of now next
      (next_fire_ms-from (TriggerSpec.daily hour minute tz) (saturating_add now 1) next valid
        (a_ms_on now h) e)
      h
next_after-later (TriggerSpec.weekly weekday hour minute tz) now next valid b h e =
    ahead_of now next
      (next_fire_ms-from (TriggerSpec.weekly weekday hour minute tz) (saturating_add now 1) next
        valid (a_ms_on now h) e)
      h
next_after-later (TriggerSpec.monthly day hour minute tz) now next valid b h e =
    ahead_of now next
      (next_fire_ms-from (TriggerSpec.monthly day hour minute tz) (saturating_add now 1) next valid
        (a_ms_on now h) e)
      h
next_after-later TriggerSpec.webhook now next valid b h e = absurd (none-some e)

not_due :
    (t now next : ℕ)
    → t ≤ now
    → (now < next) × (next < 2 ^ 63)
    → leb_ℤ (as_i64 next) (as_i64 t) ≡ false
not_due t now next h k =
    rw (as_i64_small next (omega arith), as_i64_small t (omega arith)) (ground arith)

-- A trigger that has fired is not due again at that time, nor at an earlier one, however the clock is
-- set back: the query of the scheduler does not take its row. This is so of a spec that
-- `validate_spec` accepts, with an interval below 2^62 ms if it has one, for times below 2^62 - 1.
pub is_due-fired_at :
    (rec : TriggerRecord) (now t : ℕ) (text : String)
    → validate_spec rec.spec ≡ Result.ok tt
    → IsShort rec.spec
    → IsTime (now + 1)
    → t ≤ now
    → is_due t (row_of (fired_at now rec) text) ≡ false
is_due-fired_at rec now t text valid short h before =
    elim (Option-cases (next_after rec.spec now)) [
      | inl n ↦ rw n (and_false _)
      | inr (next, e) ↦
          rw (e, not_due t now next before (next_after-later rec.spec now next valid short h e))
            (and_false _)
    ]

-- The interval of a trigger is not bounded: from 2^63 ms on its next time is stored as a negative
-- number, and the trigger is due again at the very time at which it has fired.
pub interval_wraps :
    (rec : TriggerRecord) (every_ms now : ℕ) (text : String)
    → rec.spec ≡ TriggerSpec.interval every_ms
    → rec.paused ≡ false
    → 2 ^ 63 ≤ every_ms
    → IsTime now
    → is_due now (row_of (fired_at now rec) text) ≡ true
unfolding next_after next_fire_ms
interval_wraps rec every_ms now text e running h k =
    rw (e, running, as_i64_small now (omega arith))
      (negative-leb (as_i64 (saturating_add now every_ms)) now
        (as_i64_wraps (saturating_add now every_ms) (far now every_ms h)))
