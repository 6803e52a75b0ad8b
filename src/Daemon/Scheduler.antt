-- ===== src/Daemon/Scheduler.antt =====
-- The scheduler and the trigger requests of crates/evo-daemon/src/http.rs. A lock is held for the
-- whole of each step, no holder of one panics, and a request runs to its end before another begins.
use evowork.Prelude.{
  ℕ, ◌+◌, String, Bool, true, false, not, ◌&&◌, ◌||◌, Option, none, some, List, [], ◌∷◌, ◌++◌, leb,
  if◌then◌else◌, is_some, is_some_and, unwrap_or, map, is_empty,
}
use evowork.Prelude.Decimals.{decimal}
use evowork.Prelude.Results.{Result}
use evowork.Prelude.Texts.{concat, str_eq}
use evowork.Prelude.Words.{saturating_add, u64}
use evowork.Protocol.Base.{RunId}
use evowork.Protocol.Lifecycle.{TriggerKind, TriggerRef}
use evowork.Protocol.Rpc.{
  TriggerSpec, trigger_kind, TriggerCreateParams, TriggerView, TriggerListResult, TriggerIdParams,
  TriggerDryrunResult, RunCreateResult,
}
use evowork.Kernel.State.{RunState, RunStatus}
use evowork.Runlog.Store.{RunLog, last_seq}
use evowork.Daemon.Action.{Outcome, Action, pure, fail, or_panic, ◌>>=◌, ◌>>◌}
use evowork.Daemon.Drive.{RunOutcome, into_state}
use evowork.Daemon.Error.{DaemonError}
use evowork.Daemon.Machine.{Env, Machine, Step}
use evowork.Daemon.Operations.{start_with_trigger}
use evowork.Daemon.Replay.{replay_to}
use evowork.Daemon.Trigger.Schedule.{next_fire_ms, validate_spec}
use evowork.Daemon.Trigger.Store.{
  SpecJson, TriggerStoreError, TriggerRecord, Table, view, insert, update, delete, get,
  get_by_secret, list, due,
}
pub mod Records
pub mod Requests
pub mod Guards
pub mod Hooks

-- The wall clock and the random bytes that identifiers and secrets are made of.
pub record Host (World : Type 0) : Type 0 where
  pub unix_ms : World → ℕ
  pub random_hook_secret : World → Option String × World

-- `AppState`: what its requests share.
pub record AppState (World : Type 0) : Type 0 where
  pub runtime : Machine World
  pub triggers : Table
  pub next_run : ℕ
  pub next_trigger : ℕ

unfoldable pub status_str : RunStatus → String
status_str RunStatus.running = "running"
status_str RunStatus.suspended = "suspended"
status_str RunStatus.completed = "completed"
status_str RunStatus.failed = "failed"

-- The next time of a trigger that has fired at `now_ms`.
unfoldable pub next_after : TriggerSpec → ℕ → Option ℕ
next_after (TriggerSpec.once at_ms) now_ms = none
next_after TriggerSpec.webhook now_ms = none
next_after (TriggerSpec.interval every_ms) now_ms =
    next_fire_ms (TriggerSpec.interval every_ms) now_ms
next_after spec now_ms = next_fire_ms spec (saturating_add now_ms 1)

abbrev pub with_last_run : RunId → TriggerRecord → TriggerRecord
with_last_run run_id rec = record rec { last_run_id = some run_id }

abbrev pub fired_at : ℕ → TriggerRecord → TriggerRecord
fired_at now_ms rec = record rec {
  last_fired_ms = some now_ms;
  next_fire_ms = next_after rec.spec now_ms;
}

module _ (env : Env) (host : Host env.World) (json : SpecJson) where
  abbrev pub App : Type 0 → Type 0
  App A = Action (AppState env.World) A

  -- A statement of the trigger store that reads, and one that writes.
  abbrev pub read_result : {A : Type 0} → Result A TriggerStoreError → App A
  read_result (Result.ok a) = pure a
  read_result (Result.err e) = fail DaemonError.trigger_store

  unfoldable pub reads : {A : Type 0} → (Table → Result A TriggerStoreError) → App A
  reads query s = read_result (query s.triggers) s

  abbrev pub write_result :
      AppState env.World → Result Table TriggerStoreError → Outcome (AppState env.World) (Unit {0})
  write_result s (Result.ok table) = Outcome.ok tt (record s { triggers = table })
  write_result s (Result.err e) = Outcome.err DaemonError.trigger_store s

  unfoldable pub writes : (Table → Result Table TriggerStoreError) → App (Unit {0})
  writes statement s = write_result s (statement s.triggers)

  -- A step of the runtime.
  abbrev pub lift_outcome :
      {A : Type 0}
      → AppState env.World
      → Outcome (Machine env.World) A
      → Outcome (AppState env.World) A
  lift_outcome s (Outcome.ok a m) = Outcome.ok a (record s { runtime = m })
  lift_outcome s (Outcome.err e m) = Outcome.err e (record s { runtime = m })
  lift_outcome s Outcome.panicked = Outcome.panicked

  unfoldable pub on_runtime : {A : Type 0} → Step env A → App A
  on_runtime step s = lift_outcome s (step s.runtime)

  unfoldable pub now_ms : App ℕ
  now_ms s =
      let (now, w) = env.now_ms s.runtime.world in
      Outcome.ok now (record s { runtime = record (s.runtime) { world = w } })

  unfoldable pub alloc_run_id : App RunId
  alloc_run_id s =
      Outcome.ok
        (concat ("r-" ∷ decimal (host.unix_ms s.runtime.world) ∷ "-" ∷ decimal s.next_run ∷ []))
        (record s { next_run = u64 (s.next_run + 1) })

  unfoldable pub alloc_trigger_id : App String
  alloc_trigger_id s =
      Outcome.ok
        (concat ("t-" ∷ decimal (host.unix_ms s.runtime.world) ∷ "-" ∷ decimal s.next_trigger ∷ []))
        (record s { next_trigger = u64 (s.next_trigger + 1) })

  -- A run that cannot be replayed counts as active.
  abbrev pub status_active : RunStatus → Bool
  status_active RunStatus.running = true
  status_active RunStatus.suspended = true
  status_active _ = false

  abbrev pub replay_active : Result (Option RunState) DaemonError → Option Bool
  replay_active (Result.ok (some state)) = some (status_active state.status)
  replay_active (Result.ok none) = none
  replay_active (Result.err e) = some true

  -- `none` is a panic of the replay.
  unfoldable pub last_run_active : RunLog → RunId → Option Bool
  last_run_active log run_id =
      if is_some (last_seq log run_id)
      then replay_active (replay_to env.codec env.serde log run_id none true)
      else some false

  abbrev pub active : RunLog → Option RunId → Option Bool
  active log none = some false
  active log (some run_id) = last_run_active log run_id

  abbrev pub busy : Option RunId → App Bool
  busy last_run s = or_panic (active s.runtime.log last_run) s

  abbrev pub known : String → Option TriggerRecord → App TriggerRecord
  known trigger_id none = fail (DaemonError.unknown_trigger trigger_id)
  known trigger_id (some rec) = pure rec

  -- Up to the lock of the store: the trigger is free, and it is its run now.
  unfoldable pub claim : String → RunId → App TriggerRecord
  claim trigger_id run_id = do
    found ← reads (get json trigger_id)
    rec ← known trigger_id found
    if rec.paused then fail (DaemonError.trigger_paused trigger_id) else do
      occupied ← busy rec.last_run_id
      if occupied
          then fail (DaemonError.trigger_busy trigger_id)
          else do writes (update json (with_last_run run_id rec)); pure rec

  -- The record is read again after the run, and left alone when it was deleted meanwhile.
  abbrev pub reschedule_found : ℕ → Option TriggerRecord → App (Unit {0})
  reschedule_found now none = pure tt
  reschedule_found now (some rec) = writes (update json (fired_at now rec))

  unfoldable pub fire_record : String → ℕ → App RunCreateResult
  fire_record trigger_id now = do
    run_id ← alloc_run_id
    rec ← claim trigger_id run_id
    outcome ← on_runtime (
        start_with_trigger env run_id rec.intent
          (record { kind = trigger_kind rec.spec; reference = trigger_id }))
    again ← reads (get json trigger_id)
    reschedule_found now again
    let state = into_state outcome
    pure (record { run_id = run_id; status = status_str state.status; last_seq = state.last_seq })

  -- An error of one trigger is printed, and the next one is tried.
  abbrev pub and_next :
      (List RunId → App (List RunId))
      → List RunId
      → Outcome (AppState env.World) RunCreateResult
      → Outcome (AppState env.World) (List RunId)
  and_next rest fired (Outcome.ok result s) = rest (fired ++ result.run_id ∷ []) s
  and_next rest fired (Outcome.err e s) = rest fired s
  and_next rest fired Outcome.panicked = Outcome.panicked

  unfoldable pub fire_all : ℕ → List TriggerRecord → List RunId → App (List RunId)
  fire_all now [] fired s = Outcome.ok fired s
  fire_all now (rec ∷ recs) fired s = and_next (fire_all now recs) fired (fire_record rec.id now s)

  unfoldable pub fire_due : App (List RunId)
  fire_due = do now ← now_ms; found ← reads (due json now); fire_all now found []
