-- ===== src/Daemon/Scheduler/Requests.antt =====
-- The trigger requests of crates/evo-daemon/src/http.rs: `trigger.create`, `trigger.list`,
-- `trigger.delete`, `trigger.dryrun` and the web hook. The parameters have been read from JSON.

use evowork.Prelude.{
  ℕ, String, Bool, true, not, ◌&&◌, ◌||◌, Option, none, some, leb, if◌then◌else◌, is_some_and, map,
}
use evowork.Prelude.Results.{Result}
use evowork.Prelude.Texts.{str_eq}
use evowork.Protocol.Rpc.{
  TriggerCreateParams, TriggerView, TriggerListResult, TriggerIdParams, TriggerDryrunResult,
  RunCreateResult,
}
use evowork.Daemon.Action.{Outcome, pure, ◌>>=◌, ◌>>◌}
use evowork.Daemon.Error.{DaemonError}
use evowork.Daemon.Machine.{Env}
use evowork.Daemon.Trigger.Schedule.{validate_spec}
use evowork.Daemon.Trigger.Store.{
  SpecJson, TriggerRecord, view, insert, update, delete, get, get_by_secret, list,
}
use evowork.Daemon.Scheduler.{
  Host, AppState, App, reads, writes, now_ms, alloc_trigger_id, busy, known, fire_record,
}
use evowork.Daemon.Scheduler.Records.{
  fail_of, trim, is_webhook, RpcFail, invalid, revised, needs_secret, with_secret, created,
}

module _ (env : Env) (host : Host env.World) (json : SpecJson) where
  abbrev pub secret_drawn :
      AppState env.World → Option String → Outcome (AppState env.World) (Option String)
  secret_drawn s none = Outcome.err DaemonError.trigger_store s
  secret_drawn s (some secret) = Outcome.ok (some secret) s

  unfoldable pub draw_secret : App env host json (Option String)
  draw_secret s =
      let (secret, w) = host.random_hook_secret s.runtime.world in
      secret_drawn (record s { runtime = record (s.runtime) { world = w } }) secret

  -- A secret is drawn only for a web hook that has none.
  unfoldable pub ensure_secret : TriggerRecord → App env host json TriggerRecord
  ensure_secret rec =
      if needs_secret rec
      then (draw_secret >>= λ secret. pure (with_secret secret rec))
      else pure rec

  unfoldable pub update_trigger : String → TriggerCreateParams → ℕ → App env host json TriggerRecord
  update_trigger id p now = do
    found ← reads env host json (get json id)
    rec ← known env host json id found
    revision ← ensure_secret (revised rec p now)
    writes env host json (update json revision)
    pure revision

  unfoldable pub create_trigger : TriggerCreateParams → ℕ → App env host json TriggerRecord
  create_trigger p now = do
    secret ← (if is_webhook p.spec then draw_secret else pure none)
    id ← alloc_trigger_id env host json
    let rec = created id p secret now
    writes env host json (insert json rec)
    pure rec

  abbrev pub store_trigger :
      Option String → TriggerCreateParams → ℕ → App env host json TriggerRecord
  store_trigger none p now = create_trigger p now
  store_trigger (some id) p now = update_trigger id p now

  abbrev pub checked :
      Result (Unit {0}) String
      → TriggerCreateParams
      → App env host json (Result TriggerView RpcFail)
  checked (Result.err message) p = pure (Result.err (invalid message))
  checked (Result.ok _) p = do
    now ← now_ms env host json
    rec ← store_trigger p.trigger_id p now
    pure (Result.ok (view rec))

  unfoldable pub trigger_create :
      TriggerCreateParams → App env host json (Result TriggerView RpcFail)
  trigger_create p =
      if str_eq (trim p.name) "" || str_eq (trim p.intent) ""
      then pure (Result.err (invalid "name and intent must be non-empty"))
      else checked (validate_spec p.spec) p

  unfoldable pub trigger_list : App env host json TriggerListResult
  trigger_list = do
    recs ← reads env host json (list json)
    pure (record { triggers = map view recs })

  unfoldable pub trigger_delete : TriggerIdParams → App env host json Bool
  trigger_delete p s =
      let (deleted, table) = delete p.trigger_id s.triggers in
      if deleted
      then Outcome.ok true (record s { triggers = table })
      else Outcome.err (DaemonError.unknown_trigger p.trigger_id) s

  abbrev pub fires_at : TriggerRecord → ℕ → Bool
  fires_at rec now = is_some_and rec.next_fire_ms (λ t. leb t now) || is_webhook rec.spec

  unfoldable pub trigger_dryrun : TriggerIdParams → App env host json TriggerDryrunResult
  trigger_dryrun p = do
    now ← now_ms env host json
    found ← reads env host json (get json p.trigger_id)
    rec ← known env host json p.trigger_id found
    occupied ← busy env host json rec.last_run_id
    pure (record {
      trigger_id = rec.id;
      would_fire_now = not rec.paused && not occupied && fires_at rec now;
      next_fire_ms = rec.next_fire_ms;
      intent = rec.intent;
      paused = rec.paused;
    })

  -- The answer to a request: an error of the daemon becomes a code and a message.
  unfoldable pub answered :
      {A : Type 0}
      → Outcome (AppState env.World) (Result A RpcFail)
      → Outcome (AppState env.World) (Result A RpcFail)
  answered (Outcome.ok result s) = Outcome.ok result s
  answered (Outcome.err e s) = Outcome.ok (Result.err (fail_of e)) s
  answered Outcome.panicked = Outcome.panicked

  -- The answer to a web hook: a run, or a status.
  pub data HookAnswer : Type 0 where
    fired : RunCreateResult → HookAnswer
    refused : (status : ℕ) → HookAnswer

  abbrev pub hook_status : DaemonError → ℕ
  hook_status (DaemonError.unknown_trigger id) = 404
  hook_status (DaemonError.trigger_paused id) = 409
  hook_status (DaemonError.trigger_busy id) = 409
  hook_status _ = 500

  abbrev pub hook_answer :
      Outcome (AppState env.World) RunCreateResult → Outcome (AppState env.World) HookAnswer
  hook_answer (Outcome.ok result s) = Outcome.ok (HookAnswer.fired result) s
  hook_answer (Outcome.err e s) = Outcome.ok (HookAnswer.refused (hook_status e)) s
  hook_answer Outcome.panicked = Outcome.panicked

  abbrev pub fire_hook : String → App env host json RunCreateResult
  fire_hook secret = do
    found ← reads env host json (get_by_secret json secret)
    rec ← known env host json "" found
    now ← now_ms env host json
    fire_record env host json rec.id now

  unfoldable pub webhook_fire : String → App env host json HookAnswer
  webhook_fire secret s =
      if str_eq secret ""
      then Outcome.ok (HookAnswer.refused 404) s
      else hook_answer (fire_hook secret s)
