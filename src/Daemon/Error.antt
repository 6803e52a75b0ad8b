-- ===== src/Daemon/Error.antt =====
-- `DaemonError` of crates/evo-daemon/src/runtime.rs and the texts that the runtime stores of it.
use evowork.Prelude.{ℕ, String, [], ◌∷◌}
use evowork.Prelude.Decimals.{decimal}
use evowork.Prelude.Texts.{concat}
use evowork.Exec.{ExecError}
use evowork.Gateway.Manifest.{ManifestError}
use evowork.Model.{ModelError}
use evowork.Policy.{PolicyError}
use evowork.Runlog.Store.{RunLogError}

-- An error of the file system or of the trigger store stands without its text.
pub data DaemonError : Type 0 where
  run_log : RunLogError → DaemonError
  model : ModelError → DaemonError
  policy : PolicyError → DaemonError
  manifest : ManifestError → DaemonError
  exec : ExecError → DaemonError
  unparseable_plan : String → DaemonError
  turn_limit : ℕ → DaemonError
  loop_iteration_limit : ℕ → DaemonError
  stalled_effects : String → DaemonError
  snapshot_decode : ℕ → String → DaemonError
  model_not_priced : String → String → DaemonError
  io : DaemonError
  case_format : String → DaemonError
  unknown_approval : String → DaemonError
  unknown_clarification : String → DaemonError
  unknown_clarification_option : String → String → DaemonError
  unknown_trigger : String → DaemonError
  trigger_paused : String → DaemonError
  trigger_busy : String → DaemonError
  trigger_store trigger_store_poisoned : DaemonError

-- `to_string`, but for the errors that stand without their text here or pass on that of another crate;
-- only the first five end up in a failed run.
unfoldable pub display : DaemonError → String
display (DaemonError.unparseable_plan text) = concat ("model output is not a plan: " ∷ text ∷ [])
display (DaemonError.turn_limit n) = concat ("turn limit exceeded: " ∷ decimal n ∷ [])
display (DaemonError.loop_iteration_limit n) =
    concat ("turn loop made " ∷ decimal n ∷ " iterations without a turn ever terminating it" ∷ [])
display (DaemonError.stalled_effects ids) = concat (
    "turn loop stopped while the run was still Running:          these effects will never reach a terminal state on their own: "
    ∷ ids ∷ [])
display (DaemonError.model_not_priced provider name) =
    concat ("model " ∷ provider ∷ "/" ∷ name ∷ " is not in the price table" ∷ [])
display (DaemonError.snapshot_decode seq detail) =
    concat ("snapshot is undecodable at seq " ∷ decimal seq ∷ ": " ∷ detail ∷ [])
display (DaemonError.case_format detail) = concat ("case.yaml: " ∷ detail ∷ [])
display (DaemonError.unknown_approval id) =
    concat
      ("approval " ∷ id ∷ " is not currently pending (already resolved, or never requested)" ∷ [])
display (DaemonError.unknown_clarification id) =
    concat ("question " ∷ id ∷ " is not currently pending (already answered, or never asked)" ∷ [])
display (DaemonError.unknown_clarification_option question_id option_id) =
    concat ("option " ∷ option_id ∷ " is not one of the options for question " ∷ question_id ∷ [])
display (DaemonError.unknown_trigger id) = concat ("trigger " ∷ id ∷ " is not found" ∷ [])
display (DaemonError.trigger_paused id) = concat ("trigger " ∷ id ∷ " is paused" ∷ [])
display (DaemonError.trigger_busy id) = concat ("trigger " ∷ id ∷ " still has a running run" ∷ [])
display DaemonError.trigger_store_poisoned = "trigger store mutex poisoned"
display _ = ""
