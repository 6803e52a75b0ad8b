-- ===== src/Daemon/Operations.antt =====
-- `start` and `resume` of crates/evo-daemon/src/runtime.rs.
pub mod Answers
use Prim.Native.String.{count}
use evowork.Prelude.{
  ℕ, ◌+◌, String, Option, none, some, Bool, true, false, List, [], ◌∷◌, ◌++◌, leb, if◌then◌else◌,
  any, is_some, is_empty,
}
use evowork.Prelude.Bytes.{as_bytes}
use evowork.Prelude.BTreeMap.{BTreeMap, get, first}
use evowork.Prelude.Texts.{str_eq}
use evowork.Prelude.Words.{u64}
use evowork.Protocol.Base.{RunId, EffectId, ApprovalId, BlobRef, BudgetSpec, Actor}
use evowork.Protocol.Accounting.{CheckpointReason}
use evowork.Protocol.Lifecycle.{TriggerKind, TriggerRef}
use evowork.Protocol.Governance.{ApprovalRequested, ApprovalVia}
use evowork.Protocol.Turn.{ClarificationRequested}
use evowork.Protocol.Event.{EventBody}
use evowork.Kernel.State.{RunState, RunStatus, AwaitReason, EffectState, new}
use evowork.Daemon.Error.{DaemonError}
use evowork.Daemon.Action.{pure, fail, or_panic, or_fail, for_each, ◌>>=◌, ◌>>◌}
use evowork.Daemon.Machine.{Env, Step, ask, put, emit, checkpoint}
use evowork.Daemon.History.{
  find_tool_requested, find_clarification_requested, find_approval_requested, failure_message,
  rebuild_effect_request,
}
use evowork.Daemon.Effects.Dispatch.{dispatch_effect}
use evowork.Daemon.Drive.{RunOutcome, drive}
use evowork.Daemon.Replay.{replay_to}

abbrev pub is_overdue : ℕ → Option ApprovalRequested → Bool
is_overdue now none = false
is_overdue now (some req) = leb req.expires_at_ms now

-- The keys of the effects that are approved.
unfoldable pub approved_effects : BTreeMap EffectState → List EffectId
approved_effects [] = []
approved_effects ((id, EffectState.approved) ∷ effects) = id ∷ approved_effects effects
approved_effects ((id, _) ∷ effects) = approved_effects effects

abbrev trigger_actor : TriggerKind → String → Actor
trigger_actor TriggerKind.manual reference = Actor.runtime
trigger_actor _ reference = Actor.trigger reference

abbrev first_approval : Option (ApprovalId × EffectId) → Option AwaitReason
first_approval none = none
first_approval (some (a, e)) = some (AwaitReason.approval a e)

module _ (env : Env) where
  unfoldable pub start_with_trigger : RunId → String → TriggerRef → Step env RunOutcome
  start_with_trigger run_id intent_text trigger = do
    let actor = trigger_actor trigger.kind trigger.reference
    state ← emit env (new run_id) actor (
        EventBody.run_created (record {
          run_id = run_id;
          parent_run_id = none;
          workspace_id = run_id;
          principal = record { kind = "user"; id = env.config.principal };
          trigger = trigger;
          budget = env.config.budget;
          labels = [];
        }))
    intent_ref ← put env "text/plain" (as_bytes intent_text)
    state ← emit env state actor (
        EventBody.intent_declared (record {
          intent_ref = intent_ref;
          char_len = count intent_text;
          lang = "zh";
          source = trigger.reference;
        }))
    drive env state

  unfoldable pub start_from : RunId → String → String → Step env RunOutcome
  start_from run_id intent_text source =
      start_with_trigger run_id intent_text
        (record { kind = TriggerKind.manual; reference = source })

  unfoldable pub start : RunId → String → Step env RunOutcome
  start run_id intent_text = start_from run_id intent_text "cli"

  -- The state of a run that its log leads to.
  unfoldable pub restore : RunId → Step env RunState
  restore run_id m =
      (or_fail (λ e. e) (replay_to env.codec env.serde m.log run_id none true) >>= or_panic) m

  unfoldable pub overdue_ids :
      ℕ → RunId → List ApprovalId → BTreeMap EffectId → Step env (List ApprovalId)
  overdue_ids now run_id ids [] = pure ids
  overdue_ids now run_id ids ((approval_id, effect_id) ∷ approvals) =
      find_approval_requested env run_id approval_id >>= λ req.
      overdue_ids now run_id (if is_overdue now req then ids ++ approval_id ∷ [] else ids) approvals

  unfoldable pub expire : RunState → ApprovalId → Step env RunState
  expire state approval_id =
      emit env state Actor.runtime
        (EventBody.approval_expired (record { approval_id = approval_id }))

  unfoldable pub expire_overdue_approvals : RunState → Step env RunState
  unfolding overdue_ids expire
  expire_overdue_approvals state = do
    now ← ask env env.now_ms
    overdue ← overdue_ids now state.run_id [] state.pending_approvals
    for_each overdue expire state

  unfoldable pub dispatch_approved : RunId → RunState → EffectId → Step env RunState
  dispatch_approved run_id state effect_id = do
    found ← find_tool_requested env run_id effect_id
    tool_requested ← or_panic found
    dispatch_effect env state effect_id (rebuild_effect_request env state tool_requested)

  unfoldable pub waiting_for : Option AwaitReason → RunState → Step env RunOutcome
  waiting_for (some reason) state = pure (RunOutcome.suspended state reason)
  waiting_for none state = do
    reason ← or_panic (first_approval (first state.pending_approvals))
    pure (RunOutcome.suspended state reason)

  unfoldable pub still_waiting : RunState → Step env RunOutcome
  unfolding waiting_for
  still_waiting state = waiting_for state.awaiting state

  unfoldable pub go_on : RunId → RunState → Step env RunOutcome
  unfolding dispatch_approved
  go_on run_id state = do
    state ←
        emit env state Actor.runtime (
          EventBody.run_resumed
            (record { by = Actor.runtime; from_seq = u64 (state.last_seq + 1) }))
    state ← for_each (approved_effects state.pending_effects) (dispatch_approved run_id) state
    drive env state

  unfoldable pub resume_if : Bool → RunId → RunState → Step env RunOutcome
  unfolding still_waiting go_on
  resume_if true run_id state = go_on run_id state
  resume_if false run_id state = still_waiting state

  unfoldable pub resume : RunId → Step env RunOutcome
  unfolding resume_if
  resume run_id = do
    state ← restore run_id
    state ← expire_overdue_approvals state
    resume_if (is_empty state.pending_approvals) run_id state
