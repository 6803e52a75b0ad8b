-- ===== src/Daemon/Operations/Answers.antt =====
-- `decide_approval`, `answer_clarification` and `amend_budget` of crates/evo-daemon/src/runtime.rs: what
-- a person answers.
use evowork.Prelude.{String, Option, none, some, Bool, true, false, any, is_some}
use evowork.Prelude.Bytes.{as_bytes}
use evowork.Prelude.BTreeMap.{get}
use evowork.Prelude.Texts.{str_eq}
use evowork.Protocol.Base.{RunId, ApprovalId, BlobRef, BudgetSpec, Actor}
use evowork.Protocol.Accounting.{CheckpointReason}
use evowork.Protocol.Governance.{ApprovalVia}
use evowork.Protocol.Turn.{ClarificationRequested}
use evowork.Protocol.Event.{EventBody}
use evowork.Kernel.State.{RunState, RunStatus, AwaitReason}
use evowork.Daemon.Error.{DaemonError}
use evowork.Daemon.Action.{pure, fail, ◌>>=◌, ◌>>◌}
use evowork.Daemon.Machine.{Env, Step, put, emit, checkpoint}
use evowork.Daemon.History.{find_clarification_requested, failure_message}
use evowork.Daemon.Drive.{RunOutcome, drive}
use evowork.Daemon.Operations.{restore, expire_overdue_approvals, resume}

abbrev is_budget : Option AwaitReason → Bool
is_budget (some AwaitReason.budget) = true
is_budget _ = false

module _ (env : Env) where
  unfoldable pub put_text : Option String → Step env (Option BlobRef)
  put_text none = pure none
  put_text (some text) = do r ← put env "text/plain" (as_bytes text); pure (some r)

  unfoldable pub grant : Bool → RunState → ApprovalId → Actor → Option BlobRef → Step env RunState
  grant true state approval_id by note_ref = emit env state by (
      EventBody.approval_granted
        (record { approval_id = approval_id; by = by; via = ApprovalVia.ui; note_ref = note_ref }))
  grant false state approval_id by note_ref = do
    state ← checkpoint env state CheckpointReason.pre_approval
    emit env state by (
        EventBody.approval_denied
          (record { approval_id = approval_id; by = by; reason_ref = note_ref }))

  unfoldable pub decide_open :
      Bool → RunState → RunId → ApprovalId → Bool → Actor → Option String → Step env RunOutcome
  unfolding grant
  decide_open false state run_id approval_id granted by remark = resume env run_id
  decide_open true state run_id approval_id granted by remark = do
    note_ref ← put_text remark
    grant granted state approval_id by note_ref
    resume env run_id

  unfoldable pub decide_known :
      Bool → RunState → RunId → ApprovalId → Bool → Actor → Option String → Step env RunOutcome
  unfolding decide_open
  decide_known false state run_id approval_id granted by remark =
      fail (DaemonError.unknown_approval approval_id)
  decide_known true state run_id approval_id granted by remark = do
    state ← expire_overdue_approvals env state
    decide_open (is_some (get approval_id state.pending_approvals)) state run_id approval_id granted
        by remark

  unfoldable pub decide_approval :
      RunId → ApprovalId → Bool → Actor → Option String → Step env RunOutcome
  unfolding decide_known
  decide_approval run_id approval_id granted by remark = do
    state ← restore env run_id
    decide_known (is_some (get approval_id state.pending_approvals)) state run_id approval_id
        granted by remark

  unfoldable pub known_question :
      String → Option ClarificationRequested → Step env ClarificationRequested
  known_question question_id none = fail (DaemonError.unknown_clarification question_id)
  known_question question_id (some requested) = pure requested

  unfoldable pub known_option : Bool → String → String → Step env (Unit {0})
  known_option true question_id option_id = pure tt
  known_option false question_id option_id =
      fail (DaemonError.unknown_clarification_option question_id option_id)

  unfoldable pub check_option : RunId → String → Option String → Step env (Unit {0})
  unfolding known_question known_option
  check_option run_id question_id none = pure tt
  check_option run_id question_id (some option_id) = do
    found ← find_clarification_requested env run_id question_id
    requested ← known_question question_id found
    known_option (any (λ o. str_eq o.id option_id) requested.options) question_id option_id

  abbrev is_pending : Option String → String → Bool
  is_pending none question_id = false
  is_pending (some q) question_id = str_eq q question_id

  unfoldable pub answer_pending :
      Bool → RunState → RunId → String → Option String → Option String → Actor → Step env RunOutcome
  unfolding check_option
  answer_pending false state run_id question_id option_id free_text by =
      fail (DaemonError.unknown_clarification question_id)
  answer_pending true state run_id question_id option_id free_text by = do
    check_option run_id question_id option_id
    free_text_ref ← put_text free_text
    emit env state by (
        EventBody.clarification_answered (record {
          question_id = question_id;
          by = by;
          option_id = option_id;
          free_text_ref = free_text_ref;
        }))
    resume env run_id

  unfoldable pub answer_clarification :
      RunId → String → Option String → Option String → Actor → Step env RunOutcome
  unfolding answer_pending
  answer_clarification run_id question_id option_id free_text by = do
    state ← restore env run_id
    answer_pending (is_pending state.pending_question question_id) state run_id question_id
        option_id free_text by

  -- The `match` on the status and what the run waits for.
  unfoldable pub amended_outcome : RunState → RunStatus → Option AwaitReason → Step env RunOutcome
  amended_outcome state RunStatus.suspended (some reason) = pure (RunOutcome.suspended state reason)
  amended_outcome state RunStatus.suspended none = drive env state
  amended_outcome state RunStatus.completed awaiting = pure (RunOutcome.completed state)
  amended_outcome state RunStatus.failed awaiting = do
    error ← failure_message env state
    pure (RunOutcome.failed state error)
  amended_outcome state RunStatus.running awaiting = drive env state

  unfoldable pub after_amend : Bool → RunState → RunId → Step env RunOutcome
  unfolding amended_outcome
  after_amend true state run_id = resume env run_id
  after_amend false state run_id = amended_outcome state state.status state.awaiting

  unfoldable pub amend_budget : RunId → BudgetSpec → Actor → Option String → Step env RunOutcome
  unfolding after_amend
  amend_budget run_id budget by reason = do
    state ← restore env run_id
    reason_ref ← put_text reason
    state ←
        emit env state by
          (EventBody.budget_amended (record { budget = budget; by = by; reason_ref = reason_ref }))
    after_amend (is_budget state.awaiting) state run_id
