-- ===== src/Daemon/Consistency/Requests.antt =====
-- The operations of crates/evo-daemon/src/runtime.rs on a run keep it in step with its log.
use evowork.Prelude.{ℕ, String, Option, none, some, Bool, true, false, List, [], ◌∷◌, ◌++◌, refl}
use evowork.Prelude.Results.{Result}
use evowork.Prelude.BTreeMap.{BTreeMap}
use evowork.Protocol.Base.{RunId, BlobRef, EffectId, ApprovalId, Actor, BudgetSpec}
use evowork.Protocol.Accounting.{CheckpointReason}
use evowork.Protocol.Turn.{ClarificationRequested}
use evowork.Kernel.State.{RunState, RunStatus, AwaitReason}
use evowork.Daemon.Error.{DaemonError}
use evowork.Daemon.Action.{or_panic, or_fail, and_then, ◌>>=◌}
use evowork.Daemon.Machine.{Machine}
use evowork.Daemon.Drive.{into_state}
use evowork.Daemon.Operations.{
  restore, overdue_ids, expire, expire_overdue_approvals, dispatch_approved, waiting_for,
  still_waiting, go_on, resume_if, resume,
}
use evowork.Daemon.Operations.Answers.{
  put_text, grant, decide_open, decide_known, decide_approval, known_question, known_option,
  check_option, answer_pending, answer_clarification, amended_outcome, after_amend, amend_budget,
}
use evowork.Daemon.Consistency.Restore.{replay_to-InStep}
use evowork.Daemon.Consistency.Written.{IsFull}
use evowork.Daemon.Consistency.Keeps.{
  Setting, InSync, After, Keeps, Quiet, bind, after-Quiet, bind-Quiet, pure-Keeps, fail-Keeps,
  pure-Quiet, fail-Quiet, or_panic-Quiet, ask-Quiet, put-Quiet, for_each-Keeps,
}
use evowork.Daemon.Consistency.Emission.{emit-Keeps}
use evowork.Daemon.Consistency.Checkpoint.{checkpoint-Keeps}
use evowork.Daemon.Consistency.Reads.{
  find_tool_requested-Quiet, find_approval_requested-Quiet, find_clarification_requested-Quiet,
  failure_message-Quiet,
}
use evowork.Daemon.Consistency.Calls.{dispatch_effect-Keeps}
use evowork.Daemon.Consistency.Loop.{drive-Keeps}

module _ (c : Setting) where
  restored_full :
      (s : RunState) (m : Machine c.env.World) (result : Result (Option RunState) DaemonError)
      → IsFull m.log
      → After c (λ a. a) ((or_fail (λ e. e) result >>= or_panic) m)
  unfolding and_then
  restored_full s m (Result.err e) f = (s, InSync.full f)
  restored_full s m (Result.ok none) f = tt
  restored_full s m (Result.ok (some t)) f = InSync.full f

  restored :
      (s : RunState) (m : Machine c.env.World)
      → InSync c s m.log
      → After c (λ a. a) (restore c.env c.run m)
  unfolding restore and_then
  restored s m (InSync.full f) = restored_full s m _ f
  restored s m (InSync.grown ext i others) =
      rw (replay_to-InStep c.env.serde c.env.codec c.run s (c.base ++ ext) m.log i)
        (InSync.grown ext i others)

module _ {c : Setting} where
  -- The state is the one that the log leads to.
  pub restore-Keeps : (s : RunState) → Keeps c s (λ a. a) (restore c.env c.run)
  restore-Keeps s = record { after = restored c s }

  overdue_ids-Quiet :
      (now : ℕ) (id : RunId) (approvals : BTreeMap EffectId) (ids : List ApprovalId)
      → Quiet c (overdue_ids c.env now id ids approvals)
  unfolding overdue_ids
  overdue_ids-Quiet now id [] ids = pure-Quiet ids
  overdue_ids-Quiet now id ((approval_id, effect_id) ∷ approvals) ids =
      bind-Quiet (find_approval_requested-Quiet id approval_id)
        (λ req. overdue_ids-Quiet now id approvals _)

  pub expire_overdue_approvals-Keeps :
      (s : RunState) → Keeps c s (λ a. a) (expire_overdue_approvals c.env s)
  unfolding expire_overdue_approvals expire
  expire_overdue_approvals-Keeps s = after-Quiet (ask-Quiet _) (λ now.
      after-Quiet (overdue_ids-Quiet now s.run_id s.pending_approvals []) (λ overdue.
        for_each-Keeps (λ a. a) _ overdue s (λ a approval_id. emit-Keeps a Actor.runtime _ tt)))

  waiting_for-Keeps :
      (awaiting : Option AwaitReason) (s : RunState)
      → Keeps c s into_state (waiting_for c.env awaiting s)
  unfolding waiting_for
  waiting_for-Keeps (some reason) s = pure-Keeps _ refl
  waiting_for-Keeps none s = after-Quiet (or_panic-Quiet _) (λ reason. pure-Keeps _ refl)

  go_on-Keeps : (s : RunState) → Keeps c s into_state (go_on c.env c.run s)
  unfolding go_on dispatch_approved
  go_on-Keeps s = bind (emit-Keeps s Actor.runtime _ tt) (λ s1.
      bind
        (for_each-Keeps (λ a. a) _ _ s1
          (λ a effect_id. after-Quiet (find_tool_requested-Quiet c.run effect_id) (λ found.
            after-Quiet (or_panic-Quiet found)
              (λ tool_requested. dispatch_effect-Keeps a effect_id _))))
        (λ s2. drive-Keeps s2))

  resume_if-Keeps : (b : Bool) (s : RunState) → Keeps c s into_state (resume_if c.env b c.run s)
  unfolding resume_if still_waiting
  resume_if-Keeps true s = go_on-Keeps s
  resume_if-Keeps false s = waiting_for-Keeps s.awaiting s

  pub resume-Keeps : (s : RunState) → Keeps c s into_state (resume c.env c.run)
  unfolding resume
  resume-Keeps s =
      bind (restore-Keeps s)
        (λ s1. bind (expire_overdue_approvals-Keeps s1) (λ s2. resume_if-Keeps _ s2))

  pub put_text-Quiet : (o : Option String) → Quiet c (put_text c.env o)
  unfolding put_text
  put_text-Quiet none = pure-Quiet _
  put_text-Quiet (some text) = bind-Quiet (put-Quiet "text/plain" _) (λ r. pure-Quiet _)

  grant-Keeps :
      (b : Bool) (s : RunState) (approval_id : ApprovalId) (by : Actor) (note_ref : Option BlobRef)
      → Keeps c s (λ a. a) (grant c.env b s approval_id by note_ref)
  unfolding grant
  grant-Keeps true s approval_id by note_ref = emit-Keeps s by _ tt
  grant-Keeps false s approval_id by note_ref =
      bind (checkpoint-Keeps s CheckpointReason.pre_approval) (λ s1. emit-Keeps s1 by _ tt)

  decide_open-Keeps :
      (b : Bool) (s : RunState) (approval_id : ApprovalId) (granted : Bool) (by : Actor)
      (remark : Option String)
      → Keeps c s into_state (decide_open c.env b s c.run approval_id granted by remark)
  unfolding decide_open
  decide_open-Keeps false s approval_id granted by remark = resume-Keeps s
  decide_open-Keeps true s approval_id granted by remark =
      after-Quiet (put_text-Quiet remark)
        (λ note_ref. bind (grant-Keeps granted s approval_id by note_ref) (λ s1. resume-Keeps s1))

  decide_known-Keeps :
      (b : Bool) (s : RunState) (approval_id : ApprovalId) (granted : Bool) (by : Actor)
      (remark : Option String)
      → Keeps c s into_state (decide_known c.env b s c.run approval_id granted by remark)
  unfolding decide_known
  decide_known-Keeps false s approval_id granted by remark = fail-Keeps _
  decide_known-Keeps true s approval_id granted by remark =
      bind (expire_overdue_approvals-Keeps s)
        (λ s1. decide_open-Keeps _ s1 approval_id granted by remark)

  pub decide_approval-Keeps :
      (s : RunState) (approval_id : ApprovalId) (granted : Bool) (by : Actor)
      (remark : Option String)
      → Keeps c s into_state (decide_approval c.env c.run approval_id granted by remark)
  unfolding decide_approval
  decide_approval-Keeps s approval_id granted by remark =
      bind (restore-Keeps s) (λ s1. decide_known-Keeps _ s1 approval_id granted by remark)

  known_question-Quiet :
      (question_id : String) (o : Option ClarificationRequested)
      → Quiet c (known_question c.env question_id o)
  unfolding known_question
  known_question-Quiet question_id none = fail-Quiet _
  known_question-Quiet question_id (some requested) = pure-Quiet requested

  known_option-Quiet :
      (b : Bool) (question_id option_id : String)
      → Quiet c (known_option c.env b question_id option_id)
  unfolding known_option
  known_option-Quiet true question_id option_id = pure-Quiet tt
  known_option-Quiet false question_id option_id = fail-Quiet _

  check_option-Quiet :
      (question_id : String) (o : Option String) → Quiet c (check_option c.env c.run question_id o)
  unfolding check_option
  check_option-Quiet question_id none = pure-Quiet tt
  check_option-Quiet question_id (some option_id) =
      bind-Quiet (find_clarification_requested-Quiet c.run question_id) (λ found.
        bind-Quiet (known_question-Quiet question_id found)
          (λ requested. known_option-Quiet _ question_id option_id))

  answer_pending-Keeps :
      (b : Bool) (s : RunState) (question_id : String) (option_id free_text : Option String)
      (by : Actor)
      → Keeps c s into_state (answer_pending c.env b s c.run question_id option_id free_text by)
  unfolding answer_pending
  answer_pending-Keeps false s question_id option_id free_text by = fail-Keeps _
  answer_pending-Keeps true s question_id option_id free_text by =
      after-Quiet (check_option-Quiet question_id option_id) (λ checked.
        after-Quiet (put_text-Quiet free_text)
          (λ free_text_ref. bind (emit-Keeps s by _ tt) (λ s1. resume-Keeps s1)))

  pub answer_clarification-Keeps :
      (s : RunState) (question_id : String) (option_id free_text : Option String) (by : Actor)
      → Keeps c s into_state (answer_clarification c.env c.run question_id option_id free_text by)
  unfolding answer_clarification
  answer_clarification-Keeps s question_id option_id free_text by =
      bind (restore-Keeps s) (λ s1. answer_pending-Keeps _ s1 question_id option_id free_text by)

  amended_outcome-Keeps :
      (s : RunState) (status : RunStatus) (awaiting : Option AwaitReason)
      → Keeps c s into_state (amended_outcome c.env s status awaiting)
  unfolding amended_outcome
  amended_outcome-Keeps s RunStatus.suspended (some reason) = pure-Keeps _ refl
  amended_outcome-Keeps s RunStatus.suspended none = drive-Keeps s
  amended_outcome-Keeps s RunStatus.completed awaiting = pure-Keeps _ refl
  amended_outcome-Keeps s RunStatus.failed awaiting =
      after-Quiet (failure_message-Quiet s) (λ error. pure-Keeps _ refl)
  amended_outcome-Keeps s RunStatus.running awaiting = drive-Keeps s

  after_amend-Keeps : (b : Bool) (s : RunState) → Keeps c s into_state (after_amend c.env b s c.run)
  unfolding after_amend
  after_amend-Keeps true s = resume-Keeps s
  after_amend-Keeps false s = amended_outcome-Keeps s s.status s.awaiting

  pub amend_budget-Keeps :
      (s : RunState) (budget : BudgetSpec) (by : Actor) (reason : Option String)
      → Keeps c s into_state (amend_budget c.env c.run budget by reason)
  unfolding amend_budget
  amend_budget-Keeps s budget by reason = bind (restore-Keeps s) (λ s1.
      after-Quiet (put_text-Quiet reason)
        (λ reason_ref. bind (emit-Keeps s1 by _ tt) (λ s2. after_amend-Keeps _ s2)))
