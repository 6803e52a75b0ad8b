-- ===== src/Daemon/Consistency/Decision.antt =====
-- A decision on an approval in crates/evo-daemon/src/runtime.rs leaves its event in the log.
use evowork.Prelude.{String, Option, Bool, true, false, is_some, List, ◌≡◌, refl, subst}
use evowork.Prelude.BTreeMap.{get}
use evowork.Protocol.Base.{RunId, BlobRef, ApprovalId, Actor}
use evowork.Protocol.Accounting.{CheckpointReason}
use evowork.Protocol.Event.{EventBody, Event}
use evowork.Kernel.State.{RunState}
use evowork.Daemon.Action.{Outcome, and_then}
use evowork.Daemon.Machine.{Env, Machine}
use evowork.Daemon.Drive.{into_state}
use evowork.Daemon.Operations.{expire_overdue_approvals, restore}
use evowork.Daemon.Operations.Answers.{grant, decide_open, decide_known, decide_approval}
use evowork.Daemon.Consistency.InStep.{InStep}
use evowork.Daemon.Consistency.Written.{IsFaithful}
use evowork.Daemon.Consistency.Restore.{replay_to-InStep}
use evowork.Daemon.Consistency.Keeps.{Setting, InSync, After}
use evowork.Daemon.Consistency.Checkpoint.{checkpoint-Keeps}
use evowork.Daemon.Consistency.Requests.{
  put_text-Quiet, resume-Keeps, expire_overdue_approvals-Keeps, decide_approval-Keeps,
}
use evowork.Daemon.Consistency.Writes.{Wrote, Writes, emit-Writes, then-Keeps, after-Keeps}
use evowork.Daemon.Consistency.Sync.{now, since}

-- The event of a decision: it names the approval and who decided.
abbrev pub IsDecision : ApprovalId → Bool → Actor → EventBody → Type 0
IsDecision approval_id true by (EventBody.approval_granted e) =
    (e.approval_id ≡ approval_id) × (e.by ≡ by)
IsDecision approval_id false by (EventBody.approval_denied e) =
    (e.approval_id ≡ approval_id) × (e.by ≡ by)
IsDecision approval_id granted by _ = ⊥

module _ {c : Setting} (approval_id : ApprovalId) (by : Actor) where
  grant-Writes :
      (granted : Bool) (s : RunState) (note_ref : Option BlobRef)
      → Writes c
          (IsDecision approval_id granted by)
          s
          (λ a. a)
          (grant c.env granted s approval_id by note_ref)
  unfolding grant
  grant-Writes true s note_ref =
      emit-Writes c (IsDecision approval_id true by) s by _ tt (refl, refl)
  grant-Writes false s note_ref =
      after-Keeps c (IsDecision approval_id false by)
        (checkpoint-Keeps s CheckpointReason.pre_approval)
        (λ s1. emit-Writes c (IsDecision approval_id false by) s1 by _ tt (refl, refl))

  decide_open-Writes :
      (granted : Bool) (s : RunState) (remark : Option String)
      → Writes c
          (IsDecision approval_id granted by)
          s
          into_state
          (decide_open c.env true s c.run approval_id granted by remark)
  unfolding decide_open
  decide_open-Writes granted s remark =
      let P = IsDecision approval_id granted by in
      after-Keeps c P ((put_text-Quiet remark).keeps s)
        (λ note_ref. then-Keeps c P (grant-Writes granted s note_ref) (λ base s1. resume-Keeps s1))

module _ (env : Env) (laws : IsFaithful env.serde env.codec) (run : RunId) (held : List Event)
    (m : Machine env.World) (s : RunState) (i : InStep env.serde env.codec run s held m.log) where
  -- The state is the one that the log leads to.
  restored : restore env run m ≡ Outcome.ok s m
  unfolding restore and_then
  restored = rw (replay_to-InStep env.serde env.codec run s held m.log i) refl

  -- Take a run whose state is the replay of its log and whose snapshots are honest, a pending
  -- approval that the expiry of what is overdue leaves pending, a serde_json that reads back the
  -- events that it wrote, those with a temperature other than 0.0 aside, which the runtime never
  -- asks for, and a ciborium that reads back the states. If the decision answers, then among the
  -- events that it has added to the log there is the grant or the denial of that approval,
  -- whichever was asked for, by the one who decided; the state of the outcome is the replay of the
  -- whole log, the snapshots are still honest (each decodes, and is the state before its number
  -- where its hash says so), and every other run holds what it held. After an error the log only
  -- has grown and some state is its replay. Left out are a panic and a table of 2^63 - 1 rows or
  -- more.
  pub decide_approval-Wrote :
      (approval_id : ApprovalId) (granted : Bool) (by : Actor) (remark : Option String)
      (s1 : RunState) (m1 : Machine env.World)
      → is_some (get approval_id s.pending_approvals) ≡ true
      → expire_overdue_approvals env s m ≡ Outcome.ok s1 m1
      → is_some (get approval_id s1.pending_approvals) ≡ true
      → let result = decide_approval env run approval_id granted by remark m in
        After (now env laws run held m) into_state result
        × Wrote (now env laws run held m) (IsDecision approval_id granted by) into_state result
  unfolding decide_approval decide_known and_then
  decide_approval-Wrote approval_id granted by remark s1 m1 known expired open_ =
      let c = now env laws run held m in
      let start = since env laws run held m s i in
      let expiry : InSync c s1 m1.log =
        subst (After c (λ a. a)) expired ((expire_overdue_approvals-Keeps s).after m start) in
      (
        (decide_approval-Keeps s approval_id granted by remark).after m start,
        rw (restored, known, expired, open_)
            ((decide_open-Writes approval_id by granted s1 remark).after m1 expiry),
      )
