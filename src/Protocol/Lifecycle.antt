-- ===== src/Protocol/Lifecycle.antt =====
-- crates/evo-protocol/src/events/lifecycle.rs
use evowork.Prelude.{ℕ, String, Option, Bool}
use evowork.Prelude.BTreeMap.{BTreeMap}
use evowork.Protocol.Base.{RunId, BlobRef, BudgetSpec, Actor}

pub record PrincipalRef : Type 0 where
  pub kind : String
  pub id : String

pub data TriggerKind : Type 0 where
  manual schedule webhook file condition : TriggerKind

pub record TriggerRef : Type 0 where
  pub kind : TriggerKind
  pub reference : String

pub record RunCreated : Type 0 where
  pub run_id : RunId
  pub parent_run_id : Option RunId
  pub workspace_id : String
  pub principal : PrincipalRef
  pub trigger : TriggerRef
  pub budget : BudgetSpec
  pub labels : BTreeMap String

pub record IntentDeclared : Type 0 where
  pub intent_ref : BlobRef
  pub char_len : ℕ
  pub lang : String
  pub source : String

pub data CompletionStatus : Type 0 where
  ok partial failed : CompletionStatus

pub record RunCompleted : Type 0 where
  pub status : CompletionStatus
  pub summary_ref : Option BlobRef

pub data SuspendReason : Type 0 where
  awaiting_approval awaiting_human budget_exhausted paused : SuspendReason

pub record RunSuspended : Type 0 where
  pub reason : SuspendReason
  pub detail_ref : Option BlobRef

pub record RunResumed : Type 0 where
  pub by : Actor
  pub from_seq : ℕ

pub record ErrorDetail : Type 0 where
  pub code : String
  pub message_ref : Option BlobRef
  pub retryable : Bool

pub record RunFailed : Type 0 where
  pub at_seq : ℕ
  pub error : ErrorDetail
