-- ===== src/Gateway/Pipeline/Request.antt =====
-- crates/evo-gateway/src/pipeline.rs: what goes into an admission and what comes out of it.
use evowork.Prelude.{ℕ, String, Option, none, some, List, []}
use evowork.Protocol.Base.{RunId, EffectId, CiteId, BudgetSpec, BudgetUsage, TaintLevel}
use evowork.Protocol.Turn.{PlannedCall}
use evowork.Protocol.Effect.{CapabilityToken, EffectRequest, ExecutionMode, ImpactEstimated}
use evowork.Protocol.Governance.{RiskLevel}
use evowork.Protocol.Event.{EventBody}
use evowork.Policy.{PolicyDecision, PolicyHook}
use evowork.Gateway.Manifest.{ToolManifest, ManifestRegistry}

pub record AdmitRequest (Value : Type 0) : Type 0 where
  pub effect_id : EffectId
  pub run_id : RunId
  pub turn : ℕ
  pub call : PlannedCall
  pub params : Value
  pub taint : TaintLevel
  pub cites_referenced : List CiteId
  pub capability : CapabilityToken
  pub mode : ExecutionMode
  pub budget : BudgetSpec
  pub budget_used : BudgetUsage

pub record PendingAdmit (Value : Type 0) : Type 0 where
  pub manifest : ToolManifest
  pub params : Value
  pub decision : PolicyDecision
  pub request : EffectRequest
  pub mode : ExecutionMode
  pub budget : BudgetSpec
  pub budget_used : BudgetUsage

pub data GatewayAction (Value : Type 0) : Type 0 where
  dispatch : EffectRequest → GatewayAction Value
  dry_run : EffectRequest → GatewayAction Value
  deny : String → GatewayAction Value
  await_approval : RiskLevel → EffectRequest → ImpactEstimated → GatewayAction Value
  need_preview : PendingAdmit Value → GatewayAction Value
  budget_exceeded : String → EffectRequest → GatewayAction Value

pub record GatewayVerdict (Value : Type 0) : Type 0 where
  pub events : List EventBody
  pub action : GatewayAction Value

pub record Gateway : Type 0 where
  pub policy : PolicyHook
  pub manifests : ManifestRegistry

abbrev pub action_of :
    {Value : Type 0} → Option (GatewayVerdict Value) → Option (GatewayAction Value)
action_of none = none
action_of (some v) = some v.action

abbrev pub events_of : {Value : Type 0} → Option (GatewayVerdict Value) → List EventBody
events_of none = []
events_of (some v) = v.events

-- The method name of the frozen manifest.
abbrev pub preview_method : {Value : Type 0} → PendingAdmit Value → Option String
preview_method pending = pending.manifest.preview
