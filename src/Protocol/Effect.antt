-- ===== src/Protocol/Effect.antt =====
-- crates/evo-protocol/src/effect.rs, and the payloads of events/effect.rs.
use evowork.Prelude.{ℕ, String, Option, Bool, true, false, List, any, ◌||◌}
use evowork.Prelude.Texts.{str_eq}
use evowork.Protocol.Base.{
  RunId, EffectId, CiteId, ToolId, LeaseId, ExecutorId, BlobRef, TaintLevel,
}

pub data EffectClass : Type 0 where
  read write external compute : EffectClass

abbrev pub suppressed_in_dry_run : EffectClass → Bool
suppressed_in_dry_run EffectClass.read = false
suppressed_in_dry_run EffectClass.write = true
suppressed_in_dry_run EffectClass.external = true
suppressed_in_dry_run EffectClass.compute = false

abbrev pub class_eq : EffectClass → EffectClass → Bool
class_eq EffectClass.read EffectClass.read = true
class_eq EffectClass.write EffectClass.write = true
class_eq EffectClass.external EffectClass.external = true
class_eq EffectClass.compute EffectClass.compute = true
class_eq _ _ = false

pub data ResourceOp : Type 0 where
  read create update delete : ResourceOp

pub record ResourceRef : Type 0 where
  pub kind : String
  pub id : String

pub record EgressRef : Type 0 where
  pub host : String
  pub port : Option ℕ

pub record CapabilityToken : Type 0 where
  pub subject : String
  pub scopes : List String

unfoldable pub allows : CapabilityToken → ToolId → Bool
allows token tool = any (λ s. str_eq s "*" || str_eq s tool) token.scopes

pub record EffectRequest : Type 0 where
  pub effect_id : EffectId
  pub run_id : RunId
  pub turn : ℕ
  pub tool : ToolId
  pub params_ref : BlobRef
  pub params_digest : String
  pub class : EffectClass
  pub targets : List ResourceRef
  pub egress : List EgressRef
  pub reversible : Bool
  pub taint : TaintLevel
  pub cites_referenced : List CiteId
  pub capability : CapabilityToken

pub record ToolRequested : Type 0 where
  pub effect_id : EffectId
  pub turn : ℕ
  pub tool : ToolId
  pub params_ref : BlobRef
  pub params_digest : String
  pub class : EffectClass
  pub declared_targets : List ResourceRef
  pub declared_egress : List EgressRef
  pub reversible : Bool
  pub cites_referenced : List CiteId

pub data PolicyDecisionKind : Type 0 where
  allow deny require_approval : PolicyDecisionKind

pub record PolicyEvaluated : Type 0 where
  pub effect_id : EffectId
  pub decision : PolicyDecisionKind
  pub rules_hit : List String
  pub policy_ver : String
  pub reason_code : String

pub record ImpactTarget : Type 0 where
  pub resource : ResourceRef
  pub op : ResourceOp
  pub detail_ref : Option BlobRef

pub data ImpactPrecision : Type 0 where
  exact declared_only unknown : ImpactPrecision

pub record ImpactEstimated : Type 0 where
  pub effect_id : EffectId
  pub targets : List ImpactTarget
  pub externals : List EgressRef
  pub est_cost_micros : Option ℕ
  pub precision : ImpactPrecision

pub data ExecutionMode : Type 0 where
  live dry_run : ExecutionMode

abbrev pub is_dry_run : ExecutionMode → Bool
is_dry_run ExecutionMode.live = false
is_dry_run ExecutionMode.dry_run = true

pub record EffectDispatched : Type 0 where
  pub effect_id : EffectId
  pub executor_id : ExecutorId
  pub lease_id : LeaseId
  pub mode : ExecutionMode

pub data ToolResultStatus : Type 0 where
  ok error dry_run denied : ToolResultStatus

pub record ToolResult : Type 0 where
  pub effect_id : EffectId
  pub status : ToolResultStatus
  pub output_ref : Option BlobRef
  pub bytes : Option ℕ
  pub taint : TaintLevel
  pub cites_produced : List CiteId
  pub actual_targets : List ResourceRef
  pub actual_egress : List EgressRef
