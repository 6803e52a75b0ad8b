-- ===== src/Protocol/Event.antt =====
-- crates/evo-protocol/src/event.rs: the 27 kinds of events and the row of the log.
use evowork.Prelude.{ℕ, String}
use evowork.Protocol.Base.{RunId, Actor}
use evowork.Protocol.Effect.{
  ToolRequested, PolicyEvaluated, ImpactEstimated, EffectDispatched, ToolResult,
}
use evowork.Protocol.Lifecycle.{
  RunCreated, IntentDeclared, RunSuspended, RunResumed, RunCompleted, RunFailed,
}
use evowork.Protocol.Turn.{
  EnvSampled, ContextAssembled, ContextCompacted, ModelRequested, ModelResponded, PlanStep,
  ClarificationRequested, ClarificationAnswered, ArtifactEmitted,
}
use evowork.Protocol.Governance.{
  ApprovalRequested, ApprovalGranted, ApprovalDenied, ApprovalExpired,
}
use evowork.Protocol.Accounting.{CostCharged, BudgetAmended, Checkpoint}

pub data EventBody : Type 0 where
  run_created : RunCreated → EventBody
  intent_declared : IntentDeclared → EventBody
  run_suspended : RunSuspended → EventBody
  run_resumed : RunResumed → EventBody
  run_completed : RunCompleted → EventBody
  run_failed : RunFailed → EventBody
  env_sampled : EnvSampled → EventBody
  context_assembled : ContextAssembled → EventBody
  context_compacted : ContextCompacted → EventBody
  model_requested : ModelRequested → EventBody
  model_responded : ModelResponded → EventBody
  plan_step : PlanStep → EventBody
  tool_requested : ToolRequested → EventBody
  policy_evaluated : PolicyEvaluated → EventBody
  impact_estimated : ImpactEstimated → EventBody
  approval_requested : ApprovalRequested → EventBody
  approval_granted : ApprovalGranted → EventBody
  approval_denied : ApprovalDenied → EventBody
  approval_expired : ApprovalExpired → EventBody
  effect_dispatched : EffectDispatched → EventBody
  tool_result : ToolResult → EventBody
  cost_charged : CostCharged → EventBody
  budget_amended : BudgetAmended → EventBody
  artifact_emitted : ArtifactEmitted → EventBody
  checkpoint : Checkpoint → EventBody
  clarification_requested : ClarificationRequested → EventBody
  clarification_answered : ClarificationAnswered → EventBody

pub record Event : Type 0 where
  pub run_id : RunId
  pub seq : ℕ
  pub recorded_at : String
  pub actor : Actor
  pub schema_ver : ℕ
  pub body : EventBody
