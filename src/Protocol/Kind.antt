-- ===== src/Protocol/Kind.antt =====
-- crates/evo-protocol/src/event.rs: the name and the version of a kind of event, which the log stores.
use evowork.Prelude.{ℕ, String}
use evowork.Protocol.Event.{EventBody}

abbrev pub kind : EventBody → String
kind (EventBody.run_created e) = "run.created"
kind (EventBody.intent_declared e) = "intent.declared"
kind (EventBody.run_suspended e) = "run.suspended"
kind (EventBody.run_resumed e) = "run.resumed"
kind (EventBody.run_completed e) = "run.completed"
kind (EventBody.run_failed e) = "run.failed"
kind (EventBody.env_sampled e) = "env.sampled"
kind (EventBody.context_assembled e) = "context.assembled"
kind (EventBody.context_compacted e) = "context.compacted"
kind (EventBody.model_requested e) = "model.requested"
kind (EventBody.model_responded e) = "model.responded"
kind (EventBody.plan_step e) = "plan.step"
kind (EventBody.tool_requested e) = "tool.requested"
kind (EventBody.policy_evaluated e) = "policy.evaluated"
kind (EventBody.impact_estimated e) = "impact.estimated"
kind (EventBody.approval_requested e) = "approval.requested"
kind (EventBody.approval_granted e) = "approval.granted"
kind (EventBody.approval_denied e) = "approval.denied"
kind (EventBody.approval_expired e) = "approval.expired"
kind (EventBody.effect_dispatched e) = "effect.dispatched"
kind (EventBody.tool_result e) = "tool.result"
kind (EventBody.cost_charged e) = "cost.charged"
kind (EventBody.budget_amended e) = "budget.amended"
kind (EventBody.artifact_emitted e) = "artifact.emitted"
kind (EventBody.checkpoint e) = "checkpoint"
kind (EventBody.clarification_requested e) = "clarification.requested"
kind (EventBody.clarification_answered e) = "clarification.answered"

abbrev pub schema_ver : EventBody → ℕ
schema_ver body = 1
