-- ===== src/Gateway/Pipeline/Gates.antt =====
-- crates/evo-gateway/src/pipeline.rs: `tighten`, the budget gate and the choice of the structural gate.
use evowork.Prelude.{ℕ, String, Option, none, some, Bool, ltb, leb, if◌then◌else◌, is_some_and}
use evowork.Prelude.Words.{saturating_add, saturating_mul}
use evowork.Protocol.Base.{BudgetSpec, BudgetUsage}
use evowork.Protocol.Governance.{RiskLevel, max_risk}
use evowork.Policy.{PolicyDecision}

unfoldable pub tighten : PolicyDecision → RiskLevel → PolicyDecision
tighten (PolicyDecision.deny reason) floor = PolicyDecision.deny reason
tighten PolicyDecision.allow floor = PolicyDecision.require_approval floor
tighten (PolicyDecision.require_approval risk) floor =
    PolicyDecision.require_approval (max_risk risk floor)

amount_gate : Option ℕ → ℕ → Option ℕ → Option String
amount_gate none used est = none
amount_gate (some limit) used est =
    if leb limit used
    then some "budget_amount_exhausted"
    else if is_some_and est (λ e. ltb limit (saturating_add used e))
    then some "budget_amount_would_exceed"
    else none

unfoldable pub budget_gate : BudgetSpec → BudgetUsage → Option ℕ → Option String
unfolding amount_gate
budget_gate spec used est =
    if is_some_and spec.max_tokens (λ limit. leb limit used.tokens)
    then some "budget_tokens_exhausted"
    else if is_some_and spec.max_wall_seconds
        (λ limit. leb (saturating_mul limit 1000) used.wall_ms)
    then some "budget_wall_exhausted"
    else amount_gate spec.max_amount_micros used.amount_micros est

unfoldable pub gate : Bool → Bool → PolicyDecision → PolicyDecision × String
gate manifest_missing taint_gate policy_decision =
    if manifest_missing
    then (tighten policy_decision RiskLevel.l3, "no_manifest")
    else if taint_gate
    then (tighten policy_decision RiskLevel.l2, "taint_gate")
    else (policy_decision, "policy")
