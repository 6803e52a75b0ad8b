-- ===== src/Kernel/Decide.antt =====
-- crates/evo-kernel/src/decide.rs: what the kernel asks the runtime to do next.
use evowork.Prelude.{
  ℕ, String, Option, none, some, Bool, false, ◌||◌, not, List, [], ◌∷◌, ◌++◌, leb, ◌==◌,
  if◌then◌else◌, is_some, is_some_and,
}
use evowork.Prelude.BTreeMap.{values_all}
use evowork.Prelude.Words.{saturating_mul}
use evowork.Protocol.Accounting.{CheckpointReason}
use evowork.Protocol.Base.{BudgetSpec, BudgetUsage}
use evowork.Protocol.Turn.{PlanIntent, PlanStep, PlannedCall, PlannedClarification}
use evowork.Kernel.State.{
  RunStatus, is_running, AwaitReason, RunState, is_resolved, events_since_checkpoint,
}

abbrev pub checkpoint_every : ℕ
checkpoint_every = 50

pub data Command : Type 0 where
  sample_env : Command
  assemble_context : ℕ → String → Command
  call_model : ℕ → Command
  request_effect : PlannedCall → Command
  ask_clarification : PlannedClarification → Command
  checkpoint : CheckpointReason → Command
  suspend : AwaitReason → Command
  complete : RunStatus → Command

unfoldable pub budget_exhausted : BudgetSpec → BudgetUsage → Bool
budget_exhausted spec used =
    is_some_and spec.max_tokens (λ limit. leb limit used.tokens)
    || is_some_and spec.max_amount_micros (λ limit. leb limit used.amount_micros)
    || is_some_and spec.max_wall_seconds (λ limit. leb (saturating_mul limit 1000) used.wall_ms)

-- `Option<u32> != Some(turn)`
abbrev pub is_at : Option ℕ → ℕ → Bool
is_at none turn = false
is_at (some t) turn = t == turn

request_or_fail : Option PlannedCall → Command
request_or_fail none = Command.complete RunStatus.failed
request_or_fail (some call) = Command.request_effect call

ask_or_fail : Option PlannedClarification → Command
ask_or_fail none = Command.complete RunStatus.failed
ask_or_fail (some clarification) = Command.ask_clarification clarification

follow_intent : PlanIntent → PlanStep → Command
follow_intent PlanIntent.tool_call plan = request_or_fail plan.call
follow_intent PlanIntent.clarify plan = ask_or_fail plan.clarification
follow_intent PlanIntent.finish plan = Command.complete RunStatus.completed

unfoldable pub follow_plan : Option PlanStep → Command
unfolding follow_intent request_or_fail ask_or_fail
follow_plan none = Command.complete RunStatus.completed
follow_plan (some plan) = follow_intent plan.intent plan

-- The part of `decide` below the gate of the effects: the next stage of the turn.
unfoldable pub next_stage : RunState → Command
unfolding follow_plan
next_stage s =
    if not (is_at s.env_sampled_turn s.turn)
    then Command.sample_env
    else if not (is_at s.context_turn s.turn)
    then Command.assemble_context s.turn "default"
    else if not (is_at s.plan_turn s.turn)
    then Command.call_model s.turn
    else follow_plan s.last_plan

unfoldable pub periodic_checkpoint : RunState → List Command
periodic_checkpoint s =
    if leb checkpoint_every (events_since_checkpoint s)
    then Command.checkpoint CheckpointReason.periodic ∷ []
    else []

unfoldable pub decide : RunState → List Command
unfolding periodic_checkpoint
decide s =
    if not (is_running s.status) || is_some s.awaiting
    then []
    else if budget_exhausted s.budget s.budget_used
    then periodic_checkpoint s ++ Command.suspend AwaitReason.budget ∷ []
    else if not (values_all is_resolved s.pending_effects)
    then periodic_checkpoint s
    else periodic_checkpoint s ++ next_stage s ∷ []
