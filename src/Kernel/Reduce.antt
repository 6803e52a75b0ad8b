-- ===== src/Kernel/Reduce.antt =====
-- crates/evo-kernel/src/reduce.rs: one event folded into the state. `none` is a panic. Sums wrap as
-- in a release build; the assertion on the order of `seq` of a debug build is left to Kernel.Log.
use evowork.Prelude.{
  ◌+◌, String, Option, none, some, ◌≡◌, List, [], ◌∷◌, ◌++◌, map, length, if◌then◌else◌, unwrap_or,
}
use evowork.Prelude.BTreeMap.{get, insert, remove, values_all, first, add_all}
use evowork.Prelude.Words.{u32, u64, max, saturating_sub}
use evowork.Protocol.Base.{RunId, EffectId, ApprovalId, join}
use evowork.Protocol.Effect.{ToolResultStatus, ToolResult}
use evowork.Protocol.Lifecycle.{SuspendReason, CompletionStatus}
use evowork.Protocol.Turn.{EnvSampled, ContextAssembled, ModelResponded, PlanStep, ArtifactEmitted}
use evowork.Protocol.Event.{EventBody, Event}
use evowork.Kernel.Rng.{from_seed}
use evowork.Kernel.State.{RunStatus, AwaitReason, EffectState, RunState, is_resolved, new}

unfoldable pub advance_turn_if_all_effects_resolved : RunState → RunState
advance_turn_if_all_effects_resolved s =
    if values_all is_resolved s.pending_effects then record s { turn = u32 (s.turn + 1) } else s

unfoldable pub on_env_sampled : EnvSampled → RunState → RunState
on_env_sampled e s =
    let start = unwrap_or s.clock_start_ms e.wall_clock_ms in
    record s {
      turn = e.turn;
      clock_ms = e.wall_clock_ms;
      clock_start_ms = some start;
      budget_used = record s.budget_used {
        wall_ms = max s.budget_used.wall_ms (saturating_sub e.wall_clock_ms start);
      };
      rng = from_seed e.rng_seed;
      env = e.env;
      env_sampled_turn = some e.turn;
    }

on_context_assembled : ContextAssembled → RunState → RunState
on_context_assembled e s = record s {
  context = some (record {
    turn = e.turn;
    profile = e.profile;
    block_count = length e.blocks;
    taint_level = e.taint_level;
    total_token_estimate = e.total_token_estimate;
  });
  taint = join s.taint e.taint_level;
  cites = add_all (map (λ b. b.cite_id) e.blocks) s.cites;
  context_turn = some e.turn;
}

on_model_responded : ModelResponded → RunState → RunState
on_model_responded e s = record s {
  budget_used = record s.budget_used {
    tokens = u64 (s.budget_used.tokens + u64 (e.usage.input + e.usage.output));
  };
}

on_plan_step : PlanStep → RunState → RunState
on_plan_step e s = record s {
  taint = join s.taint e.taint_inherited;
  last_plan = some e;
  plan_turn = some e.turn;
}

set_effect : EffectId → EffectState → RunState → RunState
set_effect id st s = record s { pending_effects = insert id st s.pending_effects }

terminal_state : ToolResultStatus → EffectState
terminal_state ToolResultStatus.denied = EffectState.denied
terminal_state _ = EffectState.settled

unfoldable pub on_tool_result : ToolResult → RunState → RunState
unfolding terminal_state advance_turn_if_all_effects_resolved
on_tool_result e s = advance_turn_if_all_effects_resolved (record s {
  pending_effects = insert e.effect_id (terminal_state e.status) s.pending_effects;
  taint = join s.taint e.taint;
  cites = add_all e.cites_produced s.cites;
})

completed_status : CompletionStatus → RunStatus
completed_status CompletionStatus.failed = RunStatus.failed
completed_status _ = RunStatus.completed

-- What the run waits for: a representative of the open approvals, or the open question.
awaiting_approval : Option (ApprovalId × EffectId) → Option AwaitReason
awaiting_approval none = none
awaiting_approval (some (approval, effect)) = some (AwaitReason.approval approval effect)

-- `none` is the panic of `expect`.
awaiting_human : Option String → Option (Option AwaitReason)
awaiting_human none = none
awaiting_human (some question) = some (some (AwaitReason.clarification question))

unfoldable pub await_for : SuspendReason → RunState → Option (Option AwaitReason)
unfolding awaiting_approval awaiting_human
await_for SuspendReason.awaiting_approval s = some (awaiting_approval (first s.pending_approvals))
await_for SuspendReason.awaiting_human s = awaiting_human s.pending_question
await_for SuspendReason.budget_exhausted s = some (some AwaitReason.budget)
await_for SuspendReason.paused s = some (some (AwaitReason.external_event "manual_pause"))

suspend_with : RunState → Option (Option AwaitReason) → Option RunState
suspend_with s none = none
suspend_with s (some reason) = some (record s { status = RunStatus.suspended; awaiting = reason })

approve_if_requested : EffectId → Option EffectState → RunState → RunState
approve_if_requested effect (some EffectState.requested) s = record s {
  pending_effects = insert effect EffectState.approved s.pending_effects;
}
approve_if_requested effect _ s = s

approve_effect : Option EffectId → RunState → RunState
unfolding approve_if_requested
approve_effect none s = s
approve_effect (some effect) s = approve_if_requested effect (get effect s.pending_effects) s

unfoldable pub on_approval_granted : ApprovalId → RunState → RunState
unfolding approve_effect
on_approval_granted id s =
    approve_effect (get id s.pending_approvals)
      (record s { pending_approvals = remove id s.pending_approvals })

deny_effect : Option EffectId → RunState → RunState
unfolding advance_turn_if_all_effects_resolved
deny_effect none s = s
deny_effect (some effect) s =
    advance_turn_if_all_effects_resolved
      (record s { pending_effects = insert effect EffectState.denied s.pending_effects })

-- The arms of `approval.denied` and `approval.expired` do the same.
unfoldable pub on_approval_closed : ApprovalId → RunState → RunState
unfolding deny_effect
on_approval_closed id s =
    deny_effect (get id s.pending_approvals)
      (record s { pending_approvals = remove id s.pending_approvals })

on_artifact_emitted : ArtifactEmitted → RunState → RunState
on_artifact_emitted e s = record s {
  artifacts =
      s.artifacts
      ++ record { artifact_id = e.artifact_id; path = e.path; content_hash = e.blob.content_hash }
        ∷ [];
}

-- The `match` of `reduce`, at a state whose `last_seq` is that of the event already.
unfoldable pub apply_body : EventBody → RunState → Option RunState
unfolding on_env_sampled on_context_assembled on_model_responded on_plan_step set_effect
    on_tool_result completed_status suspend_with await_for on_approval_granted on_approval_closed
    on_artifact_emitted
apply_body (EventBody.run_created e) s =
    some (record s { budget = e.budget; status = RunStatus.running })
apply_body (EventBody.intent_declared e) s = some (record s { intent = some e.intent_ref })
apply_body (EventBody.env_sampled e) s = some (on_env_sampled e s)
apply_body (EventBody.context_assembled e) s = some (on_context_assembled e s)
apply_body (EventBody.model_requested e) s = some s
apply_body (EventBody.model_responded e) s = some (on_model_responded e s)
apply_body (EventBody.plan_step e) s = some (on_plan_step e s)
apply_body (EventBody.tool_requested e) s = some (set_effect e.effect_id EffectState.requested s)
apply_body (EventBody.policy_evaluated e) s = some s
apply_body (EventBody.impact_estimated e) s = some s
apply_body (EventBody.effect_dispatched e) s =
    some (set_effect e.effect_id EffectState.dispatched s)
apply_body (EventBody.tool_result e) s = some (on_tool_result e s)
apply_body (EventBody.cost_charged e) s = some (record s {
  budget_used = record s.budget_used {
    amount_micros = u64 (s.budget_used.amount_micros + e.amount_micros);
  };
})
apply_body (EventBody.budget_amended e) s = some (record s { budget = e.budget })
apply_body (EventBody.checkpoint e) s = some (record s { last_checkpoint_seq = some s.last_seq })
apply_body (EventBody.run_completed e) s = some (record s { status = completed_status e.status })
apply_body (EventBody.run_suspended e) s = suspend_with s (await_for e.reason s)
apply_body (EventBody.run_resumed e) s =
    some (record s { status = RunStatus.running; awaiting = none })
apply_body (EventBody.run_failed e) s = some (record s { status = RunStatus.failed })
apply_body (EventBody.approval_requested e) s =
    some (record s { pending_approvals = insert e.approval_id e.effect_id s.pending_approvals })
apply_body (EventBody.approval_granted e) s = some (on_approval_granted e.approval_id s)
apply_body (EventBody.approval_denied e) s = some (on_approval_closed e.approval_id s)
apply_body (EventBody.approval_expired e) s = some (on_approval_closed e.approval_id s)
apply_body (EventBody.clarification_requested e) s =
    some (record s { pending_question = some e.question_id })
apply_body (EventBody.clarification_answered e) s =
    some (record s { pending_question = none; context_turn = none; plan_turn = none })
apply_body (EventBody.context_compacted e) s = some s
apply_body (EventBody.artifact_emitted e) s = some (on_artifact_emitted e s)

unfoldable pub reduce : RunState → Event → Option RunState
unfolding apply_body
reduce s e = apply_body e.body (record s { last_seq = e.seq })

-- `reduce` is the `match` at the state with the new `last_seq`.
pub reduce_at :
    (s : RunState) (e : Event) {r : Option RunState}
    → reduce s e ≡ r
    → apply_body e.body (record s { last_seq = e.seq }) ≡ r
unfolding reduce
reduce_at s e h = h

unfoldable pub reduce_all : Option RunState → List Event → Option RunState
reduce_all none events = none
reduce_all (some s) [] = some s
reduce_all (some s) (e ∷ events) = reduce_all (reduce s e) events

-- `fold`: replay from the empty state.
unfoldable pub fold : RunId → List Event → Option RunState
unfolding reduce_all new
fold run_id events = reduce_all (some (new run_id)) events
