-- ===== src/Daemon/Effects/Actions.antt =====
-- `request_effect` and `handle_gateway_action` of crates/evo-daemon/src/runtime.rs: a call goes through the
-- gateway, and what it says is done.
use evowork.Prelude.{ℕ, ◌+◌, ◌*◌, String, Option, none, some, false, [], ◌∷◌, unwrap_or, map}
use evowork.Prelude.Bytes.{as_bytes}
use evowork.Prelude.Decimals.{decimal}
use evowork.Prelude.Texts.{concat}
use evowork.Prelude.Words.{u64}
use evowork.Protocol.Base.{EffectId, BlobRef, TaintLevel, Actor}
use evowork.Protocol.Accounting.{CheckpointReason}
use evowork.Protocol.Lifecycle.{SuspendReason}
use evowork.Protocol.Effect.{ExecutionMode, ToolResultStatus, ImpactEstimated}
use evowork.Protocol.Governance.{RiskLevel}
use evowork.Protocol.Turn.{PlannedCall}
use evowork.Protocol.Event.{EventBody}
use evowork.Kernel.State.{RunState}
use evowork.Gateway.Pipeline.{GatewayAction, admit, admit_with_preview}
use evowork.Daemon.Action.{pure, panic, or_panic, ◌>>=◌}
use evowork.Daemon.Machine.{Env, Step, put, fetch, emit, checkpoint}
use evowork.Daemon.Effects.{emit_all}
use evowork.Daemon.Effects.Dispatch.{dispatch_effect}

abbrev pub approval_ttl_ms : ℕ
approval_ttl_ms = 24 * 60 * 60 * 1000

-- The result that closes an effect that never ran.
abbrev pub refused : EffectId → EventBody
refused effect_id = EventBody.tool_result (record {
  effect_id = effect_id;
  status = ToolResultStatus.denied;
  output_ref = none;
  bytes = none;
  taint = TaintLevel.clean;
  cites_produced = [];
  actual_targets = [];
  actual_egress = [];
})

module _ (env : Env) where
  unfoldable pub suspend : SuspendReason → Option BlobRef → RunState → Step env RunState
  suspend reason detail_ref state =
      emit env state Actor.gateway
        (EventBody.run_suspended (record { reason = reason; detail_ref = detail_ref }))

  unfoldable pub deny : RunState → EffectId → String → Step env RunState
  deny state effect_id reason_code = do
    state ← checkpoint env state CheckpointReason.pre_approval
    state ← emit env state Actor.gateway (refused effect_id)
    message_ref ← put env "text/plain" (as_bytes reason_code)
    emit env state Actor.gateway (
        EventBody.run_failed (record {
          at_seq = state.last_seq;
          error = record { code = reason_code; message_ref = some message_ref; retryable = false };
        }))

  unfoldable pub await_approval :
      RunState → EffectId → RiskLevel → ImpactEstimated → Step env RunState
  unfolding suspend
  await_approval state effect_id risk impact = do
    state ← checkpoint env state CheckpointReason.pre_approval
    impact_ref ← put env "application/json" (env.impact_to_vec impact)
    state ← emit env state Actor.gateway (
        EventBody.approval_requested (record {
          approval_id = concat (state.run_id ∷ "-a" ∷ decimal state.last_seq ∷ []);
          effect_id = effect_id;
          risk = risk;
          impact_ref = some impact_ref;
          expires_at_ms = u64 (state.clock_ms + approval_ttl_ms);
        }))
    suspend SuspendReason.awaiting_approval none state

  unfoldable pub exceed_budget : RunState → EffectId → String → Step env RunState
  unfolding suspend
  exceed_budget state effect_id reason_code = do
    state ← checkpoint env state CheckpointReason.pre_approval
    state ← emit env state Actor.gateway (refused effect_id)
    detail_ref ← put env "text/plain" (as_bytes reason_code)
    suspend SuspendReason.budget_exhausted (some detail_ref) state

  -- One round of the loop for every action but the preview.
  unfoldable pub final_action :
      RunState → EffectId → GatewayAction env.json.Value → Step env RunState
  unfolding deny await_approval exceed_budget
  final_action state effect_id (GatewayAction.dispatch request) =
      dispatch_effect env state effect_id request
  final_action state effect_id (GatewayAction.dry_run request) = pure state
  final_action state effect_id (GatewayAction.deny reason_code) = deny state effect_id reason_code
  final_action state effect_id (GatewayAction.await_approval risk request impact) =
      await_approval state effect_id risk impact
  final_action state effect_id (GatewayAction.budget_exceeded reason_code request) =
      exceed_budget state effect_id reason_code
  final_action state effect_id (GatewayAction.need_preview pending) = panic

  -- The loop: the answer to a preview is never a preview again (`finish` makes none).
  unfoldable pub handle_gateway_action :
      RunState → EffectId → GatewayAction env.json.Value → Step env RunState
  unfolding final_action emit_all
  handle_gateway_action state effect_id (GatewayAction.need_preview pending) = do
    verdict ← or_panic (admit_with_preview env.json pending none)
    state ← emit_all env Actor.gateway verdict.events state
    final_action state effect_id verdict.action
  handle_gateway_action state effect_id action = final_action state effect_id action

  unfoldable pub request_effect : RunState → PlannedCall → Step env RunState
  unfolding handle_gateway_action emit_all
  request_effect state call = do
    let effect_id = concat (state.run_id ∷ "-e" ∷ decimal state.last_seq ∷ [])
    bytes ← fetch env call.params_ref
    verdict ← or_panic (
        admit env.json env.gateway (record {
          effect_id = effect_id;
          run_id = state.run_id;
          turn = state.turn;
          call = call;
          params = unwrap_or (env.from_slice bytes) env.empty_object;
          taint = state.taint;
          cites_referenced = map (λ c. c.0) state.cites;
          capability = record { subject = env.config.principal; scopes = "*" ∷ [] };
          mode = ExecutionMode.live;
          budget = state.budget;
          budget_used = state.budget_used;
        }))
    state ← emit_all env Actor.gateway verdict.events state
    handle_gateway_action state effect_id verdict.action
