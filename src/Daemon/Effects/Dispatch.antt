-- ===== src/Daemon/Effects/Dispatch.antt =====
-- `dispatch_effect` of crates/evo-daemon/src/runtime.rs: a call goes to the executor, and its result and
-- cost are written.
use evowork.Prelude.{
  ℕ, ◌+◌, Option, none, some, Bool, true, false, ◌&&◌, List, [], ◌∷◌, unwrap_or, length,
}
use evowork.Prelude.Texts.{str_eq, concat}
use evowork.Prelude.Words.{u64}
use evowork.Protocol.Base.{EffectId, ToolId, BlobRef, Actor}
use evowork.Protocol.Accounting.{CheckpointReason}
use evowork.Protocol.Effect.{EffectClass, EffectRequest, ExecutionMode, ToolResultStatus}
use evowork.Protocol.Event.{EventBody}
use evowork.Kernel.State.{RunState}
use evowork.Exec.{WorkspaceHandle, Lease, EffectOutcome}
use evowork.Daemon.Error.{DaemonError}
use evowork.Daemon.Action.{pure, or_fail, ◌>>=◌}
use evowork.Daemon.Machine.{Env, Step, ask, put, fetch, emit, checkpoint}
use evowork.Daemon.Effects.{emit_artifact_for_write, charge_effect}

abbrev pub executed : ToolResultStatus → Bool
executed ToolResultStatus.ok = true
executed ToolResultStatus.error = true
executed _ = false

abbrev pub is_ok_status : ToolResultStatus → Bool
is_ok_status ToolResultStatus.ok = true
is_ok_status _ = false

-- A write or an external effect.
abbrev pub is_write : EffectClass → Bool
is_write EffectClass.write = true
is_write EffectClass.external = true
is_write _ = false

module _ (env : Env) where
  unfoldable pub output_blob :
      EffectOutcome → Option (List ℕ) → Step env (Option BlobRef × Option ℕ)
  output_blob outcome none = pure (none, none)
  output_blob outcome (some b) = do
    r ← put env outcome.output_mime b
    pure (some r, some (length b))

  unfoldable pub checkpoint_if : Bool → RunState → Step env RunState
  checkpoint_if true state = checkpoint env state CheckpointReason.pre_write
  checkpoint_if false state = pure state

  unfoldable pub artifact_if : Bool → env.json.Value → RunState → Step env RunState
  unfolding emit_artifact_for_write
  artifact_if true params state = emit_artifact_for_write env state params
  artifact_if false params state = pure state

  unfoldable pub charge_if : Bool → EffectId → ToolId → ℕ → Option ℕ → RunState → Step env RunState
  unfolding charge_effect
  charge_if true effect_id tool turn reported_cost state =
      charge_effect env state effect_id tool turn reported_cost
  charge_if false effect_id tool turn reported_cost state = pure state

  lease_for : RunState → EffectId → EffectRequest → WorkspaceHandle → Lease
  lease_for state effect_id request workspace = record {
    lease_id = concat (effect_id ∷ "-l" ∷ []);
    run_id = state.run_id;
    effect_id = effect_id;
    issued_at_ms = state.clock_ms;
    expires_at_ms = u64 (state.clock_ms + 60000);
    workspace = workspace;
    egress_policy = record { allow = env.config.egress_allow; proxy_addr = env.config.proxy_addr };
    capability = request.capability;
  }

  -- What the daemon writes of an outcome.
  unfoldable pub settle :
      EffectId → EffectRequest → env.json.Value → EffectOutcome → RunState → Step env RunState
  unfolding output_blob artifact_if charge_if
  settle effect_id request params outcome state = do
    (output_ref, bytes) ← output_blob outcome outcome.output
    state ← emit env state Actor.executor (
        EventBody.tool_result (record {
          effect_id = effect_id;
          status = outcome.status;
          output_ref = output_ref;
          bytes = bytes;
          taint = outcome.taint;
          cites_produced = [];
          actual_targets = outcome.actual_targets;
          actual_egress = outcome.actual_egress;
        }))
    state ← artifact_if (is_ok_status outcome.status && str_eq request.tool "fs.write") params state
    charge_if (executed outcome.status) effect_id request.tool request.turn outcome.cost_micros
        state

  unfoldable pub dispatch_effect : RunState → EffectId → EffectRequest → Step env RunState
  unfolding checkpoint_if lease_for settle
  dispatch_effect state effect_id request = do
    bytes ← fetch env request.params_ref
    let params = unwrap_or (env.from_slice bytes) env.empty_object
    state ← checkpoint_if (is_write request.class) state
    ensured ← ask env (env.ensure state.run_id)
    workspace ← or_fail DaemonError.exec ensured
    let lease = lease_for state effect_id request workspace
    state ← emit env state Actor.gateway (
        EventBody.effect_dispatched (record {
          effect_id = effect_id;
          executor_id = env.executor_id;
          lease_id = lease.lease_id;
          mode = ExecutionMode.live;
        }))
    outcome ← ask env (
        env.execute lease
          (record { request = request; params = params; mode = ExecutionMode.live }))
    settle effect_id request params outcome state
