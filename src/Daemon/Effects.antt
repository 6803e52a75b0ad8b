-- ===== src/Daemon/Effects.antt =====
-- Events in a row, artifacts and costs in crates/evo-daemon/src/runtime.rs: a call goes through the gateway, to the executor, and
-- its cost is charged.
pub mod Dispatch
pub mod Actions
use evowork.Prelude.{
  ℕ, ◌+◌, ◌*◌, String, Option, none, some, Bool, true, false, ◌&&◌, List, [], ◌∷◌, ◌==◌,
  if◌then◌else◌, unwrap_or, map, length,
}
use evowork.Prelude.Bytes.{as_bytes}
use evowork.Prelude.Decimals.{decimal}
use evowork.Prelude.Texts.{str_eq, concat}
use evowork.Prelude.Words.{u64}
use evowork.Protocol.Base.{EffectId, ToolId, ArtifactId, BlobRef, TaintLevel, Actor}
use evowork.Protocol.Accounting.{CostUnit, CostDimension, CostCharged, CheckpointReason}
use evowork.Protocol.Lifecycle.{SuspendReason}
use evowork.Protocol.Effect.{
  EffectClass, EffectRequest, ExecutionMode, ToolResultStatus, ImpactEstimated,
}
use evowork.Protocol.Governance.{RiskLevel}
use evowork.Protocol.Turn.{PlannedCall}
use evowork.Protocol.Event.{EventBody}
use evowork.Kernel.State.{RunState, ArtifactRecord}
use evowork.Gateway.Pipeline.{GatewayAction, admit, admit_with_preview}
use evowork.Pricing.{tool_charges}
use evowork.Exec.{WorkspaceHandle, Lease, EffectOutcome}
use evowork.Daemon.Error.{DaemonError}
use evowork.Daemon.Action.{pure, panic, or_panic, or_fail, for_each, ◌>>=◌}
use evowork.Daemon.Machine.{Env, Step, ask, put, fetch, emit, checkpoint}
use evowork.Daemon.Plan.{text_field}

-- The newest record of a path: `iter().rev().find`.
unfoldable pub newest_at : String → Option ArtifactId → List ArtifactRecord → Option ArtifactId
newest_at path found [] = found
newest_at path found (a ∷ artifacts) =
    newest_at path (if str_eq a.path path then some a.artifact_id else found) artifacts

module _ (env : Env) where
  unfoldable pub emit_all : Actor → List EventBody → RunState → Step env RunState
  emit_all actor bodies = for_each bodies (λ state body. emit env state actor body)

  unfoldable pub emit_artifact : RunState → Option String → Option String → Step env RunState
  emit_artifact state (some path) (some content) = do
    blob ← put env "text/plain" (as_bytes content)
    emit env state Actor.executor (
        EventBody.artifact_emitted (record {
          artifact_id = concat (state.run_id ∷ "-art" ∷ decimal state.last_seq ∷ []);
          path = path;
          blob = blob;
          cites = [];
          supersedes = newest_at path none state.artifacts;
        }))
  emit_artifact state _ _ = pure state

  unfoldable pub emit_artifact_for_write : RunState → env.json.Value → Step env RunState
  unfolding emit_artifact newest_at
  emit_artifact_for_write state params =
      emit_artifact state (text_field env params "path") (text_field env params "content")

  unfoldable pub reported_charges :
      CostDimension → EffectId → ToolId → ℕ → Option ℕ → List CostCharged
  reported_charges dimension effect_id tool turn none =
      tool_charges env.pricing dimension (some turn) tool effect_id
  reported_charges dimension effect_id tool turn (some micros) =
      if micros == 0
      then []
      else record {
        effect_id = some effect_id;
        turn = some turn;
        unit = CostUnit.call;
        quantity = 1;
        unit_price_micros = micros;
        amount_micros = micros;
        currency = env.pricing.currency;
        price_table_ver = env.pricing.version;
        dimension = dimension;
      }
        ∷ []

  unfoldable pub charge_effect : RunState → EffectId → ToolId → ℕ → Option ℕ → Step env RunState
  unfolding reported_charges emit_all
  charge_effect state effect_id tool turn reported_cost =
      let dimension : CostDimension = record {
        principal = env.config.principal;
        team = none;
        run_id = state.run_id;
        skill = none;
        tool = some tool;
      } in
      emit_all Actor.runtime
        (map EventBody.cost_charged (reported_charges dimension effect_id tool turn reported_cost))
        state
