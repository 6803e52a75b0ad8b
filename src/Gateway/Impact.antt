-- ===== src/Gateway/Impact.antt =====
-- crates/evo-gateway/src/impact.rs: what a call would touch, in three grades of precision.
use evowork.Prelude.{ℕ, Option, none, some, List, is_empty, map, if◌then◌else◌}
use evowork.Protocol.Base.{EffectId}
use evowork.Protocol.Effect.{
  ResourceOp, ResourceRef, ImpactTarget, ImpactPrecision, ImpactEstimated,
}
use evowork.Gateway.Manifest.{Json, ToolManifest, resolve_all}

pub record PreviewOutcome : Type 0 where
  pub targets : List ImpactTarget
  pub est_cost_micros : Option ℕ

abbrev as_target : ResourceRef × ResourceOp → ImpactTarget
as_target (r, op) = record { resource = r; op = op; detail_ref = none }

declared : EffectId → ToolManifest → List ImpactTarget → ImpactEstimated
declared effect_id manifest targets = record {
  effect_id = effect_id;
  targets = targets;
  externals = manifest.egress;
  est_cost_micros = none;
  precision = if is_empty targets then ImpactPrecision.unknown else ImpactPrecision.declared_only;
}

module _ (json : Json) where
  unfoldable pub estimate :
      EffectId → ToolManifest → json.Value → Option PreviewOutcome → ImpactEstimated
  unfolding declared
  estimate effect_id manifest params (some preview) = record {
    effect_id = effect_id;
    targets = preview.targets;
    externals = manifest.egress;
    est_cost_micros = preview.est_cost_micros;
    precision = ImpactPrecision.exact;
  }
  estimate effect_id manifest params none =
      declared effect_id manifest (map as_target (resolve_all json params manifest))
