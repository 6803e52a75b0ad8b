-- ===== src/Gateway/Pipeline.antt =====
-- crates/evo-gateway/src/pipeline.rs: the six steps of admission. `none` is the panic of
-- `unreachable!` and `expect`.
mod Request
mod Gates
pub use Request.{
  AdmitRequest, PendingAdmit, GatewayAction, GatewayVerdict, Gateway, action_of, events_of,
  preview_method,
}
unfoldable pub use Gates.{tighten, budget_gate, gate}
use evowork.Prelude.{
  ℕ, String, Option, none, some, Bool, ◌&&◌, not, List, [], ◌∷◌, ◌++◌, map, ltb, leb, if◌then◌else◌,
  is_some, is_some_and, unwrap_or,
}
use evowork.Prelude.BTreeMap.{get}
use evowork.Prelude.Words.{saturating_add, saturating_mul}
use evowork.Protocol.Base.{RunId, EffectId, CiteId, BudgetSpec, BudgetUsage, TaintLevel, is_tainted}
use evowork.Protocol.Turn.{PlannedCall}
use evowork.Protocol.Effect.{
  EffectClass, class_eq, suppressed_in_dry_run, CapabilityToken, allows, EffectRequest,
  ExecutionMode, is_dry_run, ImpactEstimated, PolicyDecisionKind, ToolResultStatus,
}
use evowork.Protocol.Governance.{RiskLevel, max_risk}
use evowork.Protocol.Event.{EventBody}
use evowork.Policy.{PolicyDecision, PolicyHook}
use evowork.Gateway.Manifest.{Json, ToolManifest, ManifestRegistry, strictest_default, resolve_all}
use evowork.Gateway.Impact.{PreviewOutcome, estimate}

-- What `policy.evaluated` records of a decision.
kind_of : PolicyDecision → PolicyDecisionKind
kind_of (PolicyDecision.deny reason) = PolicyDecisionKind.deny
kind_of PolicyDecision.allow = PolicyDecisionKind.allow
kind_of (PolicyDecision.require_approval risk) = PolicyDecisionKind.require_approval

reason_of : PolicyDecision → String → String
reason_of (PolicyDecision.deny reason) gate_reason = reason
reason_of _ gate_reason = gate_reason

tool_requested : EffectRequest → EventBody
tool_requested r = EventBody.tool_requested (record {
  effect_id = r.effect_id;
  turn = r.turn;
  tool = r.tool;
  params_ref = r.params_ref;
  params_digest = r.params_digest;
  class = r.class;
  declared_targets = r.targets;
  declared_egress = r.egress;
  reversible = r.reversible;
  cites_referenced = r.cites_referenced;
})

policy_evaluated : EffectId → PolicyDecisionKind → List String → String → String → EventBody
policy_evaluated effect_id decision rules version reason = EventBody.policy_evaluated (record {
  effect_id = effect_id;
  decision = decision;
  rules_hit = rules;
  policy_ver = version;
  reason_code = reason;
})

unfoldable pub dry_run_result : EffectRequest → EventBody
dry_run_result r = EventBody.tool_result (record {
  effect_id = r.effect_id;
  status = ToolResultStatus.dry_run;
  output_ref = none;
  bytes = none;
  taint = TaintLevel.clean;
  cites_produced = [];
  actual_targets = [];
  actual_egress = [];
})

module _ {Value : Type 0} where
  -- The end of `finish`: approval, dry run or dispatch.
  conclude :
      List EventBody
      → PolicyDecision
      → EffectRequest
      → ExecutionMode
      → ImpactEstimated
      → Option (GatewayVerdict Value)
  unfolding dry_run_result
  conclude events (PolicyDecision.deny reason) request mode impact = none
  conclude events (PolicyDecision.require_approval risk) request mode impact =
      some (record { events = events; action = GatewayAction.await_approval risk request impact })
  conclude events PolicyDecision.allow request mode impact =
      if is_dry_run mode && suppressed_in_dry_run request.class
      then some (record {
        events = events ++ dry_run_result request ∷ [];
        action = GatewayAction.dry_run request;
      })
      else some (record { events = events; action = GatewayAction.dispatch request })

  finish_gated :
      Option String
      → List EventBody
      → PolicyDecision
      → EffectRequest
      → ExecutionMode
      → ImpactEstimated
      → Option (GatewayVerdict Value)
  unfolding conclude
  finish_gated (some reason) events decision request mode impact =
      some (record { events = events; action = GatewayAction.budget_exceeded reason request })
  finish_gated none events decision request mode impact =
      conclude events decision request mode impact

  unfoldable pub finish :
      List EventBody
      → PolicyDecision
      → EffectRequest
      → ExecutionMode
      → ImpactEstimated
      → BudgetSpec
      → BudgetUsage
      → Option (GatewayVerdict Value)
  unfolding finish_gated
  finish events decision request mode impact budget used =
      finish_gated (budget_gate budget used impact.est_cost_micros)
        (events ++ EventBody.impact_estimated impact ∷ []) decision request mode impact

module _ (json : Json) where
  open json use {Value}

  unfoldable pub build_request : ToolManifest → AdmitRequest Value → EffectRequest
  build_request manifest req = record {
    effect_id = req.effect_id;
    run_id = req.run_id;
    turn = req.turn;
    tool = req.call.tool;
    params_ref = req.call.params_ref;
    params_digest = req.call.params_digest;
    class = manifest.class;
    targets = map (λ t. t.0) (resolve_all json req.params manifest);
    egress = manifest.egress;
    reversible = manifest.reversible;
    taint = req.taint;
    cites_referenced = req.cites_referenced;
    capability = req.capability;
  }

  -- Steps 5 and 6, after the events of a decision.
  unfoldable pub proceed :
      List EventBody
      → PolicyDecision
      → ToolManifest
      → EffectRequest
      → AdmitRequest Value
      → Option (GatewayVerdict Value)
  proceed events (PolicyDecision.deny reason) manifest request req =
      some (record { events = events; action = GatewayAction.deny reason })
  proceed events decision manifest request req =
      if is_some manifest.preview
      then some (record {
        events = events;
        action = GatewayAction.need_preview (record {
          manifest = manifest;
          params = req.params;
          decision = decision;
          request = request;
          mode = req.mode;
          budget = req.budget;
          budget_used = req.budget_used;
        });
      })
      else finish events decision request req.mode
          (estimate json req.effect_id manifest req.params none) req.budget req.budget_used

  -- Steps 3 and 4 for a call that the capability allows.
  unfoldable pub evaluate :
      PolicyHook
      → Bool
      → ToolManifest
      → EffectRequest
      → AdmitRequest Value
      → Option (GatewayVerdict Value)
  unfolding tool_requested policy_evaluated kind_of reason_of proceed
  evaluate policy manifest_missing manifest request req =
      let (policy_decision, rules_hit) = policy.evaluate_with_trace (record {
        tool = request.tool;
        class = request.class;
        taint = req.taint;
        targets = request.targets;
        reversible = request.reversible;
      }) in
      let (decision, reason) =
        gate manifest_missing
          (is_tainted req.taint && not (class_eq request.class EffectClass.read)) policy_decision in
      proceed
        (tool_requested request
          ∷ policy_evaluated req.effect_id (kind_of decision) rules_hit policy.version
              (reason_of decision reason)
          ∷ [])
        decision manifest request req

  -- Steps 1 and 2: the capability.
  unfoldable pub admit_with :
      PolicyHook
      → Bool
      → ToolManifest
      → EffectRequest
      → AdmitRequest Value
      → Option (GatewayVerdict Value)
  unfolding evaluate tool_requested policy_evaluated
  admit_with policy manifest_missing manifest request req =
      if not (allows req.capability request.tool)
      then some (record {
        events =
            tool_requested request
            ∷ policy_evaluated req.effect_id PolicyDecisionKind.deny [] policy.version
                "capability_scope"
            ∷ [];
        action = GatewayAction.deny "capability_scope";
      })
      else evaluate policy manifest_missing manifest request req

  unfoldable pub admit : Gateway → AdmitRequest Value → Option (GatewayVerdict Value)
  unfolding admit_with build_request
  admit g req =
      let found = get req.call.tool g.manifests.by_name in
      let manifest = unwrap_or found (strictest_default req.call.tool) in
      admit_with g.policy (not (is_some found)) manifest (build_request manifest req) req

  unfoldable pub admit_with_preview :
      PendingAdmit Value → Option PreviewOutcome → Option (GatewayVerdict Value)
  admit_with_preview p preview =
      finish [] p.decision p.request p.mode
        (estimate json p.request.effect_id p.manifest p.params preview) p.budget p.budget_used
