-- ===== src/Gateway/Mediation.antt =====
-- Complete mediation: what crates/evo-gateway/src/pipeline.rs lets through, and that it always answers.
use evowork.Prelude.{
  none, some, true, false, ◌&&◌, not, ◌≡◌, ◌≢◌, ◌↔◌, arith, map, Option-cases, inl, inr,
}
use evowork.Prelude.BTreeMap.{get}
use evowork.Protocol.Base.{is_tainted}
use evowork.Protocol.Effect.{
  EffectClass, class_eq, suppressed_in_dry_run, EffectRequest, allows, is_dry_run,
}
use evowork.Policy.{PolicyDecision, PolicyContext}
use evowork.Gateway.Manifest.{Json, ToolManifest, resolve_all}
use evowork.Gateway.Impact.{estimate}
use evowork.Gateway.Pipeline.{
  AdmitRequest, GatewayAction, Gateway, tighten, gate, budget_gate, build_request, action_of,
  finish, admit,
}

module _ (json : Json) where
  -- The context in which the policy judges a call of a tool with this manifest.
  abbrev pub context_of : AdmitRequest json.Value → ToolManifest → PolicyContext
  context_of req m = record {
    tool = req.call.tool;
    class = m.class;
    taint = req.taint;
    targets = map (λ t. t.0) (resolve_all json req.params m);
    reversible = m.reversible;
  }

  -- All that a call needs to be dispatched at once.
  pub record IsCleared (g : Gateway) (req : AdmitRequest json.Value) (m : ToolManifest)
      : Type 0 where
    pub known : get req.call.tool g.manifests.by_name ≡ some m
    pub allowed : allows req.capability req.call.tool ≡ true
    pub untainted : is_tainted req.taint && not (class_eq m.class EffectClass.read) ≡ false
    pub by_policy : (g.policy.evaluate_with_trace (context_of req m)).0 ≡ PolicyDecision.allow
    pub static : m.preview ≡ none
    pub within_budget :
        budget_gate req.budget req.budget_used
          (estimate json req.effect_id m req.params none).est_cost_micros
        ≡ none
    pub for_real : is_dry_run req.mode && suppressed_in_dry_run m.class ≡ false

  IsCleared-dispatch :
      (g : Gateway) (req : AdmitRequest json.Value) (m : ToolManifest)
      → IsCleared g req m
      → action_of (admit json g req) ≡ some (GatewayAction.dispatch (build_request json m req))
  unfolding admit gate finish
  IsCleared-dispatch g req m c = ground arith

  dispatch-missing :
      (g : Gateway) (req : AdmitRequest json.Value) (r : EffectRequest)
      → get req.call.tool g.manifests.by_name ≡ none
      → action_of (admit json g req) ≢ some (GatewayAction.dispatch r)
  unfolding admit gate tighten finish
  dispatch-missing g req r k h = ground arith

  dispatch-IsCleared :
      (g : Gateway) (req : AdmitRequest json.Value) (m : ToolManifest) (r : EffectRequest)
      → get req.call.tool g.manifests.by_name ≡ some m
      → action_of (admit json g req) ≡ some (GatewayAction.dispatch r)
      → IsCleared g req m × (r ≡ build_request json m req)
  unfolding admit gate tighten finish
  dispatch-IsCleared g req m r k h = ground arith

  -- A call is dispatched at once exactly if it is cleared: its tool has a manifest, the capability
  -- allows it, it only reads or the run is clean, the policy allows it, no preview is declared, the
  -- budget gate is open, and it is no dry run of a write or an external effect. The request that goes
  -- out is the one that the manifest and the call determine.
  pub admit-dispatch_iff :
      (g : Gateway) (req : AdmitRequest json.Value) (r : EffectRequest)
      → (action_of (admit json g req) ≡ some (GatewayAction.dispatch r))
        ↔ ((m : ToolManifest) × IsCleared g req m × (r ≡ build_request json m req))
  admit-dispatch_iff g req r = (
    λ h. elim (Option-cases (get req.call.tool g.manifests.by_name)) [
      | inl k ↦ absurd (dispatch-missing g req r k h)
      | inr (m, k) ↦ let (c, e) = dispatch-IsCleared g req m r k h in (m, c, e)
    ],
    λ (m, c, e). rw e (IsCleared-dispatch g req m c),
  )
