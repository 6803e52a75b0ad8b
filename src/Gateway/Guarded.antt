-- ===== src/Gateway/Guarded.antt =====
-- The structural gates of crates/evo-gateway/src/pipeline.rs cannot be talked away by the policy.
use evowork.Prelude.{ℕ, ◌≤◌, ◌<◌, Option, none, some, true, false, List, [], ◌≡◌, arith}
use evowork.Prelude.BTreeMap.{get}
use evowork.Protocol.Base.{is_tainted, BudgetSpec, BudgetUsage}
use evowork.Protocol.Governance.{rank, max_risk}
use evowork.Protocol.Effect.{EffectClass, class_eq, EffectRequest, ExecutionMode, ImpactEstimated}
use evowork.Protocol.Event.{EventBody}
use evowork.Policy.{PolicyDecision}
use evowork.Gateway.Manifest.{Json, ToolManifest}
use evowork.Gateway.Impact.{PreviewOutcome, estimate}
use evowork.Gateway.Pipeline.{
  AdmitRequest, PendingAdmit, GatewayAction, Gateway, tighten, gate, action_of, finish, admit,
  admit_with_preview,
}
use evowork.Gateway.Tighten.{strictness}

-- The action lets nothing happen without a person at an approval of at least the rank `n`.
abbrev pub Guarded : {Value : Type 0} → ℕ → Option (GatewayAction Value) → Type 0
Guarded n none = Unit
Guarded n (some (GatewayAction.dispatch r)) = ⊥
Guarded n (some (GatewayAction.dry_run r)) = ⊥
Guarded n (some (GatewayAction.deny reason)) = Unit
Guarded n (some (GatewayAction.await_approval risk r impact)) = n ≤ rank risk
Guarded n (some (GatewayAction.need_preview p)) = n ≤ strictness p.decision
Guarded n (some (GatewayAction.budget_exceeded reason r)) = Unit

module _ (json : Json) where
  finish-Guarded :
      (n : ℕ) (events : List EventBody) (d : PolicyDecision) (r : EffectRequest)
      (mode : ExecutionMode) (impact : ImpactEstimated) (budget : BudgetSpec) (used : BudgetUsage)
      → 0 < n
      → n ≤ strictness d
      → Guarded n (action_of (finish {Value = json.Value} events d r mode impact budget used))
  unfolding finish
  finish-Guarded n events PolicyDecision.allow r mode impact budget used z h = absurd (omega arith)
  finish-Guarded n events (PolicyDecision.deny reason) r mode impact budget used z h = ground arith
  finish-Guarded n events (PolicyDecision.require_approval risk) r mode impact budget used z h =
      ground arith

  -- A decision that asks for an approval still asks for it after the preview, at the same rank at
  -- least, whatever the preview says.
  pub admit_with_preview-Guarded :
      (n : ℕ) (p : PendingAdmit json.Value) (preview : Option PreviewOutcome)
      → 0 < n
      → n ≤ strictness p.decision
      → Guarded n (action_of (admit_with_preview json p preview))
  unfolding admit_with_preview
  admit_with_preview-Guarded n p preview z h =
      finish-Guarded n [] p.decision p.request p.mode
        (estimate json p.request.effect_id p.manifest p.params preview) p.budget p.budget_used z h

  -- Whatever the policy says, a call of a tool with no manifest is refused, stopped by the budget, or
  -- waits for an approval of the highest level.
  pub unknown_tool-Guarded :
      (g : Gateway) (req : AdmitRequest json.Value)
      → get req.call.tool g.manifests.by_name ≡ none
      → Guarded 3 (action_of (admit json g req))
  unfolding admit finish gate tighten max_risk
  unknown_tool-Guarded g req k = ground arith

  -- Whatever the policy says, in a tainted run a call that does more than read is refused, stopped by
  -- the budget, or waits for an approval of level 2 at least, and if it waits for a preview the
  -- decision that is kept for later is that strict.
  pub tainted-Guarded :
      (g : Gateway) (req : AdmitRequest json.Value) (m : ToolManifest)
      → get req.call.tool g.manifests.by_name ≡ some m
      → is_tainted req.taint ≡ true
      → class_eq m.class EffectClass.read ≡ false
      → Guarded 2 (action_of (admit json g req))
  unfolding admit finish gate tighten max_risk
  tainted-Guarded g req m k t c = ground arith
