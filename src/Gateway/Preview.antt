-- ===== src/Gateway/Preview.antt =====
-- Admission in two halves, crates/evo-gateway/src/pipeline.rs: a preview that gives nothing changes
-- nothing.
use evowork.Prelude.{
  String, none, some, Option, Bool, true, false, sym, not, if◌then◌else◌, List, [], ◌++◌, ◌∷◌, ◌≡◌,
  ◌≢◌, refl, arith,
}
use mathlib.Core.List.{append_assoc}
use evowork.Prelude.BTreeMap.{get}
use evowork.Protocol.Base.{BudgetSpec, BudgetUsage}
use evowork.Protocol.Effect.{allows, EffectRequest, ExecutionMode, ImpactEstimated}
use evowork.Protocol.Event.{EventBody}
use evowork.Policy.{PolicyDecision, PolicyHook}
use evowork.Gateway.Manifest.{Json, ToolManifest}
use evowork.Gateway.Impact.{estimate}
use evowork.Gateway.Pipeline.{
  AdmitRequest, PendingAdmit, GatewayAction, GatewayVerdict, Gateway, dry_run_result, action_of,
  events_of, finish, proceed, evaluate, admit_with, build_request, admit, admit_with_preview,
}

-- A decision that `finish` may be given.
abbrev IsOpen : PolicyDecision → Type 0
IsOpen (PolicyDecision.deny reason) = ⊥
IsOpen _ = Unit

finish-prefix :
    {Value : Type 0} (events : List EventBody) (d : PolicyDecision) (r : EffectRequest)
    (mode : ExecutionMode) (impact : ImpactEstimated) (budget : BudgetSpec) (used : BudgetUsage)
    → IsOpen d
    → (action_of (finish {Value = Value} [] d r mode impact budget used)
        ≡ action_of (finish {Value = Value} events d r mode impact budget used))
      × (events ++ events_of (finish {Value = Value} [] d r mode impact budget used)
          ≡ events_of (finish {Value = Value} events d r mode impact budget used))
unfolding finish
finish-prefix events (PolicyDecision.deny reason) r mode impact budget used o = absurd o
finish-prefix events PolicyDecision.allow r mode impact budget used o =
    ground
      (arith, append_assoc events (EventBody.impact_estimated impact ∷ []) (dry_run_result r ∷ []))
finish-prefix events (PolicyDecision.require_approval risk) r mode impact budget used o =
    ground arith

module _ (json : Json) where
  estimate_static :
      (id : String) (m : ToolManifest) (params : json.Value)
      → estimate json id (record m { preview = none }) params none ≡ estimate json id m params none
  unfolding estimate
  estimate_static id m params = refl

  pending :
      PolicyDecision
      → ToolManifest
      → EffectRequest
      → AdmitRequest json.Value
      → PendingAdmit json.Value
  pending decision manifest request req = record {
    manifest = manifest;
    params = req.params;
    decision = decision;
    request = request;
    mode = req.mode;
    budget = req.budget;
    budget_used = req.budget_used;
  }

  finish-no_pending :
      (events : List EventBody) (d : PolicyDecision) (r : EffectRequest) (mode : ExecutionMode)
      (impact : ImpactEstimated) (budget : BudgetSpec) (used : BudgetUsage)
      (p : PendingAdmit json.Value)
      → action_of (finish events d r mode impact budget used) ≢ some (GatewayAction.need_preview p)
  unfolding finish
  finish-no_pending events d r mode impact budget used p h = ground arith

  proceed-pending :
      (events : List EventBody) (d : PolicyDecision) (m : ToolManifest) (r : EffectRequest)
      (req : AdmitRequest json.Value) (p : PendingAdmit json.Value)
      → action_of (proceed json events d m r req) ≡ some (GatewayAction.need_preview p)
      → IsOpen d × (pending d m r req ≡ p) × (events_of (proceed json events d m r req) ≡ events)
  unfolding proceed pending
  proceed-pending events (PolicyDecision.deny reason) m r req p h = ground arith
  proceed-pending events PolicyDecision.allow m r req p h = ground (
    arith,
    finish-no_pending events PolicyDecision.allow r req.mode
        (estimate json req.effect_id m req.params none) req.budget req.budget_used p,
  )
  proceed-pending events (PolicyDecision.require_approval risk) m r req p h = ground (
    arith,
    finish-no_pending events (PolicyDecision.require_approval risk) r req.mode
        (estimate json req.effect_id m req.params none) req.budget req.budget_used p,
  )

  proceed-static :
      (events : List EventBody) (d : PolicyDecision) (m : ToolManifest) (r : EffectRequest)
      (req : AdmitRequest json.Value)
      → IsOpen d
      → proceed json events d (record m { preview = none }) r req
        ≡ finish events d r req.mode
            (estimate json req.effect_id m req.params none)
            req.budget
            req.budget_used
  unfolding proceed estimate
  proceed-static events (PolicyDecision.deny reason) m r req o = absurd o
  proceed-static events PolicyDecision.allow m r req o = refl
  proceed-static events (PolicyDecision.require_approval risk) m r req o = refl

  admit-pending :
      (d : PolicyDecision) (m : ToolManifest) (r : EffectRequest) (req : AdmitRequest json.Value)
      → r.effect_id ≡ req.effect_id
      → admit_with_preview json (pending d m r req) none
        ≡ finish [] d r req.mode
            (estimate json req.effect_id m req.params none)
            req.budget
            req.budget_used
  unfolding admit_with_preview pending
  admit-pending d m r req e = rw (sym e) refl

  -- The second half completes the first.
  Completes : Option (GatewayVerdict json.Value) → Option (GatewayVerdict json.Value) → Type 0
  Completes verdict static =
      (p : PendingAdmit json.Value)
      → action_of verdict ≡ some (GatewayAction.need_preview p)
      → (action_of (admit_with_preview json p none) ≡ action_of static)
        × (events_of verdict ++ events_of (admit_with_preview json p none) ≡ events_of static)

  proceed-Completes :
      (events : List EventBody) (d : PolicyDecision) (m : ToolManifest) (r : EffectRequest)
      (req : AdmitRequest json.Value)
      → r.effect_id ≡ req.effect_id
      → Completes
          (proceed json events d m r req)
          (proceed json events d (record m { preview = none }) r req)
  unfolding Completes
  proceed-Completes events d m r req e p h =
      let (o, same, ev) = proceed-pending events d m r req p h in
      rw (sym same, admit-pending d m r req e, proceed-static events d m r req o, ev)
        (finish-prefix events d r req.mode (estimate json req.effect_id m req.params none)
          req.budget req.budget_used o)

  evaluate-Completes :
      (policy : PolicyHook) (missing : Bool) (m : ToolManifest) (r : EffectRequest)
      (req : AdmitRequest json.Value)
      → r.effect_id ≡ req.effect_id
      → Completes
          (evaluate json policy missing m r req)
          (evaluate json policy missing (record m { preview = none }) r req)
  unfolding evaluate
  evaluate-Completes policy missing m r req e = proceed-Completes _ _ m r req e

  scoped_Completes :
      (b : Bool) (events : List EventBody) (reason : String)
      (verdict static : Option (GatewayVerdict json.Value))
      → Completes verdict static
      → Completes
          (if b
            then some (record { events = events; action = GatewayAction.deny reason })
            else verdict)
          (if b
            then some (record { events = events; action = GatewayAction.deny reason })
            else static)
  unfolding Completes
  scoped_Completes true events reason verdict static c p h = ground arith
  scoped_Completes false events reason verdict static c p h = c p h

  admit_with-Completes :
      (policy : PolicyHook) (missing : Bool) (m : ToolManifest) (r : EffectRequest)
      (req : AdmitRequest json.Value)
      → r.effect_id ≡ req.effect_id
      → Completes
          (admit_with json policy missing m r req)
          (admit_with json policy missing (record m { preview = none }) r req)
  unfolding admit_with
  admit_with-Completes policy missing m r req e =
      scoped_Completes (not (allows req.capability r.tool)) _ _ _ _
        (evaluate-Completes policy missing m r req e)

  admit_known :
      (g : Gateway) (req : AdmitRequest json.Value) (m : ToolManifest)
      → get req.call.tool g.manifests.by_name ≡ some m
      → admit json g req ≡ admit_with json g.policy false m (build_request json m req) req
  unfolding admit
  admit_known g req m k = rw k refl

  build_request_static :
      (m : ToolManifest) (req : AdmitRequest json.Value)
      → build_request json (record m { preview = none }) req ≡ build_request json m req
  unfolding build_request
  build_request_static m req = refl

  build_request_id :
      (m : ToolManifest) (req : AdmitRequest json.Value)
      → (build_request json m req).effect_id ≡ req.effect_id
  unfolding build_request
  build_request_id m req = refl

  -- Asking for a preview and getting none ends as if the manifest had declared no preview: the same
  -- action, and the events of the two halves are together those of the admission in one go.
  pub preview_none :
      (g g' : Gateway) (req : AdmitRequest json.Value) (m : ToolManifest)
      (p : PendingAdmit json.Value)
      → g'.policy ≡ g.policy
      → get req.call.tool g.manifests.by_name ≡ some m
      → get req.call.tool g'.manifests.by_name ≡ some (record m { preview = none })
      → action_of (admit json g req) ≡ some (GatewayAction.need_preview p)
      → (action_of (admit_with_preview json p none) ≡ action_of (admit json g' req))
        × (events_of (admit json g req) ++ events_of (admit_with_preview json p none)
            ≡ events_of (admit json g' req))
  unfolding Completes
  preview_none g g' req m p same k k' h =
      rw
        (
          admit_known g req m k,
          admit_known g' req (record m { preview = none }) k',
          same,
          build_request_static m req,
        )
        (admit_with-Completes g.policy false m (build_request json m req) req
          (build_request_id m req) p (rw (sym (admit_known g req m k)) h))
