-- ===== src/Gateway/Answers.antt =====
-- crates/evo-gateway/src/pipeline.rs always answers: its panics are out of reach.
use evowork.Prelude.{String, Option, some, true, ◌≡◌, ◌≢◌, refl, arith, is_some, List, []}
use evowork.Protocol.Effect.{EffectRequest, ExecutionMode, ImpactEstimated}
use evowork.Protocol.Event.{EventBody}
use evowork.Protocol.Base.{BudgetSpec, BudgetUsage}
use evowork.Policy.{PolicyDecision}
use evowork.Gateway.Manifest.{Json}
use evowork.Gateway.Impact.{PreviewOutcome, estimate}
use evowork.Gateway.Pipeline.{
  AdmitRequest, PendingAdmit, GatewayAction, Gateway, preview_method, action_of, finish, admit,
  admit_with_preview,
}

module _ (json : Json) where
  -- What admission promises of the state that it hands out for a preview.
  pub record IsPending (p : PendingAdmit json.Value) : Type 0 where
    pub method : is_some (preview_method p) ≡ true
    pub decided : (reason : String) → p.decision ≢ PolicyDecision.deny reason

  admit_total : (g : Gateway) (req : AdmitRequest json.Value) → is_some (admit json g req) ≡ true
  unfolding admit finish
  admit_total g req = ground arith

  admit-IsPending :
      (g : Gateway) (req : AdmitRequest json.Value) (p : PendingAdmit json.Value)
      → action_of (admit json g req) ≡ some (GatewayAction.need_preview p)
      → IsPending p
  unfolding admit finish
  admit-IsPending g req p h = ground arith

  finish_total :
      (events : List EventBody) (d : PolicyDecision) (r : EffectRequest) (mode : ExecutionMode)
      (impact : ImpactEstimated) (budget : BudgetSpec) (used : BudgetUsage)
      → ((reason : String) → d ≢ PolicyDecision.deny reason)
      → is_some (finish {Value = json.Value} events d r mode impact budget used) ≡ true
  unfolding finish
  finish_total events (PolicyDecision.deny reason) r mode impact budget used h =
      absurd (h reason refl)
  finish_total events _ r mode impact budget used h = ground arith

  resumed_total :
      (p : PendingAdmit json.Value) (preview : Option PreviewOutcome)
      → IsPending p
      → is_some (admit_with_preview json p preview) ≡ true
  unfolding admit_with_preview
  resumed_total p preview i =
      finish_total [] p.decision p.request p.mode
        (estimate json p.request.effect_id p.manifest p.params preview) p.budget p.budget_used
        i.decided

  -- Every admission has an answer. If the answer is to ask for a preview, the tool's manifest names
  -- the method, and the second half of the admission has an answer too, with whatever outcome of the
  -- preview or with none.
  pub admit_answers :
      (g : Gateway) (req : AdmitRequest json.Value)
      → (is_some (admit json g req) ≡ true)
        × ((p : PendingAdmit json.Value)
            → action_of (admit json g req) ≡ some (GatewayAction.need_preview p)
            → (is_some (preview_method p) ≡ true)
              × ((preview : Option PreviewOutcome)
                  → is_some (admit_with_preview json p preview) ≡ true))
  admit_answers g req = (
    admit_total g req,
    λ p h. let i = admit-IsPending g req p h in (i.method, λ preview. resumed_total p preview i),
  )
