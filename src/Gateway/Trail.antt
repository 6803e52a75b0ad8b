-- ===== src/Gateway/Trail.antt =====
-- The audit trail of crates/evo-gateway/src/pipeline.rs: the events of an admission.
use evowork.Prelude.{Option, none, some, List, [], ◌∷◌, ◌≡◌, ◌⊎◌, arith, map}
use evowork.Protocol.Effect.{PolicyDecisionKind}
use evowork.Protocol.Event.{EventBody}
use evowork.Policy.{PolicyDecision}
use evowork.Gateway.Manifest.{Json}
use evowork.Gateway.Pipeline.{AdmitRequest, GatewayAction, GatewayVerdict, Gateway, finish, admit}

pub data Entry : Type 0 where
  requested : Entry
  judged : PolicyDecisionKind → Entry
  impact : Entry
  result : Entry
  other : Entry

abbrev pub entry : EventBody → Entry
entry (EventBody.tool_requested e) = Entry.requested
entry (EventBody.policy_evaluated e) = Entry.judged e.decision
entry (EventBody.impact_estimated e) = Entry.impact
entry (EventBody.tool_result e) = Entry.result
entry _ = Entry.other

-- What `policy.evaluated` must have said for a decision to be kept.
abbrev pub kept : PolicyDecision → PolicyDecisionKind
kept (PolicyDecision.deny reason) = PolicyDecisionKind.deny
kept PolicyDecision.allow = PolicyDecisionKind.allow
kept (PolicyDecision.require_approval risk) = PolicyDecisionKind.require_approval

-- The trail that an action must have behind it.
abbrev pub HasTrail : {Value : Type 0} → List Entry → GatewayAction Value → Type 0
HasTrail es (GatewayAction.deny reason) =
    es ≡ Entry.requested ∷ Entry.judged PolicyDecisionKind.deny ∷ []
HasTrail es (GatewayAction.need_preview p) =
    es ≡ Entry.requested ∷ Entry.judged (kept p.decision) ∷ []
HasTrail es (GatewayAction.dispatch r) =
    es ≡ Entry.requested ∷ Entry.judged PolicyDecisionKind.allow ∷ Entry.impact ∷ []
HasTrail es (GatewayAction.dry_run r) =
    es ≡ Entry.requested ∷ Entry.judged PolicyDecisionKind.allow ∷ Entry.impact ∷ Entry.result ∷ []
HasTrail es (GatewayAction.await_approval risk r i) =
    es ≡ Entry.requested ∷ Entry.judged PolicyDecisionKind.require_approval ∷ Entry.impact ∷ []
HasTrail es (GatewayAction.budget_exceeded reason r) =
    (es ≡ Entry.requested ∷ Entry.judged PolicyDecisionKind.allow ∷ Entry.impact ∷ [])
    ⊎ (es ≡ Entry.requested ∷ Entry.judged PolicyDecisionKind.require_approval ∷ Entry.impact ∷ [])

-- There is a verdict, and its events are the trail of its action.
abbrev pub Audited : {Value : Type 0} → Option (GatewayVerdict Value) → Type 0
Audited none = ⊥
Audited (some v) = HasTrail (map entry v.events) v.action

module _ (json : Json) where
  -- The events of an admission are exactly those of the steps that were taken, in their order: the
  -- request, the judgement of the policy, the impact of every call that was neither refused nor kept
  -- for a preview, and the result of a dry run. The judgement on record is the one acted upon; a call
  -- that the budget stops was judged to be allowed or to need an approval.
  pub admit-Audited : (g : Gateway) (req : AdmitRequest json.Value) → Audited (admit json g req)
  unfolding admit finish
  admit-Audited g req = ground arith
