-- ===== src/Daemon/Consistency/Calls.antt =====
-- The effects of crates/evo-daemon/src/runtime.rs keep the run in step with its log.
use evowork.Prelude.{
  ℕ, String, Option, none, some, Bool, true, false, List, [], ◌∷◌, map, refl, arith,
}
use evowork.Protocol.Base.{EffectId, ToolId, Actor}
use evowork.Protocol.Effect.{EffectRequest}
use evowork.Protocol.Accounting.{CheckpointReason, CostCharged}
use evowork.Protocol.Turn.{PlannedCall}
use evowork.Protocol.Event.{EventBody}
use evowork.Kernel.State.{RunState}
use evowork.Gateway.Pipeline.{
  AdmitRequest, PendingAdmit, GatewayAction, GatewayVerdict, Gateway, finish, admit,
  admit_with_preview,
}
use evowork.Gateway.Manifest.{Json}
use evowork.Gateway.Impact.{PreviewOutcome}
use evowork.Daemon.Action.{for_each}
use evowork.Daemon.Consistency.Written.{ArePlain}
use evowork.Exec.{EffectOutcome}
use evowork.Daemon.Effects.{emit_all, emit_artifact, emit_artifact_for_write, charge_effect}
use evowork.Daemon.Effects.Dispatch.{
  output_blob, checkpoint_if, artifact_if, charge_if, settle, dispatch_effect,
}
use evowork.Daemon.Effects.Actions.{
  suspend, deny, await_approval, exceed_budget, final_action, handle_gateway_action, request_effect,
}
use evowork.Daemon.Consistency.Keeps.{
  Setting, Keeps, Quiet, bind, after-Quiet, bind-Quiet, pure-Keeps, panic-Keeps, pure-Quiet, OnSome,
  after-or_panic, or_fail-Quiet, ask-Quiet, put-Quiet, fetch-Quiet,
}
use evowork.Daemon.Consistency.Emission.{emit-Keeps}
use evowork.Daemon.Consistency.Checkpoint.{checkpoint-Keeps}

pub charges-ArePlain : (charged : List CostCharged) → ArePlain (map EventBody.cost_charged charged)
charges-ArePlain [] = tt
charges-ArePlain (e ∷ charged) = (tt, charges-ArePlain charged)

-- The gateway writes no request to a model.
abbrev IsPlainVerdict : {Value : Type 0} → GatewayVerdict Value → Type 0
IsPlainVerdict verdict = ArePlain verdict.events

admit-IsPlain :
    (json : Json) (g : Gateway) (req : AdmitRequest json.Value)
    → OnSome IsPlainVerdict (admit json g req)
unfolding admit finish
admit-IsPlain json g req = ground arith

preview-IsPlain :
    (json : Json) (p : PendingAdmit json.Value) (preview : Option PreviewOutcome)
    → OnSome IsPlainVerdict (admit_with_preview json p preview)
unfolding admit_with_preview finish
preview-IsPlain json p preview = ground arith

module _ {c : Setting} where
  pub emit_all-Keeps :
      (actor : Actor) (bodies : List EventBody) (s : RunState)
      → ArePlain bodies
      → Keeps c s (λ a. a) (emit_all c.env actor bodies s)
  unfolding emit_all for_each
  emit_all-Keeps actor [] s plain = pure-Keeps s refl
  emit_all-Keeps actor (body ∷ bodies) s (here, rest) =
      bind (emit-Keeps s actor body here) (λ s1. emit_all-Keeps actor bodies s1 rest)

  emit_artifact-Keeps :
      (s : RunState) (path content : Option String)
      → Keeps c s (λ a. a) (emit_artifact c.env s path content)
  unfolding emit_artifact
  emit_artifact-Keeps s (some path) (some content) =
      after-Quiet (put-Quiet "text/plain" _) (λ blob. emit-Keeps s Actor.executor _ tt)
  emit_artifact-Keeps s (some path) none = pure-Keeps s refl
  emit_artifact-Keeps s none content = pure-Keeps s refl

  artifact_if-Keeps :
      (b : Bool) (params : c.env.json.Value) (s : RunState)
      → Keeps c s (λ a. a) (artifact_if c.env b params s)
  unfolding artifact_if emit_artifact_for_write
  artifact_if-Keeps true params s = emit_artifact-Keeps s _ _
  artifact_if-Keeps false params s = pure-Keeps s refl

  charge_if-Keeps :
      (b : Bool) (effect_id : EffectId) (tool : ToolId) (turn : ℕ) (reported_cost : Option ℕ)
      (s : RunState)
      → Keeps c s (λ a. a) (charge_if c.env b effect_id tool turn reported_cost s)
  unfolding charge_if charge_effect
  charge_if-Keeps true effect_id tool turn reported_cost s =
      emit_all-Keeps Actor.runtime _ s (charges-ArePlain _)
  charge_if-Keeps false effect_id tool turn reported_cost s = pure-Keeps s refl

  output_blob-Quiet :
      (outcome : EffectOutcome) (o : Option (List ℕ)) → Quiet c (output_blob c.env outcome o)
  unfolding output_blob
  output_blob-Quiet outcome none = pure-Quiet _
  output_blob-Quiet outcome (some b) = bind-Quiet (put-Quiet _ b) (λ r. pure-Quiet _)

  settle-Keeps :
      (effect_id : EffectId) (request : EffectRequest) (params : c.env.json.Value)
      (outcome : EffectOutcome) (s : RunState)
      → Keeps c s (λ a. a) (settle c.env effect_id request params outcome s)
  unfolding settle
  settle-Keeps effect_id request params outcome s =
      after-Quiet (output_blob-Quiet outcome outcome.output) (λ pair.
        bind (emit-Keeps s Actor.executor _ tt)
          (λ s1. bind (artifact_if-Keeps _ params s1) (λ s2. charge_if-Keeps _ effect_id _ _ _ s2)))

  checkpoint_if-Keeps : (b : Bool) (s : RunState) → Keeps c s (λ a. a) (checkpoint_if c.env b s)
  unfolding checkpoint_if
  checkpoint_if-Keeps true s = checkpoint-Keeps s CheckpointReason.pre_write
  checkpoint_if-Keeps false s = pure-Keeps s refl

  pub dispatch_effect-Keeps :
      (s : RunState) (effect_id : EffectId) (request : EffectRequest)
      → Keeps c s (λ a. a) (dispatch_effect c.env s effect_id request)
  unfolding dispatch_effect
  dispatch_effect-Keeps s effect_id request = after-Quiet (fetch-Quiet request.params_ref) (λ bytes.
      bind (checkpoint_if-Keeps _ s) (λ s1. after-Quiet (ask-Quiet _) (λ ensured.
        after-Quiet (or_fail-Quiet _ ensured) (λ workspace.
          bind (emit-Keeps s1 Actor.gateway _ tt) (λ s2.
            after-Quiet (ask-Quiet _) (λ outcome. settle-Keeps effect_id request _ outcome s2))))))

  final_action-Keeps :
      (s : RunState) (effect_id : EffectId) (action : GatewayAction c.env.json.Value)
      → Keeps c s (λ a. a) (final_action c.env s effect_id action)
  unfolding final_action deny await_approval exceed_budget suspend
  final_action-Keeps s effect_id (GatewayAction.dispatch request) =
      dispatch_effect-Keeps s effect_id request
  final_action-Keeps s effect_id (GatewayAction.dry_run request) = pure-Keeps s refl
  final_action-Keeps s effect_id (GatewayAction.deny reason_code) =
      bind (checkpoint-Keeps s CheckpointReason.pre_approval) (λ s1.
        bind (emit-Keeps s1 Actor.gateway _ tt) (λ s2.
          after-Quiet (put-Quiet "text/plain" _) (λ message_ref. emit-Keeps s2 Actor.gateway _ tt)))
  final_action-Keeps s effect_id (GatewayAction.await_approval risk request impact) =
      bind (checkpoint-Keeps s CheckpointReason.pre_approval) (λ s1.
        after-Quiet (put-Quiet "application/json" _) (λ impact_ref.
          bind (emit-Keeps s1 Actor.gateway _ tt) (λ s2. emit-Keeps s2 Actor.gateway _ tt)))
  final_action-Keeps s effect_id (GatewayAction.budget_exceeded reason_code request) =
      bind (checkpoint-Keeps s CheckpointReason.pre_approval) (λ s1.
        bind (emit-Keeps s1 Actor.gateway _ tt) (λ s2.
          after-Quiet (put-Quiet "text/plain" _) (λ detail_ref. emit-Keeps s2 Actor.gateway _ tt)))
  final_action-Keeps s effect_id (GatewayAction.need_preview pending) = panic-Keeps

  handle_gateway_action-Keeps :
      (s : RunState) (effect_id : EffectId) (action : GatewayAction c.env.json.Value)
      → Keeps c s (λ a. a) (handle_gateway_action c.env s effect_id action)
  unfolding handle_gateway_action
  handle_gateway_action-Keeps s effect_id (GatewayAction.need_preview pending) =
      after-or_panic IsPlainVerdict _ (preview-IsPlain _ _ _) (λ verdict plain.
        bind (emit_all-Keeps Actor.gateway verdict.events s plain)
          (λ s1. final_action-Keeps s1 effect_id verdict.action))
  handle_gateway_action-Keeps s effect_id (GatewayAction.dispatch r) =
      final_action-Keeps s effect_id (GatewayAction.dispatch r)
  handle_gateway_action-Keeps s effect_id (GatewayAction.dry_run r) =
      final_action-Keeps s effect_id (GatewayAction.dry_run r)
  handle_gateway_action-Keeps s effect_id (GatewayAction.deny r) =
      final_action-Keeps s effect_id (GatewayAction.deny r)
  handle_gateway_action-Keeps s effect_id (GatewayAction.await_approval r q i) =
      final_action-Keeps s effect_id (GatewayAction.await_approval r q i)
  handle_gateway_action-Keeps s effect_id (GatewayAction.budget_exceeded r q) =
      final_action-Keeps s effect_id (GatewayAction.budget_exceeded r q)

  pub request_effect-Keeps :
      (s : RunState) (call : PlannedCall) → Keeps c s (λ a. a) (request_effect c.env s call)
  unfolding request_effect
  request_effect-Keeps s call = after-Quiet (fetch-Quiet call.params_ref) (λ bytes.
      after-or_panic IsPlainVerdict _ (admit-IsPlain _ _ _) (λ verdict plain.
        bind (emit_all-Keeps Actor.gateway verdict.events s plain)
          (λ s1. handle_gateway_action-Keeps s1 _ verdict.action)))
