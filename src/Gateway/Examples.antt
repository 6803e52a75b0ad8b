-- ===== src/Gateway/Examples.antt =====
-- The theorems on the gateway and the policy at concrete calls.
use evowork.Prelude.{String, Option, none, some, true, ◌++◌, ◌≡◌, ◌↔◌, refl, is_some}
use evowork.Prelude.BTreeMap.{get, insert}
use evowork.Protocol.Base.{TaintLevel}
use evowork.Protocol.Effect.{EffectRequest, allows}
use evowork.Protocol.Governance.{RiskLevel}
use evowork.Policy.{PolicyDecision, matches, decision_of, evaluate_rules, hardcoded_policy}
use evowork.Gateway.Manifest.{ToolManifest, collect, resolve}
use evowork.Gateway.Impact.{PreviewOutcome, estimate}
use evowork.Gateway.Pipeline.{
  AdmitRequest, PendingAdmit, GatewayAction, preview_method, gate, budget_gate, build_request,
  action_of, events_of, finish, admit, admit_with_preview,
}
use evowork.Gateway.Mediation.{IsCleared, admit-dispatch_iff}
use evowork.Gateway.Answers.{admit_answers}
use evowork.Gateway.Guarded.{Guarded, unknown_tool-Guarded, tainted-Guarded}
use evowork.Gateway.Trail.{Audited, admit-Audited}
use evowork.Gateway.Preview.{preview_none}
use evowork.Gateway.Samples.{one_text, writer, gateway, call_of}

abbrev clean_call : AdmitRequest String
clean_call = call_of "fs.write" TaintLevel.clean

abbrev request : EffectRequest
request = build_request one_text (writer none) clean_call

-- The clean write is dispatched.
dispatched :
    action_of (admit one_text (gateway none) clean_call) ≡ some (GatewayAction.dispatch request)
unfolding admit gate finish budget_gate estimate collect insert get allows hardcoded_policy
    evaluate_rules matches decision_of resolve
dispatched = refl

admit-dispatch_iff_example :
    (action_of (admit one_text (gateway none) clean_call) ≡ some (GatewayAction.dispatch request))
    ↔ ((m : ToolManifest) × IsCleared one_text (gateway none) clean_call m
        × (request ≡ build_request one_text m clean_call))
admit-dispatch_iff_example = admit-dispatch_iff one_text (gateway none) clean_call request

tainted-Guarded_example :
    Guarded 2 (action_of (admit one_text (gateway none) (call_of "fs.write" TaintLevel.tainted)))
unfolding collect insert get
tainted-Guarded_example =
    tainted-Guarded one_text (gateway none) (call_of "fs.write" TaintLevel.tainted) (writer none)
      refl refl refl

unknown_tool-Guarded_example :
    Guarded 3 (action_of (admit one_text (gateway none) (call_of "wecom.send" TaintLevel.clean)))
unfolding collect insert get
unknown_tool-Guarded_example =
    unknown_tool-Guarded one_text (gateway none) (call_of "wecom.send" TaintLevel.clean) refl

admit-Audited_example : Audited (admit one_text (gateway none) clean_call)
admit-Audited_example = admit-Audited one_text (gateway none) clean_call

abbrev pending : PendingAdmit String
pending = record {
  manifest = writer (some "diff");
  params = "report.txt";
  decision = PolicyDecision.allow;
  request = request;
  mode = clean_call.mode;
  budget = clean_call.budget;
  budget_used = clean_call.budget_used;
}

preview_none_example :
    (action_of (admit_with_preview one_text pending none)
      ≡ action_of (admit one_text (gateway none) clean_call))
    × (events_of (admit one_text (gateway (some "diff")) clean_call)
          ++ events_of (admit_with_preview one_text pending none)
        ≡ events_of (admit one_text (gateway none) clean_call))
unfolding admit gate collect insert get allows hardcoded_policy evaluate_rules matches decision_of
    resolve
preview_none_example =
    preview_none one_text (gateway (some "diff")) (gateway none) clean_call (writer (some "diff"))
      pending refl refl refl refl

admit_answers_example :
    (is_some (admit one_text (gateway (some "diff")) clean_call) ≡ true)
    × ((p : PendingAdmit String)
        → action_of (admit one_text (gateway (some "diff")) clean_call)
          ≡ some (GatewayAction.need_preview p)
        → (is_some (preview_method p) ≡ true)
          × ((preview : Option PreviewOutcome)
              → is_some (admit_with_preview one_text p preview) ≡ true))
admit_answers_example = admit_answers one_text (gateway (some "diff")) clean_call

abbrev judged : PendingAdmit String
judged = record pending { decision = PolicyDecision.require_approval RiskLevel.l2 }
