-- ===== src/Daemon/History.antt =====
-- What the runtime of crates/evo-daemon/src/runtime.rs reads back from the log of a run.
use evowork.Prelude.{
  String, Option, none, some, List, [], ◌∷◌, ◌++◌, if◌then◌else◌, unwrap_or, map, is_empty,
}
use evowork.Prelude.Bytes.{as_bytes}
use evowork.Prelude.BTreeMap.{BTreeMap, get, insert}
use evowork.Prelude.Texts.{str_eq, concat}
use evowork.Protocol.Base.{RunId, EffectId, ApprovalId, BlobRef}
use evowork.Protocol.Lifecycle.{CompletionStatus}
use evowork.Protocol.Effect.{ToolRequested, EffectRequest}
use evowork.Protocol.Governance.{ApprovalRequested}
use evowork.Protocol.Turn.{ClarificationRequested, ClarificationAnswered}
use evowork.Protocol.Event.{EventBody, Event}
use evowork.Kernel.State.{RunState}
use evowork.Model.{Message}
use evowork.Daemon.Action.{pure, or_panic, traverse, ◌>>=◌}
use evowork.Daemon.Machine.{Env, Step, put, fetch, read_events}
use evowork.Daemon.Plan.{and_maybe, text_field}

-- The first event that a test selects.
unfoldable pub find_map : {A : Type 0} → (EventBody → Option A) → List Event → Option A
find_map f [] = none
find_map f (e ∷ events) = elim (f e.body) [ none ↦ find_map f events | some a ↦ some a ]

unfoldable pub requested_tool : EffectId → EventBody → Option ToolRequested
requested_tool effect_id (EventBody.tool_requested tr) =
    if str_eq tr.effect_id effect_id then some tr else none
requested_tool effect_id _ = none

unfoldable pub requested_clarification : String → EventBody → Option ClarificationRequested
requested_clarification question_id (EventBody.clarification_requested c) =
    if str_eq c.question_id question_id then some c else none
requested_clarification question_id _ = none

unfoldable pub requested_approval : ApprovalId → EventBody → Option ApprovalRequested
requested_approval approval_id (EventBody.approval_requested req) =
    if str_eq req.approval_id approval_id then some req else none
requested_approval approval_id _ = none

abbrev Answered : Type 0
Answered = ClarificationRequested × ClarificationAnswered

answer_pair : ClarificationAnswered → Option ClarificationRequested → List Answered
answer_pair a none = []
answer_pair a (some req) = (req, a) ∷ []

questions_after : BTreeMap ClarificationRequested → EventBody → BTreeMap ClarificationRequested
questions_after requested (EventBody.clarification_requested e) = insert e.question_id e requested
questions_after requested _ = requested

answers_in : BTreeMap ClarificationRequested → EventBody → List Answered
unfolding answer_pair
answers_in requested (EventBody.clarification_answered a) =
    answer_pair a (get a.question_id requested)
answers_in requested _ = []

-- Each answer to a question that was asked before it.
unfoldable pub resolved_answers : BTreeMap ClarificationRequested → List Event → List Answered
unfolding questions_after answers_in
resolved_answers requested [] = []
resolved_answers requested (event ∷ events) =
    answers_in requested event.body
    ++ resolved_answers (questions_after requested event.body) events

tools_after : BTreeMap String → EventBody → BTreeMap String
tools_after tool_of (EventBody.tool_requested tr) = insert tr.effect_id tr.tool tool_of
tools_after tool_of _ = tool_of

output_of : Option BlobRef → Option String → List (String × BlobRef)
output_of (some output_ref) (some tool) = (tool, output_ref) ∷ []
output_of _ _ = []

outputs_in : BTreeMap String → EventBody → List (String × BlobRef)
unfolding output_of
outputs_in tool_of (EventBody.tool_result res) =
    output_of res.output_ref (get res.effect_id tool_of)
outputs_in tool_of _ = []

-- Each output of a tool that was requested before it.
unfoldable pub tool_outputs : BTreeMap String → List Event → List (String × BlobRef)
unfolding tools_after outputs_in
tool_outputs tool_of [] = []
tool_outputs tool_of (event ∷ events) =
    outputs_in tool_of event.body ++ tool_outputs (tools_after tool_of event.body) events

abbrev with_prefix : String → Option String → String
with_prefix head none = ""
with_prefix head (some s) = concat (head ∷ s ∷ [])

module _ (env : Env) where
  unfoldable pub find_tool_requested : RunId → EffectId → Step env (Option ToolRequested)
  unfolding find_map requested_tool
  find_tool_requested run_id effect_id = do
    events ← read_events env run_id 0 none
    pure (find_map (requested_tool effect_id) events)

  unfoldable pub find_clarification_requested :
      RunId → String → Step env (Option ClarificationRequested)
  unfolding find_map requested_clarification
  find_clarification_requested run_id question_id = do
    events ← read_events env run_id 0 none
    pure (find_map (requested_clarification question_id) events)

  unfoldable pub find_approval_requested : RunId → ApprovalId → Step env (Option ApprovalRequested)
  unfolding find_map requested_approval
  find_approval_requested run_id approval_id = do
    events ← read_events env run_id 0 none
    pure (find_map (requested_approval approval_id) events)

  unfoldable pub text_blob : BlobRef → Step env String
  text_blob r = do bytes ← fetch env r; or_panic (env.from_utf8 bytes)

  unfoldable pub optional_text : Option BlobRef → Step env (Option String)
  unfolding text_blob
  optional_text none = pure none
  optional_text (some r) = do text ← text_blob r; pure (some text)

  unfoldable pub summary : env.json.Value → ClarificationAnswered → Option String → String
  summary prompt ans free_text =
      let chosen_label =
        and_maybe ans.option_id
          (λ id. and_maybe (env.field prompt "options") (λ opts. text_field env opts id)) in
      concat (
        "澄清问题："
        ∷ unwrap_or (text_field env prompt "question") ""
        ∷ with_prefix "\n选择：" chosen_label
        ∷ with_prefix "\n补充说明：" free_text
        ∷ [])

  unfoldable pub answer_blob : Answered → Step env (BlobRef × String)
  unfolding optional_text summary
  answer_blob (req, ans) = do
    bytes ← fetch env req.prompt_ref
    free_text ← optional_text ans.free_text_ref
    let text = summary (unwrap_or (env.from_slice bytes) env.empty_object) ans free_text
    answer_ref ← put env "text/plain" (as_bytes text)
    pure (answer_ref, text)

  unfoldable pub answer_blobs_for : RunId → Step env (List (BlobRef × String))
  unfolding answer_blob resolved_answers
  answer_blobs_for run_id = do
    events ← read_events env run_id 0 none
    traverse answer_blob (resolved_answers [] events)

  unfoldable pub output_blob : String × BlobRef → Step env (String × BlobRef × String)
  output_blob (tool, output_ref) = do
    bytes ← fetch env output_ref
    pure (tool, output_ref, env.from_utf8_lossy bytes)

  unfoldable pub tool_output_blobs_for : RunId → Step env (List (String × BlobRef × String))
  unfolding output_blob tool_outputs
  tool_output_blobs_for run_id = do
    events ← read_events env run_id 0 none
    traverse output_blob (tool_outputs [] events)

  abbrev user : String → Message
  user content = record { role = "user"; content = content }

  unfoldable pub intent_message : Option BlobRef → Step env (List Message)
  unfolding text_blob
  intent_message none = pure []
  intent_message (some intent_ref) = do text ← text_blob intent_ref; pure (user text ∷ [])

  unfoldable pub model_messages : RunState → Step env (List Message)
  unfolding intent_message
  model_messages state = do
    intent ← intent_message state.intent
    answers ← answer_blobs_for state.run_id
    outputs ← tool_output_blobs_for state.run_id
    let messages =
        intent
        ++ (map (λ a. user a.1) answers
            ++ map (λ o. user (concat ("[" ∷ o.0 ∷ "]\n" ∷ o.2 ∷ []))) outputs)
    pure (if is_empty messages then user "" ∷ [] else messages)

  unfoldable pub rebuild_effect_request : RunState → ToolRequested → EffectRequest
  rebuild_effect_request state tr = record {
    effect_id = tr.effect_id;
    run_id = state.run_id;
    turn = tr.turn;
    tool = tr.tool;
    params_ref = tr.params_ref;
    params_digest = tr.params_digest;
    class = tr.class;
    targets = tr.declared_targets;
    egress = tr.declared_egress;
    reversible = tr.reversible;
    taint = state.taint;
    cites_referenced = tr.cites_referenced;
    capability = record { subject = env.config.principal; scopes = "*" ∷ [] };
  }

  message_of : Option EventBody → String
  message_of (some (EventBody.run_failed rf)) = rf.error.code
  message_of (some (EventBody.run_completed rc)) = elim rc.status [
    | CompletionStatus.failed ↦ "plan called for a tool but runtime could not parse a valid call"
    | _ ↦ concat (
        "run status is Failed but its terminal event doesn't explain why: "
        ∷ env.debug_body (some (EventBody.run_completed rc))
        ∷ [])
  ]
  message_of other = concat (
      "run status is Failed but its terminal event doesn't explain why: "
      ∷ env.debug_body other
      ∷ [])

  first_body : List Event → Option EventBody
  first_body [] = none
  first_body (e ∷ events) = some e.body

  unfoldable pub failure_message : RunState → Step env String
  unfolding message_of first_body
  failure_message state = do
    last ← read_events env state.run_id state.last_seq (some state.last_seq)
    pure (message_of (first_body last))
