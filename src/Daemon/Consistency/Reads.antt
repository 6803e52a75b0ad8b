-- ===== src/Daemon/Consistency/Reads.antt =====
-- What the runtime of crates/evo-daemon/src/runtime.rs reads back leaves the log alone.
use evowork.Prelude.{String, Option, none, some}
use evowork.Protocol.Base.{RunId, EffectId, ApprovalId, BlobRef}
use evowork.Protocol.Turn.{ClarificationRequested, ClarificationAnswered}
use evowork.Kernel.State.{RunState}
use evowork.Daemon.History.{
  find_tool_requested, find_clarification_requested, find_approval_requested, text_blob,
  optional_text, answer_blob, answer_blobs_for, output_blob, tool_output_blobs_for, intent_message,
  model_messages, failure_message,
}
use evowork.Daemon.Consistency.Keeps.{
  Setting, Quiet, bind-Quiet, pure-Quiet, or_panic-Quiet, traverse-Quiet, put-Quiet, fetch-Quiet,
  read_events-Quiet,
}

module _ {c : Setting} where
  pub find_tool_requested-Quiet :
      (id : RunId) (effect_id : EffectId) → Quiet c (find_tool_requested c.env id effect_id)
  unfolding find_tool_requested
  find_tool_requested-Quiet id effect_id =
      bind-Quiet (read_events-Quiet id 0 none) (λ events. pure-Quiet _)

  pub find_clarification_requested-Quiet :
      (id : RunId) (question_id : String)
      → Quiet c (find_clarification_requested c.env id question_id)
  unfolding find_clarification_requested
  find_clarification_requested-Quiet id question_id =
      bind-Quiet (read_events-Quiet id 0 none) (λ events. pure-Quiet _)

  pub find_approval_requested-Quiet :
      (id : RunId) (approval_id : ApprovalId)
      → Quiet c (find_approval_requested c.env id approval_id)
  unfolding find_approval_requested
  find_approval_requested-Quiet id approval_id =
      bind-Quiet (read_events-Quiet id 0 none) (λ events. pure-Quiet _)

  pub text_blob-Quiet : (r : BlobRef) → Quiet c (text_blob c.env r)
  unfolding text_blob
  text_blob-Quiet r = bind-Quiet (fetch-Quiet r) (λ bytes. or_panic-Quiet _)

  optional_text-Quiet : (o : Option BlobRef) → Quiet c (optional_text c.env o)
  unfolding optional_text
  optional_text-Quiet none = pure-Quiet _
  optional_text-Quiet (some r) = bind-Quiet (text_blob-Quiet r) (λ text. pure-Quiet _)

  answer_blob-Quiet :
      (pair : ClarificationRequested × ClarificationAnswered) → Quiet c (answer_blob c.env pair)
  unfolding answer_blob
  answer_blob-Quiet (req, ans) = bind-Quiet (fetch-Quiet req.prompt_ref) (λ bytes.
      bind-Quiet (optional_text-Quiet ans.free_text_ref)
        (λ free_text. bind-Quiet (put-Quiet "text/plain" _) (λ answer_ref. pure-Quiet _)))

  pub answer_blobs_for-Quiet : (id : RunId) → Quiet c (answer_blobs_for c.env id)
  unfolding answer_blobs_for
  answer_blobs_for-Quiet id =
      bind-Quiet (read_events-Quiet id 0 none) (λ events. traverse-Quiet _ _ answer_blob-Quiet)

  output_blob-Quiet : (output : String × BlobRef) → Quiet c (output_blob c.env output)
  unfolding output_blob
  output_blob-Quiet (tool, output_ref) = bind-Quiet (fetch-Quiet output_ref) (λ bytes. pure-Quiet _)

  pub tool_output_blobs_for-Quiet : (id : RunId) → Quiet c (tool_output_blobs_for c.env id)
  unfolding tool_output_blobs_for
  tool_output_blobs_for-Quiet id =
      bind-Quiet (read_events-Quiet id 0 none) (λ events. traverse-Quiet _ _ output_blob-Quiet)

  intent_message-Quiet : (o : Option BlobRef) → Quiet c (intent_message c.env o)
  unfolding intent_message
  intent_message-Quiet none = pure-Quiet _
  intent_message-Quiet (some r) = bind-Quiet (text_blob-Quiet r) (λ text. pure-Quiet _)

  pub model_messages-Quiet : (s : RunState) → Quiet c (model_messages c.env s)
  unfolding model_messages
  model_messages-Quiet s = bind-Quiet (intent_message-Quiet s.intent) (λ intent.
      bind-Quiet (answer_blobs_for-Quiet s.run_id)
        (λ answers. bind-Quiet (tool_output_blobs_for-Quiet s.run_id) (λ outputs. pure-Quiet _)))

  pub failure_message-Quiet : (s : RunState) → Quiet c (failure_message c.env s)
  unfolding failure_message
  failure_message-Quiet s = bind-Quiet (read_events-Quiet _ _ _) (λ last. pure-Quiet _)
