-- ===== src/Daemon/Consistency/Steps.antt =====
-- The commands of the kernel, as crates/evo-daemon/src/runtime.rs carries them out, keep the run in step
-- with its log.
use evowork.Prelude.{ℕ, String, Option, none, some, Bool, true, false, refl}
use evowork.Prelude.Results.{Result}
use evowork.Protocol.Base.{Actor}
use evowork.Protocol.Turn.{PlanIntent}
use evowork.Kernel.State.{RunState, AwaitReason}
use evowork.Kernel.Decide.{Command}
use evowork.Model.{ModelResponse}
use evowork.Daemon.Error.{DaemonError}
use evowork.Daemon.Plan.{ParsedPlan}
use evowork.Daemon.Commands.{
  fail_run, planned_call, planned_clarification, plan_step, charge_and_plan, priced, call_model,
  sample_env, assemble_context, ask_clarification, suspend_for, execute_command,
}
use evowork.Daemon.Consistency.Keeps.{
  Setting, Keeps, Quiet, bind, after-Quiet, bind-Quiet, panic-Keeps, pure-Quiet, or_panic-Quiet,
  or_fail-Quiet, ask-Quiet, put-Quiet,
}
use evowork.Daemon.Consistency.Emission.{emit-Keeps}
use evowork.Daemon.Consistency.Checkpoint.{checkpoint-Keeps}
use evowork.Daemon.Consistency.Reads.{
  text_blob-Quiet, answer_blobs_for-Quiet, tool_output_blobs_for-Quiet, model_messages-Quiet,
}
use evowork.Daemon.Consistency.Calls.{charges-ArePlain, emit_all-Keeps, request_effect-Keeps}

module _ {c : Setting} where
  pub fail_run-Keeps :
      (s : RunState) (code : String) (detail : DaemonError)
      → Keeps c s (λ a. a) (fail_run c.env s code detail)
  unfolding fail_run
  fail_run-Keeps s code detail =
      after-Quiet (put-Quiet "text/plain" _) (λ message_ref. emit-Keeps s Actor.runtime _ tt)

  planned_call-Quiet :
      (intent : PlanIntent) (tool : Option String) (params : c.env.json.Value)
      → Quiet c (planned_call c.env intent tool params)
  unfolding planned_call
  planned_call-Quiet PlanIntent.tool_call (some tool) params =
      bind-Quiet (put-Quiet "application/json" _) (λ params_ref. pure-Quiet _)
  planned_call-Quiet PlanIntent.tool_call none params = pure-Quiet _
  planned_call-Quiet PlanIntent.clarify tool params = pure-Quiet _
  planned_call-Quiet PlanIntent.finish tool params = pure-Quiet _

  planned_clarification-Quiet :
      (intent : PlanIntent) (parsed : ParsedPlan c.env.json.Value)
      → Quiet c (planned_clarification c.env intent parsed)
  unfolding planned_clarification
  planned_clarification-Quiet PlanIntent.clarify parsed =
      bind-Quiet (put-Quiet "application/json" _) (λ prompt_ref. pure-Quiet _)
  planned_clarification-Quiet PlanIntent.tool_call parsed = pure-Quiet _
  planned_clarification-Quiet PlanIntent.finish parsed = pure-Quiet _

  plan_step-Keeps :
      (s : RunState) (turn : ℕ) (result : Result (ParsedPlan c.env.json.Value) DaemonError)
      → Keeps c s (λ a. a) (plan_step c.env s turn result)
  unfolding plan_step
  plan_step-Keeps s turn (Result.err e) = fail_run-Keeps s "unparseable_plan" e
  plan_step-Keeps s turn (Result.ok parsed) =
      after-Quiet (planned_call-Quiet parsed.intent parsed.tool parsed.params) (λ call.
        after-Quiet (planned_clarification-Quiet parsed.intent parsed)
          (λ clarification. emit-Keeps s Actor.runtime _ tt))

  priced-Keeps :
      (b : Bool) (s : RunState) (turn : ℕ) (response : ModelResponse)
      → Keeps c s (λ a. a) (priced c.env b s turn response)
  unfolding priced charge_and_plan
  priced-Keeps true s turn response = after-Quiet (or_fail-Quiet _ _) (λ charged.
      bind (emit_all-Keeps Actor.runtime _ s (charges-ArePlain charged))
        (λ s1. plan_step-Keeps s1 turn _))
  priced-Keeps false s turn response = fail_run-Keeps s "model_not_priced" _

  call_model-Keeps : (s : RunState) (turn : ℕ) → Keeps c s (λ a. a) (call_model c.env s turn)
  unfolding call_model
  call_model-Keeps s turn = after-Quiet (model_messages-Quiet s) (λ messages.
      after-Quiet (put-Quiet "application/json" _) (λ messages_ref.
        bind (emit-Keeps s Actor.runtime _ refl) (λ s1. after-Quiet (ask-Quiet _) (λ answer.
          after-Quiet (or_fail-Quiet _ answer) (λ response.
            after-Quiet (put-Quiet "text/plain" _) (λ response_ref.
              bind (emit-Keeps s1 Actor.runtime _ tt) (λ s2. priced-Keeps _ s2 turn response)))))))

  assemble_context-Keeps :
      (s : RunState) (turn : ℕ) → Keeps c s (λ a. a) (assemble_context c.env s turn)
  unfolding assemble_context
  assemble_context-Keeps s turn = after-Quiet (or_panic-Quiet s.intent) (λ intent_ref.
      after-Quiet (text_blob-Quiet intent_ref) (λ intent_text.
        after-Quiet (answer_blobs_for-Quiet s.run_id) (λ answers.
          after-Quiet (tool_output_blobs_for-Quiet s.run_id) (λ outputs.
            after-Quiet (or_panic-Quiet _) (λ assembled. emit-Keeps s Actor.runtime _ tt)))))

  suspend_for-Keeps :
      (s : RunState) (reason : AwaitReason) → Keeps c s (λ a. a) (suspend_for c.env s reason)
  unfolding suspend_for
  suspend_for-Keeps s AwaitReason.budget = emit-Keeps s Actor.kernel _ tt
  suspend_for-Keeps s (AwaitReason.approval a e) = panic-Keeps
  suspend_for-Keeps s (AwaitReason.clarification q) = panic-Keeps
  suspend_for-Keeps s (AwaitReason.human h) = panic-Keeps
  suspend_for-Keeps s (AwaitReason.external_event k) = panic-Keeps

  pub execute_command-Keeps :
      (s : RunState) (command : Command) → Keeps c s (λ a. a) (execute_command c.env s command)
  unfolding execute_command sample_env ask_clarification
  execute_command-Keeps s Command.sample_env =
      after-Quiet (ask-Quiet _)
        (λ ms. after-Quiet (ask-Quiet _) (λ rng_seed. emit-Keeps s Actor.runtime _ tt))
  execute_command-Keeps s (Command.assemble_context turn profile) = assemble_context-Keeps s turn
  execute_command-Keeps s (Command.call_model turn) = call_model-Keeps s turn
  execute_command-Keeps s (Command.request_effect call) = request_effect-Keeps s call
  execute_command-Keeps s (Command.checkpoint reason) = checkpoint-Keeps s reason
  execute_command-Keeps s (Command.complete status) = emit-Keeps s Actor.kernel _ tt
  execute_command-Keeps s (Command.ask_clarification clarification) =
      bind (emit-Keeps s Actor.runtime _ tt) (λ s1. emit-Keeps s1 Actor.runtime _ tt)
  execute_command-Keeps s (Command.suspend reason) = suspend_for-Keeps s reason
