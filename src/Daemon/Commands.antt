-- ===== src/Daemon/Commands.antt =====
-- `call_model` and `execute_command` of crates/evo-daemon/src/runtime.rs: one command of the kernel.
use evowork.Prelude.{
  ℕ, String, Option, none, some, List, [], ◌∷◌, unwrap_or, map, Bool, true, false,
}
use evowork.Prelude.Bytes.{as_bytes}
use evowork.Prelude.BTreeMap.{BTreeMap, insert}
use evowork.Prelude.Decimals.{decimal}
use evowork.Prelude.Results.{Result}
use evowork.Prelude.Texts.{concat}
use evowork.Protocol.Base.{Actor}
use evowork.Protocol.Accounting.{CostDimension}
use evowork.Protocol.Lifecycle.{CompletionStatus, SuspendReason}
use evowork.Protocol.Turn.{PlanIntent, PlannedCall, PlannedClarification}
use evowork.Protocol.Event.{EventBody}
use evowork.Kernel.State.{RunState, RunStatus, AwaitReason}
use evowork.Kernel.Decide.{Command}
use evowork.Context.{assemble}
use evowork.Pricing.{covers, charges}
use evowork.Model.{ModelRequest, ModelResponse, request_digest}
use evowork.Daemon.Error.{DaemonError, display}
use evowork.Daemon.Action.{pure, panic, or_panic, or_fail, ◌>>=◌}
use evowork.Daemon.Machine.{Env, Step, ask, put, emit, checkpoint, digest}
use evowork.Daemon.Plan.{ParsedClarifyOption, ParsedPlan, parse_plan}
use evowork.Daemon.History.{model_messages, answer_blobs_for, tool_output_blobs_for, text_blob}
use evowork.Daemon.Effects.{emit_all}
use evowork.Daemon.Effects.Actions.{request_effect}

-- `collect` into a map: the last label of an id stays.
unfoldable pub labels : BTreeMap String → List ParsedClarifyOption → BTreeMap String
labels found [] = found
labels found (o ∷ options) = labels (insert o.id o.label found) options

abbrev completion : RunStatus → CompletionStatus
completion RunStatus.failed = CompletionStatus.failed
completion _ = CompletionStatus.ok

module _ (env : Env) where
  unfoldable pub fail_run : RunState → String → DaemonError → Step env RunState
  fail_run state code detail = do
    message_ref ← put env "text/plain" (as_bytes (display detail))
    emit env state Actor.runtime (
        EventBody.run_failed (record {
          at_seq = state.last_seq;
          error = record { code = code; message_ref = some message_ref; retryable = false };
        }))

  unfoldable pub planned_call :
      PlanIntent → Option String → env.json.Value → Step env (Option PlannedCall)
  planned_call PlanIntent.tool_call (some tool) params = do
    params_ref ← put env "application/json" (env.to_vec params)
    pure (
        some (record {
          tool = tool;
          params_ref = params_ref;
          params_digest = params_ref.content_hash;
        }))
  planned_call _ _ params = pure none

  unfoldable pub planned_clarification :
      PlanIntent → ParsedPlan env.json.Value → Step env (Option PlannedClarification)
  unfolding labels
  planned_clarification PlanIntent.clarify parsed = do
    prompt_ref ←
        put env "application/json"
          (env.to_vec (env.prompt (unwrap_or parsed.question "") (labels [] parsed.options)))
    pure (
        some (record {
          prompt_ref = prompt_ref;
          options = map (λ o. record { id = o.id; is_default = o.is_default }) parsed.options;
        }))
  planned_clarification _ parsed = pure none

  unfoldable pub plan_step :
      RunState → ℕ → Result (ParsedPlan env.json.Value) DaemonError → Step env RunState
  unfolding fail_run planned_call planned_clarification
  plan_step state turn (Result.err e) = fail_run state "unparseable_plan" e
  plan_step state turn (Result.ok parsed) = do
    call ← planned_call parsed.intent parsed.tool parsed.params
    clarification ← planned_clarification parsed.intent parsed
    emit env state Actor.runtime (
        EventBody.plan_step (record {
          turn = turn;
          intent = parsed.intent;
          rationale_ref = none;
          taint_inherited = state.taint;
          call = call;
          clarification = clarification;
        }))

  -- The charges and the plan, after an answer of the model.
  unfoldable pub charge_and_plan : RunState → ℕ → ModelResponse → Step env RunState
  unfolding plan_step emit_all
  charge_and_plan state turn response = do
    let dimension : CostDimension = record {
      principal = env.config.principal;
      team = none;
      run_id = state.run_id;
      skill = none;
      tool = none;
    }
    charged ←
        or_fail DaemonError.model
          (charges env.pricing dimension (some turn) env.provider env.model response.usage)
    state ← emit_all env Actor.runtime (map EventBody.cost_charged charged) state
    plan_step state turn (parse_plan env response.text)

  unfoldable pub priced : Bool → RunState → ℕ → ModelResponse → Step env RunState
  unfolding charge_and_plan fail_run
  priced true state turn response = charge_and_plan state turn response
  priced false state turn response =
      fail_run state "model_not_priced" (DaemonError.model_not_priced env.provider env.model)

  unfoldable pub call_model : RunState → ℕ → Step env RunState
  unfolding priced
  call_model state turn = do
    messages ← model_messages env state
    let request : ModelRequest = record {
      messages = messages;
      params = record { temperature = 0; max_tokens = none };
    }
    messages_ref ← put env "application/json" (env.messages_to_vec messages)
    state ← emit env state Actor.runtime (
        EventBody.model_requested (record {
          turn = turn;
          provider = env.provider;
          model = env.model;
          params = request.params;
          request_digest = request_digest env.request_to_vec (digest env) request;
          messages_ref = messages_ref;
        }))
    answer ← ask env (env.call request)
    response ← or_fail DaemonError.model answer
    response_ref ← put env "text/plain" (as_bytes response.text)
    state ← emit env state Actor.runtime (
        EventBody.model_responded (record {
          turn = turn;
          response_ref = response_ref;
          response_hash = response_ref.content_hash;
          usage = response.usage;
          stop_reason = response.stop_reason;
          latency_ms = response.latency_ms;
        }))
    priced (covers env.pricing env.provider env.model) state turn response

  unfoldable pub sample_env : RunState → Step env RunState
  sample_env state = do
    ms ← ask env env.now_ms
    rng_seed ← ask env env.seed
    emit env state Actor.runtime (
        EventBody.env_sampled (record {
          turn = state.turn;
          wall_clock_ms = ms;
          rng_seed = rng_seed;
          env = [];
          model_route = record {
            provider = env.provider;
            model = env.model;
            params_digest = "default";
          };
        }))

  unfoldable pub assemble_context : RunState → ℕ → Step env RunState
  assemble_context state turn = do
    intent_ref ← or_panic state.intent
    intent_text ← text_blob env intent_ref
    answers ← answer_blobs_for env state.run_id
    outputs ← tool_output_blobs_for env state.run_id
    assembled ← or_panic (
        assemble env.assembler turn intent_ref intent_text
          (map (λ a. record { answer_ref = a.0; answer_text = a.1 }) answers)
          (map (λ o. record { tool = o.0; output_ref = o.1; output_text = o.2 }) outputs))
    emit env state Actor.runtime (EventBody.context_assembled assembled)

  unfoldable pub ask_clarification : RunState → PlannedClarification → Step env RunState
  ask_clarification state clarification = do
    let question_id = concat (state.run_id ∷ "-q" ∷ decimal state.last_seq ∷ [])
    state ← emit env state Actor.runtime (
        EventBody.clarification_requested (record {
          question_id = question_id;
          prompt_ref = clarification.prompt_ref;
          options = clarification.options;
        }))
    emit env state Actor.runtime (
        EventBody.run_suspended
          (record { reason = SuspendReason.awaiting_human; detail_ref = none }))

  unfoldable pub suspend_for : RunState → AwaitReason → Step env RunState
  suspend_for state AwaitReason.budget = emit env state Actor.kernel (
      EventBody.run_suspended
        (record { reason = SuspendReason.budget_exhausted; detail_ref = none }))
  suspend_for state _ = panic

  unfoldable pub execute_command : RunState → Command → Step env RunState
  unfolding sample_env assemble_context ask_clarification suspend_for
  execute_command state Command.sample_env = sample_env state
  execute_command state (Command.assemble_context turn profile) = assemble_context state turn
  execute_command state (Command.call_model turn) = call_model state turn
  execute_command state (Command.request_effect call) = request_effect env state call
  execute_command state (Command.checkpoint reason) = checkpoint env state reason
  execute_command state (Command.complete status) =
      emit env state Actor.kernel
        (EventBody.run_completed (record { status = completion status; summary_ref = none }))
  execute_command state (Command.ask_clarification clarification) =
      ask_clarification state clarification
  execute_command state (Command.suspend reason) = suspend_for state reason
