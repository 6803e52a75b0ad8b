-- ===== src/Daemon/Columns.antt =====
-- The columns of the events that the tests write.
pub mod Laws
use evowork.Prelude.{
  ℕ, zero, suc, String, Option, none, some, Bool, true, false, List, [], ◌∷◌, ◌≡◌, refl, sym, ap,
  ◌∙◌, arith, if◌then◌else◌, ◌&&◌, ◌==◌,
}
use evowork.Prelude.Results.{Result}
use evowork.Prelude.BTreeMap.{BTreeMap}
use evowork.Prelude.Texts.{str_eq, eq_iff}
use evowork.Protocol.Base.{RunId, ApprovalId, Actor, BudgetSpec, TaintLevel, BlobRef}
use evowork.Protocol.Accounting.{Currency, CheckpointReason}
use evowork.Protocol.Effect.{ToolResultStatus}
use evowork.Protocol.Governance.{RiskLevel}
use evowork.Protocol.Lifecycle.{TriggerKind, SuspendReason}
use evowork.Protocol.Event.{EventBody, Event}
use evowork.Kernel.State.{RunState, new}
use evowork.Kernel.Hash.{Codec, hex_bytes, state_hash}
use evowork.Kernel.Reduce.{reduce, fold}
use evowork.Kernel.Samples.{replayed, blob, event}
use evowork.Policy.{PolicyDecision}
use evowork.Runlog.Store.{Serde, Row, RunLog, event_of}
use evowork.Model.{ModelError}
use evowork.Daemon.Machine.{Env, Machine}
use evowork.Daemon.Replay.{bytes_eq}
use evowork.Daemon.Consistency.InStep.{InStep}
use evowork.Daemon.Consistency.Written.{IsFaithful, Decodes}

-- A number as a text of that many signs.
abbrev pub marks : ℕ → String
marks zero = ""
marks (suc n) = String.◌∷◌ "i" (marks n)

abbrev pub count_marks : String → ℕ
count_marks String.[] = 0
count_marks (String.◌∷◌ c s) = suc (count_marks s)

-- Nothing is left to spend.
abbrev pub spent : ℕ → BudgetSpec
spent n = record {
  max_tokens = none;
  max_amount_micros = some n;
  max_wall_seconds = none;
  max_concurrency = none;
  max_recursion_depth = none;
}

abbrev pub created : EventBody
created = EventBody.run_created (record {
  run_id = "r-1";
  parent_run_id = none;
  workspace_id = "r-1";
  principal = record { kind = "user"; id = "u" };
  trigger = record { kind = TriggerKind.manual; reference = "cli" };
  budget = spent 0;
  labels = [];
})

abbrev pub approval : EventBody
approval = EventBody.approval_requested (record {
  approval_id = "a-1";
  effect_id = "e-1";
  risk = RiskLevel.l2;
  impact_ref = none;
  expires_at_ms = 5;
})

abbrev pub question : EventBody
question =
    EventBody.clarification_requested
      (record { question_id = "q-1"; prompt_ref = blob; options = [] })

abbrev pub asked : EventBody
asked =
    EventBody.run_suspended (record { reason = SuspendReason.awaiting_human; detail_ref = none })

abbrev pub held : List Event
held =
    record (event 0 created) { run_id = "r-1" }
    ∷ event 1 approval
    ∷ event 2 question
    ∷ event 3 asked
    ∷ []

abbrev pub resumed_text : Actor → ℕ → Option String
resumed_text Actor.runtime n = some (String.◌∷◌ "r" (marks n))
resumed_text _ n = none

abbrev pub suspended_text : SuspendReason → Option BlobRef → Option String
suspended_text SuspendReason.budget_exhausted none = some "s"
suspended_text _ _ = none

abbrev pub answered_text : String → Actor → Option String → Option BlobRef → Option String
answered_text q Actor.runtime none none = some (String.◌∷◌ "c" q)
answered_text q _ _ _ = none

abbrev pub amended_text :
    Option ℕ → Option ℕ → Option ℕ → Option ℕ → Option ℕ → Actor → Option BlobRef → Option String
amended_text none (some n) none none none Actor.runtime none = some (String.◌∷◌ "b" (marks n))
amended_text _ _ _ _ _ _ _ = none

abbrev pub same_texts : String → String → String → String → String → Bool
same_texts run ws kind id reference =
    str_eq run "r-1"
    && (str_eq ws "r-1" && (str_eq kind "user" && (str_eq id "u" && str_eq reference "cli")))

abbrev pub created_text :
    Option RunId
    → TriggerKind
    → BTreeMap String
    → Bool
    → Option ℕ
    → Option ℕ
    → Option ℕ
    → Option ℕ
    → Option ℕ
    → Option String
created_text none TriggerKind.manual [] true none (some zero) none none none = some "0"
created_text _ _ _ _ _ _ _ _ _ = none

-- The two letters of "hi".
abbrev pub is_intent : String → ℕ → String → ℕ → String → String → Bool
is_intent content_hash size mime char_len lang source =
    str_eq content_hash "sha256:6869"
    && ((size == 2)
        && (str_eq mime "text/plain"
            && ((char_len == 2) && (str_eq lang "zh" && str_eq source "cli"))))

abbrev pub intent_text : Bool → Option String
intent_text true = some "4"
intent_text false = none

abbrev pub intent : EventBody
intent = EventBody.intent_declared (record {
  intent_ref = record { content_hash = "sha256:6869"; size = 2; mime = "text/plain" };
  char_len = 2;
  lang = "zh";
  source = "cli";
})

-- The bodies that the tests write; the others cannot be written.
abbrev pub denied_text : ApprovalId → Actor → Option BlobRef → Option String
denied_text id Actor.runtime none = some (String.◌∷◌ "d" id)
denied_text id _ _ = none

-- Only the checkpoint at number 3 is written.
abbrev pub checkpoint_text : Bool → Option String → CheckpointReason → String → Option String
checkpoint_text true none CheckpointReason.pre_approval hash = some (String.◌∷◌ "k" hash)
checkpoint_text _ _ _ hash = none

abbrev pub body_text : EventBody → Option String
body_text (EventBody.run_resumed e) = resumed_text e.by e.from_seq
body_text (EventBody.run_suspended e) = suspended_text e.reason e.detail_ref
body_text (EventBody.approval_expired e) = some (String.◌∷◌ "x" e.approval_id)
body_text (EventBody.approval_denied e) = denied_text e.approval_id e.by e.reason_ref
body_text (EventBody.checkpoint e) =
    checkpoint_text (str_eq e.checkpoint_id "r-1-cp3") e.snapshot_ref e.reason e.state_hash
body_text (EventBody.clarification_answered e) =
    answered_text e.question_id e.by e.option_id e.free_text_ref
body_text (EventBody.budget_amended e) =
    amended_text e.budget.max_tokens e.budget.max_amount_micros e.budget.max_wall_seconds
      e.budget.max_concurrency e.budget.max_recursion_depth e.by e.reason_ref
body_text (EventBody.run_created e) =
    created_text e.parent_run_id e.trigger.kind e.labels
      (same_texts e.run_id e.workspace_id e.principal.kind e.principal.id e.trigger.reference)
      e.budget.max_tokens e.budget.max_amount_micros e.budget.max_wall_seconds
      e.budget.max_concurrency e.budget.max_recursion_depth
body_text (EventBody.intent_declared e) = intent_text (
    is_intent e.intent_ref.content_hash e.intent_ref.size e.intent_ref.mime e.char_len e.lang
      e.source)
body_text _ = none

abbrev pub body_of : String → String → Option EventBody
body_of tag s =
    if str_eq tag "r"
    then some (EventBody.run_resumed (record { by = Actor.runtime; from_seq = count_marks s }))
    else if str_eq tag "s"
    then some (
        EventBody.run_suspended
          (record { reason = SuspendReason.budget_exhausted; detail_ref = none }))
    else if str_eq tag "x"
    then some (EventBody.approval_expired (record { approval_id = s }))
    else if str_eq tag "d"
    then some (
        EventBody.approval_denied
          (record { approval_id = s; by = Actor.runtime; reason_ref = none }))
    else if str_eq tag "k"
    then some (
        EventBody.checkpoint (record {
          checkpoint_id = "r-1-cp3";
          state_hash = s;
          snapshot_ref = none;
          reason = CheckpointReason.pre_approval;
        }))
    else if str_eq tag "c"
    then some (
        EventBody.clarification_answered
          (record { question_id = s; by = Actor.runtime; option_id = none; free_text_ref = none }))
    else if str_eq tag "b"
    then some (
        EventBody.budget_amended
          (record { budget = spent (count_marks s); by = Actor.runtime; reason_ref = none }))
    else if str_eq tag "0"
    then some created
    else if str_eq tag "1"
    then some approval
    else if str_eq tag "2"
    then some question
    else if str_eq tag "3"
    then some asked
    else if str_eq tag "4"
    then some intent
    else none

abbrev pub read_body : String → Option EventBody
read_body String.[] = none
read_body (String.◌∷◌ c s) = body_of (String.◌∷◌ c "") s

abbrev pub actor_text : Actor → Option String
actor_text Actor.kernel = some "kernel"
actor_text Actor.runtime = some "runtime"
actor_text _ = none

abbrev pub read_actor : String → Option Actor
read_actor s =
    if str_eq s "kernel"
    then some Actor.kernel
    else if str_eq s "runtime"
    then some Actor.runtime
    else none

abbrev pub serde : Serde
serde = record {
  to_string = body_text;
  from_str = read_body;
  actor_to_string = actor_text;
  actor_from_str = read_actor;
}

-- A state stands as its last number, which is no number of the state that is read.
abbrev pub read_state : List ℕ → Result RunState String
read_state (n ∷ []) = Result.ok (record (new "") { last_seq = suc n })
read_state _ = Result.err "not a state"

abbrev pub codec : Codec
codec = record {
  into_writer = λ s. s.last_seq ∷ [];
  from_reader = read_state;
  digest = λ bytes. bytes;
  hex_encode = hex_bytes;
}
