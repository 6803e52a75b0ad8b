-- ===== src/Daemon/Plan.antt =====
-- `parse_plan` of crates/evo-daemon/src/runtime.rs: the plan in the answer of a model.
use evowork.Prelude.{
  ℕ, zero, suc, String, Option, none, some, Bool, false, List, [], if◌then◌else◌, unwrap_or,
  filter_map,
}
use evowork.Prelude.Bytes.{as_bytes}
use evowork.Prelude.Results.{Result}
use evowork.Prelude.Texts.{str_eq}
use evowork.Protocol.Turn.{PlanIntent}
use evowork.Daemon.Error.{DaemonError}
use evowork.Daemon.Machine.{Env}

pub record ParsedClarifyOption : Type 0 where
  pub id : String
  pub label : String
  pub is_default : Bool

pub record ParsedPlan (Value : Type 0) : Type 0 where
  pub intent : PlanIntent
  pub tool : Option String
  pub params : Value
  pub question : Option String
  pub options : List ParsedClarifyOption

-- `chars().take(n).collect()`
unfoldable pub take_chars : ℕ → String → String
take_chars zero s = ""
take_chars (suc n) String.[] = ""
take_chars (suc n) (String.◌∷◌ c s) = String.◌∷◌ c (take_chars n s)

abbrev pub and_maybe : {A B : Type 0} → Option A → (A → Option B) → Option B
and_maybe none f = none
and_maybe (some a) f = f a

unfoldable pub intent_of : Option String → Option PlanIntent
intent_of none = none
intent_of (some s) =
    if str_eq s "tool_call"
    then some PlanIntent.tool_call
    else if str_eq s "clarify"
    then some PlanIntent.clarify
    else if str_eq s "finish"
    then some PlanIntent.finish
    else none

module _ (env : Env) where
  -- `v.get(key).and_then(|x| x.as_str())`
  abbrev pub text_field : env.json.Value → String → Option String
  text_field v key = and_maybe (env.field v key) env.json.as_str

  unfoldable pub parse_option : env.json.Value → Option ParsedClarifyOption
  parse_option item = and_maybe (text_field item "id") (λ id.
      and_maybe (text_field item "label") (λ label. some (record {
        id = id;
        label = label;
        is_default = unwrap_or (and_maybe (env.field item "is_default") env.as_bool) false;
      })))

  plan_of : env.json.Value → PlanIntent → ParsedPlan env.json.Value
  unfolding parse_option
  plan_of v intent = record {
    intent = intent;
    tool = text_field v "tool";
    params = unwrap_or (env.field v "params") env.empty_object;
    question = text_field v "question";
    options =
        unwrap_or
          (and_maybe (and_maybe (env.field v "options") env.as_array)
            (λ items. some (filter_map (parse_option) items)))
          [];
  }

  parsed : String → Option env.json.Value → Result (ParsedPlan env.json.Value) DaemonError
  unfolding plan_of intent_of take_chars
  parsed text none = Result.err (DaemonError.unparseable_plan (take_chars 60 text))
  parsed text (some v) = elim (intent_of (text_field v "intent")) [
    | none ↦ Result.err (DaemonError.unparseable_plan (take_chars 60 text))
    | some intent ↦ Result.ok (plan_of v intent)
  ]

  unfoldable pub parse_plan : String → Result (ParsedPlan env.json.Value) DaemonError
  unfolding parsed
  parse_plan text = parsed text (env.from_slice (as_bytes text))
