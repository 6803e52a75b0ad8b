-- ===== src/Policy.antt =====
-- crates/evo-policy: the policy hook, and the policy read from a list of rules (src/hardcoded.rs).
-- Reading the TOML text is the parameter `parse`.
pub mod FirstMatch
use evowork.Prelude.{
  String, Option, none, some, Bool, true, false, ◌&&◌, not, List, [], ◌∷◌, is_some_and, unwrap_or,
  if◌then◌else◌,
}
use evowork.Prelude.Results.{Result, ok_or}
use evowork.Prelude.Texts.{str_eq}
use evowork.Protocol.Base.{ToolId, TaintLevel}
use evowork.Protocol.Effect.{EffectClass, class_eq, ResourceRef}
use evowork.Protocol.Governance.{RiskLevel}

pub data PolicyDecision : Type 0 where
  allow : PolicyDecision
  deny : String → PolicyDecision
  require_approval : RiskLevel → PolicyDecision

pub record PolicyContext : Type 0 where
  pub tool : ToolId
  pub class : EffectClass
  pub taint : TaintLevel
  pub targets : List ResourceRef
  pub reversible : Bool

-- The trait: an implementation is a value.
pub record PolicyHook : Type 0 where
  pub evaluate : PolicyContext → PolicyDecision
  pub evaluate_with_trace : PolicyContext → PolicyDecision × List String
  pub version : String

pub data PolicyError : Type 0 where
  toml : String → PolicyError
  io : String → PolicyError
  unknown_decision : String → String → PolicyError

pub record Rule : Type 0 where
  pub id : String
  pub class : Option EffectClass
  pub tool : Option String
  pub reversible : Option Bool
  pub decision : String
  pub risk : Option RiskLevel
  pub reason_code : Option String

pub record PolicyFile : Type 0 where
  pub version : String
  pub rule : List Rule

abbrev bool_eq : Bool → Bool → Bool
bool_eq true b = b
bool_eq false b = not b

unfoldable pub matches : Rule → PolicyContext → Bool
matches r ctx =
    if is_some_and r.class (λ c. not (class_eq c ctx.class))
    then false
    else if is_some_and r.tool (λ t. not (str_eq t ctx.tool))
    then false
    else if is_some_and r.reversible (λ b. not (bool_eq b ctx.reversible))
    then false
    else true

-- `Rule::decision`
unfoldable pub decision_of : Rule → Result PolicyDecision PolicyError
decision_of r =
    if str_eq r.decision "allow"
    then Result.ok PolicyDecision.allow
    else if str_eq r.decision "deny"
    then Result.ok (PolicyDecision.deny (unwrap_or r.reason_code r.id))
    else if str_eq r.decision "require_approval"
    then Result.ok (PolicyDecision.require_approval (unwrap_or r.risk RiskLevel.l2))
    else Result.err (PolicyError.unknown_decision r.id r.decision)

-- The loop over the rules in `from_toml_str`: `some` is the first error.
unfoldable pub first_error : List Rule → Option PolicyError
first_error [] = none
first_error (r ∷ rules) = elim (decision_of r) [
  | Result.ok d ↦ first_error rules
  | Result.err e ↦ some e
]

check_rules : PolicyFile → Option PolicyError → Result PolicyFile PolicyError
check_rules file none = Result.ok file
check_rules file (some e) = Result.err e

unfoldable pub checked : Result PolicyFile PolicyError → Result PolicyFile PolicyError
unfolding check_rules
checked (Result.ok file) = check_rules file (first_error file.rule)
checked (Result.err e) = Result.err e

unfoldable pub from_toml_str :
    (String → Result PolicyFile PolicyError) → String → Result PolicyFile PolicyError
from_toml_str parse s = checked (parse s)

unfoldable pub evaluate_rules : List Rule → PolicyContext → PolicyDecision × List String
evaluate_rules [] ctx = (PolicyDecision.allow, [])
evaluate_rules (r ∷ rules) ctx =
    if matches r ctx
    then (ok_or (decision_of r) (PolicyDecision.deny "malformed_rule"), r.id ∷ [])
    else evaluate_rules rules ctx

-- `HardcodedPolicy`: the file behind the trait.
unfoldable pub hardcoded_policy : PolicyFile → PolicyHook
hardcoded_policy file = record {
  evaluate = λ ctx. (evaluate_rules file.rule ctx).0;
  evaluate_with_trace = evaluate_rules file.rule;
  version = file.version;
}
