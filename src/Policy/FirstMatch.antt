-- ===== src/Policy/FirstMatch.antt =====
-- The rules of crates/evo-policy/src/hardcoded.rs: the first rule that matches decides, and a policy
-- that loads has no malformed rule.
use evowork.Prelude.{
  String, none, Bool, true, false, ◌||◌, List, [], ◌∷◌, ◌++◌, ◌≡◌, ◌⊎◌, inl, inr, refl, arith, all,
  All, Bool-cases, Option-cases, not, is_some, ap, sym, subst,
}
use evowork.Prelude.Results.{Result, is_ok}
use evowork.Prelude.Texts.{str_eq}
use evowork.Policy.{
  PolicyDecision, PolicyContext, PolicyError, Rule, PolicyFile, matches, decision_of, first_error,
  checked, from_toml_str, evaluate_rules, hardcoded_policy,
}

-- The three words that the field `decision` may hold.
abbrev pub is_known : String → Bool
is_known s = str_eq s "allow" || str_eq s "deny" || str_eq s "require_approval"

decision_of-is_ok : (r : Rule) → is_ok (decision_of r) ≡ is_known r.decision
unfolding decision_of
decision_of-is_ok r = ground arith

decision_of-cases :
    (r : Rule)
    → ((d : PolicyDecision) × (decision_of r ≡ Result.ok d))
      ⊎ ((e : PolicyError) × (decision_of r ≡ Result.err e))
decision_of-cases r = go (decision_of r) refl
  where
    go :
        (o : Result PolicyDecision PolicyError)
        → decision_of r ≡ o
        → ((d : PolicyDecision) × (decision_of r ≡ Result.ok d))
          ⊎ ((e : PolicyError) × (decision_of r ≡ Result.err e))
    go (Result.ok d) p = inl (d, p)
    go (Result.err e) p = inr (e, p)

first_error-none :
    (rules : List Rule) → first_error rules ≡ none → All (λ r. is_ok (decision_of r) ≡ true) rules
unfolding first_error
first_error-none [] h = tt
first_error-none (r ∷ rules) h = elim (decision_of-cases r) [
  | inl (d, p) ↦ (ground arith, first_error-none rules (ground arith))
  | inr (e, p) ↦ absurd (ground arith)
]

checked-ok :
    (o : Result PolicyFile PolicyError) (file : PolicyFile)
    → checked o ≡ Result.ok file
    → first_error file.rule ≡ none
unfolding checked
checked-ok (Result.ok f) file h = elim (Option-cases (first_error f.rule)) [
  | inl p ↦ let e : f ≡ file = ground arith in rw e at p
  | inr (x, p) ↦ absurd (ground arith)
]
checked-ok (Result.err e) file h = absurd (ground arith)

is_none-first_error :
    (rules : List Rule) → not (is_some (first_error rules)) ≡ all (λ r. is_known r.decision) rules
unfolding first_error
is_none-first_error [] = refl
is_none-first_error (r ∷ rules) = elim (decision_of-cases r) [
  | inl (d, p) ↦ ground (arith, decision_of-is_ok r, is_none-first_error rules)
  | inr (e, p) ↦ ground (arith, decision_of-is_ok r)
]

-- A policy file that parses is accepted exactly if the `decision` of each of its rules is one of the
-- three words: a misspelt one is refused at the start, whether or not its rule would ever match.
pub from_toml_str-is_ok :
    (parse : String → Result PolicyFile PolicyError) (s : String) (file : PolicyFile)
    → parse s ≡ Result.ok file
    → is_ok (from_toml_str parse s) ≡ all (λ r. is_known r.decision) file.rule
unfolding from_toml_str checked
from_toml_str-is_ok parse s file h = ground (arith, is_none-first_error file.rule)

-- How a list of rules answers: no rule matches, or the first that does has a well-formed decision.
abbrev pub Answers : List Rule → PolicyContext → PolicyDecision → List String → Type 0
Answers rules ctx d hits =
    (All (λ r. matches r ctx ≡ false) rules × (d ≡ PolicyDecision.allow) × (hits ≡ []))
    ⊎ ((before : List Rule) × (r : Rule) × (after : List Rule) × (rules ≡ before ++ r ∷ after)
        × All (λ q. matches q ctx ≡ false) before
        × (matches r ctx ≡ true)
        × (decision_of r ≡ Result.ok d)
        × (hits ≡ r.id ∷ []))

evaluate_rules_head :
    (r : Rule) (rules : List Rule) (ctx : PolicyContext)
    → matches r ctx ≡ true
    → is_ok (decision_of r) ≡ true
    → Answers (r ∷ rules) ctx (evaluate_rules (r ∷ rules) ctx).0 (evaluate_rules (r ∷ rules) ctx).1
unfolding evaluate_rules
evaluate_rules_head r rules ctx m k = elim (decision_of-cases r) [
  | inl (d, p) ↦ inr ([], r, rules, refl, tt, m, ground arith, ground arith)
  | inr (e, p) ↦ absurd (ground arith)
]

evaluate_rules_skip :
    (r : Rule) (rules : List Rule) (ctx : PolicyContext)
    → matches r ctx ≡ false
    → evaluate_rules (r ∷ rules) ctx ≡ evaluate_rules rules ctx
unfolding evaluate_rules
evaluate_rules_skip r rules ctx m = rw m

Answers-skip :
    (r : Rule) (rules : List Rule) (ctx : PolicyContext) (d : PolicyDecision) (hits : List String)
    → matches r ctx ≡ false
    → Answers rules ctx d hits
    → Answers (r ∷ rules) ctx d hits
Answers-skip r rules ctx d hits m (inl (quiet, p, q)) = inl ((m, quiet), p, q)
Answers-skip r rules ctx d hits m (inr (before, q, after, split, quiet, k, p, w)) =
    inr (r ∷ before, q, after, ap (◌∷◌ r) split, (m, quiet), k, p, w)

evaluate_rules-Answers :
    (rules : List Rule) (ctx : PolicyContext)
    → All (λ r. is_ok (decision_of r) ≡ true) rules
    → Answers rules ctx (evaluate_rules rules ctx).0 (evaluate_rules rules ctx).1
unfolding evaluate_rules
evaluate_rules-Answers [] ctx h = inl (tt, refl, refl)
evaluate_rules-Answers (r ∷ rules) ctx h = elim (Bool-cases (matches r ctx)) [
  | inl m ↦ evaluate_rules_head r rules ctx m h.0
  | inr m ↦
      subst (λ (x : PolicyDecision × List String). Answers (r ∷ rules) ctx x.0 x.1)
        (sym (evaluate_rules_skip r rules ctx m))
        (Answers-skip r rules ctx (evaluate_rules rules ctx).0 (evaluate_rules rules ctx).1 m
          (evaluate_rules-Answers rules ctx h.1))
]

-- A policy that loads answers every request by the first rule that matches it: the decision is the
-- well-formed one of that rule, whose id is the trace, no rule before it matches, and where no rule
-- matches the answer is `allow` with an empty trace. The fallback for a malformed rule is never taken.
pub from_toml_str-Answers :
    (parse : String → Result PolicyFile PolicyError) (s : String) (file : PolicyFile)
    (ctx : PolicyContext)
    → from_toml_str parse s ≡ Result.ok file
    → Answers file.rule ctx
        ((hardcoded_policy file).evaluate_with_trace ctx).0
        ((hardcoded_policy file).evaluate_with_trace ctx).1
unfolding hardcoded_policy from_toml_str
from_toml_str-Answers parse s file ctx h =
    evaluate_rules-Answers file.rule ctx (first_error-none file.rule (checked-ok (parse s) file h))
