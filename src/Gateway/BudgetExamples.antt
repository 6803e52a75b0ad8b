-- ===== src/Gateway/BudgetExamples.antt =====
-- The theorems on the budget gate and on the loading of a policy at concrete values.
use evowork.Prelude.{◌+◌, ◌≤◌, String, none, some, true, [], ◌≡◌, refl, arith}
use evowork.Prelude.Words.{saturating_add}
use evowork.Prelude.Results.{Result}
use evowork.Protocol.Base.{BudgetUsage, TaintLevel}
use evowork.Protocol.Effect.{EffectClass}
use evowork.Protocol.Accounting.{CostCharged, CostUnit, Currency}
use evowork.Kernel.State.{RunState, new}
use evowork.Kernel.Reduce.{reduce}
use evowork.Kernel.Samples.{event, charged, stepped}
use evowork.Policy.{
  PolicyContext, PolicyError, PolicyFile, decision_of, first_error, from_toml_str, checked,
  hardcoded_policy,
}
use evowork.Policy.FirstMatch.{Answers, from_toml_str-Answers}
use evowork.Gateway.Pipeline.{budget_gate}
use evowork.Gateway.Spending.{gate_prevents_overspending}
use evowork.Gateway.Samples.{policy_file, budget}

abbrev used : BudgetUsage
used = record { tokens = 10; amount_micros = 490; wall_ms = 0 }

abbrev spent : RunState
spent = record (new "r-1") { budget = budget; budget_used = used }

abbrev cost : CostCharged
cost = record {
  effect_id = none;
  turn = some 0;
  unit = CostUnit.call;
  quantity = 1;
  unit_price_micros = 8;
  amount_micros = 8;
  currency = Currency.cny;
  price_table_ver = "v1";
  dimension = record { principal = "u"; team = none; run_id = "r-1"; skill = none; tool = none };
}

gate_prevents_overspending_example :
    ((stepped spent (event 9 (charged 8))).budget_used.amount_micros ≤ 500)
    × ((stepped spent (event 9 (charged 8))).budget_used.amount_micros ≡ 490 + 8)
unfolding reduce new budget_gate saturating_add
gate_prevents_overspending_example =
    gate_prevents_overspending spent (stepped spent (event 9 (charged 8))) (event 9 (charged 8))
      cost 500 10 refl (omega arith) refl refl (omega arith) refl

-- A parser that finds the sample policy in every text.
abbrev parse : String → Result PolicyFile PolicyError
parse s = Result.ok policy_file

abbrev reading : PolicyContext
reading = record {
  tool = "fs.read";
  class = EffectClass.read;
  taint = TaintLevel.clean;
  targets = [];
  reversible = true;
}

from_toml_str-Answers_example :
    Answers policy_file.rule reading
      ((hardcoded_policy policy_file).evaluate_with_trace reading).0
      ((hardcoded_policy policy_file).evaluate_with_trace reading).1
unfolding from_toml_str checked first_error decision_of
from_toml_str-Answers_example = from_toml_str-Answers parse "" policy_file reading refl
