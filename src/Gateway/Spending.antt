-- ===== src/Gateway/Spending.antt =====
-- The budget gate of crates/evo-gateway/src/pipeline.rs, and the kernel's: one limit in two places.
use evowork.Prelude.{ℕ, ◌+◌, ◌≤◌, ◌<◌, Option, none, some, true, ◌≡◌, arith, is_some}
use evowork.Prelude.Words.{u64_max, saturating_add}
use evowork.Protocol.Accounting.{CostCharged}
use evowork.Kernel.State.{RunState}
use evowork.Kernel.Reduce.{reduce}
use evowork.Kernel.Decide.{budget_exhausted}
use evowork.Protocol.Base.{BudgetSpec, BudgetUsage}
use evowork.Protocol.Event.{EventBody, Event}
use evowork.Gateway.Pipeline.{budget_gate}

-- With no estimate the gate of the gateway closes exactly when the kernel calls the budget exhausted;
-- with one it is never open where the kernel calls it so.
pub budget_gate_agrees :
    (spec : BudgetSpec) (used : BudgetUsage) (est : Option ℕ)
    → (is_some (budget_gate spec used none) ≡ budget_exhausted spec used)
      × (budget_exhausted spec used ≡ true → is_some (budget_gate spec used est) ≡ true)
unfolding budget_gate budget_exhausted
budget_gate_agrees spec used est = ground arith

budget_gate-room :
    (spec : BudgetSpec) (used : BudgetUsage) (limit e : ℕ)
    → spec.max_amount_micros ≡ some limit
    → limit < u64_max
    → budget_gate spec used (some e) ≡ none
    → used.amount_micros + e ≤ limit
unfolding budget_gate saturating_add
budget_gate-room spec used limit e k b h = ground arith

-- No overspending: if the gate is open for a call with an estimated cost, a charge of at most this
-- cost leaves the account of the run, as the kernel keeps it, within the limit of the run.
pub gate_prevents_overspending :
    (s s' : RunState) (e : Event) (c : CostCharged) (limit est : ℕ)
    → s.budget.max_amount_micros ≡ some limit
    → limit < u64_max
    → budget_gate s.budget s.budget_used (some est) ≡ none
    → e.body ≡ EventBody.cost_charged c
    → c.amount_micros ≤ est
    → reduce s e ≡ some s'
    → (s'.budget_used.amount_micros ≤ limit)
      × (s'.budget_used.amount_micros ≡ s.budget_used.amount_micros + c.amount_micros)
unfolding reduce
gate_prevents_overspending s s' e c limit est k b passed body le h =
    ground (arith, budget_gate-room s.budget s.budget_used limit est k b passed)
