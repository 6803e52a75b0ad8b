-- ===== src/Kernel/Accounts.antt =====
-- The meter of crates/evo-kernel/src/reduce.rs: tokens, money and time used by a run.
use evowork.Prelude.{ℕ, ◌+◌, ◌<◌, ◌^◌, some, List, [], ◌∷◌, ◌≡◌, arith}
use evowork.Prelude.Words.{u64}
use evowork.Protocol.Base.{RunId}
use evowork.Protocol.Event.{EventBody, Event}
use evowork.Kernel.State.{RunState, new}
use evowork.Kernel.Reduce.{reduce, reduce_all, fold}
use evowork.Kernel.History.{reduce_all-cons}

-- What an event adds to the account of money, and to that of tokens.
abbrev pub charge : EventBody → ℕ
charge (EventBody.cost_charged e) = e.amount_micros
charge _ = 0

abbrev pub tokens : EventBody → ℕ
tokens (EventBody.model_responded e) = e.usage.input + e.usage.output
tokens _ = 0

abbrev pub total : (EventBody → ℕ) → List Event → ℕ
total f [] = 0
total f (e ∷ events) = f e.body + total f events

module _ (s s' : RunState) (e : Event) (h : reduce s e ≡ some s') where
  reduce-amount :
      s.budget_used.amount_micros < 2 ^ 64
      → s'.budget_used.amount_micros ≡ u64 (s.budget_used.amount_micros + charge e.body)
  unfolding reduce
  reduce-amount b = ground arith

  reduce-tokens :
      s.budget_used.tokens < 2 ^ 64
      → s'.budget_used.tokens ≡ u64 (s.budget_used.tokens + tokens e.body)
  unfolding reduce
  reduce-tokens b = ground arith

reduce_all-budget_used :
    (s t : RunState) (events : List Event)
    → s.budget_used.amount_micros < 2 ^ 64
    → s.budget_used.tokens < 2 ^ 64
    → reduce_all (some s) events ≡ some t
    → (t.budget_used.amount_micros ≡ u64 (s.budget_used.amount_micros + total charge events))
      × (t.budget_used.tokens ≡ u64 (s.budget_used.tokens + total tokens events))
unfolding reduce_all
reduce_all-budget_used s t [] a b h = ground arith
reduce_all-budget_used s t (e ∷ events) a b h =
    let (s', p, q) = reduce_all-cons s t e events h in
    let amount : s'.budget_used.amount_micros ≡ _ = reduce-amount s s' e p a in
    let spent : s'.budget_used.tokens ≡ _ = reduce-tokens s s' e p b in
    omega (arith, reduce_all-budget_used s' t events (omega arith) (omega arith) q)

-- The meter agrees with the log: after a replay the money and the tokens used are the sums of what
-- the `cost.charged` and the `model.responded` events report, modulo the width of the fields.
pub fold-budget_used :
    (run : RunId) (events : List Event) (s : RunState)
    → fold run events ≡ some s
    → (s.budget_used.amount_micros ≡ u64 (total charge events))
      × (s.budget_used.tokens ≡ u64 (total tokens events))
unfolding fold
fold-budget_used run events s h =
    omega (arith, reduce_all-budget_used (new run) s events (omega arith) (omega arith) h)
