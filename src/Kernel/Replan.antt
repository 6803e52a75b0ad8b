-- ===== src/Kernel/Replan.antt =====
-- What lets a stopped run go on: crates/evo-kernel/src/{reduce,decide}.rs together.
use evowork.Prelude.{some, true, false, [], ◌∷◌, ◌≡◌, ◌∙◌, arith}
use evowork.Protocol.Turn.{ClarificationAnswered}
use evowork.Protocol.Lifecycle.{RunResumed}
use evowork.Protocol.Accounting.{BudgetAmended}
use evowork.Protocol.Governance.{ApprovalDenied}
use evowork.Protocol.Event.{EventBody, Event}
use evowork.Kernel.State.{AwaitReason, RunState}
use evowork.Kernel.Reduce.{reduce, on_approval_closed}
use evowork.Kernel.Decide.{Command, is_at, budget_exhausted, next_stage}
use evowork.Kernel.Gates.{is_idle, is_broke, effects_done, EndsIn, decide_lem}

module _ (s s1 s2 : RunState) (first second : Event) (r : RunResumed)
    (resumed : second.body ≡ EventBody.run_resumed r) (h1 : reduce s first ≡ some s1)
    (h2 : reduce s1 second ≡ some s2) where
  resumed-is_idle : is_idle s2 ≡ true
  unfolding reduce
  resumed-is_idle = ground arith

  answered_stage :
      (x : ClarificationAnswered)
      → first.body ≡ EventBody.clarification_answered x
      → is_at s.env_sampled_turn s.turn ≡ true
      → (next_stage s2 ≡ Command.assemble_context s.turn "default")
        × (is_broke s2 ≡ is_broke s)
        × (effects_done s2 ≡ effects_done s)
  unfolding reduce next_stage
  answered_stage x b t = ground arith

  -- After the answer to a question and a resumption, a run with budget left and no open effect
  -- assembles its context anew in the same turn, and does not ask again by the plan that it had.
  pub answer_replans :
      (x : ClarificationAnswered)
      → first.body ≡ EventBody.clarification_answered x
      → is_at s.env_sampled_turn s.turn ≡ true
      → is_broke s ≡ false
      → effects_done s ≡ true
      → EndsIn s2 (Command.assemble_context s.turn "default" ∷ [])
  answer_replans x b t broke done =
      let (stage, k, l) = answered_stage x b t in rw stage at (lemma k l)
    where
      lemma :
          is_broke s2 ≡ is_broke s
          → effects_done s2 ≡ effects_done s
          → EndsIn s2 (next_stage s2 ∷ [])
      lemma k l = (decide_lem s2).3 resumed-is_idle (k ∙ broke) (l ∙ done)

  amended_state :
      (x : BudgetAmended)
      → first.body ≡ EventBody.budget_amended x
      → (is_broke s2 ≡ budget_exhausted x.budget s.budget_used)
        × (s2.budget_used ≡ s.budget_used)
        × (effects_done s2 ≡ effects_done s)
        × (next_stage s2 ≡ next_stage s)
  unfolding reduce next_stage
  amended_state x b = ground arith

  -- After a new budget and a resumption the account is what it was. If it is within the new limits
  -- and no effect is open, the run goes on at the stage where it stood; if it is not, the kernel
  -- suspends the run for its budget again.
  pub amend_resumes :
      (x : BudgetAmended)
      → first.body ≡ EventBody.budget_amended x
      → (s2.budget_used ≡ s.budget_used)
        × (budget_exhausted x.budget s.budget_used ≡ false
            → effects_done s ≡ true
            → EndsIn s2 (next_stage s ∷ []))
        × (budget_exhausted x.budget s.budget_used ≡ true
            → EndsIn s2 (Command.suspend AwaitReason.budget ∷ []))
  amend_resumes x b =
      let (broke, used, done, stage) = amended_state x b in
      (
        used,
        λ within d. rw stage at ((decide_lem s2).3 resumed-is_idle (broke ∙ within) (done ∙ d)),
        λ over. (decide_lem s2).1 resumed-is_idle (broke ∙ over),
      )

  denied_state :
      (x : ApprovalDenied)
      → first.body ≡ EventBody.approval_denied x
      → s2.turn ≡ (on_approval_closed x.approval_id (record s { last_seq = first.seq })).turn
  unfolding reduce
  denied_state x b = ground arith
