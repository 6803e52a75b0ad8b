-- ===== src/Kernel/LoopExamples.antt =====
-- The theorems on the turn loop and on approvals at concrete states.
use evowork.Prelude.{none, some, [], ◌∷◌, ◌≡◌, refl}
use evowork.Prelude.BTreeMap.{insert, values_all, add_all}
use evowork.Protocol.Base.{Actor, join}
use evowork.Protocol.Accounting.{BudgetAmended}
use evowork.Protocol.Governance.{ApprovalDenied}
use evowork.Protocol.Lifecycle.{RunResumed, SuspendReason}
use evowork.Protocol.Turn.{ClarificationAnswered}
use evowork.Protocol.Event.{EventBody, Event}
use evowork.Kernel.State.{RunState}
use evowork.Kernel.Reduce.{reduce, fold}
use evowork.Kernel.Decide.{Command, next_stage, follow_plan, budget_exhausted}
use evowork.Kernel.Samples.{
  event, replayed, stepped, created, sampling, context, plan, resumed, limits, charged, suspended,
}
use evowork.Kernel.Turns.{turn_stages}
use evowork.Kernel.Gates.{EndsIn}
use evowork.Kernel.Replan.{answer_replans}

abbrev s0 : RunState
s0 = replayed (event 0 created ∷ [])

abbrev sampled : Event
sampled = event 1 (EventBody.env_sampled (sampling 0 5000))

abbrev assembled : Event
assembled = event 2 (EventBody.context_assembled context)

abbrev planned : Event
planned = event 3 (EventBody.plan_step plan)

abbrev s1 : RunState
s1 = stepped s0 sampled

abbrev s2 : RunState
s2 = stepped s1 assembled

abbrev s3 : RunState
s3 = stepped s2 planned

turn_stages_example :
    (next_stage s0 ≡ Command.sample_env)
    × (next_stage s1 ≡ Command.assemble_context s0.turn "default")
    × (next_stage s2 ≡ Command.call_model s0.turn)
    × (next_stage s3 ≡ follow_plan (some plan))
unfolding fold reduce add_all insert join
turn_stages_example =
    turn_stages s0 s1 s2 s3 sampled assembled planned (sampling 0 5000) context plan
      (refl, refl, refl) refl refl refl refl refl refl refl refl refl

abbrev by_user : RunResumed
by_user = record { by = Actor.human "u"; from_seq = 6 }

abbrev answer : ClarificationAnswered
answer = record { question_id = "q"; by = Actor.human "u"; option_id = none; free_text_ref = none }

abbrev answered : Event
answered = event 4 (EventBody.clarification_answered answer)

abbrev going_on : Event
going_on = event 9 resumed

answer_replans_example :
    EndsIn
      (stepped (stepped s3 answered) going_on)
      (Command.assemble_context s3.turn "default" ∷ [])
unfolding fold reduce add_all insert join budget_exhausted values_all
answer_replans_example =
    answer_replans s3 (stepped s3 answered) (stepped (stepped s3 answered) going_on) answered
      going_on by_user refl refl refl answer refl refl refl refl

-- The limit of the run was 500; it is raised to 900 with 600 spent.
abbrev broke : RunState
broke = replayed (
    event 0 created
    ∷ sampled
    ∷ event 2 (charged 600)
    ∷ event 3 (suspended SuspendReason.budget_exhausted)
    ∷ [])

abbrev raise : BudgetAmended
raise = record {
  budget = record limits { max_amount_micros = some 900 };
  by = Actor.human "u";
  reason_ref = none;
}

abbrev raised : Event
raised = event 4 (EventBody.budget_amended raise)

abbrev denial : ApprovalDenied
denial = record { approval_id = "a-1"; by = Actor.human "u"; reason_ref = none }

abbrev denied : Event
denied = event 8 (EventBody.approval_denied denial)
