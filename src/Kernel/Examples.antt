-- ===== src/Kernel/Examples.antt =====
-- The theorems on the kernel at concrete logs.
use evowork.Prelude.{some, false, List, [], ◌∷◌, ◌++◌, ◌≡◌, refl, any, is_some}
use evowork.Prelude.BTreeMap.{get, insert, remove, first, add_all}
use evowork.Prelude.Words.{u64}
use evowork.Protocol.Base.{is_tainted, join}
use evowork.Protocol.Lifecycle.{SuspendReason}
use evowork.Protocol.Event.{EventBody, Event}
use evowork.Kernel.State.{RunState}
use evowork.Kernel.Reduce.{reduce, fold}
use evowork.Kernel.Samples.{
  event, opening, replayed, stepped, granted, suspended, charged, responded, sampling, checkpointed,
  resumed,
}
use evowork.Kernel.History.{rev}
use evowork.Kernel.Taint.{taints, fold-taint}
use evowork.Kernel.Approved.{GrantedAfterAsk, fold-approved}
use evowork.Kernel.State.{AwaitReason}
use evowork.Kernel.Decide.{decide}
use evowork.Kernel.WallTime.{samples, first_sample, longest_run, fold-wall_ms}
use evowork.Kernel.Panics.{asks_first, fold-is_some}
use evowork.Kernel.Waiting.{decide_asleep}
use evowork.Kernel.Accounts.{total, charge, tokens, fold-budget_used}

abbrev after_grant : List Event
after_grant = opening ++ event 8 (granted "a-1") ∷ []

-- A run whose definitions all compute.
replays : fold "r-1" after_grant ≡ some (replayed after_grant)
unfolding fold reduce insert get remove add_all join
replays = refl

fold-approved_example : GrantedAfterAsk "e-1" (rev after_grant [])
unfolding fold reduce insert get remove add_all join
fold-approved_example = fold-approved "r-1" after_grant (replayed after_grant) "e-1" replays refl

fold-taint_example : is_tainted (replayed opening).taint ≡ any taints opening
unfolding fold reduce insert add_all join
fold-taint_example = fold-taint "r-1" opening (replayed opening) refl

abbrev spending : List Event
spending = opening ++ event 8 (charged 40) ∷ event 9 responded ∷ event 10 (charged 2) ∷ []

fold-budget_used_example :
    ((replayed spending).budget_used.amount_micros ≡ u64 (total charge spending))
    × ((replayed spending).budget_used.tokens ≡ u64 (total tokens spending))
unfolding fold reduce insert add_all join
fold-budget_used_example = fold-budget_used "r-1" spending (replayed spending) refl

-- The clock of the second sample is behind that of the first, the third is ahead.
abbrev clocked : List Event
clocked =
    opening
    ++ event 8 (EventBody.env_sampled (sampling 0 4000))
      ∷ event 9 (EventBody.env_sampled (sampling 0 7500))
      ∷ []

fold-wall_ms_example :
    ((replayed clocked).clock_start_ms ≡ first_sample (samples clocked))
    × ((replayed clocked).budget_used.wall_ms ≡ longest_run (samples clocked))
unfolding fold reduce insert add_all join
fold-wall_ms_example = fold-wall_ms "r-1" clocked (replayed clocked) refl

wall_of_clocked : (replayed clocked).budget_used.wall_ms ≡ 2500
unfolding fold reduce insert add_all join
wall_of_clocked = refl

abbrev unasked : List Event
unasked = opening ++ event 8 (suspended SuspendReason.awaiting_human) ∷ []

fold-is_some_example : is_some (fold "r-1" unasked) ≡ asks_first false unasked
fold-is_some_example = fold-is_some "r-1" unasked

-- The replay of a log that waits for an answer to no question panics.
fold-unasked : is_some (fold "r-1" unasked) ≡ false
fold-unasked = fold-is_some "r-1" unasked

abbrev waiting : RunState
waiting = replayed (opening ++ event 8 (suspended SuspendReason.awaiting_approval) ∷ [])

decide_asleep_example : decide (stepped waiting (event 9 (granted "a-1"))) ≡ []
unfolding fold reduce insert get remove first add_all join
decide_asleep_example =
    decide_asleep waiting (stepped waiting (event 9 (granted "a-1"))) (event 9 (granted "a-1") ∷ [])
      refl refl refl

-- Of the two open approvals `a-1` stands for both, though `a-2` was asked first.
waiting_for_least : waiting.awaiting ≡ some (AwaitReason.approval "a-1" "e-1")
unfolding fold reduce insert first add_all join
waiting_for_least = refl

abbrev long_log : List Event
long_log = opening ++ event 20 checkpointed ∷ event 25 resumed ∷ []
