-- ===== src/Daemon/RuntimeExamples.antt =====
-- The theorems on the runtime at one run: an approval is overdue, a question is open, the budget is spent.
use evowork.Prelude.{ℕ, none, false, [], ◌≡◌, refl, length, arith}
use evowork.Protocol.Base.{Actor}
use evowork.Protocol.Lifecycle.{TriggerKind}
use evowork.Kernel.State.{AwaitReason}
use evowork.Kernel.Samples.{replayed}
use evowork.Daemon.Action.{Outcome}
use evowork.Daemon.Machine.{Machine}
use evowork.Daemon.Settled.{Answers, IsSettled, drive-IsSettled}
use evowork.Daemon.Drive.{drive, RunOutcome, into_state}
use evowork.Daemon.Operations.{start_with_trigger, resume, expire_overdue_approvals, overdue_ids}
use evowork.Daemon.History.{find_approval_requested, find_map}
use evowork.Daemon.Machine.{ask, read_events}
use evowork.Daemon.Action.{and_then, for_each}
use evowork.Runlog.Store.{events, event_of, decode, order_by_seq}
use evowork.Prelude.BTreeMap.{get, insert}
use evowork.Kernel.Reduce.{fold, reduce}
use evowork.Daemon.Operations.Answers.{decide_approval}
use evowork.Daemon.Consistency.Keeps.{After}
use evowork.Daemon.Consistency.Sync.{now, start-InSync, resume-InSync}
use evowork.Daemon.Consistency.Writes.{Wrote}
use evowork.Daemon.Consistency.Decision.{IsDecision, decide_approval-Wrote}
use evowork.Daemon.Samples.{env, machine, fresh, log-InStep}
use evowork.Daemon.Columns.{held}
use evowork.Daemon.Columns.Laws.{laws}

-- The numbers of rows after an operation that suspended the run for its budget.
abbrev rows_at_budget : Outcome (Machine ℕ) RunOutcome → ℕ
rows_at_budget (Outcome.ok (RunOutcome.suspended s AwaitReason.budget) m) = length m.log.run_events
rows_at_budget _ = 0

-- The approval expires, the run resumes and is suspended again: three events.
abbrev resumed_rows : ℕ
resumed_rows = rows_at_budget (resume env "r-1" machine)

resume-InSync_example :
    After (now env laws "r-1" held machine) into_state (resume env "r-1" machine)
resume-InSync_example = resume-InSync env laws "r-1" held machine (replayed held) log-InStep

-- A machine whose clock is before the end of the approval.
abbrev early : Machine ℕ
early = record machine { world = 2 }

nothing_overdue :
    expire_overdue_approvals env (replayed held) early ≡ Outcome.ok (replayed held) early
unfolding expire_overdue_approvals overdue_ids find_approval_requested read_events events event_of
    ask and_then for_each find_map fold reduce insert decode order_by_seq
nothing_overdue = refl

-- The denial: the checkpoint, the denial, the resumption and the suspension for the budget.
abbrev denied_rows : ℕ
denied_rows = rows_at_budget (decide_approval env "r-1" "a-1" false Actor.runtime none early)

decide_approval-Wrote_example :
    let result = decide_approval env "r-1" "a-1" false Actor.runtime none early in
    After (now env laws "r-1" held early) into_state result
    × Wrote (now env laws "r-1" held early) (IsDecision "a-1" false Actor.runtime) into_state result
unfolding get insert fold reduce
decide_approval-Wrote_example =
    decide_approval-Wrote env laws "r-1" held early (replayed held) log-InStep "a-1" false
      Actor.runtime none (replayed held) early refl nothing_overdue refl

-- Two events start the run, and a third suspends it.
abbrev started_rows : ℕ
started_rows = rows_at_budget (
    start_with_trigger env "r-1" "hi" (record { kind = TriggerKind.manual; reference = "cli" })
      fresh)

start-InSync_example : After (now env laws "r-1" [] fresh) into_state (
    start_with_trigger env "r-1" "hi"
      (record { kind = TriggerKind.manual; reference = "cli" })
      fresh)
start-InSync_example =
    start-InSync env laws "r-1" fresh "hi" (record { kind = TriggerKind.manual; reference = "cli" })
      (tt, omega arith) refl

drive-IsSettled_example : Answers env IsSettled (drive env (replayed held) machine)
drive-IsSettled_example = drive-IsSettled env (replayed held) machine
