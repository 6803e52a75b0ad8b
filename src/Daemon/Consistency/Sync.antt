-- ===== src/Daemon/Consistency/Sync.antt =====
-- The operations of crates/evo-daemon/src/runtime.rs, on a log whose run is in step.
use evowork.Prelude.{String, Option, Bool, List, [], ◌∷◌, ◌≡◌, refl, arith, Bool-cases, inl, inr}
use mathlib.Core.List.{append-nil}
use evowork.Prelude.Texts.{str_eq}
use evowork.Protocol.Base.{RunId, ApprovalId, Actor, BudgetSpec}
use evowork.Protocol.Lifecycle.{TriggerRef}
use evowork.Protocol.Event.{Event}
use evowork.Kernel.State.{RunState, new}
use evowork.Kernel.Hash.{Codec}
use evowork.Kernel.Reduce.{reduce_all, fold}
use evowork.Runlog.Store.{Serde, RunLog, SnapshotRow, filter}
use evowork.Runlog.Select.{Holds}
use evowork.Daemon.Machine.{Env, Machine}
use evowork.Daemon.Drive.{into_state}
use evowork.Daemon.Operations.{start_with_trigger, resume}
use evowork.Daemon.Operations.Answers.{decide_approval, answer_clarification, amend_budget}
use evowork.Daemon.Consistency.InStep.{InStep, Snapped}
use evowork.Daemon.Consistency.Written.{IsFaithful}
use evowork.Daemon.Consistency.Keeps.{Setting, InSync, After, Keeps, bind, after-Quiet, put-Quiet}
use evowork.Daemon.Consistency.Emission.{emit-Keeps}
use evowork.Daemon.Consistency.Loop.{drive-Keeps}
use evowork.Daemon.Consistency.Requests.{
  resume-Keeps, decide_approval-Keeps, answer_clarification-Keeps, amend_budget-Keeps,
}

start-Keeps :
    {c : Setting} (intent_text : String) (trigger : TriggerRef)
    → Keeps c (new c.run) into_state (start_with_trigger c.env c.run intent_text trigger)
unfolding start_with_trigger
start-Keeps {c} intent_text trigger = bind (emit-Keeps (new c.run) _ _ tt) (λ s1.
    after-Quiet (put-Quiet "text/plain" _)
      (λ intent_ref. bind (emit-Keeps s1 _ _ tt) (λ s2. drive-Keeps s2)))

no_snapshots :
    (codec : Codec) (run : RunId) (rows : List SnapshotRow)
    → filter (λ r. str_eq r.run_id run) rows ≡ []
    → Snapped codec run [] rows
no_snapshots codec run [] h = tt
no_snapshots codec run (r ∷ rows) h = elim (Bool-cases (str_eq r.run_id run)) [
  | inl e ↦ ground arith
  | inr e ↦ (λ e'. ground arith, no_snapshots codec run rows (ground arith))
]

InStep-new :
    (serde : Serde) (codec : Codec) (run : RunId) (log : RunLog)
    → Holds serde run log []
    → filter (λ r. str_eq r.run_id run) log.snapshots ≡ []
    → InStep serde codec run (new run) [] log
unfolding fold reduce_all new
InStep-new serde codec run log h n = record {
  holds = h;
  folds = refl;
  snapped = no_snapshots codec run log.snapshots n;
  same_run = refl;
}

module _ (env : Env) (laws : IsFaithful env.serde env.codec) (run : RunId) (held : List Event)
    (m : Machine env.World) where
  -- The run and its events, as they are now.
  abbrev pub now : Setting
  now = record { env = env; laws = laws; run = run; base = held; log0 = m.log }

  pub since : (s : RunState) → InStep env.serde env.codec run s held m.log → InSync now s m.log
  since s i = InSync.grown [] (rw (append-nil held) i) (record { kept = λ other others d h. h })

  module _ (s : RunState) (i : InStep env.serde env.codec run s held m.log) where
    -- Take a run whose state is the replay of its log and whose snapshots are honest (each decodes,
    -- and is the state before its number where its hash says so), with a serde_json that reads back
    -- the events that it wrote, those with a temperature other than 0.0 aside, which the runtime
    -- never asks for, and a ciborium that reads back the states. If resuming it answers, then the
    -- log holds for the run what it held and a stretch more, the state of the outcome is the replay
    -- of all of it, the snapshots are still honest, and every other run holds what it held. After
    -- an error the same is true of some state. Left out are a panic and a table of 2^63 - 1 rows or
    -- more.
    pub resume-InSync : After now into_state (resume env run m)
    resume-InSync = (resume-Keeps s).after m (since s i)

    -- Take a run whose state is the replay of its log and whose snapshots are honest (each decodes,
    -- and is the state before its number where its hash says so), with a serde_json that reads back
    -- the events that it wrote, those with a temperature other than 0.0 aside, which the runtime
    -- never asks for, and a ciborium that reads back the states. If a decision on an approval, with
    -- the expiry, the checkpoint and the resumption that it may lead to, answers, then the log
    -- holds for the run what it held and a stretch more, the state of the outcome is the replay of
    -- all of it, the snapshots are still honest, and every other run holds what it held. After an
    -- error the same is true of some state. Left out are a panic and a table of 2^63 - 1 rows or
    -- more.
    pub decide_approval-InSync :
        (approval_id : ApprovalId) (granted : Bool) (by : Actor) (remark : Option String)
        → After now into_state (decide_approval env run approval_id granted by remark m)
    decide_approval-InSync approval_id granted by remark =
        (decide_approval-Keeps s approval_id granted by remark).after m (since s i)

    -- Take a run whose state is the replay of its log and whose snapshots are honest (each decodes,
    -- and is the state before its number where its hash says so), with a serde_json that reads back
    -- the events that it wrote, those with a temperature other than 0.0 aside, which the runtime
    -- never asks for, and a ciborium that reads back the states. If an answer to a question
    -- answers, then the log holds for the run what it held and a stretch more, the state of the
    -- outcome is the replay of all of it, the snapshots are still honest, and every other run holds
    -- what it held. After an error the same is true of some state. Left out are a panic and a table
    -- of 2^63 - 1 rows or more.
    pub answer_clarification-InSync :
        (question_id : String) (option_id free_text : Option String) (by : Actor)
        → After now into_state (answer_clarification env run question_id option_id free_text by m)
    answer_clarification-InSync question_id option_id free_text by =
        (answer_clarification-Keeps s question_id option_id free_text by).after m (since s i)

    -- Take a run whose state is the replay of its log and whose snapshots are honest (each decodes,
    -- and is the state before its number where its hash says so), with a serde_json that reads back
    -- the events that it wrote, those with a temperature other than 0.0 aside, which the runtime
    -- never asks for, and a ciborium that reads back the states. If a change of its budget answers,
    -- then the log holds for the run what it held and a stretch more, the state of the outcome is
    -- the replay of all of it, the snapshots are still honest, and every other run holds what it
    -- held. After an error the same is true of some state. Left out are a panic and a table of 2^63
    -- - 1 rows or more.
    pub amend_budget-InSync :
        (budget : BudgetSpec) (by : Actor) (reason : Option String)
        → After now into_state (amend_budget env run budget by reason m)
    amend_budget-InSync budget by reason =
        (amend_budget-Keeps s budget by reason).after m (since s i)

-- Start a run of which the log holds no event and no snapshot, with a serde_json that reads back
-- the events that it wrote, those with a temperature other than 0.0 aside, which the runtime never
-- asks for, and a ciborium that reads back the states. If the start answers, then the state of the
-- outcome is the replay of the events that the log holds for the run, its snapshots are honest
-- (each decodes, and is the state before its number where its hash says so), and every other run
-- holds what it held. After an error the same is true of some state. Left out are a panic and a
-- table of 2^63 - 1 rows or more.
pub start-InSync :
    (env : Env) (laws : IsFaithful env.serde env.codec) (run : RunId) (m : Machine env.World)
    (intent_text : String) (trigger : TriggerRef)
    → Holds env.serde run m.log []
    → filter (λ r. str_eq r.run_id run) m.log.snapshots ≡ []
    → After (now env laws run [] m) into_state (start_with_trigger env run intent_text trigger m)
start-InSync env laws run m intent_text trigger h n =
    (start-Keeps intent_text trigger).after m
      (since env laws run [] m (new run) (InStep-new env.serde env.codec run m.log h n))
