-- ===== src/Daemon/Drive.antt =====
-- `drive` of crates/evo-daemon/src/runtime.rs: the loop that asks the kernel and does what it says.
use evowork.Prelude.{
  ℕ, zero, suc, String, Bool, true, false, List, [], ◌∷◌, ltb, if◌then◌else◌, unwrap_or,
}
use evowork.Prelude.BTreeMap.{BTreeMap}
use evowork.Kernel.State.{RunState, RunStatus, AwaitReason, EffectState, is_resolved}
use evowork.Kernel.Decide.{Command, decide}
use evowork.Daemon.Error.{DaemonError}
use evowork.Daemon.Action.{pure, for_each, ◌>>=◌}
use evowork.Daemon.Machine.{Env, Step}
use evowork.Daemon.History.{failure_message}
use evowork.Daemon.Commands.{fail_run, execute_command}

abbrev pub max_turns : ℕ
max_turns = 64

abbrev pub max_loop_iterations : ℕ
max_loop_iterations = 10000

pub data RunOutcome : Type 0 where
  completed : RunState → RunOutcome
  suspended : RunState → AwaitReason → RunOutcome
  failed : RunState → String → RunOutcome

abbrev pub into_state : RunOutcome → RunState
into_state (RunOutcome.completed state) = state
into_state (RunOutcome.suspended state reason) = state
into_state (RunOutcome.failed state error) = state

-- The effects that nothing will bring to an end.
unfoldable pub stalled : BTreeMap EffectState → List String
stalled [] = []
stalled ((id, st) ∷ effects) = if is_resolved st then stalled effects else id ∷ stalled effects

module _ (env : Env) where
  unfoldable pub fail_with : RunState → String → DaemonError → Step env RunOutcome
  fail_with state code detail = do
    state ← fail_run env state code detail
    error ← failure_message env state
    pure (RunOutcome.failed state error)

  unfoldable pub conclude_as : RunStatus → RunState → Step env RunOutcome
  unfolding fail_with stalled
  conclude_as RunStatus.suspended state = pure (
      RunOutcome.suspended state
        (unwrap_or state.awaiting (AwaitReason.external_event "suspended_without_await_reason")))
  conclude_as RunStatus.failed state = do
    error ← failure_message env state
    pure (RunOutcome.failed state error)
  conclude_as RunStatus.completed state = pure (RunOutcome.completed state)
  conclude_as RunStatus.running state =
      fail_with state "stalled_unresolved_effects"
        (DaemonError.stalled_effects (env.debug_texts (stalled state.pending_effects)))

  -- The `match` after the loop.
  unfoldable pub conclude : RunState → Step env RunOutcome
  unfolding conclude_as
  conclude state = conclude_as state.status state

  -- One round, with the rest of the loop.
  unfoldable pub turn_of :
      (RunState → Step env RunOutcome) → Bool → List Command → RunState → Step env RunOutcome
  turn_of rest true commands state = fail_with state "turn_limit" (DaemonError.turn_limit max_turns)
  turn_of rest false [] state = conclude state
  turn_of rest false (c ∷ commands) state =
      for_each (c ∷ commands) (execute_command env) state >>= rest

  -- The loop with `left` rounds until the limit.
  unfoldable pub rounds : ℕ → RunState → Step env RunOutcome
  unfolding turn_of
  rounds zero state =
      fail_with state "loop_iteration_limit" (DaemonError.loop_iteration_limit max_loop_iterations)
  rounds (suc left) state = turn_of (rounds left) (ltb max_turns state.turn) (decide state) state

  unfoldable pub drive : RunState → Step env RunOutcome
  drive state = rounds max_loop_iterations state
