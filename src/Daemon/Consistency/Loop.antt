-- ===== src/Daemon/Consistency/Loop.antt =====
-- `drive` of crates/evo-daemon/src/runtime.rs keeps the run in step with its log.
use evowork.Prelude.{ℕ, zero, suc, String, Bool, true, false, List, [], ◌∷◌, refl}
use evowork.Kernel.State.{RunState, RunStatus}
use evowork.Kernel.Decide.{Command, decide}
use evowork.Daemon.Error.{DaemonError}
use evowork.Daemon.Machine.{Step}
use evowork.Daemon.Drive.{
  RunOutcome, into_state, max_loop_iterations, fail_with, conclude_as, conclude, turn_of, rounds,
  drive,
}
use evowork.Daemon.Consistency.Keeps.{Setting, Keeps, bind, after-Quiet, pure-Keeps, for_each-Keeps}
use evowork.Daemon.Consistency.Reads.{failure_message-Quiet}
use evowork.Daemon.Consistency.Steps.{fail_run-Keeps, execute_command-Keeps}

module _ {c : Setting} where
  fail_with-Keeps :
      (s : RunState) (code : String) (detail : DaemonError)
      → Keeps c s into_state (fail_with c.env s code detail)
  unfolding fail_with
  fail_with-Keeps s code detail =
      bind (fail_run-Keeps s code detail)
        (λ s1. after-Quiet (failure_message-Quiet s1) (λ error. pure-Keeps _ refl))

  conclude_as-Keeps :
      (status : RunStatus) (s : RunState) → Keeps c s into_state (conclude_as c.env status s)
  unfolding conclude_as
  conclude_as-Keeps RunStatus.suspended s = pure-Keeps _ refl
  conclude_as-Keeps RunStatus.failed s =
      after-Quiet (failure_message-Quiet s) (λ error. pure-Keeps _ refl)
  conclude_as-Keeps RunStatus.completed s = pure-Keeps _ refl
  conclude_as-Keeps RunStatus.running s = fail_with-Keeps s "stalled_unresolved_effects" _

  turn_of-Keeps :
      (rest : RunState → Step c.env RunOutcome) (b : Bool) (commands : List Command) (s : RunState)
      → ((s : RunState) → Keeps c s into_state (rest s))
      → Keeps c s into_state (turn_of c.env rest b commands s)
  unfolding turn_of conclude
  turn_of-Keeps rest true commands s h = fail_with-Keeps s "turn_limit" _
  turn_of-Keeps rest false [] s h = conclude_as-Keeps s.status s
  turn_of-Keeps rest false (command ∷ commands) s h =
      bind
        (for_each-Keeps (λ a. a) _ (command ∷ commands) s
          (λ a command. execute_command-Keeps a command))
        h

  rounds-Keeps : (left : ℕ) (s : RunState) → Keeps c s into_state (rounds c.env left s)
  unfolding rounds
  rounds-Keeps zero s = fail_with-Keeps s "loop_iteration_limit" _
  rounds-Keeps (suc left) s = turn_of-Keeps (rounds c.env left) _ (decide s) s (rounds-Keeps left)

  pub drive-Keeps : (s : RunState) → Keeps c s into_state (drive c.env s)
  unfolding drive
  drive-Keeps s = rounds-Keeps max_loop_iterations s
