-- ===== src/Kernel/Gates.antt =====
-- The gates of crates/evo-kernel/src/decide.rs: when the kernel asks for nothing, or for no action.
use evowork.Prelude.{
  Bool, true, false, ◌&&◌, not, List, [], ◌∷◌, ◌++◌, ◌≡◌, ◌↔◌, arith, is_some, leb, length, all,
  if◌then◌else◌,
}
use evowork.Prelude.BTreeMap.{values_all}
use evowork.Protocol.Accounting.{CheckpointReason}
use evowork.Kernel.State.{AwaitReason, is_running, RunState, is_resolved, events_since_checkpoint}
use evowork.Kernel.Decide.{
  Command, checkpoint_every, budget_exhausted, next_stage, periodic_checkpoint, decide,
}

-- The commands that begin a new step of the work.
abbrev pub acts : Command → Bool
acts (Command.checkpoint reason) = false
acts (Command.suspend reason) = false
acts _ = true

abbrev pub is_broke : RunState → Bool
is_broke s = budget_exhausted s.budget s.budget_used

abbrev pub is_idle : RunState → Bool
is_idle s = is_running s.status && not (is_some s.awaiting)

abbrev pub effects_done : RunState → Bool
effects_done s = values_all is_resolved s.pending_effects

abbrev is_checkpoint : Command → Bool
is_checkpoint (Command.checkpoint CheckpointReason.periodic) = true
is_checkpoint _ = false

-- The kernel begins a step of the work exactly if the run is running, waits for nothing, has budget
-- left in every dimension and every effect of it is resolved.
pub acts-decide :
    (s : RunState)
    → ((all (λ c. not (acts c)) (decide s) ≡ false)
        ↔ (is_idle s && not (is_broke s) && effects_done s ≡ true))
unfolding decide next_stage
acts-decide s = (ground arith, ground arith)

-- What the kernel answers at a gate: the commands before the last are periodic checkpoints, one if 50
-- events have passed since the last checkpoint and none otherwise.
abbrev pub EndsIn : RunState → List Command → Type 0
EndsIn s end =
    (pre : List Command) × (decide s ≡ pre ++ end)
    × (all is_checkpoint pre ≡ true)
    × (length pre ≡ (if leb checkpoint_every (events_since_checkpoint s) then 1 else 0))

-- Of a run that is running and waits for nothing, the kernel suspends one whose budget is used up,
-- adds nothing to the checkpoint for one with open effects, and asks any other for the next stage of
-- its turn. Of any other run it asks nothing.
pub decide_lem :
    (s : RunState)
    → (is_idle s ≡ false → decide s ≡ [])
      × (is_idle s ≡ true → is_broke s ≡ true → EndsIn s (Command.suspend AwaitReason.budget ∷ []))
      × (is_idle s ≡ true → is_broke s ≡ false → effects_done s ≡ false → EndsIn s [])
      × (is_idle s ≡ true
          → is_broke s ≡ false
          → effects_done s ≡ true
          → EndsIn s (next_stage s ∷ []))
unfolding decide periodic_checkpoint
decide_lem s = (
  ground arith,
  λ i b. (periodic_checkpoint s, ground arith, ground arith, ground arith),
  λ i b d. (periodic_checkpoint s, ground arith, ground arith, ground arith),
  λ i b d. (periodic_checkpoint s, ground arith, ground arith, ground arith),
)
