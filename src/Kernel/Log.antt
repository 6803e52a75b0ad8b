-- ===== src/Kernel/Log.antt =====
-- Sequence numbers and checkpoints in crates/evo-kernel/src/{state,reduce}.rs.
use evowork.Prelude.{ℕ, ◌+◌, ◌≤◌, ◌<◌, Option, none, some, List, [], ◌∷◌, ◌≡◌, arith}
use evowork.Prelude.Words.{u64_max}
use evowork.Protocol.Base.{RunId}
use evowork.Protocol.Event.{Event}
use evowork.Kernel.State.{RunState, new, events_since_checkpoint}
use evowork.Kernel.Reduce.{reduce, reduce_all, fold}
use evowork.Kernel.History.{reduce_all-cons}

-- The order that `reduce` asserts in a debug build: no number is below the one before.
abbrev pub Ascends : ℕ → List Event → Type 0
Ascends n [] = Unit
Ascends n (e ∷ events) = (n ≤ e.seq) × Ascends e.seq events

abbrev pub last_of : ℕ → List Event → ℕ
last_of n [] = n
last_of n (e ∷ events) = last_of e.seq events

abbrev AtMost : Option ℕ → ℕ → Type 0
AtMost none n = Unit
AtMost (some at) n = at ≤ n

reduce-checkpoint :
    (s : RunState) (e : Event) (s' : RunState)
    → reduce s e ≡ some s'
    → s.last_seq ≤ e.seq
    → AtMost s.last_checkpoint_seq s.last_seq
    → (s'.last_seq ≡ e.seq) × AtMost s'.last_checkpoint_seq s'.last_seq
unfolding reduce
reduce-checkpoint s e s' h n a = ground arith

reduce_all-checkpoint :
    (s t : RunState) (events : List Event)
    → reduce_all (some s) events ≡ some t
    → Ascends s.last_seq events
    → AtMost s.last_checkpoint_seq s.last_seq
    → (t.last_seq ≡ last_of s.last_seq events) × AtMost t.last_checkpoint_seq t.last_seq
unfolding reduce_all
reduce_all-checkpoint s t [] h n a = ground arith
reduce_all-checkpoint s t (e ∷ events) h n a =
    let (s', p, q) = reduce_all-cons s t e events h in
    ground (arith, reduce-checkpoint s e s' p, reduce_all-checkpoint s' t events q)

-- Replaying a log in the order of its numbers ends at the number of the last event, and the count of
-- events since the last checkpoint is exact: it is the distance from the checkpoint, which is never
-- ahead of the log, or the whole log where there is no checkpoint.
pub fold-events_since :
    (run : RunId) (events : List Event) (s : RunState)
    → Ascends 0 events
    → last_of 0 events < u64_max
    → fold run events ≡ some s
    → (s.last_seq ≡ last_of 0 events)
      × (s.last_checkpoint_seq ≡ none → events_since_checkpoint s ≡ last_of 0 events + 1)
      × ((at : ℕ)
          → s.last_checkpoint_seq ≡ some at
          → at + events_since_checkpoint s ≡ last_of 0 events)
unfolding fold events_since_checkpoint
fold-events_since run events s n b h =
    let (p, q) = reduce_all-checkpoint (new run) s events h n tt in
    (p, λ e. ground arith, λ at e. ground arith)
