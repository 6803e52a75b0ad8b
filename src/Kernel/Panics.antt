-- ===== src/Kernel/Panics.antt =====
-- The one panic of crates/evo-kernel/src/reduce.rs: a suspension for a question that is not open.
use evowork.Prelude.{
  none, some, Bool, true, false, ◌&&◌, not, List, [], ◌∷◌, ◌≡◌, refl, arith, is_some, Option-cases,
  inl, inr, ◌||◌,
}
use evowork.Protocol.Base.{RunId}
use evowork.Protocol.Lifecycle.{SuspendReason}
use evowork.Protocol.Event.{EventBody, Event}
use evowork.Kernel.State.{RunState, new}
use evowork.Kernel.Reduce.{reduce, reduce_all, fold}

abbrev for_human : SuspendReason → Bool
for_human SuspendReason.awaiting_human = true
for_human _ = false

-- The suspensions that read the open question.
abbrev waits_for_answer : EventBody → Bool
waits_for_answer (EventBody.run_suspended e) = for_human e.reason
waits_for_answer _ = false

-- Whether a question is open after an event.
abbrev open_after : Bool → EventBody → Bool
open_after q (EventBody.clarification_requested e) = true
open_after q (EventBody.clarification_answered e) = false
open_after q _ = q

-- The events in order, from a state where a question is open or not: every suspension for an answer
-- stands where a question is open.
abbrev pub asks_first : Bool → List Event → Bool
asks_first q [] = true
asks_first q (e ∷ events) =
    (q || not (waits_for_answer e.body)) && asks_first (open_after q e.body) events

-- A step panics exactly at a suspension for an answer with no open question.
pub reduce-none :
    (s : RunState) (e : Event)
    → is_some (reduce s e) ≡ (is_some s.pending_question || not (waits_for_answer e.body))
unfolding reduce
reduce-none s e = ground arith

reduce-open :
    (s : RunState) (e : Event) (s' : RunState)
    → reduce s e ≡ some s'
    → is_some s'.pending_question ≡ open_after (is_some s.pending_question) e.body
unfolding reduce
reduce-open s e s' h = ground arith

reduce_all-none : (events : List Event) → reduce_all none events ≡ none
unfolding reduce_all
reduce_all-none events = refl

reduce_all-is_some :
    (s : RunState) (events : List Event)
    → is_some (reduce_all (some s) events) ≡ asks_first (is_some s.pending_question) events
unfolding reduce_all
reduce_all-is_some s [] = refl
reduce_all-is_some s (e ∷ events) = elim (Option-cases (reduce s e)) [
  | inl p ↦ ground (arith, reduce-none s e, reduce_all-none events)
  | inr (s', p) ↦
      ground (arith, reduce-none s e, reduce-open s e s' p, reduce_all-is_some s' events)
]

-- A replay reaches a state exactly if the log asks before it waits: each `run.suspended` with the
-- reason `awaiting_human` has a `clarification.requested` before it with no answer in between.
-- Every other log, in any order of its events, replays to the end.
pub fold-is_some :
    (run : RunId) (events : List Event) → is_some (fold run events) ≡ asks_first false events
unfolding fold
fold-is_some run events = reduce_all-is_some (new run) events
