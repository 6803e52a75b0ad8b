-- ===== src/Kernel/Taint.antt =====
-- Taint through crates/evo-kernel/src/reduce.rs: it is the join of what the events carry.
use evowork.Prelude.{some, Bool, false, ◌||◌, List, [], ◌∷◌, any, ◌≡◌, refl, arith}
use evowork.Protocol.Base.{RunId, is_tainted, join}
use evowork.Protocol.Event.{EventBody, Event}
use evowork.Kernel.State.{RunState, new}
use evowork.Kernel.Reduce.{reduce, fold}
use evowork.Kernel.History.{Reaches, start, step, rev, fold-Reaches}

-- The events that report tainted content.
abbrev body_taints : EventBody → Bool
body_taints (EventBody.context_assembled e) = is_tainted e.taint_level
body_taints (EventBody.plan_step e) = is_tainted e.taint_inherited
body_taints (EventBody.tool_result e) = is_tainted e.taint
body_taints _ = false

abbrev pub taints : Event → Bool
taints e = body_taints e.body

-- A step leaves a tainted run tainted, and taints a clean one exactly at an event that reports taint.
reduce-taint :
    (s : RunState) (e : Event) (s' : RunState)
    → reduce s e ≡ some s'
    → is_tainted s'.taint ≡ (taints e || is_tainted s.taint)
unfolding reduce join
reduce-taint s e s' h = ground arith

pub Reaches-taint :
    (id : RunId) {history : List Event} {s : RunState}
    → Reaches id history s
    → is_tainted s.taint ≡ any taints history
unfolding new
Reaches-taint id start = refl
Reaches-taint id (step {history} {s} r e s' h) =
    ground (arith, reduce-taint s e s' h, Reaches-taint id r)

any-rev : (f : Event → Bool) (xs ys : List Event) → any f (rev xs ys) ≡ (any f xs || any f ys)
any-rev f [] ys = ground arith
any-rev f (x ∷ xs) ys = ground (arith, any-rev f xs (x ∷ ys))

-- Replaying a log gives a tainted run exactly when some event of the log reports tainted content:
-- an assembled context, a plan step or a tool result. No other event raises taint, none lowers it.
pub fold-taint :
    (id : RunId) (events : List Event) (s : RunState)
    → fold id events ≡ some s
    → is_tainted s.taint ≡ any taints events
fold-taint id events s h =
    ground (arith, Reaches-taint id (fold-Reaches id events s h), any-rev taints events [])
