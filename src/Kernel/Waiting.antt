-- ===== src/Kernel/Waiting.antt =====
-- Suspension and resumption in crates/evo-kernel/src/{reduce,decide}.rs.
use evowork.Prelude.{some, Bool, true, false, List, [], ◌∷◌, ◌≡◌, arith, any}
use evowork.Protocol.Event.{EventBody, Event}
use evowork.Kernel.State.{is_running, RunState}
use evowork.Kernel.Reduce.{reduce, reduce_all}
use evowork.Kernel.Decide.{decide}
use evowork.Kernel.History.{reduce_all-cons}

-- The events that set a run going.
abbrev body_wakes : EventBody → Bool
body_wakes (EventBody.run_created e) = true
body_wakes (EventBody.run_resumed e) = true
body_wakes _ = false

abbrev pub wakes : Event → Bool
wakes e = body_wakes e.body

reduce-asleep :
    (s : RunState) (e : Event) (s' : RunState)
    → reduce s e ≡ some s'
    → is_running s.status ≡ false
    → wakes e ≡ false
    → is_running s'.status ≡ false
unfolding reduce
reduce-asleep s e s' h r w = ground arith

-- A run that is not running (suspended, completed or failed) asks for nothing, whatever events come,
-- until one of them is `run.resumed` or `run.created`: no approval, answer, raised budget or tool
-- result sets it going by itself.
pub decide_asleep :
    (s t : RunState) (events : List Event)
    → is_running s.status ≡ false
    → any wakes events ≡ false
    → reduce_all (some s) events ≡ some t
    → decide t ≡ []
unfolding reduce_all decide
decide_asleep s t [] r w h = ground arith
decide_asleep s t (e ∷ events) r w h =
    let (s', p, q) = reduce_all-cons s t e events h in
    decide_asleep s' t events (reduce-asleep s e s' p r (ground arith)) (ground arith) q
