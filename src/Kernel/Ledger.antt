-- ===== src/Kernel/Ledger.antt =====
-- The ledgers of crates/evo-kernel/src/reduce.rs are ordered maps, and what a suspension shows of them.
use evowork.Prelude.{some, List, ◌≡◌, arith}
use evowork.Prelude.BTreeMap.{IsSorted, insert-IsSorted, remove-IsSorted}
use evowork.Protocol.Base.{RunId}
use evowork.Protocol.Event.{EventBody, Event}
use evowork.Kernel.State.{RunState, new}
use evowork.Kernel.Reduce.{apply_body, reduce_at}
use evowork.Kernel.History.{Reaches, start, step}

pub record IsOrdered (s : RunState) : Type 0 where
  pub effects : IsSorted s.pending_effects
  pub approvals : IsSorted s.pending_approvals

apply_body-IsOrdered :
    (b : EventBody) (s s' : RunState) → apply_body b s ≡ some s' → IsOrdered s → IsOrdered s'
unfolding apply_body
apply_body-IsOrdered (EventBody.approval_requested e) s s' h o =
    grind (arith, insert-IsSorted, remove-IsSorted)
apply_body-IsOrdered _ s s' h o = grind (arith, insert-IsSorted, remove-IsSorted)

pub Reaches-IsOrdered :
    (run : RunId) {history : List Event} {s : RunState} → Reaches run history s → IsOrdered s
unfolding new
Reaches-IsOrdered run start = record { effects = tt; approvals = tt }
Reaches-IsOrdered run (step {history} {s} r e s' h) =
    let o = Reaches-IsOrdered run r in
    apply_body-IsOrdered e.body (record s { last_seq = e.seq }) s' (reduce_at s e h)
      (record { effects = o.effects; approvals = o.approvals })
