-- ===== src/Kernel/Approved.antt =====
-- An effect is approved in crates/evo-kernel/src/reduce.rs only by a person's grant.
use evowork.Prelude.{
  Option, none, some, List, [], ◌∷◌, ◌≡◌, ◌⊎◌, inl, inr, refl, arith, Option-cases,
}
use evowork.Prelude.BTreeMap.{get, get-insert, get-remove}
use evowork.Prelude.Texts.{eq_iff}
use evowork.Protocol.Base.{RunId, EffectId, ApprovalId}
use evowork.Protocol.Event.{EventBody, Event}
use evowork.Kernel.State.{RunState, EffectState, new}
use evowork.Kernel.Reduce.{on_approval_granted, on_approval_closed, apply_body, reduce_at, fold}
use evowork.Kernel.History.{Reaches, start, step, rev, fold-Reaches}
use evowork.Kernel.Approvals.{on_approval_granted_lem, on_approval_closed_lem}

-- The approval that an event grants, and the pair that an event opens.
abbrev grants : EventBody → Option ApprovalId
grants (EventBody.approval_granted e) = some e.approval_id
grants _ = none

abbrev asks : EventBody → Option (ApprovalId × EffectId)
asks (EventBody.approval_requested e) = some (e.approval_id, e.effect_id)
asks _ = none

-- What it takes for an effect to be approved after an event.
abbrev Earned : EventBody → RunState → EffectId → Type 0
Earned b s id =
    (get id s.pending_effects ≡ some EffectState.approved)
    ⊎ ((a : ApprovalId) × (grants b ≡ some a)
        × (get a s.pending_approvals ≡ some id)
        × (get id s.pending_effects ≡ some EffectState.requested))

granted-approved :
    (a : ApprovalId) (s : RunState) (id : EffectId)
    → get id (on_approval_granted a s).pending_effects ≡ some EffectState.approved
    → (get id s.pending_effects ≡ some EffectState.approved)
      ⊎ ((get a s.pending_approvals ≡ some id)
          × (get id s.pending_effects ≡ some EffectState.requested))
granted-approved a s id g = elim (Option-cases (get a s.pending_approvals)) [
  | inl p ↦ ground (arith, on_approval_granted_lem a s id)
  | inr (f, p) ↦ ground (arith, eq_iff f id, on_approval_granted_lem a s id)
]

closed-approved :
    (a : ApprovalId) (s : RunState) (id : EffectId)
    → get id (on_approval_closed a s).pending_effects ≡ some EffectState.approved
    → get id s.pending_effects ≡ some EffectState.approved
closed-approved a s id g = ground (arith, on_approval_closed_lem a s id)

apply_body-approved :
    (b : EventBody) (s s' : RunState) (id : EffectId)
    → apply_body b s ≡ some s'
    → get id s'.pending_effects ≡ some EffectState.approved
    → Earned b s id
unfolding apply_body
apply_body-approved (EventBody.approval_granted e) s s' id h g =
    elim (granted-approved e.approval_id s id (cc)) [
      | inl old ↦ inl old
      | inr (p, q) ↦ inr (e.approval_id, refl, p, q)
    ]
apply_body-approved (EventBody.tool_requested e) s s' id h g =
    ground (arith, get-insert e.effect_id id EffectState.requested s.pending_effects)
apply_body-approved (EventBody.effect_dispatched e) s s' id h g =
    ground (arith, get-insert e.effect_id id EffectState.dispatched s.pending_effects)
apply_body-approved (EventBody.tool_result e) s s' id h g = ground (
  arith,
  get-insert e.effect_id id EffectState.denied s.pending_effects,
  get-insert e.effect_id id EffectState.settled s.pending_effects,
)
apply_body-approved (EventBody.approval_denied e) s s' id h g =
    inl (closed-approved e.approval_id s id (cc))
apply_body-approved (EventBody.approval_expired e) s s' id h g =
    inl (closed-approved e.approval_id s id (cc))
apply_body-approved _ s s' id h g = ground arith

apply_body-ledger :
    (b : EventBody) (s s' : RunState) (a : ApprovalId) (id : EffectId)
    → apply_body b s ≡ some s'
    → get a s'.pending_approvals ≡ some id
    → (asks b ≡ some (a, id)) ⊎ (get a s.pending_approvals ≡ some id)
unfolding apply_body
apply_body-ledger (EventBody.approval_granted e) s s' a id h g = ground (
  arith,
  on_approval_granted_lem e.approval_id s id,
  get-remove e.approval_id a s.pending_approvals,
)
apply_body-ledger (EventBody.approval_requested e) s s' a id h g =
    ground
      (arith, eq_iff e.approval_id a, get-insert e.approval_id a e.effect_id s.pending_approvals)
apply_body-ledger (EventBody.approval_denied e) s s' a id h g = ground (
  arith,
  on_approval_closed_lem e.approval_id s id,
  get-remove e.approval_id a s.pending_approvals,
)
apply_body-ledger (EventBody.approval_expired e) s s' a id h g = ground (
  arith,
  on_approval_closed_lem e.approval_id s id,
  get-remove e.approval_id a s.pending_approvals,
)
apply_body-ledger _ s s' a id h g = ground arith

-- The history opened the approval for the effect.
abbrev pub Asked : ApprovalId → EffectId → List Event → Type 0
Asked a id [] = ⊥
Asked a id (e ∷ history) = (asks e.body ≡ some (a, id)) ⊎ Asked a id history

-- The history granted an approval that it had opened for the effect before.
abbrev pub GrantedAfterAsk : EffectId → List Event → Type 0
GrantedAfterAsk id [] = ⊥
GrantedAfterAsk id (e ∷ history) =
    ((a : ApprovalId) × (grants e.body ≡ some a) × Asked a id history) ⊎ GrantedAfterAsk id history

Reaches-Asked :
    (run : RunId) (a : ApprovalId) (id : EffectId) {history : List Event} {s : RunState}
    → Reaches run history s
    → get a s.pending_approvals ≡ some id
    → Asked a id history
unfolding new get
Reaches-Asked run a id start g = cc
Reaches-Asked run a id (step {history} {s} r e s' h) g =
    elim (apply_body-ledger e.body (record s { last_seq = e.seq }) s' a id (reduce_at s e h) g) [
      | inl p ↦ inl p
      | inr p ↦ inr (Reaches-Asked run a id r p)
    ]

pub Reaches-GrantedAfterAsk :
    (run : RunId) (id : EffectId) {history : List Event} {s : RunState}
    → Reaches run history s
    → get id s.pending_effects ≡ some EffectState.approved
    → GrantedAfterAsk id history
unfolding new get
Reaches-GrantedAfterAsk run id start g = cc
Reaches-GrantedAfterAsk run id (step {history} {s} r e s' h) g =
    elim (apply_body-approved e.body (record s { last_seq = e.seq }) s' id (reduce_at s e h) g) [
      | inl old ↦ inr (Reaches-GrantedAfterAsk run id r old)
      | inr (a, p, q, _) ↦ inl (a, p, Reaches-Asked run a id r q)
    ]

-- When replaying a log leaves an effect approved, the log holds a grant of an approval that an
-- earlier event of the log had opened for this effect. Nothing else makes an effect ready to dispatch.
pub fold-approved :
    (run : RunId) (events : List Event) (s : RunState) (id : EffectId)
    → fold run events ≡ some s
    → get id s.pending_effects ≡ some EffectState.approved
    → GrantedAfterAsk id (rev events [])
fold-approved run events s id h g = Reaches-GrantedAfterAsk run id (fold-Reaches run events s h) g
