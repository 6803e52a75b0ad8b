-- ===== src/Kernel/Approvals.antt =====
-- Approvals in crates/evo-kernel/src/reduce.rs: what an approval changes, and what it takes to have one.
use evowork.Prelude.{
  Option, none, some, Bool, true, false, ◌&&◌, ◌≡◌, arith, if◌then◌else◌, inl, inr, Option-cases,
  is_some, ◌+◌,
}
use evowork.Prelude.BTreeMap.{get, remove, get-insert, values_all}
use evowork.Prelude.Words.{u32}
use evowork.Prelude.Texts.{str_eq, eq_iff}
use evowork.Protocol.Base.{EffectId, ApprovalId}
use evowork.Kernel.State.{is_resolved, RunState, EffectState}
use evowork.Kernel.Reduce.{on_approval_granted, on_approval_closed}

-- Whether the approval is open for the effect.
abbrev pub opens : Option EffectId → EffectId → Bool
opens none id = false
opens (some f) id = str_eq f id

abbrev pub is_requested : Option EffectState → Bool
is_requested (some EffectState.requested) = true
is_requested _ = false

-- A grant removes the approval from the ledger. It turns the effect of that approval into `approved`
-- if the effect is `requested` still, and changes the state of no other effect, and of no effect in
-- any other state; neither the status nor what the run waits for changes.
pub on_approval_granted_lem :
    (a : ApprovalId) (s : RunState) (id : EffectId)
    → (get id (on_approval_granted a s).pending_effects ≡ (
        if opens (get a s.pending_approvals) id && is_requested (get id s.pending_effects)
        then some EffectState.approved
        else get id s.pending_effects))
      × ((on_approval_granted a s).pending_approvals ≡ remove a s.pending_approvals)
      × ((on_approval_granted a s).awaiting ≡ s.awaiting)
      × ((on_approval_granted a s).status ≡ s.status)
unfolding on_approval_granted
on_approval_granted_lem a s id = elim (Option-cases (get a s.pending_approvals)) [
  | inl p ↦ ground arith
  | inr (f, p) ↦ ground (arith, eq_iff f id, get-insert f id EffectState.approved s.pending_effects)
]

-- A denial and an expiry remove the approval from the ledger and turn its effect into `denied`,
-- whatever its state; no other effect changes. The turn advances exactly if there was such an
-- approval and every effect is resolved now.
pub on_approval_closed_lem :
    (a : ApprovalId) (s : RunState) (id : EffectId)
    → (get id (on_approval_closed a s).pending_effects ≡ (
        if opens (get a s.pending_approvals) id
        then some EffectState.denied
        else get id s.pending_effects))
      × ((on_approval_closed a s).pending_approvals ≡ remove a s.pending_approvals)
      × ((on_approval_closed a s).awaiting ≡ s.awaiting)
      × ((on_approval_closed a s).turn ≡ (
          if is_some (get a s.pending_approvals)
            && values_all is_resolved (on_approval_closed a s).pending_effects
          then u32 (s.turn + 1)
          else s.turn))
unfolding on_approval_closed
on_approval_closed_lem a s id = elim (Option-cases (get a s.pending_approvals)) [
  | inl p ↦ ground arith
  | inr (f, p) ↦ ground (arith, eq_iff f id, get-insert f id EffectState.denied s.pending_effects)
]
