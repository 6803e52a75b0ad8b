-- ===== src/Daemon/Consistency/Emit.antt =====
-- `emit` of crates/evo-daemon/src/runtime.rs on a run that is in step.
use evowork.Prelude.{
  ℕ, ◌+◌, ◌^◌, ◌≤◌, ◌<◌, String, Option, none, some, false, List, [], ◌∷◌, ◌++◌, ◌≡◌, refl, arith,
  length, inl, inr, ◌⊎◌, ltb, Bool-cases, subst, sym, ◌∙◌, ap,
}
use evowork.Prelude.Results.{Result}
use evowork.Prelude.Texts.{str_eq}
use evowork.Protocol.Base.{RunId, Actor}
use evowork.Protocol.Event.{EventBody, Event}
use evowork.Kernel.State.{RunState, new}
use evowork.Kernel.Reduce.{reduce, reduce_all, fold}
use evowork.Kernel.History.{reduce_all-append}
use evowork.Runlog.Store.{Serde, RunLog, RunLogError, append}
use evowork.Runlog.Select.{Holds}
use evowork.Runlog.Numbered.{Holds-Numbered}
use evowork.Daemon.Action.{Outcome, and_then, or_panic, ◌>>◌}
use evowork.Daemon.Machine.{Env, Machine, ask, tell, appended, append_event, emit}
use evowork.Daemon.Consistency.InStep.{InStep, Snapped-append}
use evowork.Daemon.Consistency.Written.{
  IsFaithful, IsFull, Holds-length, Adds, append-Adds, AppendsIfOk, append-AppendsIfOk, IsPlain,
}

room : (n : ℕ) → (n + 1 < 2 ^ 63) ⊎ (2 ^ 63 ≤ n + 1)
room n = elim (Bool-cases (ltb (n + 1) (2 ^ 63))) [
  | inl h ↦ inl (ground arith)
  | inr h ↦ inr (ground arith)
]

reduce_same :
    (s s' : RunState) (e : Event)
    → reduce s e ≡ some s'
    → (s'.run_id ≡ s.run_id) × (s'.last_seq ≡ e.seq)
unfolding reduce
reduce_same s s' e h = ground arith

fold-snoc :
    (run : RunId) (held : List Event) (s s' : RunState) (e : Event)
    → fold run held ≡ some s
    → reduce s e ≡ some s'
    → fold run (held ++ e ∷ []) ≡ some s'
unfolding fold reduce_all
fold-snoc run held s s' e h k =
    reduce_all-append (some (new run)) held (e ∷ [])
    ∙ ap (λ o. reduce_all o (e ∷ [])) h
    ∙ ap (λ o. reduce_all o []) k

-- Every other run holds what it held.
pub record Others (serde : Serde) (run : RunId) (log log' : RunLog) : Type 0 where
  pub kept :
      (other : RunId) (others : List Event)
      → str_eq run other ≡ false
      → Holds serde other log others
      → Holds serde other log' others

module _ (env : Env) (laws : IsFaithful env.serde env.codec) (run : RunId) where
  -- One event more, and the state is that after it; or the table is full; or nothing was written.
  abbrev pub Emitted :
      EventBody → List Event → RunLog → Outcome (Machine env.World) RunState → Type 0
  Emitted body held log (Outcome.ok s m) =
      IsFull m.log
      ⊎ ((e : Event) × InStep env.serde env.codec run s (held ++ e ∷ []) m.log
          × (s.last_seq ≡ length held)
          × (e.body ≡ body)
          × Others env.serde run log m.log)
  Emitted body held log (Outcome.err e m) = m.log ≡ log
  Emitted body held log Outcome.panicked = Unit

  reduced :
      (body : EventBody) (s : RunState) (held : List Event) (log : RunLog) (m : Machine env.World)
      (e : Event) (o : Option RunState)
      → InStep env.serde env.codec run s held log
      → reduce s e ≡ o
      → e.seq ≡ length held
      → e.body ≡ body
      → Holds env.serde run m.log (held ++ e ∷ [])
      → m.log.snapshots ≡ log.snapshots
      → Others env.serde run log m.log
      → Emitted body held log (or_panic o m)
  reduced body s held log m e none i r q b h n f = tt
  reduced body s held log m e (some s') i r q b h n f =
      let (same, last) = reduce_same s s' e r in
      inr (
        e,
        record {
          holds = h;
          folds = fold-snoc run held s s' e i.folds r;
          snapped = rw n (
              Snapped-append env.codec run held (e ∷ []) log.snapshots
                (Holds-Numbered env.serde run m.log (held ++ e ∷ []) h) i.snapped);
          same_run = same ∙ i.same_run;
        },
        last ∙ q,
        b,
        f,
      )

  full-Emitted :
      (body : EventBody) (held : List Event) (log : RunLog) (m : Machine env.World)
      (o : Option RunState)
      → IsFull m.log
      → Emitted body held log (or_panic o m)
  full-Emitted body held log m none h = tt
  full-Emitted body held log m (some s) h = inl h

  module _ (s : RunState) (actor : Actor) (body : EventBody) (recorded_at : String) where
    -- The rest of `emit`, after the append.
    after_append :
        (held : List Event) (m : Machine env.World) (result : Result (RunLog × Event) RunLogError)
        → InStep env.serde env.codec run s held m.log
        → Adds env.serde m.log result
        → (length held + 1 < 2 ^ 63
            → AppendsIfOk env.serde env.codec laws run m.log held actor recorded_at body result)
        → Emitted body held m.log (
            and_then
              (λ event. tell env (env.send event) >> or_panic (reduce s event))
              (appended env m result))
    unfolding and_then appended tell
    after_append held m (Result.err e) i a f = refl
    after_append held m (Result.ok (log', e)) i (n, rows) f = elim (room (length held)) [
      | inl k ↦
          let (q, h, others) = f k in
          reduced body s held m.log
            (record { log = log'; blobs = m.blobs; world = env.send e m.world }) e (reduce s e) i
            refl (ap (λ x. x.seq) q) (ap (λ x. x.body) q) (rw q h) n (record { kept = others })
      | inr k ↦
          full-Emitted body held m.log
            (record { log = log'; blobs = m.blobs; world = env.send e m.world }) (reduce s e)
            (record {
              rows = omega (arith, k, rows, Holds-length env.serde run m.log held i.holds);
            })
    ]

  -- `emit` on a run in step.
  pub emit-Emitted :
      (s : RunState) (actor : Actor) (body : EventBody) (held : List Event) (m : Machine env.World)
      → IsPlain body
      → InStep env.serde env.codec run s held m.log
      → Emitted body held m.log (emit env s actor body m)
  unfolding emit append_event and_then ask
  emit-Emitted s actor body held m plain i =
      let (at, world) = env.now_rfc3339 m.world in
      let started : Machine env.World = record m { world = world } in
      subst
        (λ id. Emitted body held m.log (
          and_then (λ event. tell env (env.send event) >> or_panic (reduce s event))
            (appended env started (append env.serde m.log id actor at body))))
        (sym i.same_run)
        (after_append s actor body at held started (append env.serde m.log run actor at body) i
          (append-Adds env.serde m.log run actor at body)
          (append-AppendsIfOk env.serde env.codec laws run m.log held actor at body plain i.holds))
