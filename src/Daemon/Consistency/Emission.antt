-- ===== src/Daemon/Consistency/Emission.antt =====
-- `emit` of crates/evo-daemon/src/runtime.rs keeps a run in step, or the table full.
use evowork.Prelude.{Option, none, some, List, [], ◌∷◌, ◌++◌, arith, inl, inr, subst, sym}
use mathlib.Core.List.{append_assoc}
use evowork.Prelude.Results.{Result}
use evowork.Protocol.Base.{Actor}
use evowork.Protocol.Event.{EventBody, Event}
use evowork.Kernel.State.{RunState}
use evowork.Kernel.Reduce.{reduce}
use evowork.Runlog.Store.{RunLog, RunLogError, append}
use evowork.Daemon.Action.{Outcome, or_panic, and_then, ◌>>◌}
use evowork.Daemon.Machine.{Machine, ask, tell, appended, append_event, emit}
use evowork.Daemon.Consistency.InStep.{InStep}
use evowork.Daemon.Consistency.Written.{IsPlain, IsFull, append-Adds, Adds}
use evowork.Daemon.Consistency.Emit.{Others, Emitted, emit-Emitted}
use evowork.Daemon.Consistency.Keeps.{Setting, InSync, After, Keeps}

module _ (c : Setting) where
  -- A table that is full stays full.
  abbrev pub StillFull : {A : Type 0} → Outcome (Machine c.env.World) A → Type 0
  StillFull (Outcome.ok a m) = IsFull m.log
  StillFull (Outcome.err e m) = IsFull m.log
  StillFull Outcome.panicked = Unit

  pub StillFull-After :
      (s : RunState) (o : Outcome (Machine c.env.World) RunState) → StillFull o → After c (λ a. a) o
  StillFull-After s (Outcome.ok a m) f = InSync.full f
  StillFull-After s (Outcome.err e m) f = (s, InSync.full f)
  StillFull-After s Outcome.panicked f = tt

  full_rest :
      (s : RunState) (m : Machine c.env.World) (result : Result (RunLog × Event) RunLogError)
      → IsFull m.log
      → Adds c.env.serde m.log result
      → StillFull (
          and_then
            (λ event. tell c.env (c.env.send event) >> or_panic (reduce s event))
            (appended c.env m result))
  unfolding and_then appended tell
  full_rest s m (Result.err e) f a = f
  full_rest s m (Result.ok (log', e)) f (n, rows) =
      after_or_panic (reduce s e)
        (record { log = log'; blobs = m.blobs; world = c.env.send e m.world })
        (record { rows = omega (arith, f.rows, rows) })
    where
      after_or_panic :
          (o : Option RunState) (m' : Machine c.env.World)
          → IsFull m'.log
          → StillFull (or_panic o m')
      after_or_panic none m' f = tt
      after_or_panic (some s') m' f = f

  pub emit-StillFull :
      (s : RunState) (actor : Actor) (body : EventBody) (m : Machine c.env.World)
      → IsFull m.log
      → StillFull (emit c.env s actor body m)
  unfolding emit append_event and_then ask
  emit-StillFull s actor body m f =
      let (at, world) = c.env.now_rfc3339 m.world in
      full_rest s (record m { world = world }) (append c.env.serde m.log s.run_id actor at body) f
        (append-Adds c.env.serde m.log s.run_id actor at body)

  After_emitted :
      (body : EventBody) (s : RunState) (ext : List Event) (log : RunLog)
      (o : Outcome (Machine c.env.World) RunState)
      → InStep c.env.serde c.env.codec c.run s (c.base ++ ext) log
      → Others c.env.serde c.run c.log0 log
      → Emitted c.env c.laws c.run body (c.base ++ ext) log o
      → After c (λ a. a) o
  After_emitted body s ext log (Outcome.ok s' m) i others (inl f) = InSync.full f
  After_emitted body s ext log (Outcome.ok s' m) i others (inr (e, i', q, b, o)) =
      InSync.grown (ext ++ e ∷ [])
        (subst (λ held. InStep c.env.serde c.env.codec c.run s' held m.log)
          (append_assoc c.base ext (e ∷ [])) i')
        (record { kept = λ other held d h. o.kept other held d (others.kept other held d h) })
  After_emitted body s ext log (Outcome.err e m) i others h =
      (s, subst (λ l. InSync c s l) (sym h) (InSync.grown ext i others))
  After_emitted body s ext log Outcome.panicked i others h = tt

  emit-InSync :
      (s : RunState) (actor : Actor) (body : EventBody) (m : Machine c.env.World)
      → IsPlain body
      → InSync c s m.log
      → After c (λ a. a) (emit c.env s actor body m)
  emit-InSync s actor body m plain (InSync.full f) =
      StillFull-After s (emit c.env s actor body m) (emit-StillFull s actor body m f)
  emit-InSync s actor body m plain (InSync.grown ext i others) =
      After_emitted body s ext m.log (emit c.env s actor body m) i others
        (emit-Emitted c.env c.laws c.run s actor body (c.base ++ ext) m plain i)

module _ {c : Setting} where
  pub emit-Keeps :
      (s : RunState) (actor : Actor) (body : EventBody)
      → IsPlain body
      → Keeps c s (λ a. a) (emit c.env s actor body)
  emit-Keeps s actor body plain = record { after = λ m i. emit-InSync c s actor body m plain i }
