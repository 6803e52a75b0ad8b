-- ===== src/Daemon/Consistency/Writes.antt =====
-- Steps of the daemon that write an event of a kind, and keep the run in step with its log.
use evowork.Prelude.{List, [], ◌∷◌, ◌++◌, sym, subst, arith, ◌⊎◌, inl, inr}
use mathlib.Core.List.{append_assoc, append-nil}
use evowork.Protocol.Base.{Actor}
use evowork.Protocol.Event.{EventBody, Event}
use evowork.Kernel.State.{RunState}
use evowork.Runlog.Store.{RunLog}
use evowork.Runlog.Numbered.{Holds-Numbered}
use evowork.Daemon.Action.{Outcome, and_then, ◌>>=◌}
use evowork.Daemon.Machine.{Machine, Step, emit}
use evowork.Daemon.Consistency.InStep.{InStep}
use evowork.Daemon.Consistency.Written.{IsFull, IsPlain}
use evowork.Daemon.Consistency.Emit.{Others, Emitted, emit-Emitted}
use evowork.Daemon.Consistency.Keeps.{Setting, InSync, After, Keeps}
use evowork.Daemon.Consistency.Emission.{StillFull, emit-StillFull}

module _ (c : Setting) where
  -- Among the events that a step has written, when it answers, is one that `P` holds of.
  abbrev pub Wrote :
      {A : Type 0}
      → (EventBody → Type 0)
      → (A → RunState)
      → Outcome (Machine c.env.World) A
      → Type 0
  Wrote P view (Outcome.ok a m) =
      IsFull m.log
      ⊎ ((before after : List Event) × (e : Event) × P e.body
          × InStep c.env.serde c.env.codec c.run (view a) ((c.base ++ before) ++ e ∷ after) m.log
          × Others c.env.serde c.run c.log0 m.log)
  Wrote P view (Outcome.err e m) = Unit
  Wrote P view Outcome.panicked = Unit

  pub record Writes {A : Type 0} (P : EventBody → Type 0) (s : RunState) (view : A → RunState)
      (op : Step c.env A) : Type 0 where
    pub after : (m : Machine c.env.World) → InSync c s m.log → Wrote P view (op m)

  emitted_wrote :
      (P : EventBody → Type 0) (body : EventBody) (ext : List Event) (log : RunLog)
      (o : Outcome (Machine c.env.World) RunState)
      → P body
      → Others c.env.serde c.run c.log0 log
      → Emitted c.env c.laws c.run body (c.base ++ ext) log o
      → Wrote P (λ a. a) o
  emitted_wrote P body ext log (Outcome.ok s m) p others (inl f) = inl f
  emitted_wrote P body ext log (Outcome.ok s m) p others (inr (e, i, q, b, o)) = inr (
    ext,
    [],
    e,
    subst P (sym b) p,
    i,
    record { kept = λ other held d h. o.kept other held d (others.kept other held d h) },
  )
  emitted_wrote P body ext log (Outcome.err e m) p others h = tt
  emitted_wrote P body ext log Outcome.panicked p others h = tt

  full_wrote :
      {A : Type 0} (P : EventBody → Type 0) (view : A → RunState)
      (o : Outcome (Machine c.env.World) A)
      → StillFull c o
      → Wrote P view o
  full_wrote P view (Outcome.ok a m) f = inl f
  full_wrote P view (Outcome.err e m) f = tt
  full_wrote P view Outcome.panicked f = tt

  -- The setting in which the events so far are the base.
  abbrev pub continued : List Event → Setting
  continued held = record c { base = held }

  -- Events that no log holds: their numbers begin at 1.
  abbrev impossible : List Event
  impossible =
      record {
        run_id = c.run;
        seq = 1;
        recorded_at = "";
        actor = Actor.kernel;
        schema_ver = 1;
        body = EventBody.approval_expired (record { approval_id = "" });
      }
      ∷ []

  module _ {B : Type 0} (P : EventBody → Type 0) (view : B → RunState) where
    still_full :
        (o : Outcome (Machine c.env.World) B) → After (continued impossible) view o → Wrote P view o
    still_full (Outcome.ok b m) (InSync.full f) = inl f
    still_full (Outcome.ok b m) (InSync.grown ext i others) =
        let (first, rest) = Holds-Numbered c.env.serde c.run m.log _ i.holds in
        absurd (omega (arith, first))
    still_full (Outcome.err e m) h = tt
    still_full Outcome.panicked h = tt

    still_wrote :
        (before after : List Event) (e : Event) (o : Outcome (Machine c.env.World) B)
        → P e.body
        → After (continued ((c.base ++ before) ++ e ∷ after)) view o
        → Wrote P view o
    still_wrote before after e (Outcome.ok b m) p (InSync.full f) = inl f
    still_wrote before after e (Outcome.ok b m) p (InSync.grown ext i others) = inr (
      before,
      after ++ ext,
      e,
      p,
      subst (λ held. InStep c.env.serde c.env.codec c.run (view b) held m.log)
          (append_assoc (c.base ++ before) (e ∷ after) ext) i,
      others,
    )
    still_wrote before after e (Outcome.err x m) p h = tt
    still_wrote before after e Outcome.panicked p h = tt

module _ (c : Setting) (P : EventBody → Type 0) where
  emit_wrote :
      (s : RunState) (actor : Actor) (body : EventBody) (m : Machine c.env.World)
      → IsPlain body
      → P body
      → InSync c s m.log
      → Wrote c P (λ a. a) (emit c.env s actor body m)
  emit_wrote s actor body m plain p (InSync.full f) =
      full_wrote c P (λ a. a) (emit c.env s actor body m) (emit-StillFull c s actor body m f)
  emit_wrote s actor body m plain p (InSync.grown ext i others) =
      emitted_wrote c P body ext m.log (emit c.env s actor body m) p others
        (emit-Emitted c.env c.laws c.run s actor body (c.base ++ ext) m plain i)

  pub emit-Writes :
      (s : RunState) (actor : Actor) (body : EventBody)
      → IsPlain body
      → P body
      → Writes c P s (λ a. a) (emit c.env s actor body)
  emit-Writes s actor body plain p = record { after = λ m i. emit_wrote s actor body m plain p i }

  module _ {A B : Type 0} {mid : A → RunState} {view : B → RunState} {k : A → Step c.env B} where
    after_wrote :
        (o : Outcome (Machine c.env.World) A)
        → Wrote c P mid o
        → ((base : List Event) (a : A) → Keeps (continued c base) (mid a) view (k a))
        → Wrote c P view (and_then k o)
    unfolding and_then
    after_wrote (Outcome.ok a m) (inl full) f =
        still_full c P view (k a m) ((f (impossible c) a).after m (InSync.full full))
    after_wrote (Outcome.ok a m) (inr (before, after, e, p, i, others)) f =
        let base = (c.base ++ before) ++ e ∷ after in
        still_wrote c P view before after e (k a m) p
          ((f base a).after m (InSync.grown [] (rw (append-nil base) i) others))
    after_wrote (Outcome.err e m) w f = tt
    after_wrote Outcome.panicked w f = tt

    -- What a step has written stays written by what follows.
    pub then-Keeps :
        {s : RunState} {op : Step c.env A}
        → Writes c P s mid op
        → ((base : List Event) (a : A) → Keeps (continued c base) (mid a) view (k a))
        → Writes c P s view (op >>= k)
    then-Keeps {s} {op} w f = record { after = λ m i. after_wrote (op m) (w.after m i) f }

    before_wrote :
        (o : Outcome (Machine c.env.World) A)
        → After c mid o
        → ((a : A) → Writes c P (mid a) view (k a))
        → Wrote c P view (and_then k o)
    unfolding and_then
    before_wrote (Outcome.ok a m) i f = (f a).after m i
    before_wrote (Outcome.err e m) i f = tt
    before_wrote Outcome.panicked i f = tt

    pub after-Keeps :
        {s : RunState} {op : Step c.env A}
        → Keeps c s mid op
        → ((a : A) → Writes c P (mid a) view (k a))
        → Writes c P s view (op >>= k)
    after-Keeps {s} {op} h f = record { after = λ m i. before_wrote (op m) (h.after m i) f }
