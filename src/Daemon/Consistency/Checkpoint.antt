-- ===== src/Daemon/Consistency/Checkpoint.antt =====
-- `checkpoint` of crates/evo-daemon/src/runtime.rs: its snapshot is the state before its number.
use evowork.Prelude.{
  String, some, List, [], ◌∷◌, ◌++◌, ◌≡◌, refl, arith, length, length-append, inl, inr, ltb, sym,
  ◌∙◌, ap, subst,
}
use mathlib.Core.List.{append_assoc}
use evowork.Prelude.Results.{Result}
use evowork.Protocol.Base.{RunId, Actor}
use evowork.Protocol.Accounting.{CheckpointReason}
use evowork.Protocol.Event.{EventBody, Event}
use evowork.Kernel.State.{RunState}
use evowork.Kernel.Hash.{Codec, state_hash}
use evowork.Kernel.Reduce.{fold}
use evowork.Runlog.Store.{RunLog, SnapshotRow, filter}
use evowork.Runlog.Snapshot.{put_snapshot}
use evowork.Runlog.Numbered.{Numbered, Holds-Numbered}
use evowork.Daemon.Action.{Outcome, Action, and_then, pure, ◌>>◌}
use evowork.Daemon.Machine.{Machine, store_snapshot, checkpoint}
use evowork.Daemon.Consistency.InStep.{
  InStep, IsHonest, Snapped-upsert, filter-ltb_later, all_below,
}
use evowork.Daemon.Consistency.Written.{Decodes}
use evowork.Daemon.Consistency.Emit.{Others, Emitted, emit-Emitted}
use evowork.Daemon.Consistency.Keeps.{Setting, InSync, After, Keeps}
use evowork.Daemon.Consistency.Emission.{StillFull, StillFull-After, emit-StillFull}

-- The events before the last one.
before_last :
    (held : List Event) (e : Event)
    → Numbered 0 (held ++ e ∷ [])
    → Numbered 0 held
    → filter (λ x. ltb x.seq (length held)) (held ++ e ∷ []) ≡ held
before_last held e h k =
    filter-ltb_later (length held) held (e ∷ []) h (omega arith)
    ∙ all_below 0 (length held) held k (omega arith)

IsHonest-taken :
    (codec : Codec) (run : RunId) (s : RunState) (held : List Event) (e : Event) (r : SnapshotRow)
    (result : Result RunState String)
    → fold run held ≡ some s
    → Numbered 0 (held ++ e ∷ [])
    → Numbered 0 held
    → r.seq ≡ length held
    → r.state_hash ≡ state_hash codec s
    → Decodes codec s result
    → IsHonest codec run (held ++ e ∷ []) r result
IsHonest-taken codec run s held e r (Result.err detail) f h k q g d = d
IsHonest-taken codec run s held e r (Result.ok t) f h k q g d =
    λ b. rw (q, before_last held e h k) (f ∙ ap some (sym (d (rw⁻¹ g b))))

module _ (c : Setting) where
  -- What `checkpoint` does after its event.
  abbrev rest : RunState → RunState → Action (Machine c.env.World) RunState
  rest s new_state =
      store_snapshot c.env new_state.run_id new_state.last_seq (c.env.codec.into_writer s)
        (state_hash c.env.codec s)
      >> pure new_state

  abbrev row_of : RunState → RunState → SnapshotRow
  row_of s s' = record {
    run_id = s'.run_id;
    seq = s'.last_seq;
    state_blob = c.env.codec.into_writer s;
    state_hash = state_hash c.env.codec s;
  }

  InStep-put_snapshot :
      (s s' : RunState) (held : List Event) (e : Event) (log : RunLog)
      → fold c.run held ≡ some s
      → Numbered 0 held
      → s'.last_seq ≡ length held
      → InStep c.env.serde c.env.codec c.run s' (held ++ e ∷ []) log
      → InStep c.env.serde c.env.codec c.run s' (held ++ e ∷ []) (
          put_snapshot log s'.run_id s'.last_seq
            (c.env.codec.into_writer s)
            (state_hash c.env.codec s))
  unfolding put_snapshot
  InStep-put_snapshot s s' held e log f k q i = record {
    holds = i.holds;
    folds = i.folds;
    snapped =
        Snapped-upsert c.env.codec c.run (held ++ e ∷ []) (row_of s s') log.snapshots
          (λ same. (
            omega (arith, q, length-append held (e ∷ [])),
            IsHonest-taken c.env.codec c.run s held e (row_of s s')
                (c.env.codec.from_reader (c.env.codec.into_writer s)) f
                (Holds-Numbered c.env.serde c.run log (held ++ e ∷ []) i.holds) k q refl
                (c.laws.state s),
          ))
          i.snapped;
    same_run = i.same_run;
  }

  after_snapshot :
      (body : EventBody) (s : RunState) (ext : List Event) (log : RunLog)
      (o : Outcome (Machine c.env.World) RunState)
      → InStep c.env.serde c.env.codec c.run s (c.base ++ ext) log
      → Others c.env.serde c.run c.log0 log
      → Emitted c.env c.laws c.run body (c.base ++ ext) log o
      → After c (λ a. a) (and_then (rest s) o)
  unfolding and_then store_snapshot put_snapshot
  after_snapshot body s ext log (Outcome.ok s' m) i others (inl f) =
      InSync.full (record { rows = f.rows })
  after_snapshot body s ext log (Outcome.ok s' m) i others (inr (e, i', q, b, o)) =
      InSync.grown (ext ++ e ∷ [])
        (subst
          (λ held. InStep c.env.serde c.env.codec c.run s' held (
            put_snapshot m.log s'.run_id s'.last_seq (c.env.codec.into_writer s)
              (state_hash c.env.codec s)))
          (append_assoc c.base ext (e ∷ []))
          (InStep-put_snapshot s s' (c.base ++ ext) e m.log i.folds
            (Holds-Numbered c.env.serde c.run log (c.base ++ ext) i.holds) q i'))
        (record { kept = λ other held d h. o.kept other held d (others.kept other held d h) })
  after_snapshot body s ext log (Outcome.err e m) i others h =
      (s, subst (λ l. InSync c s l) (sym h) (InSync.grown ext i others))
  after_snapshot body s ext log Outcome.panicked i others h = tt

  full_snapshot :
      (s : RunState) (o : Outcome (Machine c.env.World) RunState)
      → StillFull c o
      → StillFull c (and_then (rest s) o)
  unfolding and_then store_snapshot put_snapshot
  full_snapshot s (Outcome.ok s' m) f = record { rows = f.rows }
  full_snapshot s (Outcome.err e m) f = f
  full_snapshot s Outcome.panicked f = tt

  checkpoint-InSync :
      (s : RunState) (reason : CheckpointReason) (m : Machine c.env.World)
      → InSync c s m.log
      → After c (λ a. a) (checkpoint c.env s reason m)
  unfolding checkpoint
  checkpoint-InSync s reason m (InSync.full f) =
      StillFull-After c s _ (full_snapshot s _ (emit-StillFull c s Actor.kernel _ m f))
  checkpoint-InSync s reason m (InSync.grown ext i others) =
      after_snapshot _ s ext m.log _ i others
        (emit-Emitted c.env c.laws c.run s Actor.kernel _ (c.base ++ ext) m tt i)

module _ {c : Setting} where
  pub checkpoint-Keeps :
      (s : RunState) (reason : CheckpointReason) → Keeps c s (λ a. a) (checkpoint c.env s reason)
  checkpoint-Keeps s reason = record { after = checkpoint-InSync c s reason }
