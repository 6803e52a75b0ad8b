-- ===== src/Daemon/Consistency/InStep.antt =====
-- A run whose state, log and snapshots agree.
use evowork.Prelude.{
  ℕ, suc, ◌+◌, ◌≤◌, ◌<◌, String, some, Bool, true, false, List, [], ◌∷◌, ◌++◌, ◌≡◌, refl, subst, ap,
  ◌∙◌, arith, length, length-append, ltb, if◌then◌else◌,
}
use mathlib.Core.List.{append-nil}
use evowork.Prelude.Results.{Result}
use evowork.Prelude.Texts.{str_eq}
use evowork.Protocol.Base.{RunId}
use evowork.Protocol.Event.{Event}
use evowork.Kernel.State.{RunState}
use evowork.Kernel.Hash.{Codec, state_hash}
use evowork.Kernel.Reduce.{fold}
use evowork.Runlog.Store.{Serde, RunLog, SnapshotRow, filter}
use evowork.Runlog.Snapshot.{upsert}
use evowork.Runlog.Append.{filter-append}
use evowork.Runlog.Select.{Holds}
use evowork.Runlog.Numbered.{Numbered, none_before}
use evowork.Daemon.Replay.{bytes_eq}

Numbered-append :
    (n m : ℕ) (held ext : List Event)
    → Numbered n (held ++ ext)
    → n + length held ≡ m
    → Numbered m ext
Numbered-append n m [] ext h e = subst (λ k. Numbered k ext) (omega (arith, e)) h
Numbered-append n m (x ∷ held) ext (q, h) e =
    Numbered-append (suc n) m held ext h (omega (arith, e))

-- Later events do not show below a number that is already used.
pub filter-ltb_later :
    (seq : ℕ) (held ext : List Event)
    → Numbered 0 (held ++ ext)
    → seq ≤ length held
    → filter (λ e. ltb e.seq seq) (held ++ ext) ≡ filter (λ e. ltb e.seq seq) held
filter-ltb_later seq held ext h b =
    filter-append (λ e. ltb e.seq seq) held ext
    ∙ ap (λ xs. filter (λ e. ltb e.seq seq) held ++ xs)
        (none_before seq (length held) ext
          (Numbered-append 0 (length held) held ext h (omega arith)) b)
    ∙ append-nil (filter (λ e. ltb e.seq seq) held)

pub all_below :
    (n m : ℕ) (held : List Event)
    → Numbered n held
    → n + length held ≤ m
    → filter (λ e. ltb e.seq m) held ≡ held
all_below n m [] h b = refl
all_below n m (e ∷ held) (q, h) b = ground (arith, all_below (suc n) m held h)

module _ (codec : Codec) (run : RunId) where
  -- A snapshot that decodes and, where its hash says so, is the state before its number.
  abbrev pub IsHonest : List Event → SnapshotRow → Result RunState String → Type 0
  IsHonest held r (Result.err detail) = ⊥
  IsHonest held r (Result.ok restored) =
      bytes_eq (state_hash codec restored) r.state_hash ≡ true
      → fold run (filter (λ e. ltb e.seq r.seq) held) ≡ some restored

  abbrev pub RowIsHonest : List Event → SnapshotRow → Type 0
  RowIsHonest held r =
      str_eq r.run_id run ≡ true
      → (r.seq < length held) × IsHonest held r (codec.from_reader r.state_blob)

  abbrev pub Snapped : List Event → List SnapshotRow → Type 0
  Snapped held [] = Unit
  Snapped held (r ∷ rows) = RowIsHonest held r × Snapped held rows

  IsHonest-append :
      (held ext : List Event) (r : SnapshotRow) (result : Result RunState String)
      → Numbered 0 (held ++ ext)
      → r.seq < length held
      → IsHonest held r result
      → IsHonest (held ++ ext) r result
  IsHonest-append held ext r (Result.err detail) h b honest = honest
  IsHonest-append held ext r (Result.ok restored) h b honest =
      λ e. rw (filter-ltb_later r.seq held ext h (omega arith)) (honest e)

  pub Snapped-append :
      (held ext : List Event) (rows : List SnapshotRow)
      → Numbered 0 (held ++ ext)
      → Snapped held rows
      → Snapped (held ++ ext) rows
  Snapped-append held ext [] h s = tt
  Snapped-append held ext (r ∷ rows) h (a, s) = (
    λ e.
        let (b, honest) = a e in
        (
          omega (arith, length-append held ext),
          IsHonest-append held ext r (codec.from_reader r.state_blob) h b honest,
        ),
    Snapped-append held ext rows h s,
  )

  Snapped-if :
      (held : List Event) (b : Bool) (xs ys : List SnapshotRow)
      → Snapped held xs
      → Snapped held ys
      → Snapped held (if b then xs else ys)
  Snapped-if held true xs ys s t = s
  Snapped-if held false xs ys s t = t

  -- Recording an honest snapshot.
  pub Snapped-upsert :
      (held : List Event) (row : SnapshotRow) (rows : List SnapshotRow)
      → RowIsHonest held row
      → Snapped held rows
      → Snapped held (upsert row rows)
  unfolding upsert
  Snapped-upsert held row [] a s = (a, tt)
  Snapped-upsert held row (r ∷ rows) a (b, s) =
      Snapped-if held _ (row ∷ rows) (r ∷ upsert row rows) (a, s)
        (b, Snapped-upsert held row rows a s)

-- The run of a machine is in step: its state is the replay of the events that the log holds, and its
-- snapshots are honest.
pub record InStep (serde : Serde) (codec : Codec) (run : RunId) (s : RunState) (held : List Event)
    (log : RunLog) : Type 0 where
  pub holds : Holds serde run log held
  pub folds : fold run held ≡ some s
  pub snapped : Snapped codec run held log.snapshots
  pub same_run : s.run_id ≡ run
