-- ===== src/Daemon/Consistency/Restore.antt =====
-- `replay_to` of crates/evo-daemon/src/replay.rs restores the state of a run that is in step.
use evowork.Prelude.{
  ℕ, suc, ◌+◌, ◌^◌, ◌≤◌, ◌<◌, String, Option, none, some, Bool, true, false, ◌&&◌, List, [], ◌∷◌,
  ◌≡◌, refl, ap, ◌∙◌, arith, length, Bool-cases, inl, inr, unwrap_or, if◌then◌else◌,
}
use evowork.Prelude.Results.{Result}
use evowork.Prelude.Texts.{str_eq}
use evowork.Protocol.Base.{RunId}
use evowork.Protocol.Event.{Event}
use evowork.Kernel.State.{RunState}
use evowork.Kernel.Hash.{Codec}
use evowork.Kernel.Reduce.{fold}
use evowork.Runlog.Store.{Serde, Row, RunLog, SnapshotRow, filter, i64_leb, max_seq, last_seq}
use evowork.Runlog.Snapshot.{latest, last_row, snapshot_of, snapshot_at_or_before}
use evowork.Runlog.Select.{is_of, within, Stores, Holds}
use evowork.Runlog.Numbered.{Numbered, Holds-Numbered}
use evowork.Runlog.Append.{max_seq_stored}
use evowork.Daemon.Replay.{target_of, replay_to}
use evowork.Daemon.Replay.Snapshots.{HonestState, Honest, replay_to_lem}
use evowork.Daemon.Consistency.InStep.{IsHonest, Snapped, InStep}

-- Every event up to the last number is read.
within_last :
    (n t : ℕ) (held : List Event)
    → Numbered n held
    → n + length held ≤ t + 1
    → t < 2 ^ 63
    → filter (λ e. within 0 (some t) e.seq) held ≡ held
within_last n t [] h b k = refl
within_last n t (e ∷ held) (q, h) b k = ground (arith, within_last (suc n) t held h)

module _ (serde : Serde) (codec : Codec) (run : RunId) where
  max_seq_bounds :
      (rows : List Row) (held : List Event)
      → Stores serde run 0 rows held
      → length held < 2 ^ 63
      → (length held ≤ unwrap_or (max_seq rows) 0 + 1) × (unwrap_or (max_seq rows) 0 < 2 ^ 63)
  unfolding max_seq
  max_seq_bounds [] [] s b = omega arith
  max_seq_bounds [] (e ∷ held) s b = absurd s
  max_seq_bounds (r ∷ rows) [] s b = absurd s
  max_seq_bounds (r ∷ rows) (e ∷ held) s b =
      ground (arith, max_seq_stored serde run 0 (r ∷ rows) e held s)

  target_bounds :
      (log : RunLog) (held : List Event)
      → Holds serde run log held
      → (length held ≤ target_of log run none + 1) × (target_of log run none < 2 ^ 63)
  unfolding target_of last_seq
  target_bounds log held (s, b) = max_seq_bounds (filter (is_of run) log.run_events) held s b

  -- A row that the query selects, if one is, is honest.
  Selected : List Event → Option SnapshotRow → Type 0
  Selected held none = Unit
  Selected held (some r) =
      (r.seq < length held) × IsHonest codec run held r (codec.from_reader r.state_blob)

  latest-Selected :
      (held : List Event) (r : SnapshotRow) (o : Option SnapshotRow)
      → Selected held (some r)
      → Selected held o
      → Selected held (some (latest r o))
  unfolding latest
  latest-Selected held r none a s = a
  latest-Selected held r (some t) a s = elim (Bool-cases (i64_leb t.seq r.seq)) [
    | inl e ↦ rw e a
    | inr e ↦ rw e s
  ]

  chosen-Selected :
      (held : List Event) (r : SnapshotRow) (rows : List SnapshotRow) (b : Bool)
      → (b ≡ true → Selected held (some r))
      → Selected held (last_row rows)
      → Selected held (last_row (if b then r ∷ rows else rows))
  unfolding last_row
  chosen-Selected held r rows true a s = latest-Selected held r (last_row rows) (a refl) s
  chosen-Selected held r rows false a s = s

  left_true : (a b : Bool) → a && b ≡ true → a ≡ true
  left_true true b e = refl
  left_true false b e = e

  last_row-Selected :
      (held : List Event) (seq : ℕ) (rows : List SnapshotRow)
      → Snapped codec run held rows
      → Selected held (last_row (filter (λ r. str_eq r.run_id run && i64_leb r.seq seq) rows))
  unfolding last_row Selected
  last_row-Selected held seq [] s = tt
  last_row-Selected held seq (r ∷ rows) (a, s) =
      chosen-Selected held r (filter (λ r. str_eq r.run_id run && i64_leb r.seq seq) rows)
        (str_eq r.run_id run && i64_leb r.seq seq) (λ e. a (left_true _ _ e))
        (last_row-Selected held seq rows s)

  honest_of :
      (log : RunLog) (held : List Event) (r : SnapshotRow) (result : Result RunState String)
      → IsHonest codec run held r result
      → HonestState codec serde log run held
          (record { seq = r.seq; state_blob = r.state_blob; state_hash = r.state_hash })
          result
  honest_of log held r (Result.err detail) h = h
  honest_of log held r (Result.ok restored) h = h

  Selected-Honest :
      (log : RunLog) (held : List Event) (o : Option SnapshotRow)
      → length held < 2 ^ 63
      → Selected held o
      → Honest codec serde log run held (snapshot_of o)
  unfolding Selected snapshot_of
  Selected-Honest log held none b s = tt
  Selected-Honest log held (some r) b (k, h) =
      (omega arith, honest_of log held r (codec.from_reader r.state_blob) h)

  found-Honest :
      (log : RunLog) (held : List Event) (t : ℕ)
      → length held < 2 ^ 63
      → Snapped codec run held log.snapshots
      → Honest codec serde log run held (snapshot_at_or_before log run t)
  unfolding snapshot_at_or_before
  found-Honest log held t b s =
      Selected-Honest log held _ b (last_row-Selected held t log.snapshots s)

  -- A run in step is restored to its state.
  pub replay_to-InStep :
      (s : RunState) (held : List Event) (log : RunLog)
      → InStep serde codec run s held log
      → replay_to codec serde log run none true ≡ Result.ok (some s)
  replay_to-InStep s held log i =
      let (lo, hi) = target_bounds log held i.holds in
      replay_to_lem codec serde log run held none true i.holds hi
        (found-Honest log held (target_of log run none) i.holds.1 i.snapped)
      ∙ ap (λ xs. Result.ok (fold run xs))
          (within_last 0 (target_of log run none) held (Holds-Numbered serde run log held i.holds)
            (omega (arith, lo)) hi)
      ∙ ap Result.ok i.folds
