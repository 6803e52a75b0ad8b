-- ===== src/Runlog/Latest.antt =====
-- `snapshot_at_or_before` of crates/evo-runlog/src/snapshot.rs answers with a snapshot in its range.
use evowork.Prelude.{ℕ, Option, none, some, Bool, true, ◌&&◌, List, [], ◌∷◌, ◌≡◌, arith}
use evowork.Prelude.Texts.{str_eq}
use evowork.Protocol.Base.{RunId}
use evowork.Runlog.Store.{RunLog, SnapshotRow, i64_leb, filter}
use evowork.Runlog.Snapshot.{Snapshot, latest, last_row, snapshot_of, snapshot_at_or_before}

-- A predicate of the row that is found, if one is.
Found : (SnapshotRow → Bool) → Option SnapshotRow → Type 0
Found p none = Unit
Found p (some r) = p r ≡ true

last_row-Found :
    (p : SnapshotRow → Bool) (rows : List SnapshotRow) → Found p (last_row (filter p rows))
unfolding Found last_row latest
last_row-Found p [] = tt
last_row-Found p (r ∷ rows) = ground (arith, last_row-Found p rows)

module _ (log : RunLog) (run_id : RunId) (seq : ℕ) where
  -- The number of the snapshot that is found, if one is, is not above the one asked for.
  abbrev pub AtOrBefore : Option Snapshot → Type 0
  AtOrBefore none = Unit
  AtOrBefore (some snap) = i64_leb snap.seq seq ≡ true

  snapshot_of-Found :
      (o : Option SnapshotRow)
      → Found (λ r. str_eq r.run_id run_id && i64_leb r.seq seq) o
      → AtOrBefore (snapshot_of o)
  unfolding Found snapshot_of
  snapshot_of-Found none h = tt
  snapshot_of-Found (some r) h = ground arith

  pub snapshot_at_or_before_lem : AtOrBefore (snapshot_at_or_before log run_id seq)
  unfolding snapshot_at_or_before
  snapshot_at_or_before_lem =
      snapshot_of-Found
        (last_row (filter (λ r. str_eq r.run_id run_id && i64_leb r.seq seq) log.snapshots))
        (last_row-Found (λ r. str_eq r.run_id run_id && i64_leb r.seq seq) log.snapshots)
