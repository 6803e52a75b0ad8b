-- ===== src/Runlog/Snapshot.antt =====
-- crates/evo-runlog/src/snapshot.rs
use evowork.Prelude.{ℕ, Option, none, some, ◌&&◌, List, [], ◌∷◌, ◌==◌, if◌then◌else◌, length}
use evowork.Prelude.Texts.{str_eq}
use evowork.Protocol.Base.{RunId}
use evowork.Runlog.Store.{RunLog, SnapshotRow, i64_leb, filter}

pub record Snapshot : Type 0 where
  pub seq : ℕ
  pub state_blob : List ℕ
  pub state_hash : List ℕ

-- `INSERT INTO snapshots ... ON CONFLICT(run_id, seq) DO UPDATE`
unfoldable pub upsert : SnapshotRow → List SnapshotRow → List SnapshotRow
upsert row [] = row ∷ []
upsert row (r ∷ rows) =
    if str_eq r.run_id row.run_id && (r.seq == row.seq) then row ∷ rows else r ∷ upsert row rows

unfoldable pub put_snapshot : RunLog → RunId → ℕ → List ℕ → List ℕ → RunLog
unfolding upsert
put_snapshot log run_id seq state_blob state_hash = record log {
  snapshots =
      upsert
        (record { run_id = run_id; seq = seq; state_blob = state_blob; state_hash = state_hash })
        log.snapshots;
}

-- `ORDER BY seq DESC LIMIT 1`
unfoldable pub latest : SnapshotRow → Option SnapshotRow → SnapshotRow
latest r none = r
latest r (some t) = if i64_leb t.seq r.seq then r else t

unfoldable pub last_row : List SnapshotRow → Option SnapshotRow
unfolding latest
last_row [] = none
last_row (r ∷ rows) = some (latest r (last_row rows))

unfoldable pub snapshot_of : Option SnapshotRow → Option Snapshot
snapshot_of none = none
snapshot_of (some r) =
    some (record { seq = r.seq; state_blob = r.state_blob; state_hash = r.state_hash })

unfoldable pub snapshot_at_or_before : RunLog → RunId → ℕ → Option Snapshot
unfolding last_row snapshot_of
snapshot_at_or_before log run_id seq =
    snapshot_of (last_row (filter (λ r. str_eq r.run_id run_id && i64_leb r.seq seq) log.snapshots))

unfoldable pub snapshot_count : RunLog → ℕ
snapshot_count log = length log.snapshots

unfoldable pub clear_snapshots : RunLog → RunLog × ℕ
clear_snapshots log = (record log { snapshots = [] }, length log.snapshots)
