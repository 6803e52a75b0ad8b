-- ===== src/Daemon/Replay.antt =====
-- crates/evo-daemon/src/replay.rs. A state of `none` is a panic of `reduce`.
pub mod Verify
pub mod Snapshots
use evowork.Prelude.{
  ℕ, ◌+◌, String, Option, none, some, Bool, true, false, not, List, [], ◌∷◌, ◌++◌, ◌==◌,
  if◌then◌else◌, is_empty, unwrap_or, ◌&&◌,
}
use evowork.Prelude.Results.{Result}
use evowork.Prelude.Texts.{str_eq}
use evowork.Protocol.Base.{RunId}
use evowork.Protocol.Event.{EventBody, Event}
use evowork.Kernel.State.{RunState, new}
use evowork.Kernel.Hash.{Codec, state_hash, state_hash_hex}
use evowork.Kernel.Reduce.{reduce, reduce_all}
use evowork.Runlog.Store.{Serde, RunLog, RunLogError, last_seq, events}
use evowork.Daemon.Error.{DaemonError}
use evowork.Runlog.Snapshot.{Snapshot, snapshot_at_or_before}

pub record Mismatch : Type 0 where
  pub seq : ℕ
  pub expected : String
  pub actual : String

pub record VerifyReport : Type 0 where
  pub run_id : RunId
  pub checkpoints_checked : ℕ
  pub mismatches : List Mismatch
  pub final_state_hash : String

-- `VerifyReport::is_ok` and `VerifyReport::is_vacuous`.
abbrev pub report_is_ok : VerifyReport → Bool
report_is_ok report = is_empty report.mismatches

abbrev pub is_vacuous : VerifyReport → Bool
is_vacuous report = report.checkpoints_checked == 0

pub record SnapshotRejected : Type 0 where
  pub seq : ℕ
  pub expected : String
  pub actual : String

-- Equality of byte strings.
unfoldable pub bytes_eq : List ℕ → List ℕ → Bool
bytes_eq [] [] = true
bytes_eq [] (b ∷ bs) = false
bytes_eq (a ∷ rest) [] = false
bytes_eq (a ∷ rest) (b ∷ bs) = (a == b) && bytes_eq rest bs

-- The state and the number from which to replay, with the snapshot that was thrown away.
abbrev pub Start : Type 0
Start = RunState × ℕ × Option SnapshotRejected

-- The loop over the events that were read.
unfoldable pub replay_events :
    RunState
    → Option SnapshotRejected
    → Result (List Event) RunLogError
    → Result (Option RunState × Option SnapshotRejected) DaemonError
replay_events state rejected (Result.ok list) = Result.ok (reduce_all (some state) list, rejected)
replay_events state rejected (Result.err e) = Result.err (DaemonError.run_log e)

unfoldable pub drop_rejected :
    Result (Option RunState × Option SnapshotRejected) DaemonError
    → Result (Option RunState) DaemonError
drop_rejected (Result.ok (state, rejected)) = Result.ok state
drop_rejected (Result.err e) = Result.err e

unfoldable pub target_of : RunLog → RunId → Option ℕ → ℕ
target_of log run_id (some s) = s
target_of log run_id none = unwrap_or (last_seq log run_id) 0

module _ (codec : Codec) where
  unfoldable pub check_snapshot : RunId → Snapshot → RunState → Start
  check_snapshot run_id snap restored =
      if bytes_eq (state_hash codec restored) snap.state_hash then (restored, snap.seq, none) else (
        new run_id,
        0,
        some (record {
          seq = snap.seq;
          expected = codec.hex_encode snap.state_hash;
          actual = codec.hex_encode (state_hash codec restored);
        }),
      )

  unfoldable pub decoded : RunId → Snapshot → Result RunState String → Result Start DaemonError
  unfolding check_snapshot
  decoded run_id snap (Result.ok restored) = Result.ok (check_snapshot run_id snap restored)
  decoded run_id snap (Result.err detail) = Result.err (DaemonError.snapshot_decode snap.seq detail)

  unfoldable pub start_at : RunId → Option Snapshot → Result Start DaemonError
  unfolding decoded
  start_at run_id none = Result.ok (new run_id, 0, none)
  start_at run_id (some snap) = decoded run_id snap (codec.from_reader snap.state_blob)

  -- The comparison at one event: the count of checkpoints and the mismatches.
  compare_at : RunState → Event → EventBody → ℕ × List Mismatch → ℕ × List Mismatch
  compare_at state event (EventBody.checkpoint cp) (checked, mismatches) = (
    checked + 1,
    if str_eq (state_hash_hex codec state) cp.state_hash
        then mismatches
        else mismatches
          ++ record {
            seq = event.seq;
            expected = cp.state_hash;
            actual = state_hash_hex codec state;
          }
            ∷ [],
  )
  compare_at state event _ found = found

  unfoldable pub verify_events :
      RunId → Option RunState → ℕ × List Mismatch → List Event → Option VerifyReport
  unfolding compare_at
  verify_events run_id none found list = none
  verify_events run_id (some state) (checked, mismatches) [] = some (record {
    run_id = run_id;
    checkpoints_checked = checked;
    mismatches = mismatches;
    final_state_hash = state_hash_hex codec state;
  })
  verify_events run_id (some state) found (event ∷ list) =
      verify_events run_id (reduce state event) (compare_at state event event.body found) list

module _ (codec : Codec) (serde : Serde) where
  unfoldable pub replay_from :
      RunLog
      → RunId
      → ℕ
      → Result (Start) DaemonError
      → Result (Option RunState × Option SnapshotRejected) DaemonError
  unfolding replay_events
  replay_from log run_id target (Result.ok (state, from_seq, rejected)) =
      replay_events state rejected (events serde log run_id from_seq (some target))
  replay_from log run_id target (Result.err e) = Result.err e

  unfoldable pub replay_to_checked :
      RunLog
      → RunId
      → Option ℕ
      → Bool
      → Result (Option RunState × Option SnapshotRejected) DaemonError
  unfolding replay_from start_at target_of
  replay_to_checked log run_id to_seq use_snapshots =
      let target = target_of log run_id to_seq in
      replay_from log run_id target (
        start_at codec run_id
          (if use_snapshots then snapshot_at_or_before log run_id target else none))

  unfoldable pub replay_to : RunLog → RunId → Option ℕ → Bool → Result (Option RunState) DaemonError
  unfolding replay_to_checked drop_rejected
  replay_to log run_id to_seq use_snapshots =
      drop_rejected (replay_to_checked log run_id to_seq use_snapshots)

  verify_read : RunId → Result (List Event) RunLogError → Result (Option VerifyReport) DaemonError
  unfolding verify_events
  verify_read run_id (Result.ok list) =
      Result.ok (verify_events codec run_id (some (new run_id)) (0, []) list)
  verify_read run_id (Result.err e) = Result.err (DaemonError.run_log e)

  unfoldable pub verify : RunLog → RunId → Result (Option VerifyReport) DaemonError
  unfolding verify_read
  verify log run_id = verify_read run_id (events serde log run_id 0 none)
