-- ===== src/Daemon/Replay/Snapshots.antt =====
-- Snapshots in crates/evo-daemon/src/replay.rs only save work: they never change the state.
use evowork.Prelude.{
  ℕ, ◌^◌, ◌≤◌, ◌<◌, Option, none, some, Bool, true, false, List, ◌≡◌, refl, arith, ltb, String,
  Bool-cases, inl, inr,
}
use evowork.Prelude.Results.{Result}
use evowork.Protocol.Base.{RunId}
use evowork.Protocol.Event.{Event}
use evowork.Kernel.State.{RunState, new}
use evowork.Kernel.Hash.{Codec, state_hash}
use evowork.Kernel.Reduce.{fold}
use evowork.Kernel.History.{reduce_all-append}
use evowork.Runlog.Store.{Serde, RunLog, filter}
use evowork.Runlog.Select.{Holds, events-Holds, within, i64_leb_small}
use evowork.Runlog.Numbered.{Holds-Numbered, within_split}
use evowork.Runlog.Latest.{AtOrBefore, snapshot_at_or_before_lem}
use evowork.Runlog.Snapshot.{Snapshot, snapshot_at_or_before}
use evowork.Daemon.Replay.{
  bytes_eq, check_snapshot, decoded, start_at, replay_events, replay_from, drop_rejected, target_of,
  replay_to_checked, replay_to,
}

module _ (codec : Codec) (serde : Serde) (log : RunLog) (run_id : RunId) (held : List Event) where
  -- The blob decodes, and if the state's hash is the one in the row, then it is the state that the
  -- events before the snapshot lead to.
  abbrev pub HonestState : Snapshot → Result RunState String → Type 0
  HonestState snap (Result.err detail) = ⊥
  HonestState snap (Result.ok restored) =
      bytes_eq (state_hash codec restored) snap.state_hash ≡ true
      → fold run_id (filter (λ e. ltb e.seq snap.seq) held) ≡ some restored

  abbrev pub Honest : Option Snapshot → Type 0
  Honest none = Unit
  Honest (some snap) = (snap.seq < 2 ^ 63) × HonestState snap (codec.from_reader snap.state_blob)

  -- The state that the events up to a number lead to.
  abbrev pub state_at : ℕ → Option RunState
  state_at target = fold run_id (filter (λ e. within 0 (some target) e.seq) held)

  replay_from_start :
      (target : ℕ)
      → Holds serde run_id log held
      → drop_rejected (replay_from codec serde log run_id target (start_at codec run_id none))
        ≡ Result.ok (state_at target)
  unfolding replay_from start_at drop_rejected fold replay_events
  replay_from_start target h = rw (events-Holds serde run_id log held 0 (some target) h) refl

  replay_from_snapshot :
      (target : ℕ) (snap : Snapshot) (restored : RunState)
      → Holds serde run_id log held
      → target < 2 ^ 63
      → snap.seq ≤ target
      → (bytes_eq (state_hash codec restored) snap.state_hash ≡ true
          → fold run_id (filter (λ e. ltb e.seq snap.seq) held) ≡ some restored)
      → drop_rejected (
          replay_from codec serde log run_id target
            (Result.ok (check_snapshot codec run_id snap restored)))
        ≡ Result.ok (state_at target)
  unfolding replay_from drop_rejected fold replay_events check_snapshot
  replay_from_snapshot target snap restored h l k f =
      elim (Bool-cases (bytes_eq (state_hash codec restored) snap.state_hash)) [
        | inl p ↦
            rw
              (
                p,
                events-Holds serde run_id log held snap.seq (some target) h,
                within_split snap.seq target 0 held (Holds-Numbered serde run_id log held h)
                    (omega (arith, h.1)) k l,
                reduce_all-append (some (new run_id)) (filter (λ e. ltb e.seq snap.seq) held)
                    (filter (λ e. within snap.seq (some target) e.seq) held),
                f p,
              )
              refl
        | inr p ↦ rw (p, events-Holds serde run_id log held 0 (some target) h) refl
      ]

  replay_from_found :
      (target : ℕ) (found : Option Snapshot)
      → Holds serde run_id log held
      → target < 2 ^ 63
      → AtOrBefore log run_id target found
      → Honest found
      → drop_rejected (replay_from codec serde log run_id target (start_at codec run_id found))
        ≡ Result.ok (state_at target)
  unfolding start_at decoded
  replay_from_found target none h l a o = replay_from_start target h
  replay_from_found target (some snap) h l a (n, o) = go (codec.from_reader snap.state_blob) o
    where
      go :
          (r : Result RunState String)
          → HonestState snap r
          → drop_rejected (replay_from codec serde log run_id target (decoded codec run_id snap r))
            ≡ Result.ok (state_at target)
      go (Result.err detail) f = absurd f
      go (Result.ok restored) f =
          replay_from_snapshot target snap restored h l (i64_leb_small snap.seq target l a n) f

  -- Replaying a run to a number below 2^63 gives the state that the events held up to it lead to, with
  -- snapshots and without them, so long as the snapshot in use decodes, has a number below 2^63, and
  -- is the state before its checkpoint where its hash says so. A snapshot whose hash is wrong never
  -- changes the state.
  pub replay_to_lem :
      (to_seq : Option ℕ) (use_snapshots : Bool)
      → Holds serde run_id log held
      → target_of log run_id to_seq < 2 ^ 63
      → Honest (snapshot_at_or_before log run_id (target_of log run_id to_seq))
      → replay_to codec serde log run_id to_seq use_snapshots
        ≡ Result.ok (state_at (target_of log run_id to_seq))
  unfolding replay_to replay_to_checked
  replay_to_lem to_seq true h l o =
      replay_from_found (target_of log run_id to_seq)
        (snapshot_at_or_before log run_id (target_of log run_id to_seq)) h l
        (snapshot_at_or_before_lem log run_id (target_of log run_id to_seq)) o
  replay_to_lem to_seq false h l o = replay_from_start (target_of log run_id to_seq) h
