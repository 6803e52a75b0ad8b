-- ===== src/Daemon/Examples.antt =====
-- The theorems on replay at a concrete log.
use evowork.Prelude.{some, true, [], ◌∷◌, ◌≡◌, refl, arith}
use evowork.Prelude.Results.{Result}
use evowork.Kernel.Hash.{Codec, hex_bytes}
use evowork.Kernel.Reduce.{reduce, fold}
use evowork.Kernel.Samples.{replayed, event, created}
use evowork.Runlog.Store.{event_of}
use evowork.Runlog.Select.{Holds}
use evowork.Runlog.Snapshot.{snapshot_at_or_before}
use evowork.Runlog.Samples.{serde, log, held}
use evowork.Daemon.Replay.{target_of, replay_to, verify}
use evowork.Daemon.Replay.Verify.{Reports, verify-Reports}
use evowork.Daemon.Replay.Snapshots.{Honest, state_at, replay_to_lem}

-- Bytes that stand for the state after the first event, with a digest of one byte.
abbrev codec : Codec
codec = record {
  into_writer = λ s. s.turn ∷ [];
  from_reader = λ bytes. Result.ok (replayed (event 0 created ∷ []));
  digest = λ bytes. bytes;
  hex_encode = hex_bytes;
}

log-Holds : Holds serde "r-1" log held
unfolding event_of
log-Holds = ((refl, refl, (refl, refl, tt)), omega arith)

verify-Reports_example :
    Reports codec serde log "r-1" held (replayed held) (verify codec serde log "r-1")
unfolding fold reduce
verify-Reports_example = verify-Reports codec serde log "r-1" held (replayed held) log-Holds refl

snapshot-Honest : Honest codec serde log "r-1" held (snapshot_at_or_before log "r-1" 1)
unfolding snapshot_at_or_before fold reduce
snapshot-Honest = (omega arith, λ h. refl)

replay_to_lem_example :
    replay_to codec serde log "r-1" (some 1) true
    ≡ Result.ok (state_at codec serde log "r-1" held 1)
unfolding target_of
replay_to_lem_example =
    replay_to_lem codec serde log "r-1" held (some 1) true log-Holds (omega arith) snapshot-Honest
