-- ===== src/Daemon/Machine.antt =====
-- What the runtime of crates/evo-daemon/src/runtime.rs stands on: the traits and libraries that it
-- calls, as the parameter `Env`, and its own state, the log and the blobs.
use evowork.Prelude.{ℕ, String, Option, none, some, Bool, List, [], ◌∷◌}
use evowork.Prelude.BTreeMap.{BTreeMap}
use evowork.Prelude.Results.{Result}
use evowork.Protocol.Base.{RunId, ExecutorId, BlobRef, BudgetSpec, Actor}
use evowork.Protocol.Effect.{ImpactEstimated}
use evowork.Protocol.Event.{EventBody, Event}
use evowork.Protocol.Accounting.{CheckpointReason}
use evowork.Kernel.State.{RunState}
use evowork.Kernel.Reduce.{reduce}
use evowork.Kernel.Hash.{Codec, state_hash}
use evowork.Gateway.Manifest.{Json}
use evowork.Gateway.Pipeline.{Gateway}
use evowork.Context.{Assembler}
use evowork.Pricing.{PriceTable}
use evowork.Model.{Message, ModelRequest, ModelResponse, ModelError}
use evowork.Exec.{ExecError, WorkspaceHandle, Lease, DispatchedEffect, EffectOutcome}
use evowork.Runlog.Store.{Serde, RunLog, RunLogError, append, events}
use evowork.Runlog.Snapshot.{put_snapshot}
use evowork.Runlog.Blobs.{Digest, BlobStore, put_blob, get_blob}
use evowork.Daemon.Error.{DaemonError}
use evowork.Daemon.Action.{Outcome, Action, pure, or_panic, or_fail, ◌>>=◌, ◌>>◌}
use evowork.Prelude.Decimals.{decimal}
use evowork.Prelude.Texts.{concat}

-- crates/evo-daemon/src/config.rs; the paths and the texts of the three tables have been read.
pub record DaemonConfig : Type 0 where
  pub principal : String
  pub egress_allow : List String
  pub proxy_addr : Option String
  pub budget : BudgetSpec

-- The clock, the model, the executor, the workspaces and the event channel act on a world of their
-- own. serde_json, ciborium, sha2, hex and the decoders of UTF-8 are functions.
pub record Env : Type 1 where
  pub World : Type 0
  pub now_ms : World → ℕ × World
  pub now_rfc3339 : World → String × World
  pub seed : World → String × World
  pub provider : String
  pub model : String
  pub call : ModelRequest → World → Result ModelResponse ModelError × World
  pub executor_id : ExecutorId
  pub json : Json
  pub execute : Lease → DispatchedEffect json.Value → World → EffectOutcome × World
  pub ensure : RunId → World → Result WorkspaceHandle ExecError × World
  pub send : Event → World → World
  pub serde : Serde
  pub codec : Codec
  pub from_slice : List ℕ → Option json.Value
  pub empty_object : json.Value
  pub field : json.Value → String → Option json.Value
  pub as_array : json.Value → Option (List json.Value)
  pub as_bool : json.Value → Option Bool
  pub to_vec : json.Value → List ℕ
  pub prompt : String → BTreeMap String → json.Value
  pub messages_to_vec : List Message → List ℕ
  pub request_to_vec : ModelRequest → List ℕ
  pub impact_to_vec : ImpactEstimated → List ℕ
  pub from_utf8 : List ℕ → Option String
  pub from_utf8_lossy : List ℕ → String
  pub debug_body : Option EventBody → String
  pub debug_texts : List String → String
  pub config : DaemonConfig
  pub gateway : Gateway
  pub assembler : Assembler
  pub pricing : PriceTable

pub record Machine (World : Type 0) : Type 0 where
  pub log : RunLog
  pub blobs : BlobStore
  pub world : World

module _ (env : Env) where
  -- Steps of the daemon with this environment.
  abbrev pub Step : Type 0 → Type 0
  Step A = Action (Machine env.World) A

  abbrev pub digest : Digest
  digest bytes = env.codec.hex_encode (env.codec.digest bytes)

  -- A call that the world answers.
  unfoldable pub ask : {A : Type 0} → (env.World → A × env.World) → Step A
  ask f m = let (a, w) = f m.world in Outcome.ok a (record m { world = w })

  unfoldable pub tell : (env.World → env.World) → Step (Unit {0})
  tell f m = Outcome.ok tt (record m { world = f m.world })

  unfoldable pub stored :
      Machine env.World → Option (BlobStore × BlobRef) → Outcome (Machine env.World) BlobRef
  stored m none = Outcome.panicked
  stored m (some (blobs, r)) = Outcome.ok r (record m { blobs = blobs })

  unfoldable pub put : String → List ℕ → Step BlobRef
  unfolding stored
  put mime bytes m = stored m (put_blob digest mime bytes m.blobs)

  unfoldable pub fetch : BlobRef → Step (List ℕ)
  fetch r m = (or_panic (get_blob r m.blobs) >>= or_fail DaemonError.run_log) m

  unfoldable pub read_events : RunId → ℕ → Option ℕ → Step (List Event)
  read_events run_id from_seq to_seq m =
      or_fail DaemonError.run_log (events env.serde m.log run_id from_seq to_seq) m

  unfoldable pub appended :
      Machine env.World → Result (RunLog × Event) RunLogError → Outcome (Machine env.World) Event
  appended m (Result.ok (log, event)) = Outcome.ok event (record m { log = log })
  appended m (Result.err e) = Outcome.err (DaemonError.run_log e) m

  unfoldable pub append_event : RunId → Actor → String → EventBody → Step Event
  unfolding appended
  append_event run_id actor recorded_at body m =
      appended m (append env.serde m.log run_id actor recorded_at body)

  unfoldable pub emit : RunState → Actor → EventBody → Step RunState
  emit state actor body = do
    recorded_at ← ask env.now_rfc3339
    event ← append_event state.run_id actor recorded_at body
    tell (env.send event)
    or_panic (reduce state event)

  unfoldable pub store_snapshot : RunId → ℕ → List ℕ → List ℕ → Step (Unit {0})
  store_snapshot run_id seq blob hash m =
      Outcome.ok tt (record m { log = put_snapshot m.log run_id seq blob hash })

  -- The hash in the event is that of the state before the checkpoint, and so is the snapshot.
  unfoldable pub checkpoint : RunState → CheckpointReason → Step RunState
  checkpoint state reason = do
    let hash = state_hash env.codec state
    new_state ← emit state Actor.kernel (
        EventBody.checkpoint (record {
          checkpoint_id = concat (state.run_id ∷ "-cp" ∷ decimal state.last_seq ∷ []);
          state_hash = env.codec.hex_encode hash;
          snapshot_ref = none;
          reason = reason;
        }))
    store_snapshot new_state.run_id new_state.last_seq (env.codec.into_writer state) hash
    pure new_state
