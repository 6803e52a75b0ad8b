-- ===== src/Runlog/Samples.antt =====
-- A log of one run with two events, as data for the tests.
use evowork.Prelude.{ℕ, String, none, some, List, [], ◌∷◌, if◌then◌else◌}
use evowork.Prelude.Texts.{str_eq}
use evowork.Protocol.Base.{Actor}
use evowork.Protocol.Event.{Event}
use evowork.Protocol.Kind.{kind}
use evowork.Kernel.Samples.{event, created, checkpointed}
use evowork.Runlog.Store.{Serde, Row, RunLog}

-- JSON of the two bodies in use and of one actor: the kind stands for the text.
abbrev pub serde : Serde
serde = record {
  to_string = λ body. some (kind body);
  from_str = λ s.
      if str_eq s "run.created"
      then some created
      else if str_eq s "checkpoint"
      then some checkpointed
      else none;
  actor_to_string = λ actor. some "runtime";
  actor_from_str = λ s. some Actor.runtime;
}

abbrev pub row : ℕ → String → Row
row seq name = record {
  run_id = "r-1";
  seq = seq;
  kind = name;
  schema_ver = 1;
  recorded_at = "2026-08-29T10:00:00Z";
  actor = "runtime";
  payload = name;
}

abbrev pub log : RunLog
log = record {
  run_events = row 0 "run.created" ∷ row 1 "checkpoint" ∷ [];
  runs = [];
  snapshots =
      record { run_id = "r-1"; seq = 1; state_blob = 7 ∷ []; state_hash = 0 ∷ [] }
      ∷ record { run_id = "r-1"; seq = 0; state_blob = 7 ∷ []; state_hash = 9 ∷ [] }
      ∷ [];
}

abbrev pub held : List Event
held = event 0 created ∷ event 1 checkpointed ∷ []
