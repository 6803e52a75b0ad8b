-- ===== src/Runlog/Store.antt =====
-- crates/evo-runlog/src/store.rs over the tables of crates/evo-runlog/src/schema.rs.
-- SQLite is taken as a database whose statements succeed, but for the primary key of `run_events`;
-- serde_json is a parameter.
use evowork.Prelude.{
  ℕ, ◌+◌, ◌-◌, ◌^◌, ◌%◌, String, Option, none, some, Bool, ◌&&◌, List, [], ◌∷◌, ◌++◌, ◌==◌, leb,
  if◌then◌else◌, any, unwrap_or, map,
}
use evowork.Prelude.BTreeMap.{BTreeMap, get, insert}
use evowork.Prelude.Results.{Result}
use evowork.Prelude.Texts.{str_eq}
use evowork.Prelude.Words.{u64}
use evowork.Protocol.Base.{RunId, Actor}
use evowork.Protocol.Event.{EventBody, Event}
use evowork.Protocol.Kind.{kind, schema_ver}

-- serde_json on the two columns that hold JSON; `none` is its error.
pub record Serde : Type 0 where
  pub to_string : EventBody → Option String
  pub from_str : String → Option EventBody
  pub actor_to_string : Actor → Option String
  pub actor_from_str : String → Option Actor

-- An error of the file system, of SQLite or of serde_json stands without its text.
pub data RunLogError : Type 0 where
  io sqlite json : RunLogError
  blob_not_found bad_blob_ref : String → RunLogError
  seq_gap : String → ℕ → ℕ → RunLogError

-- A row of `run_events`; a `u64` is stored by its bits.
pub record Row : Type 0 where
  pub run_id : String
  pub seq : ℕ
  pub kind : String
  pub schema_ver : ℕ
  pub recorded_at : String
  pub actor : String
  pub payload : String

-- A row of the projection `runs`, of the columns that are maintained.
pub record RunRow : Type 0 where
  pub created_at : String
  pub updated_at : String
  pub last_seq : ℕ

pub record SnapshotRow : Type 0 where
  pub run_id : String
  pub seq : ℕ
  pub state_blob : List ℕ
  pub state_hash : List ℕ

pub record RunLog : Type 0 where
  pub run_events : List Row
  pub runs : BTreeMap RunRow
  pub snapshots : List SnapshotRow

-- The order of `i64` on two words: `a as i64 <= b as i64`.
abbrev pub i64_leb : ℕ → ℕ → Bool
i64_leb a b = leb ((a + 2 ^ 63) % 2 ^ 64) ((b + 2 ^ 63) % 2 ^ 64)

abbrev pub i64_max : ℕ
i64_max = 2 ^ 63 - 1

-- `WHERE`
abbrev pub filter {ℓ} : {A : Type ℓ} → (A → Bool) → List A → List A
filter p [] = []
filter p (x ∷ xs) = if p x then x ∷ filter p xs else filter p xs

-- `MAX(seq)`
max_of : ℕ → Option ℕ → ℕ
max_of n none = n
max_of n (some m) = if i64_leb m n then n else m

unfoldable pub max_seq : List Row → Option ℕ
unfolding max_of
max_seq [] = none
max_seq (r ∷ rows) = some (max_of r.seq (max_seq rows))

-- `ORDER BY seq`
abbrev pub insert_row : Row → List Row → List Row
insert_row r [] = r ∷ []
insert_row r (t ∷ rows) = if i64_leb r.seq t.seq then r ∷ t ∷ rows else t ∷ insert_row r rows

unfoldable pub order_by_seq : List Row → List Row
order_by_seq [] = []
order_by_seq (r ∷ rows) = insert_row r (order_by_seq rows)

unfoldable pub last_seq : RunLog → RunId → Option ℕ
last_seq log run_id = max_seq (filter (λ r. str_eq r.run_id run_id) log.run_events)

-- The key of the new row.
unfoldable pub next_seq : Option ℕ → ℕ
next_seq none = 0
next_seq (some s) = u64 (s + 1)

-- `INSERT INTO runs ... ON CONFLICT(run_id) DO UPDATE`
upsert_run : Option RunRow → String → ℕ → RunRow
upsert_run none recorded_at seq = record {
  created_at = recorded_at;
  updated_at = recorded_at;
  last_seq = seq;
}
upsert_run (some row) recorded_at seq = record row { updated_at = recorded_at; last_seq = seq }

module _ (serde : Serde) where
  -- The row of an event, if both columns can be written.
  row_of : Event → Option String → Option String → Option Row
  row_of event (some payload) (some actor) = some (record {
    run_id = event.run_id;
    seq = event.seq;
    kind = kind event.body;
    schema_ver = event.schema_ver;
    recorded_at = event.recorded_at;
    actor = actor;
    payload = payload;
  })
  row_of event _ _ = none

  -- The transaction: the primary key is checked, then the row and the projection are written.
  commit : RunLog → Event → Option Row → Result (RunLog × Event) RunLogError
  unfolding upsert_run
  commit log event none = Result.err RunLogError.json
  commit log event (some row) =
      if any (λ r. str_eq r.run_id event.run_id && (r.seq == event.seq)) log.run_events
      then Result.err RunLogError.sqlite
      else Result.ok (
        record log {
          run_events = log.run_events ++ row ∷ [];
          runs =
              insert event.run_id
                (upsert_run (get event.run_id log.runs) event.recorded_at event.seq) log.runs;
        },
        event,
      )

  unfoldable pub append :
      RunLog → RunId → Actor → String → EventBody → Result (RunLog × Event) RunLogError
  unfolding commit row_of
  append log run_id actor recorded_at body =
      let event : Event = record {
        run_id = run_id;
        seq = next_seq (last_seq log run_id);
        recorded_at = recorded_at;
        actor = actor;
        schema_ver = schema_ver body;
        body = body;
      } in
      commit log event (row_of event (serde.to_string body) (serde.actor_to_string actor))

  -- A row read back.
  unfoldable pub event_of : RunId → Row → Option Actor → Option EventBody → Option Event
  event_of run_id row (some actor) (some body) = some (record {
    run_id = run_id;
    seq = row.seq;
    recorded_at = row.recorded_at;
    actor = actor;
    schema_ver = row.schema_ver;
    body = body;
  })
  event_of run_id row _ _ = none

  unfoldable pub push :
      Option Event → Result (List Event) RunLogError → Result (List Event) RunLogError
  push none rest = Result.err RunLogError.json
  push (some event) (Result.ok events) = Result.ok (event ∷ events)
  push (some event) (Result.err e) = Result.err e

  unfoldable pub decode : RunId → List Row → Result (List Event) RunLogError
  unfolding event_of push
  decode run_id [] = Result.ok []
  decode run_id (row ∷ rows) =
      push (event_of run_id row (serde.actor_from_str row.actor) (serde.from_str row.payload))
        (decode run_id rows)

  unfoldable pub events : RunLog → RunId → ℕ → Option ℕ → Result (List Event) RunLogError
  events log run_id from_seq to_seq = decode run_id (
      order_by_seq (
        filter
          (λ r.
            str_eq r.run_id run_id
            && (i64_leb from_seq r.seq && i64_leb r.seq (unwrap_or to_seq i64_max)))
          log.run_events))

unfoldable pub run_ids : RunLog → List RunId
run_ids log = map (λ r. r.0) log.runs
