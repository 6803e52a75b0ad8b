-- ===== src/Lib.antt =====
-- Verification of evowork, a platform that runs agents under governance: an append-only log of
-- events is the only truth about a run, a pure kernel folds it into a state and says what to do next,
-- and a gateway admits each tool call that the model plans.
--
-- The parts and their files (paths from the repository's root):
-- crates/evo-protocol/src: the data. Protocol/Base (ids.rs, blob.rs, budget.rs, taint.rs, `Actor` of
--   event.rs), Protocol/Effect (effect.rs, events/effect.rs), Protocol/Lifecycle, Protocol/Turn,
--   Protocol/Governance, Protocol/Accounting (the other files of events/) and Protocol/Event and
--   Protocol/Kind (event.rs).
-- crates/evo-kernel/src: Kernel/Rng (rng.rs), Kernel/State (state.rs), Kernel/Reduce (reduce.rs: a
--   handler for each arm of the match, `apply_body` for the match, `reduce`, `fold`) and Kernel/Decide
--   (decide.rs). The other modules of Kernel are named for what they prove.
-- crates/evo-policy/src: Policy (lib.rs, hardcoded.rs), with its proofs in Policy/FirstMatch.
-- crates/evo-gateway/src: Gateway/Manifest (manifest.rs), Gateway/Impact (impact.rs) and
--   Gateway/Pipeline (pipeline.rs: `admit`, `admit_with_preview`, `finish`, with the types in
--   Pipeline/Request and the gates in Pipeline/Gates).
-- crates/evo-context/src/lib.rs: Context (`assemble`, the three kinds of blocks, `short_hash`,
--   `estimate_tokens`), with the proofs in Context/Estimate and Context/Assembly.
-- crates/evo-model/src/pricing.rs: Pricing (`charges`, `tool_charges`, `covers`), with the proofs in
--   Pricing/Bills.
-- crates/evo-runlog/src: Runlog/Store (store.rs on the tables of schema.rs: `last_seq`, `append`,
--   `events`, `run_ids`) and Runlog/Snapshot (snapshot.rs). Runlog/Select, Append, Numbered and Latest
--   hold the proofs, on what a log holds of a run.
--   Runlog/Blobs is blobstore.rs (`put`, `get`, `path_of`), with its proofs in Blobs/RoundTrip.
-- crates/evo-model/src/adapter.rs: Model, with fixture.rs in Model/Fixture. crates/evo-exec/src/lib.rs: Exec
--   (leases, outcomes, `permits`, `spawn_timeout`). crates/evo-exec-local/src/workspace.rs: ExecLocal, of
--   which `workspace_dir_name` is there.
-- crates/evo-daemon/src/runtime.rs: Daemon/Error (`DaemonError`), Daemon/Machine (`emit`, `checkpoint`
--   and what they stand on), Daemon/Plan (`parse_plan`), Daemon/History (what is read back from the
--   log), Daemon/Effects (`request_effect`, `handle_gateway_action`, `dispatch_effect`,
--   `charge_effect`), Daemon/Commands (`call_model`, `execute_command`), Daemon/Drive (`drive`) and
--   Daemon/Operations (`start`, `resume`, `decide_approval`, `answer_clarification`, `amend_budget`).
--   A method is an action (Daemon/Action): it changes the machine, that is the log, the blobs and the
--   world, and answers, fails or panics; what was written before a failure stays. The proofs are in
--   Daemon/Consistency, from one append up to the operations, and in Daemon/Settled.
-- crates/evo-daemon/src/trigger.rs: Daemon/Trigger, with the civil calendar in Trigger/Calendar,
--   `validate_spec` and `next_fire_ms` in Trigger/Schedule and the table in Trigger/Store; the types of
--   evo-protocol/src/rpc.rs that it uses are in Protocol/Rpc. Calendar/Years to Calendar/Order and
--   Schedule/Clock to Schedule/Validity hold the proofs, from the years of an era to the schedules.
-- crates/evo-daemon/src/http.rs: Daemon/Scheduler (`fire_due`, `fire_record`, `last_run_active`) and
--   Scheduler/Requests (the trigger requests and the web hook, on what is in Scheduler/Records) over the
--   runtime and the table, with the proofs in Scheduler/Guards and Scheduler/Hooks.
-- crates/evo-daemon/src/replay.rs: Daemon/Replay (`replay_to_checked`, `replay_to`, `verify`), with
--   the proofs in Replay/Snapshots and Replay/Verify. The hash is in Kernel/Hash (evo-kernel/src/hash.rs).
-- Prelude: tests, lists, words, signed words (Prelude/Int), the order of texts, UTF-8, and the ordered map of the standard library.
--
-- How the parts meet: the gateway reads the taint, the budget and the usage that the kernel keeps, and
-- its verdicts are events that the kernel folds. Gateway/Spending relates the two budget gates. The log
-- stores the events, and replay folds what it reads back. The runtime asks the kernel for commands,
-- passes the calls of the model through the gateway, writes each event to the log and folds it at once,
-- and stores a snapshot with each checkpoint; every operation but a start begins with a replay. The
-- scheduler asks the table which triggers are due, claims each one, starts its run in the runtime, and
-- sets its next time from the schedule.
--
-- Conventions. A struct is a record, an enum a data type with its constructors in snake_case, an id a
-- text. A panic is `none`. Sums of `u64` and `u32` fields wrap as in a release build, written out;
-- `saturating_add` and `saturating_mul` stop at the greatest word. `BTreeMap` is a list of entries in
-- ascending order of the keys. The loops of the source walk a list, but for two: the digits of a number
-- (Prelude/Decimals) run on fuel, one more than the number, and `decimal_step` shows that it is enough;
-- `drive` runs on the 10000 rounds that the source itself allows, after which it fails the run, and
-- `month_loop` on the 28 rounds of the source. Sums of `i64` wrap where a time is near its bounds.
-- Third-party code is a parameter: the JSON value with `pointer` and `as_str` (the record `Json`), and
-- the parsers of TOML, serde_json on the columns of the log (`Serde`), and CBOR, SHA-256 and hex
-- (`Codec`). The clock, the model, the executor, the workspaces and the event channel of the daemon act
-- on a world of their own (the record `Env`), and may answer anything. The file system of the blobs is a
-- map whose operations succeed. SQLite is taken as a database whose statements succeed, but for a taken primary key; its
-- integers are compared as `i64`. An `f64` field that nothing reads stands as its bit pattern.
--
-- Not modelled: the sockets and the other requests of the HTTP server, which pass their parameters on
-- to the runtime; the locks of the server (a step runs to its end); the local executor and its sandbox but
-- for the names of directories (the daemon takes what an executor answers), the command line, and the
-- desktop client. `Runtime::new` only reads its configuration.
pub mod Prelude
pub mod Protocol
pub mod Kernel
pub mod Policy
pub mod Context
pub mod Model
pub mod Pricing
pub mod Exec
pub mod Runlog
pub mod Daemon
pub mod Gateway
pub mod ExecLocal
