-- ===== src/Kernel/State.antt =====
-- crates/evo-kernel/src/state.rs: the whole state of a run.
use evowork.Prelude.{ℕ, ◌+◌, String, Option, none, Bool, true, false, List, []}
use evowork.Prelude.BTreeMap.{BTreeMap, BTreeSet}
use evowork.Prelude.Words.{u64, saturating_sub}
use evowork.Protocol.Base.{
  RunId, EffectId, ApprovalId, ArtifactId, BlobRef, BudgetSpec, BudgetUsage, TaintLevel,
}
use evowork.Protocol.Turn.{PlanStep}
use evowork.Kernel.Rng.{DeterministicRng, from_seed}

pub data RunStatus : Type 0 where
  running suspended completed failed : RunStatus

abbrev pub is_running : RunStatus → Bool
is_running RunStatus.running = true
is_running _ = false

pub data AwaitReason : Type 0 where
  approval : ApprovalId → EffectId → AwaitReason
  clarification : String → AwaitReason
  human : String → AwaitReason
  budget : AwaitReason
  external_event : String → AwaitReason

pub data EffectState : Type 0 where
  requested approved dispatched settled denied : EffectState

abbrev pub is_resolved : EffectState → Bool
is_resolved EffectState.settled = true
is_resolved EffectState.denied = true
is_resolved _ = false

pub record ArtifactRecord : Type 0 where
  pub artifact_id : ArtifactId
  pub path : String
  pub content_hash : String

pub record ContextRecord : Type 0 where
  pub turn : ℕ
  pub profile : String
  pub block_count : ℕ
  pub taint_level : TaintLevel
  pub total_token_estimate : ℕ

pub record RunState : Type 0 where
  pub run_id : RunId
  pub status : RunStatus
  pub turn : ℕ
  pub clock_ms : ℕ
  pub clock_start_ms : Option ℕ
  pub rng : DeterministicRng
  pub env : BTreeMap String
  pub intent : Option BlobRef
  pub context : Option ContextRecord
  pub taint : TaintLevel
  pub last_plan : Option PlanStep
  pub pending_effects : BTreeMap EffectState
  pub awaiting : Option AwaitReason
  pub pending_approvals : BTreeMap EffectId
  pub pending_question : Option String
  pub budget : BudgetSpec
  pub budget_used : BudgetUsage
  pub artifacts : List ArtifactRecord
  pub cites : BTreeSet
  pub env_sampled_turn : Option ℕ
  pub context_turn : Option ℕ
  pub plan_turn : Option ℕ
  pub last_seq : ℕ
  pub last_checkpoint_seq : Option ℕ
  pub children : List RunId

abbrev pub default_spec : BudgetSpec
default_spec = record {
  max_tokens = none;
  max_amount_micros = none;
  max_wall_seconds = none;
  max_concurrency = none;
  max_recursion_depth = none;
}

-- `RunState::new`
unfoldable pub new : RunId → RunState
unfolding from_seed
new run_id = record {
  run_id = run_id;
  status = RunStatus.running;
  turn = 0;
  clock_ms = 0;
  clock_start_ms = none;
  rng = from_seed "";
  env = [];
  intent = none;
  context = none;
  taint = TaintLevel.clean;
  last_plan = none;
  pending_effects = [];
  awaiting = none;
  pending_approvals = [];
  pending_question = none;
  budget = default_spec;
  budget_used = record { tokens = 0; amount_micros = 0; wall_ms = 0 };
  artifacts = [];
  cites = [];
  env_sampled_turn = none;
  context_turn = none;
  plan_turn = none;
  last_seq = 0;
  last_checkpoint_seq = none;
  children = [];
}

events_since : Option ℕ → ℕ → ℕ
events_since none last_seq = u64 (last_seq + 1)
events_since (Option.some at) last_seq = saturating_sub last_seq at

-- The assertion `at <= last_seq` of a debug build is the invariant of Kernel.Log.
unfoldable pub events_since_checkpoint : RunState → ℕ
unfolding events_since
events_since_checkpoint s = events_since s.last_checkpoint_seq s.last_seq
