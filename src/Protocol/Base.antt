-- ===== src/Protocol/Base.antt =====
-- crates/evo-protocol/src/{ids,blob,budget,taint}.rs, and `Actor` of event.rs.
-- An identifier is a newtype over a text; a `u64` or `u32` field is a number.
use evowork.Prelude.{ℕ, String, Option, Bool, true, ◌||◌, if◌then◌else◌}

abbrev pub RunId : Type 0
RunId = String

abbrev pub EffectId : Type 0
EffectId = String

abbrev pub ApprovalId : Type 0
ApprovalId = String

abbrev pub CiteId : Type 0
CiteId = String

abbrev pub ToolId : Type 0
ToolId = String

abbrev pub LeaseId : Type 0
LeaseId = String

abbrev pub ExecutorId : Type 0
ExecutorId = String

abbrev pub ArtifactId : Type 0
ArtifactId = String

abbrev pub CheckpointId : Type 0
CheckpointId = String

pub record BlobRef : Type 0 where
  pub content_hash : String
  pub size : ℕ
  pub mime : String

-- `None` is "no limit", never a limit of 0.
pub record BudgetSpec : Type 0 where
  pub max_tokens : Option ℕ
  pub max_amount_micros : Option ℕ
  pub max_wall_seconds : Option ℕ
  pub max_concurrency : Option ℕ
  pub max_recursion_depth : Option ℕ

pub record BudgetUsage : Type 0 where
  pub tokens : ℕ
  pub amount_micros : ℕ
  pub wall_ms : ℕ

pub data TaintLevel : Type 0 where
  clean tainted : TaintLevel

abbrev pub is_tainted : TaintLevel → Bool
is_tainted TaintLevel.clean = Bool.false
is_tainted TaintLevel.tainted = true

unfoldable pub join : TaintLevel → TaintLevel → TaintLevel
join a b = if is_tainted a || is_tainted b then TaintLevel.tainted else TaintLevel.clean

pub data TrustLevel : Type 0 where
  user_direct org_trusted untrusted : TrustLevel

-- `TrustLevel::taint`
unfoldable pub taint_of : TrustLevel → TaintLevel
taint_of TrustLevel.user_direct = TaintLevel.clean
taint_of TrustLevel.org_trusted = TaintLevel.clean
taint_of TrustLevel.untrusted = TaintLevel.tainted

pub data Actor : Type 0 where
  kernel runtime gateway executor : Actor
  human : String → Actor
  trigger : String → Actor
