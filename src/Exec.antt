-- ===== src/Exec.antt =====
-- crates/evo-exec/src/lib.rs: what the daemon and an executor exchange. A path is a text, an error of
-- the file system stands without its text.
use evowork.Prelude.{
  ℕ, ◌+◌, ◌-◌, ◌*◌, ◌≤◌, ◌≡◌, String, Option, none, Bool, List, [], any, ltb, if◌then◌else◌, arith,
}
use evowork.Prelude.BTreeMap.{BTreeMap}
use evowork.Prelude.Texts.{str_eq}
use evowork.Protocol.Base.{EffectId, LeaseId, RunId, TaintLevel}
use evowork.Protocol.Effect.{
  EffectClass, CapabilityToken, EffectRequest, EgressRef, ResourceRef, ExecutionMode,
  ToolResultStatus,
}

pub data ExecError : Type 0 where
  io : ExecError
  lease_expired path_escape sensitive_path unknown_tool bad_params : String → ExecError
  program_not_allowed : String → ExecError

pub record WorkspaceHandle : Type 0 where
  pub id : String
  pub path : String

pub record EgressPolicy : Type 0 where
  pub allow : List String
  pub proxy_addr : Option String

abbrev pub deny_all : EgressPolicy
deny_all = record { allow = []; proxy_addr = none }

unfoldable pub permits : EgressPolicy → String → Bool
permits policy host = any (λ h. str_eq h host) policy.allow

pub record Lease : Type 0 where
  pub lease_id : LeaseId
  pub run_id : RunId
  pub effect_id : EffectId
  pub issued_at_ms : ℕ
  pub expires_at_ms : ℕ
  pub workspace : WorkspaceHandle
  pub egress_policy : EgressPolicy
  pub capability : CapabilityToken

pub record DispatchedEffect (Value : Type 0) : Type 0 where
  pub request : EffectRequest
  pub params : Value
  pub mode : ExecutionMode

pub record EffectOutcome : Type 0 where
  pub status : ToolResultStatus
  pub output : Option (List ℕ)
  pub output_mime : String
  pub taint : TaintLevel
  pub actual_targets : List ResourceRef
  pub actual_egress : List EgressRef
  pub error : Option String
  pub cost_micros : Option ℕ

pub record ExecutorCapabilities : Type 0 where
  pub classes : List EffectClass
  pub has_network : Bool
  pub platform : String

pub record CommandSpec : Type 0 where
  pub program : String
  pub args : List String
  pub env : BTreeMap String

-- The exit code is an `i32`, kept as its bit pattern.
pub record SandboxOutput : Type 0 where
  pub exit_code : ℕ
  pub stdout : List ℕ
  pub stderr : List ℕ
  pub truncated : Bool

abbrev pub sandbox_timeout_cap_ms : ℕ
sandbox_timeout_cap_ms = 60000

abbrev pub sandbox_max_output_bytes : ℕ
sandbox_max_output_bytes = 1024 * 1024

-- `saturating_sub` is the subtraction of natural numbers.
unfoldable pub spawn_timeout : Lease → ℕ
spawn_timeout lease =
    let remaining = lease.expires_at_ms - lease.issued_at_ms in
    if ltb sandbox_timeout_cap_ms remaining then sandbox_timeout_cap_ms else remaining

-- The time that a process gets is at most the cap and at most what is left of the lease, and a lease
-- that has run out leaves none.
spawn_timeout_lem :
    (lease : Lease)
    → (spawn_timeout lease ≤ sandbox_timeout_cap_ms)
      × (lease.issued_at_ms ≤ lease.expires_at_ms
          → lease.issued_at_ms + spawn_timeout lease ≤ lease.expires_at_ms)
      × (lease.expires_at_ms ≤ lease.issued_at_ms → spawn_timeout lease ≡ 0)
unfolding spawn_timeout
spawn_timeout_lem lease = ground arith
