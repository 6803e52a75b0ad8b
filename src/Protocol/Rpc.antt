-- ===== src/Protocol/Rpc.antt =====
-- The triggers of crates/evo-protocol/src/rpc.rs: when one wakes, and what the daemon tells of it.
use evowork.Prelude.{ℕ, String, Bool, Option, List}
use evowork.Prelude.Int.{ℤ}
use evowork.Protocol.Base.{RunId}
use evowork.Protocol.Lifecycle.{TriggerKind}

-- A weekday counts from Monday, 0, and an offset is an `i16` of minutes.
pub data TriggerSpec : Type 0 where
  once : (at_ms : ℕ) → TriggerSpec
  interval : (every_ms : ℕ) → TriggerSpec
  daily : (hour minute : ℕ) → (tz_offset_minutes : ℤ) → TriggerSpec
  weekly : (weekday hour minute : ℕ) → (tz_offset_minutes : ℤ) → TriggerSpec
  monthly : (day hour minute : ℕ) → (tz_offset_minutes : ℤ) → TriggerSpec
  webhook : TriggerSpec

unfoldable pub trigger_kind : TriggerSpec → TriggerKind
trigger_kind TriggerSpec.webhook = TriggerKind.webhook
trigger_kind _ = TriggerKind.schedule

pub record TriggerCreateParams : Type 0 where
  pub name : String
  pub intent : String
  pub spec : TriggerSpec
  pub paused : Option Bool
  pub trigger_id : Option String

pub record TriggerView : Type 0 where
  pub trigger_id : String
  pub name : String
  pub intent : String
  pub kind : TriggerKind
  pub spec : TriggerSpec
  pub paused : Bool
  pub next_fire_ms : Option ℕ
  pub last_run_id : Option RunId
  pub last_fired_ms : Option ℕ
  pub hook_path : Option String
  pub created_ms : ℕ

pub record TriggerListResult : Type 0 where
  pub triggers : List TriggerView

pub record TriggerIdParams : Type 0 where
  pub trigger_id : String

pub record TriggerDryrunResult : Type 0 where
  pub trigger_id : String
  pub would_fire_now : Bool
  pub next_fire_ms : Option ℕ
  pub intent : String
  pub paused : Bool

pub record RunCreateResult : Type 0 where
  pub run_id : RunId
  pub status : String
  pub last_seq : ℕ
