-- ===== src/Protocol/Accounting.antt =====
-- crates/evo-protocol/src/events/accounting.rs
use evowork.Prelude.{ℕ, String, Option}
use evowork.Protocol.Base.{CheckpointId, EffectId, RunId, ToolId, BlobRef, BudgetSpec, Actor}

pub data CostUnit : Type 0 where
  input_token output_token cache_read cache_write seconds call : CostUnit

pub data Currency : Type 0 where
  cny usd : Currency

pub record CostDimension : Type 0 where
  pub principal : String
  pub team : Option String
  pub run_id : RunId
  pub skill : Option String
  pub tool : Option ToolId

pub record CostCharged : Type 0 where
  pub effect_id : Option EffectId
  pub turn : Option ℕ
  pub unit : CostUnit
  pub quantity : ℕ
  pub unit_price_micros : ℕ
  pub amount_micros : ℕ
  pub currency : Currency
  pub price_table_ver : String
  pub dimension : CostDimension

pub record BudgetAmended : Type 0 where
  pub budget : BudgetSpec
  pub by : Actor
  pub reason_ref : Option BlobRef

pub data CheckpointReason : Type 0 where
  periodic pre_write pre_approval : CheckpointReason

pub record Checkpoint : Type 0 where
  pub checkpoint_id : CheckpointId
  pub state_hash : String
  pub snapshot_ref : Option String
  pub reason : CheckpointReason
