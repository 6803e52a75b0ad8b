-- ===== src/Protocol/Governance.antt =====
-- crates/evo-protocol/src/events/approval.rs
use evowork.Prelude.{ℕ, Option, if◌then◌else◌, ltb}
use evowork.Protocol.Base.{ApprovalId, EffectId, BlobRef, Actor}

pub data RiskLevel : Type 0 where
  l1 l2 l3 : RiskLevel

-- The derived order of the enum: `L1 < L2 < L3`.
abbrev pub rank : RiskLevel → ℕ
rank RiskLevel.l1 = 1
rank RiskLevel.l2 = 2
rank RiskLevel.l3 = 3

-- `Ord::max` of two levels.
unfoldable pub max_risk : RiskLevel → RiskLevel → RiskLevel
max_risk a b = if ltb (rank b) (rank a) then a else b

pub record ApprovalRequested : Type 0 where
  pub approval_id : ApprovalId
  pub effect_id : EffectId
  pub risk : RiskLevel
  pub impact_ref : Option BlobRef
  pub expires_at_ms : ℕ

pub data ApprovalVia : Type 0 where
  ui wecom_link : ApprovalVia

pub record ApprovalGranted : Type 0 where
  pub approval_id : ApprovalId
  pub by : Actor
  pub via : ApprovalVia
  pub note_ref : Option BlobRef

pub record ApprovalDenied : Type 0 where
  pub approval_id : ApprovalId
  pub by : Actor
  pub reason_ref : Option BlobRef

pub record ApprovalExpired : Type 0 where
  pub approval_id : ApprovalId
