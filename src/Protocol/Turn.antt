-- ===== src/Protocol/Turn.antt =====
-- crates/evo-protocol/src/events/{determinism,context,model,clarification,artifact}.rs
-- `temperature` is an `f64`: it stands here as its bit pattern, which nothing reads.
use evowork.Prelude.{ℕ, String, Option, Bool, List}
use evowork.Prelude.BTreeMap.{BTreeMap}
use evowork.Protocol.Base.{ArtifactId, CiteId, ToolId, BlobRef, TaintLevel, TrustLevel, Actor}

pub record ModelRoute : Type 0 where
  pub provider : String
  pub model : String
  pub params_digest : String

pub record EnvSampled : Type 0 where
  pub turn : ℕ
  pub wall_clock_ms : ℕ
  pub rng_seed : String
  pub env : BTreeMap String
  pub model_route : ModelRoute

pub record ContextBlock : Type 0 where
  pub cite_id : CiteId
  pub source : String
  pub trust : TrustLevel
  pub scope : String
  pub content_hash : String
  pub span : Option String
  pub token_estimate : ℕ

pub record ContextAssembled : Type 0 where
  pub turn : ℕ
  pub profile : String
  pub blocks : List ContextBlock
  pub taint_level : TaintLevel
  pub total_token_estimate : ℕ

pub record ContextCompacted : Type 0 where
  pub from_seq : ℕ
  pub to_seq : ℕ
  pub summary_ref : BlobRef
  pub summary_cite_id : CiteId

pub record ModelParams : Type 0 where
  pub temperature : ℕ
  pub max_tokens : Option ℕ

pub record ModelRequested : Type 0 where
  pub turn : ℕ
  pub provider : String
  pub model : String
  pub params : ModelParams
  pub request_digest : String
  pub messages_ref : BlobRef

pub record Usage : Type 0 where
  pub input : ℕ
  pub output : ℕ
  pub cache_read : ℕ
  pub cache_write : ℕ

pub record ModelResponded : Type 0 where
  pub turn : ℕ
  pub response_ref : BlobRef
  pub response_hash : String
  pub usage : Usage
  pub stop_reason : String
  pub latency_ms : ℕ

pub data PlanIntent : Type 0 where
  tool_call clarify finish : PlanIntent

pub record PlannedCall : Type 0 where
  pub tool : ToolId
  pub params_ref : BlobRef
  pub params_digest : String

pub record ClarificationOption : Type 0 where
  pub id : String
  pub is_default : Bool

pub record PlannedClarification : Type 0 where
  pub prompt_ref : BlobRef
  pub options : List ClarificationOption

pub record PlanStep : Type 0 where
  pub turn : ℕ
  pub intent : PlanIntent
  pub rationale_ref : Option BlobRef
  pub taint_inherited : TaintLevel
  pub call : Option PlannedCall
  pub clarification : Option PlannedClarification

pub record ClarificationRequested : Type 0 where
  pub question_id : String
  pub prompt_ref : BlobRef
  pub options : List ClarificationOption

pub record ClarificationAnswered : Type 0 where
  pub question_id : String
  pub by : Actor
  pub option_id : Option String
  pub free_text_ref : Option BlobRef

pub record ArtifactEmitted : Type 0 where
  pub artifact_id : ArtifactId
  pub path : String
  pub blob : BlobRef
  pub cites : List CiteId
  pub supersedes : Option ArtifactId
