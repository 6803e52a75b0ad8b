-- ===== src/Model.antt =====
-- crates/evo-model/src/adapter.rs: the requests to a model and its answers.
pub mod Fixture
use evowork.Prelude.{ℕ, String, List, [], ◌∷◌}
use evowork.Prelude.Texts.{concat}
use evowork.Protocol.Turn.{ModelParams, Usage}

pub record Message : Type 0 where
  pub role : String
  pub content : String

pub record ModelRequest : Type 0 where
  pub messages : List Message
  pub params : ModelParams

pub record ModelResponse : Type 0 where
  pub text : String
  pub usage : Usage
  pub stop_reason : String
  pub latency_ms : ℕ

-- An error of serde_json, of the TOML parser or of the file system stands without its text.
pub data ModelError : Type 0 where
  json toml io : ModelError
  fixture_exhausted : ℕ → ModelError
  cost_overflow : ℕ → ℕ → ModelError

-- serde_json and SHA-256 with the crate hex are the parameters.
unfoldable pub request_digest : (ModelRequest → List ℕ) → (List ℕ → String) → ModelRequest → String
request_digest to_vec digest req = concat ("sha256:" ∷ digest (to_vec req) ∷ [])
