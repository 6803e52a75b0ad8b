-- ===== src/Model/Fixture.antt =====
-- crates/evo-model/src/fixture.rs: recorded answers in the order of the calls. The file has been read.
use evowork.Prelude.{ℕ, zero, suc, ◌+◌, String, Option, none, some, List, [], ◌∷◌, length}
use evowork.Prelude.Words.{u64}
use evowork.Prelude.Results.{Result}
use evowork.Model.{ModelRequest, ModelResponse, ModelError}

pub record FixtureFile : Type 0 where
  pub provider : String
  pub model : String
  pub responses : List ModelResponse

pub record FixtureAdapter : Type 0 where
  pub file : FixtureFile
  pub cursor : ℕ

-- `get(i).cloned()`
abbrev get_response : ℕ → List ModelResponse → Option ModelResponse
get_response i [] = none
get_response zero (r ∷ responses) = some r
get_response (suc i) (r ∷ responses) = get_response i responses

abbrev or_exhausted : ℕ → Option ModelResponse → Result ModelResponse ModelError
or_exhausted n none = Result.err (ModelError.fixture_exhausted n)
or_exhausted n (some r) = Result.ok r

unfoldable pub call :
    FixtureAdapter → ModelRequest → Result ModelResponse ModelError × FixtureAdapter
call adapter req = (
  or_exhausted (length adapter.file.responses) (get_response adapter.cursor adapter.file.responses),
  record adapter { cursor = u64 (adapter.cursor + 1) },
)
