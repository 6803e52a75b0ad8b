-- ===== src/ExecLocal.antt =====
-- `workspace_dir_name` of crates/evo-exec-local/src/workspace.rs: the id of a run as the name of a directory.
-- The text of `{:?}` is a parameter.
mod Examples
use Prim.Native.Char.{code}
use Prim.Native.String.{len}
use evowork.Prelude.{
  ℕ, ◌≤◌, ◌≡◌, ◌≢◌, String, Bool, true, false, ◌&&◌, ◌||◌, not, List, [], ◌∷◌, leb, ltb, ◌==◌,
  if◌then◌else◌, refl, arith, Bool-cases, inl, inr,
}
use evowork.Prelude.Results.{Result}
use evowork.Prelude.Texts.{concat}
use evowork.Protocol.Base.{RunId}
use evowork.Exec.{ExecError}

abbrev pub max_run_id_len : ℕ
max_run_id_len = 128

-- `is_ascii_lowercase() || is_ascii_digit()`, on the number of a character.
unfoldable pub is_lower_or_digit : ℕ → Bool
is_lower_or_digit c = leb 97 c && leb c 122 || leb 48 c && leb c 57

-- These, `.`, `_` and `-`.
unfoldable pub allowed : ℕ → Bool
unfolding is_lower_or_digit
allowed c = is_lower_or_digit c || (c == 46 || (c == 95 || c == 45))

unfoldable pub first_ok : String → Bool
unfolding is_lower_or_digit
first_ok String.[] = false
first_ok (String.◌∷◌ c s) = is_lower_or_digit (code c)

unfoldable pub all_allowed : String → Bool
unfolding allowed
all_allowed String.[] = true
all_allowed (String.◌∷◌ c s) = allowed (code c) && all_allowed s

unfoldable pub workspace_dir_name : (String → String) → RunId → Result String ExecError
unfolding first_ok all_allowed
workspace_dir_name debug run_id =
    if not (first_ok run_id) || (ltb max_run_id_len (len run_id) || not (all_allowed run_id))
    then Result.err (
        ExecError.path_escape (
          concat (
            "run_id "
            ∷ debug run_id
            ∷ " is not usable as a workspace directory name (expected [a-z0-9][a-z0-9._-]{0,127})"
            ∷ [])))
    else Result.ok run_id

-- No character is `/`.
abbrev pub HasNoSlash : String → Type 0
HasNoSlash String.[] = Unit
HasNoSlash (String.◌∷◌ c s) = (code c ≢ 47) × HasNoSlash s

all_allowed-HasNoSlash : (s : String) → all_allowed s ≡ true → HasNoSlash s
unfolding all_allowed allowed
all_allowed-HasNoSlash String.[] h = tt
all_allowed-HasNoSlash (String.◌∷◌ c s) h = (ground arith, all_allowed-HasNoSlash s (ground arith))

-- A name that is accepted is the id itself, so no two runs share one; it has at most 128 bytes, begins
-- with a lower-case letter or a digit, and holds no `/`.
pub workspace_dir_name_lem :
    (debug : String → String) (run_id name : String)
    → workspace_dir_name debug run_id ≡ Result.ok name
    → (name ≡ run_id) × (len name ≤ max_run_id_len) × (first_ok name ≡ true) × HasNoSlash name
unfolding workspace_dir_name first_ok
workspace_dir_name_lem debug run_id name h = ground (arith, all_allowed-HasNoSlash run_id)
