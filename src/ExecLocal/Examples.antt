-- ===== src/ExecLocal/Examples.antt =====
-- The theorem on directory names at one id.
use evowork.Prelude.{◌≤◌, ◌≡◌, true, refl}
use Prim.Native.String.{len}
use evowork.Prelude.Results.{Result}
use evowork.Protocol.Base.{RunId}
use evowork.ExecLocal.{
  max_run_id_len, is_lower_or_digit, allowed, first_ok, all_allowed, workspace_dir_name, HasNoSlash,
  workspace_dir_name_lem,
}

abbrev id : RunId
id = "r-1"

accepted : workspace_dir_name (λ s. s) id ≡ Result.ok id
unfolding workspace_dir_name first_ok all_allowed allowed is_lower_or_digit
accepted = refl

workspace_dir_name_lem_example :
    (id ≡ id) × (len id ≤ max_run_id_len) × (first_ok id ≡ true) × HasNoSlash id
workspace_dir_name_lem_example = workspace_dir_name_lem (λ s. s) id id accepted
