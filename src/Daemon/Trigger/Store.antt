-- ===== src/Daemon/Trigger/Store.antt =====
-- The table of crates/evo-daemon/src/trigger.rs. SQLite is taken as a table whose statements
-- succeed, but for the primary key and the unique index on `hook_secret`; serde_json is a
-- parameter.
use evowork.Prelude.{
  ℕ, zero, String, Bool, true, false, not, ◌&&◌, ◌||◌, Option, none, some, List, [], ◌∷◌, ◌++◌,
  if◌then◌else◌, any, is_some_and, map,
}
use evowork.Prelude.Int.{ℤ, pos, negsuc, leb_ℤ, ltb_ℤ, as_i64, as_u64}
use evowork.Prelude.Results.{Result}
use evowork.Prelude.Texts.{str_eq, str_lt, concat}
use evowork.Protocol.Base.{RunId}
use evowork.Protocol.Lifecycle.{TriggerKind}
use evowork.Protocol.Rpc.{TriggerSpec, TriggerView, trigger_kind}
use evowork.Runlog.Store.{filter}
pub mod Laws
pub mod Lookups

-- serde_json on a spec; `none` is its error.
pub record SpecJson : Type 0 where
  pub to_string : TriggerSpec → Option String
  pub from_str : String → Option TriggerSpec

-- An error stands without its text.
pub data TriggerStoreError : Type 0 where
  sqlite spec_json io : TriggerStoreError

pub record TriggerRecord : Type 0 where
  pub id : String
  pub name : String
  pub intent : String
  pub spec : TriggerSpec
  pub paused : Bool
  pub hook_secret : Option String
  pub next_fire_ms : Option ℕ
  pub last_run_id : Option RunId
  pub last_fired_ms : Option ℕ
  pub created_ms : ℕ

abbrev pub map_option {ℓ κ} : {A : Type ℓ} {B : Type κ} → (A → B) → Option A → Option B
map_option f none = none
map_option f (some a) = some (f a)

unfoldable pub view : TriggerRecord → TriggerView
view rec = record {
  trigger_id = rec.id;
  name = rec.name;
  intent = rec.intent;
  kind = trigger_kind rec.spec;
  spec = rec.spec;
  paused = rec.paused;
  next_fire_ms = rec.next_fire_ms;
  last_run_id = rec.last_run_id;
  last_fired_ms = rec.last_fired_ms;
  hook_path = map_option (λ secret. concat ("/v1/hooks/" ∷ secret ∷ [])) rec.hook_secret;
  created_ms = rec.created_ms;
}

-- A row of `triggers`, as it is stored and as it is read.
pub record MappedRow : Type 0 where
  pub id : String
  pub name : String
  pub intent : String
  pub spec_json : String
  pub paused : ℤ
  pub hook_secret : Option String
  pub next_fire_ms : Option ℤ
  pub last_run_id : Option String
  pub last_fired_ms : Option ℤ
  pub created_ms : ℤ

abbrev pub Table : Type 0
Table = List MappedRow

-- `rec.paused as i64`.
abbrev pub as_flag : Bool → ℤ
as_flag true = pos 1
as_flag false = pos 0

abbrev pub is_set : ℤ → Bool
is_set (pos zero) = false
is_set _ = true

abbrev pub row_of : TriggerRecord → String → MappedRow
row_of rec text = record {
  id = rec.id;
  name = rec.name;
  intent = rec.intent;
  spec_json = text;
  paused = as_flag rec.paused;
  hook_secret = rec.hook_secret;
  next_fire_ms = map_option as_i64 rec.next_fire_ms;
  last_run_id = rec.last_run_id;
  last_fired_ms = map_option as_i64 rec.last_fired_ms;
  created_ms = as_i64 rec.created_ms;
}

abbrev pub has_id : String → MappedRow → Bool
has_id id row = str_eq row.id id

abbrev pub has_secret : String → MappedRow → Bool
has_secret secret row = is_some_and row.hook_secret (λ s. str_eq s secret)

-- The unique index refuses a secret that another row has; NULL equals nothing.
abbrev pub secret_taken : Option String → Table → Bool
secret_taken none table = false
secret_taken (some secret) table = any (has_secret secret) table

-- `ORDER BY`: a stable insertion, by a test that `x` does not come after `y`.
abbrev pub insert_by : (MappedRow → MappedRow → Bool) → MappedRow → Table → Table
insert_by before x [] = x ∷ []
insert_by before x (y ∷ ys) = if before x y then x ∷ y ∷ ys else y ∷ insert_by before x ys

unfoldable pub order_by : (MappedRow → MappedRow → Bool) → Table → Table
order_by before [] = []
order_by before (x ∷ xs) = insert_by before x (order_by before xs)

-- `created_ms DESC, id DESC`.
abbrev pub newest_first : MappedRow → MappedRow → Bool
newest_first x y =
    ltb_ℤ y.created_ms x.created_ms || (leb_ℤ y.created_ms x.created_ms && not (str_lt x.id y.id))

-- `next_fire_ms, id`, where `next_fire_ms` is not NULL.
abbrev pub sooner : Option ℤ → Option ℤ → Bool → Bool
sooner (some a) (some b) by_id = ltb_ℤ a b || (leb_ℤ a b && by_id)
sooner _ _ by_id = by_id

abbrev pub due_first : MappedRow → MappedRow → Bool
due_first x y = sooner x.next_fire_ms y.next_fire_ms (not (str_lt y.id x.id))

abbrev pub is_due : ℕ → MappedRow → Bool
is_due now_ms row =
    not (is_set row.paused) && is_some_and row.next_fire_ms (λ t. leb_ℤ t (as_i64 now_ms))

module _ (json : SpecJson) where
  -- What a statement is given, once the spec is written.
  unfoldable pub insert_row : TriggerRecord → Option String → Table → Result Table TriggerStoreError
  insert_row rec none table = Result.err TriggerStoreError.spec_json
  insert_row rec (some text) table =
      if any (has_id rec.id) table || secret_taken rec.hook_secret table
      then Result.err TriggerStoreError.sqlite
      else Result.ok (table ++ row_of rec text ∷ [])

  unfoldable pub insert : TriggerRecord → Table → Result Table TriggerStoreError
  insert rec table = insert_row rec (json.to_string rec.spec) table

  -- `UPDATE` leaves the id and the time of creation alone.
  abbrev pub updated : TriggerRecord → String → MappedRow → MappedRow
  updated rec text row =
      if has_id rec.id row then record (row_of rec text) { created_ms = row.created_ms } else row

  unfoldable pub update_row : TriggerRecord → Option String → Table → Result Table TriggerStoreError
  update_row rec none table = Result.err TriggerStoreError.spec_json
  update_row rec (some text) table =
      if not (any (has_id rec.id) table)
        || secret_taken rec.hook_secret (filter (λ row. not (has_id rec.id row)) table)
      then Result.err TriggerStoreError.sqlite
      else Result.ok (map (updated rec text) table)

  unfoldable pub update : TriggerRecord → Table → Result Table TriggerStoreError
  update rec table = update_row rec (json.to_string rec.spec) table

  unfoldable pub record_of : MappedRow → Option TriggerSpec → Result TriggerRecord TriggerStoreError
  record_of row none = Result.err TriggerStoreError.spec_json
  record_of row (some spec) = Result.ok (record {
    id = row.id;
    name = row.name;
    intent = row.intent;
    spec = spec;
    paused = is_set row.paused;
    hook_secret = row.hook_secret;
    next_fire_ms = map_option as_u64 row.next_fire_ms;
    last_run_id = row.last_run_id;
    last_fired_ms = map_option as_u64 row.last_fired_ms;
    created_ms = as_u64 row.created_ms;
  })

  unfoldable pub record_from_mapped : MappedRow → Result TriggerRecord TriggerStoreError
  record_from_mapped row = record_of row (json.from_str row.spec_json)

  abbrev pub found_first :
      Result TriggerRecord TriggerStoreError → Result (Option TriggerRecord) TriggerStoreError
  found_first (Result.ok rec) = Result.ok (some rec)
  found_first (Result.err e) = Result.err e

  abbrev pub query_first : Table → Result (Option TriggerRecord) TriggerStoreError
  query_first [] = Result.ok none
  query_first (row ∷ rows) = found_first (record_from_mapped row)

  unfoldable pub query_one :
      (MappedRow → Bool) → Table → Result (Option TriggerRecord) TriggerStoreError
  query_one wanted table = query_first (filter wanted table)

  unfoldable pub get : String → Table → Result (Option TriggerRecord) TriggerStoreError
  get id table = query_one (has_id id) table

  unfoldable pub get_by_secret : String → Table → Result (Option TriggerRecord) TriggerStoreError
  get_by_secret secret table = query_one (has_secret secret) table

  abbrev pub cons_ok :
      Result TriggerRecord TriggerStoreError
      → Result (List TriggerRecord) TriggerStoreError
      → Result (List TriggerRecord) TriggerStoreError
  cons_ok (Result.ok rec) (Result.ok recs) = Result.ok (rec ∷ recs)
  cons_ok (Result.ok rec) (Result.err e) = Result.err e
  cons_ok (Result.err e) rest = Result.err e

  unfoldable pub collect : Table → Result (List TriggerRecord) TriggerStoreError
  collect [] = Result.ok []
  collect (row ∷ rows) = cons_ok (record_from_mapped row) (collect rows)

  unfoldable pub list : Table → Result (List TriggerRecord) TriggerStoreError
  list table = collect (order_by newest_first table)

  unfoldable pub due : ℕ → Table → Result (List TriggerRecord) TriggerStoreError
  due now_ms table = collect (order_by due_first (filter (is_due now_ms) table))

unfoldable pub delete : String → Table → Bool × Table
delete id table = (any (has_id id) table, filter (λ row. not (has_id id row)) table)
