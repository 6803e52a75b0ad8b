-- ===== src/Daemon/Trigger/Store/Laws.antt =====
-- What is written to the trigger table of crates/evo-daemon/src/trigger.rs is read back.
use evowork.Prelude.{
  ℕ, ◌^◌, ◌<◌, ◌≡◌, refl, sym, ap, subst, ◌∙◌, String, Bool, true, false, ◌||◌, Option, none, some,
  [], ◌∷◌, ◌++◌, any, Bool-cases, if◌then◌else◌, inl, inr, arith,
}
use evowork.Prelude.Int.{as_u64-as_i64, as_i64, as_u64}
use evowork.Prelude.Results.{Result}
use evowork.Prelude.Texts.{eq_refl}
use evowork.Protocol.Rpc.{TriggerSpec}
use evowork.Runlog.Store.{filter}
use evowork.Daemon.Trigger.Store.{
  SpecJson, TriggerStoreError, TriggerRecord, MappedRow, Table, map_option, row_of, as_flag, is_set,
  has_id, secret_taken, insert, insert_row, get, query_one, record_from_mapped, record_of,
}

-- serde_json reads a spec that it wrote.
abbrev pub IsFaithful : SpecJson → Type 0
IsFaithful json =
    (spec : TriggerSpec) (text : String)
    → json.to_string spec ≡ some text
    → json.from_str text ≡ some spec

abbrev pub IsWord : Option ℕ → Type 0
IsWord none = Unit
IsWord (some n) = n < 2 ^ 64

-- The times of a record are `u64`.
pub record HasWords (rec : TriggerRecord) : Type 0 where
  pub next_fire : IsWord rec.next_fire_ms
  pub last_fired : IsWord rec.last_fired_ms
  pub created : rec.created_ms < 2 ^ 64

word_back : (o : Option ℕ) → IsWord o → map_option as_u64 (map_option as_i64 o) ≡ o
word_back none h = refl
word_back (some n) h = ap some (as_u64-as_i64 n h)

flag_back : (b : Bool) → is_set (as_flag b) ≡ b
flag_back true = refl
flag_back false = refl

-- A row holds the record that it was made of.
pub record_of-row_of :
    (json : SpecJson) (rec : TriggerRecord) (text : String)
    → HasWords rec
    → record_of json (row_of rec text) (some rec.spec) ≡ Result.ok rec
unfolding record_of
record_of-row_of json rec text w =
    rw
      (
        flag_back rec.paused,
        word_back rec.next_fire_ms w.next_fire,
        word_back rec.last_fired_ms w.last_fired,
        as_u64-as_i64 rec.created_ms w.created,
      )
      refl

pub or_false : (a b : Bool) → (a || b) ≡ false → (a ≡ false) × (b ≡ false)
or_false a b h = ground arith

-- A result that is an error is no table.
abbrev table_of : Table → Result Table TriggerStoreError → Table
table_of d (Result.ok t) = t
table_of d (Result.err e) = d

not_ok : {e : TriggerStoreError} {t : Table} → Result.err e ≡ Result.ok t → ⊥
not_ok h = cc

abbrev placed : Bool → Table → Result Table TriggerStoreError
placed taken t = if taken then Result.err TriggerStoreError.sqlite else Result.ok t

ok_same : {s t : Table} → placed false s ≡ Result.ok t → s ≡ t
ok_same {s} h = ap (table_of s) h

filter-absent :
    (id : String) (table : Table) (row : MappedRow)
    → any (has_id id) table ≡ false
    → filter (has_id id) (table ++ row ∷ []) ≡ filter (has_id id) (row ∷ [])
filter-absent id [] row h = refl
filter-absent id (x ∷ xs) row h =
    let (here, rest) = or_false (has_id id x) (any (has_id id) xs) h in
    rw here (filter-absent id xs row rest)

-- The row is found under the id, and the record in the row.
get-row :
    (json : SpecJson) (rec : TriggerRecord) (table : Table) (text : String)
    → json.from_str text ≡ some rec.spec
    → HasWords rec
    → any (has_id rec.id) table ≡ false
    → get json rec.id (table ++ row_of rec text ∷ []) ≡ Result.ok (some rec)
unfolding get query_one record_from_mapped
get-row json rec table text e w absent =
    rw
      (
        filter-absent rec.id table (row_of rec text) absent,
        eq_refl rec.id,
        e,
        record_of-row_of json rec text w,
      )
      refl

get-insert_row :
    (json : SpecJson) (rec : TriggerRecord) (before after : Table) (text : Option String)
    → json.to_string rec.spec ≡ text
    → IsFaithful json
    → HasWords rec
    → insert_row json rec text before ≡ Result.ok after
    → get json rec.id after ≡ Result.ok (some rec)
unfolding insert_row
get-insert_row json rec before after none t faithful w e = absurd (not_ok e)
get-insert_row json rec before after (some text) t faithful w e =
    elim (Bool-cases (any (has_id rec.id) before || secret_taken rec.hook_secret before)) [
      | inl taken ↦
          absurd (not_ok (sym (ap (λ b. placed b (before ++ row_of rec text ∷ [])) taken) ∙ e))
      | inr free ↦
          let (absent, open_) = or_false _ _ free in
          let same = ok_same (sym (ap (λ b. placed b (before ++ row_of rec text ∷ [])) free) ∙ e) in
          subst (λ t. get json rec.id t ≡ Result.ok (some rec)) same
            (get-row json rec before text (faithful rec.spec text t) w absent)
    ]

-- A trigger that was inserted is read back as it was, given that serde_json reads what it wrote.
pub get-insert :
    (json : SpecJson) (rec : TriggerRecord) (before after : Table)
    → IsFaithful json
    → HasWords rec
    → insert json rec before ≡ Result.ok after
    → get json rec.id after ≡ Result.ok (some rec)
unfolding insert
get-insert json rec before after faithful w e =
    get-insert_row json rec before after (json.to_string rec.spec) refl faithful w e
