-- ===== src/Daemon/Trigger/Store/Lookups.antt =====
-- What a lookup finds in the trigger table of crates/evo-daemon/src/trigger.rs, after an update too.
use evowork.Prelude.{
  ◌≡◌, refl, sym, ap, subst, map, not, ◌∙◌, String, Bool, true, false, ◌||◌, Option, none, some, [],
  ◌∷◌, any, Bool-cases, inl, inr, arith,
}
use evowork.Prelude.Int.{as_i64, as_u64}
use evowork.Prelude.Results.{Result}
use evowork.Prelude.Texts.{eq_refl, eq_iff}
use evowork.Protocol.Rpc.{TriggerSpec}
use evowork.Runlog.Store.{filter}
use evowork.Daemon.Trigger.Store.{
  SpecJson, TriggerStoreError, TriggerRecord, MappedRow, Table, map_option, row_of, updated, update,
  update_row, query_first, found_first, as_flag, is_set, has_id, secret_taken, get, query_one,
  record_from_mapped, record_of,
}
use evowork.Daemon.Trigger.Store.Laws.{IsFaithful, or_false}

abbrev recorded : TriggerRecord → Result TriggerRecord TriggerStoreError → TriggerRecord
recorded d (Result.ok t) = t
recorded d (Result.err e) = d

abbrev first_of : TriggerRecord → Result (Option TriggerRecord) TriggerStoreError → TriggerRecord
first_of d (Result.ok (some t)) = t
first_of d _ = d

-- What a row says of its record.
pub record IsRecordOf (rec : TriggerRecord) (row : MappedRow) : Type 0 where
  pub id : rec.id ≡ row.id
  pub paused : rec.paused ≡ is_set row.paused
  pub next_fire : rec.next_fire_ms ≡ map_option as_u64 row.next_fire_ms

record_of-IsRecordOf :
    (json : SpecJson) (row : MappedRow) (spec : Option TriggerSpec) (rec : TriggerRecord)
    → record_of json row spec ≡ Result.ok rec
    → IsRecordOf rec row
unfolding record_of
record_of-IsRecordOf json row none rec h = absurd (cc)
record_of-IsRecordOf json row (some spec) rec h =
    let same : rec ≡ _ = sym (ap (recorded rec) h) in
    record {
      id = ap (λ r. r.id) same;
      paused = ap (λ r. r.paused) same;
      next_fire = ap (λ r. r.next_fire_ms) same;
    }

pub mapped-IsRecordOf :
    (json : SpecJson) (row : MappedRow) (rec : TriggerRecord)
    → record_from_mapped json row ≡ Result.ok rec
    → IsRecordOf rec row
unfolding record_from_mapped
mapped-IsRecordOf json row rec h = record_of-IsRecordOf json row (json.from_str row.spec_json) rec h

-- The row is the first one under its id.
pub get-first :
    (json : SpecJson) (id : String) (table rows : Table) (row : MappedRow) (rec : TriggerRecord)
    → filter (has_id id) table ≡ row ∷ rows
    → record_from_mapped json row ≡ Result.ok rec
    → get json id table ≡ Result.ok (some rec)
unfolding get query_one
get-first json id table rows row rec f e = rw (f, e) refl

abbrev head_of : MappedRow → Table → MappedRow
head_of d [] = d
head_of d (row ∷ rows) = row

filter-here :
    (p : MappedRow → Bool) (x : MappedRow) (xs : Table)
    → p x ≡ true
    → filter p (x ∷ xs) ≡ x ∷ filter p xs
filter-here p x xs h = rw h refl

filter-skip :
    (p : MappedRow → Bool) (x : MappedRow) (xs : Table)
    → p x ≡ false
    → filter p (x ∷ xs) ≡ filter p xs
filter-skip p x xs h = rw h refl

first-id :
    (id : String) (table rows : Table) (row : MappedRow)
    → filter (has_id id) table ≡ row ∷ rows
    → has_id id row ≡ true
first-id id [] rows row h = ground arith
first-id id (x ∷ xs) rows row h = elim (Bool-cases (has_id id x)) [
  | inl here ↦
      let same = ap (head_of row) (sym (filter-here (has_id id) x xs here) ∙ h) in
      subst (λ r. has_id id r ≡ true) same here
  | inr other ↦ first-id id xs rows row (sym (filter-skip (has_id id) x xs other) ∙ h)
]

found-id :
    (json : SpecJson) (id : String) (table : Table) (r : Result TriggerRecord TriggerStoreError)
    (row : MappedRow) (rows : Table) (rec : TriggerRecord)
    → record_from_mapped json row ≡ r
    → filter (has_id id) table ≡ row ∷ rows
    → found_first json r ≡ Result.ok (some rec)
    → rec.id ≡ id
found-id json id table (Result.err e) row rows rec q f h = ground arith
found-id json id table (Result.ok found) row rows rec q f h =
    sym (ap (λ o. (first_of found o).id) h)
    ∙ (mapped-IsRecordOf json row found q).id
    ∙ (eq_iff row.id id).0 (first-id id table rows row f)

-- A record that is found has the id that was asked for.
pub get-id :
    (json : SpecJson) (id : String) (table : Table) (rec : TriggerRecord)
    → get json id table ≡ Result.ok (some rec)
    → rec.id ≡ id
unfolding get query_one
get-id json id table rec h = go (filter (has_id id) table) refl h
  where
    go :
        (found : Table)
        → filter (has_id id) table ≡ found
        → query_first json found ≡ Result.ok (some rec)
        → rec.id ≡ id
    go [] f h = ground arith
    go (row ∷ rows) f h = found-id json id table (record_from_mapped json row) row rows rec refl f h

abbrev rewritten : TriggerRecord → String → MappedRow → MappedRow
rewritten rec text row = record (row_of rec text) { created_ms = row.created_ms }

module _ (json : SpecJson) (rec : TriggerRecord) (text : String) where
  updated-here :
      (x : MappedRow) → has_id rec.id x ≡ true → updated json rec text x ≡ rewritten rec text x
  updated-here x h = rw h refl

  updated-other : (x : MappedRow) → has_id rec.id x ≡ false → updated json rec text x ≡ x
  updated-other x h = rw h refl

  -- The first row of an updated table is the new one.
  filter-updated :
      (table : Table)
      → any (has_id rec.id) table ≡ true
      → (row : MappedRow) × (rows : Table) × (filter
            (has_id rec.id)
            (map (updated json rec text) table)
          ≡ rewritten rec text row ∷ rows)
  filter-updated [] h = absurd (ground arith)
  filter-updated (x ∷ xs) h = elim (Bool-cases (has_id rec.id x)) [
    | inl here ↦
        let rest = map (updated json rec text) xs in
        let new = updated-here x here in
        (
          x,
          filter (has_id rec.id) rest,
          ap (λ r. filter (has_id rec.id) (r ∷ rest)) new
              ∙ filter-here (has_id rec.id) (rewritten rec text x) rest (eq_refl rec.id),
        )
    | inr other ↦
        let rest = map (updated json rec text) xs in
        let (row, rows, e) =
          filter-updated xs (sym (ap (λ b. b || any (has_id rec.id) xs) other) ∙ h) in
        (
          row,
          rows,
          ap (λ r. filter (has_id rec.id) (r ∷ rest)) (updated-other x other)
              ∙ filter-skip (has_id rec.id) x rest other
              ∙ e,
        )
  ]

-- What a lookup finds after an update: the secret and the spec that were written.
pub record Finds (json : SpecJson) (rec : TriggerRecord) (table : Table) : Type 0 where
  pub stored : TriggerRecord
  pub found : get json rec.id table ≡ Result.ok (some stored)
  pub secret : stored.hook_secret ≡ rec.hook_secret
  pub spec : stored.spec ≡ rec.spec

abbrev pub FindsIfOk : SpecJson → TriggerRecord → Result Table TriggerStoreError → Type 0
FindsIfOk json rec (Result.ok table) = Finds json rec table
FindsIfOk json rec (Result.err e) = Unit

-- The record that an updated row holds.
abbrev rewritten_record : TriggerRecord → MappedRow → TriggerRecord
rewritten_record rec row = record rec {
  paused = is_set (as_flag rec.paused);
  next_fire_ms = map_option as_u64 (map_option as_i64 rec.next_fire_ms);
  last_fired_ms = map_option as_u64 (map_option as_i64 rec.last_fired_ms);
  created_ms = as_u64 row.created_ms;
}

mapped-rewritten :
    (json : SpecJson) (rec : TriggerRecord) (text : String) (row : MappedRow)
    → json.from_str text ≡ some rec.spec
    → record_from_mapped json (rewritten rec text row) ≡ Result.ok (rewritten_record rec row)
unfolding record_from_mapped record_of
mapped-rewritten json rec text row e = rw e refl

updated-Finds :
    (json : SpecJson) (rec : TriggerRecord) (text : String) (table : Table)
    → json.from_str text ≡ some rec.spec
    → any (has_id rec.id) table ≡ true
    → Finds json rec (map (updated json rec text) table)
updated-Finds json rec text table e h =
    let (row, rows, f) = filter-updated json rec text table h in
    record {
      stored = rewritten_record rec row;
      found =
          get-first json rec.id (map (updated json rec text) table) rows (rewritten rec text row)
            (rewritten_record rec row) f (mapped-rewritten json rec text row e);
      secret = refl;
      spec = refl;
    }

update_row-Finds :
    (json : SpecJson) (rec : TriggerRecord) (table : Table) (text : Option String)
    → json.to_string rec.spec ≡ text
    → IsFaithful json
    → FindsIfOk json rec (update_row json rec text table)
unfolding update_row
update_row-Finds json rec table none t faithful = tt
update_row-Finds json rec table (some text) t faithful =
    let taken = secret_taken rec.hook_secret (filter (λ row. not (has_id rec.id row)) table) in
    elim (Bool-cases (not (any (has_id rec.id) table) || taken)) [
      | inl refused ↦ rw refused tt
      | inr free ↦
          let (known, unused) = or_false (not (any (has_id rec.id) table)) taken free in
          rw free
            (updated-Finds json rec text table (faithful rec.spec text t) (ground (arith, known)))
    ]

-- After an update that succeeds, the trigger is found with the secret and the spec that were written.
pub update-Finds :
    (json : SpecJson) (rec : TriggerRecord) (table : Table)
    → IsFaithful json
    → FindsIfOk json rec (update json rec table)
unfolding update
update-Finds json rec table faithful =
    update_row-Finds json rec table (json.to_string rec.spec) refl faithful
