-- ===== src/Daemon/Scheduler/Hooks.antt =====
-- The secrets of web hooks in crates/evo-daemon/src/http.rs: who has one.
use evowork.Prelude.{
  ℕ, ◌≡◌, refl, sym, ap, subst, ◌∙◌, String, Bool, true, false, not, ◌&&◌, Option, none, some,
  is_some, Bool-cases, if◌then◌else◌, inl, inr, arith,
}
use evowork.Prelude.Results.{Result}
use evowork.Protocol.Rpc.{TriggerCreateParams}
use evowork.Daemon.Action.{Outcome, and_then, pure}
use evowork.Daemon.Machine.{Env}
use evowork.Daemon.Trigger.Store.{SpecJson, TriggerRecord, TriggerStoreError, Table, get, update}
use evowork.Daemon.Trigger.Store.Laws.{IsFaithful}
use evowork.Daemon.Trigger.Store.Lookups.{FindsIfOk, update-Finds, get-id}
use evowork.Daemon.Scheduler.{Host, AppState, reads, writes, write_result}
use evowork.Daemon.Scheduler.Records.{is_webhook, spec_eq, revised, needs_secret, with_secret}
use evowork.Daemon.Scheduler.Requests.{secret_drawn, draw_secret, ensure_secret, update_trigger}

-- A trigger has a secret exactly when it is a web hook.
abbrev pub IsHooked : TriggerRecord → Type 0
IsHooked rec = is_some rec.hook_secret ≡ is_webhook rec.spec

kept :
    (hook : Bool) (secret : Option String)
    → is_some secret ≡ hook
    → is_some (if not hook && false then none else secret) ≡ true
    → hook ≡ true
kept hook secret e h = ground arith

needed : (hook has : Bool) → (hook && not has) ≡ true → hook ≡ true
needed hook has h = ground arith

settled : (hook has : Bool) → (hook && not has) ≡ false → (has ≡ true → hook ≡ true) → has ≡ hook
settled hook has h k = ground arith

-- A revision keeps a secret only for a web hook.
revised-lem :
    (rec : TriggerRecord) (p : TriggerCreateParams) (now : ℕ)
    → IsHooked rec
    → is_some (revised rec p now).hook_secret ≡ true
    → is_webhook (revised rec p now).spec ≡ true
unfolding revised
revised-lem rec p now e = elim (Bool-cases (spec_eq rec.spec p.spec)) [
  | inl same ↦ rw same (kept (is_webhook rec.spec) rec.hook_secret e)
  | inr changed ↦ elim (Bool-cases (is_webhook p.spec)) [
    | inl hook ↦ rw (changed, hook) (λ h. refl)
    | inr other ↦ rw (changed, other) (λ h. h)
  ]
]

revised-id :
    (rec : TriggerRecord) (p : TriggerCreateParams) (now : ℕ) → (revised rec p now).id ≡ rec.id
unfolding revised
revised-id rec p now = refl

-- A record that belongs: it has the id, and a secret exactly when it is a web hook.
abbrev Belongs : String → TriggerRecord → Type 0
Belongs id rec = (rec.id ≡ id) × IsHooked rec

module _ (env : Env) (host : Host env.World) (json : SpecJson) where
  -- The record that is answered is hooked, and so is the one that is stored under the id by then: it
  -- has the secret and the spec of the answer.
  abbrev pub StoresHooked : String → Outcome (AppState env.World) TriggerRecord → Type 0
  StoresHooked id (Outcome.ok rec s) =
      IsHooked rec
      × (stored : TriggerRecord) × (get json id s.triggers ≡ Result.ok (some stored))
      × (stored.hook_secret ≡ rec.hook_secret)
      × (stored.spec ≡ rec.spec)
      × IsHooked stored
  StoresHooked id (Outcome.err e s) = Unit
  StoresHooked id Outcome.panicked = Unit

  write-Stores :
      (id : String) (s : AppState env.World) (rec : TriggerRecord)
      (written : Result Table TriggerStoreError)
      → Belongs id rec
      → FindsIfOk json rec written
      → StoresHooked id (and_then (λ _. pure rec) (write_result env host json s written))
  unfolding and_then
  write-Stores id s rec (Result.ok table) (same, h) f = (
    h,
    f.stored,
    subst (λ i. get json i table ≡ Result.ok (some f.stored)) same f.found,
    f.secret,
    f.spec,
    ap is_some f.secret ∙ h ∙ ap is_webhook (sym f.spec),
  )
  write-Stores id s rec (Result.err e) h f = tt

  module _ (id : String)
      (k : TriggerRecord → AppState env.World → Outcome (AppState env.World) TriggerRecord)
      (rest : (r : TriggerRecord) (t : AppState env.World)
        → Belongs id r
        → StoresHooked id (k r t)) where
    -- A secret is drawn when it is missing.
    drawn-Stores :
        (rec : TriggerRecord) (s : AppState env.World) (secret : Option String)
        → rec.id ≡ id
        → is_webhook rec.spec ≡ true
        → StoresHooked id (
            and_then
              (λ r. k r)
              (and_then
                (λ secret. pure (with_secret secret rec))
                (secret_drawn env host json s secret)))
    unfolding and_then
    drawn-Stores rec s none same h = tt
    drawn-Stores rec s (some secret) same h = rest _ s (same, sym h)

    ensure-Stores :
        (rec : TriggerRecord) (s : AppState env.World)
        → rec.id ≡ id
        → (is_some rec.hook_secret ≡ true → is_webhook rec.spec ≡ true)
        → StoresHooked id (and_then k (ensure_secret env host json rec s))
    unfolding ensure_secret draw_secret and_then
    ensure-Stores rec s same only = elim (Bool-cases (needs_secret rec)) [
      | inl need ↦ rw need (drawn-Stores rec _ _ same (needed _ _ need))
      | inr done ↦ rw done (rest rec s (same, settled _ _ done only))
    ]

  -- An update keeps the secrets where they belong: after it a trigger with a secret exactly when it
  -- is a web hook is stored as such a one under the same id, whatever the new spec, with the secret
  -- and the spec that are answered; a secret that is missing is drawn, and one that is not needed is
  -- dropped. This takes a serde_json that reads back the spec that it wrote, and says nothing of an
  -- update that fails.
  pub update_trigger-StoresHooked :
      (id : String) (p : TriggerCreateParams) (now : ℕ) (s : AppState env.World)
      (rec : TriggerRecord)
      → IsFaithful json
      → get json id s.triggers ≡ Result.ok (some rec)
      → IsHooked rec
      → StoresHooked id (update_trigger env host json id p now s)
  unfolding update_trigger reads writes and_then
  update_trigger-StoresHooked id p now s rec faithful found h = rw found (
      ensure-Stores id _
        (λ r t belongs.
          write-Stores id t r (update json r t.triggers) belongs
            (update-Finds json r t.triggers faithful))
        (revised rec p now) s (revised-id rec p now ∙ get-id json id s.triggers rec found)
        (revised-lem rec p now h))
