-- ===== src/Daemon/Consistency/Written.antt =====
-- One `append` of crates/evo-runlog/src/store.rs, whether its columns can be written or not.
use evowork.Prelude.{
  ℕ, suc, ◌+◌, ◌^◌, ◌≤◌, ◌<◌, String, some, Bool, true, false, List, [], ◌∷◌, ◌≡◌, refl, arith,
  length, length-append, Option-cases, inl, inr, if◌then◌else◌,
}
use evowork.Prelude.Results.{Result}
use evowork.Protocol.Base.{RunId, Actor}
use evowork.Protocol.Event.{EventBody, Event}
use evowork.Kernel.State.{RunState}
use evowork.Kernel.Hash.{Codec, state_hash}
use evowork.Runlog.Store.{Serde, Row, RunLog, RunLogError, filter, append}
use evowork.Runlog.Select.{is_of, Stores, Holds}
use evowork.Runlog.Append.{Appends, append-Appends}
use evowork.Daemon.Replay.{bytes_eq}

-- A snapshot decodes, and to the state it was taken of if the hash is the same.
abbrev pub Decodes : Codec → RunState → Result RunState String → Type 0
Decodes codec s (Result.err detail) = ⊥
Decodes codec s (Result.ok t) = bytes_eq (state_hash codec t) (state_hash codec s) ≡ true → t ≡ s

-- What the runtime writes: the only number of an event that JSON may lose is a temperature, and the
-- runtime asks a model with 0.0 alone, whose bit pattern is 0.
abbrev pub IsPlain : EventBody → Type 0
IsPlain (EventBody.model_requested e) = e.params.temperature ≡ 0
IsPlain _ = Unit

abbrev pub ArePlain : List EventBody → Type 0
ArePlain [] = Unit
ArePlain (body ∷ bodies) = IsPlain body × ArePlain bodies

-- serde_json reads back the plain events that it wrote, and ciborium the states.
pub record IsFaithful (serde : Serde) (codec : Codec) : Type 0 where
  pub body :
      (b : EventBody) (payload : String)
      → IsPlain b
      → serde.to_string b ≡ some payload
      → serde.from_str payload ≡ some b
  pub actor :
      (a : Actor) (who : String)
      → serde.actor_to_string a ≡ some who
      → serde.actor_from_str who ≡ some a
  pub state : (s : RunState) → Decodes codec s (codec.from_reader (codec.into_writer s))

-- The table has so many rows that one run may have used every number of SQLite.
pub record IsFull (log : RunLog) : Type 0 where
  pub rows : 2 ^ 63 ≤ length log.run_events + 1

length-filter : (p : Row → Bool) (rows : List Row) → length (filter p rows) ≤ length rows
length-filter p [] = omega arith
length-filter p (r ∷ rows) = ground (arith, length-filter p rows)

module _ (serde : Serde) where
  Stores-length :
      (run : RunId) (n : ℕ) (rows : List Row) (held : List Event)
      → Stores serde run n rows held
      → length held ≡ length rows
  Stores-length run n [] [] s = refl
  Stores-length run n [] (e ∷ held) s = absurd s
  Stores-length run n (r ∷ rows) [] s = absurd s
  Stores-length run n (r ∷ rows) (e ∷ held) (a, d, s) =
      omega (arith, Stores-length run (suc n) rows held s)

  pub Holds-length :
      (run : RunId) (log : RunLog) (held : List Event)
      → Holds serde run log held
      → length held ≤ length log.run_events
  Holds-length run log held (s, b) = omega (
    arith,
    Stores-length run 0 (filter (is_of run) log.run_events) held s,
    length-filter (is_of run) log.run_events,
  )

  -- One row more, and no snapshot less.
  abbrev pub Adds : RunLog → Result (RunLog × Event) RunLogError → Type 0
  Adds log (Result.err e) = Unit
  Adds log (Result.ok (log', e)) =
      (log'.snapshots ≡ log.snapshots) × (length log'.run_events ≡ length log.run_events + 1)

  Adds-if :
      (log log' : RunLog) (e : Event) (b : Bool)
      → Adds log (Result.ok (log', e))
      → Adds log (if b then Result.err RunLogError.sqlite else Result.ok (log', e))
  Adds-if log log' e true h = tt
  Adds-if log log' e false h = h

  pub append-Adds :
      (log : RunLog) (run : RunId) (actor : Actor) (recorded_at : String) (body : EventBody)
      → Adds log (append serde log run actor recorded_at body)
  unfolding append
  append-Adds log run actor recorded_at body = elim (Option-cases (serde.to_string body)) [
    | inl p ↦ rw p tt
    | inr (payload, p) ↦ elim (Option-cases (serde.actor_to_string actor)) [
      | inl a ↦ rw (p, a) tt
      | inr (who, a) ↦
          rw (p, a) (Adds-if log _ _ _ (refl, omega (arith, length-append log.run_events _)))
    ]
  ]

module _ (serde : Serde) (codec : Codec) (laws : IsFaithful serde codec) (run : RunId) where
  module _ (log : RunLog) (held : List Event) (actor : Actor) (recorded_at : String)
      (body : EventBody) where
    abbrev pub AppendsIfOk : Result (RunLog × Event) RunLogError → Type 0
    AppendsIfOk (Result.err e) = Unit
    AppendsIfOk (Result.ok (log', e)) =
        Appends serde run log held actor recorded_at body (Result.ok (log', e))

    if_ok :
        (result : Result (RunLog × Event) RunLogError)
        → Appends serde run log held actor recorded_at body result
        → AppendsIfOk result
    if_ok (Result.err e) h = tt
    if_ok (Result.ok (log', e)) h = h

    -- What an append that succeeds does to a run with room for one more number.
    pub append-AppendsIfOk :
        IsPlain body
        → Holds serde run log held
        → length held + 1 < 2 ^ 63
        → AppendsIfOk (append serde log run actor recorded_at body)
    unfolding append
    append-AppendsIfOk plain h k = elim (Option-cases (serde.to_string body)) [
      | inl p ↦ rw p tt
      | inr (payload, p) ↦ elim (Option-cases (serde.actor_to_string actor)) [
        | inl a ↦ rw (p, a) tt
        | inr (who, a) ↦ if_ok (append serde log run actor recorded_at body) (
            append-Appends serde run log held actor recorded_at body payload who p
              (laws.body body payload plain p) a (laws.actor actor who a) h k)
      ]
    ]
