-- ===== src/Runlog/Append.antt =====
-- `append` of crates/evo-runlog/src/store.rs adds one event at the end of its run and nothing else.
use evowork.Prelude.{
  ℕ, suc, ◌+◌, ◌^◌, ◌≤◌, ◌<◌, String, some, Bool, false, ◌&&◌, List, [], ◌∷◌, ◌++◌, ◌≡◌, ◌==◌, refl,
  arith, length, length-append, any,
}
use mathlib.Core.List.{append-nil}
use evowork.Prelude.Results.{Result}
use evowork.Prelude.Texts.{str_eq, eq_refl}
use evowork.Protocol.Base.{RunId, Actor}
use evowork.Protocol.Event.{EventBody, Event}
use evowork.Protocol.Kind.{kind, schema_ver}
use evowork.Runlog.Store.{
  Serde, Row, RunLog, RunLogError, filter, max_seq, last_seq, next_seq, event_of, append,
}
use evowork.Runlog.Select.{is_of, Stores, Holds, small_i64_leb}

pub filter-append :
    {A : Type 0} (p : A → Bool) (xs ys : List A) → filter p (xs ++ ys) ≡ filter p xs ++ filter p ys
filter-append p [] ys = refl
filter-append p (x ∷ xs) ys = ground (arith, filter-append p xs ys)

any-filter : (p q : Row → Bool) (xs : List Row) → any (λ r. p r && q r) xs ≡ any q (filter p xs)
any-filter p q [] = refl
any-filter p q (x ∷ xs) = ground (arith, any-filter p q xs)

module _ (serde : Serde) (run_id : RunId) where
  Stores-append :
      (n : ℕ) (rows : List Row) (held : List Event) (r : Row) (e : Event)
      → Stores serde run_id n rows held
      → r.seq ≡ n + length held
      → event_of serde run_id r (serde.actor_from_str r.actor) (serde.from_str r.payload) ≡ some e
      → Stores serde run_id n (rows ++ r ∷ []) (held ++ e ∷ [])
  Stores-append n [] [] r e s q d = (omega (arith, q), d, tt)
  Stores-append n [] (x ∷ held) r e s q d = absurd s
  Stores-append n (t ∷ rows) [] r e s q d = absurd s
  Stores-append n (t ∷ rows) (x ∷ held) r e (a, b, s) q d =
      (a, b, Stores-append (suc n) rows held r e s (omega (arith, q)) d)

  stored_unused :
      (n m : ℕ) (rows : List Row) (held : List Event)
      → Stores serde run_id n rows held
      → n + length held ≤ m
      → any (λ r. r.seq == m) rows ≡ false
  stored_unused n m [] held s h = refl
  stored_unused n m (t ∷ rows) [] s h = absurd s
  stored_unused n m (t ∷ rows) (x ∷ held) (a, b, s) h =
      ground (arith, stored_unused (suc n) m rows held s)

  pub max_seq_stored :
      (n : ℕ) (rows : List Row) (e : Event) (held : List Event)
      → Stores serde run_id n rows (e ∷ held)
      → n + length held < 2 ^ 63
      → max_seq rows ≡ some (n + length held)
  unfolding max_seq
  max_seq_stored n [] e held s b = absurd s
  max_seq_stored n (t ∷ []) e [] (a, d, s) b = ground arith
  max_seq_stored n (t ∷ []) e (x ∷ held) (a, d, s) b = absurd s
  max_seq_stored n (t ∷ u ∷ rows) e [] (a, d, s) b = absurd s
  max_seq_stored n (t ∷ u ∷ rows) e (x ∷ held) (a, d, s) b = ground (
    arith,
    max_seq_stored (suc n) (u ∷ rows) x held s,
    small_i64_leb t.seq (n + length (x ∷ held)),
  )

  next_seq_stored :
      (rows : List Row) (held : List Event)
      → Stores serde run_id 0 rows held
      → length held < 2 ^ 63
      → next_seq (max_seq rows) ≡ length held
  unfolding next_seq max_seq
  next_seq_stored [] [] s b = refl
  next_seq_stored [] (e ∷ held) s b = absurd s
  next_seq_stored (r ∷ rows) [] s b = absurd s
  next_seq_stored (r ∷ rows) (e ∷ held) s b = ground (arith, max_seq_stored 0 (r ∷ rows) e held s)

  module _ (log : RunLog) (held : List Event) (actor : Actor) (recorded_at : String)
      (body : EventBody) where
    -- The event that is to be appended: its number is the count of those before it.
    abbrev pub next_event : Event
    next_event = record {
      run_id = run_id;
      seq = length held;
      recorded_at = recorded_at;
      actor = actor;
      schema_ver = schema_ver body;
      body = body;
    }

    next_row : String → String → Row
    next_row payload who = record {
      run_id = run_id;
      seq = length held;
      kind = kind body;
      schema_ver = schema_ver body;
      recorded_at = recorded_at;
      actor = who;
      payload = payload;
    }

    -- The append succeeds, returns the event, and the log holds it at the end of its run; the events
    -- of every other run are those from before.
    abbrev pub Appends : Result (RunLog × Event) RunLogError → Type 0
    Appends (Result.err e) = ⊥
    Appends (Result.ok (log', e)) =
        (e ≡ next_event)
        × Holds serde run_id log' (held ++ next_event ∷ [])
        × ((other : RunId) (others : List Event)
            → str_eq run_id other ≡ false
            → Holds serde other log others
            → Holds serde other log' others)

    Adds : Row → Result (RunLog × Event) RunLogError → Type 0
    Adds row (Result.err e) = ⊥
    Adds row (Result.ok (log', e)) =
        (e ≡ next_event) × (log'.run_events ≡ log.run_events ++ row ∷ [])

    append-Adds :
        (payload who : String)
        → serde.to_string body ≡ some payload
        → serde.actor_to_string actor ≡ some who
        → Holds serde run_id log held
        → Adds (next_row payload who) (append serde log run_id actor recorded_at body)
    unfolding append Adds last_seq next_row
    append-Adds payload who p a (s, b) =
        rw
          (
            next_seq_stored (filter (is_of run_id) log.run_events) held s b,
            p,
            a,
            any-filter (is_of run_id) (λ r. r.seq == length held) log.run_events,
            stored_unused 0 (length held) (filter (is_of run_id) log.run_events) held s
                (omega arith),
          )
          (refl, refl)

    new_row_stored :
        (payload who : String) (rows : List Row)
        → filter (is_of run_id) (rows ++ next_row payload who ∷ [])
          ≡ filter (is_of run_id) rows ++ next_row payload who ∷ []
    unfolding next_row
    new_row_stored payload who rows =
        ground
          (arith, eq_refl run_id, filter-append (is_of run_id) rows (next_row payload who ∷ []))

    new_row_elsewhere :
        (payload who : String) (rows : List Row) (other : RunId)
        → str_eq run_id other ≡ false
        → filter (is_of other) (rows ++ next_row payload who ∷ []) ≡ filter (is_of other) rows
    unfolding next_row
    new_row_elsewhere payload who rows other h = ground (
      arith,
      append-nil (filter (is_of other) rows),
      filter-append (is_of other) rows (next_row payload who ∷ []),
    )

    Adds-Appends :
        (payload who : String) (result : Result (RunLog × Event) RunLogError)
        → serde.from_str payload ≡ some body
        → serde.actor_from_str who ≡ some actor
        → Holds serde run_id log held
        → length held + 1 < 2 ^ 63
        → Adds (next_row payload who) result
        → Appends result
    unfolding Adds next_row event_of
    Adds-Appends payload who (Result.err e) p a (s, b) k h = absurd h
    Adds-Appends payload who (Result.ok (log', e)) p a (s, b) k (q, t) = (
      q,
      (
        rw (t, new_row_stored payload who log.run_events)
            (Stores-append 0 (filter (is_of run_id) log.run_events) held (next_row payload who)
              next_event s (omega arith) (rw (p, a) refl)),
        omega (arith, length-append held (next_event ∷ [])),
      ),
      λ other others d (s', b').
          (rw (t, new_row_elsewhere payload who log.run_events other d) s', b'),
    )

    -- Appending to a log whose run has room for one more number succeeds if the two JSON columns can
    -- be written and read back: the event carries the next number of its run, the run now holds it
    -- after all the events from before, and every other run holds what it held.
    pub append-Appends :
        (payload who : String)
        → serde.to_string body ≡ some payload
        → serde.from_str payload ≡ some body
        → serde.actor_to_string actor ≡ some who
        → serde.actor_from_str who ≡ some actor
        → Holds serde run_id log held
        → length held + 1 < 2 ^ 63
        → Appends (append serde log run_id actor recorded_at body)
    append-Appends payload who p p' a a' h k =
        Adds-Appends payload who (append serde log run_id actor recorded_at body) p' a' h k
          (append-Adds payload who p a h)
