-- ===== src/Runlog/Select.antt =====
-- What the log of a run holds, and that `events` of crates/evo-runlog/src/store.rs reads it.
use evowork.Prelude.{
  ℕ, suc, ◌+◌, ◌^◌, ◌≤◌, ◌<◌, Option, some, Bool, true, ◌&&◌, List, [], ◌∷◌, ◌≡◌, refl, arith,
  length, unwrap_or,
}
use evowork.Prelude.Results.{Result}
use evowork.Prelude.Texts.{str_eq}
use evowork.Protocol.Base.{RunId}
use evowork.Protocol.Event.{Event}
use evowork.Runlog.Store.{
  Serde, Row, RunLog, i64_leb, i64_max, filter, insert_row, order_by_seq, event_of, push, decode,
  events,
}

pub i64_leb_small : (a b : ℕ) → b < 2 ^ 63 → i64_leb a b ≡ true → a < 2 ^ 63 → a ≤ b
i64_leb_small a b h k l = ground arith

pub small_i64_leb : (a b : ℕ) → a ≤ b → b < 2 ^ 63 → i64_leb a b ≡ true
small_i64_leb a b h k = ground arith

filter-and :
    {A : Type 0} (p q : A → Bool) (xs : List A)
    → filter (λ x. p x && q x) xs ≡ filter q (filter p xs)
filter-and p q [] = refl
filter-and p q (x ∷ xs) = ground (arith, filter-and p q xs)

-- The run that a row belongs to.
abbrev pub is_of : RunId → Row → Bool
is_of run_id r = str_eq r.run_id run_id

-- The numbers that a query asks for.
abbrev pub within : ℕ → Option ℕ → ℕ → Bool
within from_seq to_seq seq = i64_leb from_seq seq && i64_leb seq (unwrap_or to_seq i64_max)

module _ (serde : Serde) (run_id : RunId) where
  abbrev read : Row → Option Event
  read r = event_of serde run_id r (serde.actor_from_str r.actor) (serde.from_str r.payload)

  -- The rows are the events, numbered from `n` without a gap, in the order in which they were written.
  abbrev pub Stores : ℕ → List Row → List Event → Type 0
  Stores n [] [] = Unit
  Stores n [] (e ∷ held) = ⊥
  Stores n (r ∷ rows) [] = ⊥
  Stores n (r ∷ rows) (e ∷ held) = (r.seq ≡ n) × (read r ≡ some e) × Stores (suc n) rows held

  -- The log holds these events of the run, and not so many that a number leaves `i64`.
  abbrev pub Holds : RunLog → List Event → Type 0
  Holds log held = Stores 0 (filter (is_of run_id) log.run_events) held × (length held < 2 ^ 63)

  insert_row_head :
      (p : Row → Bool) (n : ℕ) (r : Row) (rows : List Row) (held : List Event)
      → Stores n rows held
      → n + length held < 2 ^ 63
      → r.seq < n
      → insert_row r (filter p rows) ≡ r ∷ filter p rows
  insert_row_head p n r [] held s b h = refl
  insert_row_head p n r (t ∷ rows) [] s b h = absurd s
  insert_row_head p n r (t ∷ rows) (e ∷ held) (q, d, s) b h =
      ground (arith, insert_row_head p (suc n) r rows held s, small_i64_leb r.seq t.seq)

  order_by_seq_stored :
      (p : Row → Bool) (n : ℕ) (rows : List Row) (held : List Event)
      → Stores n rows held
      → n + length held < 2 ^ 63
      → order_by_seq (filter p rows) ≡ filter p rows
  unfolding order_by_seq
  order_by_seq_stored p n [] held s b = refl
  order_by_seq_stored p n (t ∷ rows) [] s b = absurd s
  order_by_seq_stored p n (t ∷ rows) (e ∷ held) (q, d, s) b =
      ground
        (arith, order_by_seq_stored p (suc n) rows held s, insert_row_head p (suc n) t rows held s)

  pub read_seq : (r : Row) (e : Event) → read r ≡ some e → e.seq ≡ r.seq
  unfolding event_of
  read_seq r e h = ground arith

  decode_stored :
      (p : ℕ → Bool) (n : ℕ) (rows : List Row) (held : List Event)
      → Stores n rows held
      → decode serde run_id (filter (λ r. p r.seq) rows) ≡ Result.ok (filter (λ e. p e.seq) held)
  unfolding decode push
  decode_stored p n [] [] s = refl
  decode_stored p n [] (e ∷ held) s = absurd s
  decode_stored p n (r ∷ rows) [] s = absurd s
  decode_stored p n (r ∷ rows) (e ∷ held) (q, d, s) =
      ground (arith, decode_stored p (suc n) rows held s, read_seq r e d)

  -- Reading a log that holds events gives exactly those in the range that is asked for, in the order
  -- in which they were appended.
  pub events-Holds :
      (log : RunLog) (held : List Event) (from_seq : ℕ) (to_seq : Option ℕ)
      → Holds log held
      → events serde log run_id from_seq to_seq
        ≡ Result.ok (filter (λ e. within from_seq to_seq e.seq) held)
  unfolding events
  events-Holds log held from_seq to_seq (s, b) =
      rw
        (
          filter-and (is_of run_id) (λ r. within from_seq to_seq r.seq) log.run_events,
          order_by_seq_stored (λ r. within from_seq to_seq r.seq) 0
              (filter (is_of run_id) log.run_events) held s (omega arith),
        )
        (decode_stored (within from_seq to_seq) 0 (filter (is_of run_id) log.run_events) held s)
