-- ===== src/Runlog/Numbered.antt =====
-- The events that a log holds are numbered from 0 without a gap, so a range of numbers is a stretch of
-- them.
use evowork.Prelude.{
  ℕ, suc, ◌+◌, ◌^◌, ◌≤◌, ◌<◌, none, some, List, [], ◌∷◌, ◌++◌, ◌≡◌, refl, arith, length, ltb, ap,
  ◌∙◌,
}
use evowork.Prelude.Results.{Result}
use evowork.Protocol.Base.{RunId}
use evowork.Protocol.Event.{Event}
use evowork.Runlog.Store.{Serde, Row, RunLog, filter, events}
use evowork.Runlog.Select.{Stores, Holds, events-Holds, read_seq, within, is_of}

abbrev pub Numbered : ℕ → List Event → Type 0
Numbered n [] = Unit
Numbered n (e ∷ held) = (e.seq ≡ n) × Numbered (suc n) held

pub all_within :
    (n : ℕ) (held : List Event)
    → Numbered n held
    → n + length held < 2 ^ 63
    → filter (λ e. within 0 none e.seq) held ≡ held
all_within n [] h b = refl
all_within n (e ∷ held) (q, h) b = ground (arith, all_within (suc n) held h)

pub none_before :
    (m n : ℕ) (held : List Event) → Numbered n held → m ≤ n → filter (λ e. ltb e.seq m) held ≡ []
none_before m n [] h b = refl
none_before m n (e ∷ held) (q, h) b = ground (arith, none_before m (suc n) held h)

same_within :
    (m t n : ℕ) (held : List Event)
    → Numbered n held
    → n + length held < 2 ^ 63
    → m ≤ n
    → filter (λ e. within 0 (some t) e.seq) held ≡ filter (λ e. within m (some t) e.seq) held
same_within m t n [] h b k = refl
same_within m t n (e ∷ held) (q, h) b k = ground (arith, same_within m t (suc n) held h)

-- The events up to `t` are those before `m` and those from `m` up to `t`.
pub within_split :
    (m t n : ℕ) (held : List Event)
    → Numbered n held
    → n + length held < 2 ^ 63
    → m ≤ t
    → t < 2 ^ 63
    → filter (λ e. within 0 (some t) e.seq) held
      ≡ filter (λ e. ltb e.seq m) held ++ filter (λ e. within m (some t) e.seq) held
within_split m t n [] h b k l = refl
within_split m t n (e ∷ held) (q, h) b k l = ground (
  arith,
  within_split m t (suc n) held h,
  none_before m n (e ∷ held) (q, h),
  same_within m t n (e ∷ held) (q, h),
)

module _ (serde : Serde) (run_id : RunId) where
  Stores-Numbered :
      (n : ℕ) (rows : List Row) (held : List Event)
      → Stores serde run_id n rows held
      → Numbered n held
  Stores-Numbered n [] [] s = tt
  Stores-Numbered n [] (e ∷ held) s = absurd s
  Stores-Numbered n (r ∷ rows) [] s = absurd s
  Stores-Numbered n (r ∷ rows) (e ∷ held) (q, d, s) =
      (read_seq serde run_id r e d ∙ q, Stores-Numbered (suc n) rows held s)

  pub Holds-Numbered :
      (log : RunLog) (held : List Event) → Holds serde run_id log held → Numbered 0 held
  Holds-Numbered log held (s, b) = Stores-Numbered 0 (filter (is_of run_id) log.run_events) held s

  pub events_all :
      (log : RunLog) (held : List Event)
      → Holds serde run_id log held
      → events serde log run_id 0 none ≡ Result.ok held
  events_all log held h =
      events-Holds serde run_id log held 0 none h
      ∙ ap Result.ok (all_within 0 held (Holds-Numbered log held h) (omega (arith, h.1)))
