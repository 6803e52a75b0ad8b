-- ===== src/Kernel/WallTime.antt =====
-- The wall time of crates/evo-kernel/src/reduce.rs: measured from the first sample of the clock.
use evowork.Prelude.{
  ℕ, ◌-◌, Option, none, some, List, [], ◌∷◌, ◌≡◌, refl, arith, filter_map, Option-cases, ap, ◌∙◌,
  inl, inr,
}
use evowork.Prelude.Words.{max}
use evowork.Protocol.Base.{RunId}
use evowork.Protocol.Event.{EventBody, Event}
use evowork.Kernel.State.{RunState, new}
use evowork.Kernel.Reduce.{reduce, reduce_all, fold}
use evowork.Kernel.History.{reduce_all-cons}

-- The samples of the clock in a log.
abbrev sample : EventBody → Option ℕ
sample (EventBody.env_sampled b) = some b.wall_clock_ms
sample _ = none

abbrev pub samples : List Event → List ℕ
samples = filter_map (λ e. sample e.body)

-- The greatest of `acc` and the times since `start`.
abbrev pub longest : ℕ → ℕ → List ℕ → ℕ
longest start acc [] = acc
longest start acc (w ∷ ws) = longest start (max acc (w - start)) ws

-- The same, from the first sample on.
abbrev pub longest_run : List ℕ → ℕ
longest_run [] = 0
longest_run (w ∷ ws) = longest w 0 ws

abbrev pub first_sample : List ℕ → Option ℕ
first_sample [] = none
first_sample (w ∷ ws) = some w

module _ (s s' : RunState) (e : Event) (h : reduce s e ≡ some s') where
  reduce-wall_silent :
      sample e.body ≡ none
      → (s'.clock_start_ms ≡ s.clock_start_ms) × (s'.budget_used.wall_ms ≡ s.budget_used.wall_ms)
  unfolding reduce
  reduce-wall_silent p = ground arith

  reduce-wall_first :
      (w : ℕ)
      → sample e.body ≡ some w
      → s.clock_start_ms ≡ none
      → s.budget_used.wall_ms ≡ 0
      → (s'.clock_start_ms ≡ some w) × (s'.budget_used.wall_ms ≡ 0)
  unfolding reduce
  reduce-wall_first w p q z = ground arith

  reduce-wall_next :
      (w start : ℕ)
      → sample e.body ≡ some w
      → s.clock_start_ms ≡ some start
      → (s'.clock_start_ms ≡ some start)
        × (s'.budget_used.wall_ms ≡ max s.budget_used.wall_ms (w - start))
  unfolding reduce
  reduce-wall_next w start p q = ground arith

reduce_all-wall_next :
    (s t : RunState) (start : ℕ) (events : List Event)
    → s.clock_start_ms ≡ some start
    → reduce_all (some s) events ≡ some t
    → (t.clock_start_ms ≡ some start)
      × (t.budget_used.wall_ms ≡ longest start s.budget_used.wall_ms (samples events))
unfolding reduce_all
reduce_all-wall_next s t start [] c h = ground arith
reduce_all-wall_next s t start (e ∷ events) c h =
    let (s', p, q) = reduce_all-cons s t e events h in
    elim (Option-cases (sample e.body)) [
      | inl n ↦
          let k = reduce-wall_silent s s' e p n in
          let ih = reduce_all-wall_next s' t start events (k.0 ∙ c) q in
          rw n (ih.0, ih.1 ∙ ap (λ m. longest start m (samples events)) k.1)
      | inr (w, n) ↦
          let k = reduce-wall_next s s' e p w start n c in
          let ih = reduce_all-wall_next s' t start events k.0 q in
          rw n (ih.0, ih.1 ∙ ap (λ m. longest start m (samples events)) k.1)
    ]

reduce_all-wall_first :
    (s t : RunState) (events : List Event)
    → s.clock_start_ms ≡ none
    → s.budget_used.wall_ms ≡ 0
    → reduce_all (some s) events ≡ some t
    → (t.clock_start_ms ≡ first_sample (samples events))
      × (t.budget_used.wall_ms ≡ longest_run (samples events))
unfolding reduce_all
reduce_all-wall_first s t [] c z h = ground arith
reduce_all-wall_first s t (e ∷ events) c z h =
    let (s', p, q) = reduce_all-cons s t e events h in
    elim (Option-cases (sample e.body)) [
      | inl n ↦
          let k = reduce-wall_silent s s' e p n in
          rw n (reduce_all-wall_first s' t events (k.0 ∙ c) (k.1 ∙ z) q)
      | inr (w, n) ↦
          let k = reduce-wall_first s s' e p w n c z in
          let ih = reduce_all-wall_next s' t w events k.0 q in
          rw n (ih.0, ih.1 ∙ ap (λ m. longest w m (samples events)) k.1)
    ]

-- After a replay the start of the clock is the first sample of the log, and the wall time used is the
-- greatest distance of a sample from that first one: a clock that goes back never lowers it, and 0 is
-- a sample like any other.
pub fold-wall_ms :
    (run : RunId) (events : List Event) (s : RunState)
    → fold run events ≡ some s
    → (s.clock_start_ms ≡ first_sample (samples events))
      × (s.budget_used.wall_ms ≡ longest_run (samples events))
unfolding fold
fold-wall_ms run events s h = reduce_all-wall_first (new run) s events refl refl h
