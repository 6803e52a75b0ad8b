-- ===== src/Kernel/History.antt =====
-- The states that a log leads to, as a relation between a history (newest event first) and a state.
use evowork.Prelude.{Option, none, some, List, [], ◌∷◌, ◌++◌, ◌≡◌, refl, inl, inr, Option-cases}
use evowork.Protocol.Base.{RunId}
use evowork.Protocol.Event.{Event}
use evowork.Kernel.State.{RunState, new}
use evowork.Kernel.Reduce.{reduce, reduce_all, fold}

pub data Reaches (id : RunId) : List Event → RunState → Type 0 where
  start : Reaches id [] (new id)
  step :
      {history : List Event} {s : RunState}
      → Reaches id history s
      → (e : Event) (s' : RunState) → reduce s e ≡ some s'
      → Reaches id (e ∷ history) s'

-- A replay that ends in a state, taken apart at its first event.
pub reduce_all-cons :
    (s t : RunState) (e : Event) (events : List Event)
    → reduce_all (some s) (e ∷ events) ≡ some t
    → (s' : RunState) × (reduce s e ≡ some s') × (reduce_all (some s') events ≡ some t)
unfolding reduce_all
reduce_all-cons s t e events h = elim (Option-cases (reduce s e)) [
  | inl p ↦ let q : reduce_all (reduce s e) events ≡ some t = h in cc
  | inr (s', p) ↦ let q : reduce_all (reduce s e) events ≡ some t = h in (s', p, rw p at q)
]

-- `rev events acc` puts the events on the history one by one.
abbrev pub rev : List Event → List Event → List Event
rev [] history = history
rev (e ∷ events) history = rev events (e ∷ history)

reduce_all-Reaches :
    (id : RunId) (events history : List Event) (s t : RunState)
    → Reaches id history s
    → reduce_all (some s) events ≡ some t
    → Reaches id (rev events history) t
unfolding reduce_all
reduce_all-Reaches id [] history s t r h = let e : s ≡ t = cc in rw e at r
reduce_all-Reaches id (e ∷ events) history s t r h =
    let (s', p, q) = reduce_all-cons s t e events h in
    reduce_all-Reaches id events (e ∷ history) s' t (step r e s' p) q

pub fold-Reaches :
    (id : RunId) (events : List Event) (s : RunState)
    → fold id events ≡ some s
    → Reaches id (rev events []) s
unfolding fold
fold-Reaches id events s h = reduce_all-Reaches id events [] (new id) s start h

-- A log replayed in two parts.
pub reduce_all-append :
    (o : Option RunState) (xs ys : List Event)
    → reduce_all o (xs ++ ys) ≡ reduce_all (reduce_all o xs) ys
unfolding reduce_all
reduce_all-append none [] ys = refl
reduce_all-append none (x ∷ xs) ys = refl
reduce_all-append (some s) [] ys = refl
reduce_all-append (some s) (x ∷ xs) ys = reduce_all-append (reduce s x) xs ys
