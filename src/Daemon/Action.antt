-- ===== src/Daemon/Action.antt =====
-- A step of the daemon: it changes a state and answers, fails or panics. What was written before a
-- failure stays written.
use evowork.Prelude.{Option, none, some, List, [], ◌∷◌}
use evowork.Prelude.Results.{Result}
use evowork.Daemon.Error.{DaemonError}

pub data Outcome (S : Type 0) (A : Type 0) : Type 0 where
  ok : A → S → Outcome S A
  err : DaemonError → S → Outcome S A
  panicked : Outcome S A

abbrev pub Action : Type 0 → Type 0 → Type 0
Action S A = S → Outcome S A

module _ {S A : Type 0} where
  abbrev pub pure : A → Action S A
  pure a s = Outcome.ok a s

  abbrev pub fail : DaemonError → Action S A
  fail e s = Outcome.err e s

  -- `expect` and `unreachable!`.
  abbrev pub panic : Action S A
  panic s = Outcome.panicked

  abbrev pub gets : (S → A) → Action S A
  gets f s = Outcome.ok (f s) s

  abbrev pub or_panic : Option A → Action S A
  or_panic none = panic
  or_panic (some a) = pure a

  -- `?`
  abbrev pub or_fail : {E : Type 0} → (E → DaemonError) → Result A E → Action S A
  or_fail of (Result.ok a) = pure a
  or_fail of (Result.err e) = fail (of e)

module _ {S A B : Type 0} where
  unfoldable pub and_then : (A → Action S B) → Outcome S A → Outcome S B
  and_then k (Outcome.ok a s) = k a s
  and_then k (Outcome.err e s) = Outcome.err e s
  and_then k Outcome.panicked = Outcome.panicked

infixl 5 ◌>>=◌ ◌>>◌
abbrev pub ◌>>=◌ : {S A B : Type 0} → Action S A → (A → Action S B) → Action S B
◌>>=◌ m k s = and_then k (m s)

abbrev pub ◌>>◌ : {S A B : Type 0} → Action S A → Action S B → Action S B
m >> k = m >>= λ _. k

module _ {S A B : Type 0} where
  -- A `for` loop that carries a value.
  unfoldable pub for_each : List B → (A → B → Action S A) → A → Action S A
  for_each [] body a = pure a
  for_each (b ∷ bs) body a = body a b >>= for_each bs body

  -- A `map` over a list whose function may fail.
  unfoldable pub traverse : (B → Action S A) → List B → Action S (List A)
  traverse f [] = pure []
  traverse f (b ∷ bs) = f b >>= λ a. traverse f bs >>= λ rest. pure (a ∷ rest)
