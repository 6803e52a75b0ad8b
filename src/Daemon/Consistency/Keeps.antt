-- ===== src/Daemon/Consistency/Keeps.antt =====
-- Steps of the daemon that keep a run in step with its log.
use evowork.Prelude.{ℕ, String, Option, none, some, List, [], ◌∷◌, ◌++◌, ◌≡◌, refl, subst, sym}
use evowork.Prelude.Results.{Result}
use evowork.Protocol.Base.{RunId, BlobRef}
use evowork.Protocol.Event.{Event}
use evowork.Kernel.State.{RunState}
use evowork.Runlog.Store.{RunLog, events}
use evowork.Runlog.Blobs.{BlobStore, get_blob}
use evowork.Daemon.Error.{DaemonError}
use evowork.Daemon.Action.{
  Outcome, pure, fail, panic, or_panic, or_fail, and_then, ◌>>=◌, for_each, traverse,
}
use evowork.Daemon.Machine.{Env, Machine, Step, ask, put, fetch, read_events, stored}
use evowork.Daemon.Consistency.InStep.{InStep}
use evowork.Daemon.Consistency.Written.{IsFaithful, IsFull}
use evowork.Daemon.Consistency.Emit.{Others}

-- A run, and what the log held when it was last looked at.
pub record Setting : Type 1 where
  pub env : Env
  pub laws : IsFaithful env.serde env.codec
  pub run : RunId
  pub base : List Event
  pub log0 : RunLog

module _ (c : Setting) where
  -- Since the log was `log0` and held `base`, the run has only grown, and its state is the replay of all
  -- that its log holds; or the table is full.
  pub data InSync (s : RunState) (log : RunLog) : Type 0 where
    full : IsFull log → InSync s log
    grown :
        (ext : List Event)
        → InStep c.env.serde c.env.codec c.run s (c.base ++ ext) log
        → Others c.env.serde c.run c.log0 log
        → InSync s log

  -- The same after a step, of the state that its answer carries, and of some state after a failure.
  abbrev pub After : {A : Type 0} → (A → RunState) → Outcome (Machine c.env.World) A → Type 0
  After view (Outcome.ok a m) = InSync (view a) m.log
  After view (Outcome.err e m) = (s : RunState) × InSync s m.log
  After view Outcome.panicked = Unit

  pub record Keeps {A : Type 0} (s : RunState) (view : A → RunState) (op : Step c.env A)
      : Type 0 where
    pub after : (m : Machine c.env.World) → InSync s m.log → After view (op m)

  -- A step that leaves the log alone.
  pub record Quiet {A : Type 0} (op : Step c.env A) : Type 0 where
    pub keeps : (s : RunState) → Keeps s (λ (a : A). s) op

-- A predicate of what an option holds.
abbrev pub OnSome : {A : Type 0} → (A → Type 0) → Option A → Type 0
OnSome P none = Unit
OnSome P (some a) = P a

module _ {c : Setting} where
  module _ {A B : Type 0} where
    after_bind :
        (mid : A → RunState) (view : B → RunState) (k : A → Step c.env B)
        (o : Outcome (Machine c.env.World) A)
        → After c mid o
        → ((a : A) → Keeps c (mid a) view (k a))
        → After c view (and_then k o)
    unfolding and_then
    after_bind mid view k (Outcome.ok a m) h f = (f a).after m h
    after_bind mid view k (Outcome.err e m) h f = h
    after_bind mid view k Outcome.panicked h f = tt

    pub bind :
        {s : RunState} {mid : A → RunState} {view : B → RunState} {op : Step c.env A}
        {k : A → Step c.env B}
        → Keeps c s mid op
        → ((a : A) → Keeps c (mid a) view (k a))
        → Keeps c s view (op >>= k)
    bind {s} {mid} {view} {op} {k} h f = record {
      after = λ m i. after_bind mid view k (op m) (h.after m i) f;
    }

    -- A step that leaves the log alone, and what follows.
    pub after-Quiet :
        {s : RunState} {view : B → RunState} {op : Step c.env A} {k : A → Step c.env B}
        → Quiet c op
        → ((a : A) → Keeps c s view (k a))
        → Keeps c s view (op >>= k)
    after-Quiet {s} h f = bind (h.keeps s) f

    pub bind-Quiet :
        {op : Step c.env A} {k : A → Step c.env B}
        → Quiet c op
        → ((a : A) → Quiet c (k a))
        → Quiet c (op >>= k)
    bind-Quiet h f = record { keeps = λ s. bind (h.keeps s) (λ a. (f a).keeps s) }

  module _ {A : Type 0} where
    pub pure-Keeps :
        {s : RunState} {view : A → RunState} (a : A) → view a ≡ s → Keeps c s view (pure a)
    pure-Keeps {s} {view} a e = record { after = λ m i. subst (λ t. InSync c t m.log) (sym e) i }

    pub fail-Keeps :
        {s : RunState} {view : A → RunState} (e : DaemonError) → Keeps c s view (fail e)
    fail-Keeps {s} e = record { after = λ m i. (s, i) }

    pub panic-Keeps : {s : RunState} {view : A → RunState} → Keeps c s view panic
    panic-Keeps = record { after = λ m i. tt }

    pub pure-Quiet : (a : A) → Quiet c (pure a)
    pure-Quiet a = record { keeps = λ s. record { after = λ m i. i } }

    pub fail-Quiet : (e : DaemonError) → Quiet c {A = A} (fail e)
    fail-Quiet e = record { keeps = λ s. fail-Keeps e }

    pub or_panic-Quiet : (o : Option A) → Quiet c (or_panic o)
    or_panic-Quiet none = record { keeps = λ s. record { after = λ m i. tt } }
    or_panic-Quiet (some a) = record { keeps = λ s. record { after = λ m i. i } }

    -- What holds of the answer, if there is one, is known to what follows.
    pub after-or_panic :
        {B : Type 0} {s : RunState} {view : B → RunState} {k : A → Step c.env B} (P : A → Type 0)
        (o : Option A)
        → OnSome P o
        → ((a : A) → P a → Keeps c s view (k a))
        → Keeps c s view (or_panic o >>= k)
    unfolding and_then
    after-or_panic P none p f = record { after = λ m i. tt }
    after-or_panic P (some a) p f = record { after = λ m i. (f a p).after m i }

    pub or_fail-Quiet :
        {E : Type 0} (of : E → DaemonError) (r : Result A E) → Quiet c (or_fail of r)
    or_fail-Quiet of (Result.ok a) = record { keeps = λ s. record { after = λ m i. i } }
    or_fail-Quiet of (Result.err e) = record { keeps = λ s. record { after = λ m i. (s, i) } }

    pub ask-Quiet : (f : c.env.World → A × c.env.World) → Quiet c (ask c.env f)
    unfolding ask
    ask-Quiet f = record { keeps = λ s. record { after = λ m i. i } }

    pub for_each-Keeps :
        {B : Type 0} (view : A → RunState) (body : A → B → Step c.env A) (bs : List B) (a : A)
        → ((a : A) (b : B) → Keeps c (view a) view (body a b))
        → Keeps c (view a) view (for_each bs body a)
    unfolding for_each
    for_each-Keeps view body [] a f = pure-Keeps a refl
    for_each-Keeps view body (b ∷ bs) a f = bind (f a b) (λ a'. for_each-Keeps view body bs a' f)

  pub traverse-Quiet :
      {A B : Type 0} (f : B → Step c.env A) (bs : List B)
      → ((b : B) → Quiet c (f b))
      → Quiet c (traverse f bs)
  unfolding traverse
  traverse-Quiet {A} {B} f [] q = let nil : List A = [] in pure-Quiet nil
  traverse-Quiet {A} {B} f (b ∷ bs) q =
      bind-Quiet (q b) (λ a. bind-Quiet (traverse-Quiet f bs q) (λ rest. pure-Quiet (a ∷ rest)))

  module _ {A : Type 0} where
    -- A step that only looks at the machine.
    by-Quiet :
        (op : Step c.env A)
        → ((m : Machine c.env.World) → (k : Step c.env A) × Quiet c k × (op m ≡ k m))
        → Quiet c op
    by-Quiet op f = record {
      keeps = λ s. record {
        after =
            λ m i. let (k, q, e) = f m in subst (After c (λ a. s)) (sym e) ((q.keeps s).after m i);
      };
    }

  stored_after :
      (s : RunState) (m : Machine c.env.World) (o : Option (BlobStore × BlobRef))
      → InSync c s m.log
      → After c (λ a. s) (stored c.env m o)
  unfolding stored
  stored_after s m none i = tt
  stored_after s m (some (blobs, r)) i = i

  pub put-Quiet : (mime : String) (bytes : List ℕ) → Quiet c (put c.env mime bytes)
  unfolding put
  put-Quiet mime bytes = record { keeps = λ s. record { after = λ m i. stored_after s m _ i } }

  pub fetch-Quiet : (r : BlobRef) → Quiet c (fetch c.env r)
  unfolding fetch
  fetch-Quiet r = by-Quiet (fetch c.env r) (λ m. (
    or_panic (get_blob r m.blobs) >>= or_fail DaemonError.run_log,
    bind-Quiet (or_panic-Quiet (get_blob r m.blobs)) (λ x. or_fail-Quiet DaemonError.run_log x),
    refl,
  ))

  pub read_events-Quiet :
      (id : RunId) (lo : ℕ) (hi : Option ℕ) → Quiet c (read_events c.env id lo hi)
  unfolding read_events
  read_events-Quiet id lo hi = by-Quiet (read_events c.env id lo hi) (λ m. (
    or_fail DaemonError.run_log (events c.env.serde m.log id lo hi),
    or_fail-Quiet DaemonError.run_log (events c.env.serde m.log id lo hi),
    refl,
  ))
