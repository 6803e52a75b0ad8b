-- ===== src/Daemon/Settled.antt =====
-- What `drive` of crates/evo-daemon/src/runtime.rs answers with.
use evowork.Prelude.{
  ℕ, zero, suc, String, Option-cases, inl, inr, if◌then◌else◌, Option, none, some, Bool, true,
  false, List, [], ◌∷◌, ◌≡◌, refl, arith,
}
use evowork.Prelude.Results.{Result}
use evowork.Protocol.Base.{RunId, Actor}
use evowork.Protocol.Lifecycle.{RunFailed}
use evowork.Protocol.Event.{EventBody, Event}
use evowork.Kernel.State.{RunState, RunStatus}
use evowork.Kernel.Decide.{Command, decide}
use evowork.Kernel.Reduce.{apply_body, reduce}
use evowork.Runlog.Store.{Serde, RunLog, RunLogError, append}
use evowork.Daemon.Error.{DaemonError}
use evowork.Daemon.Action.{Outcome, pure, or_panic, and_then, for_each, ◌>>=◌}
use evowork.Daemon.Machine.{Env, Machine, Step, ask, tell, put, appended, append_event, emit}
use evowork.Daemon.Commands.{fail_run, execute_command}
use evowork.Daemon.Drive.{
  RunOutcome, max_loop_iterations, fail_with, conclude_as, conclude, turn_of, rounds, drive,
}

-- The outcome says what the status of its state says; a run that is still running is no outcome.
abbrev pub IsSettled : RunOutcome → Type 0
IsSettled (RunOutcome.completed s) = s.status ≡ RunStatus.completed
IsSettled (RunOutcome.suspended s reason) = s.status ≡ RunStatus.suspended
IsSettled (RunOutcome.failed s error) = s.status ≡ RunStatus.failed

-- An append answers with the body that it was given.
abbrev BodyIs : EventBody → Result (RunLog × Event) RunLogError → Type 0
BodyIs body (Result.err e) = Unit
BodyIs body (Result.ok (log, e)) = e.body ≡ body

BodyIs-if :
    (body : EventBody) (log : RunLog) (e : Event) (b : Bool)
    → e.body ≡ body
    → BodyIs body (if b then Result.err RunLogError.sqlite else Result.ok (log, e))
BodyIs-if body log e true h = tt
BodyIs-if body log e false h = h

append-BodyIs :
    (serde : Serde) (log : RunLog) (id : RunId) (actor : Actor) (recorded_at : String)
    (body : EventBody)
    → BodyIs body (append serde log id actor recorded_at body)
unfolding append
append-BodyIs serde log id actor recorded_at body = elim (Option-cases (serde.to_string body)) [
  | inl p ↦ rw p tt
  | inr (payload, p) ↦ elim (Option-cases (serde.actor_to_string actor)) [
    | inl a ↦ rw (p, a) tt
    | inr (who, a) ↦ rw (p, a) (BodyIs-if body _ _ _ refl)
  ]
]

module _ (env : Env) where
  -- What holds of an answer, if there is one.
  abbrev pub Answers : {A : Type 0} → (A → Type 0) → Outcome (Machine env.World) A → Type 0
  Answers P (Outcome.ok a m) = P a
  Answers P (Outcome.err e m) = Unit
  Answers P Outcome.panicked = Unit

  record Gives {A : Type 0} (P : A → Type 0) (op : Step env A) : Type 0 where
    always : (m : Machine env.World) → Answers P (op m)

  after_appended :
      (body : EventBody) (m : Machine env.World) (result : Result (RunLog × Event) RunLogError)
      → BodyIs body result
      → Answers (λ e. e.body ≡ body) (appended env m result)
  unfolding appended
  after_appended body m (Result.err e) h = tt
  after_appended body m (Result.ok (log, e)) h = h

module _ {env : Env} where
  after_then :
      {A B : Type 0} (P : A → Type 0) (Q : B → Type 0) (k : A → Step env B)
      (o : Outcome (Machine env.World) A)
      → Answers env P o
      → ((a : A) → P a → Gives env Q (k a))
      → Answers env Q (and_then k o)
  unfolding and_then
  after_then P Q k (Outcome.ok a m) h f = (f a h).always m
  after_then P Q k (Outcome.err e m) h f = tt
  after_then P Q k Outcome.panicked h f = tt

  bind-Gives :
      {A B : Type 0} {P : A → Type 0} {Q : B → Type 0} {op : Step env A} {k : A → Step env B}
      → Gives env P op
      → ((a : A) → P a → Gives env Q (k a))
      → Gives env Q (op >>= k)
  bind-Gives {P = P} {Q = Q} {op = op} {k = k} h f = record {
    always = λ m. after_then P Q k (op m) (h.always m) f;
  }

  -- Nothing is known of the answer.
  any-Gives : {A : Type 0} (op : Step env A) → Gives env (λ (a : A). Unit {0}) op
  any-Gives {A} op = record { always = λ m. any_answer (op m) }
    where
      any_answer : (o : Outcome (Machine env.World) A) → Answers env (λ (a : A). Unit {0}) o
      any_answer (Outcome.ok a m) = tt
      any_answer (Outcome.err e m) = tt
      any_answer Outcome.panicked = tt

  pure-Gives : {A : Type 0} {P : A → Type 0} (a : A) → P a → Gives env P (pure a)
  pure-Gives a h = record { always = λ m. h }

  -- The state after an event.
  reduced-Gives :
      (s : RunState) (event : Event) (P : RunState → Type 0)
      → ((s' : RunState) → reduce s event ≡ some s' → P s')
      → Gives env P (or_panic (reduce s event))
  reduced-Gives s event P h = record { always = λ m. go m (reduce s event) refl }
    where
      go :
          (m : Machine env.World) (o : Option RunState)
          → reduce s event ≡ o
          → Answers env P (or_panic o m)
      go m none e = tt
      go m (some s') e = h s' e

  append-body :
      (s : RunState) (actor : Actor) (recorded_at : String) (body : EventBody)
      → Gives env (λ e. e.body ≡ body) (append_event env s.run_id actor recorded_at body)
  unfolding append_event
  append-body s actor recorded_at body = record {
    always = λ m.
        after_appended env body m (append env.serde m.log s.run_id actor recorded_at body)
          (append-BodyIs env.serde m.log s.run_id actor recorded_at body);
  }

  emit-Gives :
      (s : RunState) (actor : Actor) (body : EventBody) (P : RunState → Type 0)
      → ((event : Event) (s' : RunState) → event.body ≡ body → reduce s event ≡ some s' → P s')
      → Gives env P (emit env s actor body)
  unfolding emit
  emit-Gives s actor body P h = bind-Gives (any-Gives (ask env env.now_rfc3339)) (λ at u.
      bind-Gives (append-body s actor at body) (λ event e.
        bind-Gives (any-Gives (tell env (env.send event)))
          (λ t u'. reduced-Gives s event P (λ s' r. h event s' e r))))

reduce-failed :
    (s s' : RunState) (event : Event) (x : RunFailed)
    → event.body ≡ EventBody.run_failed x
    → reduce s event ≡ some s'
    → s'.status ≡ RunStatus.failed
unfolding reduce apply_body
reduce-failed s s' event x e h = ground arith

module _ {env : Env} where
  fail_with-Gives :
      (s : RunState) (code : String) (detail : DaemonError)
      → Gives env IsSettled (fail_with env s code detail)
  unfolding fail_with fail_run
  fail_with-Gives s code detail =
      bind-Gives
        (bind-Gives (any-Gives (put env "text/plain" _)) (λ message_ref u.
          emit-Gives s Actor.runtime _ (λ t. t.status ≡ RunStatus.failed)
            (λ event s' e r. reduce-failed s s' event _ e r)))
        (λ s1 h. bind-Gives (any-Gives _) (λ error u. pure-Gives (RunOutcome.failed s1 error) h))

  conclude_as-Gives :
      (status : RunStatus) (s : RunState)
      → s.status ≡ status
      → Gives env IsSettled (conclude_as env status s)
  unfolding conclude_as
  conclude_as-Gives RunStatus.suspended s h = pure-Gives _ h
  conclude_as-Gives RunStatus.failed s h =
      bind-Gives (any-Gives _) (λ error u. pure-Gives (RunOutcome.failed s error) h)
  conclude_as-Gives RunStatus.completed s h = pure-Gives (RunOutcome.completed s) h
  conclude_as-Gives RunStatus.running s h = fail_with-Gives s "stalled_unresolved_effects" _

  turn_of-Gives :
      (rest : RunState → Step env RunOutcome) (b : Bool) (commands : List Command) (s : RunState)
      → ((s : RunState) → Gives env IsSettled (rest s))
      → Gives env IsSettled (turn_of env rest b commands s)
  unfolding turn_of conclude
  turn_of-Gives rest true commands s h = fail_with-Gives s "turn_limit" _
  turn_of-Gives rest false [] s h = conclude_as-Gives s.status s refl
  turn_of-Gives rest false (command ∷ commands) s h =
      bind-Gives (any-Gives (for_each (command ∷ commands) (execute_command env) s)) (λ s1 u. h s1)

  rounds-Gives : (left : ℕ) (s : RunState) → Gives env IsSettled (rounds env left s)
  unfolding rounds
  rounds-Gives zero s = fail_with-Gives s "loop_iteration_limit" _
  rounds-Gives (suc left) s = turn_of-Gives (rounds env left) _ (decide s) s (rounds-Gives left)

-- Whatever the model, the tools and the log do, `drive` that answers never answers with a run that is
-- still running: an outcome is completed, suspended or failed exactly as the status of its state is.
pub drive-IsSettled :
    (env : Env) (s : RunState) (m : Machine env.World) → Answers env IsSettled (drive env s m)
unfolding drive
drive-IsSettled env s m = (rounds-Gives max_loop_iterations s).always m
