-- ===== src/Daemon/Replay/Verify.antt =====
-- What a report of `verify` in crates/evo-daemon/src/replay.rs tells about the log.
use evowork.Prelude.{
  ℕ, ◌+◌, Option, none, some, Bool, true, ◌&&◌, List, [], ◌∷◌, ◌++◌, ◌≡◌, ◌↔◌, ap, ◌∙◌, refl, sym,
  arith, is_empty, Option-cases, inl, inr,
}
use evowork.Prelude.Results.{Result}
use evowork.Prelude.Texts.{str_eq, eq_iff, eq_refl}
use evowork.Protocol.Base.{RunId}
use evowork.Protocol.Accounting.{Checkpoint}
use evowork.Protocol.Event.{EventBody, Event}
use evowork.Kernel.State.{RunState, new}
use evowork.Kernel.Hash.{Codec, state_hash_hex}
use evowork.Kernel.Reduce.{reduce, reduce_all, fold}
use evowork.Kernel.History.{reduce_all-cons}
use evowork.Runlog.Store.{Serde, RunLog}
use evowork.Runlog.Select.{Holds}
use evowork.Runlog.Numbered.{events_all}
use evowork.Daemon.Error.{DaemonError}
use evowork.Daemon.Replay.{Mismatch, VerifyReport, report_is_ok, compare_at, verify_events, verify}

abbrev is_checkpoint : EventBody → ℕ
is_checkpoint (EventBody.checkpoint cp) = 1
is_checkpoint _ = 0

-- How many checkpoints a list of events has.
abbrev pub checkpoints : List Event → ℕ
checkpoints [] = 0
checkpoints (e ∷ events) = is_checkpoint e.body + checkpoints events

module _ (codec : Codec) where
  checkpoint_of : EventBody → Option Checkpoint
  checkpoint_of (EventBody.checkpoint cp) = some cp
  checkpoint_of _ = none

  matches : RunState → Option Checkpoint → Bool
  matches s none = true
  matches s (some cp) = str_eq (state_hash_hex codec s) cp.state_hash

  agrees_at : RunState → EventBody → Bool
  agrees_at s body = matches s (checkpoint_of body)

  agrees : Option RunState → List Event → Bool
  agrees none events = true
  agrees (some s) [] = true
  agrees (some s) (e ∷ events) = agrees_at s e.body && agrees (reduce s e) events

  -- Every checkpoint carries the hash of the state that the events before it lead to.
  abbrev pub Agree : RunState → List Event → Type 0
  Agree s events =
      (before : List Event) (e : Event) (after : List Event) (cp : Checkpoint) (t : RunState)
      → events ≡ before ++ e ∷ after
      → e.body ≡ EventBody.checkpoint cp
      → reduce_all (some s) before ≡ some t
      → cp.state_hash ≡ state_hash_hex codec t

  checkpoint_of_lem :
      (body : EventBody) (cp : Checkpoint)
      → (checkpoint_of body ≡ some cp) ↔ (body ≡ EventBody.checkpoint cp)
  unfolding checkpoint_of
  checkpoint_of_lem body cp = ground arith

  agrees_at_lem :
      (s : RunState) (body : EventBody) (cp : Checkpoint)
      → agrees_at s body ≡ true
      → body ≡ EventBody.checkpoint cp
      → cp.state_hash ≡ state_hash_hex codec s
  unfolding agrees_at matches
  agrees_at_lem s body cp h b =
      ground (arith, (checkpoint_of_lem body cp).1 b, eq_iff (state_hash_hex codec s) cp.state_hash)

  agrees_at_head :
      (s : RunState) (body : EventBody)
      → ((cp : Checkpoint)
          → body ≡ EventBody.checkpoint cp
          → cp.state_hash ≡ state_hash_hex codec s)
      → agrees_at s body ≡ true
  unfolding agrees_at matches
  agrees_at_head s body h = elim (Option-cases (checkpoint_of body)) [
    | inl p ↦ rw p refl
    | inr (cp, p) ↦
        rw (p, h cp ((checkpoint_of_lem body cp).0 p)) (eq_refl (state_hash_hex codec s))
  ]

  agrees-cons :
      (s s' : RunState) (e : Event) (events : List Event)
      → reduce s e ≡ some s'
      → agrees (some s) (e ∷ events) ≡ (agrees_at s e.body && agrees (some s') events)
  unfolding agrees
  agrees-cons s s' e events p = rw (sym p) refl

  cons_eq : (x y : Event) (xs ys : List Event) → x ∷ xs ≡ y ∷ ys → (x ≡ y) × (xs ≡ ys)
  cons_eq x y xs ys h = ground arith

  reduce_all_step :
      (s s' : RunState) (e : Event) (events : List Event)
      → reduce s e ≡ some s'
      → reduce_all (some s) (e ∷ events) ≡ reduce_all (some s') events
  unfolding reduce_all
  reduce_all_step s s' e events p = ap (λ o. reduce_all o events) p

  agrees-Agree :
      (s : RunState) (events : List Event) → agrees (some s) events ≡ true → Agree s events
  unfolding agrees reduce_all
  agrees-Agree s [] h [] e after cp t q b r = ground arith
  agrees-Agree s [] h (x ∷ before) e after cp t q b r = ground arith
  agrees-Agree s (y ∷ events) h [] e after cp t q b r =
      let (same, rest) = cons_eq y e events after q in
      let here = agrees_at_lem s y.body cp (ground arith) (rw same b) in ground (arith, here)
  agrees-Agree s (y ∷ events) h (x ∷ before) e after cp t q b r =
      let (same, rest) = cons_eq y x events (before ++ e ∷ after) q in
      let (s', p, w) = reduce_all-cons s t x before r in
      agrees-Agree s' events (ground (arith, agrees-cons s s' y events (rw same p))) before e after
        cp t rest b w

  Agree-agrees :
      (s : RunState) (events : List Event) → Agree s events → agrees (some s) events ≡ true
  unfolding agrees reduce_all
  Agree-agrees s [] h = refl
  Agree-agrees s (y ∷ events) h =
      let here = agrees_at_head s y.body (λ cp b. h [] y events cp s refl b refl) in
      elim (Option-cases (reduce s y)) [
        | inl p ↦ ground (arith, here)
        | inr (s', p) ↦ ground (
          arith,
          here,
          Agree-agrees s' events (λ before e after cp t q b r.
              h (y ∷ before) e after cp t (ap (λ xs. y ∷ xs) q) b
                (reduce_all_step s s' y before p ∙ r)),
        )
      ]

  compare_at_lem :
      (s : RunState) (e : Event) (body : EventBody) (found : ℕ × List Mismatch)
      → ((compare_at codec s e body found).0 ≡ found.0 + is_checkpoint body)
        × (is_empty (compare_at codec s e body found).1 ≡ (is_empty found.1 && agrees_at s body))
  unfolding compare_at agrees_at matches checkpoint_of
  compare_at_lem s e body (n, []) = ground arith
  compare_at_lem s e body (n, m ∷ ms) = ground arith

  -- What a report says: the checkpoints that were compared, the last hash, and whether all agreed.
  abbrev pub Tells : RunId → ℕ → Bool → RunState → Option VerifyReport → Type 0
  Tells run_id n ok t none = ⊥
  Tells run_id n ok t (some report) =
      (report.run_id ≡ run_id)
      × (report.checkpoints_checked ≡ n)
      × (report.final_state_hash ≡ state_hash_hex codec t)
      × (report_is_ok report ≡ ok)

  verify_events_step :
      (run_id : RunId) (s s' : RunState) (found : ℕ × List Mismatch) (e : Event)
      (events : List Event)
      → reduce s e ≡ some s'
      → verify_events codec run_id (some s) found (e ∷ events)
        ≡ verify_events codec run_id (some s') (compare_at codec s e e.body found) events
  unfolding verify_events
  verify_events_step run_id s s' found e events p =
      ap (λ o. verify_events codec run_id o (compare_at codec s e e.body found) events) p

  Tells-same :
      (run_id : RunId) (n n' : ℕ) (ok ok' : Bool) (t : RunState)
      (report report' : Option VerifyReport)
      → n ≡ n'
      → ok ≡ ok'
      → report ≡ report'
      → Tells run_id n ok t report
      → Tells run_id n' ok' t report'
  Tells-same run_id n n' ok ok' t report report' p q r h = rw (sym p, sym q, sym r) h

  verify_events_found :
      (run_id : RunId) (s : RunState) (found : ℕ × List Mismatch) (events : List Event)
      (t : RunState)
      → reduce_all (some s) events ≡ some t
      → Tells run_id
          (found.0 + checkpoints events)
          (is_empty found.1 && agrees (some s) events)
          t
          (verify_events codec run_id (some s) found events)
  unfolding verify_events reduce_all agrees
  verify_events_found run_id s found [] t h = ground arith
  verify_events_found run_id s found (e ∷ events) t h =
      let (s', p, w) = reduce_all-cons s t e events h in
      let (c, d) = compare_at_lem s e e.body found in
      let ih = verify_events_found run_id s' (compare_at codec s e e.body found) events t w in
      Tells-same run_id _ _ _ _ t _ _ (omega (arith, c))
        (ground (arith, d, agrees-cons s s' e events p))
        (sym (verify_events_step run_id s s' found e events p)) ih

module _ (codec : Codec) (serde : Serde) (log : RunLog) (run_id : RunId) where
  -- The outcome of `verify` on a log that replays to `t` with these checkpoints.
  abbrev pub Reports : List Event → RunState → Result (Option VerifyReport) DaemonError → Type 0
  Reports held t (Result.err e) = ⊥
  Reports held t (Result.ok none) = ⊥
  Reports held t (Result.ok (some report)) =
      (report.checkpoints_checked ≡ checkpoints held)
      × (report.final_state_hash ≡ state_hash_hex codec t)
      × ((report_is_ok report ≡ true) ↔ Agree codec (new run_id) held)

  Tells-Reports :
      (held : List Event) (t : RunState) (report : Option VerifyReport)
      → Tells codec run_id (checkpoints held) (agrees codec (some (new run_id)) held) t report
      → Reports held t (Result.ok report)
  Tells-Reports held t none h = absurd h
  Tells-Reports held t (some report) (a, b, c, d) = (
    b,
    c,
    (
      λ h. agrees-Agree codec (new run_id) held (sym d ∙ h),
      λ h. d ∙ Agree-agrees codec (new run_id) held h,
    ),
  )

  -- Verifying a log that replays succeeds and counts every checkpoint; the report is ok exactly if
  -- each checkpoint carries the hash of the state that the events before it lead to; the last hash
  -- is that of the state after all events.
  pub verify-Reports :
      (held : List Event) (t : RunState)
      → Holds serde run_id log held
      → fold run_id held ≡ some t
      → Reports held t (verify codec serde log run_id)
  unfolding verify fold
  verify-Reports held t h f = rw (events_all serde run_id log held h) (
      Tells-Reports held t (verify_events codec run_id (some (new run_id)) (0, []) held) (
        Tells-same codec run_id _ _ _ _ t _ _ (omega arith) refl refl
          (verify_events_found codec run_id (new run_id) (0, []) held t f)))
