-- ===== src/Daemon/Columns/Laws.antt =====
-- What the tests write in the columns is read back.
use evowork.Prelude.{
  ℕ, zero, suc, String, Option, none, some, Bool, true, false, [], ◌≡◌, refl, sym, ap, ◌∙◌, arith,
}
use evowork.Prelude.BTreeMap.{BTreeMap}
use evowork.Prelude.Texts.{eq_iff, str_eq}
use evowork.Protocol.Base.{RunId, ApprovalId, Actor, BlobRef}
use evowork.Protocol.Lifecycle.{TriggerKind, SuspendReason}
use evowork.Protocol.Accounting.{CheckpointReason}
use evowork.Protocol.Event.{EventBody}
use evowork.Kernel.State.{RunState}
use evowork.Kernel.Hash.{state_hash}
use evowork.Daemon.Replay.{bytes_eq}
use evowork.Daemon.Consistency.Written.{IsFaithful, Decodes}
use evowork.Daemon.Columns.{
  marks, count_marks, resumed_text, suspended_text, answered_text, amended_text, same_texts,
  denied_text, checkpoint_text, created_text, is_intent, intent_text, body_text, read_body,
  actor_text, read_actor, serde, codec,
}

count_marks-marks : (n : ℕ) → count_marks (marks n) ≡ n
count_marks-marks zero = refl
count_marks-marks (suc n) = ap suc (count_marks-marks n)

-- What is read from a text that was written.
written :
    {A : Type 0} (f : String → Option A) (t p : String) {a : A}
    → some t ≡ some p
    → f t ≡ some a
    → f p ≡ some a
written f t p e h = ap (λ o. elim o [ none ↦ none | some x ↦ f x ]) (sym e) ∙ h

resumed-law :
    (by : Actor) (n : ℕ) (p : String)
    → resumed_text by n ≡ some p
    → read_body p ≡ some (EventBody.run_resumed (record { by = by; from_seq = n }))
resumed-law Actor.runtime n p h = written read_body _ p h (rw (count_marks-marks n) refl)
resumed-law _ n p h = ground arith

suspended-law :
    (reason : SuspendReason) (detail_ref : Option BlobRef) (p : String)
    → suspended_text reason detail_ref ≡ some p
    → read_body p
      ≡ some (EventBody.run_suspended (record { reason = reason; detail_ref = detail_ref }))
suspended-law SuspendReason.budget_exhausted none p h = written read_body "s" p h refl
suspended-law _ _ p h = ground arith

answered-law :
    (q : String) (by : Actor) (option_id : Option String) (free_text_ref : Option BlobRef)
    (p : String)
    → answered_text q by option_id free_text_ref ≡ some p
    → read_body p
      ≡ some (
          EventBody.clarification_answered (record {
            question_id = q;
            by = by;
            option_id = option_id;
            free_text_ref = free_text_ref;
          }))
answered-law q Actor.runtime none none p h = written read_body (String.◌∷◌ "c" q) p h refl
answered-law q _ _ _ p h = ground arith

amended-law :
    (a b c d e : Option ℕ) (by : Actor) (reason_ref : Option BlobRef) (p : String)
    → amended_text a b c d e by reason_ref ≡ some p
    → read_body p
      ≡ some (
          EventBody.budget_amended (record {
            budget = record {
              max_tokens = a;
              max_amount_micros = b;
              max_wall_seconds = c;
              max_concurrency = d;
              max_recursion_depth = e;
            };
            by = by;
            reason_ref = reason_ref;
          }))
amended-law none (some n) none none none Actor.runtime none p h =
    written read_body _ p h (rw (count_marks-marks n) refl)
amended-law _ _ _ _ _ _ _ p h = ground arith

same_texts-law :
    (run ws kind id reference : String)
    → same_texts run ws kind id reference ≡ true
    → (run ≡ "r-1") × (ws ≡ "r-1") × (kind ≡ "user") × (id ≡ "u") × (reference ≡ "cli")
same_texts-law run ws kind id reference h = grind (arith, eq_iff)

created-law :
    (parent : Option RunId) (trigger : TriggerKind) (labels : BTreeMap String)
    (run ws kind id reference : String) (b : Bool) (v w x y z : Option ℕ) (p : String)
    → (b ≡ true → (run ≡ "r-1") × (ws ≡ "r-1") × (kind ≡ "user") × (id ≡ "u") × (reference ≡ "cli"))
    → created_text parent trigger labels b v w x y z ≡ some p
    → read_body p
      ≡ some (
          EventBody.run_created (record {
            run_id = run;
            parent_run_id = parent;
            workspace_id = ws;
            principal = record { kind = kind; id = id };
            trigger = record { kind = trigger; reference = reference };
            budget = record {
              max_tokens = v;
              max_amount_micros = w;
              max_wall_seconds = x;
              max_concurrency = y;
              max_recursion_depth = z;
            };
            labels = labels;
          }))
created-law none TriggerKind.manual [] run ws kind id reference true none (some zero) none none none
      p f h =
    let (a, b, c, d, e) = f refl in rw (a, b, c, d, e) (written read_body "0" p h refl)
created-law _ _ _ run ws kind id reference _ _ _ _ _ _ p f h = ground arith

is_intent-law :
    (content_hash : String) (size : ℕ) (mime : String) (char_len : ℕ) (lang source : String)
    → is_intent content_hash size mime char_len lang source ≡ true
    → (content_hash ≡ "sha256:6869")
      × (size ≡ 2)
      × (mime ≡ "text/plain")
      × (char_len ≡ 2)
      × (lang ≡ "zh")
      × (source ≡ "cli")
is_intent-law content_hash size mime char_len lang source h = grind (arith, eq_iff)

intent-law :
    (content_hash : String) (size : ℕ) (mime : String) (char_len : ℕ) (lang source : String)
    (b : Bool) (p : String)
    → (b ≡ true
        → (content_hash ≡ "sha256:6869")
          × (size ≡ 2)
          × (mime ≡ "text/plain")
          × (char_len ≡ 2)
          × (lang ≡ "zh")
          × (source ≡ "cli"))
    → intent_text b ≡ some p
    → read_body p
      ≡ some (
          EventBody.intent_declared (record {
            intent_ref = record { content_hash = content_hash; size = size; mime = mime };
            char_len = char_len;
            lang = lang;
            source = source;
          }))
intent-law content_hash size mime char_len lang source true p f h =
    let (a, b, c, d, e, g) = f refl in rw (a, b, c, d, e, g) (written read_body "4" p h refl)
intent-law content_hash size mime char_len lang source false p f h = ground arith

denied-law :
    (id : ApprovalId) (by : Actor) (reason_ref : Option BlobRef) (p : String)
    → denied_text id by reason_ref ≡ some p
    → read_body p
      ≡ some (
          EventBody.approval_denied (record { approval_id = id; by = by; reason_ref = reason_ref }))
denied-law id Actor.runtime none p h = written read_body (String.◌∷◌ "d" id) p h refl
denied-law id _ _ p h = ground arith

checkpoint-law :
    (id hash : String) (named : Bool) (snapshot_ref : Option String) (reason : CheckpointReason)
    (p : String)
    → str_eq id "r-1-cp3" ≡ named
    → checkpoint_text named snapshot_ref reason hash ≡ some p
    → read_body p
      ≡ some (
          EventBody.checkpoint (record {
            checkpoint_id = id;
            state_hash = hash;
            snapshot_ref = snapshot_ref;
            reason = reason;
          }))
checkpoint-law id hash true none CheckpointReason.pre_approval p q h =
    rw ((eq_iff id "r-1-cp3").0 q) (written read_body (String.◌∷◌ "k" hash) p h refl)
checkpoint-law id hash _ _ _ p q h = ground arith

body-law : (b : EventBody) (p : String) → body_text b ≡ some p → read_body p ≡ some b
body-law (EventBody.run_resumed e) p h = resumed-law e.by e.from_seq p h
body-law (EventBody.run_suspended e) p h = suspended-law e.reason e.detail_ref p h
body-law (EventBody.approval_expired e) p h =
    written read_body (String.◌∷◌ "x" e.approval_id) p h refl
body-law (EventBody.approval_denied e) p h = denied-law e.approval_id e.by e.reason_ref p h
body-law (EventBody.checkpoint e) p h =
    checkpoint-law e.checkpoint_id e.state_hash (str_eq e.checkpoint_id "r-1-cp3") e.snapshot_ref
      e.reason p refl h
body-law (EventBody.clarification_answered e) p h =
    answered-law e.question_id e.by e.option_id e.free_text_ref p h
body-law (EventBody.budget_amended e) p h =
    amended-law e.budget.max_tokens e.budget.max_amount_micros e.budget.max_wall_seconds
      e.budget.max_concurrency e.budget.max_recursion_depth e.by e.reason_ref p h
body-law (EventBody.run_created e) p h =
    created-law e.parent_run_id e.trigger.kind e.labels e.run_id e.workspace_id e.principal.kind
      e.principal.id e.trigger.reference _ e.budget.max_tokens e.budget.max_amount_micros
      e.budget.max_wall_seconds e.budget.max_concurrency e.budget.max_recursion_depth p
      (same_texts-law e.run_id e.workspace_id e.principal.kind e.principal.id e.trigger.reference) h
body-law (EventBody.intent_declared e) p h =
    intent-law e.intent_ref.content_hash e.intent_ref.size e.intent_ref.mime e.char_len e.lang
      e.source _ p
      (is_intent-law e.intent_ref.content_hash e.intent_ref.size e.intent_ref.mime e.char_len e.lang
        e.source)
      h
body-law _ p h = ground arith

actor-law : (a : Actor) (p : String) → actor_text a ≡ some p → read_actor p ≡ some a
actor-law Actor.kernel p h = written read_actor "kernel" p h refl
actor-law Actor.runtime p h = written read_actor "runtime" p h refl
actor-law _ p h = ground arith

state-law : (s : RunState) → Decodes codec s (codec.from_reader (codec.into_writer s))
unfolding bytes_eq state_hash
state-law s h = ground arith

pub laws : IsFaithful serde codec
laws = record { body = λ b p plain h. body-law b p h; actor = actor-law; state = state-law }
