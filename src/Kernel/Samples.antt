-- ===== src/Kernel/Samples.antt =====
-- A run of one turn, as data for the tests: an effect is asked for, granted, and paid for.
use evowork.Prelude.{ℕ, String, Option, none, some, true, List, [], ◌∷◌, unwrap_or}
use evowork.Protocol.Base.{BlobRef, BudgetSpec, TaintLevel, TrustLevel, Actor}
use evowork.Protocol.Accounting.{CostUnit, Currency, CheckpointReason}
use evowork.Protocol.Effect.{EffectClass}
use evowork.Protocol.Governance.{RiskLevel, ApprovalVia}
use evowork.Protocol.Lifecycle.{TriggerKind, SuspendReason}
use evowork.Protocol.Turn.{PlanIntent, PlanStep, EnvSampled, ContextAssembled}
use evowork.Protocol.Event.{EventBody, Event}
use evowork.Kernel.State.{RunState, new}
use evowork.Kernel.Reduce.{reduce, fold}

abbrev pub event : ℕ → EventBody → Event
event seq body = record {
  run_id = "r-1";
  seq = seq;
  recorded_at = "2026-08-29T10:00:00Z";
  actor = Actor.runtime;
  schema_ver = 1;
  body = body;
}

abbrev pub blob : BlobRef
blob = record { content_hash = "sha256:ab"; size = 6; mime = "text/plain" }

abbrev pub limits : BudgetSpec
limits = record {
  max_tokens = some 1000;
  max_amount_micros = some 500;
  max_wall_seconds = none;
  max_concurrency = none;
  max_recursion_depth = none;
}

abbrev pub created : EventBody
created = EventBody.run_created (record {
  run_id = "r-1";
  parent_run_id = none;
  workspace_id = "w";
  principal = record { kind = "user"; id = "u" };
  trigger = record { kind = TriggerKind.manual; reference = "" };
  budget = limits;
  labels = [];
})

abbrev pub sampling : ℕ → ℕ → EnvSampled
sampling turn ms = record {
  turn = turn;
  wall_clock_ms = ms;
  rng_seed = "seed-0";
  env = [];
  model_route = record { provider = "p"; model = "m"; params_digest = "d" };
}

abbrev pub context : ContextAssembled
context = record {
  turn = 0;
  profile = "default";
  blocks =
      record {
        cite_id = "c-1";
        source = "tool_result";
        trust = TrustLevel.untrusted;
        scope = "run";
        content_hash = "sha256:ab";
        span = none;
        token_estimate = 1;
      }
      ∷ [];
  taint_level = TaintLevel.tainted;
  total_token_estimate = 1;
}

abbrev pub plan : PlanStep
plan = record {
  turn = 0;
  intent = PlanIntent.tool_call;
  rationale_ref = none;
  taint_inherited = TaintLevel.clean;
  call = some (record { tool = "fs.write"; params_ref = blob; params_digest = "d" });
  clarification = none;
}

abbrev pub requested : String → EventBody
requested id = EventBody.tool_requested (record {
  effect_id = id;
  turn = 0;
  tool = "fs.write";
  params_ref = blob;
  params_digest = "d";
  class = EffectClass.write;
  declared_targets = [];
  declared_egress = [];
  reversible = true;
  cites_referenced = [];
})

abbrev pub asked : String → String → EventBody
asked id effect = EventBody.approval_requested (record {
  approval_id = id;
  effect_id = effect;
  risk = RiskLevel.l2;
  impact_ref = none;
  expires_at_ms = 9000;
})

abbrev pub granted : String → EventBody
granted id =
    EventBody.approval_granted
      (record { approval_id = id; by = Actor.human "u"; via = ApprovalVia.ui; note_ref = none })

abbrev pub suspended : SuspendReason → EventBody
suspended reason = EventBody.run_suspended (record { reason = reason; detail_ref = none })

abbrev pub resumed : EventBody
resumed = EventBody.run_resumed (record { by = Actor.human "u"; from_seq = 6 })

abbrev pub responded : EventBody
responded = EventBody.model_responded (record {
  turn = 0;
  response_ref = blob;
  response_hash = "h";
  usage = record { input = 30; output = 12; cache_read = 0; cache_write = 0 };
  stop_reason = "end";
  latency_ms = 5;
})

abbrev pub charged : ℕ → EventBody
charged amount = EventBody.cost_charged (record {
  effect_id = none;
  turn = some 0;
  unit = CostUnit.call;
  quantity = 1;
  unit_price_micros = amount;
  amount_micros = amount;
  currency = Currency.cny;
  price_table_ver = "v1";
  dimension = record { principal = "u"; team = none; run_id = "r-1"; skill = none; tool = none };
})

abbrev pub checkpointed : EventBody
checkpointed = EventBody.checkpoint (record {
  checkpoint_id = "cp-1";
  state_hash = "00";
  snapshot_ref = none;
  reason = CheckpointReason.periodic;
})

-- The run up to its suspension, and the grant that follows.
abbrev pub opening : List Event
opening =
    event 0 created
    ∷ event 1 (EventBody.env_sampled (sampling 0 5000))
    ∷ event 2 (EventBody.context_assembled context)
    ∷ event 3 responded
    ∷ event 4 (EventBody.plan_step plan)
    ∷ event 5 (requested "e-1")
    ∷ event 6 (asked "a-2" "e-2")
    ∷ event 7 (asked "a-1" "e-1")
    ∷ []

abbrev pub at_end : Option RunState → RunState
at_end o = unwrap_or o (new "r-1")

abbrev pub replayed : List Event → RunState
replayed events = at_end (fold "r-1" events)

abbrev pub stepped : RunState → Event → RunState
stepped s e = at_end (reduce s e)
