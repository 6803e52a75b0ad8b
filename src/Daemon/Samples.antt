-- ===== src/Daemon/Samples.antt =====
-- A daemon and the log of one run, as data for the tests.
use evowork.Prelude.{ℕ, String, none, some, [], ◌∷◌, refl, arith}
use evowork.Prelude.Results.{Result}
use evowork.Protocol.Base.{TaintLevel}
use evowork.Protocol.Accounting.{Currency}
use evowork.Protocol.Effect.{ToolResultStatus}
use evowork.Kernel.Reduce.{reduce, fold}
use evowork.Kernel.Samples.{replayed}
use evowork.Policy.{PolicyDecision}
use evowork.Runlog.Store.{Row, RunLog, event_of}
use evowork.Model.{ModelError}
use evowork.Daemon.Machine.{Env, Machine}
use evowork.Daemon.Consistency.InStep.{InStep}
use evowork.Daemon.Columns.{serde, codec, held, spent}

abbrev row : ℕ → String → Row
row seq payload = record {
  run_id = "r-1";
  seq = seq;
  kind = "";
  schema_ver = 1;
  recorded_at = "2026-08-29T10:00:00Z";
  actor = "runtime";
  payload = payload;
}

abbrev pub log : RunLog
log = record {
  run_events = row 0 "0" ∷ row 1 "1" ∷ row 2 "2" ∷ row 3 "3" ∷ [];
  runs = [];
  snapshots = [];
}

-- The clock is the world; the model and the tools answer nothing.
abbrev pub env : Env
env = record {
  World = ℕ;
  now_ms = λ w. (w, w);
  now_rfc3339 = λ w. ("2026-08-30T10:00:00Z", w);
  seed = λ w. ("seed", w);
  provider = "p";
  model = "m";
  call = λ request w. (Result.err ModelError.io, w);
  executor_id = "x";
  json = record { Value = String; pointer = λ v p. some v; as_str = λ v. some v };
  execute = λ lease effect w. (
    record {
      status = ToolResultStatus.ok;
      output = none;
      output_mime = "text/plain";
      taint = TaintLevel.clean;
      actual_targets = [];
      actual_egress = [];
      error = none;
      cost_micros = none;
    },
    w,
  );
  ensure = λ run_id w. (Result.ok (record { id = run_id; path = run_id }), w);
  send = λ event w. w;
  serde = serde;
  codec = codec;
  from_slice = λ bytes. none;
  empty_object = "";
  field = λ v name. none;
  as_array = λ v. none;
  as_bool = λ v. none;
  to_vec = λ v. [];
  prompt = λ q options. q;
  messages_to_vec = λ messages. [];
  request_to_vec = λ request. [];
  impact_to_vec = λ impact. [];
  from_utf8 = λ bytes. some "";
  from_utf8_lossy = λ bytes. "";
  debug_body = λ body. "";
  debug_texts = λ texts. "";
  config = record { principal = "u"; egress_allow = []; proxy_addr = none; budget = spent 0 };
  gateway = record {
    policy = record {
      evaluate = λ context. PolicyDecision.deny "closed";
      evaluate_with_trace = λ context. (PolicyDecision.deny "closed", []);
      version = "1";
    };
    manifests = record { by_name = [] };
  };
  assembler = record { profile = "default" };
  pricing = record { version = "1"; currency = Currency.usd; models = []; tools = [] };
}

abbrev pub machine : Machine ℕ
machine = record { log = log; blobs = record { files = [] }; world = 10 }

pub log-InStep : InStep serde codec "r-1" (replayed held) held log
unfolding event_of fold reduce
log-InStep = record {
  holds = ((refl, refl, (refl, refl, (refl, refl, (refl, refl, tt)))), omega arith);
  folds = refl;
  snapped = tt;
  same_run = refl;
}

abbrev pub fresh : Machine ℕ
fresh = record {
  log = record { run_events = []; runs = []; snapshots = [] };
  blobs = record { files = [] };
  world = 10;
}
