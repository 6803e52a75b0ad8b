-- ===== src/Daemon/Scheduler/Records.antt =====
-- What the trigger requests of crates/evo-daemon/src/http.rs read, compare and answer.
use Prim.Native.Char.{Char, code}
use Prim.Native.String as S
use evowork.Prelude.{
  ℕ, String, Bool, true, false, not, ◌&&◌, ◌||◌, ◌==◌, Option, none, leb, if◌then◌else◌, is_some,
  unwrap_or,
}
use evowork.Prelude.Int.{ℤ, negsuc, pos_part, neg_part}
use evowork.Prelude.Texts.{str_eq}
use evowork.Protocol.Rpc.{TriggerSpec, TriggerCreateParams}
use evowork.Daemon.Error.{DaemonError, display}
use evowork.Daemon.Trigger.Schedule.{next_fire_ms}
use evowork.Daemon.Trigger.Store.{TriggerRecord}

-- `White_Space`, and `str::trim`.
abbrev pub is_whitespace : Char → Bool
is_whitespace c =
    let n = code c in
    (leb 9 n && leb n 13)
    || (n == 32)
    || (n == 133)
    || (n == 160)
    || (n == 5760)
    || (leb 8192 n && leb n 8202)
    || (n == 8232)
    || (n == 8233)
    || (n == 8239)
    || (n == 8287)
    || (n == 12288)

unfoldable pub trim_start : String → String
trim_start S.[] = ""
trim_start (S.◌∷◌ c s) = let rest = trim_start s in if is_whitespace c then rest else S.◌∷◌ c s

unfoldable pub trim_end : String → String
trim_end S.[] = ""
trim_end (S.◌∷◌ c s) =
    let rest = trim_end s in if is_whitespace c && str_eq rest "" then "" else S.◌∷◌ c rest

unfoldable pub trim : String → String
trim s = trim_end (trim_start s)

-- The derived equality of specs.
abbrev pub eq_ℤ : ℤ → ℤ → Bool
eq_ℤ a b = (pos_part a == pos_part b) && (neg_part a == neg_part b)

unfoldable pub spec_eq : TriggerSpec → TriggerSpec → Bool
spec_eq (TriggerSpec.once a) (TriggerSpec.once b) = a == b
spec_eq (TriggerSpec.interval a) (TriggerSpec.interval b) = a == b
spec_eq (TriggerSpec.daily h m z) (TriggerSpec.daily i n y) = (h == i) && (m == n) && eq_ℤ z y
spec_eq (TriggerSpec.weekly d h m z) (TriggerSpec.weekly e i n y) =
    (d == e) && (h == i) && (m == n) && eq_ℤ z y
spec_eq (TriggerSpec.monthly d h m z) (TriggerSpec.monthly e i n y) =
    (d == e) && (h == i) && (m == n) && eq_ℤ z y
spec_eq TriggerSpec.webhook TriggerSpec.webhook = true
spec_eq _ _ = false

abbrev pub is_webhook : TriggerSpec → Bool
is_webhook TriggerSpec.webhook = true
is_webhook _ = false

pub record RpcFail : Type 0 where
  pub code : ℤ
  pub message : String

abbrev pub rpc_invalid_params : ℤ
rpc_invalid_params = negsuc 32601

abbrev pub rpc_internal : ℤ
rpc_internal = negsuc 32602

abbrev pub rpc_not_found : ℤ
rpc_not_found = negsuc 32003

-- What a request answers for an error of the daemon.
unfoldable pub code_of : DaemonError → ℤ
code_of (DaemonError.unknown_approval id) = rpc_not_found
code_of (DaemonError.unknown_clarification id) = rpc_not_found
code_of (DaemonError.unknown_trigger id) = rpc_not_found
code_of (DaemonError.unknown_clarification_option question option) = rpc_invalid_params
code_of _ = rpc_internal

unfoldable pub fail_of : DaemonError → RpcFail
fail_of e = record { code = code_of e; message = display e }

abbrev pub invalid : String → RpcFail
invalid message = record { code = rpc_invalid_params; message = message }

-- The changes that an update makes to a record, with the secret of a trigger that becomes a web
-- hook.
unfoldable pub revised : TriggerRecord → TriggerCreateParams → ℕ → TriggerRecord
revised rec p now =
    let changed = not (spec_eq rec.spec p.spec) in
    record rec {
      name = trim p.name;
      intent = trim p.intent;
      spec = if changed then p.spec else rec.spec;
      next_fire_ms = if changed then next_fire_ms p.spec now else rec.next_fire_ms;
      hook_secret =
          if not (is_webhook (if changed then p.spec else rec.spec)) && changed
          then none
          else rec.hook_secret;
      paused = unwrap_or p.paused rec.paused;
    }

abbrev pub needs_secret : TriggerRecord → Bool
needs_secret rec = is_webhook rec.spec && not (is_some rec.hook_secret)

abbrev pub with_secret : Option String → TriggerRecord → TriggerRecord
with_secret secret rec = record rec { hook_secret = secret }

unfoldable pub created : String → TriggerCreateParams → Option String → ℕ → TriggerRecord
created id p secret now = record {
  id = id;
  name = trim p.name;
  intent = trim p.intent;
  spec = p.spec;
  paused = unwrap_or p.paused false;
  hook_secret = secret;
  next_fire_ms = next_fire_ms p.spec now;
  last_run_id = none;
  last_fired_ms = none;
  created_ms = now;
}
