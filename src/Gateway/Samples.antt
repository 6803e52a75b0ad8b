-- ===== src/Gateway/Samples.antt =====
-- A gateway with two tools, and calls of them, as data for the tests. The arguments of a call are one
-- text, which every pointer finds.
use evowork.Prelude.{String, Option, none, some, true, [], ◌∷◌}
use evowork.Protocol.Base.{BlobRef, BudgetSpec, TaintLevel}
use evowork.Protocol.Effect.{EffectClass, ResourceOp, ExecutionMode}
use evowork.Protocol.Governance.{RiskLevel}
use evowork.Policy.{Rule, PolicyFile, hardcoded_policy}
use evowork.Gateway.Manifest.{Json, TargetSpec, ToolManifest, collect}
use evowork.Gateway.Pipeline.{AdmitRequest, Gateway}

abbrev pub one_text : Json
one_text = record { Value = String; pointer = λ v p. some v; as_str = λ v. some v }

abbrev pub read_free : Rule
read_free = record {
  id = "read-is-free";
  class = some EffectClass.read;
  tool = none;
  reversible = none;
  decision = "allow";
  risk = none;
  reason_code = none;
}

abbrev pub external_asks : Rule
external_asks = record {
  id = "external-needs-approval";
  class = some EffectClass.external;
  tool = none;
  reversible = none;
  decision = "require_approval";
  risk = some RiskLevel.l3;
  reason_code = none;
}

abbrev pub policy_file : PolicyFile
policy_file = record { version = "poc-1"; rule = read_free ∷ external_asks ∷ [] }

abbrev pub writer : Option String → ToolManifest
writer preview = record {
  name = "fs.write";
  class = EffectClass.write;
  reversible = true;
  targets = TargetSpec.from_param "/path" "file" ResourceOp.update ∷ [];
  egress = [];
  preview = preview;
}

abbrev pub gateway : Option String → Gateway
gateway preview = record {
  policy = hardcoded_policy policy_file;
  manifests = record { by_name = collect (writer preview ∷ []) [] };
}

abbrev pub blob : BlobRef
blob = record { content_hash = "sha256:ab"; size = 6; mime = "text/plain" }

abbrev pub budget : BudgetSpec
budget = record {
  max_tokens = some 1000;
  max_amount_micros = some 500;
  max_wall_seconds = none;
  max_concurrency = none;
  max_recursion_depth = none;
}

abbrev pub call_of : String → TaintLevel → AdmitRequest String
call_of tool taint = record {
  effect_id = "e-1";
  run_id = "r-1";
  turn = 0;
  call = record { tool = tool; params_ref = blob; params_digest = "d" };
  params = "report.txt";
  taint = taint;
  cites_referenced = [];
  capability = record { subject = "u"; scopes = "fs.write" ∷ "wecom.send" ∷ [] };
  mode = ExecutionMode.live;
  budget = budget;
  budget_used = record { tokens = 10; amount_micros = 490; wall_ms = 0 };
}
