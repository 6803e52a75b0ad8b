-- ===== src/Gateway/Tighten.antt =====
-- `tighten` and the gates of crates/evo-gateway/src/pipeline.rs only make a decision stricter.
use evowork.Prelude.{ℕ, ◌≤◌, arith}
use evowork.Protocol.Governance.{RiskLevel, rank, max_risk}
use evowork.Policy.{PolicyDecision}
use evowork.Gateway.Pipeline.{tighten}

-- How strict a decision is: `allow`, then the approvals by their level, then `deny`.
abbrev pub strictness : PolicyDecision → ℕ
strictness PolicyDecision.allow = 0
strictness (PolicyDecision.require_approval risk) = rank risk
strictness (PolicyDecision.deny reason) = 4

-- Tightening gives the least decision that is as strict as the one given and as an approval at the
-- floor: it never loosens, it reaches the floor, and it asks for no more than the two together.
tighten-least :
    (d e : PolicyDecision) (floor : RiskLevel)
    → (strictness d ≤ strictness (tighten d floor))
      × (rank floor ≤ strictness (tighten d floor))
      × (strictness d ≤ strictness e
          → rank floor ≤ strictness e
          → strictness (tighten d floor) ≤ strictness e)
unfolding tighten max_risk
tighten-least d e floor = ground arith
