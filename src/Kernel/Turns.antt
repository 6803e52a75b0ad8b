-- ===== src/Kernel/Turns.antt =====
-- The turn loop: crates/evo-kernel/src/{reduce,decide}.rs together.
use evowork.Prelude.{some, false, ◌≡◌, arith}
use evowork.Protocol.Turn.{EnvSampled, ContextAssembled, PlanStep}
use evowork.Protocol.Event.{EventBody, Event}
use evowork.Kernel.State.{RunState}
use evowork.Kernel.Reduce.{reduce}
use evowork.Kernel.Decide.{Command, is_at, next_stage, follow_plan}

-- A turn that nothing is known of yet.
abbrev pub IsFresh : RunState → Type 0
IsFresh s =
    (is_at s.env_sampled_turn s.turn ≡ false)
    × (is_at s.context_turn s.turn ≡ false)
    × (is_at s.plan_turn s.turn ≡ false)

-- A turn goes through its stages in order, each opened by the event of the one before: the
-- environment is sampled, the context is assembled, the model is called, and the kernel then follows
-- the plan step that the model gave.
pub turn_stages :
    (s s1 s2 s3 : RunState) (sampled assembled planned : Event) (x : EnvSampled)
    (y : ContextAssembled) (z : PlanStep)
    → IsFresh s
    → sampled.body ≡ EventBody.env_sampled x
    → assembled.body ≡ EventBody.context_assembled y
    → planned.body ≡ EventBody.plan_step z
    → x.turn ≡ s.turn
    → y.turn ≡ s.turn
    → z.turn ≡ s.turn
    → reduce s sampled ≡ some s1
    → reduce s1 assembled ≡ some s2
    → reduce s2 planned ≡ some s3
    → (next_stage s ≡ Command.sample_env)
      × (next_stage s1 ≡ Command.assemble_context s.turn "default")
      × (next_stage s2 ≡ Command.call_model s.turn)
      × (next_stage s3 ≡ follow_plan (some z))
unfolding reduce next_stage
turn_stages s s1 s2 s3 e1 e2 e3 x y z f b1 b2 b3 t1 t2 t3 h1 h2 h3 = ground arith
