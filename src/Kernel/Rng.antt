-- ===== src/Kernel/Rng.antt =====
-- crates/evo-kernel/src/rng.rs: the seeding, FNV-1a but for its multiplier, and the splitmix64 generator on 64-bit words.
use Prim.Native.Nat.{bit_xor}
use evowork.Prelude.{ℕ, ◌+◌, ◌*◌, ◌/◌, ◌^◌, String, List, [], ◌∷◌}
use evowork.Prelude.Bytes.{as_bytes}
use evowork.Prelude.Words.{u64}

pub record DeterministicRng : Type 0 where
  pub seed : ℕ
  pub counter : ℕ

-- One step of the hash over a byte: FNV-1a with 2^44 + 0x1b3 for its prime.
abbrev pub fnv_byte : ℕ → ℕ → ℕ
fnv_byte h b = u64 (bit_xor h b * 0x1000000001b3)

fnv : ℕ → List ℕ → ℕ
fnv h [] = h
fnv h (b ∷ bytes) = fnv (fnv_byte h b) bytes

unfoldable pub from_seed : String → DeterministicRng
unfolding fnv as_bytes
from_seed seed = record { seed = fnv 0xcbf29ce484222325 (as_bytes seed); counter = 0 }

-- The output function of splitmix64.
unfoldable pub mix : ℕ → ℕ
mix z0 =
    let z1 = u64 (bit_xor z0 (z0 / 2 ^ 30) * 0xbf58476d1ce4e5b9) in
    let z2 = u64 (bit_xor z1 (z1 / 2 ^ 27) * 0x94d049bb133111eb) in bit_xor z2 (z2 / 2 ^ 31)

unfoldable pub next_u64 : DeterministicRng → DeterministicRng × ℕ
next_u64 g =
    let counter' = u64 (g.counter + 1) in
    (record g { counter = counter' }, mix (u64 (g.seed + u64 (counter' * 0x9e3779b97f4a7c15))))
