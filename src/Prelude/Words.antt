-- ===== src/Prelude/Words.antt =====
-- Unsigned machine words as numbers: arithmetic that wraps, and the saturating operations of `u64`.
use Prim.Native.Nat.{ℕ, ◌+◌, ◌-◌, ◌*◌, ◌%◌, ◌^◌, ◌≤◌, ◌<◌}
use native.Mathlib.Omega.{arith}
use evowork.Prelude.Tests.{ltb, if◌then◌else◌}

abbrev pub u32 : ℕ → ℕ
u32 n = n % 2 ^ 32

abbrev pub u64 : ℕ → ℕ
u64 n = n % 2 ^ 64

abbrev pub u64_max : ℕ
u64_max = 2 ^ 64 - 1

-- `u64::saturating_add` and `u64::saturating_mul` stop at the greatest word, `saturating_sub` at 0.
abbrev pub saturate : ℕ → ℕ
saturate n = if ltb u64_max n then u64_max else n

unfoldable pub saturating_add : ℕ → ℕ → ℕ
saturating_add a b = saturate (a + b)

unfoldable pub saturating_mul : ℕ → ℕ → ℕ
saturating_mul a b = saturate (a * b)

abbrev pub saturating_sub : ℕ → ℕ → ℕ
saturating_sub a b = a - b

-- `Ord::max` on words.
abbrev pub max : ℕ → ℕ → ℕ
max a b = if ltb a b then b else a

pub saturating_add-le : (a b m : ℕ) → saturating_add a b ≤ m → m < u64_max → a + b ≤ m
unfolding saturating_add
saturating_add-le a b m h k = ground arith
