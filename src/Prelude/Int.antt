-- ===== src/Prelude/Int.antt =====
-- Signed machine integers: the integers over the native numbers, the casts between `u64`, `i64`,
-- `i32` and `u32`, and the divisions of Rust.
use Prim.Native.Nat.{ℕ, suc, ◌+◌, ◌-◌, ◌*◌, ◌/◌, ◌%◌, ◌^◌, ◌≤◌, ◌<◌}
use mathlib.Core.Bool.{Bool}
use mathlib.Core.Path.{◌≡◌, refl, sym, ap, ◌∙◌}
use native.Mathlib.Omega.{arith}
use evowork.Prelude.Tests.{ltb, leb, if◌then◌else◌}

-- `negsuc n` is -(n + 1).
pub data ℤ : Type 0 where
  pos : ℕ → ℤ
  negsuc : ℕ → ℤ

abbrev pub pos_part : ℤ → ℕ
pos_part (pos n) = n
pos_part (negsuc n) = 0

abbrev pub neg_part : ℤ → ℕ
neg_part (pos n) = 0
neg_part (negsuc n) = suc n

abbrev pub sub_ℕ : ℕ → ℕ → ℤ
sub_ℕ a b = if leb b a then pos (a - b) else negsuc (b - a - 1)

infixl 65 ◌+ℤ◌ ◌-ℤ◌
infixl 70 ◌*ℤ◌
infix 50 ◌≤ℤ◌ ◌<ℤ◌
unfoldable pub ◌+ℤ◌ : ℤ → ℤ → ℤ
a +ℤ b = sub_ℕ (pos_part a + pos_part b) (neg_part a + neg_part b)

unfoldable pub ◌-ℤ◌ : ℤ → ℤ → ℤ
a -ℤ b = sub_ℕ (pos_part a + neg_part b) (neg_part a + pos_part b)

-- The product with a constant of the source, none of which is negative.
unfoldable pub ◌*ℤ◌ : ℤ → ℕ → ℤ
a *ℤ k = sub_ℕ (pos_part a * k) (neg_part a * k)

abbrev pub ◌≤ℤ◌ : ℤ → ℤ → Type 0
a ≤ℤ b = pos_part a + neg_part b ≤ pos_part b + neg_part a

abbrev pub ◌<ℤ◌ : ℤ → ℤ → Type 0
a <ℤ b = pos_part a + neg_part b < pos_part b + neg_part a

abbrev pub leb_ℤ : ℤ → ℤ → Bool
leb_ℤ a b = leb (pos_part a + neg_part b) (pos_part b + neg_part a)

abbrev pub ltb_ℤ : ℤ → ℤ → Bool
ltb_ℤ a b = ltb (pos_part a + neg_part b) (pos_part b + neg_part a)

-- What `omega` needs to know of the operations.
pub +ℤ_parts :
    (a b : ℤ)
    → pos_part (a +ℤ b) + neg_part a + neg_part b ≡ neg_part (a +ℤ b) + pos_part a + pos_part b
unfolding ◌+ℤ◌
+ℤ_parts a b = ground arith

pub -ℤ_parts :
    (a b : ℤ)
    → pos_part (a -ℤ b) + neg_part a + pos_part b ≡ neg_part (a -ℤ b) + pos_part a + neg_part b
unfolding ◌-ℤ◌
-ℤ_parts a b = ground arith

pub *ℤ_parts :
    (a : ℤ) (k : ℕ) → pos_part (a *ℤ k) + neg_part a * k ≡ neg_part (a *ℤ k) + pos_part a * k
unfolding ◌*ℤ◌
*ℤ_parts a k = ground arith

pub eq_of_parts : (a b : ℤ) → pos_part a + neg_part b ≡ pos_part b + neg_part a → a ≡ b
eq_of_parts a b h = ground arith

pub parts_of_eq : (a b : ℤ) → a ≡ b → pos_part a + neg_part b ≡ pos_part b + neg_part a
parts_of_eq a b e = ap (λ z. pos_part z + neg_part b) e ∙ ap (λ z. pos_part b + neg_part z) (sym e)

-- Only one part of an integer is not 0.
pub neg_part_zero : (z : ℤ) → neg_part z ≤ pos_part z → neg_part z ≡ 0
neg_part_zero (pos n) h = refl
neg_part_zero (negsuc n) h = absurd (omega arith)

pub neg_part-le : (z : ℤ) (n : ℕ) → neg_part z ≤ pos_part z + n → neg_part z ≤ n
neg_part-le (pos k) n h = omega arith
neg_part-le (negsuc k) n h = omega arith

pub pos_part-le : (z : ℤ) (n : ℕ) → pos_part z ≤ neg_part z + n → pos_part z ≤ n
pos_part-le (pos k) n h = omega arith
pos_part-le (negsuc k) n h = omega arith

pub ruleset int_laws = (arith, +ℤ_parts, -ℤ_parts, *ℤ_parts, eq_of_parts)

-- `u64 as i64` and `i64 as u64` keep the 64 bits.
unfoldable pub as_i64 : ℕ → ℤ
as_i64 n = if ltb n (2 ^ 63) then pos n else negsuc (2 ^ 64 - 1 - n)

unfoldable pub as_u64 : ℤ → ℕ
as_u64 (pos n) = n % 2 ^ 64
as_u64 (negsuc n) = 2 ^ 64 - 1 - n % 2 ^ 64

-- `i64 as u32`.
unfoldable pub as_u32 : ℤ → ℕ
as_u32 (pos n) = n % 2 ^ 32
as_u32 (negsuc n) = 2 ^ 32 - 1 - n % 2 ^ 32

-- `i64 as i32`.
unfoldable pub as_i32 : ℤ → ℤ
as_i32 z = let n = as_u32 z in if ltb n (2 ^ 31) then pos n else negsuc (2 ^ 32 - 1 - n)

-- An `i64` sum that wraps around, as it does in a release build.
unfoldable pub wrap_i64 : ℤ → ℤ
wrap_i64 z = as_i64 (as_u64 z)

-- `div_euclid` and `rem_euclid` by a positive constant.
unfoldable pub div_euclid : ℤ → ℕ → ℤ
div_euclid (pos n) d = pos (n / d)
div_euclid (negsuc n) d = negsuc (n / d)

unfoldable pub rem_euclid : ℤ → ℕ → ℕ
rem_euclid (pos n) d = n % d
rem_euclid (negsuc n) d = d - 1 - n % d

-- `/` and `%` by a positive constant, which round towards zero; the remainder without its sign.
unfoldable pub trunc_div : ℤ → ℕ → ℤ
trunc_div (pos n) d = pos (n / d)
trunc_div (negsuc n) d = sub_ℕ 0 (suc n / d)

unfoldable pub rem_abs : ℤ → ℕ → ℕ
rem_abs (pos n) d = n % d
rem_abs (negsuc n) d = suc n % d

-- The bits of a `u64` survive the way through an `i64`.
pub as_u64-as_i64 : (n : ℕ) → n < 2 ^ 64 → as_u64 (as_i64 n) ≡ n
unfolding as_u64 as_i64
as_u64-as_i64 n h = ground arith

pub as_i64_small : (n : ℕ) → n < 2 ^ 63 → as_i64 n ≡ pos n
unfolding as_i64
as_i64_small n h = ground arith

pub as_i64_wraps : (n : ℕ) → 2 ^ 63 ≤ n → as_i64 n <ℤ pos 0
unfolding as_i64
as_i64_wraps n h = ground arith

-- `z` is an `i64`.
abbrev pub IsI64 : ℤ → Type 0
IsI64 z = (neg_part z ≤ 2 ^ 63) × (pos_part z < 2 ^ 63)

pub wrap_i64_fits : (z : ℤ) → IsI64 z → wrap_i64 z ≡ z
unfolding wrap_i64 as_u64 as_i64
wrap_i64_fits (pos n) h = ground arith
wrap_i64_fits (negsuc n) h = ground arith

pub as_i32_fits : (z : ℤ) → neg_part z ≤ 2 ^ 31 → pos_part z < 2 ^ 31 → as_i32 z ≡ z
unfolding as_i32 as_u32
as_i32_fits (pos n) h k = ground arith
as_i32_fits (negsuc n) h k = ground arith

pub as_u32_fits : (z : ℤ) → neg_part z ≡ 0 → pos_part z < 2 ^ 32 → as_u32 z ≡ pos_part z
unfolding as_u32
as_u32_fits (pos n) h k = ground arith
as_u32_fits (negsuc n) h k = ground arith

-- The same from bounds on the integer itself.
pub wrap_i64_near :
    (z : ℤ)
    → neg_part z ≤ pos_part z + 2 ^ 63
    → pos_part z ≤ neg_part z + (2 ^ 63 - 1)
    → wrap_i64 z ≡ z
wrap_i64_near z h k =
    let below = neg_part-le z (2 ^ 63) h in
    let above = pos_part-le z (2 ^ 63 - 1) k in wrap_i64_fits z (below, omega arith)

pub as_u64_fits : (z : ℤ) → neg_part z ≡ 0 → pos_part z < 2 ^ 64 → pos (as_u64 z) ≡ z
unfolding as_u64
as_u64_fits (pos n) h k = eq_of_parts _ _ (omega arith)
as_u64_fits (negsuc n) h k = absurd (omega arith)
